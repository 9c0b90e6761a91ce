-- ===== src/Tests/Cron.antt =====
-- The scheduler of pkg/cron at concrete inputs.
use moon_hub.Base.{
  ℕ, ◌+◌, ◌≡◌, ◌≢◌, refl, String, true, false, Option, none, some, List, [], ◌∷◌, arith, eq_iff,
}
use moon_hub.Cron.Service.{
  at, every, CronSchedule, CronPayload, CronJob, CronService, readable, due_job_ids, in_due_map,
  get_next_wake_ms, collect_due, finish_job, add_job, start_service, callback_job,
}
use moon_hub.Cron.Service.Due.{start_service-nothing_due, is_nil, get_next_wake_ms-due}
use moon_hub.Cron.Service.Steps.{Step, checks, finishes, removes, run_steps}
use moon_hub.Cron.Service.Once.{collects_once, runs_at_once, count_jobs}

-- A cron expression that ticks 60 milliseconds later.
abbrev minutely : String → ℕ → Option ℕ
minutely expr now = some (now + 60)

abbrev at_time : ℕ → CronSchedule
at_time t = record { kind = at; at_ms = some t; every_ms = none; expr = ""; tz = "" }

abbrev each : ℕ → CronSchedule
each ms = record { kind = every; at_ms = none; every_ms = some ms; expr = ""; tz = "" }

abbrev greeting : CronPayload
greeting = record {
  kind = "";
  message = "hello";
  command = "";
  deliver = true;
  channel = "irc";
  recipient = "ann";
}

abbrev idle_service : CronService
idle_service = record { jobs = []; running = true; file = [] }

abbrev one_job : CronService
one_job = (add_job minutely true 0 "j1" "once" (at_time 10) greeting idle_service).0

abbrev two_jobs : CronService
two_jobs = (add_job minutely true 0 "j2" "often" (each 5) greeting one_job).0

get_next_wake_ms-due_example : is_nil (due_job_ids 4 two_jobs.jobs) ≡ true
unfolding get_next_wake_ms add_job
get_next_wake_ms-due_example = get_next_wake_ms-due 4 two_jobs

other_job : ◌≢◌ {A = String} "j2" "j1"
other_job = ground (arith, eq_iff "j2" "j1")

abbrev between : List Step
between = checks 11 true ∷ finishes 10 12 none true "j2" ∷ []

collects_once_example :
    in_due_map "j1"
      (collect_due 30 true (run_steps minutely between (collect_due 10 true two_jobs).0)).1
    ≡ false
unfolding collect_due in_due_map add_job
collects_once_example =
    collects_once minutely "j1" 10 30 true true two_jobs between refl (tt, (other_job, tt)) refl

abbrev first_job : CronJob
first_job = record {
  id = "j1";
  name = "once";
  enabled = true;
  schedule = at_time 10;
  payload = record greeting { kind = "agent_turn" };
  state = record {
    next_run_at_ms = none;
    last_run_at_ms = none;
    last_status = "";
    last_error = "";
  };
  created_at_ms = 0;
  updated_at_ms = 0;
  delete_after_run = true;
}

abbrev collected : CronService
collected = (collect_due 10 true two_jobs).0

runs_at_once_example :
    in_due_map "j1"
      (collect_due 40 true (
        run_steps minutely
          (checks 20 true ∷ removes true "j2" ∷ [])
          (finish_job minutely 10 12 none true "j1" collected))).1
    ≡ false
unfolding collect_due callback_job count_jobs add_job
runs_at_once_example =
    runs_at_once minutely "j1" 10 12 40 none true true first_job collected
      (checks 20 true ∷ removes true "j2" ∷ []) refl refl (omega arith) (tt, (tt, tt))

-- `AddJob` fails, and yet the job is due at its time.
add_job-unsaved :
    ((add_job minutely false 0 "j1" "once" (at_time 10) greeting idle_service).1 ≡ none)
    × (due_job_ids 10
          (add_job minutely false 0 "j1" "once" (at_time 10) greeting idle_service).0.jobs
        ≡ "j1" ∷ [])
unfolding add_job due_job_ids
add_job-unsaved = (refl, refl)

-- The time of a job passes while the service is down: the job stays, enabled, and is never due.
start_service-missed :
    due_job_ids 1000
      (start_service minutely readable true 20 (record one_job { running = false })).0.jobs
    ≡ []
unfolding start_service add_job due_job_ids
start_service-missed = refl

start_service-two_jobs :
    due_job_ids 9
      (start_service minutely readable true 9 (record two_jobs { running = false })).0.jobs
    ≡ []
unfolding start_service
start_service-two_jobs =
    start_service-nothing_due minutely readable true 9 (record two_jobs { running = false })
      (λ expr. omega arith) refl refl
