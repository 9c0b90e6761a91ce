-- ===== src/Cron/Service.antt =====
-- pkg/cron/service.go: the jobs of the scheduler. `checkJobs` collects the due jobs and executes them
-- without the lock, so it is the steps `collect_due`, `callback_job` and `finish_job` here. Times are
-- milliseconds; a negative time or interval reads as 0. Whether the store can be written is an
-- argument, as are the clock readings, the fresh ids and the ticks of a cron expression, which the
-- package gronx computes. The file holds the jobs themselves, not their JSON text.
pub mod Due
pub mod Rows
pub mod Steps
pub mod Once
use moon_hub.Base.{
  ℕ, ◌+◌, String, Bool, true, false, not, ◌&&◌, ◌||◌, Option, none, some, List, [], ◌∷◌, ◌++◌, ltb,
  leb, ◌==◌, if◌then◌else◌, str_eq, length,
}

-- `other` is a kind that no branch knows.
pub data ScheduleKind : Type 0 where
  at every cron other : ScheduleKind

abbrev pub is_at : ScheduleKind → Bool
is_at at = true
is_at _ = false

pub record CronSchedule : Type 0 where
  pub kind : ScheduleKind
  pub at_ms : Option ℕ
  pub every_ms : Option ℕ
  pub expr : String
  pub tz : String

pub record CronPayload : Type 0 where
  pub kind : String
  pub message : String
  pub command : String
  pub deliver : Bool
  pub channel : String
  pub recipient : String

pub record CronJobState : Type 0 where
  pub next_run_at_ms : Option ℕ
  pub last_run_at_ms : Option ℕ
  pub last_status : String
  pub last_error : String

pub record CronJob : Type 0 where
  pub id : String
  pub name : String
  pub enabled : Bool
  pub schedule : CronSchedule
  pub payload : CronPayload
  pub state : CronJobState
  pub created_at_ms : ℕ
  pub updated_at_ms : ℕ
  pub delete_after_run : Bool

pub record CronService : Type 0 where
  pub jobs : List CronJob
  pub running : Bool
  pub file : List CronJob

-- What the read of the file gives. A text that is no JSON may leave some jobs behind in the code, and
-- none here; `Start` fails all the same.
pub data ReadResult : Type 0 where
  missing unreadable readable : ReadResult

-- `saveStoreUnsafe`.
abbrev pub save_store : Bool → CronService → CronService
save_store true cs = record cs { file = cs.jobs }
save_store false cs = cs

abbrev pub with_next_run : Option ℕ → CronJob → CronJob
with_next_run next job = record job { state = record job.state { next_run_at_ms = next } }

abbrev pub is_due : ℕ → CronJob → Bool
is_due now job = job.enabled && elim job.state.next_run_at_ms [ none ↦ false | some t ↦ leb t now ]

-- `dueJobIDs`.
unfoldable pub due_job_ids : ℕ → List CronJob → List String
due_job_ids now [] = []
due_job_ids now (job ∷ jobs) =
    let rest = due_job_ids now jobs in if is_due now job then job.id ∷ rest else rest

-- `dueMap[id]`.
unfoldable pub in_due_map : String → List String → Bool
in_due_map id [] = false
in_due_map id (due ∷ others) =
    let rest = in_due_map id others in if str_eq due id then true else rest

unfoldable pub reset_due : List String → List CronJob → List CronJob
unfolding in_due_map
reset_due ids [] = []
reset_due ids (job ∷ jobs) =
    (if in_due_map job.id ids then with_next_run none job else job) ∷ reset_due ids jobs

-- `checkJobs` up to the execution: the ids to execute.
unfoldable pub collect_due : ℕ → Bool → CronService → CronService × List String
unfolding due_job_ids reset_due
collect_due now saves cs =
    let ids = due_job_ids now cs.jobs in
    if not cs.running
    then (cs, [])
    else (save_store saves (record cs { jobs = reset_due ids cs.jobs }), ids)

-- The first job with the id, copied for the callback.
unfoldable pub callback_job : String → List CronJob → Option CronJob
callback_job id [] = none
callback_job id (job ∷ jobs) =
    let rest = callback_job id jobs in if str_eq job.id id then some job else rest

-- A change of the first job with the id.
unfoldable pub change_job : String → (CronJob → CronJob) → List CronJob → List CronJob
change_job id change [] = []
change_job id change (job ∷ jobs) =
    let rest = change_job id change jobs in
    if str_eq job.id id then change job ∷ jobs else job ∷ rest

unfoldable pub without_job : String → List CronJob → List CronJob
without_job id [] = []
without_job id (job ∷ jobs) =
    let rest = without_job id jobs in if str_eq job.id id then rest else job ∷ rest

-- `removeJobUnsafe`: the store is written only if a job went.
unfoldable pub remove_job : Bool → String → CronService → CronService × Bool
unfolding without_job
remove_job saves id cs =
    let rest = without_job id cs.jobs in
    let later = record cs { jobs = rest } in
    if ltb (length rest) (length cs.jobs) then (save_store saves later, true) else (later, false)

-- The earlier of the wake so far and the run of a job.
abbrev pub earlier_wake : Bool → Option ℕ → Option ℕ → Option ℕ
earlier_wake true (some t) (some wake) = if ltb t wake then some t else some wake
earlier_wake true (some t) none = some t
earlier_wake _ _ wake = wake

unfoldable pub next_wake : List CronJob → Option ℕ → Option ℕ
next_wake [] wake = wake
next_wake (job ∷ jobs) wake =
    next_wake jobs (earlier_wake job.enabled job.state.next_run_at_ms wake)

unfoldable pub get_next_wake_ms : CronService → Option ℕ
unfolding next_wake
get_next_wake_ms cs = next_wake cs.jobs none

unfoldable pub list_jobs : Bool → List CronJob → List CronJob
list_jobs include_disabled [] = []
list_jobs include_disabled (job ∷ jobs) =
    let rest = list_jobs include_disabled jobs in
    if include_disabled || job.enabled then job ∷ rest else rest

unfoldable pub update_job : Bool → ℕ → CronJob → CronService → CronService × Bool
unfolding callback_job change_job
update_job saves now job cs = elim (callback_job job.id cs.jobs) [
  | none ↦ (cs, false)
  | some old ↦ (
    save_store saves
        (record cs { jobs = change_job job.id (λ j. record job { updated_at_ms = now }) cs.jobs }),
    saves,
  )
]

unfoldable pub stop_service : CronService → CronService
stop_service cs = record cs { running = false }

-- The next tick of a cron expression after a time, none for an error.
module _ (next_tick : String → ℕ → Option ℕ) where
  unfoldable pub compute_next_run : CronSchedule → ℕ → Option ℕ
  compute_next_run schedule now = elim schedule.kind [
    | at ↦ elim schedule.at_ms [ none ↦ none | some t ↦ if ltb now t then some t else none ]
    | every ↦ elim schedule.every_ms [
      | none ↦ none
      | some ms ↦ if ms == 0 then none else some (now + ms)
    ]
    | cron ↦ if str_eq schedule.expr "" then none else next_tick schedule.expr now
    | other ↦ none
  ]

  unfoldable pub recompute_next_runs : ℕ → List CronJob → List CronJob
  unfolding compute_next_run
  recompute_next_runs now [] = []
  recompute_next_runs now (job ∷ jobs) =
      (if job.enabled then with_next_run (compute_next_run job.schedule now) job else job)
      ∷ recompute_next_runs now jobs

  unfoldable pub load_store : ReadResult → CronService → CronService × Bool
  load_store missing cs = (record cs { jobs = [] }, true)
  load_store unreadable cs = (record cs { jobs = [] }, false)
  load_store readable cs = (record cs { jobs = cs.file }, true)

  -- The service, and whether there was no error.
  unfoldable pub start_service : ReadResult → Bool → ℕ → CronService → CronService × Bool
  unfolding load_store recompute_next_runs
  start_service read saves now cs =
      let loaded = load_store read cs in
      let planned = record loaded.0 { jobs = recompute_next_runs now loaded.0.jobs } in
      if cs.running
      then (cs, true)
      else if not loaded.1
      then (loaded.0, false)
      else if saves
      then (record (save_store saves planned) { running = true }, true)
      else (planned, false)

  -- The state of a job after its execution, `error` being none for a success.
  unfoldable pub executed : ℕ → ℕ → Option String → CronJob → CronJob
  unfolding compute_next_run
  executed start_time now error job =
      let ran = record job {
        updated_at_ms = now;
        state = record job.state {
          last_run_at_ms = some start_time;
          last_status = elim error [ none ↦ "ok" | some e ↦ "error" ];
          last_error = elim error [ none ↦ "" | some e ↦ e ];
        };
      } in
      if is_at job.schedule.kind
      then (if job.delete_after_run
          then ran
          else record (with_next_run none ran) { enabled = false })
      else with_next_run (compute_next_run job.schedule now) ran

  -- `executeJobByID` after the callback.
  unfoldable pub finish_job : ℕ → ℕ → Option String → Bool → String → CronService → CronService
  unfolding executed callback_job change_job remove_job
  finish_job start_time now error saves id cs = elim (callback_job id cs.jobs) [
    | none ↦ cs
    | some job ↦
        let later = record cs { jobs = change_job id (executed start_time now error) cs.jobs } in
        save_store saves (
          if is_at job.schedule.kind && job.delete_after_run
          then (remove_job saves id later).0
          else later)
  ]

  -- The job of `AddJob`.
  unfoldable pub new_job : ℕ → String → String → CronSchedule → CronPayload → CronJob
  unfolding compute_next_run
  new_job now fresh name schedule payload = record {
    id = fresh;
    name = name;
    enabled = true;
    schedule = schedule;
    payload = record payload { kind = "agent_turn"; command = "" };
    state = record {
      next_run_at_ms = compute_next_run schedule now;
      last_run_at_ms = none;
      last_status = "";
      last_error = "";
    };
    created_at_ms = now;
    updated_at_ms = now;
    delete_after_run = is_at schedule.kind;
  }

  -- The service, and the job unless the store could not be written.
  unfoldable pub add_job :
      Bool
      → ℕ
      → String
      → String
      → CronSchedule
      → CronPayload
      → CronService
      → CronService × Option CronJob
  unfolding new_job
  add_job saves now fresh name schedule payload cs =
      let job = new_job now fresh name schedule payload in
      (
        save_store saves (record cs { jobs = cs.jobs ++ job ∷ [] }),
        if saves then some job else none,
      )

  unfoldable pub set_enabled : Bool → ℕ → CronJob → CronJob
  unfolding compute_next_run
  set_enabled enabled now job =
      with_next_run (if enabled then compute_next_run job.schedule now else none)
        (record job { enabled = enabled; updated_at_ms = now })

  -- The service, and whether the job was found.
  unfoldable pub enable_job : Bool → ℕ → String → Bool → CronService → CronService × Bool
  unfolding callback_job change_job set_enabled
  enable_job saves now id enabled cs = elim (callback_job id cs.jobs) [
    | none ↦ (cs, false)
    | some job ↦ (
      save_store saves (record cs { jobs = change_job id (set_enabled enabled now) cs.jobs }),
      true,
    )
  ]
