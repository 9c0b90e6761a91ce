-- ===== src/Cron/Service/Due.antt =====
-- pkg/cron/service.go: when a job is due.
use moon_hub.Base.{
  ℕ, ◌<◌, ◌≡◌, refl, ◌∙◌, String, Bool, true, false, ◌&&◌, Option, none, some, List, [], ◌∷◌, ltb,
  arith,
}
use moon_hub.Cron.Service.{
  CronSchedule, CronJob, CronService, ReadResult, due_job_ids, earlier_wake, next_wake,
  get_next_wake_ms, compute_next_run, recompute_next_runs, load_store, start_service,
}

abbrev pub is_nil : List String → Bool
is_nil [] = true
is_nil (id ∷ ids) = false

abbrev pub is_later : ℕ → Option ℕ → Bool
is_later now none = true
is_later now (some wake) = ltb now wake

due-next_wake :
    (now : ℕ) (jobs : List CronJob) (wake : Option ℕ)
    → is_later now (next_wake jobs wake) ≡ (is_nil (due_job_ids now jobs) && is_later now wake)
unfolding next_wake due_job_ids
due-next_wake now [] wake = refl
due-next_wake now (job ∷ jobs) wake =
    due-next_wake now jobs (earlier_wake job.enabled job.state.next_run_at_ms wake) ∙ ground arith

-- No job is due exactly when the next wake is none or later than the time.
pub get_next_wake_ms-due :
    (now : ℕ) (cs : CronService)
    → is_nil (due_job_ids now cs.jobs) ≡ is_later now (get_next_wake_ms cs)
unfolding get_next_wake_ms
get_next_wake_ms-due now cs = ground (arith, due-next_wake now cs.jobs none)

module _ (next_tick : String → ℕ → Option ℕ) where
  -- What a time means that the schedule gives.
  abbrev pub IsAfter : ℕ → Option ℕ → Type 0
  IsAfter now none = Unit
  IsAfter now (some t) = now < t

  compute_next_run-IsAfter :
      (schedule : CronSchedule) (now : ℕ)
      → ((expr : String) → IsAfter now (next_tick expr now))
      → IsAfter now (compute_next_run next_tick schedule now)
  unfolding compute_next_run
  compute_next_run-IsAfter schedule now h = ground (arith, h schedule.expr)

  planned-nothing_due :
      (now : ℕ) (jobs : List CronJob)
      → ((expr : String) → IsAfter now (next_tick expr now))
      → due_job_ids now (recompute_next_runs next_tick now jobs) ≡ []
  unfolding due_job_ids recompute_next_runs
  planned-nothing_due now [] h = refl
  planned-nothing_due now (job ∷ jobs) h =
      ground (arith, planned-nothing_due now jobs h, compute_next_run-IsAfter job.schedule now h)

  -- Where every tick of a cron expression lies after the time it is asked for: after a `Start` of a
  -- stopped service that succeeds, no job is due at the time of the start.
  pub start_service-nothing_due :
      (read : ReadResult) (saves : Bool) (now : ℕ) (cs : CronService)
      → ((expr : String) → IsAfter now (next_tick expr now))
      → cs.running ≡ false
      → (start_service next_tick read saves now cs).1 ≡ true
      → due_job_ids now (start_service next_tick read saves now cs).0.jobs ≡ []
  unfolding start_service
  start_service-nothing_due read saves now cs h stopped ok =
      let jobs = (load_store next_tick read cs).0.jobs in
      ground (arith, planned-nothing_due now jobs h)
