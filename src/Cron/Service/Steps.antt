-- ===== src/Cron/Service/Steps.antt =====
-- pkg/cron/service.go: sequences of steps, and what each keeps of the jobs with an id.
use moon_hub.Base.{
  ℕ, ◌≡◌, ◌≢◌, refl, ◌∙◌, String, Bool, true, false, ◌&&◌, Option, none, List, [], ◌∷◌, ◌++◌,
  if◌then◌else◌, arith, Bool-cases, Option-cases, inl, inr,
}
use moon_hub.Cron.Service.{
  is_at, CronSchedule, CronPayload, CronJob, CronService, due_job_ids, collect_due, save_store,
  with_next_run, finish_job, executed, add_job, new_job, update_job, remove_job, enable_job,
  set_enabled, stop_service, callback_job, change_job,
}
use moon_hub.Cron.Service.Rows.{
  AllWith, reset_due-AllWith, change_job-AllWith, without_job-AllWith, append-AllWith,
}

-- The steps of the service, with what each is given.
pub data Step : Type 0 where
  checks : ℕ → Bool → Step
  finishes : ℕ → ℕ → Option String → Bool → String → Step
  adds : Bool → ℕ → String → String → CronSchedule → CronPayload → Step
  updates : Bool → ℕ → CronJob → Step
  removes : Bool → String → Step
  enables : Bool → ℕ → String → Bool → Step
  stops : Step

module _ (next_tick : String → ℕ → Option ℕ) where
  unfoldable pub run_step : Step → CronService → CronService
  unfolding collect_due finish_job add_job update_job remove_job enable_job stop_service
  run_step (checks now saves) cs = (collect_due now saves cs).0
  run_step (finishes start_time now error saves id) cs =
      finish_job next_tick start_time now error saves id cs
  run_step (adds saves now fresh name schedule payload) cs =
      (add_job next_tick saves now fresh name schedule payload cs).0
  run_step (updates saves now job) cs = (update_job saves now job cs).0
  run_step (removes saves id) cs = (remove_job saves id cs).0
  run_step (enables saves now id enabled) cs = (enable_job next_tick saves now id enabled cs).0
  run_step stops cs = stop_service cs

  unfoldable pub run_steps : List Step → CronService → CronService
  unfolding run_step
  run_steps [] cs = cs
  run_steps (step ∷ steps) cs = run_steps steps (run_step step cs)

  pub save_store-jobs : (saves : Bool) (cs : CronService) → (save_store saves cs).jobs ≡ cs.jobs
  save_store-jobs true cs = refl
  save_store-jobs false cs = refl

  module _ (id : String) (test : CronJob → Bool) where
    abbrev pub Keeps : CronService → Type 0
    Keeps cs = AllWith id test cs.jobs

    pub collect_due-Keeps :
        (now : ℕ) (saves : Bool) (cs : CronService)
        → ((job : CronJob) → test job ≡ true → test (with_next_run none job) ≡ true)
        → Keeps cs
        → Keeps (collect_due now saves cs).0
    unfolding collect_due
    collect_due-Keeps now saves cs f h = ground (
      arith,
      save_store-jobs saves,
      reset_due-AllWith id test (due_job_ids now cs.jobs) cs.jobs f h,
    )

    pub remove_job-Keeps :
        (saves : Bool) (i : String) (cs : CronService) → Keeps cs → Keeps (remove_job saves i cs).0
    unfolding remove_job
    remove_job-Keeps saves i cs h =
        ground (arith, save_store-jobs saves, without_job-AllWith id test i cs.jobs h)

    pub saved-Keeps : (saves : Bool) (cs : CronService) → Keeps cs → Keeps (save_store saves cs)
    saved-Keeps true cs h = h
    saved-Keeps false cs h = h

    executed-id :
        (start_time now : ℕ) (error : Option String) (job : CronJob)
        → (executed next_tick start_time now error job).id ≡ job.id
    unfolding executed
    executed-id start_time now error job = ground arith

    pub finish_job-Keeps :
        (start_time now : ℕ) (error : Option String) (saves : Bool) (i : String) (cs : CronService)
        → ((job : CronJob)
            → i ≡ id
            → test job ≡ true
            → test (executed next_tick start_time now error job) ≡ true)
        → Keeps cs
        → Keeps (finish_job next_tick start_time now error saves i cs)
    unfolding finish_job
    finish_job-Keeps start_time now error saves i cs f h =
        let later = record cs {
          jobs = change_job i (executed next_tick start_time now error) cs.jobs;
        } in
        let kept =
          change_job-AllWith id test i (executed next_tick start_time now error) cs.jobs
            (λ job e. executed-id start_time now error job ∙ e) (λ job e s. f job s) h in
        elim (Option-cases (callback_job i cs.jobs)) [
          | inl e ↦ rw (e, finish_job) h
          | inr (job, e) ↦
              rw (e, finish_job)
                (saved-Keeps saves
                  (if is_at job.schedule.kind && job.delete_after_run
                    then (remove_job saves i later).0
                    else later)
                  (elim (Bool-cases (is_at job.schedule.kind && job.delete_after_run)) [
                    | inl gone ↦ rw (gone) (remove_job-Keeps saves i later kept)
                    | inr stays ↦ rw (stays) kept
                  ]))
        ]

    pub add_job-Keeps :
        (saves : Bool) (now : ℕ) (fresh name : String) (schedule : CronSchedule)
        (payload : CronPayload) (cs : CronService)
        → fresh ≢ id
        → Keeps cs
        → Keeps (add_job next_tick saves now fresh name schedule payload cs).0
    unfolding add_job new_job
    add_job-Keeps saves now fresh name schedule payload cs n h =
        let job = new_job next_tick now fresh name schedule payload in
        saved-Keeps saves (record cs { jobs = cs.jobs ++ job ∷ [] })
          (append-AllWith id test cs.jobs job n h)

    pub update_job-Keeps :
        (saves : Bool) (now : ℕ) (job : CronJob) (cs : CronService)
        → job.id ≢ id
        → Keeps cs
        → Keeps (update_job saves now job cs).0
    unfolding update_job
    update_job-Keeps saves now job cs n h = elim (Option-cases (callback_job job.id cs.jobs)) [
      | inl e ↦ rw (e, update_job) h
      | inr (old, e) ↦
          rw (e, update_job)
            (saved-Keeps saves
              (record cs {
                jobs = change_job job.id (λ j. record job { updated_at_ms = now }) cs.jobs;
              })
              (change_job-AllWith id test job.id (λ j. record job { updated_at_ms = now }) cs.jobs
                (λ j k. refl) (λ j k s. absurd (n s)) h))
    ]

    set_enabled-id :
        (b : Bool) (t : ℕ) (job : CronJob) → (set_enabled next_tick b t job).id ≡ job.id
    unfolding set_enabled
    set_enabled-id b t job = refl

    pub enable_job-Keeps :
        (saves : Bool) (now : ℕ) (i : String) (enabled : Bool) (cs : CronService)
        → ((job : CronJob)
            → i ≡ id
            → test job ≡ true
            → test (set_enabled next_tick enabled now job) ≡ true)
        → Keeps cs
        → Keeps (enable_job next_tick saves now i enabled cs).0
    unfolding enable_job
    enable_job-Keeps saves now i enabled cs f h = elim (Option-cases (callback_job i cs.jobs)) [
      | inl e ↦ rw (e, enable_job) h
      | inr (old, e) ↦
          rw (e, enable_job)
            (saved-Keeps saves
              (record cs { jobs = change_job i (set_enabled next_tick enabled now) cs.jobs })
              (change_job-AllWith id test i (set_enabled next_tick enabled now) cs.jobs
                (λ job k. set_enabled-id enabled now job ∙ k) (λ job k s. f job s) h))
    ]
