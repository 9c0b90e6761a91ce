-- ===== src/Cron/Service/Once.antt =====
-- pkg/cron/service.go: jobs that are not collected twice.
use moon_hub.Base.{
  ℕ, suc, ◌≤◌, ◌≡◌, ◌≢◌, refl, ap, String, Bool, true, false, not, ◌&&◌, Option, none, some, List,
  [], ◌∷◌, if◌then◌else◌, str_eq, eq_iff, arith, All, Bool-cases, inl, inr,
}
use moon_hub.Cron.Service.{
  is_at, CronJob, CronService, is_due, due_job_ids, in_due_map, reset_due, collect_due, finish_job,
  executed, remove_job, set_enabled, callback_job, change_job, without_job,
}
use moon_hub.Cron.Service.Steps.{
  Step, checks, finishes, adds, updates, removes, enables, stops, run_step, run_steps,
  collect_due-Keeps, finish_job-Keeps, add_job-Keeps, update_job-Keeps, remove_job-Keeps,
  enable_job-Keeps, saved-Keeps, save_store-jobs,
}
use moon_hub.Cron.Service.Rows.{all_with, AllWith, never_due}

-- The step leaves the runs of the job alone.
abbrev pub Spares : String → Step → Type 0
Spares id (finishes start_time now error saves i) = i ≢ id
Spares id (adds saves now fresh name schedule payload) = fresh ≢ id
Spares id (updates saves now job) = job.id ≢ id
Spares id (enables saves now i enabled) = i ≢ id
Spares id _ = Unit

-- A job without a next run.
abbrev pub is_parked : CronJob → Bool
is_parked job = elim job.state.next_run_at_ms [ none ↦ true | some t ↦ false ]

-- The step does not enable the job.
abbrev pub LeavesDisabled : String → Step → Type 0
LeavesDisabled id (adds saves now fresh name schedule payload) = fresh ≢ id
LeavesDisabled id (updates saves now job) = job.id ≢ id
LeavesDisabled id (enables saves now i true) = i ≢ id
LeavesDisabled id _ = Unit

-- A job that is disabled.
abbrev pub is_spent : CronJob → Bool
is_spent job = not job.enabled

module _ (next_tick : String → ℕ → Option ℕ) (id : String) where
  run_step-parked :
      (step : Step) (cs : CronService)
      → Spares id step
      → AllWith id is_parked cs.jobs
      → AllWith id is_parked (run_step next_tick step cs).jobs
  unfolding run_step
  run_step-parked (checks now saves) cs n h =
      collect_due-Keeps next_tick id is_parked now saves cs (λ job e. refl) h
  run_step-parked (finishes start_time now error saves i) cs n h =
      finish_job-Keeps next_tick id is_parked start_time now error saves i cs
        (λ job e k. absurd (n e)) h
  run_step-parked (adds saves now fresh name schedule payload) cs n h =
      add_job-Keeps next_tick id is_parked saves now fresh name schedule payload cs n h
  run_step-parked (updates saves now job) cs n h =
      update_job-Keeps next_tick id is_parked saves now job cs n h
  run_step-parked (removes saves i) cs n h = remove_job-Keeps next_tick id is_parked saves i cs h
  run_step-parked (enables saves now i enabled) cs n h =
      enable_job-Keeps next_tick id is_parked saves now i enabled cs (λ job e k. absurd (n e)) h
  run_step-parked stops cs n h = h

  run_steps-parked :
      (steps : List Step) (cs : CronService)
      → All (Spares id) steps
      → AllWith id is_parked cs.jobs
      → AllWith id is_parked (run_steps next_tick steps cs).jobs
  unfolding run_steps
  run_steps-parked [] cs n h = h
  run_steps-parked (step ∷ steps) cs n h =
      run_steps-parked steps (run_step next_tick step cs) n.1 (run_step-parked step cs n.0 h)

  reset-parked :
      (ids : List String) (jobs : List CronJob)
      → in_due_map id ids ≡ true
      → AllWith id is_parked (reset_due ids jobs)
  unfolding reset_due all_with
  reset-parked ids [] h = refl
  reset-parked ids (job ∷ jobs) h = ground (
    arith,
    eq_iff job.id id,
    ap (λ i. in_due_map i ids) {x = job.id} {y = id},
    reset-parked ids jobs h,
  )

  collected-parked :
      (now : ℕ) (saves : Bool) (cs : CronService)
      → cs.running ≡ true
      → in_due_map id (collect_due now saves cs).1 ≡ true
      → AllWith id is_parked (collect_due now saves cs).0.jobs
  unfolding collect_due
  collected-parked now saves cs r h =
      ground
        (arith, r, save_store-jobs next_tick saves, reset-parked (due_job_ids now cs.jobs) cs.jobs)

  not_collected :
      (now : ℕ) (saves : Bool) (cs : CronService) (test : CronJob → Bool)
      → ((job : CronJob) → test job ≡ true → is_due now job ≡ false)
      → AllWith id test cs.jobs
      → in_due_map id (collect_due now saves cs).1 ≡ false
  unfolding collect_due in_due_map
  not_collected now saves cs test f h = ground (arith, never_due id test now cs.jobs f h)

  -- A job that a running service has collected is not collected again, whatever checks follow, before
  -- a step finishes, updates or enables it, adds a job under its id, or the service is started or its
  -- file loaded anew.
  pub collects_once :
      (now later : ℕ) (saves later_saves : Bool) (cs : CronService) (steps : List Step)
      → cs.running ≡ true
      → All (Spares id) steps
      → in_due_map id (collect_due now saves cs).1 ≡ true
      → in_due_map id
          (collect_due later later_saves (run_steps next_tick steps (collect_due now saves cs).0)).1
        ≡ false
  collects_once now later saves later_saves cs steps r n h =
      not_collected later later_saves (run_steps next_tick steps (collect_due now saves cs).0)
        is_parked (λ job e. ground arith)
        (run_steps-parked steps (collect_due now saves cs).0 n (collected-parked now saves cs r h))

  run_step-spent :
      (step : Step) (cs : CronService)
      → LeavesDisabled id step
      → AllWith id is_spent cs.jobs
      → AllWith id is_spent (run_step next_tick step cs).jobs
  unfolding run_step executed set_enabled
  run_step-spent (checks now saves) cs n h =
      collect_due-Keeps next_tick id is_spent now saves cs (λ job e. e) h
  run_step-spent (finishes start_time now error saves i) cs n h =
      finish_job-Keeps next_tick id is_spent start_time now error saves i cs
        (λ job e k. ground arith) h
  run_step-spent (adds saves now fresh name schedule payload) cs n h =
      add_job-Keeps next_tick id is_spent saves now fresh name schedule payload cs n h
  run_step-spent (updates saves now job) cs n h =
      update_job-Keeps next_tick id is_spent saves now job cs n h
  run_step-spent (removes saves i) cs n h = remove_job-Keeps next_tick id is_spent saves i cs h
  run_step-spent (enables saves now i true) cs n h =
      enable_job-Keeps next_tick id is_spent saves now i true cs (λ job e k. absurd (n e)) h
  run_step-spent (enables saves now i false) cs n h =
      enable_job-Keeps next_tick id is_spent saves now i false cs (λ job e k. refl) h
  run_step-spent stops cs n h = h

  run_steps-spent :
      (steps : List Step) (cs : CronService)
      → All (LeavesDisabled id) steps
      → AllWith id is_spent cs.jobs
      → AllWith id is_spent (run_steps next_tick steps cs).jobs
  unfolding run_steps
  run_steps-spent [] cs n h = h
  run_steps-spent (step ∷ steps) cs n h =
      run_steps-spent steps (run_step next_tick step cs) n.1 (run_step-spent step cs n.0 h)

  without-spent : (jobs : List CronJob) → AllWith id is_spent (without_job id jobs)
  unfolding all_with without_job
  without-spent [] = refl
  without-spent (job ∷ jobs) = ground (arith, without-spent jobs)

  unfoldable pub count_jobs : List CronJob → ℕ
  count_jobs [] = 0
  count_jobs (job ∷ jobs) =
      let rest = count_jobs jobs in if str_eq job.id id then suc rest else rest

  none-spent : (jobs : List CronJob) → count_jobs jobs ≡ 0 → AllWith id is_spent jobs
  unfolding all_with count_jobs
  none-spent [] h = refl
  none-spent (job ∷ jobs) h = ground (arith, none-spent jobs)

  changed-spent :
      (change : CronJob → CronJob) (job : CronJob) (jobs : List CronJob)
      → callback_job id jobs ≡ some job
      → count_jobs jobs ≤ 1
      → is_spent (change job) ≡ true
      → AllWith id is_spent (change_job id change jobs)
  unfolding all_with count_jobs callback_job change_job
  changed-spent change job [] e k t = absurd (ground arith)
  changed-spent change job (first ∷ jobs) e k t = elim (Bool-cases (str_eq first.id id)) [
    | inl hit ↦ ground (arith, none-spent jobs, hit)
    | inr miss ↦ ground (arith, changed-spent change job jobs, miss)
  ]

  removed-spent :
      (saves : Bool) (cs : CronService) → AllWith id is_spent (remove_job saves id cs).0.jobs
  unfolding remove_job
  removed-spent saves cs = ground (arith, save_store-jobs next_tick saves, without-spent cs.jobs)

  executed-spent :
      (start_time now : ℕ) (error : Option String) (job : CronJob)
      → is_at job.schedule.kind ≡ true
      → job.delete_after_run ≡ false
      → is_spent (executed next_tick start_time now error job) ≡ true
  unfolding executed
  executed-spent start_time now error job k stays = ground (arith, k, stays)

  finish_job-spent :
      (start_time now : ℕ) (error : Option String) (saves : Bool) (job : CronJob) (cs : CronService)
      → callback_job id cs.jobs ≡ some job
      → is_at job.schedule.kind ≡ true
      → count_jobs cs.jobs ≤ 1
      → AllWith id is_spent (finish_job next_tick start_time now error saves id cs).jobs
  unfolding finish_job
  finish_job-spent start_time now error saves job cs e k u =
      let later = record cs {
        jobs = change_job id (executed next_tick start_time now error) cs.jobs;
      } in
      rw (e, finish_job)
        (saved-Keeps next_tick id is_spent saves
          (if is_at job.schedule.kind && job.delete_after_run
            then (remove_job saves id later).0
            else later)
          (elim (Bool-cases job.delete_after_run) [
            | inl gone ↦ rw (k, gone) (removed-spent saves later)
            | inr stays ↦
                rw (k, stays)
                  (changed-spent (executed next_tick start_time now error) job cs.jobs e u
                    (executed-spent start_time now error job k stays))
          ]))

  -- A job that runs once is done with its one execution: if its id is unique, then once its execution
  -- has finished no check collects it, whatever steps follow, before a step enables or updates it,
  -- adds a job under its id, or the service is started or its file loaded anew.
  pub runs_at_once :
      (start_time now later : ℕ) (error : Option String) (saves later_saves : Bool) (job : CronJob)
      (cs : CronService) (steps : List Step)
      → callback_job id cs.jobs ≡ some job
      → is_at job.schedule.kind ≡ true
      → count_jobs cs.jobs ≤ 1
      → All (LeavesDisabled id) steps
      → in_due_map id
          (collect_due later later_saves
            (run_steps next_tick steps (finish_job next_tick start_time now error saves id cs))).1
        ≡ false
  runs_at_once start_time now later error saves later_saves job cs steps e k u n =
      let finished = finish_job next_tick start_time now error saves id cs in
      not_collected later later_saves (run_steps next_tick steps finished) is_spent
        (λ j t. ground arith)
        (run_steps-spent steps finished n
          (finish_job-spent start_time now error saves job cs e k u))
