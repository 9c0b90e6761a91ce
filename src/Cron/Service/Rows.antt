-- ===== src/Cron/Service/Rows.antt =====
-- pkg/cron/service.go: what every job with an id keeps through the operations.
use moon_hub.Base.{
  ℕ, ◌≡◌, ◌≢◌, refl, String, Bool, true, false, not, ◌&&◌, none, List, [], ◌∷◌, ◌++◌, if◌then◌else◌,
  str_eq, eq_iff, arith,
}
use moon_hub.Cron.Service.{
  CronJob, with_next_run, is_due, due_job_ids, in_due_map, reset_due, change_job, without_job,
}

module _ (id : String) (test : CronJob → Bool) where
  -- Every job with the id passes the test.
  unfoldable pub all_with : List CronJob → Bool
  all_with [] = true
  all_with (job ∷ jobs) =
      let rest = all_with jobs in if str_eq job.id id && not (test job) then false else rest

  abbrev pub AllWith : List CronJob → Type 0
  AllWith jobs = all_with jobs ≡ true

  pub reset_due-AllWith :
      (ids : List String) (jobs : List CronJob)
      → ((job : CronJob) → test job ≡ true → test (with_next_run none job) ≡ true)
      → AllWith jobs
      → AllWith (reset_due ids jobs)
  unfolding all_with reset_due
  reset_due-AllWith ids [] f h = refl
  reset_due-AllWith ids (job ∷ jobs) f h = ground (arith, f job, reset_due-AllWith ids jobs f)

  -- A change that keeps the ids and, for jobs with the id, the test.
  pub change_job-AllWith :
      (i : String) (change : CronJob → CronJob) (jobs : List CronJob)
      → ((job : CronJob) → job.id ≡ i → (change job).id ≡ i)
      → ((job : CronJob) → job.id ≡ i → i ≡ id → test job ≡ true → test (change job) ≡ true)
      → AllWith jobs
      → AllWith (change_job i change jobs)
  unfolding all_with change_job
  change_job-AllWith i change [] k f h = refl
  change_job-AllWith i change (job ∷ jobs) k f h = ground (
    arith,
    k job,
    f job,
    eq_iff job.id i,
    eq_iff i id,
    eq_iff job.id id,
    eq_iff (change job).id id,
    change_job-AllWith i change jobs k f,
  )

  pub without_job-AllWith :
      (i : String) (jobs : List CronJob) → AllWith jobs → AllWith (without_job i jobs)
  unfolding all_with without_job
  without_job-AllWith i [] h = refl
  without_job-AllWith i (job ∷ jobs) h = ground (arith, without_job-AllWith i jobs)

  pub append-AllWith :
      (jobs : List CronJob) (job : CronJob)
      → job.id ≢ id
      → AllWith jobs
      → AllWith (jobs ++ job ∷ [])
  unfolding all_with
  append-AllWith [] job n h = ground (arith, eq_iff job.id id)
  append-AllWith (first ∷ jobs) job n h = ground (arith, append-AllWith jobs job n)

  pub never_due :
      (now : ℕ) (jobs : List CronJob)
      → ((job : CronJob) → test job ≡ true → is_due now job ≡ false)
      → AllWith jobs
      → in_due_map id (due_job_ids now jobs) ≡ false
  unfolding all_with due_job_ids in_due_map
  never_due now [] f h = refl
  never_due now (job ∷ jobs) f h = ground (arith, f job, never_due now jobs f)
