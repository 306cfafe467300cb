-- ===== src/Jobs/Steps/Execution.antt =====
-- Every transaction of packages/db/src/job-execution.ts takes each row of background_jobs one step,
-- or leaves it, and keeps the rows in their places.
use content_automation.Base.{ℕ, String, ◌≡◌, Bool, true, List}
use content_automation.Base.Rows.{update_many}
use content_automation.Base.Pointwise.{
  Pointwise, Pointwise-refl, Pointwise-update_many, Pointwise-map, Extends, Extends-Pointwise,
}
use content_automation.Domain.Retry.{JobFailure, RetryDecision}
use content_automation.Errors.{Result, ok, Yields, Yields-ok, Yields-bind, yields}
use content_automation.Jobs.Store.{Job, Attempt, Db, create_attempt}
use content_automation.Jobs.Steps.Rows.{
  Evolves, Step, Step-refl, start-Step, beat-Step, enter_stage-Step, settle_cancellation-Step,
  release_retry-Step, recover-Step, fail-Step,
}
use content_automation.Jobs.Claim.{
  ClaimInput, is_claimable, start, first_attempt, write_claim, claim_found, claim_background_job,
}
use content_automation.Jobs.Lease.{
  is_leased, is_cancellable, settle_cancellation, beat, beat_attempt, enter_stage,
  enter_stage_attempt, update_active_attempt, heartbeat_background_job, record_background_job_stage,
  write_cancellation, check_cancellation,
}
use content_automation.Jobs.Recovery.{
  RecoveryInput, is_retry_due, release_retry, is_recoverable, recover,
  make_background_job_retry_due, write_recovery, recover_expired_lease,
}
use content_automation.Jobs.Commit.{is_committable, fail, commit_job_failure}

abbrev pub Steps : Db → Db → Type 0
Steps db db' = Pointwise Step db.jobs db'.jobs

pub Steps-refl : (db : Db) → Steps db db
Steps-refl db = Pointwise-refl Step Step-refl db.jobs

abbrev pub steps_by :
    (test : Job → Bool) (change : Job → Job) (rows : List Job)
    → ((r : Job) → test r ≡ true → Step r (change r))
    → Pointwise Step rows (update_many test change rows)
steps_by test change rows = Pointwise-update_many Step test change rows Step-refl

unguarded : (m : Result (List Attempt)) → Yields (λ _. Unit {0}) m
unguarded m = record { of = λ a e. tt }

write_claim-Steps :
    (c : ClaimInput) (job : Job) (db : Db) → Yields (λ r. Steps db r.1) (write_claim c job db)
unfolding write_claim
write_claim-Steps c job db =
    let js = steps_by (is_claimable c job) (start c job) db.jobs (start-Step c job) in
    let created = unguarded (create_attempt (first_attempt c job) db.attempts) in
    search (yields, created, js)

pub claim-Steps :
    (c : ClaimInput) (job_id : String) (seen db : Db)
    → Yields (λ r. Steps db r.1) (claim_background_job c job_id seen db)
unfolding claim_background_job claim_found
claim-Steps c job_id seen db =
    let written = λ (job : Job). write_claim-Steps c job db in
    let same = Steps-refl db in search (yields, written, same) depth 8

update_active_attempt-Steps :
    (job_data : Job → Job) (attempt_data : Attempt → Attempt) (w j l : String) (db : Db)
    → ((r : Job) → Step r (job_data r))
    → Yields (Steps db) (update_active_attempt job_data attempt_data w j l db)
unfolding update_active_attempt
update_active_attempt-Steps job_data attempt_data w j l db step =
    let js = steps_by (is_leased w j l) job_data db.jobs (λ r _. step r) in search (yields, js)

pub heartbeat-Steps :
    (w j l : String) (at d : ℕ) (db : Db)
    → Yields (Steps db) (heartbeat_background_job w j l at d db)
unfolding heartbeat_background_job
heartbeat-Steps w j l at d db =
    let beaten =
      update_active_attempt-Steps (beat at d) (beat_attempt at) w j l db (beat-Step at d) in
    search (yields, beaten)

pub stage-Steps :
    (w j l s : String) (at : ℕ) (db : Db)
    → Yields (Steps db) (record_background_job_stage w j l s at db)
unfolding record_background_job_stage
stage-Steps w j l s at db =
    let entered =
      update_active_attempt-Steps (enter_stage s at) (enter_stage_attempt s at) w j l db
        (enter_stage-Step s at) in
    search (yields, entered)

write_cancellation-Steps :
    (w l : String) (at : ℕ) (job : Job) (db : Db)
    → Yields (Steps db) (write_cancellation w l at job db)
unfolding write_cancellation
write_cancellation-Steps w l at job db =
    let js =
      steps_by (is_cancellable w l job) (settle_cancellation at) db.jobs
        (settle_cancellation-Step w l at job) in
    search (yields, js)

pub check_cancellation-Steps :
    (w j l : String) (at : ℕ) (seen db : Db)
    → Yields (λ r. Steps db r.1) (check_cancellation w j l at seen db)
unfolding check_cancellation
check_cancellation-Steps w j l at seen db =
    let same = Steps-refl db in
    let cancelled = λ (job : Job).
      Yields-bind {P = λ (r : Bool × Db). Steps db r.1} (write_cancellation w l at job db)
        (λ d. ok (true, d)) (write_cancellation-Steps w l at job db)
        (λ d k. Yields-ok (true, d) k) in
    search (yields, same, cancelled) depth 8

pub retry_due-Steps :
    (w j : String) (now : ℕ) (db : Db)
    → Yields (λ r. Steps db r.1) (make_background_job_retry_due w j now db)
unfolding make_background_job_retry_due
retry_due-Steps w j now db =
    let js =
      steps_by (is_retry_due w j now) (release_retry now) db.jobs (release_retry-Step w j now) in
    search (yields, js)

write_recovery-Steps :
    (c : RecoveryInput) (l : String) (job : Job) (db : Db)
    → Yields (λ r. Steps db r.1) (write_recovery c l job db)
unfolding write_recovery
write_recovery-Steps c l job db =
    let js = steps_by (is_recoverable c l job) (recover c job) db.jobs (recover-Step c l job) in
    search (yields, js) depth 8

pub recover_expired_lease-Steps :
    (c : RecoveryInput) (j : String) (seen db : Db)
    → Yields (λ r. Steps db r.1) (recover_expired_lease c j seen db)
unfolding recover_expired_lease
recover_expired_lease-Steps c j seen db =
    let written = λ (l : String) (job : Job). write_recovery-Steps c l job db in
    let same = Steps-refl db in search (yields, written, same) depth 8

pub commit_job_failure-Steps :
    (f : JobFailure) (d : RetryDecision) (w j l : String) (at : ℕ) (db : Db)
    → Yields (Steps db) (commit_job_failure f d w j l at db)
unfolding commit_job_failure
commit_job_failure-Steps f d w j l at db =
    let js = steps_by (is_committable w j l) (fail f d at) db.jobs (fail-Step f d w j l at) in
    search (yields, js) depth 8

-- A commit callback that takes jobs by steps keeps a success a run of steps.
abbrev pub Evolve : Db → Db → Type 0
Evolve db db' = Extends Evolves db.jobs db'.jobs

pub Steps-Evolve : (db db' : Db) → Steps db db' → Evolve db db'
Steps-Evolve db db' h =
    Extends-Pointwise Evolves db.jobs db'.jobs
      (Pointwise-map Step Evolves db.jobs db'.jobs (λ r s k. k.evolves) h)
