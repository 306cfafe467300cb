-- ===== src/Jobs/Constraints/Execution.antt =====
-- The transactions of packages/db/src/job-execution.ts leave only rows that pass the CHECK
-- constraints of their tables.
use content_automation.Base.{ap, ℕ, ◌≤◌, String, ◌≡◌, true, some, List, [], ◌∷◌, arith}
use content_automation.Base.Rows.{
  All, All-find_first, All-append, All-update_many, All-update_many_with, find_first, update_many,
}
use content_automation.Errors.{Yields, yields}
use content_automation.Jobs.Store.{Job, Attempt, Db, create_attempt, is_owned}
use content_automation.Jobs.Constraints.Checks.{
  JobChecks, AttemptChecks, OutboxChecks, IsHandled, Checks,
}
use content_automation.Jobs.Constraints.Rows.{
  start-JobChecks, first_attempt-AttemptChecks, beat-JobChecks, beat_attempt-AttemptChecks,
  enter_stage-JobChecks, enter_stage_attempt-AttemptChecks,
}
use content_automation.Jobs.Steps.Agreement.{AgreesWith, AgreeWith}
use content_automation.Jobs.Claim.{
  ClaimInput, is_claimable, start, first_attempt, write_claim, claim_found, claim_background_job,
}
use content_automation.Jobs.Lease.{
  is_leased, holds_lease_in, update_active_attempt, heartbeat_background_job,
  record_background_job_stage,
}

create_attempt-AttemptChecks :
    (new : Attempt) (rows : List Attempt)
    → AttemptChecks new
    → All AttemptChecks rows
    → Yields (All AttemptChecks) (create_attempt new rows)
unfolding create_attempt
create_attempt-AttemptChecks new rows n h =
    let appended = All-append AttemptChecks rows (new ∷ []) h (n, tt) in search (yields, appended)

max_attempts_kept :
    (c : ClaimInput) (job r : Job)
    → is_claimable c job r ≡ true
    → AgreesWith job r
    → job.max_attempts ≤ r.max_attempts
max_attempts_kept c job r t agrees =
    let same : r.max_attempts ≡ job.max_attempts =
      ap (λ (x : Job). x.max_attempts) (agrees (ground arith) (ground arith)) in
    omega arith

start_rows-JobChecks :
    (c : ClaimInput) (job : Job) (rows : List Job)
    → All (AgreesWith job) rows
    → All JobChecks rows
    → All JobChecks (update_many (is_claimable c job) (start c job) rows)
start_rows-JobChecks c job rows fresh h =
    All-update_many_with JobChecks (AgreesWith job) (is_claimable c job) (start c job) rows
      (λ r t k agrees. start-JobChecks c job r (max_attempts_kept c job r t agrees) t k) h fresh

pub Checks-intro :
    (db : Db)
    → All JobChecks db.jobs
    → All AttemptChecks db.attempts
    → All OutboxChecks db.outbox
    → Checks db
Checks-intro db j a o = record { jobs = j; attempts = a; outbox = o }

pub JobChecks-IsHandled : (rows : List Job) → All JobChecks rows → All IsHandled rows
JobChecks-IsHandled [] h = tt
JobChecks-IsHandled (r ∷ rows) h = (h.0.handler, JobChecks-IsHandled rows h.1)

write_claim-Checks :
    (c : ClaimInput) (job : Job) (db : Db)
    → IsHandled job
    → All (AgreesWith job) db.jobs
    → Checks db
    → Yields (λ r. Checks r.1) (write_claim c job db)
unfolding write_claim
write_claim-Checks c job db n fresh h =
    let jobs = start_rows-JobChecks c job db.jobs fresh h.jobs in
    let created =
      create_attempt-AttemptChecks (first_attempt c job) db.attempts
        (first_attempt-AttemptChecks c job n) h.attempts in
    search (yields, created, Checks-intro)

claim_found-Checks :
    (c : ClaimInput) (job : Job) (db : Db)
    → IsHandled job
    → All (AgreesWith job) db.jobs
    → Checks db
    → Yields (λ r. Checks r.1) (claim_found c job db)
unfolding claim_found
claim_found-Checks c job db n fresh h =
    let written = write_claim-Checks c job db n fresh h in search (yields, written)

pub claim-Checks :
    (c : ClaimInput) (job_id : String) (seen db : Db)
    → All IsHandled seen.jobs
    → AgreeWith seen.jobs db.jobs
    → Checks db
    → Yields (λ r. Checks r.1) (claim_background_job c job_id seen db)
unfolding claim_background_job
claim-Checks c job_id seen db handled fresh h =
    let found =
      λ (job : Job) (e : find_first (is_owned c.workspace_id job_id) seen.jobs ≡ some job).
        claim_found-Checks c job db (All-find_first IsHandled _ seen.jobs handled e)
          (All-find_first (λ j. All (AgreesWith j) db.jobs) _ seen.jobs fresh e) h in
    search (yields, found)

update_active_attempt-Checks :
    (job_data : Job → Job) (attempt_data : Attempt → Attempt) (w j l : String) (db : Db)
    → ((r : Job) → is_leased w j l r ≡ true → JobChecks r → JobChecks (job_data r))
    → ((a : Attempt) → AttemptChecks a → AttemptChecks (attempt_data a))
    → Checks db
    → Yields Checks (update_active_attempt job_data attempt_data w j l db)
unfolding update_active_attempt
update_active_attempt-Checks job_data attempt_data w j l db jobs attempts h =
    let js = All-update_many JobChecks (is_leased w j l) job_data db.jobs jobs h.jobs in
    let as' =
      All-update_many AttemptChecks (holds_lease_in w l) attempt_data db.attempts
        (λ a _. attempts a) h.attempts in
    search (yields, Checks-intro, js, as')

pub heartbeat-Checks :
    (w j l : String) (at d : ℕ) (db : Db)
    → Checks db
    → Yields Checks (heartbeat_background_job w j l at d db)
unfolding heartbeat_background_job
heartbeat-Checks w j l at d db h =
    let beaten =
      update_active_attempt-Checks _ _ w j l db (beat-JobChecks w j l at d)
        (beat_attempt-AttemptChecks at) h in
    search (yields, beaten)

pub stage-Checks :
    (w j l s : String) (at : ℕ) (db : Db)
    → Checks db
    → Yields Checks (record_background_job_stage w j l s at db)
unfolding record_background_job_stage
stage-Checks w j l s at db h =
    let entered =
      update_active_attempt-Checks _ _ w j l db (enter_stage-JobChecks w j l s at)
        (enter_stage_attempt-AttemptChecks s at) h in
    search (yields, entered)
