-- ===== src/Jobs/Constraints/Retry.antt =====
-- retryBackgroundJob of packages/db/src/job-operations.ts against the CHECK constraints.
use content_automation.Base.{
  ap, sym, String, ◌≡◌, Bool, true, false, Option, none, some, List, arith,
}
use content_automation.Base.Tests.{ltb, leb, if◌then◌else◌}
use content_automation.Base.Rows.{All, All-find_first, All-update_many_with, update_many}
use content_automation.Domain.Lifecycle.{same_state}
use content_automation.Errors.{Yields, Yields-bind, Yields-if_found, yields}
use content_automation.Jobs.Store.{Job, User, Db, is_owned}
use content_automation.Jobs.Constraints.Checks.{IsHandled, JobChecks, Checks}
use content_automation.Jobs.Constraints.Execution.{Checks-intro}
use content_automation.Jobs.Constraints.Operators.{
  upsert_outbox-OutboxChecks, audit_and_return-Checks, authorise-Checks, then_audit,
}
use content_automation.Jobs.Steps.Agreement.{AgreesWith, AgreeWith}
use content_automation.Jobs.Operations.{find_job, job_not_found}
use content_automation.Jobs.Guard.{Command, Action, prepare_operation}
use content_automation.Jobs.Operations.Retry.{
  RetryOptions, is_retryable, requeue_failed, granted_attempts, write_retry, retry_failed,
  retry_found, retry_background_job,
}

requeue_failed-JobChecks :
    (c : Command) (job r : Job)
    → leb (granted_attempts job) 100 ≡ true
    → job.attempt_count ≡ r.attempt_count
    → is_retryable job r ≡ true
    → JobChecks r
    → JobChecks (requeue_failed c job r)
unfolding same_state
requeue_failed-JobChecks c job r m e t h = ground arith

requeued_rows-JobChecks :
    (c : Command) (job : Job) (rows : List Job)
    → ltb 100 (granted_attempts job) ≡ false
    → All (AgreesWith job) rows
    → All JobChecks rows
    → All JobChecks (update_many (is_retryable job) (requeue_failed c job) rows)
requeued_rows-JobChecks c job rows m fresh h =
    All-update_many_with JobChecks (AgreesWith job) (is_retryable job) (requeue_failed c job) rows
      (λ r t k agrees.
        requeue_failed-JobChecks c job r (ground arith)
          (sym (ap (λ (x : Job). x.attempt_count) (agrees (ground arith) (ground arith)))) t k)
      h fresh

write_retry-Checks :
    (c : Command) (o : RetryOptions) (job : Job) (db : Db)
    → IsHandled job
    → ltb 100 (granted_attempts job) ≡ false
    → All (AgreesWith job) db.jobs
    → Checks db
    → Yields (λ r. Checks r.1) (write_retry c o job db)
unfolding write_retry
write_retry-Checks c o job db n m fresh h =
    let js = requeued_rows-JobChecks c job db.jobs m fresh h.jobs in
    let os = upsert_outbox-OutboxChecks o.outbox_id c.now job db.outbox n h.outbox in
    search (yields, Checks-intro, js, os) depth 8

retry_found-Checks :
    (c : Command) (o : RetryOptions) (job : Job) (seen db : Db)
    → IsHandled job
    → All (AgreesWith job) db.jobs
    → Checks db
    → Yields (λ r. Checks r.1) (retry_found c o job seen db)
unfolding retry_found retry_failed
retry_found-Checks c o job seen db n fresh h =
    let written =
      λ (m : ltb 100 (granted_attempts job) ≡ false). write_retry-Checks c o job db n m fresh h in
    search (yields, written) depth 12

owned_found :
    (b : Bool) (o : Option Job) {job : Job} → (if b then o else none) ≡ some job → o ≡ some job
owned_found true o e = e
owned_found false o e = cc

found-AgreesWith :
    (c : Command) (u : User) (seen db : Db) (job : Job)
    → AgreeWith seen.jobs db.jobs
    → find_job c u seen ≡ some job
    → All (AgreesWith job) db.jobs
found-AgreesWith c u seen db job fresh e =
    All-find_first (λ j. All (AgreesWith j) db.jobs) (is_owned u.workspace_id c.job_id) seen.jobs
      fresh (owned_found (c.is_uuid_v7 c.job_id) _ e)

found-IsHandled :
    (c : Command) (u : User) (seen : Db) (job : Job)
    → All IsHandled seen.jobs
    → find_job c u seen ≡ some job
    → IsHandled job
found-IsHandled c u seen job h e =
    All-find_first IsHandled (is_owned u.workspace_id c.job_id) seen.jobs h
      (owned_found (c.is_uuid_v7 c.job_id) _ e)

pub retry_background_job-Checks :
    (c : Command) (o : RetryOptions) (seen db : Db)
    → All IsHandled seen.jobs
    → AgreeWith seen.jobs db.jobs
    → Checks db
    → Yields (λ r. Checks r.1) (retry_background_job c o seen db)
unfolding retry_background_job
retry_background_job-Checks c o seen db handled fresh h =
    let done = λ (id : String) (u : User) (job : Job) (e : find_job c u seen ≡ some job).
      then_audit c id Action.retry u (retry_found c o job seen db) (
        retry_found-Checks c o job seen db (found-IsHandled c u seen job handled e)
          (found-AgreesWith c u seen db job fresh e) h) in
    let audited =
      λ (id : String) (u : User). audit_and_return-Checks c id Action.retry u job_not_found db h in
    Yields-bind {Q = λ _. Unit {0}} (prepare_operation c) _ (record { of = λ _ _. tt })
      λ id _.
        authorise-Checks c id Action.retry seen db _ h λ u.
          Yields-if_found (find_job c u seen) _ _ (λ _. audited id u) (λ job e. done id u job e)
