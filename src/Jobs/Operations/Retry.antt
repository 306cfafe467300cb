-- ===== src/Jobs/Operations/Retry.antt =====
-- retryBackgroundJob of packages/db/src/job-operations.ts: an operator grants a failed job one more
-- attempt.
use content_automation.Base.{
  ℕ, ◌+◌, max, String, Bool, false, not, ◌&&◌, ◌||◌, Option, none, some, List, [], ◌∷◌, ◌++◌,
}
use content_automation.Base.Tests.{ltb, ◌==◌, if◌then◌else◌, if_found, is_some, opt_eq, get_or}
use content_automation.Base.Rows.{find_first, update_many, count_where}
use content_automation.Domain.Lifecycle.{queued, failed_attention, same_state}
use content_automation.Errors.{
  Result, ok, ◌>>=◌, ◌>>◌, ensure, validation_error, assert_job_transition,
}
use content_automation.Jobs.Store.{
  Job, AnalysisJob, AuditEvent, Outbox, Db, DispatchStatus, is_outbox_of,
}
use content_automation.Jobs.Operations.{job_not_found, find_job}
use content_automation.Jobs.Guard.{
  Command, OperationResult, already_applied, retry_queued, retry, refuse, is_safe_reason_code,
  prepare_operation, authorise, audit_and_return,
}
use text.Mathlib.Text.{◌==◌ as str_eq}

-- ManualRetryPrerequisiteResult
pub record Prerequisite : Type 0 where
  pub eligible : Bool
  pub reason_code : Option String

-- What the caller of a manual retry passes in, and the fresh identifier of an outbox row.
pub record RetryOptions : Type 0 where
  pub result_exists : Db → Job → Bool
  pub check_prerequisites : Db → Job → Prerequisite
  pub outbox_id : String

abbrev is_prior_request : Job → AuditEvent → Bool
is_prior_request job e =
    str_eq e.action "job.retry"
    && (str_eq e.outcome "RETRY_QUEUED"
        && (opt_eq e.resource_id (some job.id) && str_eq e.workspace_id job.workspace_id))

abbrev pub granted_attempts : Job → ℕ
granted_attempts job = max job.max_attempts (job.attempt_count + 1)

abbrev pub is_retryable : Job → Job → Bool
is_retryable job r =
    str_eq r.id job.id && (same_state r.state failed_attention && r.version == job.version)

abbrev pub requeue_failed : Command → Job → Job → Job
requeue_failed c job r = record r {
  cancellation_reason_code = none;
  cancellation_requested_at = none;
  completed_at = none;
  dispatch_status = DispatchStatus.pending;
  last_error_class = none;
  last_error_code = none;
  max_attempts = granted_attempts job;
  next_action = none;
  queued_at = c.now;
  reconciliation_code = none;
  reconciliation_required_at = none;
  stage = "queued";
  state = queued;
  version = r.version + 1;
}

abbrev pub reset_outbox_row : ℕ → Outbox → Outbox
reset_outbox_row now o = record o {
  cancelled_at = none;
  dispatched_at = none;
  last_error_code = none;
  lease_expires_at = none;
  lease_id = none;
  next_attempt_at = now;
  queue_delivery_id = none;
}

abbrev pub new_outbox_row : String → ℕ → Job → Outbox
new_outbox_row id now job = record {
  id = id;
  workspace_id = job.workspace_id;
  background_job_id = job.id;
  queue_name = job.queue_name;
  handler_version = job.handler_version;
  correlation_id = job.correlation_id;
  dispatch_attempt_count = 0;
  next_attempt_at = now;
  lease_id = none;
  lease_expires_at = none;
  queue_delivery_id = none;
  last_error_code = none;
  dispatched_at = none;
  cancelled_at = none;
  created_at = now;
}

-- jobOutbox.upsert: the row of the job is reset, or created where there is none. A created row's
-- times default to the database's clock, which is taken to be `now`.
unfoldable pub upsert_outbox : String → ℕ → Job → List Outbox → List Outbox
upsert_outbox id now job rows =
    if is_some (find_first (is_outbox_of job.id) rows)
    then update_many (is_outbox_of job.id) (reset_outbox_row now) rows
    else rows ++ new_outbox_row id now job ∷ []

abbrev allow_repair : Job → List AnalysisJob → List AnalysisJob
allow_repair job rows =
    update_many (λ a. str_eq a.background_job_id job.id && str_eq a.workspace_id job.workspace_id)
      (λ a. record a { repair_attempted = false }) rows

-- The writes of a retry, and its outcome.
unfoldable pub write_retry : Command → RetryOptions → Job → Db → Result (OperationResult × Db)
unfolding same_state
write_retry c o job db = do
  assert_job_transition failed_attention queued
  let updated = record db { jobs = update_many (is_retryable job) (requeue_failed c job) db.jobs }
  if not (count_where (is_retryable job) db.jobs == 1)
      then ok (refuse "JOB_STATE_CHANGED", updated)
      else ok (
        record { outcome = retry_queued; reason_code = c.reason_code },
        record updated {
          analysis_jobs = allow_repair job db.analysis_jobs;
          outbox = upsert_outbox o.outbox_id c.now job db.outbox;
        },
      )

abbrev prerequisite_reason : Prerequisite → String
prerequisite_reason p = get_or p.reason_code "JOB_PREREQUISITE_MISSING"

-- A job that has failed, from the reconciliation test on.
unfoldable pub retry_failed : Command → RetryOptions → Job → Db → Result (OperationResult × Db)
retry_failed c o job db =
    let p = o.check_prerequisites db job in
    if is_some job.reconciliation_required_at || is_some job.reconciliation_code
    then ok (refuse "JOB_RECONCILIATION_REQUIRED", db)
    else if o.result_exists db job
    then ok (refuse "JOB_RESULT_ALREADY_EXISTS", db)
    else if not p.eligible
    then (do
      ensure (is_safe_reason_code (prerequisite_reason p))
          (validation_error "JOB_OPERATION_REASON_INVALID")
      ok (refuse (prerequisite_reason p), db))
    else if ltb 100 (granted_attempts job)
    then ok (refuse "JOB_ATTEMPT_LIMIT_REACHED", db)
    else write_retry c o job db

unfoldable pub retry_found : Command → RetryOptions → Job → Db → Db → Result (OperationResult × Db)
unfolding same_state
retry_found c o job seen db =
    if same_state job.state queued
    then if is_some (find_first (is_prior_request job) seen.audit)
      then ok (record { outcome = already_applied; reason_code = "RETRY_ALREADY_QUEUED" }, db)
      else ok (refuse "JOB_NOT_FAILED_ATTENTION", db)
    else if not (same_state job.state failed_attention)
    then ok (refuse "JOB_NOT_FAILED_ATTENTION", db)
    else retry_failed c o job db

unfoldable pub retry_background_job :
    Command → RetryOptions → Db → Db → Result (OperationResult × Db)
retry_background_job c o seen db = do
  correlation_id ← prepare_operation c
  authorise c correlation_id retry seen db λ actor.
      if_found (find_job c actor seen)
        (audit_and_return c correlation_id retry actor job_not_found db)
        λ job. do
          done ← retry_found c o job seen db
          audit_and_return c correlation_id retry actor done.0 done.1
