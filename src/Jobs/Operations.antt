-- ===== src/Jobs/Operations.antt =====
-- cancelBackgroundJob of packages/db/src/job-operations.ts. `seen` is the database that the
-- transaction reads, `db` the one that its writes meet. Telemetry is left out.
pub mod Retry
pub mod Authority
use content_automation.Base.{
  ℕ, ◌+◌, ◌-◌, String, Bool, true, false, not, ◌&&◌, ◌||◌, Option, none, some, List, [], ◌∷◌, ◌++◌,
}
use content_automation.Base.Tests.{ltb, leb, ◌==◌, if◌then◌else◌, if_found, is_some, opt_eq}
use content_automation.Base.Text.{codes, is_upper, is_digit, matches_name}
use content_automation.Base.Rows.{find_first, update_many, count_where}
use content_automation.Correlation.{parse_correlation_id}
use content_automation.Domain.Lifecycle.{JobState, queued, processing, retry_scheduled, same_state}
use content_automation.Errors.{
  Result, ok, err, ◌>>=◌, ◌>>◌, ensure, validation_error, assert_job_transition,
}
use content_automation.Jobs.Store.{
  Job, User, AuditEvent, Outbox, Db, DispatchStatus, is_owned, is_outbox_of,
}
use content_automation.Jobs.Lease.{cancel_outbox_row}
use text.Mathlib.Text.{◌==◌ as str_eq}
use content_automation.Jobs.Guard.{
  OperationResult, Command, prepare_operation, audit_and_return, refuse, authorise, already_applied,
  cancellation_requested, cancelled, not_found, cancel, retry,
}

-- the job of a command, in the actor's workspace
abbrev pub find_job : Command → User → Db → Option Job
find_job c actor seen =
    if c.is_uuid_v7 c.job_id
    then find_first (is_owned actor.workspace_id c.job_id) seen.jobs
    else none

abbrev pub job_not_found : OperationResult
job_not_found = record { outcome = not_found; reason_code = "JOB_NOT_FOUND" }

unfoldable pub is_safe_processing_cancellation_stage : String → Bool
is_safe_processing_cancellation_stage stage =
    str_eq "starting" stage || (str_eq "loading_inputs" stage || str_eq "validating_inputs" stage)

abbrev pub is_unchanged : Job → Job → Bool
is_unchanged job r =
    str_eq r.id job.id && (same_state r.state job.state && r.version == job.version)

abbrev pub cancel_waiting : Command → Job → Job
cancel_waiting c r = record r {
  cancellation_reason_code = some c.reason_code;
  cancellation_requested_at = some c.now;
  completed_at = some c.now;
  dispatch_status = DispatchStatus.cancelled;
  last_error_class = none;
  last_error_code = none;
  next_action = none;
  next_attempt_at = none;
  reconciliation_code = none;
  reconciliation_required_at = none;
  stage = "cancelled";
  state = JobState.cancelled;
  version = r.version + 1;
}

-- cancelOutbox
abbrev pub cancel_outbox : String → ℕ → List Outbox → List Outbox
cancel_outbox job_id at rows = update_many (is_outbox_of job_id) (cancel_outbox_row at) rows

-- a job that is queued or waits for a retry
unfoldable pub write_cancel_waiting : Command → Job → Db → Result (OperationResult × Db)
unfolding same_state
write_cancel_waiting c job db = do
  assert_job_transition job.state JobState.cancelled
  let updated = record db { jobs = update_many (is_unchanged job) (cancel_waiting c) db.jobs }
  if not (count_where (is_unchanged job) db.jobs == 1)
      then ok (refuse "JOB_STATE_CHANGED", updated)
      else ok (
        record { outcome = cancelled; reason_code = c.reason_code },
        record updated { outbox = cancel_outbox job.id c.now db.outbox },
      )

abbrev pub is_requestable : Job → Job → Bool
is_requestable job r =
    not (is_some r.cancellation_requested_at)
    && (str_eq r.id job.id
        && (opt_eq r.lease_id job.lease_id
            && (str_eq r.stage job.stage
                && (same_state r.state processing && r.version == job.version))))

abbrev pub request_cancellation : Command → Job → Job
request_cancellation c r = record r {
  cancellation_reason_code = some c.reason_code;
  cancellation_requested_at = some c.now;
  dispatch_status = DispatchStatus.cancelled;
  version = r.version + 1;
}

-- a job that a worker processes
unfoldable pub write_request : Command → Job → Db → Result (OperationResult × Db)
unfolding same_state
write_request c job db =
    let updated = record db {
      jobs = update_many (is_requestable job) (request_cancellation c) db.jobs;
    } in
    if not (is_safe_processing_cancellation_stage job.stage)
    then ok (refuse "PROCESSING_STAGE_NOT_CANCELLABLE", db)
    else if not (count_where (is_requestable job) db.jobs == 1)
    then ok (refuse "JOB_STATE_CHANGED", updated)
    else ok (
      record { outcome = cancellation_requested; reason_code = c.reason_code },
      record updated { outbox = cancel_outbox job.id c.now db.outbox },
    )

abbrev pub cancellation_applied : OperationResult
cancellation_applied = record {
  outcome = already_applied;
  reason_code = "CANCELLATION_ALREADY_APPLIED";
}

unfoldable pub cancel_found : Command → Job → Db → Result (OperationResult × Db)
unfolding same_state
cancel_found c job db =
    if same_state job.state JobState.cancelled || is_some job.cancellation_requested_at
    then ok (cancellation_applied, db)
    else if same_state job.state queued || same_state job.state retry_scheduled
    then write_cancel_waiting c job db
    else if same_state job.state processing
    then write_request c job db
    else ok (refuse "JOB_TERMINAL", db)

unfoldable pub cancel_background_job : Command → Db → Db → Result (OperationResult × Db)
cancel_background_job c seen db = do
  correlation_id ← prepare_operation c
  authorise c correlation_id cancel seen db λ actor.
      if_found (find_job c actor seen)
        (audit_and_return c correlation_id cancel actor job_not_found db)
        λ job. do
          done ← cancel_found c job db
          audit_and_return c correlation_id cancel actor done.0 done.1
