-- ===== src/Jobs/Recovery.antt =====
-- makeBackgroundJobRetryDue and recoverExpiredBackgroundJobLease of
-- packages/db/src/job-execution.ts.
pub mod Fencing
use content_automation.Base.{
  ℕ, ◌+◌, String, Bool, true, false, not, ◌&&◌, ◌||◌, Option, none, some, List, [], ◌∷◌, ◌++◌,
}
use content_automation.Base.Tests.{leb, ◌==◌, if◌then◌else◌, is_some, if_found, is_due, opt_eq}
use content_automation.Base.Rows.{find_first, update_many, count_where}
use content_automation.Domain.Lifecycle.{
  JobState, AttemptState, queued, processing, retry_scheduled, failed_attention, cancelled,
  same_state,
}
use content_automation.Domain.Retry.{NextAction, transient, retry_automatic, contact_support}
use content_automation.Errors.{
  Result, ok, err, ◌>>=◌, ◌>>◌, ensure, rescue, validation_error, job_lease_lost,
  assert_job_transition,
}
use content_automation.Jobs.Store.{
  Job, Attempt, Outbox, AuditEvent, Db, DispatchStatus, holds_lease, is_outbox_of,
}
use content_automation.Correlation.{parse_correlation_id}
use content_automation.Jobs.Lease.{cancel_outbox_row}
use text.Mathlib.Text.{◌==◌ as str_eq}

abbrev pub is_retry_due : String → String → ℕ → Job → Bool
is_retry_due workspace_id job_id now r =
    str_eq r.id job_id
    && (is_due r.next_attempt_at now
        && (same_state r.state retry_scheduled && str_eq r.workspace_id workspace_id))

abbrev pub release_retry : ℕ → Job → Job
release_retry now r = record r {
  next_attempt_at = none;
  queued_at = now;
  stage = "queued";
  state = queued;
  version = r.version + 1;
}

unfoldable pub make_background_job_retry_due : String → String → ℕ → Db → Result (Bool × Db)
unfolding assert_job_transition same_state
make_background_job_retry_due workspace_id job_id now db = do
  assert_job_transition retry_scheduled queued
  ok (
    count_where (is_retry_due workspace_id job_id now) db.jobs == 1,
    record db {
      jobs = update_many (is_retry_due workspace_id job_id now) (release_retry now) db.jobs;
    },
  )

-- The fresh identifier, the actor and the correlation of an audit entry.
pub record ServiceAudit : Type 0 where
  pub id : String
  pub actor_service : String
  pub correlation_id : String

pub record RecoveryInput : Type 0 where
  pub workspace_id : String
  pub now : ℕ
  pub audit : Option ServiceAudit

abbrev pub has_expired : String → String → ℕ → Job → Bool
has_expired workspace_id job_id now r =
    str_eq r.id job_id
    && (is_due r.lease_expires_at now
        && (same_state r.state processing && str_eq r.workspace_id workspace_id))

-- cancellationRequested and exhausted
abbrev pub asked_to_cancel : Job → Bool
asked_to_cancel job = is_some job.cancellation_requested_at

abbrev pub is_exhausted : Job → Bool
is_exhausted job = leb job.max_attempts job.attempt_count

abbrev pub recovered_state : Job → JobState
recovered_state job =
    if asked_to_cancel job then cancelled else if is_exhausted job then failed_attention else queued

abbrev pub recovered_action : Job → Option NextAction
recovered_action job =
    if asked_to_cancel job
    then none
    else if is_exhausted job
    then some contact_support
    else some retry_automatic

abbrev pub is_recoverable : RecoveryInput → String → Job → Job → Bool
is_recoverable c lease_id job r =
    has_expired c.workspace_id job.id c.now r
    && (opt_eq r.lease_id (some lease_id) && r.version == job.version)

abbrev pub recover : RecoveryInput → Job → Job → Job
recover c job r = record r {
  completed_at = if is_exhausted job || asked_to_cancel job then some c.now else none;
  dispatch_status =
      if asked_to_cancel job
      then DispatchStatus.cancelled
      else if same_state (recovered_state job) queued
      then DispatchStatus.pending
      else job.dispatch_status;
  last_error_class = if asked_to_cancel job then none else some transient;
  last_error_code = if asked_to_cancel job then none else some "JOB_LEASE_EXPIRED";
  lease_expires_at = none;
  lease_id = none;
  next_action = recovered_action job;
  queued_at = if is_exhausted job || asked_to_cancel job then job.queued_at else c.now;
  stage =
      if asked_to_cancel job
      then "cancelled"
      else if is_exhausted job
      then "failed_attention"
      else "queued";
  state = recovered_state job;
  version = r.version + 1;
}

abbrev pub close_attempt : RecoveryInput → Job → Attempt → Attempt
close_attempt c job a =
    if asked_to_cancel job
    then record a { completed_at = some c.now; state = AttemptState.cancelled }
    else record a {
      completed_at = some c.now;
      error_class = some transient;
      error_code = some "JOB_LEASE_EXPIRED";
      next_action = recovered_action job;
      state = AttemptState.lease_expired;
    }

-- A row that the dispatcher will publish again, under a fresh delivery identifier.
abbrev pub redeliver : ℕ → Outbox → Outbox
redeliver now o = record o {
  dispatched_at = none;
  lease_expires_at = none;
  lease_id = none;
  next_attempt_at = now;
  queue_delivery_id = none;
}

abbrev pub recover_outbox : RecoveryInput → Job → List Outbox → List Outbox
recover_outbox c job rows =
    if asked_to_cancel job
    then update_many (is_outbox_of job.id) (cancel_outbox_row c.now) rows
    else if same_state (recovered_state job) queued
    then update_many (λ o. is_outbox_of job.id o && not (is_some o.cancelled_at)) (redeliver c.now)
        rows
    else rows

abbrev recovery_event : RecoveryInput → ServiceAudit → String → Job → AuditEvent
recovery_event c a correlation_id job = record {
  id = a.id;
  action = "job.reconcile";
  actor_user_id = none;
  actor_service = some a.actor_service;
  correlation_id = correlation_id;
  occurred_at = c.now;
  outcome = "REPAIRED";
  reason_code =
      if asked_to_cancel job then "CANCELLATION_REQUEST_RECOVERED" else "EXPIRED_LEASE_RECOVERED";
  resource_id = some job.id;
  resource_type = "background_job";
  workspace_id = job.workspace_id;
}

abbrev pub recovery_events : RecoveryInput → Job → List AuditEvent → List AuditEvent
recovery_events c job rows = elim c.audit [
  | none ↦ rows
  | some a ↦ elim (parse_correlation_id a.correlation_id) [
    | none ↦ rows
    | some correlation_id ↦ rows ++ recovery_event c a correlation_id job ∷ []
  ]
]

-- The transaction from the update on; a count that is not 1 returns false.
unfoldable pub write_recovery : RecoveryInput → String → Job → Db → Result (Bool × Db)
unfolding same_state
write_recovery c lease_id job db = do
  assert_job_transition processing (recovered_state job)
  let updated = record db {
    jobs = update_many (is_recoverable c lease_id job) (recover c job) db.jobs;
  }
  if not (count_where (is_recoverable c lease_id job) db.jobs == 1) then ok (false, updated) else do
    ensure (count_where (holds_lease lease_id) db.attempts == 1) job_lease_lost
    ok (
      true,
      record updated {
        attempts = update_many (holds_lease lease_id) (close_attempt c job) db.attempts;
        outbox = recover_outbox c job db.outbox;
        audit = recovery_events c job db.audit;
      },
    )

abbrev audit_is_valid : Option ServiceAudit → Bool
audit_is_valid none = true
audit_is_valid (some a) = is_some (parse_correlation_id a.correlation_id)

unfoldable pub recover_expired_lease : RecoveryInput → String → Db → Db → Result (Bool × Db)
recover_expired_lease c job_id seen db = do
  ensure (audit_is_valid c.audit) (validation_error "JOB_RECONCILIATION_CORRELATION_INVALID")
  rescue "JOB_LEASE_RECOVERY_FAILED" (
      if_found (find_first (has_expired c.workspace_id job_id c.now) seen.jobs) (ok (false, db))
        λ job. if_found job.lease_id (ok (false, db)) λ lease_id. write_recovery c lease_id job db)
