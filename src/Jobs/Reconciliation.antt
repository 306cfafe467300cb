-- ===== src/Jobs/Reconciliation.antt =====
-- The repairs of packages/db/src/job-reconciliation.ts but for repairCommittedResult, each a
-- transaction on one job. `seen` is the
-- database that the transaction reads, `db` the one that its writes meet.
use content_automation.Base.{
  ℕ, ◌+◌, String, Bool, true, false, not, ◌&&◌, none, some, List, [], ◌∷◌, ◌++◌,
}
use content_automation.Base.Tests.{◌==◌, if◌then◌else◌, if_found, is_some, is_due, opt_eq}
use content_automation.Base.Rows.{find_first, update_many, count_where}
use content_automation.Domain.Lifecycle.{queued, retry_scheduled, same_state}
use content_automation.Errors.{Error, Result, ok, err, ◌>>◌, assert_job_transition}
use content_automation.Jobs.Store.{Job, AuditEvent, Outbox, Db, DispatchStatus, is_outbox_of}
use content_automation.Jobs.Recovery.{is_retry_due}
use content_automation.Jobs.Operations.Retry.{new_outbox_row, upsert_outbox}
use text.Mathlib.Text.{◌==◌ as str_eq}

-- The workspace of the job, the parsed correlation identifier, the fresh identifiers and the time.
pub record Repair : Type 0 where
  pub workspace_id : String
  pub correlation_id : String
  pub audit_id : String
  pub outbox_id : String
  pub now : ℕ

-- createServiceAudit, with serviceAuditData
abbrev service_audit : Repair → String → String → String → AuditEvent
service_audit c job_id outcome reason_code = record {
  id = c.audit_id;
  action = "job.reconcile";
  actor_user_id = none;
  actor_service = some "job-reconciler";
  correlation_id = c.correlation_id;
  occurred_at = c.now;
  outcome = outcome;
  reason_code = reason_code;
  resource_id = some job_id;
  resource_type = "background_job";
  workspace_id = c.workspace_id;
}

abbrev pub audited : Repair → String → String → String → Db → Db
audited c job_id outcome reason_code db = record db {
  audit = db.audit ++ service_audit c job_id outcome reason_code ∷ [];
}

-- requeueDueRetry
abbrev pub is_still_due : Repair → Job → Job → Bool
is_still_due c job r =
    str_eq r.id job.id
    && (is_due r.next_attempt_at c.now
        && (same_state r.state retry_scheduled && r.version == job.version))

abbrev pub requeue_retry : ℕ → Job → Job
requeue_retry now r = record r {
  dispatch_status = DispatchStatus.pending;
  next_attempt_at = none;
  queued_at = now;
  stage = "queued";
  state = queued;
  version = r.version + 1;
}

unfoldable pub write_due_retry : Repair → Job → Db → Result (Bool × Db)
unfolding assert_job_transition same_state
write_due_retry c job db = do
  assert_job_transition retry_scheduled queued
  let updated = record db { jobs = update_many (is_still_due c job) (requeue_retry c.now) db.jobs }
  if not (count_where (is_still_due c job) db.jobs == 1)
      then ok (false, updated)
      else ok (
        true,
        audited c job.id "REPAIRED" "RETRY_DUE_REQUEUED"
            (record updated { outbox = upsert_outbox c.outbox_id c.now job db.outbox }),
      )

unfoldable pub requeue_due_retry : Repair → String → Db → Db → Result (Bool × Db)
requeue_due_retry c job_id seen db =
    if_found (find_first (is_retry_due c.workspace_id job_id c.now) seen.jobs) (ok (false, db))
      λ job. write_due_retry c job db

-- outbox: { cancelledAt: null, dispatchedAt: { not: null } }
abbrev pub was_dispatched : String → List Outbox → Bool
was_dispatched job_id rows = is_some (
    find_first
      (λ o. is_outbox_of job_id o && (not (is_some o.cancelled_at) && is_some o.dispatched_at))
      rows)

-- requeueStrandedDelivery
abbrev pub is_stranded : Repair → String → List Outbox → Job → Bool
is_stranded c job_id outbox r =
    str_eq r.id job_id
    && (not (is_some r.lease_id)
        && (was_dispatched r.id outbox
            && (same_state r.state queued && str_eq r.workspace_id c.workspace_id)))

abbrev pub is_same_version : Repair → Job → Job → Bool
is_same_version c job r =
    str_eq r.id job.id && (r.version == job.version && str_eq r.workspace_id c.workspace_id)

abbrev pub mark_pending : Job → Job
mark_pending r = record r { dispatch_status = DispatchStatus.pending; version = r.version + 1 }

unfoldable pub write_stranded : Repair → Job → Db → Result (Bool × Db)
write_stranded c job db =
    let updated = record db { jobs = update_many (is_same_version c job) mark_pending db.jobs } in
    if not (count_where (is_same_version c job) db.jobs == 1)
    then ok (false, updated)
    else ok (
      true,
      audited c job.id "REPAIRED" "STRANDED_DELIVERY_REQUEUED"
          (record updated { outbox = upsert_outbox c.outbox_id c.now job db.outbox }),
    )

unfoldable pub requeue_stranded_delivery : Repair → String → Db → Db → Result (Bool × Db)
unfolding same_state
requeue_stranded_delivery c job_id seen db =
    if_found (find_first (is_stranded c job_id seen.outbox) seen.jobs) (ok (false, db))
      λ job. write_stranded c job db

-- repairMissingOutbox; the unique key on the job refuses a second outbox row
abbrev pub lacks_outbox : Repair → String → List Outbox → Job → Bool
lacks_outbox c job_id outbox r =
    str_eq r.id job_id
    && (not (is_some (find_first (is_outbox_of r.id) outbox))
        && (same_state r.state queued && str_eq r.workspace_id c.workspace_id))

unfoldable pub write_missing_outbox : Repair → Job → Db → Result (Bool × Db)
write_missing_outbox c job db =
    if is_some (find_first (is_outbox_of job.id) db.outbox)
    then err Error.other
    else ok (
      true,
      audited c job.id "REPAIRED" "MISSING_OUTBOX_RECREATED"
          (record db { outbox = db.outbox ++ new_outbox_row c.outbox_id c.now job ∷ [] }),
    )

unfoldable pub repair_missing_outbox : Repair → String → Db → Db → Result (Bool × Db)
unfolding same_state
repair_missing_outbox c job_id seen db =
    if_found (find_first (lacks_outbox c job_id seen.outbox) seen.jobs) (ok (false, db))
      λ job. write_missing_outbox c job db

-- flagAmbiguousJob
abbrev pub is_unflagged : Repair → String → String → Job → Bool
is_unflagged c job_id reason_code r =
    str_eq r.id job_id
    && (not (opt_eq r.reconciliation_code (some reason_code))
        && str_eq r.workspace_id c.workspace_id)

abbrev pub flag : Repair → String → Job → Job
flag c reason_code r = record r {
  reconciliation_code = some reason_code;
  reconciliation_required_at = some c.now;
  version = r.version + 1;
}

unfoldable pub flag_ambiguous_job : Repair → String → String → Db → Result (Bool × Db)
flag_ambiguous_job c job_id reason_code db =
    let updated = record db {
      jobs = update_many (is_unflagged c job_id reason_code) (flag c reason_code) db.jobs;
    } in
    if not (count_where (is_unflagged c job_id reason_code) db.jobs == 1)
    then ok (false, updated)
    else ok (true, audited c job_id "FLAGGED" reason_code updated)
