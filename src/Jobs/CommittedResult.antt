-- ===== src/Jobs/CommittedResult.antt =====
-- repairCommittedResult of packages/db/src/job-reconciliation.ts.
use content_automation.Base.{ℕ, ◌+◌, String, Bool, true, false, not, ◌&&◌, none, some}
use content_automation.Base.Tests.{◌==◌, if◌then◌else◌, if_found, is_some}
use content_automation.Base.Rows.{find_first, update_many, count_where}
use content_automation.Domain.Lifecycle.{
  JobState, queued, processing, retry_scheduled, succeeded, same_state,
}
use content_automation.Errors.{Error, Result, ok, ◌>>=◌, ◌>>◌, ensure, operational, conflict}
use content_automation.Jobs.Store.{Job, Db, is_outbox_of}
use content_automation.Jobs.Lease.{cancel_outbox_row, holds_lease_in}
use content_automation.Jobs.Commit.{succeed_attempt}
use text.Mathlib.Text.{◌==◌ as str_eq}
use content_automation.Jobs.Reconciliation.{Repair, audited}

-- repairCommittedResult
abbrev pub is_open_state : JobState → Bool
is_open_state queued = true
is_open_state processing = true
is_open_state retry_scheduled = true
is_open_state _ = false

abbrev pub is_repairable : Repair → String → Job → Bool
is_repairable c job_id r =
    not (is_some r.cancellation_requested_at)
    && (str_eq r.id job_id && (is_open_state r.state && str_eq r.workspace_id c.workspace_id))

abbrev pub is_as_read : Repair → Job → Job → Bool
is_as_read c job r =
    str_eq r.id job.id
    && (same_state r.state job.state
        && (r.version == job.version && str_eq r.workspace_id c.workspace_id))

abbrev pub complete : ℕ → Job → Job
complete now r = record r {
  completed_at = some now;
  heartbeat_at = some now;
  last_error_class = none;
  last_error_code = none;
  lease_expires_at = none;
  lease_id = none;
  next_action = none;
  next_attempt_at = none;
  reconciliation_code = none;
  reconciliation_required_at = none;
  stage = "completed";
  state = succeeded;
  version = r.version + 1;
}

abbrev attempt_missing : Error
attempt_missing = operational "JOB_RECONCILIATION_ATTEMPT_MISSING" conflict false 409

-- the attempt that holds the lease of the job, where it has one
unfoldable pub complete_attempt : Repair → Job → Db → Result Db
complete_attempt c job db = if_found job.lease_id (ok db) λ lease_id. do
  ensure (count_where (holds_lease_in c.workspace_id lease_id) db.attempts == 1) attempt_missing
  ok (record db {
    attempts =
        update_many (holds_lease_in c.workspace_id lease_id) (succeed_attempt c.now) db.attempts;
  })

-- after the update of the job
unfoldable pub close_committed : Repair → Job → Db → Result (Bool × Db)
close_committed c job db = do
  marked ← complete_attempt c job db
  ok (
    true,
    audited c job.id "REPAIRED" "COMMITTED_RESULT_STATE_REPAIRED" (record marked {
      outbox = update_many (is_outbox_of job.id) (cancel_outbox_row c.now) marked.outbox;
    }),
  )

unfoldable pub write_committed : Repair → Job → Db → Result (Bool × Db)
unfolding same_state
write_committed c job db =
    let updated = record db { jobs = update_many (is_as_read c job) (complete c.now) db.jobs } in
    if not (count_where (is_as_read c job) db.jobs == 1)
    then ok (false, updated)
    else close_committed c job updated

unfoldable pub repair_committed_result : Repair → String → Db → Db → Result (Bool × Db)
repair_committed_result c job_id seen db =
    if_found (find_first (is_repairable c job_id) seen.jobs) (ok (false, db))
      λ job. write_committed c job db
