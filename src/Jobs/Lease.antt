-- ===== src/Jobs/Lease.antt =====
-- The operations of packages/db/src/job-execution.ts on a lease that a worker holds: heartbeat,
-- stage and the cooperative cancellation check.
use content_automation.Base.{ℕ, ◌+◌, String, Bool, true, false, not, ◌&&◌, none, some}
use content_automation.Base.Tests.{◌==◌, if◌then◌else◌, is_some, if_found, opt_eq, is_positive_safe}
use content_automation.Base.Rows.{find_first, update_many, count_where}
use content_automation.Domain.Lifecycle.{
  AttemptState, processing, cancelled, same_state, is_safe_job_stage,
}
use content_automation.Errors.{
  Result, ok, err, ◌>>=◌, ◌>>◌, ensure, rescue, validation_error, job_lease_lost,
  assert_job_transition,
}
use content_automation.Jobs.Store.{
  Job, Attempt, Outbox, Db, DispatchStatus, holds_lease, is_outbox_of,
}
use text.Mathlib.Text.{◌==◌ as str_eq}

-- where: { id, leaseId, state: "PROCESSING", workspaceId }
abbrev pub is_leased : String → String → String → Job → Bool
is_leased workspace_id job_id lease_id r =
    str_eq r.id job_id
    && (opt_eq r.lease_id (some lease_id)
        && (same_state r.state processing && str_eq r.workspace_id workspace_id))

-- where: { leaseId, state: "ACTIVE", workspaceId }
abbrev pub holds_lease_in : String → String → Attempt → Bool
holds_lease_in workspace_id lease_id a =
    holds_lease lease_id a && str_eq a.workspace_id workspace_id

unfoldable pub update_active_attempt :
    (Job → Job) → (Attempt → Attempt) → String → String → String → Db → Result Db
unfolding same_state
update_active_attempt job_data attempt_data workspace_id job_id lease_id db = do
  let job_count = count_where (is_leased workspace_id job_id lease_id) db.jobs
  let attempt_count = count_where (holds_lease_in workspace_id lease_id) db.attempts
  ensure (job_count == 1 && attempt_count == 1) job_lease_lost
  ok (record db {
    jobs = update_many (is_leased workspace_id job_id lease_id) job_data db.jobs;
    attempts = update_many (holds_lease_in workspace_id lease_id) attempt_data db.attempts;
  })

abbrev pub beat : ℕ → ℕ → Job → Job
beat at duration r = record r {
  heartbeat_at = some at;
  lease_expires_at = some (at + duration);
  version = r.version + 1;
}

abbrev pub beat_attempt : ℕ → Attempt → Attempt
beat_attempt at a = record a { heartbeat_at = at }

unfoldable pub heartbeat_background_job : String → String → String → ℕ → ℕ → Db → Result Db
heartbeat_background_job workspace_id job_id lease_id at duration db = do
  ensure (is_positive_safe duration) (validation_error "JOB_LEASE_DURATION_INVALID")
  update_active_attempt (beat at duration) (beat_attempt at) workspace_id job_id lease_id db

abbrev pub enter_stage : String → ℕ → Job → Job
enter_stage stage at r = record r { heartbeat_at = some at; stage = stage; version = r.version + 1 }

abbrev pub enter_stage_attempt : String → ℕ → Attempt → Attempt
enter_stage_attempt stage at a = record a { heartbeat_at = at; stage = stage }

unfoldable pub record_background_job_stage : String → String → String → String → ℕ → Db → Result Db
record_background_job_stage workspace_id job_id lease_id stage at db = do
  ensure (is_safe_job_stage stage) (validation_error "JOB_STAGE_INVALID")
  update_active_attempt (enter_stage stage at) (enter_stage_attempt stage at) workspace_id job_id
      lease_id db

-- the `where` of the cancelling update
abbrev pub is_cancellable : String → String → Job → Job → Bool
is_cancellable workspace_id lease_id job r =
    is_some r.cancellation_requested_at
    && (is_leased workspace_id job.id lease_id r && r.version == job.version)

abbrev pub settle_cancellation : ℕ → Job → Job
settle_cancellation at r = record r {
  completed_at = some at;
  dispatch_status = DispatchStatus.cancelled;
  heartbeat_at = some at;
  last_error_class = none;
  last_error_code = none;
  lease_expires_at = none;
  lease_id = none;
  next_action = none;
  next_attempt_at = none;
  reconciliation_code = none;
  reconciliation_required_at = none;
  stage = "cancelled";
  state = cancelled;
  version = r.version + 1;
}

abbrev pub cancel_attempt : ℕ → Attempt → Attempt
cancel_attempt at a = record a {
  completed_at = some at;
  heartbeat_at = at;
  stage = "cancelled";
  state = AttemptState.cancelled;
}

-- data: { cancelledAt, leaseExpiresAt: null, leaseId: null }
abbrev pub cancel_outbox_row : ℕ → Outbox → Outbox
cancel_outbox_row at o = record o {
  cancelled_at = some at;
  lease_expires_at = none;
  lease_id = none;
}

unfoldable pub write_cancellation : String → String → ℕ → Job → Db → Result Db
unfolding assert_job_transition same_state
write_cancellation workspace_id lease_id at job db = do
  assert_job_transition processing cancelled
  ensure (count_where (is_cancellable workspace_id lease_id job) db.jobs == 1) job_lease_lost
  ensure (count_where (holds_lease_in workspace_id lease_id) db.attempts == 1) job_lease_lost
  ok (record db {
    jobs = update_many (is_cancellable workspace_id lease_id job) (settle_cancellation at) db.jobs;
    attempts = update_many (holds_lease_in workspace_id lease_id) (cancel_attempt at) db.attempts;
    outbox = update_many (is_outbox_of job.id) (cancel_outbox_row at) db.outbox;
  })

-- The transaction of throwIfBackgroundJobCancellationRequested. `true`: the cancellation was
-- committed, and JobCancellationRequestedError is thrown after it.
unfoldable pub check_cancellation : String → String → String → ℕ → Db → Db → Result (Bool × Db)
unfolding same_state
check_cancellation workspace_id job_id lease_id at seen db =
    rescue "JOB_CANCELLATION_CHECK_FAILED" (
      if_found (find_first (is_leased workspace_id job_id lease_id) seen.jobs) (err job_lease_lost)
        λ job.
          if not (is_some job.cancellation_requested_at)
          then ok (false, db)
          else do db' ← write_cancellation workspace_id lease_id at job db; ok (true, db'))
