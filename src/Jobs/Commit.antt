-- ===== src/Jobs/Commit.antt =====
-- commitJobSuccess and commitJobFailure of packages/db/src/job-execution.ts: the end of an attempt.
use content_automation.Base.{ℕ, ◌+◌, String, Bool, ◌&&◌, not, Option, none, some}
use content_automation.Base.Tests.{◌==◌, is_some}
use content_automation.Base.Rows.{update_many, count_where}
use content_automation.Domain.Lifecycle.{
  JobState, AttemptState, processing, retry_scheduled, succeeded, failed_attention, same_state,
}
use content_automation.Domain.Retry.{
  JobFailure, RetryDecision, NextAction, retry, failed, retry_automatic,
}
use content_automation.Errors.{
  Result, ok, ◌>>=◌, ◌>>◌, ensure, rescue, job_lease_lost, assert_job_transition,
}
use content_automation.Jobs.Store.{Job, Attempt, Db, holds_lease}
use content_automation.Jobs.Lease.{is_leased}

-- where: { id, cancellationRequestedAt: null, leaseId, state: "PROCESSING", workspaceId }
abbrev pub is_committable : String → String → String → Job → Bool
is_committable workspace_id job_id lease_id r =
    not (is_some r.cancellation_requested_at) && is_leased workspace_id job_id lease_id r

abbrev pub succeed : ℕ → Job → Job
succeed at r = record r {
  completed_at = some at;
  heartbeat_at = some at;
  lease_expires_at = none;
  lease_id = none;
  stage = "completed";
  state = succeeded;
  version = r.version + 1;
}

abbrev pub succeed_attempt : ℕ → Attempt → Attempt
succeed_attempt at a = record a {
  completed_at = some at;
  heartbeat_at = at;
  stage = "completed";
  state = AttemptState.succeeded;
}

-- `commit` is the callback of the handler's TransactionalJobResult: it writes the handler's own
-- tables and enqueues follow-up work, in this transaction.
unfoldable pub commit_job_success : (Db → Result Db) → String → String → String → ℕ → Db → Result Db
unfolding assert_job_transition same_state
commit_job_success commit workspace_id job_id lease_id at db = do
  assert_job_transition processing succeeded
  rescue "JOB_RESULT_COMMIT_FAILED" (do
    ensure (count_where (is_committable workspace_id job_id lease_id) db.jobs == 1) job_lease_lost
    written ← commit (record db {
      jobs = update_many (is_committable workspace_id job_id lease_id) (succeed at) db.jobs;
    })
    ensure (count_where (holds_lease lease_id) written.attempts == 1) job_lease_lost
    ok (record written {
      attempts = update_many (holds_lease lease_id) (succeed_attempt at) written.attempts;
    }))

-- nextState, nextAction, nextAttemptAt, stage and completedAt, by the decision
abbrev pub failed_state : RetryDecision → JobState
failed_state (retry _ _) = retry_scheduled
failed_state (failed _) = failed_attention

abbrev pub failed_attempt_state : RetryDecision → AttemptState
failed_attempt_state (retry _ _) = AttemptState.retry_scheduled
failed_attempt_state (failed _) = AttemptState.failed_attention

abbrev pub decided_action : RetryDecision → NextAction
decided_action (retry _ _) = retry_automatic
decided_action (failed a) = a

abbrev pub decided_next_attempt : RetryDecision → Option ℕ
decided_next_attempt (retry _ at) = some at
decided_next_attempt (failed _) = none

abbrev pub decided_stage : RetryDecision → String
decided_stage (retry _ _) = "retry_scheduled"
decided_stage (failed _) = "failed_attention"

abbrev pub decided_completion : RetryDecision → ℕ → Option ℕ
decided_completion (retry _ _) at = none
decided_completion (failed _) at = some at

abbrev pub fail : JobFailure → RetryDecision → ℕ → Job → Job
fail f d at r = record r {
  completed_at = decided_completion d at;
  heartbeat_at = some at;
  last_error_class = some f.error_class;
  last_error_code = some f.error_code;
  lease_expires_at = none;
  lease_id = none;
  next_action = some (decided_action d);
  next_attempt_at = decided_next_attempt d;
  stage = decided_stage d;
  state = failed_state d;
  version = r.version + 1;
}

abbrev pub fail_attempt : JobFailure → RetryDecision → ℕ → Attempt → Attempt
fail_attempt f d at a = record a {
  completed_at = some at;
  error_class = some f.error_class;
  error_code = some f.error_code;
  heartbeat_at = at;
  next_action = some (decided_action d);
  next_attempt_at = decided_next_attempt d;
  stage = decided_stage d;
  state = failed_attempt_state d;
}

unfoldable pub commit_job_failure :
    JobFailure → RetryDecision → String → String → String → ℕ → Db → Result Db
unfolding same_state
commit_job_failure f d workspace_id job_id lease_id at db = do
  assert_job_transition processing (failed_state d)
  rescue "JOB_FAILURE_COMMIT_FAILED" (do
    ensure (count_where (is_committable workspace_id job_id lease_id) db.jobs == 1) job_lease_lost
    ensure (count_where (holds_lease lease_id) db.attempts == 1) job_lease_lost
    ok (record db {
      jobs = update_many (is_committable workspace_id job_id lease_id) (fail f d at) db.jobs;
      attempts = update_many (holds_lease lease_id) (fail_attempt f d at) db.attempts;
    }))
