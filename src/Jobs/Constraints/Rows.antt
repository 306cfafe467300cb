-- ===== src/Jobs/Constraints/Rows.antt =====
-- Each row that packages/db/src/job-execution.ts writes passes the CHECK constraints of its table.
use content_automation.Base.{ℕ, ◌≤◌, String, ◌≡◌, true, arith}
use content_automation.Domain.Lifecycle.{same_state}
use content_automation.Domain.Retry.{JobFailure, RetryDecision}
use content_automation.Jobs.Store.{Job, Attempt, Outbox, holds_lease}
use content_automation.Jobs.Constraints.Checks.{JobChecks, AttemptChecks, OutboxChecks, IsHandled}
use content_automation.Jobs.Claim.{ClaimInput, is_claimable, start, first_attempt}
use content_automation.Jobs.Lease.{
  is_leased, beat, beat_attempt, enter_stage, enter_stage_attempt, settle_cancellation,
  cancel_attempt, cancel_outbox_row,
}
use content_automation.Jobs.Recovery.{
  RecoveryInput, is_retry_due, release_retry, is_recoverable, recover, close_attempt, redeliver,
}
use content_automation.Jobs.Commit.{is_committable, succeed, succeed_attempt, fail, fail_attempt}

pub start-JobChecks :
    (c : ClaimInput) (job r : Job)
    → job.max_attempts ≤ r.max_attempts
    → is_claimable c job r ≡ true
    → JobChecks r
    → JobChecks (start c job r)
unfolding same_state
start-JobChecks c job r m t h = ground arith

pub first_attempt-AttemptChecks :
    (c : ClaimInput) (job : Job) → IsHandled job → AttemptChecks (first_attempt c job)
first_attempt-AttemptChecks c job n = ground arith

pub beat-JobChecks :
    (w j l : String) (at d : ℕ) (r : Job)
    → is_leased w j l r ≡ true
    → JobChecks r
    → JobChecks (beat at d r)
unfolding same_state
beat-JobChecks w j l at d r t h = ground arith

pub beat_attempt-AttemptChecks :
    (at : ℕ) (a : Attempt) → AttemptChecks a → AttemptChecks (beat_attempt at a)
beat_attempt-AttemptChecks at a h = ground arith

pub enter_stage-JobChecks :
    (w j l s : String) (at : ℕ) (r : Job)
    → is_leased w j l r ≡ true
    → JobChecks r
    → JobChecks (enter_stage s at r)
unfolding same_state
enter_stage-JobChecks w j l s at r t h = ground arith

pub enter_stage_attempt-AttemptChecks :
    (s : String) (at : ℕ) (a : Attempt)
    → AttemptChecks a
    → AttemptChecks (enter_stage_attempt s at a)
enter_stage_attempt-AttemptChecks s at a h = ground arith

pub settle_cancellation-JobChecks :
    (at : ℕ) (r : Job) → JobChecks r → JobChecks (settle_cancellation at r)
settle_cancellation-JobChecks at r h = ground arith

pub cancel_attempt-AttemptChecks :
    (l : String) (at : ℕ) (a : Attempt)
    → holds_lease l a ≡ true
    → AttemptChecks a
    → AttemptChecks (cancel_attempt at a)
cancel_attempt-AttemptChecks l at a t h = ground arith

pub cancel_outbox_row-OutboxChecks :
    (at : ℕ) (o : Outbox) → OutboxChecks o → OutboxChecks (cancel_outbox_row at o)
cancel_outbox_row-OutboxChecks at o h = ground arith

pub release_retry-JobChecks :
    (w j : String) (now : ℕ) (r : Job)
    → is_retry_due w j now r ≡ true
    → JobChecks r
    → JobChecks (release_retry now r)
unfolding same_state
release_retry-JobChecks w j now r t h = ground arith

pub recover-JobChecks :
    (c : RecoveryInput) (l : String) (job r : Job)
    → is_recoverable c l job r ≡ true
    → JobChecks r
    → JobChecks (recover c job r)
unfolding same_state
recover-JobChecks c l job r t h = ground arith

pub close_attempt-AttemptChecks :
    (c : RecoveryInput) (l : String) (job : Job) (a : Attempt)
    → holds_lease l a ≡ true
    → AttemptChecks a
    → AttemptChecks (close_attempt c job a)
close_attempt-AttemptChecks c l job a t h = ground arith

pub redeliver-OutboxChecks :
    (now : ℕ) (o : Outbox) → OutboxChecks o → OutboxChecks (redeliver now o)
redeliver-OutboxChecks now o h = ground arith

pub succeed-JobChecks :
    (w j l : String) (at : ℕ) (r : Job)
    → is_committable w j l r ≡ true
    → JobChecks r
    → JobChecks (succeed at r)
unfolding same_state
succeed-JobChecks w j l at r t h = ground arith

pub succeed_attempt-AttemptChecks :
    (l : String) (at : ℕ) (a : Attempt)
    → holds_lease l a ≡ true
    → AttemptChecks a
    → AttemptChecks (succeed_attempt at a)
succeed_attempt-AttemptChecks l at a t h = ground arith

pub fail-JobChecks :
    (f : JobFailure) (d : RetryDecision) (at : ℕ) (r : Job)
    → JobChecks r
    → JobChecks (fail f d at r)
fail-JobChecks f d at r h = ground arith

pub fail_attempt-AttemptChecks :
    (f : JobFailure) (d : RetryDecision) (at : ℕ) (a : Attempt)
    → AttemptChecks a
    → AttemptChecks (fail_attempt f d at a)
fail_attempt-AttemptChecks f d at a h = ground arith
