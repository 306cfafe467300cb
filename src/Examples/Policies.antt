-- ===== src/Examples/Policies.antt =====
-- Decisions of the retry policy.
use content_automation.Base.{ℕ, ◌+◌, ◌≡◌, ◌≤◌, ◌<◌, refl, none, arith}
use content_automation.Domain.Number.{Number, clamp_random}
use content_automation.Domain.Retry.{
  RetryInput, retry, retry_horizon_ms, maximum_attempts_by_class, provider_delay_ms,
  terminal_next_action, decide_job_retry, schedule_retry,
}
use content_automation.Domain.Retry.Bounds.{decide_bounds, decide_retries}
use content_automation.Examples.Data.{failure}

abbrev attempt : RetryInput
attempt = record {
  attempt_number = 2;
  failure = failure;
  job_created_at = 1_000;
  max_attempts = 8;
  now = 50_000;
  random = Number.fraction 1 1;
}

-- Half of two minutes.
attempt_decision : decide_job_retry attempt ≡ retry 60_000 110_000
unfolding decide_job_retry schedule_retry terminal_next_action clamp_random provider_delay_ms
attempt_decision = refl

decide_bounds_example :
    (1_000 ≤ 60_000)
    × (60_000 ≤ retry_horizon_ms)
    × (110_000 ≡ attempt.now + 60_000)
    × (110_000 ≤ attempt.job_created_at + retry_horizon_ms)
    × (provider_delay_ms attempt.failure.provider_retry_after_ms ≤ 60_000)
    × (1 ≤ attempt.attempt_number)
    × (attempt.attempt_number < attempt.max_attempts)
    × (attempt.attempt_number < maximum_attempts_by_class attempt.failure.error_class)
    × (terminal_next_action attempt.failure ≡ none)
decide_bounds_example = decide_bounds attempt 60_000 110_000 attempt_decision

decide_retries_example :
    (delay : ℕ) × (decide_job_retry attempt ≡ retry delay (attempt.now + delay))
unfolding terminal_next_action provider_delay_ms
decide_retries_example =
    decide_retries attempt refl (omega arith) (omega arith) (omega arith) (omega arith)
      (omega arith) (omega arith)
