-- ===== src/Domain/Retry/Bounds.antt =====
-- How often and how far ahead the retry policy of packages/domain/src/job-retry.ts schedules an
-- attempt, and that it does schedule one where the limits allow it.
use native.Mathlib.Nat.{mul-le-mul_left, div-lt_iff_lt-mul}
use content_automation.Base.{
  ℕ, zero, suc, ◌+◌, ◌*◌, ◌-◌, ◌≤◌, ◌<◌, max, ◌≡◌, refl, ap, inl, inr, none, some, List, [], ◌∷◌,
  arith,
}
use content_automation.Base.Rows.{All}
use content_automation.Base.Tests.{max_safe_integer, Option-cases}
use content_automation.Domain.Number.{Number, clamp_random, floor_product}
use content_automation.Domain.Retry.{
  FailureClass, transient, rate_limit, credential, invalid_input, semantic_output, database,
  unknown, JobFailure, RetryInput, retry, retry_horizon_ms, maximum_attempts_by_class, retry_caps,
  normalise_failure, get_elem?, provider_delay_ms, terminal_next_action, schedule_retry,
  decide_job_retry,
}

-- A failed attempt is repeated only while both attempt limits leave room and its class may be
-- retried; the delay is at least a second, at least the provider's hint and at most a day, and
-- the next attempt falls within a day of the job's creation.
pub decide_bounds :
    (input : RetryInput) (delay at : ℕ)
    → decide_job_retry input ≡ retry delay at
    → (1_000 ≤ delay)
      × (delay ≤ retry_horizon_ms)
      × (at ≡ input.now + delay)
      × (at ≤ input.job_created_at + retry_horizon_ms)
      × (provider_delay_ms input.failure.provider_retry_after_ms ≤ delay)
      × (1 ≤ input.attempt_number)
      × (input.attempt_number < input.max_attempts)
      × (input.attempt_number < maximum_attempts_by_class input.failure.error_class)
      × (terminal_next_action input.failure ≡ none)
unfolding decide_job_retry schedule_retry terminal_next_action
decide_bounds input delay at h = ground arith

length : List ℕ → ℕ
length [] = 0
length (x ∷ xs) = suc (length xs)

get_elem?-none : (xs : List ℕ) (i : ℕ) → get_elem? xs i ≡ none → length xs ≤ i
unfolding length
get_elem?-none [] i h = omega arith
get_elem?-none (x ∷ xs) zero h = cc
get_elem?-none (x ∷ xs) (suc i) h = omega (arith, get_elem?-none xs i h)

-- The table of caps covers every attempt that its class repeats.
caps_length : (c : FailureClass) → maximum_attempts_by_class c ≤ suc (length (retry_caps c))
unfolding length
caps_length transient = omega arith
caps_length rate_limit = omega arith
caps_length credential = omega arith
caps_length invalid_input = omega arith
caps_length semantic_output = omega arith
caps_length database = omega arith
caps_length unknown = omega arith

abbrev largest_cap : ℕ
largest_cap = 43_200_000

abbrev IsCap : ℕ → Type 0
IsCap cap = (1_000 ≤ cap) × (cap ≤ largest_cap)

caps_range : (c : FailureClass) → All IsCap (retry_caps c)
caps_range transient = omega arith
caps_range rate_limit = omega arith
caps_range credential = omega arith
caps_range invalid_input = tt
caps_range semantic_output = omega arith
caps_range database = omega arith
caps_range unknown = tt

All-get_elem? :
    (xs : List ℕ) (i : ℕ) {cap : ℕ} → All IsCap xs → get_elem? xs i ≡ some cap → IsCap cap
All-get_elem? [] i h e = cc
All-get_elem? (x ∷ xs) zero h e = ground (arith, h.0)
All-get_elem? (x ∷ xs) (suc i) h e = All-get_elem? xs i h.1 e

cap_exists :
    (c : FailureClass) (attempt : ℕ)
    → 1 ≤ attempt
    → attempt < maximum_attempts_by_class c
    → (cap : ℕ) × (get_elem? (retry_caps c) (attempt - 1) ≡ some cap)
cap_exists c attempt p q = elim (Option-cases (get_elem? (retry_caps c) (attempt - 1))) [
  | inl e ↦ absurd (omega (arith, caps_length c, get_elem?-none (retry_caps c) (attempt - 1) e))
  | inr found ↦ found
]

clamp_random-le_one : (v : Number) → (clamp_random v).num ≤ suc (clamp_random v).den_pred
unfolding clamp_random
clamp_random-le_one v = ground arith

div-le_of_mul : (cap n k : ℕ) → n ≤ suc k → cap * n < suc cap * suc k
div-le_of_mul cap n k h = omega (arith, mul-le-mul_left cap h)

-- Jitter only shortens a delay.
floor_product-le : (cap : ℕ) (v : Number) → floor_product cap (clamp_random v) ≤ cap
floor_product-le cap v =
    let r = clamp_random v in
    omega (
      arith,
      (div-lt_iff_lt-mul {k = suc r.den_pred} {x = cap * r.num} {y = suc cap} (omega arith)).1
          (div-le_of_mul cap r.num r.den_pred (clamp_random-le_one v)),
    )

-- The delay that the policy computes before it looks at the horizon.
abbrev pub hint : RetryInput → ℕ
hint input = provider_delay_ms input.failure.provider_retry_after_ms

schedule_retries :
    (input : RetryInput) (f : JobFailure) (cap : ℕ)
    → f.provider_retry_after_ms ≡ input.failure.provider_retry_after_ms
    → IsCap cap
    → hint input ≤ retry_horizon_ms
    → input.now + max largest_cap (hint input) ≤ input.job_created_at + retry_horizon_ms
    → (delay : ℕ) × (schedule_retry input f cap ≡ retry delay (input.now + delay))
unfolding schedule_retry
schedule_retries input f cap e p q r = (
  max (max 1_000 (floor_product cap (clamp_random input.random)))
      (provider_delay_ms f.provider_retry_after_ms),
  ground (arith, floor_product-le cap input.random, ap provider_delay_ms e),
)

-- A failed attempt of a class that may be retried is repeated whenever both attempt limits leave
-- room, the provider's hint is within a day, and the job is young enough for the longest delay.
pub decide_retries :
    (input : RetryInput)
    → terminal_next_action input.failure ≡ none
    → 1 ≤ input.attempt_number
    → input.attempt_number < input.max_attempts
    → input.max_attempts ≤ max_safe_integer
    → input.attempt_number < maximum_attempts_by_class input.failure.error_class
    → hint input ≤ retry_horizon_ms
    → input.now + max largest_cap (hint input) ≤ input.job_created_at + retry_horizon_ms
    → (delay : ℕ) × (decide_job_retry input ≡ retry delay (input.now + delay))
unfolding decide_job_retry terminal_next_action
decide_retries input t a b s c h r =
    let (cap, found) = cap_exists input.failure.error_class input.attempt_number a c in
    let range =
      All-get_elem? (retry_caps input.failure.error_class) (input.attempt_number - 1)
        (caps_range input.failure.error_class) found in
    let (delay, e) = schedule_retries input (normalise_failure input.failure) cap refl range h r in
    (delay, ground arith)

transient_caps :
    (i cap : ℕ) → i < 4 → get_elem? (retry_caps transient) i ≡ some cap → cap ≤ 1_800_000
transient_caps zero cap h e = ground arith
transient_caps (suc zero) cap h e = ground arith
transient_caps (suc (suc zero)) cap h e = ground arith
transient_caps (suc (suc (suc zero))) cap h e = ground arith
transient_caps (suc (suc (suc (suc i)))) cap h e = absurd (omega arith)

schedule_delay-le :
    (input : RetryInput) (f : JobFailure) (cap delay at : ℕ)
    → f.provider_retry_after_ms ≡ none
    → cap ≤ 1_800_000
    → schedule_retry input f cap ≡ retry delay at
    → delay ≤ 1_800_000
unfolding schedule_retry
schedule_delay-le input f cap delay at n c h =
    ground (arith, floor_product-le cap input.random, ap provider_delay_ms n)

-- A transient failure with no provider hint is never delayed by more than half an hour: the last
-- entry of its table of caps, two hours, is out of reach of its five attempts.
pub transient_delay :
    (input : RetryInput) (delay at : ℕ)
    → input.failure.error_class ≡ transient
    → input.failure.provider_retry_after_ms ≡ none
    → decide_job_retry input ≡ retry delay at
    → delay ≤ 1_800_000
unfolding decide_job_retry terminal_next_action
transient_delay input delay at c n h =
    elim (Option-cases
      (get_elem? (retry_caps input.failure.error_class) (input.attempt_number - 1))) [
        | inl e ↦ ground arith
        | inr (cap, e) ↦
            let small : cap ≤ 1_800_000 =
              transient_caps (input.attempt_number - 1) cap (ground arith) (ground arith) in
            schedule_delay-le input (normalise_failure input.failure) cap delay at n small
              (ground arith)
      ]
