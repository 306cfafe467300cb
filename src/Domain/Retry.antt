-- ===== src/Domain/Retry.antt =====
-- packages/domain/src/job-retry.ts: what happens to a job after a failed attempt. Attempt counts
-- and times in milliseconds are whole numbers that are not negative, as the database holds them.
pub mod Bounds
use content_automation.Base.{
  ℕ, zero, suc, ◌+◌, ◌-◌, max, min, String, Bool, true, false, not, ◌&&◌, ◌||◌, Option, none, some,
  List, [], ◌∷◌,
}
use content_automation.Base.Tests.{ltb, leb, ◌==◌, if◌then◌else◌, is_some, get_or, max_safe_integer}
use content_automation.Base.Text.{codes, is_upper, is_digit, matches_name}
use content_automation.Domain.Number.{
  Number, Ratio, is_positive_finite, floor, clamp_random, floor_product,
}

pub data FailureClass : Type 0 where
  transient rate_limit credential invalid_input semantic_output database unknown : FailureClass

pub data NextAction : Type 0 where
  retry_automatic reconnect_account replace_input review_output contact_support : NextAction

pub record JobFailure : Type 0 where
  pub credential_recoverable : Option Bool
  pub error_class : FailureClass
  pub error_code : String
  pub provider_retry_after_ms : Option Number

pub data RetryDecision : Type 0 where
  retry : ℕ → ℕ → RetryDecision  -- delayMs, nextAttemptAt
  failed : NextAction → RetryDecision

pub record RetryInput : Type 0 where
  pub attempt_number : ℕ
  pub failure : JobFailure
  pub job_created_at : ℕ
  pub max_attempts : ℕ
  pub now : ℕ
  pub random : Number  -- what input.random, or Math.random, returns

abbrev pub retry_horizon_ms : ℕ
retry_horizon_ms = 86_400_000

abbrev pub maximum_attempts_by_class : FailureClass → ℕ
maximum_attempts_by_class credential = 2
maximum_attempts_by_class database = 3
maximum_attempts_by_class invalid_input = 1
maximum_attempts_by_class rate_limit = 8
maximum_attempts_by_class semantic_output = 2
maximum_attempts_by_class transient = 5
maximum_attempts_by_class unknown = 1

abbrev pub retry_caps : FailureClass → List ℕ
retry_caps credential = 1_000 ∷ []
retry_caps database = 1_000 ∷ 5_000 ∷ []
retry_caps invalid_input = []
retry_caps rate_limit =
    30_000 ∷ 120_000 ∷ 600_000 ∷ 1_800_000 ∷ 7_200_000 ∷ 21_600_000 ∷ 43_200_000 ∷ []
retry_caps semantic_output = 1_000 ∷ []
retry_caps transient = 30_000 ∷ 120_000 ∷ 600_000 ∷ 1_800_000 ∷ 7_200_000 ∷ []
retry_caps unknown = []

-- caps[index]
abbrev pub get_elem? : List ℕ → ℕ → Option ℕ
get_elem? [] i = none
get_elem? (x ∷ xs) zero = some x
get_elem? (x ∷ xs) (suc i) = get_elem? xs i

-- safeErrorCodePattern
unfoldable pub is_safe_error_code : String → Bool
unfolding matches_name
is_safe_error_code value =
    matches_name is_upper (λ c. is_upper c || (is_digit c || c == b'_')) 63 (codes value)

unfoldable pub normalise_error_code : String → String
normalise_error_code value = if is_safe_error_code value then value else "JOB_HANDLER_FAILED"

unfoldable pub normalise_failure : JobFailure → JobFailure
normalise_failure f = record f { error_code = normalise_error_code f.error_code }

-- isPositiveFinite(failure.providerRetryAfterMs)
abbrev pub has_hint : Option Number → Bool
has_hint none = false
has_hint (some v) = is_positive_finite v

-- isPositiveFinite(hint) ? Math.floor(hint) : 0
unfoldable pub provider_delay_ms : Option Number → ℕ
unfolding is_positive_finite floor
provider_delay_ms none = 0
provider_delay_ms (some v) = if is_positive_finite v then floor v else 0

unfoldable pub terminal_next_action : JobFailure → Option NextAction
terminal_next_action f = elim f.error_class [
  | credential ↦ if get_or f.credential_recoverable false then none else some reconnect_account
  | invalid_input ↦ some replace_input
  | unknown ↦ some contact_support
  | _ ↦ none
]

unfoldable pub fallback_terminal_action : FailureClass → NextAction
fallback_terminal_action credential = reconnect_account
fallback_terminal_action invalid_input = replace_input
fallback_terminal_action semantic_output = review_output
fallback_terminal_action _ = contact_support

-- The guard of the first early return.
abbrev pub must_fail : RetryInput → ℕ → Option NextAction → Bool
must_fail input allowed terminal =
    is_some terminal
    || (not (leb input.attempt_number max_safe_integer)
        || (ltb input.attempt_number 1
            || (not (leb input.max_attempts max_safe_integer)
                || (ltb input.max_attempts 1 || leb allowed input.attempt_number))))

-- From the cap on: jitter, the provider's hint, and the horizon.
unfoldable pub schedule_retry : RetryInput → JobFailure → ℕ → RetryDecision
unfolding provider_delay_ms
schedule_retry input f cap =
    let jittered = max 1_000 (floor_product cap (clamp_random input.random)) in
    let delay = max jittered (provider_delay_ms f.provider_retry_after_ms) in
    let next_attempt_at = input.now + delay in
    if ltb retry_horizon_ms delay || ltb (input.job_created_at + retry_horizon_ms) next_attempt_at
    then failed (fallback_terminal_action f.error_class)
    else retry delay next_attempt_at

unfoldable pub decide_job_retry : RetryInput → RetryDecision
unfolding normalise_failure
decide_job_retry input =
    let f = normalise_failure input.failure in
    let terminal = terminal_next_action f in
    let allowed = min input.max_attempts (maximum_attempts_by_class f.error_class) in
    if must_fail input allowed terminal
    then failed (get_or terminal (fallback_terminal_action f.error_class))
    else elim (get_elem? (retry_caps f.error_class) (input.attempt_number - 1)) [
      | none ↦ failed (fallback_terminal_action f.error_class)
      | some cap ↦ schedule_retry input f cap
    ]

-- The constructor of JobHandlerFailure.
unfoldable pub job_handler_failure : JobFailure → JobFailure
job_handler_failure f = record f {
  error_code = normalise_error_code f.error_code;
  provider_retry_after_ms = elim f.provider_retry_after_ms [
    | none ↦ none
    | some v ↦ if is_positive_finite v then some (Number.fraction (floor v) 0) else some v
  ];
}
