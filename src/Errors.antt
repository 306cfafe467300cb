-- ===== src/Errors.antt =====
-- The errors that the packages throw (packages/observability/src/errors.ts and the error classes
-- of the job modules), and results of code that may throw.
use content_automation.Base.{ℕ, ◌≡◌, refl, String, Bool, true, false, Option, none, some}
use content_automation.Base.Tests.{if◌then◌else◌, if_found}
use content_automation.Domain.Lifecycle.{JobState, can_transition_job}
use content_automation.Domain.Retry.{JobFailure, unknown}

pub data ErrorClass : Type 0 where
  validation authorisation not_found conflict rate_limited dependency internal : ErrorClass

pub data Error : Type 0 where
  -- OperationalError: code, errorClass, retryable, statusCode
  operational : String → ErrorClass → Bool → ℕ → Error
  -- InvalidJobTransitionError
  invalid_transition : JobState → JobState → Error
  -- JobCancellationRequestedError
  cancellation_requested : Error
  -- InjectedJobCrash
  injected_crash : Error
  -- JobHandlerFailure
  handler_failure : JobFailure → Error
  -- any other value that is thrown, a violated database constraint among them
  other : Error

-- What code that may throw comes back with.
pub data Result {κ} (Value : Type κ) : Type κ where
  err : Error → Result Value
  ok : Value → Result Value

infixl 5 ◌>>=◌ ◌>>◌
-- `await`, and the rest of the function
abbrev pub ◌>>=◌ {κ ℓ} : {V : Type κ} {W : Type ℓ} → Result V → (V → Result W) → Result W
err thrown >>= next = err thrown
ok value >>= next = next value

abbrev pub ◌>>◌ {κ} : {W : Type κ} → Result (Unit {0}) → Result W → Result W
first >> rest = first >>= λ done. rest

abbrev pub validation_error : String → Error
validation_error code = operational code validation false 400

abbrev pub job_database_error : String → Error
job_database_error code = operational code dependency true 503

abbrev pub job_lease_lost : Error
job_lease_lost = operational "JOB_LEASE_LOST" conflict false 409

-- catch (error) { if (error instanceof OperationalError) throw error; throw jobDatabaseError(code) }
abbrev pub rescue {ℓ} : {A : Type ℓ} → String → Result A → Result A
rescue code (ok a) = ok a
rescue code (err (operational c k r s)) = err (operational c k r s)
rescue code (err _) = err (job_database_error code)

-- if (!holds) throw error
abbrev pub ensure : Bool → Error → Result (Unit {0})
ensure false thrown = err thrown
ensure true thrown = ok tt

unfoldable pub assert_job_transition : JobState → JobState → Result (Unit {0})
unfolding can_transition_job
assert_job_transition from to =
    if can_transition_job from to then ok tt else err (invalid_transition from to)

abbrev unclassified : JobFailure
unclassified = record {
  credential_recoverable = none;
  error_class = unknown;
  error_code = "JOB_HANDLER_FAILED";
  provider_retry_after_ms = none;
}

unfoldable pub classify_job_handler_error : Error → JobFailure
classify_job_handler_error (handler_failure f) = f
classify_job_handler_error _ = unclassified

-- `P` holds of the value, where `m` has one.
pub record Yields {ℓ} {A : Type ℓ} (P : A → Type 0) (m : Result A) : Type ℓ where
  pub of : (a : A) → m ≡ ok a → P a

ok-injective {ℓ} : {A : Type ℓ} {a b : A} → ok a ≡ ok b → a ≡ b
ok-injective e = cc

module _ {ℓ} {A : Type ℓ} {P : A → Type 0} where
  pub Yields-ok : (a : A) → P a → Yields P (ok a)
  Yields-ok a h = record { of = λ b e. rw (← ok-injective e) h }

  pub Yields-err : (e : Error) → Yields P (err e)
  Yields-err e = record { of = λ b h. cc }

  pub Yields-ensure :
      (b : Bool) (e : Error) (m : Result A) → (b ≡ true → Yields P m) → Yields P (ensure b e >> m)
  Yields-ensure true e m h = h refl
  Yields-ensure false e m h = Yields-err e

  pub Yields-then : (g : Result (Unit {0})) (m : Result A) → Yields P m → Yields P (g >> m)
  Yields-then (ok _) m h = h
  Yields-then (err e) m h = Yields-err e

  pub Yields-if :
      (b : Bool) (m n : Result A)
      → (b ≡ true → Yields P m)
      → (b ≡ false → Yields P n)
      → Yields P (if b then m else n)
  Yields-if true m n h k = h refl
  Yields-if false m n h k = k refl

  pub Yields-if_found {κ} :
      {B : Type κ} (o : Option B) (m : Result A) (f : B → Result A)
      → (o ≡ none → Yields P m)
      → ((b : B) → o ≡ some b → Yields P (f b))
      → Yields P (if_found o m f)
  Yields-if_found none m f h k = h refl
  Yields-if_found (some b) m f h k = k b refl

  pub Yields-rescue : (code : String) (m : Result A) → Yields P m → Yields P (rescue code m)
  Yields-rescue code (ok a) h = h
  Yields-rescue code (err (operational c k r s)) h = Yields-err _
  Yields-rescue code (err (invalid_transition from to)) h = Yields-err _
  Yields-rescue code (err cancellation_requested) h = Yields-err _
  Yields-rescue code (err injected_crash) h = Yields-err _
  Yields-rescue code (err (handler_failure f)) h = Yields-err _
  Yields-rescue code (err other) h = Yields-err _

  pub Yields-bind {κ} :
      {B : Type κ} {Q : B → Type 0} (m : Result B) (f : B → Result A)
      → Yields Q m
      → ((b : B) → Q b → Yields P (f b))
      → Yields P (m >>= f)
  Yields-bind (ok b) f h k = k b (h.of b refl)
  Yields-bind (err e) f h k = Yields-err e

pub Yields-both {ℓ} :
    {A : Type ℓ} {P Q : A → Type 0} (m : Result A)
    → Yields P m
    → Yields Q m
    → Yields (λ a. P a × Q a) m
Yields-both m h k = record { of = λ a e. (h.of a e, k.of a e) }

pub ruleset yields = (
  Yields-ok, Yields-err, Yields-ensure, Yields-then, Yields-if, Yields-if_found, Yields-rescue,
  Yields-bind,
)
