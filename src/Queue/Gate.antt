-- ===== src/Queue/Gate.antt =====
-- createProviderConcurrencyGate of packages/queue/src/concurrency.ts. A request stands for the promise
-- that `acquire` returns, a permit for the function that it resolves to, with its flag `released`.
pub mod Limits
pub mod Runs
pub mod Once
use content_automation.Base.{
  ℕ, suc, ◌+◌, ◌-◌, String, Bool, true, false, not, ◌&&◌, ◌||◌, Option, none, some, List, [], ◌∷◌,
  ◌++◌,
}
use content_automation.Base.Tests.{leb, ◌==◌, if◌then◌else◌, if_found}
use content_automation.Base.Text.{codes, is_lower, is_digit, matches_name}
use content_automation.Errors.{ensure, ◌>>◌, Error, Result, ok, err, operational, conflict}
use text.Mathlib.Text.{◌==◌ as str_eq}

pub record Limit : Type 0 where
  pub provider : String
  pub limit : ℕ

-- globalLimit and providerLimits
pub record Config : Type 0 where
  pub global_limit : ℕ
  pub provider_limits : List Limit

-- providerLimits.get(provider)
unfoldable pub limit_of : List Limit → String → Option ℕ
limit_of [] provider = none
limit_of (l ∷ ls) provider =
    if str_eq l.provider provider then some l.limit else limit_of ls provider

pub record Request : Type 0 where
  pub id : ℕ
  pub provider : String
  pub aborted : Bool  -- signal?.aborted

pub record Permit : Type 0 where
  pub id : ℕ
  pub provider : String
  pub released : Bool

-- activeGlobal, activeByProvider with 0 for a missing key, and the permits that were handed out.
pub record Active : Type 0 where
  pub global : ℕ
  pub by_provider : String → ℕ
  pub permits : List Permit

pub record Gate : Type 0 where
  pub pending : List Request
  pub active : Active

abbrev pub concurrency_error : String → Error
concurrency_error code = operational code conflict false 409

-- safeProviderPattern
unfoldable pub is_safe_provider : String → Bool
unfolding matches_name
is_safe_provider s =
    matches_name is_lower (λ c. is_lower c || (is_digit c || c == b'_')) 63 (codes s)

-- validateLimit, for a whole number that is not negative
abbrev pub validate_limit : ℕ → Result (Unit {0})
validate_limit n =
    ensure (leb 1 n && leb n 1_000) (concurrency_error "JOB_CONCURRENCY_LIMIT_INVALID")

unfoldable pub validate_limits : List Limit → Result (Unit {0})
validate_limits [] = ok tt
validate_limits (l ∷ ls) = do
  ensure (is_safe_provider l.provider) (concurrency_error "JOB_PROVIDER_INVALID")
  validate_limit l.limit
  validate_limits ls

abbrev pub new_gate : Gate
new_gate = record {
  pending = [];
  active = record { global = 0; by_provider = λ p. 0; permits = [] };
}

unfoldable pub create_gate : Config → Result Gate
create_gate c = do validate_limit c.global_limit; validate_limits c.provider_limits; ok new_gate

-- What the loop of drain does with a request.
pub data Verdict : Type 0 where
  stop reject skip grant : Verdict

abbrev pub is_full : Config → Active → String → Bool
is_full c a provider =
    if_found (limit_of c.provider_limits provider) true λ limit. leb limit (a.by_provider provider)

unfoldable pub verdict : Config → Active → Request → Verdict
verdict c a r =
    if leb c.global_limit a.global
    then stop
    else if r.aborted
    then reject
    else if is_full c a r.provider
    then skip
    else grant

abbrev pub set_active : String → ℕ → (String → ℕ) → String → ℕ
set_active provider n by_provider p = if str_eq p provider then n else by_provider p

abbrev pub hand_out : Request → Active → Active
hand_out r a = record {
  global = a.global + 1;
  by_provider = set_active r.provider (a.by_provider r.provider + 1) a.by_provider;
  permits = record { id = r.id; provider = r.provider; released = false } ∷ a.permits;
}

-- drain: the requests that stay pending, and the permits handed out.
unfoldable pub drain : Config → List Request → Active → List Request × Active
drain c [] a = ([], a)
drain c (r ∷ rs) a = elim (verdict c a r) [
  | stop ↦ (r ∷ rs, a)
  | reject ↦ drain c rs a
  | skip ↦ (r ∷ (drain c rs a).0, (drain c rs a).1)
  | grant ↦ drain c rs (hand_out r a)
]

abbrev pub drained : Config → List Request → Active → Gate
drained c pending a = record { pending = (drain c pending a).0; active = (drain c pending a).1 }

unfoldable pub acquire : Config → Request → Gate → Result Gate
acquire c r g =
    if_found (limit_of c.provider_limits r.provider)
      (err (concurrency_error "JOB_PROVIDER_UNCONFIGURED"))
      λ limit.
        if r.aborted
        then err (concurrency_error "JOB_CONCURRENCY_ABORTED")
        else ok (drained c (g.pending ++ r ∷ []) g.active)

-- The signal of a request that waits is aborted: the request leaves the queue.
unfoldable pub remove : ℕ → List Request → List Request
remove id [] = []
remove id (r ∷ rs) = if r.id == id then rs else r ∷ remove id rs

abbrev pub abort : ℕ → Gate → Gate
abort id g = record g { pending = remove id g.pending }

-- `released = true`, on the permit that is called; the provider where it was not released before.
unfoldable pub mark_released : ℕ → List Permit → Option String × List Permit
mark_released id [] = (none, [])
mark_released id (p ∷ ps) =
    if p.id == id
    then (if p.released
        then (none, p ∷ ps)
        else (some p.provider, record p { released = true } ∷ ps))
    else ((mark_released id ps).0, p ∷ (mark_released id ps).1)

-- (activeByProvider.get(provider) ?? 1) - 1
abbrev pub remaining : ℕ → ℕ
remaining n = (if n == 0 then 1 else n) - 1

abbrev pub take_back : String → List Permit → Active → Active
take_back provider permits a = record {
  global = a.global - 1;
  by_provider = set_active provider (remaining (a.by_provider provider)) a.by_provider;
  permits = permits;
}

unfoldable pub release : Config → ℕ → Gate → Gate
release c id g =
    let marked = mark_released id g.active.permits in
    if_found marked.0 g λ provider. drained c g.pending (take_back provider marked.1 g.active)
