-- ===== src/Instagram/Token.antt =====
-- Health of a credential and its refresh, of packages/domain/src/instagram-token.ts.
pub mod Runway
use content_automation.Base.{
  ℕ, suc, ◌-◌, ◌*◌, ◌/◌, String, Bool, true, false, not, ◌&&◌, ◌||◌, Option, none, some,
}
use content_automation.Base.Tests.{ltb, leb, if_found, if◌then◌else◌}
use content_automation.Base.Json.{Json}
use content_automation.Domain.Number.{Number, fraction, negative}
use content_automation.Domain.Number.Arithmetic.{of_nat, is_positive, le_number}
use content_automation.Instagram.Insights.{ResponseClass}
use content_automation.Instagram.Media.{is_code, error_number, classify_instagram_response}

-- instagramTokenHealthStates
pub data HealthState : Type 0 where
  healthy refresh_due expiring expired expiry_unknown reauthorisation_required revoked : HealthState

-- The statuses of a credential that are told apart
pub data CredentialStatus : Type 0 where
  active reauthorisation_required revoked : CredentialStatus

-- InstagramTokenHealth
pub record Health : Type 0 where
  pub expires_in_seconds : Option Number
  pub is_refresh_eligible : Bool
  pub is_refresh_due : Bool
  pub state : HealthState
  pub token_age_seconds : ℕ

abbrev pub seconds_per_day : ℕ
seconds_per_day = 86_400

unfoldable pub instagram_connection_blocked : HealthState → Bool
instagram_connection_blocked expired = true
instagram_connection_blocked HealthState.reauthorisation_required = true
instagram_connection_blocked HealthState.revoked = true
instagram_connection_blocked _ = false

-- Math.floor((to - from) / 1000)
abbrev pub seconds_between : ℕ → ℕ → Number
seconds_between from to =
    if leb from to then of_nat ((to - from) / 1_000) else negative ((from - to - 1) / 1_000) 0

-- Math.max(0, Math.floor((now - issuedAt) / 1000))
abbrev pub token_age : ℕ → ℕ → ℕ
token_age issued_at now = (now - issued_at) / 1_000

abbrev pub is_old_enough : ℕ → ℕ → Bool
is_old_enough issued_at now = leb 86_400 (token_age issued_at now)

-- frozenHealth, without a refresh
abbrev pub frozen_health : Option Number → HealthState → ℕ → Health
frozen_health expires_in state age = record {
  expires_in_seconds = expires_in;
  is_refresh_eligible = false;
  is_refresh_due = false;
  state = state;
  token_age_seconds = age;
}

abbrev pub runway_state : Number → HealthState
runway_state expires_in =
    if le_number expires_in (of_nat (5 * seconds_per_day))
    then expiring
    else if le_number expires_in (of_nat (15 * seconds_per_day))
    then refresh_due
    else healthy

abbrev pub is_healthy : HealthState → Bool
is_healthy healthy = true
is_healthy _ = false

abbrev pub dated_health : Number → ℕ → Bool → Health
dated_health expires_in age old_enough =
    if is_positive expires_in
    then record {
      expires_in_seconds = some expires_in;
      is_refresh_eligible = old_enough;
      is_refresh_due = not (is_healthy (runway_state expires_in));
      state = runway_state expires_in;
      token_age_seconds = age;
    }
    else frozen_health (some expires_in) expired age

-- credentialStatus, expiresAt, issuedAt and now
unfoldable pub evaluate_instagram_token_health : CredentialStatus → Option ℕ → ℕ → ℕ → Health
evaluate_instagram_token_health revoked expires_at issued_at now =
    frozen_health none HealthState.revoked (token_age issued_at now)
evaluate_instagram_token_health reauthorisation_required expires_at issued_at now =
    frozen_health none HealthState.reauthorisation_required (token_age issued_at now)
evaluate_instagram_token_health active none issued_at now = record {
  expires_in_seconds = none;
  is_refresh_eligible = is_old_enough issued_at now;
  is_refresh_due = true;
  state = expiry_unknown;
  token_age_seconds = token_age issued_at now;
}
evaluate_instagram_token_health active (some expires_at) issued_at now =
    dated_health (seconds_between now expires_at) (token_age issued_at now)
      (is_old_enough issued_at now)

-- instagramTokenFailures
pub data TokenFailure : Type 0 where
  permission_revoked reauthorisation_required transient unsupported : TokenFailure

-- code >= 200 && code <= 299
abbrev pub is_permission_code : Option Number → Bool
is_permission_code none = false
is_permission_code (some x) = le_number (of_nat 200) x && le_number x (of_nat 299)

abbrev pub failure_of : ResponseClass → TokenFailure
failure_of ResponseClass.authorisation = TokenFailure.reauthorisation_required
failure_of ResponseClass.rate_limit = TokenFailure.transient
failure_of ResponseClass.transient = TokenFailure.transient
failure_of _ = TokenFailure.unsupported

unfoldable pub classify_instagram_token_response : Json → ℕ → TokenFailure
classify_instagram_token_response body status =
    let code = error_number "code" body in
    if is_code code 10 || is_permission_code code
    then permission_revoked
    else if is_code code 190 || is_code code 102
    then TokenFailure.reauthorisation_required
    else failure_of (classify_instagram_response body status)
