-- ===== src/Instagram/Token/Runway.antt =====
-- How the health of a credential changes as time passes.
use content_automation.Base.{ℕ, ◌+◌, ◌≤◌, true, not, ◌||◌, Option, none, some, ◌≡◌, refl, arith}
use content_automation.Instagram.Token.{
  HealthState, CredentialStatus, active, evaluate_instagram_token_health,
  instagram_connection_blocked,
}

-- How far a credential is from being healthy.
unfoldable pub severity : HealthState → ℕ
severity HealthState.healthy = 0
severity HealthState.refresh_due = 1
severity HealthState.expiring = 2
severity HealthState.expiry_unknown = 3
severity _ = 4

-- As time passes, a credential does not get healthier, it does not get younger, and a connection that is
-- blocked stays blocked.
pub health_worsens :
    (status : CredentialStatus) (expires_at : Option ℕ) (issued_at now later : ℕ)
    → now ≤ later
    → let before = evaluate_instagram_token_health status expires_at issued_at now in
      let after = evaluate_instagram_token_health status expires_at issued_at later in
      (severity before.state ≤ severity after.state)
      × (before.token_age_seconds ≤ after.token_age_seconds)
      × ((not (instagram_connection_blocked before.state)
            || instagram_connection_blocked after.state)
          ≡ true)
unfolding evaluate_instagram_token_health severity instagram_connection_blocked
health_worsens CredentialStatus.revoked e issued_at now later h = (omega arith, omega arith, refl)
health_worsens CredentialStatus.reauthorisation_required e issued_at now later h =
    (omega arith, omega arith, refl)
health_worsens active none issued_at now later h = (omega arith, omega arith, refl)
health_worsens active (some e) issued_at now later h = (ground arith, ground arith, ground arith)

-- A credential that lasts sixteen days and a second or more is old enough to be refreshed whenever a refresh is due.
pub due-eligible :
    (expires_at issued_at now : ℕ)
    → issued_at + 1_382_401_000 ≤ expires_at
    → (evaluate_instagram_token_health active (some expires_at) issued_at now).is_refresh_due ≡ true
    → (evaluate_instagram_token_health active (some expires_at) issued_at now).is_refresh_eligible
      ≡ true
unfolding evaluate_instagram_token_health
due-eligible expires_at issued_at now h d = ground arith
