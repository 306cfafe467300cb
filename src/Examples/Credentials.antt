-- ===== src/Examples/Credentials.antt =====
-- Results on the health of a credential, for one that lasts sixty days.
use content_automation.Base.{ℕ, ◌≤◌, not, ◌||◌, some, true, ◌≡◌, refl, arith}
use content_automation.Instagram.Token.{
  active, evaluate_instagram_token_health, instagram_connection_blocked,
}
use content_automation.Instagram.Token.Runway.{severity, health_worsens, due-eligible}

-- Sixty days, fifty, and sixty-one, in milliseconds.
abbrev expiry : ℕ
expiry = 5_184_000_000

abbrev fiftieth : ℕ
fiftieth = 4_320_000_000

abbrev sixty_first : ℕ
sixty_first = 5_270_400_000

health_worsens_example :
    (severity (evaluate_instagram_token_health active (some expiry) 0 fiftieth).state
      ≤ severity (evaluate_instagram_token_health active (some expiry) 0 sixty_first).state)
    × ((evaluate_instagram_token_health active (some expiry) 0 fiftieth).token_age_seconds
        ≤ (evaluate_instagram_token_health active (some expiry) 0 sixty_first).token_age_seconds)
    × ((not (
            instagram_connection_blocked
              (evaluate_instagram_token_health active (some expiry) 0 fiftieth).state)
          || instagram_connection_blocked
              (evaluate_instagram_token_health active (some expiry) 0 sixty_first).state)
        ≡ true)
health_worsens_example = health_worsens active (some expiry) 0 fiftieth sixty_first (omega arith)

run_due : (evaluate_instagram_token_health active (some expiry) 0 fiftieth).is_refresh_due ≡ true
unfolding evaluate_instagram_token_health
run_due = refl

due-eligible_example :
    (evaluate_instagram_token_health active (some expiry) 0 fiftieth).is_refresh_eligible ≡ true
due-eligible_example = due-eligible expiry 0 fiftieth (omega arith) run_due
