-- ===== src/Analytics/Windows.antt =====
-- selectAnalyticsAgeWindow of packages/domain/src/analytics-cohorts.ts.
pub mod Choice
pub mod Agreement
pub mod Coverage
use content_automation.Base.{
  ℕ, Bool, true, false, not, ◌&&◌, ◌||◌, Option, none, some, List, [], ◌∷◌,
}
use content_automation.Base.Tests.{leb, ltb, ◌==◌, if_found, if◌then◌else◌}
use content_automation.Base.Rows.{find_first}
use content_automation.Base.Order.{filter_by, reduce_best}
use content_automation.Analytics.Ages.{AgeWindow, age_window_maturity}

-- AnalyticsWindowCandidate
pub record Candidate : Type 0 where
  pub age_window : AgeWindow
  pub eligible_posts : ℕ

-- ageWindow === unmatchedAgeWindow
abbrev pub is_unmatched : Candidate → Bool
is_unmatched c = age_window_maturity c.age_window == 7

abbrev pub is_more_mature : Candidate → Candidate → Bool
is_more_mature c winner =
    ltb (age_window_maturity winner.age_window) (age_window_maturity c.age_window)

abbrev pub is_wider : Candidate → Candidate → Bool
is_wider c winner =
    ltb winner.eligible_posts c.eligible_posts
    || (c.eligible_posts == winner.eligible_posts && is_more_mature c winner)

-- mostMature and widest, on a list that may be empty
abbrev pub most_mature : List Candidate → Option Candidate
most_mature [] = none
most_mature (c ∷ cs) = some (reduce_best is_more_mature c cs)

abbrev pub widest : List Candidate → Option Candidate
widest [] = none
widest (c ∷ cs) = some (reduce_best is_wider c cs)

abbrev pub measured_of : List Candidate → List Candidate
measured_of cs = filter_by (λ c. ltb 0 c.eligible_posts) cs

abbrev pub matched_of : List Candidate → List Candidate
matched_of cs = filter_by (λ c. not (is_unmatched c)) (measured_of cs)

abbrev pub with_posts : ℕ → List Candidate → List Candidate
with_posts n cs = filter_by (λ c. leb n c.eligible_posts) cs

-- No matched window has enough posts.
abbrev pub select_unmatched : List Candidate → List Candidate → Option Candidate
select_unmatched measured matched =
    if_found (find_first is_unmatched measured) (widest measured) λ unmatched.
      if_found (widest matched) (some unmatched)
        λ best. some (if leb unmatched.eligible_posts best.eligible_posts then best else unmatched)

abbrev pub select_candidate : ℕ → ℕ → List Candidate → Option Candidate
select_candidate coverage minimum cs =
    if_found (most_mature (with_posts coverage (matched_of cs)))
      (if_found (widest (with_posts minimum (matched_of cs)))
        (select_unmatched (measured_of cs) (matched_of cs)) some)
      some

-- `coverage` is adequateCoverage, `minimum` minimumMatchedPosts.
unfoldable pub select_age_window : List Candidate → ℕ → ℕ → Option AgeWindow
select_age_window cs coverage minimum =
    if_found (select_candidate coverage minimum cs) none λ c. some c.age_window
