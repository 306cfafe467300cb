-- ===== src/Analytics/Windows/Coverage.antt =====
-- Past the coverage floor maturity leads.
use content_automation.Base.{
  ℕ, Bool, true, false, not, ◌&&◌, ◌||◌, none, some, List, [], ◌∷◌, ◌≡◌, refl, sym, ◌∙◌, inl, inr,
  arith,
}
use content_automation.Base.Tests.{leb, ltb, Option-cases}
use content_automation.Base.Order.{filter_by, every, not_after}
use content_automation.Base.Order.Least.{every-imp, every-true}
use content_automation.Analytics.Windows.{
  Candidate, is_unmatched, is_more_mature, most_mature, matched_of, with_posts, select_age_window,
}
use content_automation.Analytics.Windows.Choice.{by_maturity, Best, most_mature-Best}

-- A matched window with posts, and with enough of them.
abbrev pub is_covered : ℕ → Candidate → Bool
is_covered coverage c =
    ltb 0 c.eligible_posts && (not (is_unmatched c) && leb coverage c.eligible_posts)

every-covered :
    (p : Candidate → Bool) (coverage : ℕ) (cs : List Candidate)
    → every p (with_posts coverage (matched_of cs))
      ≡ every (λ c. not (is_covered coverage c) || p c) cs
unfolding every filter_by
every-covered p coverage [] = refl
every-covered p coverage (c ∷ cs) = ground (arith, every-covered p coverage cs)

-- The candidate is one of the list, is covered, and no covered one is more mature.
pub record Leads (coverage : ℕ) (cs : List Candidate) (m : Candidate) : Type 0 where
  pub member : (test : Candidate → Bool) → every test cs ≡ true → test m ≡ true
  pub covered : is_covered coverage m ≡ true
  pub first : every (λ c. not (is_covered coverage c && is_more_mature c m)) cs ≡ true

Best-Leads :
    (coverage : ℕ) (cs : List Candidate) (m : Candidate)
    → Best by_maturity (with_posts coverage (matched_of cs)) m
    → Leads coverage cs m
Best-Leads coverage cs m h = record {
  member = λ test k.
      h.member test (every-covered test coverage cs ∙ every-imp test _ cs (λ c t. ground arith) k);
  covered = h.member (is_covered coverage) (
      every-covered (is_covered coverage) coverage cs
      ∙ every-imp (λ c. true) _ cs (λ c t. ground arith) (every-true cs));
  first =
      every-imp _ _ cs (λ c t. ground arith)
        (sym (every-covered (not_after by_maturity m) coverage cs) ∙ h.first);
}

most_mature-none : (cs : List Candidate) → most_mature cs ≡ none → every (λ c. false) cs ≡ true
unfolding every
most_mature-none [] e = refl
most_mature-none (c ∷ cs) e = ground arith

-- Where a matched candidate has posts and enough of them, the window is that of such a candidate, and
-- no such candidate is more mature.
pub select_covered :
    (cs : List Candidate) (coverage minimum : ℕ)
    → every (λ c. not (is_covered coverage c)) cs ≡ false
    → (m : Candidate) × (select_age_window cs coverage minimum ≡ some m.age_window)
      × Leads coverage cs m
unfolding select_age_window
select_covered cs coverage minimum h =
    elim (Option-cases (most_mature (with_posts coverage (matched_of cs)))) [
      | inl e ↦
          let nothing = sym (every-covered (λ c. false) coverage cs) ∙ most_mature-none _ e in
          let none_covered =
            every-imp _ (λ c. not (is_covered coverage c)) cs (λ c t. ground arith) nothing in
          absurd (ground (arith, none_covered))
      | inr (m, e) ↦ (m, rw e refl, Best-Leads coverage cs m (most_mature-Best _ m e))
    ]
