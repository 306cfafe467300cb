-- ===== src/Analytics/Windows/Agreement.antt =====
-- The window does not depend on the order of the candidates, and maturity leads.
use mathlib.Core.List.{Perm}
use content_automation.Base.{
  ℕ, Bool, true, not, ◌||◌, Option, none, some, List, [], ◌∷◌, ◌≡◌, refl, sym, ap, ◌∙◌, inl, inr,
  arith,
}
use content_automation.Base.Tests.{ltb, ◌==◌, if_found, Bool-cases, Option-cases}
use content_automation.Base.Rows.{find_first}
use content_automation.Base.Order.{reduce_best, every, SameMembers}
use content_automation.Base.Order.Laws.{filter_by-SameMembers, Perm-SameMembers, every-filter_by}
use content_automation.Base.Order.Least.{every-imp}
use content_automation.Analytics.Ages.{AgeWindow, age_window_maturity}
use content_automation.Analytics.Windows.{
  Candidate, is_unmatched, is_more_mature, most_mature, widest, measured_of, matched_of, with_posts,
  select_unmatched, select_age_window,
}
use content_automation.Analytics.Windows.Choice.{
  by_maturity, by_width, by_maturity-Ordered, by_width-Ordered, most_mature-Best, widest-Best,
  Best-tie, mature_tie, wide_tie, nil_together,
}

abbrev window : Option Candidate → Option AgeWindow
window o = if_found o none λ c. some c.age_window

most_mature-same :
    (cs ds : List Candidate) → SameMembers cs ds → window (most_mature cs) ≡ window (most_mature ds)
most_mature-same [] [] same = refl
most_mature-same [] (d ∷ ds) same = absurd (nil_together [] d ds same refl)
most_mature-same (c ∷ cs) [] same = absurd (nil_together [] c cs (λ p. sym (same p)) refl)
most_mature-same (c ∷ cs) (d ∷ ds) same =
    let m = reduce_best is_more_mature c cs in
    let n = reduce_best is_more_mature d ds in
    ap some (
      mature_tie m n (
        Best-tie by_maturity by_maturity-Ordered (c ∷ cs) (d ∷ ds) m n same
          (most_mature-Best (c ∷ cs) m refl) (most_mature-Best (d ∷ ds) n refl)))

widest-same : (cs ds : List Candidate) → SameMembers cs ds → widest cs ≡ widest ds
widest-same [] [] same = refl
widest-same [] (d ∷ ds) same = absurd (nil_together [] d ds same refl)
widest-same (c ∷ cs) [] same = absurd (nil_together [] c cs (λ p. sym (same p)) refl)
widest-same (c ∷ cs) (d ∷ ds) same = ap some (
    wide_tie _ _ (
      Best-tie by_width by_width-Ordered (c ∷ cs) (d ∷ ds) _ _ same (widest-Best (c ∷ cs) _ refl)
        (widest-Best (d ∷ ds) _ refl)))

find_none :
    (cs : List Candidate)
    → find_first is_unmatched cs ≡ none
    → every (λ c. not (is_unmatched c)) cs ≡ true
unfolding find_first every
find_none [] e = refl
find_none (c ∷ cs) e = ground (arith, find_none cs)

find_some :
    (cs : List Candidate) (m : Candidate) (p : Candidate → Bool)
    → find_first is_unmatched cs ≡ some m
    → every p cs ≡ true
    → (p m ≡ true) × (is_unmatched m ≡ true)
unfolding find_first every
find_some [] m p e h = absurd (ground arith)
find_some (c ∷ cs) m p e h = elim (Bool-cases (is_unmatched c)) [
  | inl t ↦ ground arith
  | inr t ↦ find_some cs m p (ground arith) (ground arith)
]

-- Every unmatched candidate has `n` posts.
abbrev pub one_unmatched : ℕ → Candidate → Bool
one_unmatched n c = not (is_unmatched c) || c.eligible_posts == n

unmatched_window : (w : AgeWindow) → (age_window_maturity w == 7) ≡ true → w ≡ AgeWindow.lifetime
unmatched_window AgeWindow.lifetime h = refl
unmatched_window AgeWindow.import h = ground arith
unmatched_window AgeWindow.hour_1 h = ground arith
unmatched_window AgeWindow.day_1 h = ground arith
unmatched_window AgeWindow.day_3 h = ground arith
unmatched_window AgeWindow.day_7 h = ground arith
unmatched_window AgeWindow.day_30 h = ground arith
unmatched_window AgeWindow.mature h = ground arith

unmatched_is :
    (n : ℕ) (m : Candidate)
    → one_unmatched n m ≡ true
    → is_unmatched m ≡ true
    → m ≡ record { age_window = AgeWindow.lifetime; eligible_posts = n }
unmatched_is n m h k = ground (arith, unmatched_window m.age_window k)

find_first-same :
    (n : ℕ) (cs ds : List Candidate)
    → SameMembers cs ds
    → every (one_unmatched n) cs ≡ true
    → find_first is_unmatched cs ≡ find_first is_unmatched ds
find_first-same n cs ds same h = elim (Option-cases (find_first is_unmatched cs)) [
  | inl e ↦ elim (Option-cases (find_first is_unmatched ds)) [
    | inl f ↦ e ∙ sym f
    | inr (d, f) ↦
        let k = find_some ds d _ f (sym (same _) ∙ find_none cs e) in absurd (ground arith)
  ]
  | inr (c, e) ↦ elim (Option-cases (find_first is_unmatched ds)) [
    | inl f ↦ let k = find_some cs c _ e (same _ ∙ find_none ds f) in absurd (ground arith)
    | inr (d, f) ↦
        let k = find_some cs c _ e h in
        let l = find_some ds d _ f (sym (same _) ∙ h) in
        let left = unmatched_is n c k.0 k.1 in
        let right = unmatched_is n d l.0 l.1 in e ∙ ap some (left ∙ sym right) ∙ sym f
  ]
]

covered_same :
    (k : ℕ) (cs ds : List Candidate)
    → SameMembers cs ds
    → SameMembers (with_posts k (matched_of cs)) (with_posts k (matched_of ds))
covered_same k cs ds same =
    filter_by-SameMembers _ (matched_of cs) (matched_of ds) (
      filter_by-SameMembers _ (measured_of cs) (measured_of ds)
        (filter_by-SameMembers _ cs ds same))

select_unmatched-same :
    (n : ℕ) (cs ds : List Candidate)
    → SameMembers cs ds
    → every (one_unmatched n) cs ≡ true
    → select_unmatched (measured_of cs) (matched_of cs)
      ≡ select_unmatched (measured_of ds) (matched_of ds)
select_unmatched-same n cs ds same h =
    let measured = filter_by-SameMembers (λ c. ltb 0 c.eligible_posts) cs ds same in
    let matched =
      filter_by-SameMembers (λ c. not (is_unmatched c)) (measured_of cs) (measured_of ds)
        measured in
    let found =
      find_first-same n (measured_of cs) (measured_of ds) measured
        (every-filter_by _ _ cs ∙ every-imp _ _ cs (λ c k. ground arith) h) in
    rw
      (
        found,
        widest-same (measured_of cs) (measured_of ds) measured,
        widest-same (matched_of cs) (matched_of ds) matched,
      )
      refl

select_same :
    (cs ds : List Candidate) (coverage minimum n : ℕ)
    → SameMembers cs ds
    → every (one_unmatched n) cs ≡ true
    → select_age_window cs coverage minimum ≡ select_age_window ds coverage minimum
unfolding select_age_window
select_same cs ds coverage minimum n same h =
    let mature =
      most_mature-same (with_posts coverage (matched_of cs)) (with_posts coverage (matched_of ds))
        (covered_same coverage cs ds same) in
    let wide =
      widest-same (with_posts minimum (matched_of cs)) (with_posts minimum (matched_of ds))
        (covered_same minimum cs ds same) in
    let rest = select_unmatched-same n cs ds same h in ground (arith, mature, wide, rest)

-- The window does not depend on the order in which the candidates come, where the candidates for the
-- unmatched window, if there are several, have the same number of posts.
pub select_order :
    (cs ds : List Candidate) (coverage minimum n : ℕ)
    → Perm cs ds
    → every (one_unmatched n) cs ≡ true
    → select_age_window cs coverage minimum ≡ select_age_window ds coverage minimum
select_order cs ds coverage minimum n h one =
    select_same cs ds coverage minimum n (Perm-SameMembers h) one
