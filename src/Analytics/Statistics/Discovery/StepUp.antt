-- ===== src/Analytics/Statistics/Discovery/StepUp.antt =====
-- The step-up procedure of packages/domain/src/analytics-statistics.ts against its definition: a
-- hypothesis is kept just where its p-value is not above k times the rate over the size of the family,
-- for a k that as many p-values pass.
use mathlib.Core.Logic.{◌↔◌}
use content_automation.Base.{
  ℕ, zero, suc, ◌+◌, ◌-◌, ◌*◌, ◌≤◌, ◌<◌, Bool, true, false, some, List, [], ◌∷◌, ◌≡◌, refl, ap, sym,
  ◌∙◌, inl, inr, arith,
}
use content_automation.Base.Tests.{ltb, if◌then◌else◌, Bool-cases}
use content_automation.Base.Lists.{length, get_elem?}
use content_automation.Base.Order.{every, IsSorted, not_after}
use content_automation.Base.Order.Counts.{count_where-sort_by, length-sort_by}
use content_automation.Base.Order.Least.{sort_by-IsSorted}
use content_automation.Base.Rows.{count_where}
use content_automation.Domain.Number.{Number, fraction, is_finite}
use content_automation.Domain.Number.Arithmetic.{le_number}
use content_automation.Domain.Number.Arithmetic.Order.{le_number_trans}
use content_automation.Analytics.Spread.{Share}
use content_automation.Analytics.Statistics.Discovery.{
  benjamini_hochberg, Entry, entries_from, threshold,
}
use content_automation.Analytics.Statistics.Discovery.Finite.{
  by_size-Ordered, benjamini_hochberg-finite, by_size, ranked_entries, last_below, places_below,
}
use content_automation.Analytics.Statistics.Discovery.Ranks.{
  passes, threshold_le, last_below_le, counted_below,
}
use content_automation.Analytics.Statistics.Discovery.Cutoff.{cutoff, survivors_cutoff}
use mathlib.Core.List.{map}

-- k times the rate over the size of the family
abbrev pub line : Share → List Number → ℕ → Number
line rate ps k = fraction (k * rate.num) (length ps * suc rate.den_pred - 1)

-- Kept for some k: p is not above the line of k, and k or more p-values are not.
pub record Kept (rate : Share) (ps : List Number) (p : Number) : Type 0 where
  pub k : ℕ
  pub positive : 1 ≤ k
  pub below : le_number p (line rate ps k) ≡ true
  pub enough : k ≤ count_where (λ q. le_number q (line rate ps k)) ps

abbrev low : Number → Entry → Bool
low t e = le_number e.value t

count_where-entries_from :
    (t : Number) (start : ℕ) (ps : List Number)
    → count_where (low t) (entries_from start ps) ≡ count_where (λ q. le_number q t) ps
unfolding count_where entries_from
count_where-entries_from t start [] = refl
count_where-entries_from t start (p ∷ ps) =
    ground (arith, count_where-entries_from t (suc start) ps)

count_low :
    (t : Number) (ps : List Number)
    → count_where (low t) (ranked_entries ps) ≡ count_where (λ q. le_number q t) ps
count_low t ps =
    count_where-sort_by by_size (low t) (entries_from 0 ps) ∙ count_where-entries_from t 0 ps

length-entries_from : (start : ℕ) (ps : List Number) → length (entries_from start ps) ≡ length ps
unfolding entries_from
length-entries_from start [] = refl
length-entries_from start (p ∷ ps) = ap suc (length-entries_from (suc start) ps)

pub length-ranked_entries : (ps : List Number) → length (ranked_entries ps) ≡ length ps
length-ranked_entries ps = length-sort_by by_size (entries_from 0 ps) ∙ length-entries_from 0 ps

-- Nothing after a head that is not low is.
none_low :
    (t : Number) (e : Entry) (es : List Entry)
    → every (not_after by_size e) es ≡ true
    → low t e ≡ false
    → count_where (low t) es ≡ 0
unfolding count_where every
none_low t e [] h n = refl
none_low t e (f ∷ es) h n = ground (arith, none_low t e es, le_number_trans e.value f.value t)

module _ (total : ℕ) (rate : Share) where
  abbrev at : ℕ → Number
  at k = threshold total rate k

  -- As many entries as the last that passes are below its threshold.
  counted_low :
      (rank : ℕ) (es : List Entry) (k : ℕ)
      → IsSorted by_size es
      → k ≤ rank
      → last_below total rate rank es k
        ≤ rank + count_where (low (at (last_below total rate rank es k))) es
  unfolding last_below count_where
  counted_low rank [] k s h = omega arith
  counted_low rank (e ∷ es) k s h =
      elim (Bool-cases (ltb rank (last_below total rate rank (e ∷ es) k))) [
        | inl t ↦
            let l : rank < last_below total rate rank (e ∷ es) k = ground arith in
            ground (
              arith,
              counted_below total rate rank e es k s h l,
              counted_low (suc rank) es (if passes total rate (suc rank) e then suc rank else k)
                  s.1,
            )
        | inr t ↦ let l : last_below total rate rank (e ∷ es) k ≤ rank = ground arith in omega arith
      ]

  -- A place whose threshold as many entries pass is not beyond the last that passes.
  low_counts :
      (j rank : ℕ) (es : List Entry) (k : ℕ)
      → IsSorted by_size es
      → k ≤ rank
      → rank < j
      → j ≤ rank + count_where (low (at j)) es
      → j ≤ last_below total rate rank es k
  unfolding last_below count_where
  low_counts j rank [] k s h l c = absurd (omega arith)
  low_counts j rank (e ∷ es) k s h l c = elim (Bool-cases (low (at j) e)) [
    | inr n ↦ let z = none_low (at j) e es s.0 n in absurd (ground arith)
    | inl y ↦
        let c' : j ≤ suc rank + count_where (low (at j)) es = ground arith in
        elim (Bool-cases (ltb (suc rank) j)) [
          | inl m ↦
              low_counts j (suc rank) es (if passes total rate (suc rank) e then suc rank else k)
                s.1 (ground arith) (ground arith) c'
          | inr m ↦
              let same : j ≡ suc rank = ground arith in
              let pass : passes total rate (suc rank) e ≡ true = rw (← same) y in
              rw (same, pass) (last_below_le total rate (suc rank) es (suc rank) (omega arith))
        ]
  ]

counts_itself :
    (t : Number) (i : ℕ) (ps : List Number) (p : Number)
    → get_elem? ps i ≡ some p
    → le_number p t ≡ true
    → 1 ≤ count_where (λ q. le_number q t) ps
unfolding get_elem? count_where
counts_itself t i [] p e h = absurd (cc e)
counts_itself t zero (q ∷ ps) p e h = ground arith
counts_itself t (suc i) (q ∷ ps) p e h = ground (arith, counts_itself t i ps p e h)

module _ (rate : Share) (ps : List Number) where
  at_line : (k : ℕ) → threshold (length (ranked_entries ps)) rate k ≡ line rate ps k
  at_line k = ap (λ n. threshold n rate k) (length-ranked_entries ps)

  sorted : IsSorted by_size (ranked_entries ps)
  sorted = sort_by-IsSorted by_size by_size-Ordered (entries_from 0 ps)

  -- With no place that passes, the first line is no lower.
  cutoff-Kept :
      (i : ℕ) (p : Number)
      → get_elem? ps i ≡ some p
      → le_number p (cutoff rate ps) ≡ true
      → Kept rate ps p
  cutoff-Kept i p e h = elim (Bool-cases (ltb 0 (places_below rate ps))) [
    | inl t ↦
        let below : le_number p (line rate ps (places_below rate ps)) ≡ true =
          ap (le_number p) (sym (at_line (places_below rate ps))) ∙ h in
        let many =
          counted_low (length (ranked_entries ps)) rate 0 (ranked_entries ps) 0 sorted
            (omega arith) in
        let same =
          ap (λ t. count_where (low t) (ranked_entries ps)) (at_line (places_below rate ps))
          ∙ count_low (line rate ps (places_below rate ps)) ps in
        record {
          k = places_below rate ps;
          positive = ground arith;
          below = below;
          enough = omega (arith, many, same);
        }
    | inr t ↦
        let none : places_below rate ps ≤ 1 = ground arith in
        let rise = threshold_le (length (ranked_entries ps)) rate (places_below rate ps) 1 none in
        let below : le_number p (line rate ps 1) ≡ true =
          ap (le_number p) (sym (at_line 1))
          ∙ le_number_trans p (cutoff rate ps) (threshold (length (ranked_entries ps)) rate 1) h
              rise in
        record {
          k = 1;
          positive = omega arith;
          below = below;
          enough = counts_itself (line rate ps 1) i ps p e below;
        }
  ]

  Kept-cutoff : (p : Number) → Kept rate ps p → le_number p (cutoff rate ps) ≡ true
  Kept-cutoff p h =
      let same =
        ap (λ t. count_where (low t) (ranked_entries ps)) (at_line h.k)
        ∙ count_low (line rate ps h.k) ps in
      let reached =
        low_counts (length (ranked_entries ps)) rate h.k 0 (ranked_entries ps) 0 sorted
          (omega arith) (omega (arith, h.positive)) (omega (arith, h.enough, same)) in
      let rise =
        threshold_le (length (ranked_entries ps)) rate h.k (places_below rate ps) reached in
      le_number_trans p (threshold (length (ranked_entries ps)) rate h.k) (cutoff rate ps)
        (ap (le_number p) (at_line h.k) ∙ h.below) rise

get_elem?-map :
    (test : Number → Bool) (i : ℕ) (ps : List Number) (p : Number)
    → get_elem? ps i ≡ some p
    → get_elem? (map test ps) i ≡ some (test p)
unfolding get_elem?
get_elem?-map test i [] p e = absurd (cc e)
get_elem?-map test zero (q ∷ ps) p e = ground arith
get_elem?-map test (suc i) (q ∷ ps) p e = get_elem?-map test i ps p e

-- On finite p-values, the procedure keeps the hypothesis at a place just where for some k of 1 or more its
-- p-value is at most k times the rate over the size of the family, as k or more of the p-values are.
pub survivors_iff :
    (rate : Share) (ps : List Number) (i : ℕ) (p : Number)
    → every is_finite ps ≡ true
    → get_elem? ps i ≡ some p
    → (get_elem? (benjamini_hochberg rate ps) i ≡ some true) ↔ Kept rate ps p
survivors_iff rate ps i p finite e =
    let kept : get_elem? (benjamini_hochberg rate ps) i ≡ some (le_number p (cutoff rate ps)) =
      ap (λ l. get_elem? l i) (benjamini_hochberg-finite rate ps finite ∙ survivors_cutoff rate ps)
      ∙ get_elem?-map (λ q. le_number q (cutoff rate ps)) i ps p e in
    (λ h. cutoff-Kept rate ps i p e (cc (kept, h)), λ h. kept ∙ ap some (Kept-cutoff rate ps p h))
