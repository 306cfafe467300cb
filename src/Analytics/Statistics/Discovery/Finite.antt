-- ===== src/Analytics/Statistics/Discovery/Finite.antt =====
-- The procedure of packages/domain/src/analytics-statistics.ts with comparisons for finite p-values alone,
-- and that it is the procedure on those.
use content_automation.Base.{ℕ, suc, Bool, true, false, List, [], ◌∷◌, ◌≡◌, refl, ◌∙◌, ap, arith}
use content_automation.Base.Tests.{if◌then◌else◌}
use content_automation.Base.Lists.{length}
use content_automation.Base.Order.{Comparator, sort_by, every}
use content_automation.Base.Order.Laws.{Ordered}
use content_automation.Base.Order.Least.{every-sort_by}
use content_automation.Base.Order.Extension.{sort_by_ext}
use content_automation.Domain.Number.{Number, fraction, is_finite}
use content_automation.Domain.Number.Arithmetic.{
  compare_numbers, compare_values, le_number, is_at_most,
}
use content_automation.Domain.Number.Arithmetic.Order.{compare_numbers-Ordered}
use content_automation.Analytics.Spread.{Share}
use content_automation.Analytics.Statistics.Discovery.{
  Entry, entries_from, by_value, sorted_entries, threshold, last_passing, mark, passing,
  benjamini_hochberg,
}
use mathlib.Core.List.{map}

abbrev pub by_size : Comparator Entry
by_size a b = compare_numbers a.value b.value

pub by_size-Ordered : Ordered by_size
by_size-Ordered = record {
  flip = λ a b. compare_numbers-Ordered.flip a.value b.value;
  trans = λ a b c. compare_numbers-Ordered.trans a.value b.value c.value;
}

abbrev pub ranked_entries : List Number → List Entry
ranked_entries p_values = sort_by by_size (entries_from 0 p_values)

unfoldable pub last_below : ℕ → Share → ℕ → List Entry → ℕ → ℕ
last_below total rate rank [] k = k
last_below total rate rank (e ∷ es) k =
    last_below total rate (suc rank) es
      (if le_number e.value (threshold total rate (suc rank)) then suc rank else k)

abbrev pub places_below : Share → List Number → ℕ
places_below rate p_values =
    let indexed = ranked_entries p_values in last_below (length indexed) rate 0 indexed 0

unfoldable pub step_up : Share → List Number → List Bool
step_up rate p_values =
    mark (places_below rate p_values) (ranked_entries p_values) (map (λ p. false) p_values)

abbrev holds_finite : Entry → Bool
holds_finite e = is_finite e.value

compare_values-finite :
    (a b : Number)
    → is_finite a ≡ true
    → is_finite b ≡ true
    → compare_values a b ≡ compare_numbers a b
unfolding compare_values
compare_values-finite a b h k = ground arith

is_at_most-fraction :
    (a : Number) (n d : ℕ)
    → is_finite a ≡ true
    → is_at_most a (fraction n d) ≡ le_number a (fraction n d)
unfolding is_at_most
is_at_most-fraction a n d h = ground arith

finite_entries :
    (start : ℕ) (ps : List Number)
    → every is_finite ps ≡ true
    → every holds_finite (entries_from start ps) ≡ true
unfolding every entries_from
finite_entries start [] h = refl
finite_entries start (p ∷ ps) h = ground (arith, finite_entries (suc start) ps)

last_passing-finite :
    (total : ℕ) (rate : Share) (rank : ℕ) (es : List Entry) (k : ℕ)
    → every holds_finite es ≡ true
    → last_passing total rate rank es k ≡ last_below total rate rank es k
unfolding last_passing last_below every
last_passing-finite total rate rank [] k h = refl
last_passing-finite total rate rank (e ∷ es) k h =
    let same : is_at_most e.value (threshold total rate (suc rank))
        ≡ le_number e.value (threshold total rate (suc rank)) =
      is_at_most-fraction e.value _ _ (ground arith) in
    rw same (last_passing-finite total rate (suc rank) es _ (ground arith))

pub benjamini_hochberg-finite :
    (rate : Share) (ps : List Number)
    → every is_finite ps ≡ true
    → benjamini_hochberg rate ps ≡ step_up rate ps
unfolding benjamini_hochberg step_up
benjamini_hochberg-finite rate ps h =
    let finite = finite_entries 0 ps h in
    let sorted : sorted_entries ps ≡ ranked_entries ps =
      sort_by_ext by_value by_size by_size-Ordered holds_finite
        (λ e f. compare_values-finite e.value f.value) (entries_from 0 ps) finite in
    let passed : passing rate ps ≡ places_below rate ps =
      ap (λ es. last_passing (length es) rate 0 es 0) sorted
      ∙ last_passing-finite (length (ranked_entries ps)) rate 0 (ranked_entries ps) 0
          (every-sort_by by_size by_size-Ordered holds_finite (entries_from 0 ps) ∙ finite) in
    ap (λ es. mark (passing rate ps) es (map (λ p. false) ps)) sorted
    ∙ ap (λ n. mark n (ranked_entries ps) (map (λ p. false) ps)) passed
