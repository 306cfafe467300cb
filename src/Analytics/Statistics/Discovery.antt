-- ===== src/Analytics/Statistics/Discovery.antt =====
-- benjaminiHochberg of packages/domain/src/analytics-statistics.ts.
pub mod Finite
pub mod Ranks
pub mod Marks
pub mod Cutoff
pub mod StepUp
use content_automation.Base.{ℕ, zero, suc, ◌-◌, ◌*◌, Bool, true, false, List, [], ◌∷◌}
use content_automation.Base.Tests.{if◌then◌else◌}
use content_automation.Base.Lists.{length}
use content_automation.Base.Order.{Comparator, sort_by}
use content_automation.Domain.Number.{Number, fraction}
use content_automation.Domain.Number.Arithmetic.{compare_values, is_at_most}
use content_automation.Analytics.Spread.{Share}
use mathlib.Core.List.{map}

-- A p-value and the place it was given at.
pub record Entry : Type 0 where
  pub index : ℕ
  pub value : Number

unfoldable pub entries_from : ℕ → List Number → List Entry
entries_from start [] = []
entries_from start (p ∷ ps) = record { index = start; value = p } ∷ entries_from (suc start) ps

-- With NaN among the p-values this is no order, and the engine may sort them in another way.
abbrev pub by_value : Comparator Entry
by_value a b = compare_values a.value b.value

abbrev pub sorted_entries : List Number → List Entry
sorted_entries p_values = sort_by by_value (entries_from 0 p_values)

-- ((rank + 1) / indexed.length) * rate, from rank + 1
abbrev pub threshold : ℕ → Share → ℕ → Number
threshold total rate place = fraction (place * rate.num) (total * suc rate.den_pred - 1)

-- largestSurviving + 1, from the entries at `rank` and on
unfoldable pub last_passing : ℕ → Share → ℕ → List Entry → ℕ → ℕ
last_passing total rate rank [] k = k
last_passing total rate rank (e ∷ es) k =
    last_passing total rate (suc rank) es
      (if is_at_most e.value (threshold total rate (suc rank)) then suc rank else k)

-- survives[index] = true
unfoldable pub set_true : ℕ → List Bool → List Bool
set_true i [] = []
set_true zero (b ∷ bs) = true ∷ bs
set_true (suc i) (b ∷ bs) = b ∷ set_true i bs

unfoldable pub mark : ℕ → List Entry → List Bool → List Bool
mark zero es survives = survives
mark (suc n) [] survives = survives
mark (suc n) (e ∷ es) survives = mark n es (set_true e.index survives)

abbrev pub passing : Share → List Number → ℕ
passing rate p_values =
    let indexed = sorted_entries p_values in last_passing (length indexed) rate 0 indexed 0

unfoldable pub benjamini_hochberg : Share → List Number → List Bool
benjamini_hochberg rate p_values =
    mark (passing rate p_values) (sorted_entries p_values) (map (λ p. false) p_values)
