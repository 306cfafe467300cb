-- ===== src/Analytics/Statistics.antt =====
-- Feature statistics of packages/domain/src/analytics-statistics.ts: classes, thresholds, bands, and how
-- far one post carries a group.
pub mod Bootstrap
pub mod Classification
pub mod Removal
pub mod Draws
pub mod Discovery
pub mod Checks
pub mod Evidence
use Prim.Native.Nat.{Ordering, lt, eq, gt}
use content_automation.Base.{
  ℕ, zero, suc, ◌+◌, Bool, true, false, not, ◌&&◌, ◌||◌, Option, none, some, List, [], ◌∷◌,
}
use content_automation.Base.Tests.{ltb, leb, if_found, if◌then◌else◌}
use content_automation.Base.Lists.{length, without, indices_from}
use content_automation.Base.Order.{sort_by, filter_by}
use content_automation.Domain.Number.{Number, fraction, negative, is_finite}
use content_automation.Domain.Number.Arithmetic.{
  of_nat, is_negative, is_positive, sub, div, magnitude, compare_numbers, lt_number, le_number,
  sum_from,
}
use content_automation.Analytics.Spread.{finite_values, median}

pub data ConfidenceClass : Type 0 where
  insufficient_evidence single_post_outlier weak_directional_signal : ConfidenceClass
  moderate_association statistically_supported_association : ConfidenceClass

-- classificationReasons
pub data Reason : Type 0 where
  below_minimum_samples effect_below_threshold few_publication_dates : Reason
  interval_ignores_clustering interval_includes_no_difference : Reason
  meets_moderate_thresholds meets_supported_thresholds missingness_too_high : Reason
  multiple_testing_rejected one_source_dominates_sample sensitivity_changes_materiality : Reason
  single_eligible_post top_post_dominates_total : Reason

pub data DurationBand : Type 0 where
  under_15s from_15_to_29s from_30_to_44s from_45_to_59s from_60_to_89s from_90s : DurationBand

-- durationBands: the least of each band, and the bound it stays below
pub record Band : Type 0 where
  pub key : DurationBand
  pub minimum_seconds : ℕ
  pub maximum_seconds : Option ℕ

abbrev pub band : DurationBand → ℕ → Option ℕ → Band
band key least bound = record { key = key; minimum_seconds = least; maximum_seconds = bound }

abbrev pub duration_bands : List Band
duration_bands =
    band under_15s 0 (some 15)
    ∷ band from_15_to_29s 15 (some 30)
    ∷ band from_30_to_44s 30 (some 45)
    ∷ band from_45_to_59s 45 (some 60)
    ∷ band from_60_to_89s 60 (some 90)
    ∷ band from_90s 90 none
    ∷ []

abbrev pub is_in_band : Number → Band → Bool
is_in_band seconds b =
    le_number (of_nat b.minimum_seconds) seconds
    && if_found b.maximum_seconds true λ bound. lt_number seconds (of_nat bound)

unfoldable pub find_band : Number → List Band → Option DurationBand
find_band seconds [] = none
find_band seconds (b ∷ bs) = if is_in_band seconds b then some b.key else find_band seconds bs

unfoldable pub duration_band_for : Number → Option DurationBand
duration_band_for seconds =
    if not (is_finite seconds) || is_negative seconds
    then none
    else find_band seconds duration_bands

-- SensitivityResult
pub record Sensitivity : Type 0 where
  pub minimum_relative_effect : Option Number
  pub preserves_direction : Bool
  pub remove_best_worst_preserves_direction : Option Bool

abbrev pub is_zero : Number → Bool
is_zero (fraction zero d) = true
is_zero _ = false

abbrev pub relative_effect : Number → Number → Option Number
relative_effect group comparison =
    if is_zero comparison then none else some (div (sub group comparison) (magnitude comparison))

abbrev pub same_sign : Ordering → Ordering → Bool
same_sign lt lt = true
same_sign eq eq = true
same_sign gt gt = true
same_sign _ _ = false

-- minimum === null ? m : Math.min(minimum, m)
abbrev pub lesser : Option Number → Number → Number
lesser none m = m
lesser (some least) m = if lt_number m least then m else least

-- preservesDirection and minimumRelativeEffect
pub record Refits : Type 0 where
  pub preserves : Bool
  pub minimum : Option Number

abbrev pub note_refit : Ordering → Number → Refits → Number → Refits
note_refit original comparison_median r refit = record {
  preserves = r.preserves && same_sign (compare_numbers refit comparison_median) original;
  minimum =
      if_found (relative_effect refit comparison_median) r.minimum
        λ e. some (lesser r.minimum (magnitude e));
}

-- The loop over the group: one refit without each of its values.
unfoldable pub refit_all : Ordering → Number → List Number → List ℕ → Refits → Refits
refit_all original comparison_median group [] r = r
refit_all original comparison_median group (i ∷ is) r =
    refit_all original comparison_median group is
      (if_found (median (without i group)) r (note_refit original comparison_median r))

-- sorted.slice(1, -1)
unfoldable pub drop_last : List Number → List Number
drop_last [] = []
drop_last (x ∷ []) = []
drop_last (x ∷ y ∷ ys) = x ∷ drop_last (y ∷ ys)

abbrev pub trim_ends : List Number → List Number
trim_ends group = drop_last (without 0 (sort_by compare_numbers group))

abbrev pub keeps_trimmed : Ordering → Number → List Number → Option Bool
keeps_trimmed original comparison_median group =
    if leb 4 (length group)
    then some (
        if_found (median (trim_ends group)) false
          λ m. same_sign (compare_numbers m comparison_median) original)
    else none

abbrev pub insensible : Sensitivity
insensible = record {
  minimum_relative_effect = none;
  preserves_direction = false;
  remove_best_worst_preserves_direction = none;
}

abbrev pub sensitivity_of : List Number → Number → Number → Sensitivity
sensitivity_of group comparison_median group_median =
    let original = compare_numbers group_median comparison_median in
    let r =
      refit_all original comparison_median group (indices_from 0 (length group))
        (record { preserves = true; minimum = none }) in
    record {
      minimum_relative_effect = r.minimum;
      preserves_direction = r.preserves;
      remove_best_worst_preserves_direction = keeps_trimmed original comparison_median group;
    }

unfoldable pub evaluate_sensitivity : List Number → List Number → Sensitivity
evaluate_sensitivity comparison group =
    let finite = finite_values group in
    if_found (median (finite_values comparison)) insensible λ c.
      if_found (median finite) insensible
        λ g. if ltb (length finite) 2 then insensible else sensitivity_of finite c g

-- Math.max(...values)
unfoldable pub greatest : Number → List Number → Number
greatest x [] = x
greatest x (y ∷ ys) = greatest (if lt_number x y then y else x) ys

abbrev pub share_of_greatest : List Number → Option Number
share_of_greatest [] = none
share_of_greatest (x ∷ xs) =
    let total = sum_from (of_nat 0) (x ∷ xs) in
    if is_positive total then some (div (greatest x xs) total) else none

unfoldable pub top_contributor_share : List Number → Option Number
top_contributor_share values =
    share_of_greatest (filter_by (λ x. is_finite x && not (is_negative x)) values)
