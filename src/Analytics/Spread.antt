-- ===== src/Analytics/Spread.antt =====
-- Medians, quartiles, baselines and coverage of a cohort, of packages/domain/src/analytics-cohorts.ts.
use Prim.Native.Nat.{◌%◌}
use content_automation.Base.{
  ℕ, suc, ◌+◌, ◌-◌, ◌*◌, ◌/◌, String, not, Option, none, some, List, [], ◌∷◌,
}
use content_automation.Base.Tests.{◌==◌, if_found, if◌then◌else◌, get_or}
use content_automation.Base.Lists.{length, get_elem?}
use content_automation.Base.Order.{sort_by, filter_by, head?}
use content_automation.Domain.Number.{Number, nan, fraction, is_finite}
use content_automation.Domain.Number.Arithmetic.{
  of_nat, is_positive, add, sub, mul, div, compare_numbers,
}
use text.Mathlib.Text.{◌==◌ as str_eq}

-- A share in [0, 1]: num / (den_pred + 1).
pub record Share : Type 0 where
  pub num : ℕ
  pub den_pred : ℕ

-- values.filter(Number.isFinite)
abbrev pub finite_values : List Number → List Number
finite_values values = filter_by is_finite values

abbrev pub ascending : List Number → List Number
ascending values = sort_by compare_numbers (finite_values values)

-- sorted[index] as number
abbrev pub value_at : List Number → ℕ → Number
value_at values index = get_or (get_elem? values index) nan

-- The value at lower + rest / parts, between two places of a sorted list.
abbrev pub interpolate : List Number → ℕ → ℕ → ℕ → Number
interpolate sorted lower rest parts =
    let value = value_at sorted lower in
    if rest == 0
    then value
    else add value (mul (sub (value_at sorted (suc lower)) value) (fraction rest (parts - 1)))

-- The position (sorted.length - 1) * fraction: its floor, and what is left over.
abbrev pub read_position : List Number → Share → Number
read_position sorted f =
    let position = (length sorted - 1) * f.num in
    interpolate sorted (position / suc f.den_pred) (position % suc f.den_pred) (suc f.den_pred)

unfoldable pub percentile : List Number → Share → Option Number
percentile [] f = none
percentile (x ∷ []) f = some x
percentile (x ∷ y ∷ ys) f = some (read_position (x ∷ y ∷ ys) f)

abbrev pub half : Share
half = record { num = 1; den_pred = 1 }

unfoldable pub median : List Number → Option Number
median values = percentile (ascending values) half

-- CohortSpread
pub record CohortSpread : Type 0 where
  pub count : ℕ
  pub first_quartile : Option Number
  pub interquartile_range : Option Number
  pub maximum : Option Number
  pub median : Option Number
  pub minimum : Option Number
  pub third_quartile : Option Number

-- sorted.at(-1)
unfoldable pub last? : List Number → Option Number
last? [] = none
last? (x ∷ []) = some x
last? (x ∷ y ∷ ys) = last? (y ∷ ys)

unfoldable pub summarise_spread : List Number → CohortSpread
summarise_spread values =
    let sorted = ascending values in
    let first = percentile sorted (record { num = 1; den_pred = 3 }) in
    let third = percentile sorted (record { num = 3; den_pred = 3 }) in
    record {
      count = length sorted;
      first_quartile = first;
      interquartile_range = if_found first none λ a. if_found third none λ b. some (sub b a);
      maximum = last? sorted;
      median = percentile sorted half;
      minimum = head? sorted;
      third_quartile = third;
    }

-- The reasons of compareToBaseline, of CohortUnavailabilityReason
pub data BaselineRefusal : Type 0 where
  focal_value_unavailable no_comparison_values baseline_not_positive : BaselineRefusal

-- BaselineComparison; it is available just where it has no reason
pub record BaselineComparison : Type 0 where
  pub baseline : Option Number
  pub comparison_count : ℕ
  pub difference : Option Number
  pub focal_value : Option Number
  pub percent_difference : Option Number
  pub reason : Option BaselineRefusal
  pub relative_index : Option Number

abbrev pub baseline_refused :
    Option Number → Option Number → ℕ → BaselineRefusal → Option Number → BaselineComparison
baseline_refused focal baseline count reason difference = record {
  baseline = baseline;
  comparison_count = count;
  difference = difference;
  focal_value = focal;
  percent_difference = none;
  reason = some reason;
  relative_index = none;
}

abbrev pub measure_against : Number → Number → ℕ → BaselineComparison
measure_against focal baseline count =
    let difference = sub focal baseline in
    if is_positive baseline
    then record {
      baseline = some baseline;
      comparison_count = count;
      difference = some difference;
      focal_value = some focal;
      percent_difference = some (mul (div difference baseline) (of_nat 100));
      reason = none;
      relative_index = some (div focal baseline);
    }
    else baseline_refused (some focal) (some baseline) count baseline_not_positive (some difference)

unfoldable pub compare_to_baseline : Option Number → List Number → BaselineComparison
compare_to_baseline focal values =
    let finite = finite_values values in
    let baseline = median finite in
    let refused =
      λ (reason : BaselineRefusal). baseline_refused focal baseline (length finite) reason none in
    if_found focal (refused focal_value_unavailable) λ x.
      if is_finite x
      then (if_found baseline (refused no_comparison_values)
          λ b. measure_against x b (length finite))
      else refused focal_value_unavailable

-- excludeFocalPost, of the post identifiers
abbrev pub exclude_focal_post {ℓ} : {A : Type ℓ} → (A → String) → String → List A → List A
exclude_focal_post post_id focal entries = filter_by (λ e. not (str_eq (post_id e) focal)) entries

-- CohortCoverage
pub record CohortCoverage : Type 0 where
  pub eligible_posts : ℕ
  pub missing_ratio : Number
  pub posts_missing_metric : ℕ
  pub posts_missing_snapshot : ℕ
  pub posts_with_value : ℕ

unfoldable pub summarise_coverage : ℕ → ℕ → ℕ → ℕ → CohortCoverage
summarise_coverage eligible missing_metric missing_snapshot with_value =
    let missing = missing_snapshot + missing_metric in
    record {
      eligible_posts = eligible;
      missing_ratio = if eligible == 0 then of_nat 0 else fraction missing (eligible - 1);
      posts_missing_metric = missing_metric;
      posts_missing_snapshot = missing_snapshot;
      posts_with_value = with_value;
    }
