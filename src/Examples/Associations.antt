-- ===== src/Examples/Associations.antt =====
-- Results on feature statistics, at concrete posts.
use content_automation.Base.{
  ℕ, zero, suc, String, true, false, some, List, [], ◌∷◌, ◌++◌, ◌≡◌, refl,
}
use content_automation.Base.Lists.{get_elem?, without, indices_from}
use content_automation.Base.Order.{every, sort_by, filter_by}
use content_automation.Domain.Number.{Number, fraction, nan, infinite}
use content_automation.Domain.Number.Arithmetic.{
  compare_values, is_at_most, of_nat, add, mul, div, sum_from,
}
use content_automation.Analytics.Spread.{Share, percentile, median, summarise_spread, last?}
use content_automation.Analytics.Statistics.{
  evaluate_sensitivity, refit_all, top_contributor_share, drop_last, greatest,
}
use content_automation.Analytics.Statistics.Bootstrap.{
  bootstrap_median_difference, resample, draw, uniform,
}
use content_automation.Analytics.Statistics.Classification.{
  Comparison, calculate_feature_statistic, settle_all, settle_early, settle_strength,
  settle_supported, settle_moderate,
}
use content_automation.Analytics.Statistics.Checks.{is_promoted, is_supported, supported-promoted}
use content_automation.Analytics.Statistics.Evidence.{Evidence, promoted-Evidence}
use content_automation.Analytics.Statistics.Discovery.{
  benjamini_hochberg, entries_from, last_passing, mark, set_true,
}
use content_automation.Analytics.Statistics.Discovery.StepUp.{survivors_iff, Kept}
use mathlib.Core.Logic.{◌↔◌}

-- Counts from `start`, so many.
abbrev counts : ℕ → ℕ → List Number
counts start zero = []
counts start (suc n) = of_nat start ∷ counts (suc start) n

abbrev input : Comparison
input = record {
  comparison = counts 1 12 ++ counts 1 12;
  distinct_publication_dates = 12;
  distinct_publication_weeks = 8;
  dominated_by_one_source = false;
  group = counts 20 12;
  key = "length";
  missing_ratio = record { num = 1; den_pred = 9 };
  metric_is_count = true;
  observations_cluster_by_source = false;
  survives_multiple_testing = some true;
}

abbrev seed : String → List Number → List Number → ℕ
seed key group comparison = 7

abbrev three : ℕ
three = 3

run_supported : is_supported (calculate_feature_statistic three seed input).classification ≡ true
unfolding calculate_feature_statistic settle_all settle_early settle_strength settle_supported
    settle_moderate evaluate_sensitivity refit_all top_contributor_share drop_last greatest
    bootstrap_median_difference resample draw uniform percentile median summarise_spread last? add
    mul div sum_from get_elem? without indices_from sort_by filter_by
run_supported = refl

run_promoted : is_promoted (calculate_feature_statistic three seed input).classification ≡ true
run_promoted = supported-promoted _ run_supported

promoted-Evidence_example : Evidence input
promoted-Evidence_example = promoted-Evidence three seed input run_promoted

-- Four tests: ranks 1 to 3 pass at their own thresholds, the third although the second does not.
abbrev rate : Share
rate = record { num = 1; den_pred = 9 }

abbrev p_values : List Number
p_values = fraction 60 999 ∷ fraction 1 999 ∷ fraction 70 999 ∷ fraction 500 999 ∷ []

keeps_three : benjamini_hochberg rate p_values ≡ true ∷ true ∷ true ∷ false ∷ []
unfolding benjamini_hochberg entries_from last_passing mark set_true sort_by compare_values
    is_at_most
keeps_three = refl

abbrev second : Number
second = fraction 1 999

-- NaN and an infinite p-value do not pass.
keeps_no_nan :
    benjamini_hochberg rate (fraction 1 999 ∷ nan ∷ infinite true ∷ []) ≡ true ∷ false ∷ false ∷ []
unfolding benjamini_hochberg entries_from last_passing mark set_true sort_by compare_values
    is_at_most
keeps_no_nan = refl

survivors_iff_example :
    (get_elem? (benjamini_hochberg rate p_values) 1 ≡ some true) ↔ Kept rate p_values second
unfolding get_elem? every
survivors_iff_example = survivors_iff rate p_values 1 second refl refl
