-- ===== src/Analytics/Statistics/Classification.antt =====
-- calculateFeatureStatistic of packages/domain/src/analytics-statistics.ts.
use content_automation.Base.{
  ℕ, suc, ◌+◌, ◌*◌, String, Bool, true, false, not, ◌&&◌, ◌||◌, Option, none, some, List,
}
use content_automation.Base.Tests.{ltb, leb, ◌==◌, if_found, if◌then◌else◌}
use content_automation.Base.Lists.{length}
use content_automation.Domain.Number.{Number, fraction}
use content_automation.Domain.Number.Arithmetic.{sub, magnitude, lt_number, le_number}
use content_automation.Analytics.Spread.{Share, finite_values, CohortSpread, summarise_spread}
use content_automation.Analytics.Statistics.{
  ConfidenceClass, insufficient_evidence, single_post_outlier, weak_directional_signal,
  moderate_association, statistically_supported_association, Reason, below_minimum_samples,
  effect_below_threshold, few_publication_dates, interval_ignores_clustering,
  interval_includes_no_difference, meets_moderate_thresholds, meets_supported_thresholds,
  missingness_too_high, multiple_testing_rejected, one_source_dominates_sample,
  sensitivity_changes_materiality, single_eligible_post, top_post_dominates_total, Sensitivity,
  relative_effect, evaluate_sensitivity, top_contributor_share,
}
use content_automation.Analytics.Statistics.Bootstrap.{Interval, bootstrap_median_difference}

-- FeatureComparisonInput. An optional flag that is absent is false, and the ratio of the missing values
-- is a share.
pub record Comparison : Type 0 where
  pub comparison : List Number
  pub distinct_publication_dates : ℕ
  pub distinct_publication_weeks : ℕ
  pub dominated_by_one_source : Bool
  pub group : List Number
  pub key : String
  pub missing_ratio : Share
  pub metric_is_count : Bool
  pub observations_cluster_by_source : Bool
  pub survives_multiple_testing : Option Bool

-- FeatureStatistic, without its version, a constant
pub record FeatureStatistic : Type 0 where
  pub classification : ConfidenceClass
  pub comparison_count : ℕ
  pub comparison_spread : CohortSpread
  pub difference_of_medians : Option Number
  pub group_count : ℕ
  pub group_spread : CohortSpread
  pub interval : Option Interval
  pub reason : Reason
  pub relative_effect : Option Number
  pub sensitivity : Sensitivity
  pub top_contributor_share : Option Number

-- What a comparison settles on.
pub record Settled : Type 0 where
  pub classification : ConfidenceClass
  pub reason : Reason
  pub interval : Option Interval

abbrev pub settle : ConfidenceClass → Reason → Option Interval → Settled
settle classification reason interval = record {
  classification = classification;
  reason = reason;
  interval = interval;
}

-- practicalEffectThreshold, and half of it
abbrev pub practical_effect : Number
practical_effect = fraction 1 9

abbrev pub half_practical_effect : Number
half_practical_effect = fraction 1 19

-- ratio > maximumMissingRatio, which is 0.4
abbrev pub misses_too_many : Share → Bool
misses_too_many ratio = ltb (2 * suc ratio.den_pred) (5 * ratio.num)

-- share !== null && share > 0.5
abbrev pub is_dominated : Option Number → Bool
is_dominated none = false
is_dominated (some share) = lt_number (fraction 1 1) share

-- effect === null || Math.abs(effect) < practicalEffectThreshold
abbrev pub is_too_small : Option Number → Bool
is_too_small none = true
is_too_small (some effect) = lt_number (magnitude effect) practical_effect

-- interval?.excludesNoDifference === true
abbrev pub excludes : Option Interval → Bool
excludes none = false
excludes (some i) = i.excludes_no_difference

abbrev pub is_false : Option Bool → Bool
is_false (some b) = not b
is_false none = false

abbrev pub keeps_half_effect : Sensitivity → Bool
keeps_half_effect s =
    if_found s.minimum_relative_effect false λ m. le_number half_practical_effect m

-- The checks before any interval is drawn, of `n` and `m` values, their share, their sensitivity and
-- their effect.
unfoldable pub settle_early :
    Comparison → ℕ → ℕ → Option Number → Sensitivity → Option Number → Option Settled
settle_early input n m share s effect =
    if n == 1
    then some (settle single_post_outlier single_eligible_post none)
    else if ltb n 3 || ltb m 5
    then some (settle insufficient_evidence below_minimum_samples none)
    else if ltb input.distinct_publication_dates 3
    then some (settle insufficient_evidence few_publication_dates none)
    else if misses_too_many input.missing_ratio
    then some (settle insufficient_evidence missingness_too_high none)
    else if is_dominated share
    then some (settle single_post_outlier top_post_dominates_total none)
    else if not s.preserves_direction
    then some (settle single_post_outlier sensitivity_changes_materiality none)
    else if is_too_small effect
    then some (settle weak_directional_signal effect_below_threshold none)
    else if input.dominated_by_one_source
    then some (settle weak_directional_signal one_source_dominates_sample none)
    else none

abbrev pub meets_supported_samples : Comparison → ℕ → ℕ → Bool
meets_supported_samples input n m = leb 12 n && leb 24 m && leb 6 input.distinct_publication_weeks

abbrev pub meets_moderate_samples : ℕ → ℕ → Bool
meets_moderate_samples n m = leb 8 n && leb 12 m && leb 20 (n + m)

unfoldable pub settle_supported : Comparison → Sensitivity → Option Interval → Settled
settle_supported input s i =
    if input.observations_cluster_by_source
    then settle moderate_association interval_ignores_clustering i
    else if is_false input.survives_multiple_testing
    then settle moderate_association multiple_testing_rejected i
    else if keeps_half_effect s && not (is_false s.remove_best_worst_preserves_direction)
    then settle statistically_supported_association meets_supported_thresholds i
    else settle moderate_association sensitivity_changes_materiality i

-- moderateInterval?.excludesNoDifference === false
abbrev pub weak_reason : Option Interval → Reason
weak_reason none = below_minimum_samples
weak_reason (some i) =
    if i.excludes_no_difference then below_minimum_samples else interval_includes_no_difference

unfoldable pub settle_moderate : ℕ → ℕ → Option Interval → Settled
settle_moderate n m i =
    if meets_moderate_samples n m && excludes i
    then settle moderate_association meets_moderate_thresholds i
    else settle weak_directional_signal (weak_reason i) i

-- The checks on the two intervals, at 0.95 and at 0.8
unfoldable pub settle_strength :
    Comparison → ℕ → ℕ → Sensitivity → Option Interval → Option Interval → Settled
settle_strength input n m s supported moderate =
    if meets_supported_samples input n m && excludes supported
    then settle_supported input s supported
    else settle_moderate n m moderate

-- Of two medians, where both are there.
abbrev pub from_both :
    (Number → Number → Option Number) → Option Number → Option Number → Option Number
from_both f g c = if_found g none λ a. if_found c none λ b. f a b

abbrev pub effect_of : Comparison → Option Number
effect_of input =
    from_both relative_effect (summarise_spread (finite_values input.group)).median
      (summarise_spread (finite_values input.comparison)).median

abbrev pub share_of : Comparison → Option Number
share_of input =
    if input.metric_is_count then top_contributor_share (finite_values input.group) else none

abbrev pub sensitivity_in : Comparison → Sensitivity
sensitivity_in input =
    evaluate_sensitivity (finite_values input.comparison) (finite_values input.group)

-- `seed_of` stands for createBootstrapSeed, from the key, the group and the comparison: a digest of
-- their printed values. `resamples` is bootstrapResamples.
module _ (resamples : ℕ) (seed_of : String → List Number → List Number → ℕ) where
  abbrev pub interval_at : Comparison → Share → Option Interval
  interval_at input tail =
      let g = finite_values input.group in
      let c = finite_values input.comparison in
      bootstrap_median_difference resamples c tail g (seed_of input.key g c)

  unfoldable pub settle_all : Comparison → Option Number → Sensitivity → Option Number → Settled
  settle_all input share s effect =
      let n = length (finite_values input.group) in
      let m = length (finite_values input.comparison) in
      if_found (settle_early input n m share s effect)
        (settle_strength input n m s (interval_at input (record { num = 1; den_pred = 39 }))
          (interval_at input (record { num = 1; den_pred = 9 })))
        λ settled. settled

  unfoldable pub calculate_feature_statistic : Comparison → FeatureStatistic
  calculate_feature_statistic input =
      let group_spread = summarise_spread (finite_values input.group) in
      let comparison_spread = summarise_spread (finite_values input.comparison) in
      let settled = settle_all input (share_of input) (sensitivity_in input) (effect_of input) in
      record {
        classification = settled.classification;
        comparison_count = length (finite_values input.comparison);
        comparison_spread = comparison_spread;
        difference_of_medians =
            from_both (λ a b. some (sub a b)) group_spread.median comparison_spread.median;
        group_count = length (finite_values input.group);
        group_spread = group_spread;
        interval = settled.interval;
        reason = settled.reason;
        relative_effect = effect_of input;
        sensitivity = sensitivity_in input;
        top_contributor_share = share_of input;
      }
