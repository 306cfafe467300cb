-- ===== src/Analytics/Statistics/Evidence.antt =====
-- The evidence behind a class that calculateFeatureStatistic gives.
use content_automation.Base.{
  ℕ, ◌≤◌, String, true, false, Option, none, some, List, ◌≡◌, refl, sym, ◌∙◌, inl, inr, arith,
}
use content_automation.Base.Tests.{Option-cases}
use content_automation.Base.Rows.{All}
use content_automation.Base.Lists.{length, indices_from}
use content_automation.Domain.Number.{Number, is_finite}
use content_automation.Domain.Number.Arithmetic.{magnitude, compare_numbers, lt_number}
use content_automation.Analytics.Spread.{finite_values, median}
use content_automation.Analytics.Statistics.{sensitivity_of, relative_effect}
use content_automation.Analytics.Statistics.Classification.{
  Comparison, Settled, settle_early, settle_strength, settle_all, interval_at, misses_too_many,
  excludes, is_false, practical_effect, half_practical_effect, effect_of, share_of, sensitivity_in,
  calculate_feature_statistic,
}
use content_automation.Analytics.Statistics.Bootstrap.{Interval}
use content_automation.Analytics.Statistics.Checks.{
  is_promoted, Passed, early_none, early_some, strength_promoted, medians,
}
use content_automation.Analytics.Statistics.Removal.{
  Refit, FarRefit, refits_preserve, every_filtered,
}

-- The evidence of an association: enough values on enough dates, few of them missing, not most from one
-- source, an effect of a tenth or more, and no value whose removal moves the group's median to the other
-- side of the comparison's.
pub record Evidence (input : Comparison) : Type 0 where
  pub group_size : 8 ≤ length (finite_values input.group)
  pub comparison_size : 12 ≤ length (finite_values input.comparison)
  pub dates : 3 ≤ input.distinct_publication_dates
  pub present : misses_too_many input.missing_ratio ≡ false
  pub spread : input.dominated_by_one_source ≡ false
  pub group_median : Number
  pub comparison_median : Number
  pub of_group : median (finite_values input.group) ≡ some group_median
  pub of_comparison : median (finite_values input.comparison) ≡ some comparison_median
  pub large :
      (e : Number) × (relative_effect group_median comparison_median ≡ some e)
      × (lt_number (magnitude e) practical_effect ≡ false)
  pub removals :
      All
        (Refit
          (compare_numbers group_median comparison_median)
          comparison_median
          (finite_values input.group))
        (indices_from 0 (length (finite_values input.group)))

-- What a supported association has besides: more values over more weeks, an interval at 0.95 without
-- zero, independent observations, a family of tests that kept it, and half the effect left whichever
-- value is removed.
pub record Support (input : Comparison) (interval : Option Interval) : Type 0 where
  pub group_size : 12 ≤ length (finite_values input.group)
  pub comparison_size : 24 ≤ length (finite_values input.comparison)
  pub weeks : 6 ≤ input.distinct_publication_weeks
  pub excludes_zero : excludes interval ≡ true
  pub independent : input.observations_cluster_by_source ≡ false
  pub survives : is_false input.survives_multiple_testing ≡ false
  pub comparison_median : Number
  pub of_comparison : median (finite_values input.comparison) ≡ some comparison_median
  pub removals :
      All
        (FarRefit half_practical_effect comparison_median (finite_values input.group))
        (indices_from 0 (length (finite_values input.group)))
  pub trimmed : is_false (sensitivity_in input).remove_best_worst_preserves_direction ≡ false

Evidence-of :
    (input : Comparison)
    → Passed input
        (length (finite_values input.group))
        (length (finite_values input.comparison))
        (sensitivity_in input)
        (effect_of input)
    → (8 ≤ length (finite_values input.group)) × (12 ≤ length (finite_values input.comparison))
    → Evidence input
Evidence-of input p sizes =
    let k = medians input p.preserves p.large in
    let kept : (sensitivity_of (finite_values input.group) k.comparison_median
          k.group_median).preserves_direction
        ≡ true =
      rw k.refits at p.preserves in
    record {
      group_size = sizes.0;
      comparison_size = sizes.1;
      dates = p.dates;
      present = p.present;
      spread = p.spread;
      group_median = k.group_median;
      comparison_median = k.comparison_median;
      of_group = k.of_group;
      of_comparison = k.of_comparison;
      large = k.effect;
      removals =
          (refits_preserve (compare_numbers k.group_median k.comparison_median) k.comparison_median
            (finite_values input.group) (every_filtered is_finite input.group) k.two
            (indices_from 0 (length (finite_values input.group)))
            (record { preserves = true; minimum = none }) kept).1;
    }

module _ (resamples : ℕ) (seed_of : String → List Number → List Number → ℕ)
    (input : Comparison) where
  settled_cases :
      (r : Settled)
      → settle_all resamples seed_of input (share_of input) (sensitivity_in input) (effect_of input)
        ≡ r
      → is_promoted r.classification ≡ true
      → Passed input
          (length (finite_values input.group))
          (length (finite_values input.comparison))
          (sensitivity_in input)
          (effect_of input)
        × (r
            ≡ settle_strength input
                (length (finite_values input.group))
                (length (finite_values input.comparison))
                (sensitivity_in input)
                (interval_at resamples seed_of input (record { num = 1; den_pred = 39 }))
                (interval_at resamples seed_of input (record { num = 1; den_pred = 9 })))
  unfolding settle_all
  settled_cases r e h =
      let early =
        settle_early input (length (finite_values input.group))
          (length (finite_values input.comparison)) (share_of input) (sensitivity_in input)
          (effect_of input) in
      elim (Option-cases early) [
        | inl n ↦ ((early_none input _ _ _ _ _ n).0, sym e ∙ rw n refl)
        | inr (t, n) ↦
            let same : t ≡ r = rw n at e in
            absurd (ground (arith, same, early_some input _ _ _ _ _ t n))
      ]

  -- A comparison that is called a moderate or a supported association has the evidence for it: counts,
  -- dates, a large effect, and a direction that the removal of any one value leaves as it is.
  pub promoted-Evidence :
      is_promoted (calculate_feature_statistic resamples seed_of input).classification ≡ true
      → Evidence input
  unfolding calculate_feature_statistic
  promoted-Evidence h =
      let (passed, same) = settled_cases _ refl h in
      Evidence-of input passed (strength_promoted input _ _ _ _ _ (rw same at h))
