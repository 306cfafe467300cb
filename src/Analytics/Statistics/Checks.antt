-- ===== src/Analytics/Statistics/Checks.antt =====
-- What the checks of calculateFeatureStatistic establish, one after another.
use content_automation.Base.{
  ℕ, ◌≤◌, Bool, true, false, Option, none, some, List, ◌≡◌, refl, inl, inr, arith,
}
use content_automation.Base.Tests.{ltb, Bool-cases, Option-cases}
use content_automation.Base.Lists.{length}
use content_automation.Domain.Number.{Number}
use content_automation.Domain.Number.Arithmetic.{sub, div, magnitude, lt_number}
use content_automation.Analytics.Spread.{finite_values, median, summarise_spread}
use content_automation.Analytics.Statistics.{
  ConfidenceClass, moderate_association, statistically_supported_association, Sensitivity,
  evaluate_sensitivity, sensitivity_of, relative_effect, is_zero, insensible,
}
use content_automation.Analytics.Statistics.Classification.{
  Comparison, Settled, settle_early, settle_strength, settle_supported, settle_moderate,
  misses_too_many, is_too_small, is_dominated, excludes, is_false, keeps_half_effect,
  practical_effect, from_both, effect_of, sensitivity_in,
}
use content_automation.Analytics.Statistics.Removal.{finite_twice}

-- A moderate or a supported association.
abbrev pub is_promoted : ConfidenceClass → Bool
is_promoted moderate_association = true
is_promoted statistically_supported_association = true
is_promoted _ = false

abbrev pub is_supported : ConfidenceClass → Bool
is_supported statistically_supported_association = true
is_supported _ = false

-- The early checks that a comparison passed.
pub record Passed (input : Comparison) (n m : ℕ) (s : Sensitivity) (effect : Option Number)
    : Type 0 where
  pub dates : 3 ≤ input.distinct_publication_dates
  pub present : misses_too_many input.missing_ratio ≡ false
  pub preserves : s.preserves_direction ≡ true
  pub large : is_too_small effect ≡ false
  pub spread : input.dominated_by_one_source ≡ false

pub early_none :
    (input : Comparison) (n m : ℕ) (share : Option Number) (s : Sensitivity)
    (effect : Option Number)
    → settle_early input n m share s effect ≡ none
    → Passed input n m s effect × (is_dominated share ≡ false)
unfolding settle_early
early_none input n m share s effect h = (
  record {
    dates = ground arith;
    present = ground arith;
    preserves = ground arith;
    large = ground arith;
    spread = ground arith;
  },
  ground arith,
)

pub early_some :
    (input : Comparison) (n m : ℕ) (share : Option Number) (s : Sensitivity)
    (effect : Option Number) (r : Settled)
    → settle_early input n m share s effect ≡ some r
    → is_promoted r.classification ≡ false
unfolding settle_early
early_some input n m share s effect r h = ground arith

pub strength_promoted :
    (input : Comparison) (n m : ℕ) (s : Sensitivity) (i j : Option _)
    → is_promoted (settle_strength input n m s i j).classification ≡ true
    → (8 ≤ n) × (12 ≤ m)
unfolding settle_strength settle_supported settle_moderate
strength_promoted input n m s i j h = ground arith

pub strength_supported :
    (input : Comparison) (n m : ℕ) (s : Sensitivity) (i j : Option _)
    → is_supported (settle_strength input n m s i j).classification ≡ true
    → (12 ≤ n)
      × (24 ≤ m)
      × (6 ≤ input.distinct_publication_weeks)
      × (excludes i ≡ true)
      × (input.observations_cluster_by_source ≡ false)
      × (is_false input.survives_multiple_testing ≡ false)
      × (keeps_half_effect s ≡ true)
      × (is_false s.remove_best_worst_preserves_direction ≡ false)
unfolding settle_strength settle_supported settle_moderate
strength_supported input n m s i j h = ground arith

-- What the early checks know of the medians: that of the group, that of the comparison, and the effect.
pub record Medians (input : Comparison) : Type 0 where
  pub group_median : Number
  pub comparison_median : Number
  pub of_group : median (finite_values input.group) ≡ some group_median
  pub of_comparison : median (finite_values input.comparison) ≡ some comparison_median
  pub nonzero : is_zero comparison_median ≡ false
  pub effect :
      (e : Number) × (relative_effect group_median comparison_median ≡ some e)
      × (lt_number (magnitude e) practical_effect ≡ false)
  pub refits :
      sensitivity_in input
      ≡ sensitivity_of (finite_values input.group) comparison_median group_median
  pub two : 2 ≤ length (finite_values input.group)

effect_medians :
    (input : Comparison)
    → effect_of input
      ≡ from_both relative_effect
          (median (finite_values input.group))
          (median (finite_values input.comparison))
unfolding median summarise_spread
effect_medians input = refl

-- A group whose direction is preserved has two values or more.
sensitivity_refits :
    (comparison group : List Number) (c g : Number)
    → finite_values group ≡ group
    → finite_values comparison ≡ comparison
    → median comparison ≡ some c
    → median group ≡ some g
    → (evaluate_sensitivity comparison group).preserves_direction ≡ true
    → (evaluate_sensitivity comparison group ≡ sensitivity_of group c g) × (2 ≤ length group)
unfolding evaluate_sensitivity
sensitivity_refits comparison group c g fg fc ec eg p = elim (Bool-cases (ltb (length group) 2)) [
  | inl t ↦
      let none_kept : evaluate_sensitivity comparison group ≡ insensible =
        rw (evaluate_sensitivity, fg, fc, ec, eg, t) refl in
      absurd (ground (arith, none_kept))
  | inr t ↦ (rw (evaluate_sensitivity, fg, fc, ec, eg, t) refl, ground arith)
]

pub medians :
    (input : Comparison)
    → (sensitivity_in input).preserves_direction ≡ true
    → is_too_small (effect_of input) ≡ false
    → Medians input
medians input p h =
    let both = effect_medians input in
    elim (Option-cases (median (finite_values input.group))) [
      | inl e ↦ let n : effect_of input ≡ none = rw (both, e) refl in absurd (ground (arith, n))
      | inr (g, e) ↦ elim (Option-cases (median (finite_values input.comparison))) [
        | inl f ↦
            let n : effect_of input ≡ none = rw (both, e, f) refl in absurd (ground (arith, n))
        | inr (c, f) ↦ elim (Bool-cases (is_zero c)) [
          | inl z ↦
              let n : effect_of input ≡ none = rw (both, e, f, z) refl in absurd (ground (arith, n))
          | inr z ↦
              let x = div (sub g c) (magnitude c) in
              let n : effect_of input ≡ some x = rw (both, e, f, z) refl in
              let large : lt_number (magnitude x) practical_effect ≡ false = rw n at h in
              let r =
                sensitivity_refits (finite_values input.comparison) (finite_values input.group) c g
                  (finite_twice input.group) (finite_twice input.comparison) f e p in
              record {
                group_median = g;
                comparison_median = c;
                of_group = e;
                of_comparison = f;
                nonzero = z;
                effect = (x, rw z refl, large);
                refits = r.0;
                two = r.1;
              }
        ]
      ]
    ]

pub supported-promoted : (k : ConfidenceClass) → is_supported k ≡ true → is_promoted k ≡ true
supported-promoted k h = ground arith
