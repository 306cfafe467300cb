-- ===== src/Analytics/Metrics/Calculate/Clamp.antt =====
-- completion_proxy is average_watch_percentage, cut at 1.
use content_automation.Base.{
  String, true, Option, none, some, [], ◌≡◌, ◌≢◌, refl, ◌⊎◌, inl, inr, arith,
}
use content_automation.Base.Tests.{Bool-cases}
use content_automation.Domain.Number.{Number, is_finite}
use content_automation.Domain.Number.Arithmetic.{quotient}
use content_automation.Instagram.Insights.{MetricUnit}
use content_automation.Analytics.Metrics.{definition_of}
use content_automation.Analytics.Quantities.{
  average_watch_percentage, completion_proxy, InputSet, duration, Definition,
}
use content_automation.Analytics.Metrics.Calculate.{
  Refusal, clamp, divide, ◌>>=◌, collect, all_present, numerator_of, denominator_of, value_of,
  calculate_derived_metric,
}

-- Math.min(1, value), where there is a value
abbrev pub cut : Option Number → Option Number
cut none = none
cut (some x) = some (clamp true x)

abbrev cut_value : Refusal ⊎ Number → Refusal ⊎ Number
cut_value m = m >>= λ x. inr (clamp true x)

abbrev watch : Definition
watch = definition_of average_watch_percentage

abbrev proxy : Definition
proxy = definition_of completion_proxy

divide_cut :
    (total d : Number) → divide proxy total (some d) ≡ cut_value (divide watch total (some d))
unfolding definition_of
divide_cut total d = elim (Bool-cases (is_finite (quotient total d))) [
  | inl t ↦ rw t refl
  | inr t ↦ rw t refl
]

pub Sum-cases :
    {A : Type 0} (m : Refusal ⊎ A) → ((r : Refusal) × (m ≡ inl r)) ⊎ ((a : A) × (m ≡ inr a))
Sum-cases (inl r) = inl (r, refl)
Sum-cases (inr a) = inr (a, refl)

pub duration_divides :
    (label : String) (inputs : InputSet) → denominator_of (duration label) inputs ≢ inr none
unfolding denominator_of
duration_divides label inputs e = ground arith

denominator_some :
    (label : String) (inputs : InputSet) (o : Option Number)
    → denominator_of (duration label) inputs ≡ inr o
    → (d : Number) × (o ≡ some d)
denominator_some label inputs (some d) e = (d, refl)
denominator_some label inputs none e = absurd (duration_divides label inputs e)

value_cut : (inputs : InputSet) → value_of proxy inputs ≡ cut_value (value_of watch inputs)
unfolding value_of definition_of
value_cut inputs =
    elim (Sum-cases (collect MetricUnit.milliseconds inputs.values (watch.numerator) [] [])) [
      | inl (r, e) ↦ rw e refl
      | inr (got, e) ↦ elim (Sum-cases (all_present inputs.values got.0)) [
        | inl (r, f) ↦ rw (e, f) refl
        | inr (u, f) ↦ elim (Sum-cases (numerator_of MetricUnit.milliseconds got.1)) [
          | inl (r, g) ↦ rw (e, f, g) refl
          | inr (total, g) ↦
              elim (Sum-cases (denominator_of (duration "duration_seconds") inputs)) [
                | inl (r, h) ↦ rw (e, f, g, h) refl
                | inr (o, h) ↦
                    let (d, k) = denominator_some "duration_seconds" inputs o h in
                    rw (e, f, g, h, k) (divide_cut total d)
              ]
        ]
      ]
    ]

-- The completion proxy is the average watch percentage cut at 1, for every set of inputs: there is no
-- value for the one just where there is none for the other, for the same reason and the same missing
-- inputs.
pub completion_cut :
    (inputs : InputSet)
    → let watched = calculate_derived_metric average_watch_percentage inputs in
      let completed = calculate_derived_metric completion_proxy inputs in
      (completed.value ≡ cut watched.value)
      × (completed.reason ≡ watched.reason)
      × (completed.missing ≡ watched.missing)
unfolding calculate_derived_metric value_of collect definition_of
completion_cut inputs = elim (Sum-cases (value_of watch inputs)) [
  | inl (r, e) ↦ let f = value_cut inputs in rw (f, e) (refl, refl, refl)
  | inr (x, e) ↦ let f = value_cut inputs in rw (f, e) (refl, refl, refl)
]
