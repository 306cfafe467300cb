-- ===== src/Analytics/Metrics/Calculate/Meaning.antt =====
-- When a derived metric has a value, and which.
use mathlib.Core.Path.{subst}
use mathlib.Core.Logic.{◌↔◌}
use content_automation.Base.{true, ◌||◌, some, List, [], ◌≡◌, refl, sym, ap, ◌∙◌, inl, inr, arith}
use content_automation.Domain.Number.{Number, is_finite}
use content_automation.Domain.Number.Arithmetic.{of_nat, is_safe_whole, sum_from}
use content_automation.Instagram.Insights.{MetricUnit}
use content_automation.Analytics.Metrics.{definition_of}
use content_automation.Analytics.Quantities.{
  DerivedMetric, InputKey, InputSet, Denominator, undivided, metric, duration, Definition,
}
use content_automation.Analytics.Metrics.Calculate.{
  divide, ◌>>=◌, same_unit, collect, all_present, numerator_of, denominator_of, value_of,
  calculate_derived_metric,
}
use content_automation.Analytics.Metrics.Calculate.Clamp.{Sum-cases}
use content_automation.Analytics.Metrics.Calculate.Components.{
  Present, collect-Held, collect-Present,
}
use content_automation.Analytics.Metrics.Calculate.Inversion.{
  DividedBy, Meaning, numerator_inv, divide_inv, all_present_inv, bind_inv,
}

Meaning-of :
    (def : Definition) (inputs : InputSet) (xs ys : List Number) (total x : Number)
    → ys ≡ xs
    → Present def.numerator_unit inputs.values def.numerator xs
    → numerator_of def.numerator_unit ys ≡ inr total
    → DividedBy def.bounded def.denominator inputs total x
    → Meaning def inputs x
Meaning-of def inputs xs ys total x same there sum divided =
    let n =
      numerator_inv def.numerator_unit xs total
        (ap (numerator_of def.numerator_unit) (sym same) ∙ sum) in
    record {
      components = xs;
      all_there = there;
      finite = n.1;
      exact = n.2;
      divided = subst (λ t. DividedBy def.bounded def.denominator inputs t x) (sym n.0) divided;
    }

value-Meaning :
    (def : Definition) (inputs : InputSet) (x : Number)
    → value_of def inputs ≡ inr x
    → Meaning def inputs x
unfolding value_of
value-Meaning def inputs x e =
    let c = bind_inv (collect def.numerator_unit inputs.values def.numerator [] []) _ x e in
    let a = bind_inv (all_present inputs.values c.0.0) _ x c.2 in
    let t = bind_inv (numerator_of def.numerator_unit c.0.1) _ x a.2 in
    let d = bind_inv (denominator_of def.denominator inputs) _ x t.2 in
    let empty = all_present_inv inputs.values c.0.0 a.0 a.1 in
    let whole : collect def.numerator_unit inputs.values def.numerator [] [] ≡ inr ([], c.0.1) =
      c.1 ∙ ap (λ (l : List InputKey). inr (l, c.0.1)) empty in
    let held = collect-Held def.numerator_unit inputs.values def.numerator [] [] c.0.1 whole in
    Meaning-of def inputs held.1.0 c.0.1 t.0 x held.1.1 held.1.2 t.1
      (divide_inv def def.denominator inputs t.0 x d.0 d.1 d.2)

divided_value :
    (def : Definition) (d : Denominator) (inputs : InputSet) (total x : Number)
    → DividedBy def.bounded d inputs total x
    → (denominator_of d inputs >>= divide def total) ≡ inr x
unfolding denominator_of
divided_value def undivided inputs total x h = ap inr (sym h)
divided_value def (metric key label) inputs total x (d, there, positive, f, e) =
    rw (there, denominator_of, positive, f) (ap inr (sym e))
divided_value def (duration label) inputs total x (s, there, positive, f, e) =
    rw (there, denominator_of, positive, f) (ap inr (sym e))

numerator_value :
    (unit : MetricUnit) (xs : List Number)
    → is_finite (sum_from (of_nat 0) xs) ≡ true
    → (same_unit unit MetricUnit.ratio || is_safe_whole (sum_from (of_nat 0) xs)) ≡ true
    → numerator_of unit xs ≡ inr (sum_from (of_nat 0) xs)
unfolding numerator_of
numerator_value unit xs f s = ground arith

Meaning-value :
    (def : Definition) (inputs : InputSet) (x : Number)
    → Meaning def inputs x
    → value_of def inputs ≡ inr x
unfolding value_of
Meaning-value def inputs x m =
    let c =
      collect-Present def.numerator_unit inputs.values def.numerator [] m.components m.all_there in
    let n = numerator_value def.numerator_unit m.components m.finite m.exact in
    let d = divided_value def def.denominator inputs _ x m.divided in rw (c, n) d

calculated :
    (m : DerivedMetric) (inputs : InputSet) (x : Number)
    → (calculate_derived_metric m inputs).value ≡ some x
    → value_of (definition_of m) inputs ≡ inr x
unfolding calculate_derived_metric
calculated m inputs x e = elim (Sum-cases (value_of (definition_of m) inputs)) [
  | inl (r, q) ↦ let k = (rw (q, calculate_derived_metric) at e) in cc k
  | inr (y, q) ↦ let k = (rw (q, calculate_derived_metric) at e) in cc (q, k)
]

-- A derived metric has a value just where all the components of its numerator are insights in its unit,
-- their sum is exact, and its denominator is there and positive; the value is then the sum, or the
-- quotient, cut at 1 where the formula cuts.
pub value_iff :
    (m : DerivedMetric) (inputs : InputSet) (x : Number)
    → ((calculate_derived_metric m inputs).value ≡ some x) ↔ Meaning (definition_of m) inputs x
unfolding calculate_derived_metric
value_iff m inputs x = (
  λ e. value-Meaning (definition_of m) inputs x (calculated m inputs x e),
  λ h. rw (Meaning-value (definition_of m) inputs x h, calculate_derived_metric) refl,
)
