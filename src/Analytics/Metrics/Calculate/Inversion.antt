-- ===== src/Analytics/Metrics/Calculate/Inversion.antt =====
-- What a derived metric with a value went through.
use content_automation.Base.{
  String, Bool, true, ◌||◌, Option, none, some, List, [], ◌∷◌, ◌≡◌, ◌≢◌, refl, sym, ap, ◌∙◌, ◌⊎◌,
  inl, inr, arith,
}
use content_automation.Base.Tests.{Bool-cases, Option-cases}
use content_automation.Domain.Number.{Number, is_finite}
use content_automation.Domain.Number.Arithmetic.{
  of_nat, is_positive, is_safe_whole, times, quotient, sum_from,
}
use content_automation.Instagram.Insights.{MetricUnit}
use content_automation.Analytics.Quantities.{
  Unavailability, insight, InputKey, InputState, present, absent, InputSet, Denominator, undivided,
  metric, duration, Definition,
}
use content_automation.Analytics.Metrics.Calculate.{
  Refusal, clamp, divide, ◌>>=◌, same_unit, all_present, numerator_of, denominator_of,
}
use content_automation.Analytics.Metrics.Calculate.Components.{Present, unit_same, State-cases}

abbrev pub DividedBy : Bool → Denominator → InputSet → Number → Number → Type 0
DividedBy bounded undivided inputs total x = x ≡ total
DividedBy bounded (metric key label) inputs total x =
    (d : Number) × (inputs.values key ≡ present insight MetricUnit.count d)
    × (is_positive d ≡ true)
    × (is_finite (quotient total d) ≡ true)
    × (x ≡ clamp bounded (quotient total d))
DividedBy bounded (duration label) inputs total x =
    (s : Number) × (inputs.duration.seconds ≡ some s)
    × (is_positive s ≡ true)
    × (is_finite (quotient total (times s (of_nat 1_000))) ≡ true)
    × (x ≡ clamp bounded (quotient total (times s (of_nat 1_000))))

-- What the value of a formula is: all components are there, their sum is exact, and the denominator is
-- there and positive.
pub record Meaning (def : Definition) (inputs : InputSet) (x : Number) : Type 0 where
  pub components : List Number
  pub all_there : Present def.numerator_unit inputs.values def.numerator components
  pub finite : is_finite (sum_from (of_nat 0) components) ≡ true
  pub exact :
      (same_unit def.numerator_unit MetricUnit.ratio
        || is_safe_whole (sum_from (of_nat 0) components))
      ≡ true
  pub divided : DividedBy def.bounded def.denominator inputs (sum_from (of_nat 0) components) x

pub numerator_inv :
    (unit : MetricUnit) (xs : List Number) (total : Number)
    → numerator_of unit xs ≡ inr total
    → (sum_from (of_nat 0) xs ≡ total)
      × (is_finite (sum_from (of_nat 0) xs) ≡ true)
      × ((same_unit unit MetricUnit.ratio || is_safe_whole (sum_from (of_nat 0) xs)) ≡ true)
unfolding numerator_of
numerator_inv unit xs total e = ground arith

absent_stops :
    (key : InputKey) (label : String) (inputs : InputSet) (o : Option Number) (r : Unavailability)
    → inputs.values key ≡ absent r
    → denominator_of (metric key label) inputs ≢ inr o
unfolding denominator_of
absent_stops key label inputs o Unavailability.component_unavailable q e =
    let k = (rw (q, denominator_of) at e) in cc k
absent_stops key label inputs o Unavailability.denominator_unavailable q e =
    let k = (rw (q, denominator_of) at e) in cc k
absent_stops key label inputs o Unavailability.denominator_not_positive q e =
    let k = (rw (q, denominator_of) at e) in cc k
absent_stops key label inputs o Unavailability.duration_unavailable q e =
    let k = (rw (q, denominator_of) at e) in cc k
absent_stops key label inputs o Unavailability.duration_not_positive q e =
    let k = (rw (q, denominator_of) at e) in cc k
absent_stops key label inputs o Unavailability.incompatible_source q e =
    let k = (rw (q, denominator_of) at e) in cc k
absent_stops key label inputs o Unavailability.incompatible_unit q e =
    let k = (rw (q, denominator_of) at e) in cc k
absent_stops key label inputs o Unavailability.value_rejected q e =
    let k = (rw (q, denominator_of) at e) in cc k
absent_stops key label inputs o Unavailability.not_representable q e =
    let k = (rw (q, denominator_of) at e) in cc k

metric_inv :
    (key : InputKey) (label : String) (inputs : InputSet) (o : Option Number)
    → denominator_of (metric key label) inputs ≡ inr o
    → (d : Number) × (o ≡ some d)
      × (inputs.values key ≡ present insight MetricUnit.count d)
      × (is_positive d ≡ true)
unfolding denominator_of
metric_inv key label inputs o e = elim (State-cases (inputs.values key)) [
  | inl (r, q) ↦ absurd (absent_stops key label inputs o r q e)
  | inr (inl (u, d, q)) ↦ let k = (rw (q, denominator_of) at e) in cc k
  | inr (inr (u, d, q)) ↦ elim (Bool-cases (same_unit u MetricUnit.count)) [
    | inr t ↦ let k = (rw (q, t, denominator_of) at e) in cc k
    | inl t ↦ elim (Bool-cases (is_positive d)) [
      | inr p ↦ let k = (rw (q, t, p, denominator_of) at e) in cc k
      | inl p ↦
          let k = (rw (q, t, p, denominator_of) at e) in
          (d, cc k, q ∙ ap (λ v. present insight v d) (unit_same u MetricUnit.count t), p)
    ]
  ]
]

duration_inv :
    (label : String) (inputs : InputSet) (o : Option Number)
    → denominator_of (duration label) inputs ≡ inr o
    → (s : Number) × (o ≡ some (times s (of_nat 1_000)))
      × (inputs.duration.seconds ≡ some s)
      × (is_positive s ≡ true)
unfolding denominator_of
duration_inv label inputs o e = elim (Option-cases inputs.duration.seconds) [
  | inl q ↦ let k = (rw (q, denominator_of) at e) in cc k
  | inr (s, q) ↦ elim (Bool-cases (is_positive s)) [
    | inr p ↦ let k = (rw (q, p, denominator_of) at e) in cc k
    | inl p ↦ let k = (rw (q, p, denominator_of) at e) in (s, cc k, q, p)
  ]
]

quotient_inv :
    (def : Definition) (total d x : Number)
    → divide def total (some d) ≡ inr x
    → (is_finite (quotient total d) ≡ true) × (x ≡ clamp def.bounded (quotient total d))
quotient_inv def total d x e = elim (Bool-cases (is_finite (quotient total d))) [
  | inr f ↦ let k = (rw f at e) in cc k
  | inl f ↦ let k = (rw f at e) in (f, cc k)
]

pub divide_inv :
    (def : Definition) (d : Denominator) (inputs : InputSet) (total x : Number) (o : Option Number)
    → denominator_of d inputs ≡ inr o
    → divide def total o ≡ inr x
    → DividedBy def.bounded d inputs total x
unfolding denominator_of
divide_inv def undivided inputs total x none h e = cc e
divide_inv def undivided inputs total x (some y) h e = cc h
divide_inv def (metric key label) inputs total x o h e =
    let m = metric_inv key label inputs o h in
    let q = quotient_inv def total m.0 x (ap (divide def total) (sym m.1) ∙ e) in
    (m.0, m.2, m.3, q.0, q.1)
divide_inv def (duration label) inputs total x o h e =
    let m = duration_inv label inputs o h in
    let q =
      quotient_inv def total (times m.0 (of_nat 1_000)) x (ap (divide def total) (sym m.1) ∙ e) in
    (m.0, m.2, m.3, q.0, q.1)

pub all_present_inv :
    (values : InputKey → InputState) (keys : List InputKey) (u : Unit {0})
    → all_present values keys ≡ inr u
    → keys ≡ []
all_present_inv values [] u e = refl
all_present_inv values (key ∷ keys) u e = cc e

pub bind_inv :
    {A B : Type 0} (m : Refusal ⊎ A) (f : A → Refusal ⊎ B) (b : B)
    → (m >>= f) ≡ inr b
    → (a : A) × (m ≡ inr a) × (f a ≡ inr b)
bind_inv (inl r) f b e = cc e
bind_inv (inr a) f b e = (a, refl, e)
