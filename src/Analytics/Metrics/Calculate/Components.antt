-- ===== src/Analytics/Metrics/Calculate/Components.antt =====
-- What the loop over the numerator collects.
use mathlib.Core.List.{append_assoc, append-nil}
use content_automation.Base.{
  true, List, [], ◌∷◌, ◌++◌, ◌≡◌, ◌≢◌, refl, ap, ◌∙◌, ◌⊎◌, inl, inr, arith,
}
use content_automation.Base.Tests.{Bool-cases}
use content_automation.Domain.Number.{Number}
use content_automation.Instagram.Insights.{MetricUnit}
use content_automation.Analytics.Quantities.{
  Unavailability, insight, metadata, InputKey, InputState, present, absent,
}
use content_automation.Analytics.Metrics.Calculate.{same_unit, collect}

-- Every key of the list has a number of the unit from an insight.
abbrev pub Present : MetricUnit → (InputKey → InputState) → List InputKey → List Number → Type 0
Present unit values [] [] = Unit
Present unit values (key ∷ keys) (x ∷ xs) =
    (values key ≡ present insight unit x) × Present unit values keys xs
Present unit values _ _ = ⊥

pub unit_same : (u v : MetricUnit) → same_unit u v ≡ true → u ≡ v
unit_same MetricUnit.count v h = ground arith
unit_same MetricUnit.milliseconds v h = ground arith
unit_same MetricUnit.ratio v h = ground arith

same_self : (u : MetricUnit) → same_unit u u ≡ true
same_self MetricUnit.count = refl
same_self MetricUnit.milliseconds = refl
same_self MetricUnit.ratio = refl

abbrev pub Held :
    MetricUnit
    → (InputKey → InputState)
    → List InputKey
    → List InputKey
    → List Number
    → List Number
    → Type 0
Held unit values keys missing before out =
    (missing ≡ []) × ((xs : List Number) × (out ≡ before ++ xs) × Present unit values keys xs)

append-ne-nil : (keys : List InputKey) (key : InputKey) → keys ++ key ∷ [] ≢ []
append-ne-nil [] key e = ground arith
append-ne-nil (k ∷ keys) key e = ground arith

pub State-cases :
    (s : InputState)
    → ((r : Unavailability) × (s ≡ absent r))
      ⊎ (((u : MetricUnit) × (x : Number) × (s ≡ present metadata u x))
          ⊎ ((u : MetricUnit) × (x : Number) × (s ≡ present insight u x)))
State-cases (absent r) = inl (r, refl)
State-cases (present metadata u x) = inr (inl (u, x, refl))
State-cases (present insight u x) = inr (inr (u, x, refl))

pub collect-Held :
    (unit : MetricUnit) (values : InputKey → InputState) (keys missing : List InputKey)
    (before out : List Number)
    → collect unit values keys missing before ≡ inr ([], out)
    → Held unit values keys missing before out
unfolding collect
collect-Held unit values [] missing before out e =
    (ground arith, ([], ground (arith, append-nil before), tt))
collect-Held unit values (key ∷ keys) missing before out e = elim (State-cases (values key)) [
  | inl (r, q) ↦
      let k =
        collect-Held unit values keys (missing ++ key ∷ []) before out (rw (q, collect) at e) in
      absurd (append-ne-nil missing key k.0)
  | inr (inl (u, x, q)) ↦ let k = (rw (q, collect) at e) in cc k
  | inr (inr (u, x, q)) ↦ elim (Bool-cases (same_unit u unit)) [
    | inl t ↦
        let k =
          collect-Held unit values keys missing (before ++ x ∷ []) out (rw (q, t, collect) at e) in
        (
          k.0,
          (
            x ∷ k.1.0,
            k.1.1 ∙ append_assoc before (x ∷ []) k.1.0,
            (q ∙ ap (λ v. present insight v x) (unit_same u unit t), k.1.2),
          ),
        )
    | inr t ↦ let k = (rw (q, t, collect) at e) in cc k
  ]
]

pub collect-Present :
    (unit : MetricUnit) (values : InputKey → InputState) (keys : List InputKey)
    (before xs : List Number)
    → Present unit values keys xs
    → collect unit values keys [] before ≡ inr ([], before ++ xs)
unfolding collect
collect-Present unit values [] before [] h = rw (append-nil before) refl
collect-Present unit values [] before (x ∷ xs) h = absurd h
collect-Present unit values (key ∷ keys) before [] h = absurd h
collect-Present unit values (key ∷ keys) before (x ∷ xs) h =
    rw (h.0, collect, same_self unit)
      (collect-Present unit values keys (before ++ x ∷ []) xs h.1
        ∙ ap (λ l. inr ([], l)) (append_assoc before (x ∷ []) xs))
