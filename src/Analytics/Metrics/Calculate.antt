-- ===== src/Analytics/Metrics/Calculate.antt =====
-- calculateDerivedMetric of packages/domain/src/analytics-metrics.ts.
pub mod Components
pub mod Meaning
pub mod Clamp
pub mod Inversion
use content_automation.Base.{
  ℕ, suc, ◌+◌, ◌*◌, ◌/◌, String, Bool, true, false, not, ◌&&◌, ◌||◌, Option, none, some, List, [],
  ◌∷◌, ◌++◌, ◌⊎◌, inl, inr,
}
use content_automation.Base.Tests.{leb, ◌==◌, if_found, if◌then◌else◌}
use content_automation.Domain.Number.{Number, is_finite}
use content_automation.Domain.Number.Arithmetic.{
  of_nat, is_positive, is_safe_whole, times, quotient, sum_from, le_number,
}
use content_automation.Instagram.Insights.{MetricUnit}
use content_automation.Analytics.Metrics.{definition_of}
use content_automation.Analytics.Quantities.{
  DerivedMetric, DerivedUnit, ValueSource, insight, metadata, DurationSource, Unavailability,
  component_unavailable, denominator_unavailable, denominator_not_positive, duration_unavailable,
  duration_not_positive, incompatible_source, incompatible_unit, not_representable, InputKey,
  InputState, present, absent, Limitation, Duration, InputSet, Denominator, undivided, metric,
  duration, Definition, derived_metrics,
}

-- DerivedMetricResult; the version is a constant
pub record DerivedResult : Type 0 where
  pub denominator : Option String
  pub duration_source : Option DurationSource
  pub formula : String
  pub limitations : List Limitation
  pub metric : DerivedMetric
  pub missing : List InputKey
  pub reason : Option Unavailability
  pub snapshot_id : String
  pub unit : DerivedUnit
  pub value : Option Number

-- Why there is no value, with the keys that are missing.
pub record Refusal : Type 0 where
  pub reason : Unavailability
  pub missing : List InputKey

abbrev pub label_of : Denominator → Option String
label_of undivided = none
label_of (metric key label) = some label
label_of (duration label) = some label

abbrev pub duration_source_of : Denominator → Duration → Option DurationSource
duration_source_of (duration label) d = d.source
duration_source_of _ d = none

abbrev pub duration_limitations : Denominator → Duration → List Limitation
duration_limitations (duration label) d = d.limitations
duration_limitations _ d = []

abbrev pub unavailable : Definition → InputSet → Refusal → DerivedResult
unavailable def inputs r = record {
  denominator = label_of def.denominator;
  duration_source = duration_source_of def.denominator inputs.duration;
  formula = def.formula;
  limitations = def.limitations;
  metric = def.metric;
  missing = r.missing;
  reason = some r.reason;
  snapshot_id = inputs.snapshot_id;
  unit = def.unit;
  value = none;
}

abbrev pub available : Definition → InputSet → Number → DerivedResult
available def inputs x = record {
  denominator = label_of def.denominator;
  duration_source = duration_source_of def.denominator inputs.duration;
  formula = def.formula;
  limitations = def.limitations ++ duration_limitations def.denominator inputs.duration;
  metric = def.metric;
  missing = [];
  reason = none;
  snapshot_id = inputs.snapshot_id;
  unit = def.unit;
  value = some x;
}

abbrev pub same_unit : MetricUnit → MetricUnit → Bool
same_unit MetricUnit.count MetricUnit.count = true
same_unit MetricUnit.milliseconds MetricUnit.milliseconds = true
same_unit MetricUnit.ratio MetricUnit.ratio = true
same_unit _ _ = false

abbrev pub refuse : {A : Type 0} → Unavailability → List InputKey → Refusal ⊎ A
refuse reason keys = inl (record { reason = reason; missing = keys })

-- The loop over the numerator: `missing` and `components`.
unfoldable pub collect :
    MetricUnit
    → (InputKey → InputState)
    → List InputKey
    → List InputKey
    → List Number
    → Refusal ⊎ (List InputKey × List Number)
collect unit values [] missing components = inr (missing, components)
collect unit values (key ∷ keys) missing components = elim (values key) [
  | absent reason ↦ collect unit values keys (missing ++ key ∷ []) components
  | present source u x ↦ elim source [
    | metadata ↦ refuse incompatible_source (key ∷ [])
    | insight ↦ elim (same_unit u unit) [
      | true ↦ collect unit values keys missing (components ++ x ∷ [])
      | false ↦ refuse incompatible_unit (key ∷ [])
    ]
  ]
]

-- The reason of the first missing input whose reason is another, or component_unavailable
unfoldable pub missing_reason : (InputKey → InputState) → List InputKey → Unavailability
missing_reason values [] = component_unavailable
missing_reason values (key ∷ keys) = elim (values key) [
  | absent component_unavailable ↦ missing_reason values keys
  | absent reason ↦ reason
  | present s u x ↦ missing_reason values keys
]

unfoldable pub numerator_of : MetricUnit → List Number → Refusal ⊎ Number
numerator_of unit components =
    let total = sum_from (of_nat 0) components in
    if not (is_finite total) || not (same_unit unit MetricUnit.ratio) && not (is_safe_whole total)
    then refuse not_representable []
    else inr total

-- The denominator as a number, and the reason where it is not positive.
unfoldable pub denominator_of : Denominator → InputSet → Refusal ⊎ Option Number
denominator_of undivided inputs = inr none
denominator_of (duration label) inputs =
    if_found inputs.duration.seconds
      (refuse (if inputs.duration.rejected then duration_not_positive else duration_unavailable) [])
      λ seconds.
        if is_positive seconds
        then inr (some (times seconds (of_nat 1_000)))
        else refuse duration_not_positive []
denominator_of (metric key label) inputs = elim (inputs.values key) [
  | absent component_unavailable ↦ refuse denominator_unavailable (key ∷ [])
  | absent reason ↦ refuse reason (key ∷ [])
  | present source u x ↦ elim source [
    | metadata ↦ refuse incompatible_source (key ∷ [])
    | insight ↦
        if not (same_unit u MetricUnit.count)
        then refuse incompatible_unit (key ∷ [])
        else if is_positive x
        then inr (some x)
        else refuse denominator_not_positive []
  ]
]

-- definition.bounded ? Math.min(1, ratio) : ratio
abbrev pub clamp : Bool → Number → Number
clamp true x = if le_number (of_nat 1) x then of_nat 1 else x
clamp false x = x

abbrev pub divide : Definition → Number → Option Number → Refusal ⊎ Number
divide def total none = inr total
divide def total (some d) =
    let r = quotient total d in
    if is_finite r then inr (clamp def.bounded r) else refuse not_representable []

infixl 5 ◌>>=◌
abbrev pub ◌>>=◌ : {A B : Type 0} → Refusal ⊎ A → (A → Refusal ⊎ B) → Refusal ⊎ B
inl r >>= f = inl r
inr a >>= f = f a

abbrev pub all_present : (InputKey → InputState) → List InputKey → Refusal ⊎ Unit {0}
all_present values [] = inr tt
all_present values (key ∷ keys) = refuse (missing_reason values (key ∷ keys)) (key ∷ keys)

unfoldable pub value_of : Definition → InputSet → Refusal ⊎ Number
value_of def inputs = do
  collected ← collect def.numerator_unit inputs.values def.numerator [] []
  present_all ← all_present inputs.values collected.0
  total ← numerator_of def.numerator_unit collected.1
  d ← denominator_of def.denominator inputs
  divide def total d

unfoldable pub calculate_derived_metric : DerivedMetric → InputSet → DerivedResult
calculate_derived_metric m inputs = elim (value_of (definition_of m) inputs) [
  | inl r ↦ unavailable (definition_of m) inputs r
  | inr x ↦ available (definition_of m) inputs x
]
