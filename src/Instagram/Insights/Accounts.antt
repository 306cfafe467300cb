-- ===== src/Instagram/Insights/Accounts.antt =====
-- A group's response is accounted for: one observation for each metric that was asked for.
use content_automation.Base.{
  ℕ, true, false, none, some, List, [], ◌∷◌, ◌++◌, ◌≡◌, ◌≢◌, refl, sym, ◌∙◌, ◌⊎◌, inl, inr, arith,
}
use content_automation.Base.Tests.{if_found, Bool-cases, Option-cases}
use content_automation.Base.Rows.{find_first, All}
use content_automation.Base.Json.{Json, Items, Fields, no_items, item, as_record, as_items, get}
use content_automation.Domain.Number.{Number, is_finite}
use content_automation.Domain.Number.Arithmetic.{is_negative}
use content_automation.Instagram.Insights.{
  CanonicalMetric, same_metric, available, MetricUnit, MetricDefinition, InsightGroup, Observation,
  Rejection, Normalisation, accepted, rejected, ceiling, exceeds, accept_value, definition_of,
  read_string, read_number, normalise_insight_item, Read, set_metric, record_item, read_items,
  observed, read_data, read_insight_group,
}
use mathlib.Core.List.{map, append_assoc, append-nil}

-- A measurement: a number from zero to a ceiling.
pub record Measured (limit : ℕ) (x : Number) : Type 0 where
  pub finite : is_finite x ≡ true
  pub not_negative : is_negative x ≡ false
  pub within : exceeds x limit ≡ false

-- The observation has a measurement where it says so, and none where it does not.
abbrev pub IsHonest : Observation → Type 0
IsHonest o =
    ((o.availability ≡ available)
      × ((u : MetricUnit) × (x : Number) × (o.unit ≡ some u)
          × (o.value ≡ some x)
          × Measured (ceiling u) x))
    ⊎ ((o.availability ≢ available) × (o.value ≡ none))

abbrev HonestItem : Normalisation → Type 0
HonestItem (accepted o) = IsHonest o
HonestItem (rejected name reason) = Unit

accept_value-Honest :
    (fs : Fields) (d : MetricDefinition) (raw : Number) → HonestItem (accept_value fs d raw)
unfolding accept_value
accept_value-Honest fs d raw = elim (Bool-cases (is_finite raw)) [
  | inr f ↦ rw f tt
  | inl f ↦ elim (Bool-cases (is_negative raw)) [
    | inl n ↦ rw (f, n) tt
    | inr n ↦ elim (Bool-cases (exceeds raw (ceiling d.unit))) [
      | inl e ↦ rw (f, n, e) tt
      | inr e ↦
          rw (f, n, e)
            (inl (
              refl,
              (d.unit, raw, refl, refl, record { finite = f; not_negative = n; within = e }),
            ))
    ]
  ]
]

normalise-Honest :
    (x : Json) (ds : List MetricDefinition) → HonestItem (normalise_insight_item x ds)
unfolding normalise_insight_item
normalise-Honest x ds = elim (Option-cases (as_record (some x))) [
  | inl e ↦ rw e tt
  | inr (object_fields, e) ↦
      elim (Option-cases (definition_of (read_string object_fields "name") ds)) [
        | inl f ↦ rw (e, f) tt
        | inr (d, f) ↦ elim (Option-cases (read_number object_fields)) [
          | inl g ↦ rw (e, f, g) (inr (ground arith, refl))
          | inr (raw, g) ↦ rw (e, f, g) (accept_value-Honest object_fields d raw)
        ]
      ]
]

set_metric-Honest :
    (o : Observation) (os : List Observation)
    → IsHonest o
    → All IsHonest os
    → All IsHonest (set_metric o os)
unfolding set_metric
set_metric-Honest o [] h k = (h, tt)
set_metric-Honest o (p ∷ ps) h k = elim (Bool-cases (same_metric p.canonical o.canonical)) [
  | inl t ↦ rw t (h, k.1)
  | inr t ↦ rw t (k.0, set_metric-Honest o ps h k.1)
]

record_item-Honest :
    (n : Normalisation) (r : Read)
    → HonestItem n
    → All IsHonest r.by_metric
    → All IsHonest (record_item n r).by_metric
record_item-Honest (accepted o) r h k = set_metric-Honest o r.by_metric h k
record_item-Honest (rejected name reason) r h k = k

read_items-Honest :
    (ds : List MetricDefinition) (xs : Items) (r : Read)
    → All IsHonest r.by_metric
    → All IsHonest (read_items ds xs r).by_metric
unfolding read_items
read_items-Honest ds no_items r h = h
read_items-Honest ds (item x xs) r h =
    read_items-Honest ds xs (record_item (normalise_insight_item x ds) r)
      (record_item-Honest (normalise_insight_item x ds) r (normalise-Honest x ds) h)

metric_of_index : (a b : CanonicalMetric) → same_metric a b ≡ true → a ≡ b
metric_of_index CanonicalMetric.views b h = ground arith
metric_of_index CanonicalMetric.plays b h = ground arith
metric_of_index CanonicalMetric.reach b h = ground arith
metric_of_index CanonicalMetric.likes b h = ground arith
metric_of_index CanonicalMetric.comments b h = ground arith
metric_of_index CanonicalMetric.shares b h = ground arith
metric_of_index CanonicalMetric.saves b h = ground arith
metric_of_index CanonicalMetric.total_interactions b h = ground arith
metric_of_index CanonicalMetric.total_watch_time_ms b h = ground arith
metric_of_index CanonicalMetric.average_watch_time_ms b h = ground arith
metric_of_index CanonicalMetric.skip_rate b h = ground arith
metric_of_index CanonicalMetric.follows b h = ground arith
metric_of_index CanonicalMetric.profile_visits b h = ground arith
metric_of_index CanonicalMetric.profile_activity b h = ground arith

found_observation :
    (os : List Observation) (m : CanonicalMetric) (o : Observation)
    → All IsHonest os
    → find_first (λ (p : Observation). same_metric p.canonical m) os ≡ some o
    → IsHonest o × (o.canonical ≡ m)
unfolding find_first
found_observation [] m o h e = absurd (ground arith)
found_observation (p ∷ ps) m o h e = elim (Bool-cases (same_metric p.canonical m)) [
  | inl t ↦ let same : p ≡ o = ground arith in rw (← same) (h.0, metric_of_index p.canonical m t)
  | inr t ↦ found_observation ps m o h.1 (ground arith)
]

observed-Honest :
    (os : List Observation) (d : MetricDefinition)
    → All IsHonest os
    → IsHonest (observed os d) × ((observed os d).canonical ≡ d.canonical)
observed-Honest os d h =
    elim (Option-cases (find_first (λ (o : Observation). same_metric o.canonical d.canonical) os)) [
      | inl e ↦ rw e (inr (ground arith, refl), refl)
      | inr (o, e) ↦ rw e (found_observation os d.canonical o h e)
    ]

abbrev pub canonicals : List Observation → List CanonicalMetric
canonicals os = map (λ (o : Observation). o.canonical) os

abbrev pub requested : List MetricDefinition → List CanonicalMetric
requested ds = map (λ (d : MetricDefinition). d.canonical) ds

map-observed :
    (os : List Observation) (ds : List MetricDefinition)
    → All IsHonest os
    → All IsHonest (map (observed os) ds) × (canonicals (map (observed os) ds) ≡ requested ds)
map-observed os [] h = (tt, refl)
map-observed os (d ∷ ds) h =
    let one = observed-Honest os d h in
    let rest = map-observed os ds h in ((one.0, rest.0), cc (one.1, rest.1))

-- The reasons of the items that are refused, in order.
unfoldable pub refusals : List MetricDefinition → Items → List Rejection
refusals ds no_items = []
refusals ds (item x xs) = elim (normalise_insight_item x ds) [
  | accepted o ↦ refusals ds xs
  | rejected name reason ↦ reason ∷ refusals ds xs
]

record_item-rejections :
    (n : Normalisation) (r : Read) (rest : List Rejection)
    → (record_item n r).rejections ++ rest
      ≡ r.rejections ++ (elim n [ accepted o ↦ rest | rejected name reason ↦ reason ∷ rest ])
record_item-rejections (accepted o) r rest = refl
record_item-rejections (rejected name reason) r rest = append_assoc r.rejections (reason ∷ []) rest

read_items-rejections :
    (ds : List MetricDefinition) (xs : Items) (r : Read)
    → (read_items ds xs r).rejections ≡ r.rejections ++ refusals ds xs
unfolding read_items refusals
read_items-rejections ds no_items r = sym (append-nil r.rejections)
read_items-rejections ds (item x xs) r =
    read_items-rejections ds xs (record_item (normalise_insight_item x ds) r)
    ∙ record_item-rejections (normalise_insight_item x ds) r (refusals ds xs)

abbrev pub data_of : Json → Items
data_of body = if_found (as_record (some body)) no_items λ fields. as_items (get "data" fields)

-- A response of whatever shape gives one observation for each metric of the group, in order; each has a
-- value just where it is available, finite, not negative and within the limit of its unit; and the
-- rejections are those of the items that are refused, in order.
pub read_group-Accounts :
    (body : Json) (group : InsightGroup)
    → (canonicals (read_insight_group body group).0 ≡ requested group.metrics)
      × All IsHonest (read_insight_group body group).0
      × ((read_insight_group body group).1 ≡ refusals group.metrics (data_of body))
unfolding read_insight_group
read_group-Accounts body group =
    let start : Read = record { by_metric = []; rejections = [] } in
    let honest = read_items-Honest group.metrics (data_of body) start tt in
    let all = map-observed (read_data body group).by_metric group.metrics honest in
    (all.1, all.0, read_items-rejections group.metrics (data_of body) start)
