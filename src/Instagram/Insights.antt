-- ===== src/Instagram/Insights.antt =====
-- Metrics of a post, as packages/domain/src/instagram-insights.ts asks for them and reads them.
pub mod Accounts
use content_automation.Base.{
  ℕ, suc, ◌*◌, String, Bool, true, false, not, ◌&&◌, ◌||◌, Option, none, some, List, [], ◌∷◌, ◌++◌,
}
use content_automation.Base.Tests.{
  leb, ◌==◌, if_found, if◌then◌else◌, is_some, get_or, max_safe_integer,
}
use content_automation.Base.Rows.{find_first}
use content_automation.Base.Text.{trim}
use content_automation.Base.Order.{filter_by}
use content_automation.Base.Json.{
  Json, Items, Fields, no_items, item, object, get, as_record, as_items, as_number, as_string,
  prefix,
}
use content_automation.Domain.Number.{Number, nan, infinite, fraction, negative, is_finite}
use content_automation.Domain.Number.Arithmetic.{is_negative}
pub use content_automation.Instagram.Catalogue.{
  CanonicalMetric, views, plays, reach, likes, comments, shares, saves, total_interactions,
  total_watch_time_ms, average_watch_time_ms, skip_rate, follows, profile_visits, profile_activity,
  canonical_metrics, metric_index, same_metric, Availability, available, unavailable,
  not_applicable, permission_missing, provider_error, not_requested, MetricUnit, count,
  milliseconds, ratio, MetricDefinition, InsightGroup, reel_groups, Observation, bare, defined,
  Rejection, item_not_object, metric_unknown, value_not_finite, value_negative, value_out_of_range,
  ResponseClass, authorisation, invalid_request, rate_limit, transient, unsupported,
}
use mathlib.Core.List.{map}
use text.Mathlib.Text.{◌==◌ as str_eq}

-- instagramUnrequestedObservations
unfoldable pub unrequested_observations : List CanonicalMetric → Availability → List Observation
unrequested_observations requested reason =
    map (λ m. bare m reason)
      (filter_by (λ m. not (is_some (find_first (same_metric m) requested))) canonical_metrics)

-- InstagramInsightNormalisation
pub data Normalisation : Type 0 where
  accepted : Observation → Normalisation
  rejected : Option String → Rejection → Normalisation

-- maximumRatio, maximumMilliseconds and maximumCount
abbrev pub ceiling : MetricUnit → ℕ
ceiling ratio = 1
ceiling milliseconds = 315_360_000_000
ceiling count = max_safe_integer

-- x > ceiling, for a finite number
abbrev pub exceeds : Number → ℕ → Bool
exceeds (fraction n d) m = not (leb n (m * suc d))
exceeds _ m = false

-- for (const entry of values) if (isRecord(entry) && typeof entry.value === "number") …
unfoldable pub first_value : Items → Option Number
first_value no_items = none
first_value (item x xs) =
    if_found (as_record (some x)) (first_value xs)
      λ entry. if_found (as_number (get "value" entry)) (first_value xs) some

unfoldable pub read_number : Fields → Option Number
read_number fields =
    let listed = first_value (as_items (get "values" fields)) in
    if_found (as_record (get "total_value" fields)) listed
      λ total. if_found (as_number (get "value" total)) listed some

unfoldable pub read_string : Fields → String → Option String
read_string fields key =
    if_found (as_string (get key fields)) none
      λ s. if str_eq (trim s) "" then none else some (prefix 512 (trim s))

-- definitions.find((entry) => entry.provider === providerName)
abbrev pub definition_of : Option String → List MetricDefinition → Option MetricDefinition
definition_of name definitions =
    if_found name none λ n. find_first (λ (d : MetricDefinition). str_eq d.provider n) definitions

abbrev pub shared : Fields → MetricDefinition → Availability → Option Number → Observation
shared fields d availability value = record {
  availability = availability;
  canonical = d.canonical;
  description = read_string fields "description";
  period = read_string fields "period";
  provider_name = some d.provider;
  provider_unit = some d.provider_unit;
  title = read_string fields "title";
  unit = some d.unit;
  value = value;
}

unfoldable pub accept_value : Fields → MetricDefinition → Number → Normalisation
accept_value fields d raw =
    let name = read_string fields "name" in
    if not (is_finite raw)
    then rejected name value_not_finite
    else if is_negative raw
    then rejected name value_negative
    else if exceeds raw (ceiling d.unit)
    then rejected name value_out_of_range
    else accepted (shared fields d available (some raw))

unfoldable pub normalise_insight_item : Json → List MetricDefinition → Normalisation
normalise_insight_item x definitions =
    if_found (as_record (some x)) (rejected none item_not_object) λ fields.
      let name = read_string fields "name" in
      if_found (definition_of name definitions) (rejected name metric_unknown) λ d.
        if_found (read_number fields) (accepted (shared fields d unavailable none))
          (accept_value fields d)

-- byMetric and rejections
pub record Read : Type 0 where
  pub by_metric : List Observation
  pub rejections : List Rejection

-- byMetric.set(observation.canonical, observation)
unfoldable pub set_metric : Observation → List Observation → List Observation
set_metric o [] = o ∷ []
set_metric o (p ∷ ps) = if same_metric p.canonical o.canonical then o ∷ ps else p ∷ set_metric o ps

abbrev pub record_item : Normalisation → Read → Read
record_item (accepted o) r = record r { by_metric = set_metric o r.by_metric }
record_item (rejected name reason) r = record r { rejections = r.rejections ++ reason ∷ [] }

unfoldable pub read_items : List MetricDefinition → Items → Read → Read
read_items definitions no_items r = r
read_items definitions (item x xs) r =
    read_items definitions xs (record_item (normalise_insight_item x definitions) r)

abbrev pub observed : List Observation → MetricDefinition → Observation
observed by_metric d =
    get_or (find_first (λ (o : Observation). same_metric o.canonical d.canonical) by_metric)
      (defined d unavailable)

abbrev pub read_data : Json → InsightGroup → Read
read_data body group =
    read_items group.metrics
      (if_found (as_record (some body)) no_items λ fields. as_items (get "data" fields))
      (record { by_metric = []; rejections = [] })

-- readInstagramInsightGroup: the observations, and the rejections
unfoldable pub read_insight_group : Json → InsightGroup → List Observation × List Rejection
read_insight_group body group =
    let r = read_data body group in (map (observed r.by_metric) group.metrics, r.rejections)

unfoldable pub group_failure_availability : ResponseClass → Availability
group_failure_availability authorisation = permission_missing
group_failure_availability unsupported = not_applicable
group_failure_availability _ = provider_error

unfoldable pub failed_group_observations : InsightGroup → Availability → List Observation
failed_group_observations group availability = map (λ d. defined d availability) group.metrics
