-- ===== src/Instagram/Catalogue.antt =====
-- The metrics of a post and the groups in which packages/domain/src/instagram-insights.ts asks for them.
use content_automation.Base.{ℕ, String, Bool, Option, none, some, List, [], ◌∷◌}
use content_automation.Base.Tests.{◌==◌}
use content_automation.Domain.Number.{Number}

-- instagramCanonicalMetrics
pub data CanonicalMetric : Type 0 where
  views plays reach likes comments shares saves total_interactions : CanonicalMetric
  total_watch_time_ms average_watch_time_ms skip_rate : CanonicalMetric
  follows profile_visits profile_activity : CanonicalMetric

abbrev pub canonical_metrics : List CanonicalMetric
canonical_metrics =
    views ∷ plays ∷ reach ∷ likes ∷ comments ∷ shares ∷ saves ∷ total_interactions
    ∷ total_watch_time_ms ∷ average_watch_time_ms ∷ skip_rate ∷ follows ∷ profile_visits
    ∷ profile_activity ∷ []

-- The place of a metric in instagramCanonicalMetrics
abbrev pub metric_index : CanonicalMetric → ℕ
metric_index views = 0
metric_index plays = 1
metric_index reach = 2
metric_index likes = 3
metric_index comments = 4
metric_index shares = 5
metric_index saves = 6
metric_index total_interactions = 7
metric_index total_watch_time_ms = 8
metric_index average_watch_time_ms = 9
metric_index skip_rate = 10
metric_index follows = 11
metric_index profile_visits = 12
metric_index profile_activity = 13

abbrev pub same_metric : CanonicalMetric → CanonicalMetric → Bool
same_metric a b = metric_index a == metric_index b

-- instagramMetricAvailabilityStates
pub data Availability : Type 0 where
  available unavailable not_applicable permission_missing provider_error not_requested :
      Availability

-- instagramMetricUnits
pub data MetricUnit : Type 0 where
  count milliseconds ratio : MetricUnit

pub record MetricDefinition : Type 0 where
  pub canonical : CanonicalMetric
  pub provider : String
  pub provider_unit : MetricUnit
  pub unit : MetricUnit

pub record InsightGroup : Type 0 where
  pub key : String
  pub metrics : List MetricDefinition

abbrev pub metric : CanonicalMetric → String → MetricUnit → MetricDefinition
metric canonical provider unit = record {
  canonical = canonical;
  provider = provider;
  provider_unit = unit;
  unit = unit;
}

-- reelGroupsV25
abbrev pub reel_groups : List InsightGroup
reel_groups =
    record {
      key = "distribution";
      metrics = metric views "views" count ∷ metric reach "reach" count ∷ [];
    }
    ∷ record {
      key = "engagement";
      metrics =
          metric likes "likes" count
          ∷ metric comments "comments" count
          ∷ metric shares "shares" count
          ∷ metric saves "saved" count
          ∷ metric total_interactions "total_interactions" count
          ∷ [];
    }
    ∷ record {
      key = "watch_time";
      metrics =
          metric total_watch_time_ms "ig_reels_video_view_total_time" milliseconds
          ∷ metric average_watch_time_ms "ig_reels_avg_watch_time" milliseconds
          ∷ [];
    }
    ∷ record { key = "retention"; metrics = metric skip_rate "reels_skip_rate" ratio ∷ [] }
    ∷ []

-- InstagramMetricObservation
pub record Observation : Type 0 where
  pub availability : Availability
  pub canonical : CanonicalMetric
  pub description : Option String
  pub period : Option String
  pub provider_name : Option String
  pub provider_unit : Option MetricUnit
  pub title : Option String
  pub unit : Option MetricUnit
  pub value : Option Number

-- observation(canonical, availability)
abbrev pub bare : CanonicalMetric → Availability → Observation
bare canonical availability = record {
  availability = availability;
  canonical = canonical;
  description = none;
  period = none;
  provider_name = none;
  provider_unit = none;
  title = none;
  unit = none;
  value = none;
}

-- observation(canonical, availability, { providerName, providerUnit, unit })
abbrev pub defined : MetricDefinition → Availability → Observation
defined d availability = record (bare d.canonical availability) {
  provider_name = some d.provider;
  provider_unit = some d.provider_unit;
  unit = some d.unit;
}

pub data Rejection : Type 0 where
  item_not_object metric_unknown value_not_finite value_negative value_out_of_range : Rejection

-- InstagramResponseClass
pub data ResponseClass : Type 0 where
  authorisation invalid_request rate_limit transient unsupported : ResponseClass
