-- ===== src/Analytics/Quantities.antt =====
-- The types of packages/domain/src/analytics-metrics.ts.
use content_automation.Base.{String, Bool, Option, List, [], ◌∷◌}
use content_automation.Domain.Number.{Number}
use content_automation.Instagram.Insights.{CanonicalMetric, MetricUnit}

-- derivedMetrics
pub data DerivedMetric : Type 0 where
  engagement_count engagement_rate_reach like_rate_reach comment_rate_reach : DerivedMetric
  share_rate_reach save_rate_reach profile_visit_rate_reach : DerivedMetric
  follow_conversion_rate follow_rate_reach : DerivedMetric
  average_watch_percentage completion_proxy : DerivedMetric

abbrev pub derived_metrics : List DerivedMetric
derived_metrics =
    engagement_count ∷ engagement_rate_reach ∷ like_rate_reach ∷ comment_rate_reach
    ∷ share_rate_reach ∷ save_rate_reach ∷ profile_visit_rate_reach ∷ follow_conversion_rate
    ∷ follow_rate_reach ∷ average_watch_percentage ∷ completion_proxy ∷ []

pub data DerivedUnit : Type 0 where
  count ratio : DerivedUnit

-- metricValueSources and metricDurationSources
pub data ValueSource : Type 0 where
  insight metadata : ValueSource

pub data DurationSource : Type 0 where
  validated_source_video provider_metadata : DurationSource

-- derivedMetricUnavailabilityReasons
pub data Unavailability : Type 0 where
  component_unavailable denominator_unavailable denominator_not_positive : Unavailability
  duration_unavailable duration_not_positive : Unavailability
  incompatible_source incompatible_unit value_rejected not_representable : Unavailability

-- metricInputKeys
pub data InputKey : Type 0 where
  likes comments shares saves reach follows profile_visits average_watch_time_ms : InputKey

abbrev pub canonical_of : InputKey → CanonicalMetric
canonical_of likes = CanonicalMetric.likes
canonical_of comments = CanonicalMetric.comments
canonical_of shares = CanonicalMetric.shares
canonical_of saves = CanonicalMetric.saves
canonical_of reach = CanonicalMetric.reach
canonical_of follows = CanonicalMetric.follows
canonical_of profile_visits = CanonicalMetric.profile_visits
canonical_of average_watch_time_ms = CanonicalMetric.average_watch_time_ms

-- MetricInputState
pub data InputState : Type 0 where
  present : ValueSource → MetricUnit → Number → InputState
  absent : Unavailability → InputState

-- The texts of the limitations; those that print numbers are kept as what they print.
pub data Limitation : Type 0 where
  note : String → Limitation
  validated_discarded : Number → Limitation
  provider_discarded : Number → Limitation
  durations_disagree : Number → Number → Number → Limitation

-- MetricDurationResolution
pub record Duration : Type 0 where
  pub seconds : Option Number
  pub source : Option DurationSource
  pub mismatch : Bool
  pub rejected : Bool
  pub limitations : List Limitation

-- MetricInputSet
pub record InputSet : Type 0 where
  pub duration : Duration
  pub snapshot_id : String
  pub values : InputKey → InputState

-- DerivedMetricDenominator
pub data Denominator : Type 0 where
  undivided : Denominator
  metric : InputKey → String → Denominator
  duration : String → Denominator

-- DerivedMetricDefinition
pub record Definition : Type 0 where
  pub bounded : Bool
  pub denominator : Denominator
  pub formula : String
  pub limitations : List Limitation
  pub metric : DerivedMetric
  pub numerator : List InputKey
  pub numerator_unit : MetricUnit
  pub unit : DerivedUnit
