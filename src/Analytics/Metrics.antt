-- ===== src/Analytics/Metrics.antt =====
-- Derived metrics of packages/domain/src/analytics-metrics.ts: the dictionary of formulas, and the
-- inputs that a snapshot offers.
pub mod Calculate
pub mod Durations
use content_automation.Base.{
  ℕ, suc, ◌+◌, ◌*◌, ◌/◌, String, Bool, true, false, not, ◌&&◌, ◌||◌, Option, none, some, List, [],
  ◌∷◌, ◌++◌,
}
use content_automation.Base.Tests.{leb, ◌==◌, if_found, if◌then◌else◌, is_some, get_or}
use content_automation.Base.Rows.{find_first}
use content_automation.Domain.Number.{Number, is_finite}
use content_automation.Domain.Number.Arithmetic.{is_negative, is_whole, is_safe_whole}
use content_automation.Instagram.Insights.{
  CanonicalMetric, same_metric, metric_index, canonical_metrics, MetricUnit, Availability,
  available, Observation,
}
use content_automation.Analytics.Quantities.{
  DerivedMetric, DerivedUnit, InputKey, canonical_of, InputState, Limitation, Duration, InputSet,
  Denominator, Definition, engagement_count, engagement_rate_reach, like_rate_reach,
  comment_rate_reach, share_rate_reach, save_rate_reach, profile_visit_rate_reach,
  follow_conversion_rate, follow_rate_reach, average_watch_percentage, completion_proxy, count,
  ratio, insight, component_unavailable, value_rejected, not_representable, likes, comments, shares,
  saves, reach, follows, profile_visits, average_watch_time_ms, present, absent, note, undivided,
  metric, duration,
}

abbrev engagement_components : List InputKey
engagement_components = likes ∷ comments ∷ shares ∷ saves ∷ []

abbrev watch_limitation : Limitation
watch_limitation =
    note
      "Average watch time is a provider-defined mean; replays and provider counting rules can push it above the video duration."

abbrev rate : DerivedMetric → List InputKey → String → List Limitation → Definition
rate m numerator formula limitations = record {
  bounded = false;
  denominator = Denominator.metric reach "reach";
  formula = formula;
  limitations = limitations;
  metric = m;
  numerator = numerator;
  numerator_unit = MetricUnit.count;
  unit = DerivedUnit.ratio;
}

-- derivedMetricDefinitions
unfoldable pub definition_of : DerivedMetric → Definition
definition_of engagement_count = record {
  bounded = false;
  denominator = undivided;
  formula = "likes + comments + shares + saves";
  limitations = [];
  metric = engagement_count;
  numerator = engagement_components;
  numerator_unit = MetricUnit.count;
  unit = DerivedUnit.count;
}
definition_of engagement_rate_reach =
    rate engagement_rate_reach engagement_components "(likes + comments + shares + saves) / reach"
      []
definition_of like_rate_reach = rate like_rate_reach (likes ∷ []) "likes / reach" []
definition_of comment_rate_reach = rate comment_rate_reach (comments ∷ []) "comments / reach" []
definition_of share_rate_reach = rate share_rate_reach (shares ∷ []) "shares / reach" []
definition_of save_rate_reach = rate save_rate_reach (saves ∷ []) "saves / reach" []
definition_of profile_visit_rate_reach =
    rate profile_visit_rate_reach (profile_visits ∷ []) "profile_visits / reach" (
      note
        "Valid only where the provider attributes profile visits to this media under a definition compatible with reach."
      ∷ [])
definition_of follow_conversion_rate = record {
  bounded = false;
  denominator = Denominator.metric profile_visits "profile_visits";
  formula = "follows / profile_visits";
  limitations = note "Conversion after a profile visit, not follows per account reached." ∷ [];
  metric = follow_conversion_rate;
  numerator = follows ∷ [];
  numerator_unit = MetricUnit.count;
  unit = DerivedUnit.ratio;
}
definition_of follow_rate_reach = rate follow_rate_reach (follows ∷ []) "follows / reach" []
definition_of average_watch_percentage = record {
  bounded = false;
  denominator = Denominator.duration "duration_seconds";
  formula = "(average_watch_time_ms / 1000) / duration_seconds";
  limitations = watch_limitation ∷ note "Stored unclamped; may exceed 1." ∷ [];
  metric = average_watch_percentage;
  numerator = average_watch_time_ms ∷ [];
  numerator_unit = MetricUnit.milliseconds;
  unit = DerivedUnit.ratio;
}
definition_of completion_proxy = record {
  bounded = true;
  denominator = Denominator.duration "duration_seconds";
  formula = "min(1, average_watch_time_ms / (duration_seconds * 1000))";
  limitations =
      watch_limitation
      ∷ note
          "A coarse bounded proxy, not a measured completion rate; always present it beside the unclamped average watch percentage."
      ∷ [];
  metric = completion_proxy;
  numerator = average_watch_time_ms ∷ [];
  numerator_unit = MetricUnit.milliseconds;
  unit = DerivedUnit.ratio;
}

abbrev pub is_ratio : Option MetricUnit → Bool
is_ratio (some MetricUnit.ratio) = true
is_ratio _ = false

abbrev pub is_available : Availability → Bool
is_available available = true
is_available _ = false

unfoldable pub read_value : Option MetricUnit → Number → InputState
read_value unit x =
    if not (is_finite x) || is_negative x
    then absent value_rejected
    else if not (is_safe_whole x) && not (is_ratio unit)
    then (if not (is_whole x) then absent value_rejected else absent not_representable)
    else present insight (get_or unit MetricUnit.count) x

-- readInputValue
unfoldable pub read_input_value : Observation → InputState
read_input_value o =
    if not (is_available o.availability)
    then absent component_unavailable
    else if_found o.value (absent component_unavailable) (read_value o.unit)

-- byMetric.get(key), where the last observation of a metric was set
unfoldable pub last_observation : CanonicalMetric → List Observation → Option Observation
last_observation m [] = none
last_observation m (o ∷ os) =
    let later = last_observation m os in
    if is_some later then later else if same_metric o.canonical m then some o else none

abbrev pub empty_duration : Duration
empty_duration = record {
  limitations = [];
  mismatch = false;
  rejected = false;
  seconds = none;
  source = none;
}

unfoldable pub create_metric_inputs : Option Duration → List Observation → String → InputSet
create_metric_inputs resolved observations snapshot_id = record {
  duration = get_or resolved empty_duration;
  snapshot_id = snapshot_id;
  values = λ key.
      if_found (last_observation (canonical_of key) observations) (absent component_unavailable)
        read_input_value;
}
