-- ===== src/Examples/Measurements.antt =====
-- A response of the provider for one post, and the metrics that are derived from it.
use content_automation.Base.{◌≡◌, refl, false, some, [], ◌∷◌}
use content_automation.Base.Rows.{find_first, All}
use content_automation.Base.Text.{trim}
use content_automation.Base.Json.{
  Json, no_items, item, no_fields, field, number, string, object, array, get, prefix,
}
use content_automation.Domain.Number.{Number, fraction}
use content_automation.Domain.Number.Arithmetic.{times, quotient, add, mul, div, sum_from, of_nat}
use content_automation.Instagram.Insights.{
  MetricUnit, CanonicalMetric, InsightGroup, item_not_object, read_insight_group, read_items,
  normalise_insight_item, accept_value, read_number, first_value, read_string,
}
use content_automation.Instagram.Insights.Accounts.{
  read_group-Accounts, IsHonest, refusals, data_of, canonicals, requested,
}
use content_automation.Analytics.Metrics.{definition_of}
use content_automation.Analytics.Quantities.{
  InputSet, InputState, present, absent, insight, Unavailability, InputKey, validated_source_video,
  average_watch_percentage, completion_proxy, engagement_rate_reach,
}
use content_automation.Analytics.Metrics.Calculate.{
  calculate_derived_metric, value_of, collect, numerator_of, denominator_of,
}
use content_automation.Analytics.Metrics.Calculate.Clamp.{completion_cut, cut}
use content_automation.Analytics.Metrics.Calculate.Meaning.{value_iff}
use content_automation.Analytics.Metrics.Calculate.Inversion.{Meaning}

abbrev group : InsightGroup
group = record {
  key = "distribution";
  metrics =
      record {
        canonical = CanonicalMetric.views;
        provider = "views";
        provider_unit = MetricUnit.count;
        unit = MetricUnit.count;
      }
      ∷ record {
        canonical = CanonicalMetric.reach;
        provider = "reach";
        provider_unit = MetricUnit.count;
        unit = MetricUnit.count;
      }
      ∷ [];
}

abbrev reach_item : Json
reach_item = object (
    field "name" (string "reach")
      (field "total_value" (object (field "value" (number (of_nat 80)) no_fields)) no_fields))

abbrev body : Json
body = object (field "data" (array (item reach_item (item (string "?") no_items))) no_fields)

rejections_run : (read_insight_group body group).1 ≡ item_not_object ∷ []
unfolding read_insight_group read_items normalise_insight_item accept_value read_number first_value
    read_string get trim find_first prefix
rejections_run = refl

read_group-Accounts_example :
    (canonicals (read_insight_group body group).0 ≡ requested group.metrics)
    × All IsHonest (read_insight_group body group).0
    × ((read_insight_group body group).1 ≡ refusals group.metrics (data_of body))
read_group-Accounts_example = read_group-Accounts body group

-- A post that was watched for longer than it lasts.
abbrev values : InputKey → InputState
values InputKey.likes = present insight MetricUnit.count (of_nat 6)
values InputKey.comments = present insight MetricUnit.count (of_nat 1)
values InputKey.shares = present insight MetricUnit.count (of_nat 0)
values InputKey.saves = present insight MetricUnit.count (of_nat 3)
values InputKey.reach = present insight MetricUnit.count (of_nat 80)
values InputKey.average_watch_time_ms = present insight MetricUnit.milliseconds (of_nat 15_000)
values _ = absent Unavailability.component_unavailable

abbrev inputs : InputSet
inputs = record {
  duration = record {
    seconds = some (of_nat 12);
    source = some validated_source_video;
    mismatch = false;
    rejected = false;
    limitations = [];
  };
  snapshot_id = "s";
  values = values;
}

abbrev engagement : Number
engagement = fraction 10 79

engagement_run : (calculate_derived_metric engagement_rate_reach inputs).value ≡ some engagement
unfolding calculate_derived_metric value_of definition_of collect numerator_of denominator_of
    sum_from add mul div times quotient
engagement_run = refl

value_iff_example : Meaning (definition_of engagement_rate_reach) inputs engagement
value_iff_example = (value_iff engagement_rate_reach inputs engagement).0 engagement_run

completion_cut_example :
    ((calculate_derived_metric completion_proxy inputs).value
      ≡ cut (calculate_derived_metric average_watch_percentage inputs).value)
    × ((calculate_derived_metric completion_proxy inputs).reason
        ≡ (calculate_derived_metric average_watch_percentage inputs).reason)
    × ((calculate_derived_metric completion_proxy inputs).missing
        ≡ (calculate_derived_metric average_watch_percentage inputs).missing)
completion_cut_example = completion_cut inputs
