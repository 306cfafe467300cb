-- ===== src/Analytics/Metrics/Durations.antt =====
-- resolveMetricDuration of packages/domain/src/analytics-metrics.ts.
use content_automation.Base.{Bool, true, false, not, ◌&&◌, Option, none, some, List, [], ◌∷◌, ◌++◌}
use content_automation.Base.Tests.{if_found, if◌then◌else◌, is_some, get_or}
use content_automation.Domain.Number.{Number, is_finite}
use content_automation.Domain.Number.Arithmetic.{of_nat, is_positive, sub, magnitude, lt_number}
use content_automation.Analytics.Quantities.{
  Limitation, validated_discarded, provider_discarded, durations_disagree, Duration, DurationSource,
  validated_source_video, provider_metadata,
}

-- isUsableDuration(seconds) ? seconds : null
abbrev pub usable : Option Number → Option Number
usable none = none
usable (some x) = if is_finite x && is_positive x then some x else none

-- seconds != null && usable === null
abbrev pub discarded : (Number → Limitation) → Option Number → List Limitation
discarded limitation seconds =
    if_found seconds [] λ x. if is_some (usable (some x)) then [] else limitation x ∷ []

abbrev pub is_nil : List Limitation → Bool
is_nil [] = true
is_nil (l ∷ ls) = false

abbrev pub resolved :
    List Limitation → Option Number → Option DurationSource → Bool → List Limitation → Duration
resolved dropped seconds source mismatch limitations = record {
  limitations = dropped ++ limitations;
  mismatch = mismatch;
  rejected = not (is_some seconds) && not (is_nil dropped);
  seconds = seconds;
  source = source;
}

abbrev pub resolve_both : List Limitation → Number → Number → Number → Duration
resolve_both dropped tolerance validated provider =
    if lt_number tolerance (magnitude (sub validated provider))
    then resolved dropped (some provider) (some provider_metadata) true
        (durations_disagree validated provider tolerance ∷ [])
    else resolved dropped (some validated) (some validated_source_video) false []

-- providerSeconds, toleranceSeconds and validatedSourceSeconds
unfoldable pub resolve_metric_duration : Option Number → Option Number → Option Number → Duration
resolve_metric_duration provider_seconds tolerance_seconds validated_seconds =
    let tolerance = get_or tolerance_seconds (of_nat 1) in
    let dropped =
      discarded validated_discarded validated_seconds
      ++ discarded provider_discarded provider_seconds in
    if_found (usable validated_seconds)
      (if_found (usable provider_seconds) (resolved dropped none none false [])
        λ p. resolved dropped (some p) (some provider_metadata) false [])
      λ v.
        if_found (usable provider_seconds)
          (resolved dropped (some v) (some validated_source_video) false [])
          (resolve_both dropped tolerance v)
