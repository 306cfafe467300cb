-- ===== src/Examples/Envelopes.antt =====
-- An envelope with a queue's name, and the message that it is sent as.
use content_automation.Base.{◌≡◌, refl, some}
use content_automation.Correlation.{is_uuid}
use content_automation.Jobs.Enqueue.{is_queue_name}
use content_automation.Jobs.Handler.{Envelope}
use content_automation.Jobs.Envelope.{parse_queue_job_envelope}
use content_automation.Jobs.Envelope.Roundtrip.{sent, IsDeliverable, parse_sent, reparse}
use content_automation.Examples.Data.{correlation}

abbrev envelope : Envelope
envelope = record {
  correlation_id = correlation;
  domain_job_id = correlation;
  handler_version = 1;
  queue_name = "analysis.run";
  workspace_id = correlation;
}

envelope-Deliverable : IsDeliverable envelope
unfolding is_uuid is_queue_name
envelope-Deliverable = (refl, refl, refl, refl, refl)

reparse_example :
    IsDeliverable envelope × (parse_queue_job_envelope (sent envelope) ≡ some envelope)
reparse_example = reparse (sent envelope) envelope (parse_sent envelope envelope-Deliverable)
