-- ===== src/Examples/Data.antt =====
-- A workspace with one job, from its enqueue on.
use content_automation.Base.{String, true, none, some, [], ◌∷◌}
use content_automation.Domain.Retry.{JobFailure, transient}
use content_automation.Jobs.Store.{Job, Outbox, User, Db}
use content_automation.Jobs.Claim.{ClaimInput, Claim, start, first_attempt}
use content_automation.Jobs.Operations.Retry.{new_outbox_row}
use content_automation.Jobs.Enqueue.{EnqueueInput, new_job}

abbrev pub correlation : String
correlation = "0190b6c2-7d1e-7abc-8def-0123456789ab"

abbrev pub input : EnqueueInput
input = record {
  workspace_id = "ws";
  correlation_id = correlation;
  handler_version = 1;
  idempotency_key = " post:7 ";
  input_version = none;
  max_attempts = some 3;
  priority = none;
  queue_name = "analysis.run";
  resource_id = some "post-7";
  resource_type = some "post";
  job_id = "job-1";
  outbox_id = "out-1";
  now = 1_000;
  is_uuid_v7 = λ s. true;
}

abbrev pub operator : User
operator = record {
  id = "user-1";
  workspace_id = "ws";
  session_version = 1;
  is_active = true;
  workspace_is_active = true;
  is_admin = true;
}

abbrev pub job : Job
job = new_job input

abbrev pub outbox_row : Outbox
outbox_row = new_outbox_row "out-1" 1_000 job

abbrev pub empty : Db
empty = record {
  jobs = [];
  attempts = [];
  outbox = [];
  audit = [];
  users = operator ∷ [];
  analysis_jobs = [];
}

abbrev pub enqueued : Db
enqueued = record empty { jobs = job ∷ []; outbox = outbox_row ∷ [] }

abbrev pub worker : ClaimInput
worker = record {
  workspace_id = "ws";
  lease_id = "lease-1";
  attempt_id = "attempt-1";
  lease_duration_ms = 120_000;
  now = 2_000;
}

abbrev pub rival : ClaimInput
rival = record worker { lease_id = "lease-2"; attempt_id = "attempt-2" }

abbrev pub claim : Claim
claim = record {
  attempt_number = 1;
  correlation_id = correlation;
  handler_version = 1;
  job_created_at = 1_000;
  lease_expires_at = 122_000;
  lease_id = "lease-1";
  max_attempts = 3;
  queue_name = "analysis.run";
  version = 2;
  workspace_id = "ws";
}

abbrev pub claimed_job : Job
claimed_job = start worker job job

abbrev pub started : Db
started = record enqueued { jobs = claimed_job ∷ []; attempts = first_attempt worker job ∷ [] }

abbrev pub failure : JobFailure
failure = record {
  credential_recoverable = none;
  error_class = transient;
  error_code = "PROVIDER_TIMEOUT";
  provider_retry_after_ms = none;
}
