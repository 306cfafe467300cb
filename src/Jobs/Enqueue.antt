-- ===== src/Jobs/Enqueue.antt =====
-- enqueueBackgroundJob and enqueueBackgroundJobInTransaction of packages/db/src/background-jobs.ts.
-- `priority` is a whole number of either sign, and is written as its distance from -1000.
pub mod Idempotence
use content_automation.Base.{
  ℕ, String, Bool, true, false, not, ◌&&◌, ◌||◌, Option, none, some, List, [], ◌∷◌, ◌++◌,
}
use content_automation.Base.Tests.{
  ltb, leb, ◌==◌, if◌then◌else◌, if_found, is_some, get_or, opt_eq, is_positive_safe,
}
use content_automation.Base.Text.{codes, is_upper, is_lower, is_digit, matches_name, trim}
use content_automation.Base.Rows.{find_first}
use content_automation.Correlation.{parse_correlation_id}
use content_automation.Domain.Lifecycle.{queued}
use content_automation.Errors.{
  Error, Result, ok, err, ◌>>=◌, ◌>>◌, ensure, rescue, operational, conflict, validation_error,
}
use content_automation.Jobs.Store.{Job, Outbox, Db, DispatchStatus, is_outbox_of}
use content_automation.Jobs.Operations.Retry.{new_outbox_row}
use text.Mathlib.Text.{◌==◌ as str_eq}

-- EnqueueBackgroundJobInput, the context, the fresh identifiers and the database's clock.
-- `is_uuid_v7` is isUuidV7, which rests on the package uuid.
pub record EnqueueInput : Type 0 where
  pub workspace_id : String
  pub correlation_id : String
  pub handler_version : ℕ
  pub idempotency_key : String
  pub input_version : Option String
  pub max_attempts : Option ℕ
  pub priority : Option ℕ  -- priority + 1000
  pub queue_name : String
  pub resource_id : Option String
  pub resource_type : Option String
  pub job_id : String
  pub outbox_id : String
  pub now : ℕ
  pub is_uuid_v7 : String → Bool

pub record Enqueued : Type 0 where
  pub created : Bool
  pub job : Job

-- queueDefinitions of packages/domain/src/background-jobs.ts, and isQueueName
abbrev pub queue_names : List String
queue_names =
    "instagram.sync.account" ∷ "instagram.snapshot.post" ∷ "instagram.token.maintain"
    ∷ "instagram.media.import" ∷ "instagram.comments.post" ∷ "asset.validate" ∷ "asset.cleanup"
    ∷ "analysis.run" ∷ "analytics.recalculate" ∷ "strategy.generate" ∷ "system.reconcile" ∷ []

unfoldable pub is_queue_name : String → Bool
unfolding find_first
is_queue_name value = is_some (find_first (str_eq value) queue_names)

abbrev is_alphanumeric : ℕ → Bool
is_alphanumeric c = is_upper c || (is_lower c || is_digit c)

abbrev is_key_character : ℕ → Bool
is_key_character c = is_alphanumeric c || (c == b'.' || (c == b'_' || (c == b':' || c == b'-')))

-- safeIdempotencyKeyPattern, safeInputVersionPattern and safeResourceTypePattern
unfoldable pub is_safe_idempotency_key : String → Bool
unfolding matches_name
is_safe_idempotency_key s = matches_name is_alphanumeric is_key_character 254 (codes s)

unfoldable pub is_safe_input_version : String → Bool
unfolding matches_name
is_safe_input_version s = matches_name is_alphanumeric is_key_character 127 (codes s)

unfoldable pub is_safe_resource_type : String → Bool
unfolding matches_name
is_safe_resource_type s =
    matches_name is_lower (λ c. is_lower c || (is_digit c || c == b'_')) 63 (codes s)

abbrev pub default_priority : ℕ
default_priority = 1_000

abbrev pub priority_of : EnqueueInput → ℕ
priority_of i = get_or i.priority default_priority

abbrev pub attempts_of : EnqueueInput → ℕ
attempts_of i = get_or i.max_attempts 8

abbrev pub key_of : EnqueueInput → String
key_of i = trim i.idempotency_key

abbrev trimmed : Option String → Option String
trimmed none = none
trimmed (some s) = some (trim s)

-- value === undefined || test(value)
abbrev absent_or : (String → Bool) → Option String → Bool
absent_or test none = true
absent_or test (some s) = test s

abbrev pub same_presence : Option String → Option String → Bool
same_presence none none = true
same_presence (some a) (some b) = true
same_presence _ _ = false

-- The checks before the first write.
unfoldable pub validate_enqueue : EnqueueInput → Result (Unit {0})
validate_enqueue i = do
  ensure (is_safe_idempotency_key (key_of i)) (validation_error "JOB_IDEMPOTENCY_KEY_INVALID")
  ensure (is_positive_safe i.handler_version) (validation_error "JOB_HANDLER_VERSION_INVALID")
  ensure (is_queue_name i.queue_name) (validation_error "JOB_QUEUE_INVALID")
  ensure (is_some (parse_correlation_id i.correlation_id))
      (validation_error "JOB_CORRELATION_INVALID")
  ensure (leb 1 (attempts_of i) && leb (attempts_of i) 100)
      (validation_error "JOB_MAX_ATTEMPTS_INVALID")
  ensure (leb (priority_of i) 2_000) (validation_error "JOB_PRIORITY_INVALID")
  ensure (same_presence i.resource_type i.resource_id) (validation_error "JOB_RESOURCE_INVALID")
  ensure (absent_or is_safe_resource_type (trimmed i.resource_type))
      (validation_error "JOB_RESOURCE_INVALID")
  ensure (absent_or i.is_uuid_v7 i.resource_id) (validation_error "JOB_RESOURCE_INVALID")
  ensure (absent_or is_safe_input_version (trimmed i.input_version))
      (validation_error "JOB_INPUT_VERSION_INVALID")

-- The row that createMany inserts, with the defaults of the schema.
abbrev pub new_job : EnqueueInput → Job
new_job i = record {
  id = i.job_id;
  workspace_id = i.workspace_id;
  queue_name = i.queue_name;
  handler_version = i.handler_version;
  idempotency_key = key_of i;
  correlation_id = i.correlation_id;
  dispatch_status = DispatchStatus.pending;
  state = queued;
  stage = "queued";
  priority = priority_of i;
  attempt_count = 0;
  max_attempts = attempts_of i;
  version = 1;
  resource_type = trimmed i.resource_type;
  resource_id = i.resource_id;
  input_version = trimmed i.input_version;
  queued_at = i.now;
  started_at = none;
  heartbeat_at = none;
  lease_id = none;
  lease_expires_at = none;
  next_attempt_at = none;
  completed_at = none;
  last_error_class = none;
  last_error_code = none;
  next_action = none;
  cancellation_requested_at = none;
  cancellation_reason_code = none;
  reconciliation_required_at = none;
  reconciliation_code = none;
  created_at = i.now;
}

-- workspaceId_queueName_handlerVersion_idempotencyKey
abbrev pub has_key : EnqueueInput → Job → Bool
has_key i r =
    str_eq r.workspace_id i.workspace_id
    && (str_eq r.queue_name i.queue_name
        && (r.handler_version == i.handler_version && str_eq r.idempotency_key (key_of i)))

-- createMany with skipDuplicates: a row that a unique key refuses, the primary key or the key of
-- the work, is skipped.
unfoldable pub insert_job : EnqueueInput → List Job → List Job
insert_job i rows =
    if is_some (find_first (λ r. str_eq r.id i.job_id || has_key i r) rows)
    then rows
    else rows ++ new_job i ∷ []

unfoldable pub insert_outbox : EnqueueInput → Job → List Outbox → List Outbox
insert_outbox i job rows =
    if is_some (find_first (λ o. str_eq o.id i.outbox_id || is_outbox_of job.id o) rows)
    then rows
    else rows ++ new_outbox_row i.outbox_id i.now job ∷ []

-- The found job stands for other work than the input.
abbrev pub conflicts : EnqueueInput → Job → Bool
conflicts i job =
    not (opt_eq job.input_version (trimmed i.input_version))
    || (not (job.priority == priority_of i)
        || (not (opt_eq job.resource_id i.resource_id)
            || not (opt_eq job.resource_type (trimmed i.resource_type))))

abbrev pub idempotency_conflict : Error
idempotency_conflict = operational "JOB_IDEMPOTENCY_CONFLICT" conflict false 409

abbrev pub is_created : EnqueueInput → Job → Bool
is_created i job = str_eq job.id i.job_id

unfoldable pub enqueue_found : EnqueueInput → Job → Db → Result (Enqueued × Db)
enqueue_found i job db = do
  ensure (is_created i job || not (conflicts i job)) idempotency_conflict
  ok (
    record { created = is_created i job; job = job },
    record db { outbox = insert_outbox i job db.outbox },
  )

unfoldable pub enqueue_in_transaction : EnqueueInput → Db → Result (Enqueued × Db)
enqueue_in_transaction i db = do
  validate_enqueue i
  let inserted = record db { jobs = insert_job i db.jobs }
  rescue "JOB_ENQUEUE_FAILED" (
      if_found (find_first (has_key i) inserted.jobs) (err Error.other)
        λ job. enqueue_found i job inserted)
