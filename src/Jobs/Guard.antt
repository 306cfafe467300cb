-- ===== src/Jobs/Guard.antt =====
-- What cancelBackgroundJob and retryBackgroundJob of packages/db/src/job-operations.ts share: the
-- command, the operator's authority, the rate limit and the audit trail.
use content_automation.Base.{ℕ, ◌+◌, String, Bool, not, ◌&&◌, ◌||◌, none, some, [], ◌∷◌, ◌++◌}
use content_automation.Base.Tests.{leb, ◌==◌, if◌then◌else◌, if_found, opt_eq}
use content_automation.Base.Text.{codes, is_upper, is_digit, matches_name}
use content_automation.Base.Rows.{find_first, count_where}
use content_automation.Correlation.{parse_correlation_id}
use content_automation.Errors.{Result, ok, err, ◌>>◌, ensure, validation_error}
use content_automation.Jobs.Store.{User, AuditEvent, Db}
use text.Mathlib.Text.{◌==◌ as str_eq}

pub data Outcome : Type 0 where
  already_applied cancellation_requested cancelled not_found rate_limited refused retry_queued :
      Outcome

pub record OperationResult : Type 0 where
  pub outcome : Outcome
  pub reason_code : String

pub data Action : Type 0 where
  cancel retry : Action

abbrev pub action_text : Action → String
action_text cancel = "job.cancel"
action_text retry = "job.retry"

abbrev pub operation_limit : Action → ℕ
operation_limit cancel = 10
operation_limit retry = 5

abbrev pub operation_window_ms : ℕ
operation_window_ms = 60_000

abbrev pub outcome_text : Outcome → String
outcome_text already_applied = "ALREADY_APPLIED"
outcome_text cancellation_requested = "CANCELLATION_REQUESTED"
outcome_text cancelled = "CANCELLED"
outcome_text not_found = "NOT_FOUND"
outcome_text rate_limited = "RATE_LIMITED"
outcome_text refused = "REFUSED"
outcome_text retry_queued = "RETRY_QUEUED"

-- The command: who asks, for which job, why, when, and the fresh identifier of its audit entry.
-- `is_uuid_v7` is isUuidV7, which rests on the package uuid.
pub record Command : Type 0 where
  pub correlation_id : String
  pub internal_user_id : String
  pub session_version : ℕ
  pub workspace_id : String
  pub job_id : String
  pub reason_code : String
  pub now : ℕ
  pub audit_id : String
  pub is_uuid_v7 : String → Bool

-- safeReasonCodePattern
unfoldable pub is_safe_reason_code : String → Bool
unfolding matches_name
is_safe_reason_code code =
    matches_name is_upper (λ c. is_upper c || (is_digit c || c == b'_')) 63 (codes code)

unfoldable pub prepare_operation : Command → Result String
prepare_operation c =
    if_found (parse_correlation_id c.correlation_id)
      (err (validation_error "JOB_OPERATION_CORRELATION_INVALID"))
      λ correlation_id. do
        ensure (is_safe_reason_code c.reason_code) (validation_error "JOB_OPERATION_REASON_INVALID")
        ok correlation_id

-- auditAndReturn
abbrev pub audit_event : Command → String → Action → User → OperationResult → AuditEvent
audit_event c correlation_id action actor r = record {
  id = c.audit_id;
  action = action_text action;
  actor_user_id = some actor.id;
  actor_service = none;
  correlation_id = correlation_id;
  occurred_at = c.now;
  outcome = outcome_text r.outcome;
  reason_code = r.reason_code;
  resource_id = if c.is_uuid_v7 c.job_id then some c.job_id else none;
  resource_type = "background_job";
  workspace_id = actor.workspace_id;
}

unfoldable pub audit_and_return :
    Command → String → Action → User → OperationResult → Db → Result (OperationResult × Db)
audit_and_return c correlation_id action actor r db =
    ok (r, record db { audit = db.audit ++ audit_event c correlation_id action actor r ∷ [] })

abbrev pub refuse : String → OperationResult
refuse reason = record { outcome = refused; reason_code = reason }

-- the `where` of authoriseOperation
abbrev pub is_principal : Command → User → Bool
is_principal c u =
    str_eq u.id c.internal_user_id
    && (u.session_version == c.session_version
        && (u.is_active && (u.workspace_is_active && str_eq u.workspace_id c.workspace_id)))

-- occurredAt >= now - window, for this actor and action
abbrev pub is_recent : Command → Action → User → AuditEvent → Bool
is_recent c action actor e =
    str_eq e.action (action_text action)
    && (opt_eq e.actor_user_id (some actor.id)
        && (leb c.now (e.occurred_at + operation_window_ms)
            && str_eq e.workspace_id actor.workspace_id))

-- authoriseOperation, and what the caller does once it is allowed
unfoldable pub authorise :
    Command
    → String
    → Action
    → Db
    → Db
    → (User → Result (OperationResult × Db))
    → Result (OperationResult × Db)
authorise c correlation_id action seen db allowed =
    if_found (find_first (is_principal c) seen.users) (ok (refuse "OPERATOR_NOT_AUTHORISED", db))
      λ actor.
        if not actor.is_admin
        then audit_and_return c correlation_id action actor (refuse "ADMIN_REQUIRED") db
        else if leb (operation_limit action) (count_where (is_recent c action actor) seen.audit)
        then audit_and_return c correlation_id action actor
            (record { outcome = rate_limited; reason_code = "OPERATOR_RATE_LIMITED" }) db
        else allowed actor
