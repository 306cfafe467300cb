-- ===== src/Jobs/Store.antt =====
-- The tables of packages/db/prisma/schema.prisma that background jobs live in. Times are milliseconds; identifiers are texts.
use content_automation.Base.{ℕ, String, Bool, true, false, ◌&&◌, ◌||◌, Option, List, [], ◌∷◌, ◌++◌}
use content_automation.Base.Tests.{◌==◌, if◌then◌else◌, is_some}
use content_automation.Base.Rows.{find_first}
use content_automation.Domain.Lifecycle.{JobState, AttemptState}
use content_automation.Domain.Retry.{FailureClass, NextAction}
use content_automation.Errors.{Result, ok, err, other}
use text.Mathlib.Text.{◌==◌ as str_eq}

pub data DispatchStatus : Type 0 where
  pending dispatched cancelled : DispatchStatus

-- model BackgroundJob
pub record Job : Type 0 where
  pub id : String
  pub workspace_id : String
  pub queue_name : String
  pub handler_version : ℕ
  pub idempotency_key : String
  pub correlation_id : String
  pub dispatch_status : DispatchStatus
  pub state : JobState
  pub stage : String
  pub priority : ℕ
  pub attempt_count : ℕ
  pub max_attempts : ℕ
  pub version : ℕ
  pub resource_type : Option String
  pub resource_id : Option String
  pub input_version : Option String
  pub queued_at : ℕ
  pub started_at : Option ℕ
  pub heartbeat_at : Option ℕ
  pub lease_id : Option String
  pub lease_expires_at : Option ℕ
  pub next_attempt_at : Option ℕ
  pub completed_at : Option ℕ
  pub last_error_class : Option FailureClass
  pub last_error_code : Option String
  pub next_action : Option NextAction
  pub cancellation_requested_at : Option ℕ
  pub cancellation_reason_code : Option String
  pub reconciliation_required_at : Option ℕ
  pub reconciliation_code : Option String
  pub created_at : ℕ

-- model JobAttempt
pub record Attempt : Type 0 where
  pub id : String
  pub workspace_id : String
  pub background_job_id : String
  pub attempt_number : ℕ
  pub handler_version : ℕ
  pub state : AttemptState
  pub stage : String
  pub lease_id : String
  pub correlation_id : String
  pub started_at : ℕ
  pub heartbeat_at : ℕ
  pub completed_at : Option ℕ
  pub next_attempt_at : Option ℕ
  pub error_class : Option FailureClass
  pub error_code : Option String
  pub next_action : Option NextAction

-- model JobOutbox
pub record Outbox : Type 0 where
  pub id : String
  pub workspace_id : String
  pub background_job_id : String
  pub queue_name : String
  pub handler_version : ℕ
  pub correlation_id : String
  pub dispatch_attempt_count : ℕ
  pub next_attempt_at : ℕ
  pub lease_id : Option String
  pub lease_expires_at : Option ℕ
  pub queue_delivery_id : Option String
  pub last_error_code : Option String
  pub dispatched_at : Option ℕ
  pub cancelled_at : Option ℕ
  pub created_at : ℕ

-- model AuditEvent, as far as the job modules write and read it
pub record AuditEvent : Type 0 where
  pub id : String
  pub action : String
  pub actor_user_id : Option String
  pub actor_service : Option String
  pub correlation_id : String
  pub occurred_at : ℕ
  pub outcome : String
  pub reason_code : String
  pub resource_id : Option String
  pub resource_type : String
  pub workspace_id : String

-- model InternalUser with its workspace, as far as the job modules read them
pub record User : Type 0 where
  pub id : String
  pub workspace_id : String
  pub session_version : ℕ
  pub is_active : Bool  -- status: "ACTIVE"
  pub workspace_is_active : Bool  -- workspace: { status: "ACTIVE" }
  pub is_admin : Bool  -- role === "ADMIN"

-- model AnalysisJob, as far as a manual retry writes it
pub record AnalysisJob : Type 0 where
  pub background_job_id : String
  pub workspace_id : String
  pub repair_attempted : Bool

pub record Db : Type 0 where
  pub jobs : List Job
  pub attempts : List Attempt
  pub outbox : List Outbox
  pub audit : List AuditEvent
  pub users : List User
  pub analysis_jobs : List AnalysisJob

-- where: { id, workspaceId }
abbrev pub is_owned : String → String → Job → Bool
is_owned workspace_id job_id r = str_eq r.id job_id && str_eq r.workspace_id workspace_id

-- where: { leaseId, state: "ACTIVE" }
abbrev pub is_active : AttemptState → Bool
is_active AttemptState.active = true
is_active _ = false

abbrev pub holds_lease : String → Attempt → Bool
holds_lease lease_id a = str_eq a.lease_id lease_id && is_active a.state

-- A unique key that the row would violate: the lease, or the job with the attempt's number.
abbrev clashes : Attempt → Attempt → Bool
clashes new a =
    str_eq a.lease_id new.lease_id
    || (str_eq a.background_job_id new.background_job_id && a.attempt_number == new.attempt_number)

-- jobAttempt.create
unfoldable pub create_attempt : Attempt → List Attempt → Result (List Attempt)
create_attempt new rows =
    if is_some (find_first (clashes new) rows) then err other else ok (rows ++ new ∷ [])

-- where: { backgroundJobId }
abbrev pub is_outbox_of : String → Outbox → Bool
is_outbox_of job_id o = str_eq o.background_job_id job_id
