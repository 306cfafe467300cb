-- ===== src/Jobs/Constraints/Checks.antt =====
-- The CHECK constraints on background_jobs, job_attempts and job_outbox in
-- packages/db/prisma/migrations (20260728032000, 20260728034000 and 20260728041000), as tests on a
-- row, and the databases all of whose rows pass them. The constraints on the spelling of texts are
-- left out.
use content_automation.Base.{◌≡◌, Bool, true, false, not, ◌&&◌, ◌||◌}
use content_automation.Base.Tests.{leb, is_some}
use content_automation.Base.Rows.{All}
use content_automation.Domain.Lifecycle.{
  JobState, AttemptState, queued, processing, retry_scheduled,
}
use content_automation.Jobs.Store.{Job, Attempt, Outbox, Db}

-- num_nonnulls(…) IN (0, 2) and IN (0, 3)
abbrev pub both_or_neither : Bool → Bool → Bool
both_or_neither true b = b
both_or_neither false b = not b

abbrev pub all_or_none : Bool → Bool → Bool → Bool
all_or_none true b c = b && c
all_or_none false b c = not b && not c

-- background_jobs_lease_shape_check and background_jobs_timing_shape_check, by the state
abbrev pub lease_and_timing : JobState → Bool → Bool → Bool → Bool → Bool → Bool
lease_and_timing processing lease expires heartbeat completed next =
    lease && (expires && (heartbeat && (not completed && not next)))
lease_and_timing retry_scheduled lease expires heartbeat completed next =
    not lease && (not expires && (not completed && next))
lease_and_timing queued lease expires heartbeat completed next =
    not lease && (not expires && (not completed && not next))
lease_and_timing _ lease expires heartbeat completed next =
    not lease && (not expires && (completed && not next))

abbrev pub job_lease_and_timing : Job → Bool
job_lease_and_timing r =
    lease_and_timing r.state (is_some r.lease_id) (is_some r.lease_expires_at)
      (is_some r.heartbeat_at) (is_some r.completed_at) (is_some r.next_attempt_at)

pub record JobChecks (r : Job) : Type 0 where
  -- background_jobs_handler_version_positive_check
  pub handler : leb 1 r.handler_version ≡ true
  -- background_jobs_priority_range_check, on priority + 1000
  pub priority : leb r.priority 2_000 ≡ true
  -- background_jobs_attempt_count_check
  pub attempts : leb r.attempt_count r.max_attempts ≡ true
  pub some_attempts : leb 1 r.max_attempts ≡ true
  pub few_attempts : leb r.max_attempts 100 ≡ true
  -- background_jobs_version_positive_check
  pub version : leb 1 r.version ≡ true
  pub lease_and_timing : job_lease_and_timing r ≡ true
  -- background_jobs_error_shape_check
  pub error :
      all_or_none (is_some r.last_error_class) (is_some r.last_error_code) (is_some r.next_action)
      ≡ true
  -- background_jobs_resource_shape_check
  pub resource : both_or_neither (is_some r.resource_type) (is_some r.resource_id) ≡ true
  -- background_jobs_cancellation_shape_check
  pub cancellation :
      both_or_neither (is_some r.cancellation_requested_at) (is_some r.cancellation_reason_code)
      ≡ true
  -- background_jobs_reconciliation_shape_check
  pub reconciliation :
      both_or_neither (is_some r.reconciliation_required_at) (is_some r.reconciliation_code) ≡ true

-- job_attempts_timing_shape_check and job_attempts_error_shape_check, by the state
abbrev pub attempt_timing : AttemptState → Bool → Bool → Bool
attempt_timing AttemptState.active completed next = not completed && not next
attempt_timing AttemptState.retry_scheduled completed next = completed && next
attempt_timing _ completed next = completed && not next

abbrev pub attempt_error : AttemptState → Bool → Bool → Bool → Bool
attempt_error AttemptState.active class code action = not class && (not code && not action)
attempt_error AttemptState.succeeded class code action = not class && (not code && not action)
attempt_error AttemptState.cancelled class code action = not class && (not code && not action)
attempt_error _ class code action = class && (code && action)

pub record AttemptChecks (a : Attempt) : Type 0 where
  -- job_attempts_handler_version_positive_check
  pub handler : leb 1 a.handler_version ≡ true
  -- job_attempts_attempt_number_positive_check
  pub number : leb 1 a.attempt_number ≡ true
  pub timing : attempt_timing a.state (is_some a.completed_at) (is_some a.next_attempt_at) ≡ true
  pub error :
      attempt_error a.state (is_some a.error_class) (is_some a.error_code) (is_some a.next_action)
      ≡ true

-- job_outbox_delivery_shape_check
abbrev pub delivery_shape : Bool → Bool → Bool → Bool → Bool
delivery_shape false delivery lease expires = not delivery
delivery_shape true delivery lease expires = delivery && (not lease && not expires)

pub record OutboxChecks (o : Outbox) : Type 0 where
  -- job_outbox_handler_version_positive_check
  pub handler : leb 1 o.handler_version ≡ true
  -- job_outbox_lease_shape_check
  pub lease : both_or_neither (is_some o.lease_id) (is_some o.lease_expires_at) ≡ true
  pub delivery :
      delivery_shape
        (is_some o.dispatched_at)
        (is_some o.queue_delivery_id)
        (is_some o.lease_id)
        (is_some o.lease_expires_at)
      ≡ true
  -- job_outbox_cancelled_lease_check
  pub cancelled : (not (is_some o.cancelled_at) || not (is_some o.lease_id)) ≡ true

-- A job of a handler version that the constraints let through.
abbrev pub IsHandled : Job → Type 0
IsHandled r = leb 1 r.handler_version ≡ true

-- Every row passes the constraints of its table.
pub record Checks (db : Db) : Type 0 where
  pub jobs : All JobChecks db.jobs
  pub attempts : All AttemptChecks db.attempts
  pub outbox : All OutboxChecks db.outbox
