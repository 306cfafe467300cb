-- ===== src/Jobs/Claim.antt =====
-- claimBackgroundJob of packages/db/src/job-execution.ts. A transaction reads the job first and
-- writes later: `seen` is the database that it reads, `db` the one that its writes meet.
use content_automation.Base.{ℕ, ◌+◌, String, Bool, not, ◌&&◌, none, some}
use content_automation.Base.Tests.{
  ltb, leb, ◌==◌, if◌then◌else◌, get_or, if_found, is_positive_safe,
}
use content_automation.Base.Rows.{find_first, update_many, count_where}
use content_automation.Domain.Lifecycle.{JobState, AttemptState, queued, processing, same_state}
use content_automation.Errors.{
  Result, ok, ◌>>=◌, ◌>>◌, ensure, rescue, validation_error, assert_job_transition,
}
use content_automation.Jobs.Store.{Job, Attempt, Db, is_owned, create_attempt}
use text.Mathlib.Text.{◌==◌ as str_eq}

pub record Claim : Type 0 where
  pub attempt_number : ℕ
  pub correlation_id : String
  pub handler_version : ℕ
  pub job_created_at : ℕ
  pub lease_expires_at : ℕ
  pub lease_id : String
  pub max_attempts : ℕ
  pub queue_name : String
  pub version : ℕ
  pub workspace_id : String

pub data ClaimResult : Type 0 where
  claimed : Claim → ClaimResult
  attempts_exhausted missing version_conflict : ClaimResult
  in_state : JobState → ClaimResult

-- What a claim brings along: the workspace of the context, the fresh identifiers, the duration of
-- the lease and the time.
pub record ClaimInput : Type 0 where
  pub workspace_id : String
  pub lease_id : String
  pub attempt_id : String
  pub lease_duration_ms : ℕ
  pub now : ℕ

abbrev pub default_lease_duration_ms : ℕ
default_lease_duration_ms = 120_000

-- the `where` of the update
abbrev pub is_claimable : ClaimInput → Job → Job → Bool
is_claimable c job r =
    ltb r.attempt_count job.max_attempts
    && (str_eq r.id job.id
        && (same_state r.state queued
            && (r.version == job.version && str_eq r.workspace_id c.workspace_id)))

-- the `data` of the update
abbrev pub start : ClaimInput → Job → Job → Job
start c job r = record r {
  attempt_count = r.attempt_count + 1;
  heartbeat_at = some c.now;
  last_error_class = none;
  last_error_code = none;
  lease_expires_at = some (c.now + c.lease_duration_ms);
  lease_id = some c.lease_id;
  next_action = none;
  stage = "starting";
  started_at = some (get_or job.started_at c.now);
  state = processing;
  version = r.version + 1;
}

abbrev pub first_attempt : ClaimInput → Job → Attempt
first_attempt c job = record {
  id = c.attempt_id;
  workspace_id = job.workspace_id;
  background_job_id = job.id;
  attempt_number = job.attempt_count + 1;
  handler_version = job.handler_version;
  state = AttemptState.active;
  stage = "starting";
  lease_id = c.lease_id;
  correlation_id = job.correlation_id;
  started_at = c.now;
  heartbeat_at = c.now;
  completed_at = none;
  next_attempt_at = none;
  error_class = none;
  error_code = none;
  next_action = none;
}

abbrev claim_of : ClaimInput → Job → Claim
claim_of c job = record {
  attempt_number = job.attempt_count + 1;
  correlation_id = job.correlation_id;
  handler_version = job.handler_version;
  job_created_at = job.created_at;
  lease_expires_at = c.now + c.lease_duration_ms;
  lease_id = c.lease_id;
  max_attempts = job.max_attempts;
  queue_name = job.queue_name;
  version = job.version + 1;
  workspace_id = job.workspace_id;
}

-- The transaction from the update on.
unfoldable pub write_claim : ClaimInput → Job → Db → Result (ClaimResult × Db)
unfolding assert_job_transition same_state
write_claim c job db = do
  assert_job_transition queued processing
  let updated = record db { jobs = update_many (is_claimable c job) (start c job) db.jobs }
  if not (count_where (is_claimable c job) db.jobs == 1) then ok (version_conflict, updated) else do
    attempts ← create_attempt (first_attempt c job) db.attempts
    ok (claimed (claim_of c job), record updated { attempts = attempts })

unfoldable pub claim_found : ClaimInput → Job → Db → Result (ClaimResult × Db)
unfolding same_state
claim_found c job db =
    if not (same_state job.state queued)
    then ok (in_state job.state, db)
    else if leb job.max_attempts job.attempt_count
    then ok (attempts_exhausted, db)
    else write_claim c job db

unfoldable pub claim_background_job : ClaimInput → String → Db → Db → Result (ClaimResult × Db)
claim_background_job c job_id seen db = do
  ensure (is_positive_safe c.lease_duration_ms) (validation_error "JOB_LEASE_DURATION_INVALID")
  rescue "JOB_CLAIM_FAILED" (
      if_found (find_first (is_owned c.workspace_id job_id) seen.jobs) (ok (missing, db))
        λ job. claim_found c job db)
