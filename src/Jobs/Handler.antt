-- ===== src/Jobs/Handler.antt =====
-- runIdempotentJobHandler of packages/db/src/job-execution.ts: one delivery of a job, from the
-- message to the end of the attempt. Other transactions may run between two of its own; the
-- handler's function carries what happens to the database while it executes.
pub mod Safety
use content_automation.Base.{ℕ, String, Bool, true, false, not, ◌&&◌, ◌||◌, Option, none, some}
use content_automation.Base.Tests.{ltb, ◌==◌, if◌then◌else◌, get_or, is_some, if_found, is_due}
use content_automation.Base.Rows.{find_first}
use content_automation.Correlation.{parse_correlation_id}
use content_automation.Domain.Lifecycle.{JobState, processing, same_state}
use content_automation.Domain.Number.{Number}
use content_automation.Domain.Retry.{
  JobFailure, NextAction, RetryDecision, RetryInput, retry, failed, decide_job_retry,
}
use content_automation.Errors.{
  Error, Result, ok, err, ◌>>=◌, ◌>>◌, ensure, operational, not_found, injected_crash,
  cancellation_requested, validation_error, job_database_error, classify_job_handler_error,
}
use content_automation.Jobs.Store.{Job, Db, is_owned}
use content_automation.Jobs.Claim.{
  Claim, ClaimInput, ClaimResult, claimed, default_lease_duration_ms, claim_background_job,
}
use content_automation.Jobs.Lease.{check_cancellation}
use content_automation.Jobs.Recovery.{make_background_job_retry_due}
use content_automation.Jobs.Commit.{commit_job_success, commit_job_failure}
use text.Mathlib.Text.{◌==◌ as str_eq}

pub data IgnoredReason : Type 0 where
  attempts_exhausted cancelled failed_attention leased missing not_due : IgnoredReason

pub data RunResult : Type 0 where
  already_succeeded succeeded cancelled lease_abandoned : RunResult
  retry_scheduled : ℕ → RunResult  -- nextAttemptAt
  failed_attention : NextAction → RunResult
  ignored : IgnoredReason → RunResult

-- QueueJobEnvelope
pub record Envelope : Type 0 where
  pub correlation_id : String
  pub domain_job_id : String
  pub handler_version : ℕ
  pub queue_name : String
  pub workspace_id : String

-- What the handler's function comes back with: a commit callback, or the value that it throws.
-- Its calls of heartbeat, recordStage and throwIfCancellationRequested are operations of
-- Jobs.Lease on the database that it leaves.
pub data Execution : Type 0 where
  finished : (Db → Result Db) → Execution
  threw : Error → Execution

-- The options of a run: what the program passes in, the fresh identifiers of the claim, and the
-- answers of the clock, in the order in which a run asks for them.
pub record RunOptions : Type 0 where
  pub workspace_id : String  -- context.workspaceId
  pub envelope : Envelope
  pub lease_duration_ms : Option ℕ
  pub lease_id : String
  pub attempt_id : String
  pub result_exists : Db → Bool
  pub execute : Claim → Db → Execution × Db
  pub aborted : Bool  -- signal.aborted when the handler has thrown
  pub random : Number
  pub checked_at : ℕ
  pub released_at : ℕ
  pub claimed_at : ℕ
  pub started_at : ℕ
  pub settled_at : ℕ

-- The database when a run ends, beside what it returns or throws.
abbrev pub Run : Type 0
Run = Result RunResult × Db

-- try { … } catch (error) { … }
abbrev pub on_result {ℓ} : {A : Type ℓ} → Result A → (Error → Run) → (A → Run) → Run
on_result (ok a) caught next = next a
on_result (err e) caught next = caught e

-- A transaction that fails leaves the database as it was, and its error leaves the run.
abbrev pub rethrow : Db → Error → Run
rethrow db e = (err e, db)

abbrev pub lease_of : RunOptions → ClaimInput
lease_of o = record {
  workspace_id = o.workspace_id;
  lease_id = o.lease_id;
  attempt_id = o.attempt_id;
  lease_duration_ms = get_or o.lease_duration_ms default_lease_duration_ms;
  now = o.claimed_at;
}

-- validateDeliveryContext and validateDeliveryJob
abbrev pub is_for_context : RunOptions → Bool
is_for_context o = str_eq o.workspace_id o.envelope.workspace_id

abbrev pub matches_envelope : Envelope → Job → Bool
matches_envelope e job =
    str_eq job.correlation_id e.correlation_id
    && (job.handler_version == e.handler_version
        && (str_eq job.queue_name e.queue_name && str_eq job.workspace_id e.workspace_id))

abbrev pub delivery_not_found : Error
delivery_not_found = operational "JOB_DELIVERY_NOT_FOUND" not_found false 404

-- claimToIgnored; a claim that succeeded does not come here
abbrev pub claim_to_ignored : ClaimResult → RunResult
claim_to_ignored ClaimResult.attempts_exhausted = ignored IgnoredReason.attempts_exhausted
claim_to_ignored ClaimResult.missing = ignored IgnoredReason.missing
claim_to_ignored _ = ignored IgnoredReason.leased

abbrev pub decided_result : RetryDecision → RunResult
decided_result (retry delay at) = RunResult.retry_scheduled at
decided_result (failed action) = RunResult.failed_attention action

abbrev settle_with : RunOptions → String → Claim → JobFailure → Db → RetryDecision → Run
settle_with o job_id claim f db decision =
    on_result (commit_job_failure f decision o.workspace_id job_id claim.lease_id o.settled_at db)
      (rethrow db)
      λ db'.
        if is_some (parse_correlation_id claim.correlation_id)
        then (ok (decided_result decision), db')
        else (err (job_database_error "JOB_CORRELATION_INVALID"), db')

-- settleHandlerFailure
unfoldable pub settle_handler_failure : RunOptions → String → Claim → JobFailure → Db → Run
settle_handler_failure o job_id claim f db = settle_with o job_id claim f db (
    decide_job_retry (record {
      attempt_number = claim.attempt_number;
      failure = f;
      job_created_at = claim.job_created_at;
      max_attempts = claim.max_attempts;
      now = o.settled_at;
      random = o.random;
    }))

-- the `catch` around the handler
unfoldable pub settle_error : RunOptions → String → Claim → Error → Db → Run
settle_error o job_id claim injected_crash db = (err injected_crash, db)
settle_error o job_id claim cancellation_requested db = (ok RunResult.cancelled, db)
settle_error o job_id claim e db =
    if o.aborted
    then (ok RunResult.lease_abandoned, db)
    else settle_handler_failure o job_id claim (classify_job_handler_error e) db

-- after the handler
unfoldable pub finish_execution : RunOptions → String → Claim → Execution × Db → Run
finish_execution o job_id claim (threw e, db) = settle_error o job_id claim e db
finish_execution o job_id claim (finished commit, db) =
    on_result (commit_job_success commit o.workspace_id job_id claim.lease_id o.settled_at db)
      (rethrow db) λ db'. (ok RunResult.succeeded, db')

-- from the claim to the end: the first cancellation check, and the handler
unfoldable pub execute_claimed : RunOptions → String → Claim → Db → Run
execute_claimed o job_id claim db =
    on_result (check_cancellation o.workspace_id job_id claim.lease_id o.started_at db db)
      (λ e. settle_error o job_id claim e db)
      λ checked.
        if checked.0
        then settle_error o job_id claim cancellation_requested checked.1
        else finish_execution o job_id claim (o.execute claim checked.1)

unfoldable pub run_claim : RunOptions → String → ClaimResult → Db → Run
run_claim o job_id (claimed claim) db =
    if is_some (parse_correlation_id claim.correlation_id)
    then execute_claimed o job_id claim db
    else (err (job_database_error "JOB_CORRELATION_INVALID"), db)
run_claim o job_id refused db = (ok (claim_to_ignored refused), db)

-- the second test of the state, and the claim
unfoldable pub run_queued : RunOptions → Job → Db → Run
unfolding same_state
run_queued o job db =
    if same_state job.state processing
    then (ok (ignored IgnoredReason.leased), db)
    else on_result (claim_background_job (lease_of o) job.id db db) (rethrow db)
        λ claim. run_claim o job.id claim.0 claim.1

-- the release of a due retry, and the job read again
unfoldable pub run_scheduled : RunOptions → Job → Db → Run
run_scheduled o job db =
    if not (is_due job.next_attempt_at o.checked_at)
    then (ok (ignored IgnoredReason.not_due), db)
    else on_result (make_background_job_retry_due o.workspace_id job.id o.released_at db)
        (rethrow db)
        λ released.
          if_found (find_first (is_owned o.workspace_id job.id) released.1.jobs)
            (ok (ignored IgnoredReason.missing), released.1) λ again. run_queued o again released.1

-- a job that is neither done nor given up, where no result may exist yet
abbrev pub run_open : RunOptions → Bool → Db → Run → Run
run_open o existing db next =
    if existing then (err (job_database_error "JOB_RESULT_STATE_INCONSISTENT"), db) else next

-- by the state that the job was loaded in
unfoldable pub run_loaded : JobState → RunOptions → Job → Bool → Db → Run
run_loaded JobState.succeeded o job existing db =
    if existing
    then (ok RunResult.already_succeeded, db)
    else (err (job_database_error "JOB_RESULT_INCONSISTENT"), db)
run_loaded JobState.cancelled o job existing db = (ok (ignored IgnoredReason.cancelled), db)
run_loaded JobState.failed_attention o job existing db =
    (ok (ignored IgnoredReason.failed_attention), db)
run_loaded JobState.retry_scheduled o job existing db =
    run_open o existing db (run_scheduled o job db)
run_loaded JobState.queued o job existing db = run_open o existing db (run_queued o job db)
run_loaded JobState.processing o job existing db = run_open o existing db (run_queued o job db)

unfoldable pub run_idempotent_job_handler : RunOptions → Db → Run
run_idempotent_job_handler o db =
    if not (is_for_context o)
    then (err delivery_not_found, db)
    else if_found (find_first (is_owned o.workspace_id o.envelope.domain_job_id) db.jobs)
        (ok (ignored IgnoredReason.missing), db)
        λ job.
          if matches_envelope o.envelope job
          then run_loaded job.state o job (o.result_exists db) db
          else (err (validation_error "JOB_DELIVERY_MISMATCH"), db)
