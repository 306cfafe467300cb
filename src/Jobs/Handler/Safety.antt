-- ===== src/Jobs/Handler/Safety.antt =====
-- One delivery, from message to end, leaves a database that passes its CHECK constraints.
use content_automation.Base.{String, ◌≡◌, refl, Bool, true, false, not, Option, none, some}
use content_automation.Base.Tests.{if◌then◌else◌, is_due, if_found}
use content_automation.Base.Rows.{find_first}
use content_automation.Errors.{
  Result, Error, ok, err, operational, invalid_transition, cancellation_requested, injected_crash,
  handler_failure, other, Yields, Yields-both,
}
use content_automation.Domain.Lifecycle.{
  JobState, queued, processing, retry_scheduled, succeeded, failed_attention, cancelled,
}
use content_automation.Domain.Retry.{JobFailure, RetryDecision}
use content_automation.Jobs.Store.{Job, Db, is_owned}
use content_automation.Jobs.Recovery.{make_background_job_retry_due}
use content_automation.Jobs.Claim.{
  Claim, ClaimResult, claimed, attempts_exhausted, missing, version_conflict, in_state,
}
use content_automation.Jobs.Constraints.Checks.{Checks}
use content_automation.Jobs.Constraints.Execution.{claim-Checks, JobChecks-IsHandled}
use content_automation.Jobs.Constraints.Settlement.{
  check_cancellation-Checks, retry_due-Checks, commit_job_failure-Checks, commit_job_success-Checks,
}
use content_automation.Jobs.Steps.Agreement.{Distinct, AgreeWith-self, Steps-Distinct}
use content_automation.Jobs.Steps.Execution.{Steps, retry_due-Steps}
use content_automation.Jobs.Handler.{
  RunOptions, RunResult, Run, Execution, finished, threw, on_result, lease_of, settle_with,
  settle_handler_failure, settle_error, finish_execution, execute_claimed, run_claim, run_queued,
  run_scheduled, run_loaded, run_idempotent_job_handler,
}

-- What the framework asks of a handler: it leaves rows that pass the constraints, and so does the
-- commit callback that it returns.
abbrev ExecutionKeeps : Execution → Type 0
ExecutionKeeps (finished commit) = (d : Db) → Checks d → Yields Checks (commit d)
ExecutionKeeps (threw e) = Unit

abbrev pub HandlerKeeps : RunOptions → Type 0
HandlerKeeps o =
    (claim : Claim) (db : Db)
    → Checks db
    → Checks (o.execute claim db).1 × ExecutionKeeps (o.execute claim db).0

-- `P` holds of how a run ends.
record Ends (P : Run → Type 0) (m : Run) : Type 0 where
  holds : P m

module _ {P : Run → Type 0} where
  Ends-if :
      (b : Bool) (m n : Run)
      → (b ≡ true → Ends P m)
      → (b ≡ false → Ends P n)
      → Ends P (if b then m else n)
  Ends-if true m n h k = h refl
  Ends-if false m n h k = k refl

  Ends-if_found {ℓ} :
      {A : Type ℓ} (o : Option A) (m : Run) (f : A → Run)
      → Ends P m
      → ((a : A) → o ≡ some a → Ends P (f a))
      → Ends P (if_found o m f)
  Ends-if_found none m f h k = h
  Ends-if_found (some a) m f h k = k a refl

  Ends-on_result {ℓ} :
      {A : Type ℓ} {Q : A → Type 0} (m : Result A) (caught : Error → Run) (next : A → Run)
      → Yields Q m
      → ((e : Error) → Ends P (caught e))
      → ((a : A) → Q a → Ends P (next a))
      → Ends P (on_result m caught next)
  Ends-on_result (ok a) caught next y c n = n a (y.of a refl)
  Ends-on_result (err e) caught next y c n = c e

abbrev LeavesChecks : Run → Type 0
LeavesChecks m = Ends (λ r. Checks r.1) m

leave : (r : Result RunResult) (db : Db) → Checks db → LeavesChecks (r, db)
leave r db h = record { holds = h }

ruleset runs = (Ends-if, Ends-if_found, Ends-on_result, leave)

settle_with-Checks :
    (o : RunOptions) (j : String) (claim : Claim) (f : JobFailure) (db : Db) (d : RetryDecision)
    → Checks db
    → LeavesChecks (settle_with o j claim f db d)
settle_with-Checks o j claim f db d h =
    let failed = commit_job_failure-Checks f d o.workspace_id j claim.lease_id o.settled_at db h in
    search (runs, failed)

settle_error-Checks :
    (o : RunOptions) (j : String) (claim : Claim) (e : Error) (db : Db)
    → Checks db
    → LeavesChecks (settle_error o j claim e db)
unfolding settle_error settle_handler_failure
settle_error-Checks o j claim injected_crash db h = leave _ db h
settle_error-Checks o j claim cancellation_requested db h = leave _ db h
settle_error-Checks o j claim (operational c k r s) db h = search (runs, settle_with-Checks)
settle_error-Checks o j claim (invalid_transition x y) db h = search (runs, settle_with-Checks)
settle_error-Checks o j claim (handler_failure f) db h = search (runs, settle_with-Checks)
settle_error-Checks o j claim other db h = search (runs, settle_with-Checks)

finish_execution-Checks :
    (o : RunOptions) (j : String) (claim : Claim) (e : Execution) (db : Db)
    → Checks db
    → ExecutionKeeps e
    → LeavesChecks (finish_execution o j claim (e, db))
unfolding finish_execution
finish_execution-Checks o j claim (threw e) db h k = settle_error-Checks o j claim e db h
finish_execution-Checks o j claim (finished commit) db h k =
    let done =
      commit_job_success-Checks commit o.workspace_id j claim.lease_id o.settled_at db k h in
    search (runs, done)

execute_claimed-Checks :
    (o : RunOptions) (j : String) (claim : Claim) (db : Db)
    → HandlerKeeps o
    → Checks db
    → LeavesChecks (execute_claimed o j claim db)
unfolding execute_claimed
execute_claimed-Checks o j claim db keeps h =
    let checked = check_cancellation-Checks o.workspace_id j claim.lease_id o.started_at db db h in
    let executed = λ (d : Db) (k : Checks d).
      finish_execution-Checks o j claim (o.execute claim d).0 (o.execute claim d).1
        (keeps claim d k).0 (keeps claim d k).1 in
    Ends-on_result _ _ _ checked (λ e. settle_error-Checks o j claim e db h)
      λ a k.
        Ends-if a.0 _ _ (λ _. settle_error-Checks o j claim cancellation_requested a.1 k)
          (λ _. executed a.1 k)

run_claim-Checks :
    (o : RunOptions) (j : String) (claim : ClaimResult) (db : Db)
    → HandlerKeeps o
    → Checks db
    → LeavesChecks (run_claim o j claim db)
unfolding run_claim
run_claim-Checks o j (claimed c) db keeps h = search (runs, execute_claimed-Checks)
run_claim-Checks o j attempts_exhausted db keeps h = leave _ db h
run_claim-Checks o j missing db keeps h = leave _ db h
run_claim-Checks o j version_conflict db keeps h = leave _ db h
run_claim-Checks o j (in_state s) db keeps h = leave _ db h

run_queued-Checks :
    (o : RunOptions) (job : Job) (db : Db)
    → HandlerKeeps o
    → Distinct db.jobs
    → Checks db
    → LeavesChecks (run_queued o job db)
unfolding run_queued
run_queued-Checks o job db keeps d h =
    let claim =
      claim-Checks (lease_of o) job.id db db (JobChecks-IsHandled db.jobs h.jobs)
        (AgreeWith-self db.jobs d) h in
    search (runs, claim, run_claim-Checks)

run_scheduled-Checks :
    (o : RunOptions) (job : Job) (db : Db)
    → HandlerKeeps o
    → Distinct db.jobs
    → Checks db
    → LeavesChecks (run_scheduled o job db)
unfolding run_scheduled
run_scheduled-Checks o job db keeps d h =
    let released =
      Yields-both (make_background_job_retry_due o.workspace_id job.id o.released_at db)
        (retry_due-Checks o.workspace_id job.id o.released_at db h)
        (retry_due-Steps o.workspace_id job.id o.released_at db) in
    let after = λ (again : Job) (r : Bool × Db) (k : Checks r.1 × Steps db r.1).
      run_queued-Checks o again r.1 keeps (Steps-Distinct db.jobs r.1.jobs k.1 d) k.0 in
    Ends-if (not (is_due job.next_attempt_at o.checked_at)) _ _ (λ _. leave _ db h)
      λ _.
        Ends-on_result _ _ _ released (λ e. leave _ db h)
          λ r k.
            Ends-if_found (find_first (is_owned o.workspace_id job.id) r.1.jobs) _ _
              (leave _ r.1 k.0) (λ again _. after again r k)

run_loaded-Checks :
    (s : JobState) (o : RunOptions) (job : Job) (existing : Bool) (db : Db)
    → HandlerKeeps o
    → Distinct db.jobs
    → Checks db
    → LeavesChecks (run_loaded s o job existing db)
unfolding run_loaded
run_loaded-Checks succeeded o job existing db keeps d h = search runs
run_loaded-Checks cancelled o job existing db keeps d h = leave _ db h
run_loaded-Checks failed_attention o job existing db keeps d h = leave _ db h
run_loaded-Checks retry_scheduled o job existing db keeps d h = search (runs, run_scheduled-Checks)
run_loaded-Checks queued o job existing db keeps d h = search (runs, run_queued-Checks)
run_loaded-Checks processing o job existing db keeps d h = search (runs, run_queued-Checks)

-- One delivery of a job, whatever its handler does within the framework's contract, leaves a
-- database that passes the CHECK constraints on jobs, attempts and outbox rows.
pub run-Checks :
    (o : RunOptions) (db : Db)
    → HandlerKeeps o
    → Distinct db.jobs
    → Checks db
    → Checks (run_idempotent_job_handler o db).1
unfolding run_idempotent_job_handler
run-Checks o db keeps d h =
    let loaded =
      λ (job : Job). run_loaded-Checks job.state o job (o.result_exists db) db keeps d h in
    let ended : LeavesChecks (run_idempotent_job_handler o db) = search (runs, loaded) in
    ended.holds
