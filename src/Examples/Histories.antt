-- ===== src/Examples/Histories.antt =====
-- The history of the job: enqueued, claimed, delivered.
use content_automation.Base.{◌≡◌, ◌≢◌, refl, arith, true, false, none, ◌∷◌, []}
use content_automation.Domain.Number.{Number}
use content_automation.Errors.{ok, err, job_lease_lost, assert_job_transition, Yields-ok}
use content_automation.Base.Rows.{find_first, update_many, count_where}
use content_automation.Correlation.{parse_correlation_id}
use content_automation.Jobs.Claim.{
  claimed, claim_background_job, claim_found, write_claim, first_attempt,
}
use content_automation.Jobs.Store.{create_attempt, Db}
use content_automation.Jobs.Enqueue.{
  Enqueued, enqueue_in_transaction, enqueue_found, validate_enqueue, insert_job, insert_outbox,
  is_safe_idempotency_key, is_queue_name, is_safe_resource_type, is_safe_input_version,
}
use content_automation.Jobs.Enqueue.Idempotence.{again, enqueue_again}
use content_automation.Jobs.Handler.{RunOptions, finished, run_idempotent_job_handler}
use content_automation.Jobs.Handler.Safety.{run-Checks}
use content_automation.Jobs.Constraints.Checks.{Checks}
use content_automation.Jobs.Constraints.Execution.{Checks-intro}
use content_automation.Jobs.History.{enqueue, claim as claim_write, regular, here, then, nothing}
use content_automation.Jobs.History.Moves.{
  MovesOn, Settle, OnlyEnqueues, transaction-MovesOn, Later-Settle,
}
use content_automation.Jobs.History.Safety.{Later-Sound}
use content_automation.Jobs.History.Identifiers.{Sound}
use content_automation.Jobs.History.Once.{commit_once}
use content_automation.Jobs.Commit.{
  succeed, succeed_attempt, commit_job_success, commit_job_failure,
}
use content_automation.Domain.Retry.{failed, contact_support}
use content_automation.Jobs.History.Exclusion.{claim_exclusive}
use content_automation.Examples.Data.{
  input, empty, enqueued, started, job, worker, rival, claim, correlation, claimed_job, failure,
}

abbrev created : Enqueued
created = record { created = true; job = job }

enqueue_run : enqueue_in_transaction input empty ≡ ok (created, enqueued)
unfolding enqueue_in_transaction enqueue_found validate_enqueue insert_job insert_outbox find_first
    is_safe_idempotency_key is_queue_name is_safe_resource_type is_safe_input_version
    parse_correlation_id
enqueue_run = refl

claim_run : claim_background_job worker "job-1" enqueued enqueued ≡ ok (claimed claim, started)
unfolding claim_background_job claim_found write_claim find_first count_where update_many
    create_attempt
claim_run = refl

Later-Sound_example : Sound enqueued
Later-Sound_example =
    Later-Sound empty enqueued (Checks-intro empty tt tt tt, tt)
      (then empty empty empty enqueued (here empty) (here empty)
        (regular (enqueue input created enqueued enqueue_run)))

transaction-MovesOn_example : MovesOn enqueued started
transaction-MovesOn_example =
    transaction-MovesOn enqueued enqueued started
      (claim_write worker "job-1" (claimed claim) started claim_run)

claim_exclusive_example :
    claim_background_job rival "job-1" enqueued started ≢ ok (claimed claim, started)
claim_exclusive_example =
    claim_exclusive worker rival "job-1" enqueued enqueued started started started claim claim refl
      claim_run (here started) (tt, tt)

enqueue_again_example :
    enqueue_in_transaction (again input "job-2" "out-2" 9_000) enqueued
    ≡ ok (record { created = false; job = job }, enqueued)
enqueue_again_example =
    enqueue_again input "job-2" "out-2" 9_000 empty enqueued created tt tt refl enqueue_run

abbrev options : RunOptions
options = record {
  workspace_id = "ws";
  envelope = record {
    correlation_id = correlation;
    domain_job_id = "job-1";
    handler_version = 1;
    queue_name = "analysis.run";
    workspace_id = "ws";
  };
  lease_duration_ms = none;
  lease_id = "lease-1";
  attempt_id = "attempt-1";
  result_exists = λ d. false;
  execute = λ k d. (finished (λ e. ok e), d);
  aborted = false;
  random = Number.fraction 1 1;
  checked_at = 2_000;
  released_at = 2_000;
  claimed_at = 2_000;
  started_at = 2_000;
  settled_at = 3_000;
}

enqueued-Checks : Checks enqueued
enqueued-Checks = ground arith

run-Checks_example : Checks (run_idempotent_job_handler options enqueued).1
run-Checks_example =
    run-Checks options enqueued (λ k d h. (h, λ e c. Yields-ok e c)) (tt, tt) enqueued-Checks

Later-Settle_example : Settle empty enqueued
Later-Settle_example = Later-Settle empty enqueued (
    then empty empty empty enqueued (here empty) (here empty)
      (regular (enqueue input created enqueued enqueue_run)))

abbrev done : Db
done = record started {
  jobs = succeed 3_000 claimed_job ∷ [];
  attempts = succeed_attempt 3_000 (first_attempt worker job) ∷ [];
}

ok_injective : {d e : Db} → ok d ≡ ok e → d ≡ e
ok_injective h = cc

only_nothing : OnlyEnqueues (λ d. ok d)
only_nothing d e h = rw (← ok_injective h) (nothing d)

success_run : commit_job_success (λ d. ok d) "ws" "job-1" "lease-1" 3_000 started ≡ ok done
unfolding commit_job_success count_where update_many assert_job_transition
success_run = refl

commit_once_example :
    (commit_job_success (λ d. ok d) "ws" "job-1" "lease-1" 4_000 done ≡ err job_lease_lost)
    × (commit_job_failure failure (failed contact_support) "ws" "job-1" "lease-1" 4_000 done
        ≡ err job_lease_lost)
commit_once_example =
    commit_once (λ d. ok d) (λ d. ok d) failure (failed contact_support) "ws" "job-1" "lease-1" "ws"
      "lease-1" 3_000 4_000 started done done only_nothing success_run (here done) (tt, tt)
