-- ===== src/Examples/Transactions.antt =====
-- Single transactions on the job: a lease that expires, commands of an operator, a dispatch.
use content_automation.Base.{◌+◌, ◌≡◌, ◌⊎◌, refl, arith, true, false, not, min, none, some, [], ◌∷◌}
use content_automation.Base.Rows.{find_first, update_many, count_where}
use content_automation.Correlation.{parse_correlation_id}
use content_automation.Domain.Lifecycle.{failed_attention, is_safe_job_stage}
use content_automation.Domain.Retry.{transient, contact_support, failed}
use content_automation.Errors.{ok, err, job_lease_lost, assert_job_transition}
use content_automation.Jobs.Store.{Job, Db}
use content_automation.Jobs.Lease.{
  heartbeat_background_job, record_background_job_stage, cancel_outbox_row,
}
use content_automation.Jobs.Commit.{commit_job_success, commit_job_failure}
use content_automation.Jobs.Recovery.{
  RecoveryInput, recover, close_attempt, recover_expired_lease, redeliver, write_recovery,
}
use content_automation.Jobs.Recovery.Fencing.{TakenBack, recovery_fences, fenced_writes}
use content_automation.Jobs.Operations.{
  cancel_waiting, cancel_background_job, cancel_found, write_cancel_waiting,
}
use content_automation.Jobs.Guard.{
  Command, Action, Outcome, OperationResult, audit_event, prepare_operation, is_safe_reason_code,
  authorise, audit_and_return,
}
use content_automation.Jobs.Operations.Retry.{
  RetryOptions, requeue_failed, reset_outbox_row, upsert_outbox, retry_background_job, retry_found,
  retry_failed, write_retry,
}
use content_automation.Jobs.Operations.Authority.{
  Authority, Trail, cancel_authorised, retry_authorised,
}
use content_automation.Jobs.Dispatch.{
  DispatchOptions, delivered, is_candidate, lease_rows, leased_rows, length, reconcile_job_outbox,
  validate_dispatch, dispatch_batch, dispatch_all, dispatch_outbox_record, settle_dispatch,
  mark_outbox_dispatched,
}
use content_automation.Jobs.Dispatch.Release.{pass_releases}
use content_automation.Jobs.Dispatch.Batches.{lease_partition, Leases, holds}
use content_automation.Base.Order.{every, filter_by}
use content_automation.Base.Pointwise.{Pointwise}
use content_automation.Examples.Data.{
  enqueued, started, job, claimed_job, outbox_row, operator, worker, failure, correlation,
}
use content_automation.Jobs.Claim.{first_attempt}

abbrev sweep : RecoveryInput
sweep = record { workspace_id = "ws"; now = 500_000; audit = none }

abbrev recovered : Db
recovered = record started {
  jobs = recover sweep claimed_job claimed_job ∷ [];
  attempts = close_attempt sweep claimed_job (first_attempt worker job) ∷ [];
  outbox = redeliver 500_000 outbox_row ∷ [];
}

recovery_fences_example : TakenBack sweep "job-1" started recovered
unfolding recover_expired_lease write_recovery find_first count_where update_many
    assert_job_transition
recovery_fences_example = recovery_fences sweep "job-1" started started recovered (tt, tt) refl

fenced_writes_example :
    (heartbeat_background_job "ws" "job-1" "lease-1" 500_001 30_000 recovered ≡ err job_lease_lost)
    × (record_background_job_stage "ws" "job-1" "lease-1" "loading_inputs" 500_001 recovered
        ≡ err job_lease_lost)
    × (commit_job_success (λ d. ok d) "ws" "job-1" "lease-1" 500_001 recovered ≡ err job_lease_lost)
    × (commit_job_failure failure (failed contact_support) "ws" "job-1" "lease-1" 500_001 recovered
        ≡ err job_lease_lost)
unfolding count_where is_safe_job_stage find_first content_automation.Domain.Lifecycle.same_state
    recover_expired_lease write_recovery assert_job_transition update_many
fenced_writes_example =
    fenced_writes sweep "job-1" "lease-1" "loading_inputs" 500_001 30_000 (λ d. ok d) failure
      (failed contact_support) claimed_job started started recovered (tt, tt) refl refl refl refl
      refl

abbrev command : Command
command = record {
  correlation_id = correlation;
  internal_user_id = "user-1";
  session_version = 1;
  workspace_id = "ws";
  job_id = "job-1";
  reason_code = "NO_LONGER_NEEDED";
  now = 5_000;
  audit_id = "audit-1";
  is_uuid_v7 = λ s. true;
}

abbrev cancelled : OperationResult
cancelled = record { outcome = Outcome.cancelled; reason_code = "NO_LONGER_NEEDED" }

abbrev after_cancel : Db
after_cancel = record enqueued {
  jobs = cancel_waiting command job ∷ [];
  outbox = cancel_outbox_row 5_000 outbox_row ∷ [];
  audit = audit_event command correlation Action.cancel operator cancelled ∷ [];
}

cancel_authorised_example :
    ((after_cancel.jobs ≡ enqueued.jobs) ⊎ Authority command Action.cancel enqueued)
    × Trail cancelled enqueued.audit after_cancel.audit
unfolding cancel_background_job prepare_operation is_safe_reason_code parse_correlation_id authorise
    audit_and_return cancel_found write_cancel_waiting find_first count_where update_many
    assert_job_transition
cancel_authorised_example = cancel_authorised command enqueued enqueued after_cancel cancelled refl

abbrev failed_job : Job
failed_job = record job {
  state = failed_attention;
  stage = "failed_attention";
  completed_at = some 4_000;
  attempt_count = 3;
  last_error_class = some transient;
  last_error_code = some "PROVIDER_TIMEOUT";
  next_action = some contact_support;
}

abbrev given_up : Db
given_up = record enqueued { jobs = failed_job ∷ [] }

abbrev retry_options : RetryOptions
retry_options = record {
  result_exists = λ d j. false;
  check_prerequisites = λ d j. record { eligible = true; reason_code = none };
  outbox_id = "out-2";
}

abbrev requeued : OperationResult
requeued = record { outcome = Outcome.retry_queued; reason_code = "NO_LONGER_NEEDED" }

abbrev after_retry : Db
after_retry = record given_up {
  jobs = requeue_failed command failed_job failed_job ∷ [];
  outbox = reset_outbox_row 5_000 outbox_row ∷ [];
  audit = audit_event command correlation Action.retry operator requeued ∷ [];
}

retry_authorised_example :
    ((after_retry.jobs ≡ given_up.jobs) ⊎ Authority command Action.retry given_up)
    × Trail requeued given_up.audit after_retry.audit
unfolding retry_background_job prepare_operation is_safe_reason_code parse_correlation_id authorise
    audit_and_return retry_found retry_failed write_retry upsert_outbox find_first count_where
    update_many assert_job_transition
retry_authorised_example =
    retry_authorised command retry_options given_up given_up after_retry requeued refl

abbrev dispatcher : DispatchOptions
dispatcher = record {
  batch_size = 20;
  failure_delay_ms = 5_000;
  lease_duration_ms = 30_000;
  now = 6_000;
  lease_id = "dispatch-1";
  publish = λ o. delivered "delivery-1";
}

lease_partition_example :
    Pointwise (Leases dispatcher) enqueued.outbox (lease_rows dispatcher 20 enqueued.outbox)
    × (leased_rows dispatcher 20 enqueued.outbox
        ≡ filter_by (holds dispatcher) (lease_rows dispatcher 20 enqueued.outbox))
    × (length (leased_rows dispatcher 20 enqueued.outbox)
        ≡ min 20 (count_where (is_candidate 6_000) enqueued.outbox))
    × (count_where (is_candidate 6_000) (lease_rows dispatcher 20 enqueued.outbox)
          + length (leased_rows dispatcher 20 enqueued.outbox)
        ≡ count_where (is_candidate 6_000) enqueued.outbox)
unfolding every
lease_partition_example = lease_partition dispatcher 20 enqueued.outbox (omega arith) refl

abbrev after_pass : Db
after_pass = (reconcile_job_outbox dispatcher enqueued).1

pass_releases_example :
    (1 ≡ min 20 (count_where (is_candidate 6_000) enqueued.outbox))
    × (every (λ o. not (holds dispatcher o)) after_pass.outbox ≡ true)
unfolding every reconcile_job_outbox validate_dispatch dispatch_batch dispatch_all
    dispatch_outbox_record parse_correlation_id settle_dispatch mark_outbox_dispatched lease_rows
    leased_rows
pass_releases_example =
    pass_releases dispatcher enqueued (record { claimed = 1; dispatched = 1; failed = 0 }) refl refl
