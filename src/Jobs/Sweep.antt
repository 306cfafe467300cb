-- ===== src/Jobs/Sweep.antt =====
-- reconcileBackgroundJobs of packages/db/src/job-reconciliation.ts: one sweep over all workspaces, pass
-- after pass, each repair a transaction of its own. The cleanup hooks and the telemetry are left out.
-- A findMany takes rows in the order of the table, and no other writer comes between the transactions.
pub mod Trail
use content_automation.Base.{
  ℕ, zero, suc, ◌+◌, ◌*◌, String, Bool, true, false, not, ◌&&◌, ◌||◌, Option, none, some, List, [],
  ◌∷◌,
}
use content_automation.Base.Tests.{leb, if◌then◌else◌, if_found, is_some, is_due}
use content_automation.Base.Rows.{find_first}
use content_automation.Correlation.{parse_correlation_id}
use content_automation.Domain.Lifecycle.{
  JobState, queued, processing, retry_scheduled, succeeded, failed_attention, same_state,
}
use content_automation.Errors.{Error, Result, ok, err, ◌>>=◌, validation_error}
use content_automation.Jobs.Store.{Job, Outbox, Db, is_outbox_of}
use content_automation.Jobs.Recovery.{RecoveryInput, recover_expired_lease}
use content_automation.Jobs.Reconciliation.{
  Repair, requeue_due_retry, requeue_stranded_delivery, repair_missing_outbox, flag_ambiguous_job,
}
use content_automation.Jobs.CommittedResult.{repair_committed_result}

-- JobResultInspection
pub data Inspection : Type 0 where
  absent present unsupported : Inspection

-- ReconcileBackgroundJobsOptions. A repair of a job draws its fresh identifiers by `audit_id` and
-- `outbox_id`.
pub record SweepOptions : Type 0 where
  pub batch_size : ℕ
  pub correlation_id : String
  pub now : ℕ
  pub inspect_result : Db → Job → Inspection
  pub audit_id : Job → String
  pub outbox_id : Job → String

pub record Tally : Type 0 where
  pub flagged : ℕ
  pub inspected : ℕ
  pub repaired : ℕ

-- What became of a candidate.
pub data Settled : Type 0 where
  untouched repaired flagged : Settled

-- take: n, where: test
unfoldable pub take_where : (Job → Bool) → ℕ → List Job → List Job
take_where test n [] = []
take_where test zero (r ∷ rows) = []
take_where test (suc n) (r ∷ rows) =
    if test r then r ∷ take_where test n rows else take_where test (suc n) rows

-- where: { leaseExpiresAt: { lte: now }, state: "PROCESSING" }
abbrev pub lease_ran_out : ℕ → Job → Bool
lease_ran_out now r = is_due r.lease_expires_at now && same_state r.state processing

-- where: { nextAttemptAt: { lte: now }, state: "RETRY_SCHEDULED" }
abbrev pub retry_ran_out : ℕ → Job → Bool
retry_ran_out now r = is_due r.next_attempt_at now && same_state r.state retry_scheduled

-- queueDeliveryExpirySeconds
abbrev pub queue_delivery_expiry_seconds : ℕ
queue_delivery_expiry_seconds = 900

abbrev pub was_lost : ℕ → Outbox → Bool
was_lost now o =
    not (is_some o.cancelled_at)
    && if_found o.dispatched_at false λ at. leb (at + queue_delivery_expiry_seconds * 1_000) now

abbrev pub is_lost : ℕ → List Outbox → Job → Bool
is_lost now outbox r =
    not (is_some r.lease_id)
    && (is_some (find_first (λ o. is_outbox_of r.id o && was_lost now o) outbox)
        && same_state r.state queued)

-- where: { outbox: null, state: "QUEUED" }
abbrev pub has_no_outbox : List Outbox → Job → Bool
has_no_outbox outbox r =
    not (is_some (find_first (is_outbox_of r.id) outbox)) && same_state r.state queued

abbrev pub repair_of : SweepOptions → String → Job → Repair
repair_of o correlation_id job = record {
  workspace_id = job.workspace_id;
  correlation_id = correlation_id;
  audit_id = o.audit_id job;
  outbox_id = o.outbox_id job;
  now = o.now;
}

abbrev pub recovery_of : SweepOptions → String → Job → RecoveryInput
recovery_of o correlation_id job = record {
  workspace_id = job.workspace_id;
  now = o.now;
  audit = some (record {
    id = o.audit_id job;
    actor_service = "job-reconciler";
    correlation_id = correlation_id;
  });
}

abbrev pub settles : Settled → Result (Bool × Db) → Result (Settled × Db)
settles s m = m >>= λ r. ok (if r.0 then s else untouched, r.1)

-- The last pass: what becomes of a job whose result was inspected.
unfoldable pub settle_inspected :
    SweepOptions → String → Inspection → Job → Db → Result (Settled × Db)
settle_inspected o correlation_id unsupported job db = ok (untouched, db)
settle_inspected o correlation_id absent job db =
    if same_state job.state succeeded
    then settles flagged
        (flag_ambiguous_job (repair_of o correlation_id job) job.id "SUCCEEDED_RESULT_MISSING" db)
    else ok (untouched, db)
settle_inspected o correlation_id present job db =
    if same_state job.state succeeded
    then ok (untouched, db)
    else if same_state job.state failed_attention || is_some job.cancellation_requested_at
    then settles flagged
        (flag_ambiguous_job (repair_of o correlation_id job) job.id "TERMINAL_RESULT_CONFLICT" db)
    else settles repaired (repair_committed_result (repair_of o correlation_id job) job.id db db)

-- The passes, in the order of the sweep.
pub data Pass : Type 0 where
  expired due_retries stranded missing_outbox results : Pass

unfoldable pub candidates : SweepOptions → Pass → Db → List Job
candidates o expired db = take_where (lease_ran_out o.now) o.batch_size db.jobs
candidates o due_retries db = take_where (retry_ran_out o.now) o.batch_size db.jobs
candidates o stranded db = take_where (is_lost o.now db.outbox) o.batch_size db.jobs
candidates o missing_outbox db = take_where (has_no_outbox db.outbox) o.batch_size db.jobs
candidates o results db = take_where (λ r. true) o.batch_size db.jobs

unfoldable pub settle : SweepOptions → String → Pass → Job → Db → Result (Settled × Db)
settle o id expired job db =
    settles repaired (recover_expired_lease (recovery_of o id job) job.id db db)
settle o id due_retries job db =
    settles repaired (requeue_due_retry (repair_of o id job) job.id db db)
settle o id stranded job db =
    settles repaired (requeue_stranded_delivery (repair_of o id job) job.id db db)
settle o id missing_outbox job db =
    settles repaired (repair_missing_outbox (repair_of o id job) job.id db db)
settle o id results job db = settle_inspected o id (o.inspect_result db job) job db

abbrev pub count : Settled → Tally → Tally
count untouched t = record t { inspected = t.inspected + 1 }
count repaired t = record t { inspected = t.inspected + 1; repaired = t.repaired + 1 }
count flagged t = record t { inspected = t.inspected + 1; flagged = t.flagged + 1 }

-- The loop over the candidates. A repair that throws ends the sweep; those before it have committed.
unfoldable pub settle_all : SweepOptions → String → Pass → List Job → Tally → Db → Result Tally × Db
settle_all o id pass [] t db = (ok t, db)
settle_all o id pass (job ∷ jobs) t db = elim (settle o id pass job db) [
  | err e ↦ (err e, db)
  | ok r ↦ settle_all o id pass jobs (count r.0 t) r.1
]

unfoldable pub run_passes : SweepOptions → String → List Pass → Tally → Db → Result Tally × Db
run_passes o id [] t db = (ok t, db)
run_passes o id (pass ∷ passes) t db =
    let done = settle_all o id pass (candidates o pass db) t db in
    elim done.0 [ err e ↦ (err e, done.1) | ok counted ↦ run_passes o id passes counted done.1 ]

abbrev pub no_tally : Tally
no_tally = record { flagged = 0; inspected = 0; repaired = 0 }

abbrev pub all_passes : List Pass
all_passes = expired ∷ due_retries ∷ stranded ∷ missing_outbox ∷ results ∷ []

unfoldable pub reconcile_background_jobs : SweepOptions → Db → Result Tally × Db
reconcile_background_jobs o db =
    if_found (parse_correlation_id o.correlation_id)
      (err (validation_error "JOB_RECONCILIATION_CORRELATION_INVALID"), db)
      λ id.
        if leb 1 o.batch_size && leb o.batch_size 100
        then run_passes o id all_passes no_tally db
        else (err (validation_error "JOB_RECONCILIATION_BATCH_INVALID"), db)
