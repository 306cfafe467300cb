-- ===== src/Jobs/History.antt =====
-- The transactions of packages/db on background jobs as one step relation, and their interleavings.
-- A transaction reads first and writes later: its reads stand at an earlier point of the history
-- than its writes.
pub mod Passes
pub mod Moves
pub mod Safety
pub mod Exclusion
pub mod Once
pub mod Identifiers
use content_automation.Base.{ℕ, String, ◌≡◌, Bool}
use content_automation.Domain.Retry.{JobFailure, RetryDecision}
use content_automation.Errors.{Result, ok}
use content_automation.Jobs.Store.{Db}
use content_automation.Jobs.Claim.{ClaimInput, ClaimResult, claim_background_job}
use content_automation.Jobs.Lease.{
  heartbeat_background_job, record_background_job_stage, check_cancellation,
}
use content_automation.Jobs.Recovery.{
  RecoveryInput, make_background_job_retry_due, recover_expired_lease,
}
use content_automation.Jobs.Commit.{commit_job_success, commit_job_failure}
use content_automation.Jobs.Operations.{cancel_background_job}
use content_automation.Jobs.Guard.{Command, OperationResult}
use content_automation.Jobs.Operations.Retry.{RetryOptions, retry_background_job}
use content_automation.Jobs.Reconciliation.{
  Repair, requeue_due_retry, requeue_stranded_delivery, repair_missing_outbox, flag_ambiguous_job,
}
use content_automation.Jobs.CommittedResult.{repair_committed_result}
use content_automation.Jobs.Enqueue.{EnqueueInput, Enqueued, enqueue_in_transaction}
use content_automation.Jobs.Dispatch.{DispatchOptions, Published, lease_rows, settle_dispatch}
use content_automation.Jobs.Store.{Outbox}

-- Follow-up work that a handler's commit callback enqueues in the transaction of its job.
pub data Enqueues : Db → Db → Type 0 where
  nothing : (db : Db) → Enqueues db db
  one :
      (i : EnqueueInput) (r : Enqueued) (db mid after : Db)
      → enqueue_in_transaction i db ≡ ok (r, mid)
      → Enqueues mid after
      → Enqueues db after

-- A committed transaction: what it read, what its writes met, and what they left.
pub data Transaction (seen db : Db) : Db → Type 0 where
  enqueue :
      (i : EnqueueInput) (r : Enqueued) (after : Db)
      → enqueue_in_transaction i db ≡ ok (r, after)
      → Transaction seen db after
  claim :
      (c : ClaimInput) (job_id : String) (r : ClaimResult) (after : Db)
      → claim_background_job c job_id seen db ≡ ok (r, after)
      → Transaction seen db after
  heartbeat :
      (w j l : String) (at d : ℕ) (after : Db)
      → heartbeat_background_job w j l at d db ≡ ok after
      → Transaction seen db after
  enter_stage :
      (w j l s : String) (at : ℕ) (after : Db)
      → record_background_job_stage w j l s at db ≡ ok after
      → Transaction seen db after
  cancellation :
      (w j l : String) (at : ℕ) (r : Bool) (after : Db)
      → check_cancellation w j l at seen db ≡ ok (r, after)
      → Transaction seen db after
  release :
      (w j : String) (now : ℕ) (r : Bool) (after : Db)
      → make_background_job_retry_due w j now db ≡ ok (r, after)
      → Transaction seen db after
  recovery :
      (c : RecoveryInput) (j : String) (r : Bool) (after : Db)
      → recover_expired_lease c j seen db ≡ ok (r, after)
      → Transaction seen db after
  success :
      (commit : Db → Result Db) (w j l : String) (at : ℕ) (after : Db)
      → ((d d' : Db) → commit d ≡ ok d' → Enqueues d d')
      → commit_job_success commit w j l at db ≡ ok after
      → Transaction seen db after
  failure :
      (f : JobFailure) (d : RetryDecision) (w j l : String) (at : ℕ) (after : Db)
      → commit_job_failure f d w j l at db ≡ ok after
      → Transaction seen db after
  cancel :
      (c : Command) (r : OperationResult) (after : Db)
      → cancel_background_job c seen db ≡ ok (r, after)
      → Transaction seen db after
  retry :
      (c : Command) (o : RetryOptions) (r : OperationResult) (after : Db)
      → retry_background_job c o seen db ≡ ok (r, after)
      → Transaction seen db after
  requeue :
      (c : Repair) (j : String) (r : Bool) (after : Db)
      → requeue_due_retry c j seen db ≡ ok (r, after)
      → Transaction seen db after
  restrand :
      (c : Repair) (j : String) (r : Bool) (after : Db)
      → requeue_stranded_delivery c j seen db ≡ ok (r, after)
      → Transaction seen db after
  reoutbox :
      (c : Repair) (j : String) (r : Bool) (after : Db)
      → repair_missing_outbox c j seen db ≡ ok (r, after)
      → Transaction seen db after
  flag :
      (c : Repair) (j code : String) (r : Bool) (after : Db)
      → flag_ambiguous_job c j code db ≡ ok (r, after)
      → Transaction seen db after
  -- leasePendingOutbox
  lease_batch :
      (d : DispatchOptions) (after : Db)
      → record db { outbox = lease_rows d d.batch_size db.outbox } ≡ after
      → Transaction seen db after
  -- markOutboxDispatched, or the update of a row whose delivery failed
  settle_delivery :
      (d : DispatchOptions) (leased : Outbox) (p : Published) (after : Db)
      → (settle_dispatch d leased p db).1 ≡ after
      → Transaction seen db after

-- With the one repair that may move a job outside of the state machine.
pub data Write (seen db after : Db) : Type 0 where
  regular : Transaction seen db after → Write seen db after
  repair :
      (c : Repair) (j : String) (r : Bool)
      → repair_committed_result c j seen db ≡ ok (r, after)
      → Write seen db after

-- `Later before db`: transactions lead from `before` to `db`. Each may have read at any earlier
-- point, and others may have committed since.
pub data Later : Db → Db → Type 0 where
  here : (db : Db) → Later db db
  then :
      (before seen db after : Db)
      → Later before db
      → Later seen db
      → Write seen db after
      → Later before after
