-- ===== src/Jobs/Constraints/Reconciliation.antt =====
-- The repairs of packages/db/src/job-reconciliation.ts against the CHECK constraints.
use content_automation.Base.{ℕ, String, ◌≡◌, Bool, true, [], ◌∷◌, arith}
use content_automation.Base.Rows.{All-append, All-update_many, update_many}
use content_automation.Domain.Lifecycle.{same_state}
use content_automation.Errors.{ok, Yields, Yields-bind, Yields-ok, yields}
use content_automation.Jobs.Store.{Job, Db, is_outbox_of}
use content_automation.Jobs.Lease.{holds_lease_in, cancel_outbox_row}
use content_automation.Jobs.Commit.{succeed_attempt}
use content_automation.Jobs.Operations.Retry.{new_outbox_row}
use content_automation.Jobs.Recovery.{is_retry_due}
use content_automation.Base.{some}
use content_automation.Base.Rows.{All, find_first, All-find_first}
use content_automation.Jobs.Reconciliation.{is_stranded, lacks_outbox}
use content_automation.Jobs.Constraints.Checks.{
  JobChecks, AttemptChecks, OutboxChecks, IsHandled, Checks,
}
use content_automation.Jobs.Constraints.Rows.{
  cancel_outbox_row-OutboxChecks, succeed_attempt-AttemptChecks,
}
use content_automation.Jobs.Constraints.Execution.{Checks-intro}
use content_automation.Jobs.Constraints.Settlement.{holds_lease_in-holds_lease}
use content_automation.Jobs.Constraints.Operators.{
  upsert_outbox-OutboxChecks, new_outbox_row-OutboxChecks,
}
use content_automation.Jobs.Reconciliation.{
  Repair, audited, is_still_due, requeue_retry, write_due_retry, requeue_due_retry, is_same_version,
  mark_pending, write_stranded, requeue_stranded_delivery, write_missing_outbox,
  repair_missing_outbox, is_unflagged, flag, flag_ambiguous_job,
}
use content_automation.Jobs.CommittedResult.{
  is_as_read, complete, complete_attempt, close_committed, write_committed, repair_committed_result,
}

requeue_retry-JobChecks :
    (c : Repair) (job r : Job)
    → is_still_due c job r ≡ true
    → JobChecks r
    → JobChecks (requeue_retry c.now r)
unfolding same_state
requeue_retry-JobChecks c job r t h = ground arith

mark_pending-JobChecks : (r : Job) → JobChecks r → JobChecks (mark_pending r)
mark_pending-JobChecks r h = ground arith

complete-JobChecks : (now : ℕ) (r : Job) → JobChecks r → JobChecks (complete now r)
complete-JobChecks now r h = ground arith

flag-JobChecks : (c : Repair) (code : String) (r : Job) → JobChecks r → JobChecks (flag c code r)
flag-JobChecks c code r h = ground arith

audited-Checks : (c : Repair) (j o r : String) (db : Db) → Checks db → Checks (audited c j o r db)
audited-Checks c j o r db h = Checks-intro _ h.jobs h.attempts h.outbox

write_due_retry-Checks :
    (c : Repair) (job : Job) (db : Db)
    → IsHandled job
    → Checks db
    → Yields (λ r. Checks r.1) (write_due_retry c job db)
unfolding write_due_retry
write_due_retry-Checks c job db n h =
    let js =
      All-update_many JobChecks (is_still_due c job) (requeue_retry c.now) db.jobs
        (requeue_retry-JobChecks c job) h.jobs in
    let os = upsert_outbox-OutboxChecks c.outbox_id c.now job db.outbox n h.outbox in
    search (yields, Checks-intro, js, os) depth 8

pub requeue_due_retry-Checks :
    (c : Repair) (j : String) (seen db : Db)
    → All IsHandled seen.jobs
    → Checks db
    → Yields (λ r. Checks r.1) (requeue_due_retry c j seen db)
unfolding requeue_due_retry
requeue_due_retry-Checks c j seen db handled h =
    let written =
      λ (job : Job) (e : find_first (is_retry_due c.workspace_id j c.now) seen.jobs ≡ some job).
        write_due_retry-Checks c job db (All-find_first IsHandled _ seen.jobs handled e) h in
    search (yields, written)

write_stranded-Checks :
    (c : Repair) (job : Job) (db : Db)
    → IsHandled job
    → Checks db
    → Yields (λ r. Checks r.1) (write_stranded c job db)
unfolding write_stranded
write_stranded-Checks c job db n h =
    let js =
      All-update_many JobChecks (is_same_version c job) mark_pending db.jobs
        (λ r _. mark_pending-JobChecks r) h.jobs in
    let os = upsert_outbox-OutboxChecks c.outbox_id c.now job db.outbox n h.outbox in
    search (yields, Checks-intro, js, os) depth 8

pub requeue_stranded_delivery-Checks :
    (c : Repair) (j : String) (seen db : Db)
    → All IsHandled seen.jobs
    → Checks db
    → Yields (λ r. Checks r.1) (requeue_stranded_delivery c j seen db)
unfolding requeue_stranded_delivery
requeue_stranded_delivery-Checks c j seen db handled h =
    let written = λ (job : Job) (e : find_first (is_stranded c j seen.outbox) seen.jobs ≡ some job).
      write_stranded-Checks c job db (All-find_first IsHandled _ seen.jobs handled e) h in
    search (yields, written)

pub repair_missing_outbox-Checks :
    (c : Repair) (j : String) (seen db : Db)
    → All IsHandled seen.jobs
    → Checks db
    → Yields (λ r. Checks r.1) (repair_missing_outbox c j seen db)
unfolding repair_missing_outbox write_missing_outbox
repair_missing_outbox-Checks c j seen db handled h =
    let os = λ (job : Job) (e : find_first (lacks_outbox c j seen.outbox) seen.jobs ≡ some job).
      All-append OutboxChecks db.outbox (new_outbox_row c.outbox_id c.now job ∷ []) h.outbox (
        new_outbox_row-OutboxChecks c.outbox_id c.now job
            (All-find_first IsHandled _ seen.jobs handled e),
        tt,
      ) in
    search (yields, Checks-intro, os) depth 8

complete_attempt-Checks :
    (c : Repair) (job : Job) (db : Db) → Checks db → Yields Checks (complete_attempt c job db)
unfolding complete_attempt
complete_attempt-Checks c job db h =
    let as' = λ (l : String).
      All-update_many AttemptChecks (holds_lease_in c.workspace_id l) (succeed_attempt c.now)
        db.attempts
        (λ a t.
          succeed_attempt-AttemptChecks l c.now a (holds_lease_in-holds_lease c.workspace_id l a t))
        h.attempts in
    search (yields, Checks-intro, as') depth 8

cancelled_outbox-Checks :
    (c : Repair) (job : Job) (db : Db)
    → Checks db
    → Checks (record db {
      outbox = update_many (is_outbox_of job.id) (cancel_outbox_row c.now) db.outbox;
    })
cancelled_outbox-Checks c job db h = Checks-intro _ h.jobs h.attempts (
    All-update_many OutboxChecks (is_outbox_of job.id) (cancel_outbox_row c.now) db.outbox
      (λ o _. cancel_outbox_row-OutboxChecks c.now o) h.outbox)

close_committed-Checks :
    (c : Repair) (job : Job) (db : Db)
    → Checks db
    → Yields (λ r. Checks r.1) (close_committed c job db)
unfolding close_committed
close_committed-Checks c job db h =
    Yields-bind {P = λ (r : Bool × Db). Checks r.1} (complete_attempt c job db)
      (λ d. ok (
        true,
        audited c job.id "REPAIRED" "COMMITTED_RESULT_STATE_REPAIRED" (record d {
          outbox = update_many (is_outbox_of job.id) (cancel_outbox_row c.now) d.outbox;
        }),
      ))
      (complete_attempt-Checks c job db h)
      λ d k. Yields-ok _ (audited-Checks c _ _ _ _ (cancelled_outbox-Checks c job d k))

write_committed-Checks :
    (c : Repair) (job : Job) (db : Db)
    → Checks db
    → Yields (λ r. Checks r.1) (write_committed c job db)
unfolding write_committed
write_committed-Checks c job db h =
    let js =
      All-update_many JobChecks (is_as_read c job) (complete c.now) db.jobs
        (λ r _. complete-JobChecks c.now r) h.jobs in
    let closed =
      close_committed-Checks c job
        (record db { jobs = update_many (is_as_read c job) (complete c.now) db.jobs })
        (Checks-intro _ js h.attempts h.outbox) in
    search (yields, closed, Checks-intro, js)

pub repair_committed_result-Checks :
    (c : Repair) (j : String) (seen db : Db)
    → Checks db
    → Yields (λ r. Checks r.1) (repair_committed_result c j seen db)
unfolding repair_committed_result
repair_committed_result-Checks c j seen db h =
    let written = λ (job : Job). write_committed-Checks c job db h in search (yields, written)

pub flag_ambiguous_job-Checks :
    (c : Repair) (j r : String) (db : Db)
    → Checks db
    → Yields (λ d. Checks d.1) (flag_ambiguous_job c j r db)
unfolding flag_ambiguous_job
flag_ambiguous_job-Checks c j r db h =
    let js =
      All-update_many JobChecks (is_unflagged c j r) (flag c r) db.jobs
        (λ x _. flag-JobChecks c r x) h.jobs in
    search (yields, Checks-intro, js) depth 8
