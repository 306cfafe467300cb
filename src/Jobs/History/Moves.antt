-- ===== src/Jobs/History/Moves.antt =====
-- What every transaction of packages/db does to the rows of background_jobs, and what any
-- interleaving of them adds up to.
use content_automation.Base.{◌∙◌, ℕ, String, ◌≡◌, refl}
use content_automation.Base.Tests.{◌==◌}
use content_automation.Base.Rows.{update_many, count_where}
use content_automation.Base.Pointwise.{
  Extends, Extends-refl, Extends-map, Extends-trans, Extends-Pointwise,
}
use content_automation.Errors.{
  Result, ok, Yields, Yields-bind, Yields-ok, Yields-ensure, Yields-rescue, job_lease_lost,
}
use content_automation.Jobs.Store.{Job, Db, holds_lease}
use content_automation.Jobs.Commit.{is_committable, succeed, succeed_attempt, commit_job_success}
use content_automation.Jobs.Steps.Rows.{
  Settles, Settles-refl, Settles-trans, Step-Settles, succeed-Step, Evolves, Step,
}
use content_automation.Jobs.Steps.Execution.{
  Steps, Steps-refl, steps_by, claim-Steps, heartbeat-Steps, stage-Steps, check_cancellation-Steps,
  retry_due-Steps, recover_expired_lease-Steps, commit_job_failure-Steps,
}
use content_automation.Jobs.Steps.Operators.{
  cancel_background_job-Steps, retry_background_job-Steps,
}
use content_automation.Jobs.Steps.Reconciliation.{
  requeue_due_retry-Steps, requeue_stranded_delivery-Steps, repair_missing_outbox-Steps,
  flag_ambiguous_job-Steps, repair_committed_result-Updates,
}
use content_automation.Jobs.Steps.Delivery.{
  Appends, Marks-Steps, enqueue-Appends, leased-Marks, settle_dispatch-Marks,
}
use content_automation.Jobs.History.{
  Enqueues, nothing, one, Transaction, enqueue, claim, heartbeat, enter_stage, cancellation,
  release, recovery, success, failure, cancel, retry, requeue, restrand, reoutbox, flag,
  lease_batch, settle_delivery, Write, regular, repair, Later, here, then,
}

-- Each row moves along the state machine at most, and rows may have been added behind.
abbrev pub MovesOn : Db → Db → Type 0
MovesOn db db' = Extends Step db.jobs db'.jobs

moved : (db after : Db) → Steps db after → MovesOn db after
moved db after s = Extends-Pointwise Step db.jobs after.jobs s

Appends-trans : (db mid after : Db) → Appends db mid → Appends mid after → Appends db after
Appends-trans db mid after h k =
    Extends-trans (λ (r s : Job). s ≡ r) (λ (r s : Job). s ≡ r) (λ (r s : Job). s ≡ r)
      (λ r s t p q. q ∙ p) db.jobs mid.jobs after.jobs h k

pub Enqueues-Appends : (db after : Db) → Enqueues db after → Appends db after
Enqueues-Appends db after (nothing _) = Extends-refl (λ (r s : Job). s ≡ r) (λ r. refl) db.jobs
Enqueues-Appends db after (one i r _ mid _ e more) =
    Appends-trans db mid after ((enqueue-Appends i db).of _ e) (Enqueues-Appends mid after more)

-- Where rows move on and others are added behind, the rows move on.
moves_then_adds : (db mid after : Db) → Steps db mid → Appends mid after → MovesOn db after
moves_then_adds db mid after h k =
    Extends-trans Step (λ (r s : Job). s ≡ r) Step (λ r s t p q. rw q p) db.jobs mid.jobs after.jobs
      (Extends-Pointwise Step db.jobs mid.jobs h) k

abbrev pub OnlyEnqueues : (Db → Result Db) → Type 0
OnlyEnqueues commit = (d d' : Db) → commit d ≡ ok d' → Enqueues d d'

success-MovesOn :
    (commit : Db → Result Db) (w j l : String) (at : ℕ) (db : Db)
    → OnlyEnqueues commit
    → Yields (MovesOn db) (commit_job_success commit w j l at db)
unfolding commit_job_success
success-MovesOn commit w j l at db k =
    let js = steps_by (is_committable w j l) (succeed at) db.jobs (succeed-Step w j l at) in
    let marked : Db = record db {
      jobs = update_many (is_committable w j l) (succeed at) db.jobs;
    } in
    let committed : Yields (Appends marked) (commit marked) = record {
      of = λ after e. Enqueues-Appends marked after (k marked after e);
    } in
    let attempted = λ (e : Db) (a : Appends marked e).
      Yields-ensure {P = MovesOn db} (count_where (holds_lease l) e.attempts == 1) job_lease_lost
        (ok (record e { attempts = update_many (holds_lease l) (succeed_attempt at) e.attempts }))
        (λ _. Yields-ok _ (moves_then_adds db marked e js a)) in
    Yields-rescue _ _ (
      Yields-ensure (count_where (is_committable w j l) db.jobs == 1) _ _
        (λ _. Yields-bind _ _ committed attempted))

-- A committed transaction, other than the repair of a committed result, keeps every row of
-- background_jobs in its place, with its identifier and workspace; the row is left as it is but for
-- its dispatch status, or its version goes up, and its state stays or moves along an allowed
-- transition; new rows are added behind.
pub transaction-MovesOn : (seen db after : Db) → Transaction seen db after → MovesOn db after
transaction-MovesOn seen db after (enqueue i r _ e) =
    moves_then_adds db db after (Steps-refl db) ((enqueue-Appends i db).of _ e)
transaction-MovesOn seen db after (claim i j r _ e) =
    moved db after ((claim-Steps i j seen db).of _ e)
transaction-MovesOn seen db after (heartbeat w j l at n _ e) =
    moved db after ((heartbeat-Steps w j l at n db).of _ e)
transaction-MovesOn seen db after (enter_stage w j l s at _ e) =
    moved db after ((stage-Steps w j l s at db).of _ e)
transaction-MovesOn seen db after (cancellation w j l at r _ e) =
    moved db after ((check_cancellation-Steps w j l at seen db).of _ e)
transaction-MovesOn seen db after (release w j at r _ e) =
    moved db after ((retry_due-Steps w j at db).of _ e)
transaction-MovesOn seen db after (recovery i j r _ e) =
    moved db after ((recover_expired_lease-Steps i j seen db).of _ e)
transaction-MovesOn seen db after (success commit w j l at _ k e) =
    (success-MovesOn commit w j l at db k).of _ e
transaction-MovesOn seen db after (failure f n w j l at _ e) =
    moved db after ((commit_job_failure-Steps f n w j l at db).of _ e)
transaction-MovesOn seen db after (cancel i r _ e) =
    moved db after ((cancel_background_job-Steps i seen db).of _ e)
transaction-MovesOn seen db after (retry i o r _ e) =
    moved db after ((retry_background_job-Steps i o seen db).of _ e)
transaction-MovesOn seen db after (requeue i j r _ e) =
    moved db after ((requeue_due_retry-Steps i j seen db).of _ e)
transaction-MovesOn seen db after (restrand i j r _ e) =
    moved db after ((requeue_stranded_delivery-Steps i j seen db).of _ e)
transaction-MovesOn seen db after (reoutbox i j r _ e) =
    moved db after ((repair_missing_outbox-Steps i j seen db).of _ e)
transaction-MovesOn seen db after (flag i j code r _ e) =
    moved db after ((flag_ambiguous_job-Steps i j code db).of _ e)
transaction-MovesOn seen db after (lease_batch o _ e) =
    moved db after (Marks-Steps db after (rw (← e) (leased-Marks o db)))
transaction-MovesOn seen db after (settle_delivery o l p _ e) =
    moved db after (Marks-Steps db after (rw (← e) (settle_dispatch-Marks o l p db)))

abbrev pub Evolve : Db → Db → Type 0
Evolve db after = Extends Evolves db.jobs after.jobs

abbrev pub Settle : Db → Db → Type 0
Settle db after = Extends Settles db.jobs after.jobs

Write-Settle : (seen db after : Db) → Write seen db after → Settle db after
Write-Settle seen db after (regular t) =
    Extends-map Step Settles Step-Settles db.jobs after.jobs (transaction-MovesOn seen db after t)
Write-Settle seen db after (repair i j r e) =
    Extends-Pointwise Settles db.jobs after.jobs
      ((repair_committed_result-Updates i j seen db).of _ e)

-- Over any history, every row of background_jobs stays in its place, with its identifier and its
-- workspace; its version never falls, and where it is the same, only the dispatch status may differ;
-- and a job that has succeeded or was cancelled stays in that state.
pub Later-Settle : (before db : Db) → Later before db → Settle before db
Later-Settle before db (here _) = Extends-refl Settles Settles-refl before.jobs
Later-Settle before db (then _ seen mid _ past read write) =
    Extends-trans Settles Settles Settles Settles-trans before.jobs mid.jobs db.jobs
      (Later-Settle before mid past) (Write-Settle seen mid db write)

pub Later-Evolve : (before db : Db) → Later before db → Evolve before db
Later-Evolve before db h =
    Extends-map Settles Evolves (λ r s k. k.evolves) before.jobs db.jobs (Later-Settle before db h)
