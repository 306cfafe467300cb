-- ===== src/Jobs/History/Safety.antt =====
-- What every interleaving of the transactions of packages/db on background jobs keeps.
use content_automation.Base.{sym, ℕ, String, ap}
use content_automation.Base.Tests.{◌==◌}
use content_automation.Base.Rows.{update_many, count_where}
use content_automation.Base.Pointwise.{Pointwise-map}
use content_automation.Errors.{
  Result, ok, Yields, Yields-bind, Yields-ok, Yields-ensure, Yields-rescue, job_lease_lost,
}
use content_automation.Jobs.Store.{Db, holds_lease}
use content_automation.Jobs.Commit.{is_committable, succeed, succeed_attempt, commit_job_success}
use content_automation.Jobs.Constraints.Checks.{Checks}
use content_automation.Jobs.Constraints.Execution.{claim-Checks, heartbeat-Checks, stage-Checks}
use content_automation.Jobs.Constraints.Settlement.{
  check_cancellation-Checks, retry_due-Checks, recover_expired_lease-Checks,
  commit_job_failure-Checks, commit_job_success-Checks,
}
use content_automation.Jobs.Constraints.Operators.{cancel_background_job-Checks}
use content_automation.Jobs.Constraints.Retry.{retry_background_job-Checks}
use content_automation.Jobs.Constraints.Reconciliation.{
  requeue_due_retry-Checks, requeue_stranded_delivery-Checks, repair_missing_outbox-Checks,
  repair_committed_result-Checks, flag_ambiguous_job-Checks,
}
use content_automation.Jobs.Constraints.Delivery.{
  enqueue-Checks, leased-Checks, settle_dispatch-Checks,
}
use content_automation.Jobs.Steps.Rows.{Settles, Evolves, succeed-Step}
use content_automation.Jobs.Steps.Agreement.{
  AgreeWith, Distinct, Evolves-AgreeWith, Evolves-Distinct, Steps-Distinct,
}
use content_automation.Jobs.Steps.Execution.{
  steps_by, claim-Steps, heartbeat-Steps, stage-Steps, check_cancellation-Steps, retry_due-Steps,
  recover_expired_lease-Steps, commit_job_failure-Steps,
}
use content_automation.Jobs.Steps.Operators.{
  cancel_background_job-Steps, retry_background_job-Steps,
}
use content_automation.Jobs.Steps.Reconciliation.{
  requeue_due_retry-Steps, requeue_stranded_delivery-Steps, repair_missing_outbox-Steps,
  flag_ambiguous_job-Steps, repair_committed_result-Updates,
}
use content_automation.Jobs.Steps.Delivery.{Marks-Steps, leased-Marks, settle_dispatch-Marks}
use content_automation.Jobs.History.Moves.{OnlyEnqueues, Later-Evolve}
use content_automation.Jobs.History.{
  Transaction, enqueue, claim, heartbeat, enter_stage, cancellation, release, recovery, success,
  failure, cancel, retry, requeue, restrand, reoutbox, flag, lease_batch, settle_delivery, Write,
  regular, repair, Later, here, then,
}
use content_automation.Base.{◌∙◌, List, [], ◌∷◌, ap, sym}
use content_automation.Base.Tests.{leb}
use content_automation.Base.Rows.{All}
use content_automation.Base.Pointwise.{Extends}
use content_automation.Jobs.Steps.Rows.{Evolves}
use content_automation.Jobs.Constraints.Checks.{IsHandled, JobChecks}
use content_automation.Jobs.Store.{Job}
use content_automation.Jobs.History.Identifiers.{
  Sound, enqueue-Distinct, Enqueues-Checks, Enqueues-Distinct, stepped,
}

success-Checks :
    (commit : Db → Result Db) (w j l : String) (at : ℕ) (db : Db)
    → OnlyEnqueues commit
    → Checks db
    → Yields Checks (commit_job_success commit w j l at db)
success-Checks commit w j l at db k c =
    commit_job_success-Checks commit w j l at db
      (λ b h. record { of = λ after e. Enqueues-Checks b after h (k b after e) }) c

success-Distinct :
    (commit : Db → Result Db) (w j l : String) (at : ℕ) (db : Db)
    → OnlyEnqueues commit
    → Distinct db.jobs
    → Yields (λ after. Distinct after.jobs) (commit_job_success commit w j l at db)
unfolding commit_job_success
success-Distinct commit w j l at db k d =
    let js = steps_by (is_committable w j l) (succeed at) db.jobs (succeed-Step w j l at) in
    let marked : Db = record db {
      jobs = update_many (is_committable w j l) (succeed at) db.jobs;
    } in
    let committed : Yields (λ after. Distinct after.jobs) (commit marked) = record {
      of = λ after e.
          Enqueues-Distinct marked after (Steps-Distinct db.jobs marked.jobs js d)
            (k marked after e);
    } in
    let attempted = λ (e : Db) (a : Distinct e.jobs).
      Yields-ensure {P = λ (after : Db). Distinct after.jobs}
        (count_where (holds_lease l) e.attempts == 1) job_lease_lost
        (ok (record e { attempts = update_many (holds_lease l) (succeed_attempt at) e.attempts }))
        (λ _. Yields-ok _ a) in
    Yields-rescue _ _ (
      Yields-ensure (count_where (is_committable w j l) db.jobs == 1) _ _
        (λ _. Yields-bind _ _ committed attempted))

transaction-Sound :
    (seen db after : Db)
    → All IsHandled seen.jobs
    → AgreeWith seen.jobs db.jobs
    → Sound db
    → Transaction seen db after
    → Sound after
transaction-Sound seen db after hn a (c, d) (enqueue i r _ e) =
    ((enqueue-Checks i db c).of _ e, (enqueue-Distinct i db d).of _ e)
transaction-Sound seen db after hn a (c, d) (claim i j r _ e) =
    stepped db after d ((claim-Checks i j seen db hn a c).of _ e) ((claim-Steps i j seen db).of _ e)
transaction-Sound seen db after hn a (c, d) (heartbeat w j l at n _ e) =
    stepped db after d ((heartbeat-Checks w j l at n db c).of _ e)
      ((heartbeat-Steps w j l at n db).of _ e)
transaction-Sound seen db after hn a (c, d) (enter_stage w j l s at _ e) =
    stepped db after d ((stage-Checks w j l s at db c).of _ e) ((stage-Steps w j l s at db).of _ e)
transaction-Sound seen db after hn a (c, d) (cancellation w j l at r _ e) =
    stepped db after d ((check_cancellation-Checks w j l at seen db c).of _ e)
      ((check_cancellation-Steps w j l at seen db).of _ e)
transaction-Sound seen db after hn a (c, d) (release w j at r _ e) =
    stepped db after d ((retry_due-Checks w j at db c).of _ e) ((retry_due-Steps w j at db).of _ e)
transaction-Sound seen db after hn a (c, d) (recovery i j r _ e) =
    stepped db after d ((recover_expired_lease-Checks i j seen db c).of _ e)
      ((recover_expired_lease-Steps i j seen db).of _ e)
transaction-Sound seen db after hn a (c, d) (success commit w j l at _ k e) = (
  (success-Checks commit w j l at db k c).of _ e,
  (success-Distinct commit w j l at db k d).of _ e,
)
transaction-Sound seen db after hn a (c, d) (failure f n w j l at _ e) =
    stepped db after d ((commit_job_failure-Checks f n w j l at db c).of _ e)
      ((commit_job_failure-Steps f n w j l at db).of _ e)
transaction-Sound seen db after hn a (c, d) (cancel i r _ e) =
    stepped db after d ((cancel_background_job-Checks i seen db c).of _ e)
      ((cancel_background_job-Steps i seen db).of _ e)
transaction-Sound seen db after hn a (c, d) (retry i o r _ e) =
    stepped db after d ((retry_background_job-Checks i o seen db hn a c).of _ e)
      ((retry_background_job-Steps i o seen db).of _ e)
transaction-Sound seen db after hn a (c, d) (requeue i j r _ e) =
    stepped db after d ((requeue_due_retry-Checks i j seen db hn c).of _ e)
      ((requeue_due_retry-Steps i j seen db).of _ e)
transaction-Sound seen db after hn a (c, d) (restrand i j r _ e) =
    stepped db after d ((requeue_stranded_delivery-Checks i j seen db hn c).of _ e)
      ((requeue_stranded_delivery-Steps i j seen db).of _ e)
transaction-Sound seen db after hn a (c, d) (reoutbox i j r _ e) =
    stepped db after d ((repair_missing_outbox-Checks i j seen db hn c).of _ e)
      ((repair_missing_outbox-Steps i j seen db).of _ e)
transaction-Sound seen db after hn a (c, d) (flag i j code r _ e) =
    stepped db after d ((flag_ambiguous_job-Checks i j code db c).of _ e)
      ((flag_ambiguous_job-Steps i j code db).of _ e)
transaction-Sound seen db after hn a (c, d) (lease_batch o _ e) =
    stepped db after d (rw (← e) (leased-Checks o db c))
      (Marks-Steps db after (rw (← e) (leased-Marks o db)))
transaction-Sound seen db after hn a (c, d) (settle_delivery o l p _ e) =
    stepped db after d (rw (← e) (settle_dispatch-Checks o l p db c))
      (Marks-Steps db after (rw (← e) (settle_dispatch-Marks o l p db)))

-- No transaction changes a handler version.
earlier-IsHandled :
    (seen rows : List Job) → Extends Evolves seen rows → All JobChecks rows → All IsHandled seen
earlier-IsHandled [] rows e h = tt
earlier-IsHandled (x ∷ seen) [] e h = elim e [ ]
earlier-IsHandled (x ∷ seen) (r ∷ rows) e h =
    (ap (leb 1) (sym e.0.handler_version) ∙ h.0.handler, earlier-IsHandled seen rows e.1 h.1)

Write-Sound :
    (seen db after : Db)
    → All IsHandled seen.jobs
    → AgreeWith seen.jobs db.jobs
    → Sound db
    → Write seen db after
    → Sound after
Write-Sound seen db after n a h (regular t) = transaction-Sound seen db after n a h t
Write-Sound seen db after n a h (repair i j r e) = (
  (repair_committed_result-Checks i j seen db h.0).of _ e,
  Evolves-Distinct db.jobs after.jobs
      (Pointwise-map Settles Evolves db.jobs after.jobs (λ r s k. k.evolves)
        ((repair_committed_result-Updates i j seen db).of _ e))
      h.1,
)

-- Whatever transactions commit, in whatever interleaving, each on reads that may be out of date by
-- any number of commits: where the database passes the CHECK constraints and the identifiers of its
-- jobs are distinct, so it is after them.
pub Later-Sound : (before db : Db) → Sound before → Later before db → Sound db
Later-Sound before db h (here _) = h
Later-Sound before db h (then _ seen mid _ past read write) =
    let sound = Later-Sound before mid h past in
    let evolved = Later-Evolve seen mid read in
    Write-Sound seen mid db (earlier-IsHandled seen.jobs mid.jobs evolved sound.0.jobs)
      (Evolves-AgreeWith seen.jobs mid.jobs sound.1 evolved) sound write
