-- ===== src/Jobs/Constraints/Settlement.antt =====
-- The transactions of packages/db/src/job-execution.ts that end an attempt, or put a job back, leave
-- only rows that pass the CHECK constraints of their tables.
use content_automation.Base.{ℕ, String, ◌≡◌, Bool, true, not, ◌&&◌, List, arith}
use content_automation.Base.Tests.{◌==◌, is_some}
use content_automation.Base.Rows.{All, All-if, All-update_many, update_many, count_where}
use content_automation.Domain.Lifecycle.{queued, same_state}
use content_automation.Domain.Retry.{JobFailure, RetryDecision}
use content_automation.Errors.{
  Result, Yields, Yields-rescue, Yields-bind, Yields-ok, Yields-ensure, ok, job_lease_lost, yields,
}
use content_automation.Jobs.Store.{Job, Attempt, Outbox, Db, holds_lease, is_outbox_of}
use content_automation.Jobs.Constraints.Checks.{JobChecks, AttemptChecks, OutboxChecks, Checks}
use content_automation.Jobs.Constraints.Rows.{
  settle_cancellation-JobChecks, cancel_attempt-AttemptChecks, cancel_outbox_row-OutboxChecks,
  release_retry-JobChecks, recover-JobChecks, close_attempt-AttemptChecks, redeliver-OutboxChecks,
  succeed-JobChecks, succeed_attempt-AttemptChecks, fail-JobChecks, fail_attempt-AttemptChecks,
}
use content_automation.Jobs.Constraints.Execution.{Checks-intro}
use content_automation.Jobs.Lease.{
  holds_lease_in, is_cancellable, settle_cancellation, cancel_attempt, cancel_outbox_row,
  write_cancellation, check_cancellation,
}
use content_automation.Jobs.Recovery.{
  RecoveryInput, asked_to_cancel, recovered_state, is_retry_due, release_retry, is_recoverable,
  recover, close_attempt, redeliver, recover_outbox, make_background_job_retry_due, write_recovery,
  recover_expired_lease,
}
use content_automation.Jobs.Commit.{
  is_committable, succeed, succeed_attempt, fail, fail_attempt, commit_job_success,
  commit_job_failure,
}

pub holds_lease_in-holds_lease :
    (w l : String) (a : Attempt) → holds_lease_in w l a ≡ true → holds_lease l a ≡ true
holds_lease_in-holds_lease w l a t = ground arith

write_cancellation-Checks :
    (w l : String) (at : ℕ) (job : Job) (db : Db)
    → Checks db
    → Yields Checks (write_cancellation w l at job db)
unfolding write_cancellation
write_cancellation-Checks w l at job db h =
    let js =
      All-update_many JobChecks (is_cancellable w l job) (settle_cancellation at) db.jobs
        (λ r _. settle_cancellation-JobChecks at r) h.jobs in
    let as' =
      All-update_many AttemptChecks (holds_lease_in w l) (cancel_attempt at) db.attempts
        (λ a t. cancel_attempt-AttemptChecks l at a (holds_lease_in-holds_lease w l a t))
        h.attempts in
    let os =
      All-update_many OutboxChecks (is_outbox_of job.id) (cancel_outbox_row at) db.outbox
        (λ o _. cancel_outbox_row-OutboxChecks at o) h.outbox in
    search (yields, Checks-intro, js, as', os)

pub check_cancellation-Checks :
    (w j l : String) (at : ℕ) (seen db : Db)
    → Checks db
    → Yields (λ r. Checks r.1) (check_cancellation w j l at seen db)
unfolding check_cancellation
check_cancellation-Checks w j l at seen db h =
    let written = λ (job : Job). write_cancellation-Checks w l at job db h in
    let cancelled = λ (job : Job).
      Yields-bind {P = λ (r : Bool × Db). Checks r.1} (write_cancellation w l at job db)
        (λ d. ok (true, d)) (written job) (λ d k. Yields-ok (true, d) k) in
    search (yields, cancelled)

pub retry_due-Checks :
    (w j : String) (now : ℕ) (db : Db)
    → Checks db
    → Yields (λ r. Checks r.1) (make_background_job_retry_due w j now db)
unfolding make_background_job_retry_due
retry_due-Checks w j now db h =
    let js =
      All-update_many JobChecks (is_retry_due w j now) (release_retry now) db.jobs
        (release_retry-JobChecks w j now) h.jobs in
    search (yields, Checks-intro, js)

recover_outbox-OutboxChecks :
    (c : RecoveryInput) (job : Job) (rows : List Outbox)
    → All OutboxChecks rows
    → All OutboxChecks (recover_outbox c job rows)
unfolding same_state
recover_outbox-OutboxChecks c job rows h =
    let cancelled =
      All-update_many OutboxChecks (is_outbox_of job.id) (cancel_outbox_row c.now) rows
        (λ o _. cancel_outbox_row-OutboxChecks c.now o) h in
    let redelivered =
      All-update_many OutboxChecks (λ o. is_outbox_of job.id o && not (is_some o.cancelled_at))
        (redeliver c.now) rows (λ o _. redeliver-OutboxChecks c.now o) h in
    All-if OutboxChecks (asked_to_cancel job) _ _ cancelled
      (All-if OutboxChecks (same_state (recovered_state job) queued) _ _ redelivered h)

write_recovery-Checks :
    (c : RecoveryInput) (l : String) (job : Job) (db : Db)
    → Checks db
    → Yields (λ r. Checks r.1) (write_recovery c l job db)
unfolding write_recovery
write_recovery-Checks c l job db h =
    let js =
      All-update_many JobChecks (is_recoverable c l job) (recover c job) db.jobs
        (recover-JobChecks c l job) h.jobs in
    let as' =
      All-update_many AttemptChecks (holds_lease l) (close_attempt c job) db.attempts
        (close_attempt-AttemptChecks c l job) h.attempts in
    let os = recover_outbox-OutboxChecks c job db.outbox h.outbox in
    search (yields, Checks-intro, js, as', os) depth 8

pub recover_expired_lease-Checks :
    (c : RecoveryInput) (j : String) (seen db : Db)
    → Checks db
    → Yields (λ r. Checks r.1) (recover_expired_lease c j seen db)
unfolding recover_expired_lease
recover_expired_lease-Checks c j seen db h =
    let written = λ (l : String) (job : Job). write_recovery-Checks c l job db h in
    search (yields, written) depth 8

pub commit_job_failure-Checks :
    (f : JobFailure) (d : RetryDecision) (w j l : String) (at : ℕ) (db : Db)
    → Checks db
    → Yields Checks (commit_job_failure f d w j l at db)
unfolding commit_job_failure
commit_job_failure-Checks f d w j l at db h =
    let js =
      All-update_many JobChecks (is_committable w j l) (fail f d at) db.jobs
        (λ r _. fail-JobChecks f d at r) h.jobs in
    let as' =
      All-update_many AttemptChecks (holds_lease l) (fail_attempt f d at) db.attempts
        (λ a _. fail_attempt-AttemptChecks f d at a) h.attempts in
    search (yields, Checks-intro, js, as') depth 8

-- The last write of a success.
keep_succeeded :
    (l : String) (at : ℕ) (db : Db)
    → Checks db
    → Checks (record db { attempts = update_many (holds_lease l) (succeed_attempt at) db.attempts })
keep_succeeded l at db h = record {
  jobs = h.jobs;
  attempts =
      All-update_many AttemptChecks (holds_lease l) (succeed_attempt at) db.attempts
        (succeed_attempt-AttemptChecks l at) h.attempts;
  outbox = h.outbox;
}

pub commit_job_success-Checks :
    (commit : Db → Result Db) (w j l : String) (at : ℕ) (db : Db)
    → ((d : Db) → Checks d → Yields Checks (commit d))
    → Checks db
    → Yields Checks (commit_job_success commit w j l at db)
unfolding commit_job_success
commit_job_success-Checks commit w j l at db keeps h =
    let js =
      All-update_many JobChecks (is_committable w j l) (succeed at) db.jobs
        (succeed-JobChecks w j l at) h.jobs in
    let marked =
      Checks-intro (record db { jobs = update_many (is_committable w j l) (succeed at) db.jobs }) js
        h.attempts h.outbox in
    let committed = keeps _ marked in
    let attempted = λ (d : Db) (k : Checks d).
      Yields-ensure {P = Checks} (count_where (holds_lease l) d.attempts == 1) job_lease_lost
        (ok (record d { attempts = update_many (holds_lease l) (succeed_attempt at) d.attempts }))
        (λ _. Yields-ok _ (keep_succeeded l at d k)) in
    Yields-rescue _ _ (
      Yields-ensure (count_where (is_committable w j l) db.jobs == 1) _ _
        (λ _. Yields-bind _ _ committed attempted))
