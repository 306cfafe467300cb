-- ===== src/Jobs/Constraints/Operators.antt =====
-- The rows and the transactions of packages/db/src/job-operations.ts and
-- packages/db/src/job-reconciliation.ts, against the CHECK constraints.
use content_automation.Base.{ℕ, String, ◌≡◌, true, ◌||◌, List, [], ◌∷◌, arith}
use content_automation.Base.Rows.{All, All-if, All-append, All-update_many}
use content_automation.Domain.Lifecycle.{queued, retry_scheduled, same_state}
use content_automation.Errors.{
  Result, Yields, Yields-bind, Yields-ok, yields, ◌>>=◌, Yields-if_found,
}
use content_automation.Jobs.Store.{Job, Outbox, User, Db}
use content_automation.Jobs.Constraints.Checks.{JobChecks, OutboxChecks, Checks, IsHandled}
use content_automation.Jobs.Constraints.Rows.{cancel_outbox_row-OutboxChecks}
use content_automation.Jobs.Constraints.Execution.{Checks-intro}
use content_automation.Jobs.Lease.{cancel_outbox_row}
use content_automation.Jobs.Store.{is_outbox_of}
use content_automation.Jobs.Operations.{
  is_unchanged, cancel_waiting, cancel_outbox, is_requestable, request_cancellation,
  write_cancel_waiting, write_request, cancel_found, cancel_background_job, find_job, job_not_found,
}
use content_automation.Jobs.Guard.{
  Command, OperationResult, Action, authorise, audit_and_return, prepare_operation,
}
use content_automation.Jobs.Operations.Retry.{reset_outbox_row, new_outbox_row, upsert_outbox}

cancel_waiting-JobChecks :
    (c : Command) (job r : Job)
    → (same_state job.state queued || same_state job.state retry_scheduled) ≡ true
    → is_unchanged job r ≡ true
    → JobChecks r
    → JobChecks (cancel_waiting c r)
unfolding same_state
cancel_waiting-JobChecks c job r w t h = ground arith

request_cancellation-JobChecks :
    (c : Command) (job r : Job)
    → is_requestable job r ≡ true
    → JobChecks r
    → JobChecks (request_cancellation c r)
unfolding same_state
request_cancellation-JobChecks c job r t h = ground arith

reset_outbox_row-OutboxChecks :
    (now : ℕ) (o : Outbox) → OutboxChecks o → OutboxChecks (reset_outbox_row now o)
reset_outbox_row-OutboxChecks now o h = ground arith

pub new_outbox_row-OutboxChecks :
    (id : String) (now : ℕ) (job : Job) → IsHandled job → OutboxChecks (new_outbox_row id now job)
new_outbox_row-OutboxChecks id now job n = ground arith

cancel_outbox-OutboxChecks :
    (j : String) (at : ℕ) (rows : List Outbox)
    → All OutboxChecks rows
    → All OutboxChecks (cancel_outbox j at rows)
cancel_outbox-OutboxChecks j at rows h =
    All-update_many OutboxChecks (is_outbox_of j) (cancel_outbox_row at) rows
      (λ o _. cancel_outbox_row-OutboxChecks at o) h

pub upsert_outbox-OutboxChecks :
    (id : String) (now : ℕ) (job : Job) (rows : List Outbox)
    → IsHandled job
    → All OutboxChecks rows
    → All OutboxChecks (upsert_outbox id now job rows)
unfolding upsert_outbox
upsert_outbox-OutboxChecks id now job rows n h =
    All-if OutboxChecks _ _ _
      (All-update_many OutboxChecks (is_outbox_of job.id) (reset_outbox_row now) rows
        (λ o _. reset_outbox_row-OutboxChecks now o) h)
      (All-append OutboxChecks rows (new_outbox_row id now job ∷ []) h
        (new_outbox_row-OutboxChecks id now job n, tt))

write_cancel_waiting-Checks :
    (c : Command) (job : Job) (db : Db)
    → (same_state job.state queued || same_state job.state retry_scheduled) ≡ true
    → Checks db
    → Yields (λ r. Checks r.1) (write_cancel_waiting c job db)
unfolding write_cancel_waiting
write_cancel_waiting-Checks c job db w h =
    let js =
      All-update_many JobChecks (is_unchanged job) (cancel_waiting c) db.jobs
        (λ r. cancel_waiting-JobChecks c job r w) h.jobs in
    let os = cancel_outbox-OutboxChecks job.id c.now db.outbox h.outbox in
    search (yields, Checks-intro, js, os) depth 8

write_request-Checks :
    (c : Command) (job : Job) (db : Db)
    → Checks db
    → Yields (λ r. Checks r.1) (write_request c job db)
unfolding write_request
write_request-Checks c job db h =
    let js =
      All-update_many JobChecks (is_requestable job) (request_cancellation c) db.jobs
        (request_cancellation-JobChecks c job) h.jobs in
    let os = cancel_outbox-OutboxChecks job.id c.now db.outbox h.outbox in
    search (yields, Checks-intro, js, os) depth 8

cancel_found-Checks :
    (c : Command) (job : Job) (db : Db)
    → Checks db
    → Yields (λ r. Checks r.1) (cancel_found c job db)
unfolding cancel_found
cancel_found-Checks c job db h =
    let waiting =
      λ (w : (same_state job.state queued || same_state job.state retry_scheduled) ≡ true).
        write_cancel_waiting-Checks c job db w h in
    let requested = write_request-Checks c job db h in search (yields, waiting, requested) depth 8

pub audit_and_return-Checks :
    (c : Command) (id : String) (a : Action) (u : User) (r : OperationResult) (db : Db)
    → Checks db
    → Yields (λ d. Checks d.1) (audit_and_return c id a u r db)
unfolding audit_and_return
audit_and_return-Checks c id a u r db h = Yields-ok _ (Checks-intro _ h.jobs h.attempts h.outbox)

pub authorise-Checks :
    (c : Command) (id : String) (a : Action) (seen db : Db)
    (allowed : User → Result (OperationResult × Db))
    → Checks db
    → ((u : User) → Yields (λ d. Checks d.1) (allowed u))
    → Yields (λ d. Checks d.1) (authorise c id a seen db allowed)
unfolding authorise
authorise-Checks c id a seen db allowed h k =
    let audited = λ (u : User) (r : OperationResult). audit_and_return-Checks c id a u r db h in
    search (yields, audited, k) depth 8

pub then_audit :
    (c : Command) (id : String) (a : Action) (u : User) (m : Result (OperationResult × Db))
    → Yields (λ d. Checks d.1) m
    → Yields (λ d. Checks d.1) (m >>= λ done. audit_and_return c id a u done.0 done.1)
then_audit c id a u m h =
    Yields-bind m _ h λ done k. audit_and_return-Checks c id a u done.0 done.1 k

pub cancel_background_job-Checks :
    (c : Command) (seen db : Db)
    → Checks db
    → Yields (λ r. Checks r.1) (cancel_background_job c seen db)
unfolding cancel_background_job
cancel_background_job-Checks c seen db h =
    let done = λ (id : String) (u : User) (job : Job).
      then_audit c id Action.cancel u (cancel_found c job db) (cancel_found-Checks c job db h) in
    let audited = λ (id : String) (u : User) (r : OperationResult).
      audit_and_return-Checks c id Action.cancel u r db h in
    Yields-bind {Q = λ _. Unit {0}} (prepare_operation c) _ (record { of = λ _ _. tt })
      λ id _. authorise-Checks c id Action.cancel seen db _ h λ u.
        Yields-if_found (find_job c u seen) _ _ (λ _. audited id u job_not_found)
          (λ job _. done id u job)
