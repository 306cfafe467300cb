-- ===== src/Jobs/Steps/Operators.antt =====
-- The transactions of packages/db/src/job-operations.ts and packages/db/src/job-reconciliation.ts, as
-- steps of the rows of background_jobs.
use content_automation.Base.{String, ◌≡◌, refl, inl, true, ◌||◌, arith}
use content_automation.Domain.Lifecycle.{queued, retry_scheduled, same_state, can_transition_job}
use content_automation.Errors.{
  Result, ◌>>=◌, Yields, Yields-bind, Yields-ok, Yields-if_found, yields,
}
use content_automation.Jobs.Store.{Job, User, Db}
use content_automation.Jobs.Steps.Rows.{Step, bump}
use content_automation.Jobs.Steps.Execution.{Steps, Steps-refl, steps_by}
use content_automation.Jobs.Operations.{
  is_unchanged, cancel_waiting, is_requestable, request_cancellation, write_cancel_waiting,
  write_request, cancel_found, cancel_background_job, find_job,
}
use content_automation.Jobs.Guard.{
  Command, OperationResult, Action, authorise, audit_and_return, prepare_operation,
}
use content_automation.Jobs.Operations.Retry.{
  RetryOptions, is_retryable, requeue_failed, write_retry, retry_failed, retry_found,
  retry_background_job,
}

cancel_waiting-Step :
    (c : Command) (job r : Job)
    → (same_state job.state queued || same_state job.state retry_scheduled) ≡ true
    → is_unchanged job r ≡ true
    → Step r (cancel_waiting c r)
unfolding same_state can_transition_job
cancel_waiting-Step c job r w t = bump r _ refl refl refl refl (ground arith)

request_cancellation-Step : (c : Command) (r : Job) → Step r (request_cancellation c r)
request_cancellation-Step c r = bump r _ refl refl refl refl (inl refl)

requeue_failed-Step :
    (c : Command) (job r : Job) → is_retryable job r ≡ true → Step r (requeue_failed c job r)
unfolding same_state can_transition_job
requeue_failed-Step c job r t = bump r _ refl refl refl refl (ground arith)

write_cancel_waiting-Steps :
    (c : Command) (job : Job) (db : Db)
    → (same_state job.state queued || same_state job.state retry_scheduled) ≡ true
    → Yields (λ r. Steps db r.1) (write_cancel_waiting c job db)
unfolding write_cancel_waiting
write_cancel_waiting-Steps c job db w =
    let js =
      steps_by (is_unchanged job) (cancel_waiting c) db.jobs (λ r. cancel_waiting-Step c job r w) in
    search (yields, js) depth 8

write_request-Steps :
    (c : Command) (job : Job) (db : Db) → Yields (λ r. Steps db r.1) (write_request c job db)
unfolding write_request
write_request-Steps c job db =
    let js =
      steps_by (is_requestable job) (request_cancellation c) db.jobs
        (λ r _. request_cancellation-Step c r) in
    let same = Steps-refl db in search (yields, js, same) depth 8

cancel_found-Steps :
    (c : Command) (job : Job) (db : Db) → Yields (λ r. Steps db r.1) (cancel_found c job db)
unfolding cancel_found
cancel_found-Steps c job db =
    let waiting = write_cancel_waiting-Steps c job db in
    let requested = write_request-Steps c job db in
    let same = Steps-refl db in search (yields, waiting, requested, same) depth 8

authorise-Steps :
    (c : Command) (id : String) (a : Action) (seen db : Db)
    (allowed : User → Result (OperationResult × Db))
    → ((u : User) → Yields (λ d. Steps db d.1) (allowed u))
    → Yields (λ d. Steps db d.1) (authorise c id a seen db allowed)
unfolding authorise audit_and_return
authorise-Steps c id a seen db allowed k =
    let same = Steps-refl db in search (yields, same, k) depth 8

then_audit :
    (c : Command) (id : String) (a : Action) (u : User) (db : Db)
    (m : Result (OperationResult × Db))
    → Yields (λ d. Steps db d.1) m
    → Yields (λ d. Steps db d.1) (m >>= λ done. audit_and_return c id a u done.0 done.1)
unfolding audit_and_return
then_audit c id a u db m h = Yields-bind m _ h λ done k. Yields-ok _ k

pub cancel_background_job-Steps :
    (c : Command) (seen db : Db) → Yields (λ r. Steps db r.1) (cancel_background_job c seen db)
unfolding cancel_background_job audit_and_return
cancel_background_job-Steps c seen db =
    Yields-bind {Q = λ _. Unit {0}} (prepare_operation c) _ (record { of = λ _ _. tt })
      λ id _. authorise-Steps c id Action.cancel seen db _ λ u.
        Yields-if_found (find_job c u seen) _ _ (λ _. Yields-ok _ (Steps-refl db))
          λ job _. then_audit c id Action.cancel u db _ (cancel_found-Steps c job db)

write_retry-Steps :
    (c : Command) (o : RetryOptions) (job : Job) (db : Db)
    → Yields (λ r. Steps db r.1) (write_retry c o job db)
unfolding write_retry
write_retry-Steps c o job db =
    let js =
      steps_by (is_retryable job) (requeue_failed c job) db.jobs (requeue_failed-Step c job) in
    search (yields, js) depth 8

retry_found-Steps :
    (c : Command) (o : RetryOptions) (job : Job) (seen db : Db)
    → Yields (λ r. Steps db r.1) (retry_found c o job seen db)
unfolding retry_found retry_failed
retry_found-Steps c o job seen db =
    let written = write_retry-Steps c o job db in
    let same = Steps-refl db in search (yields, written, same) depth 12

pub retry_background_job-Steps :
    (c : Command) (o : RetryOptions) (seen db : Db)
    → Yields (λ r. Steps db r.1) (retry_background_job c o seen db)
unfolding retry_background_job audit_and_return
retry_background_job-Steps c o seen db =
    Yields-bind {Q = λ _. Unit {0}} (prepare_operation c) _ (record { of = λ _ _. tt })
      λ id _. authorise-Steps c id Action.retry seen db _ λ u.
        Yields-if_found (find_job c u seen) _ _ (λ _. Yields-ok _ (Steps-refl db))
          λ job _. then_audit c id Action.retry u db _ (retry_found-Steps c o job seen db)
