-- ===== src/Jobs/Steps/Reconciliation.antt =====
-- The repairs of packages/db/src/job-reconciliation.ts, as steps of the rows of background_jobs. The
-- repair of a committed result may leave the state machine, and is a later row only.
use content_automation.Base.{String, ◌≡◌, refl, inl, Bool, true, false, arith}
use content_automation.Base.Rows.{find_first, find_first_test, update_many}
use content_automation.Base.Pointwise.{Pointwise, Pointwise-refl, Pointwise-update_many}
use content_automation.Domain.Lifecycle.{same_state, can_transition_job}
use content_automation.Errors.{ok, Yields-if_found, Yields, Yields-bind, Yields-ok, yields}
use content_automation.Jobs.Store.{Job, Db}
use content_automation.Jobs.Steps.Rows.{Settles, Settles-refl, Step, raise, bump}
use content_automation.Jobs.Steps.Execution.{Steps, Steps-refl, steps_by}
use content_automation.Jobs.Reconciliation.{
  Repair, is_still_due, requeue_retry, write_due_retry, requeue_due_retry, is_same_version,
  mark_pending, write_stranded, requeue_stranded_delivery, write_missing_outbox,
  repair_missing_outbox, is_unflagged, flag, flag_ambiguous_job,
}
use content_automation.Jobs.CommittedResult.{
  is_open_state, is_repairable, is_as_read, complete, complete_attempt, close_committed,
  write_committed, repair_committed_result,
}

requeue_retry-Step :
    (c : Repair) (job r : Job) → is_still_due c job r ≡ true → Step r (requeue_retry c.now r)
unfolding same_state can_transition_job
requeue_retry-Step c job r t = bump r _ refl refl refl refl (ground arith)

mark_pending-Step : (r : Job) → Step r (mark_pending r)
mark_pending-Step r = bump r _ refl refl refl refl (inl refl)

flag-Step : (c : Repair) (code : String) (r : Job) → Step r (flag c code r)
flag-Step c code r = bump r _ refl refl refl refl (inl refl)

complete-Settles :
    (c : Repair) (job r : Job)
    → is_open_state job.state ≡ true
    → is_as_read c job r ≡ true
    → Settles r (complete c.now r)
unfolding same_state
complete-Settles c job r o t = record {
  evolves = raise r _ refl refl refl refl;
  final = λ f. ground arith;
}

write_due_retry-Steps :
    (c : Repair) (job : Job) (db : Db) → Yields (λ r. Steps db r.1) (write_due_retry c job db)
unfolding write_due_retry
write_due_retry-Steps c job db =
    let js =
      steps_by (is_still_due c job) (requeue_retry c.now) db.jobs (requeue_retry-Step c job) in
    search (yields, js) depth 8

pub requeue_due_retry-Steps :
    (c : Repair) (j : String) (seen db : Db)
    → Yields (λ r. Steps db r.1) (requeue_due_retry c j seen db)
unfolding requeue_due_retry
requeue_due_retry-Steps c j seen db =
    let written = λ (job : Job). write_due_retry-Steps c job db in
    let same = Steps-refl db in search (yields, written, same)

write_stranded-Steps :
    (c : Repair) (job : Job) (db : Db) → Yields (λ r. Steps db r.1) (write_stranded c job db)
unfolding write_stranded
write_stranded-Steps c job db =
    let js = steps_by (is_same_version c job) mark_pending db.jobs (λ r _. mark_pending-Step r) in
    search (yields, js) depth 8

pub requeue_stranded_delivery-Steps :
    (c : Repair) (j : String) (seen db : Db)
    → Yields (λ r. Steps db r.1) (requeue_stranded_delivery c j seen db)
unfolding requeue_stranded_delivery
requeue_stranded_delivery-Steps c j seen db =
    let written = λ (job : Job). write_stranded-Steps c job db in
    let same = Steps-refl db in search (yields, written, same)

pub repair_missing_outbox-Steps :
    (c : Repair) (j : String) (seen db : Db)
    → Yields (λ r. Steps db r.1) (repair_missing_outbox c j seen db)
unfolding repair_missing_outbox write_missing_outbox
repair_missing_outbox-Steps c j seen db = let same = Steps-refl db in search (yields, same) depth 8

pub flag_ambiguous_job-Steps :
    (c : Repair) (j r : String) (db : Db) → Yields (λ d. Steps db d.1) (flag_ambiguous_job c j r db)
unfolding flag_ambiguous_job
flag_ambiguous_job-Steps c j r db =
    let js = steps_by (is_unflagged c j r) (flag c r) db.jobs (λ x _. flag-Step c r x) in
    search (yields, js) depth 8

-- Each row is a later row of its job.
abbrev pub Updates : Db → Db → Type 0
Updates db db' = Pointwise Settles db.jobs db'.jobs

close_committed-Updates :
    (c : Repair) (job : Job) (before db : Db)
    → Updates before db
    → Yields (λ r. Updates before r.1) (close_committed c job db)
unfolding close_committed complete_attempt
close_committed-Updates c job before db h =
    Yields-bind {P = λ (r : Bool × Db). Updates before r.1} {Q = Updates before}
      (complete_attempt c job db) _ (search (yields, h) depth 8) λ d k. Yields-ok _ k

write_committed-Updates :
    (c : Repair) (job : Job) (db : Db)
    → is_open_state job.state ≡ true
    → Yields (λ r. Updates db r.1) (write_committed c job db)
unfolding write_committed
write_committed-Updates c job db o =
    let js =
      Pointwise-update_many Settles (is_as_read c job) (complete c.now) db.jobs Settles-refl
        (λ r. complete-Settles c job r o) in
    let closed =
      close_committed-Updates c job db
        (record db { jobs = update_many (is_as_read c job) (complete c.now) db.jobs }) js in
    search (yields, js, closed)

was_open :
    (c : Repair) (j : String) (job : Job)
    → is_repairable c j job ≡ true
    → is_open_state job.state ≡ true
was_open c j job t = ground arith

pub repair_committed_result-Updates :
    (c : Repair) (j : String) (seen db : Db)
    → Yields (λ r. Updates db r.1) (repair_committed_result c j seen db)
unfolding repair_committed_result
repair_committed_result-Updates c j seen db =
    Yields-if_found {P = λ (r : Bool × Db). Updates db r.1}
      (find_first (is_repairable c j) seen.jobs) (ok (false, db)) (λ job. write_committed c job db)
      (λ _. Yields-ok _ (Pointwise-refl Settles Settles-refl db.jobs))
      λ job e.
        write_committed-Updates c job db
          (was_open c j job (find_first_test (is_repairable c j) seen.jobs e))
