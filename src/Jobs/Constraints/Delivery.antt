-- ===== src/Jobs/Constraints/Delivery.antt =====
-- Enqueueing and the dispatch of the outbox in packages/db/src/background-jobs.ts, against the CHECK
-- constraints.
use content_automation.Base.{
  some, ℕ, zero, suc, String, ◌≡◌, inl, inr, Bool, true, false, ◌&&◌, List, [], ◌∷◌, arith,
}
use content_automation.Base.Tests.{leb, ◌==◌, Bool-cases, is_positive_safe}
use content_automation.Base.Rows.{
  All, All-if, All-append, All-update_many, count_where, find_first, All-find_first,
}
use content_automation.Errors.{
  Error, ensure, Yields, Yields-bind, Yields-ok, Yields-err, Yields-ensure, yields,
}
use content_automation.Jobs.Store.{Job, Outbox, Db}
use content_automation.Jobs.Operations.Retry.{new_outbox_row}
use content_automation.Jobs.Constraints.Checks.{JobChecks, OutboxChecks, Checks, IsHandled}
use content_automation.Jobs.Constraints.Execution.{Checks-intro}
use content_automation.Jobs.Constraints.Operators.{new_outbox_row-OutboxChecks}
use content_automation.Jobs.Enqueue.{
  EnqueueInput, new_job, has_key, priority_of, attempts_of, same_presence, validate_enqueue,
  insert_job, insert_outbox, enqueue_found, enqueue_in_transaction,
}
use content_automation.Jobs.Dispatch.{
  DispatchOptions, is_candidate, is_mine, take_lease, mark_row, mark_job, release_row, lease_rows,
  mark_outbox_dispatched, release_outbox, settle_dispatch, delivered, refused, Published,
}
use text.Mathlib.Text.{◌==◌ as str_eq}

new_job-JobChecks :
    (i : EnqueueInput)
    → is_positive_safe i.handler_version ≡ true
    → (leb 1 (attempts_of i) && leb (attempts_of i) 100) ≡ true
    → leb (priority_of i) 2_000 ≡ true
    → same_presence i.resource_type i.resource_id ≡ true
    → JobChecks (new_job i)
new_job-JobChecks i n a p b = ground arith

Yields-ensured : {P : Unit {0} → Type 0} (b : Bool) (e : Error) → P tt → Yields P (ensure b e)
Yields-ensured true e h = Yields-ok tt h
Yields-ensured false e h = Yields-err e

-- Input that passes the checks makes a row that passes the constraints.
validate_enqueue-JobChecks :
    (i : EnqueueInput) → Yields (λ _. JobChecks (new_job i)) (validate_enqueue i)
unfolding validate_enqueue
validate_enqueue-JobChecks i =
    let job = new_job-JobChecks i in search (Yields-ensure, Yields-ensured, job) depth 14

insert_job-JobChecks :
    (i : EnqueueInput) (rows : List Job)
    → JobChecks (new_job i)
    → All JobChecks rows
    → All JobChecks (insert_job i rows)
unfolding insert_job
insert_job-JobChecks i rows n h =
    All-if JobChecks _ _ _ h (All-append JobChecks rows (new_job i ∷ []) h (n, tt))

insert_outbox-OutboxChecks :
    (i : EnqueueInput) (job : Job) (rows : List Outbox)
    → IsHandled job
    → All OutboxChecks rows
    → All OutboxChecks (insert_outbox i job rows)
unfolding insert_outbox
insert_outbox-OutboxChecks i job rows n h = All-if OutboxChecks _ _ _ h (
    All-append OutboxChecks rows (new_outbox_row i.outbox_id i.now job ∷ []) h
      (new_outbox_row-OutboxChecks i.outbox_id i.now job n, tt))

pub enqueue-Checks :
    (i : EnqueueInput) (db : Db)
    → Checks db
    → Yields (λ r. Checks r.1) (enqueue_in_transaction i db)
unfolding enqueue_in_transaction enqueue_found
enqueue-Checks i db h = Yields-bind _ _ (validate_enqueue-JobChecks i) λ _ n.
    let js = insert_job-JobChecks i db.jobs n h.jobs in
    let os = λ (job : Job) (e : find_first (has_key i) (insert_job i db.jobs) ≡ some job).
      insert_outbox-OutboxChecks i job db.outbox
        (All-find_first JobChecks (has_key i) (insert_job i db.jobs) js e).handler h.outbox in
    search (yields, Checks-intro, js, os) depth 8

take_lease-OutboxChecks :
    (d : DispatchOptions) (o : Outbox)
    → is_candidate d.now o ≡ true
    → OutboxChecks o
    → OutboxChecks (take_lease d o)
take_lease-OutboxChecks d o t h = ground arith

mark_row-OutboxChecks :
    (id : String) (now : ℕ) (o : Outbox) → OutboxChecks o → OutboxChecks (mark_row id now o)
mark_row-OutboxChecks id now o h = ground arith

mark_job-JobChecks : (r : Job) → JobChecks r → JobChecks (mark_job r)
mark_job-JobChecks r h = ground arith

release_row-OutboxChecks :
    (d : DispatchOptions) (code : String) (l o : Outbox)
    → is_mine l o ≡ true
    → OutboxChecks o
    → OutboxChecks (release_row d code o)
release_row-OutboxChecks d code l o t h = ground arith

lease_rows-OutboxChecks :
    (d : DispatchOptions) (limit : ℕ) (rows : List Outbox)
    → All OutboxChecks rows
    → All OutboxChecks (lease_rows d limit rows)
unfolding lease_rows
lease_rows-OutboxChecks d limit [] h = tt
lease_rows-OutboxChecks d zero (o ∷ rows) h = h
lease_rows-OutboxChecks d (suc limit) (o ∷ rows) h = elim (Bool-cases (is_candidate d.now o)) [
  | inl t ↦ rw t (take_lease-OutboxChecks d o t h.0, lease_rows-OutboxChecks d limit rows h.1)
  | inr t ↦ rw t (h.0, lease_rows-OutboxChecks d (suc limit) rows h.1)
]

pub settle_dispatch-Checks :
    (d : DispatchOptions) (l : Outbox) (p : Published) (db : Db)
    → Checks db
    → Checks (settle_dispatch d l p db).1
unfolding settle_dispatch mark_outbox_dispatched release_outbox
settle_dispatch-Checks d l (refused code) db h = Checks-intro _ h.jobs h.attempts (
    All-update_many OutboxChecks (is_mine l) (release_row d code) db.outbox
      (release_row-OutboxChecks d code l) h.outbox)
settle_dispatch-Checks d l (delivered id) db h =
    let os =
      All-update_many OutboxChecks (is_mine l) (mark_row id d.now) db.outbox
        (λ o _. mark_row-OutboxChecks id d.now o) h.outbox in
    let js =
      All-update_many JobChecks (λ r. str_eq r.id l.background_job_id) mark_job db.jobs
        (λ r _. mark_job-JobChecks r) h.jobs in
    elim (Bool-cases (count_where (is_mine l) db.outbox == 1)) [
      | inl t ↦ rw t (Checks-intro _ js h.attempts os)
      | inr t ↦ rw t (Checks-intro _ h.jobs h.attempts os)
    ]

pub leased-Checks :
    (d : DispatchOptions) (db : Db)
    → Checks db
    → Checks (record db { outbox = lease_rows d d.batch_size db.outbox })
leased-Checks d db h =
    Checks-intro _ h.jobs h.attempts (lease_rows-OutboxChecks d d.batch_size db.outbox h.outbox)
