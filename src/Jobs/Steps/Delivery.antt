-- ===== src/Jobs/Steps/Delivery.antt =====
-- Enqueueing and the dispatch of the outbox in packages/db/src/background-jobs.ts, as steps of the
-- rows of background_jobs. An enqueued job is a row behind the others.
use content_automation.Base.{◌≡◌, refl, inl, inr, Bool, true, false, List, [], ◌∷◌, arith, ◌∙◌}
use content_automation.Base.Tests.{◌==◌, if◌then◌else◌, Bool-cases}
use content_automation.Base.Rows.{count_where}
use content_automation.Base.Pointwise.{
  Pointwise, Pointwise-refl, Pointwise-map, Pointwise-update_many, Extends, Extends-refl,
  Extends-append,
}
use content_automation.Errors.{Yields, yields}
use content_automation.Jobs.Store.{Job, Outbox, Db}
use content_automation.Jobs.Steps.Rows.{Evolves, Evolves-refl, Evolves-trans, Step}
use content_automation.Jobs.Steps.Execution.{Steps}
use content_automation.Jobs.Enqueue.{
  EnqueueInput, new_job, insert_job, enqueue_found, enqueue_in_transaction,
}
use content_automation.Jobs.Dispatch.{
  DispatchOptions, Published, delivered, refused, is_mine, mark_job, lease_rows,
  mark_outbox_dispatched, release_outbox, settle_dispatch,
}
use text.Mathlib.Text.{◌==◌ as str_eq}

-- Each row stands where it stood, and rows may have been added behind.
abbrev pub Appends : Db → Db → Type 0
Appends db db' = Extends (λ (r s : Job). s ≡ r) db.jobs db'.jobs

abbrev SameRow : Job → Job → Type 0
SameRow r s = s ≡ r

Extends-if :
    (b : Bool) (rows ss ts : List Job)
    → Extends SameRow rows ss
    → Extends SameRow rows ts
    → Extends SameRow rows (if b then ss else ts)
Extends-if true rows ss ts h k = h
Extends-if false rows ss ts h k = k

insert_job-Extends : (i : EnqueueInput) (rows : List Job) → Extends SameRow rows (insert_job i rows)
unfolding insert_job
insert_job-Extends i rows =
    Extends-if _ rows _ _ (Extends-refl SameRow (λ r. refl) rows)
      (Extends-append SameRow (λ r. refl) rows (new_job i ∷ []))

pub enqueue-Appends :
    (i : EnqueueInput) (db : Db) → Yields (λ r. Appends db r.1) (enqueue_in_transaction i db)
unfolding enqueue_in_transaction enqueue_found
enqueue-Appends i db = let js = insert_job-Extends i db.jobs in search (yields, js) depth 8

-- A later row in the same state.
pub record Marked (r s : Job) : Type 0 where
  pub evolves : Evolves r s
  pub state : s.state ≡ r.state

abbrev pub Marks : Db → Db → Type 0
Marks db db' = Pointwise Marked db.jobs db'.jobs

Marked-refl : (r : Job) → Marked r r
Marked-refl r = record { evolves = Evolves-refl r; state = refl }

Marked-trans : (r s t : Job) → Marked r s → Marked s t → Marked r t
Marked-trans r s t p q = record {
  evolves = Evolves-trans r s t p.evolves q.evolves;
  state = q.state ∙ p.state;
}

pub Marks-Steps : (db db' : Db) → Marks db db' → Steps db db'
Marks-Steps db db' h =
    Pointwise-map Marked Step db.jobs db'.jobs
      (λ r s k. record { evolves = k.evolves; legal = inl k.state }) h

-- The dispatcher's mark leaves the version.
mark_job-Marked : (r : Job) → Marked r (mark_job r)
mark_job-Marked r = record {
  evolves = record {
    id = refl;
    workspace_id = refl;
    handler_version = refl;
    version = omega arith;
    content = λ _. refl;
  };
  state = refl;
}

pub settle_dispatch-Marks :
    (d : DispatchOptions) (l : Outbox) (p : Published) (db : Db)
    → Marks db (settle_dispatch d l p db).1
unfolding settle_dispatch mark_outbox_dispatched release_outbox
settle_dispatch-Marks d l (refused code) db = Pointwise-refl Marked Marked-refl db.jobs
settle_dispatch-Marks d l (delivered id) db =
    let js =
      Pointwise-update_many Marked (λ r. str_eq r.id l.background_job_id) mark_job db.jobs
        Marked-refl (λ r _. mark_job-Marked r) in
    elim (Bool-cases (count_where (is_mine l) db.outbox == 1)) [
      | inl t ↦ rw t js
      | inr t ↦ rw t (Pointwise-refl Marked Marked-refl db.jobs)
    ]

pub leased-Marks :
    (d : DispatchOptions) (db : Db)
    → Marks db (record db { outbox = lease_rows d d.batch_size db.outbox })
leased-Marks d db = Pointwise-refl Marked Marked-refl db.jobs
