-- ===== src/Jobs/History/Identifiers.antt =====
-- The identifiers of the rows stay distinct.
use content_automation.Base.{
  sym, String, ◌≡◌, inl, inr, Bool, false, ◌||◌, List, [], ◌∷◌, ◌++◌, arith,
}
use content_automation.Base.Tests.{Bool-cases, Option-cases}
use content_automation.Base.Rows.{All, All-append, All-find_none, find_first}
use content_automation.Errors.{Yields, yields}
use content_automation.Jobs.Store.{Job, Db}
use content_automation.Jobs.Constraints.Checks.{Checks}
use content_automation.Jobs.Constraints.Delivery.{enqueue-Checks}
use content_automation.Jobs.Steps.Agreement.{Distinct, Differs, Steps-Distinct}
use content_automation.Jobs.Steps.Execution.{Steps}
use content_automation.Jobs.Enqueue.{
  EnqueueInput, new_job, has_key, insert_job, enqueue_found, enqueue_in_transaction,
}
use content_automation.Jobs.History.{Enqueues, nothing, one}
use text.Mathlib.Text.{◌==◌ as str_eq}
use text.Mathlib.TextEquality.{eq_iff}

-- What a history keeps: the CHECK constraints and the primary key of background_jobs.
abbrev pub Sound : Db → Type 0
Sound db = Checks db × Distinct db.jobs

differs_sym : (a b : String) → str_eq a b ≡ false → str_eq b a ≡ false
differs_sym a b h = elim (Bool-cases (str_eq b a)) [
  | inl t ↦ absurd (cc (h, (eq_iff a b).1 (sym ((eq_iff b a).0 t))))
  | inr f ↦ f
]

append-Distinct :
    (new : Job) (rows : List Job)
    → All (λ r. str_eq r.id new.id ≡ false) rows
    → Distinct rows
    → Distinct (rows ++ new ∷ [])
append-Distinct new [] h d = (tt, tt)
append-Distinct new (r ∷ rows) h d = (
  All-append (Differs r) rows (new ∷ []) d.0 ((differs_sym r.id new.id h.0, h.0), tt),
  append-Distinct new rows h.1 d.1,
)

or_false : (a b : Bool) → (a || b) ≡ false → a ≡ false
or_false a b h = ground arith

fresh_ids :
    (i : EnqueueInput) (rows : List Job)
    → All (λ (r : Job). (str_eq r.id i.job_id || has_key i r) ≡ false) rows
    → All (λ (r : Job). str_eq r.id (new_job i).id ≡ false) rows
fresh_ids i [] h = tt
fresh_ids i (r ∷ rows) h = (or_false _ _ h.0, fresh_ids i rows h.1)

insert_job-Distinct :
    (i : EnqueueInput) (rows : List Job) → Distinct rows → Distinct (insert_job i rows)
unfolding insert_job
insert_job-Distinct i rows d =
    elim (Option-cases (find_first (λ (r : Job). str_eq r.id i.job_id || has_key i r) rows)) [
      | inl e ↦
          rw e (append-Distinct (new_job i) rows (fresh_ids i rows (All-find_none _ rows e)) d)
      | inr (job, e) ↦ rw e d
    ]

pub enqueue-Distinct :
    (i : EnqueueInput) (db : Db)
    → Distinct db.jobs
    → Yields (λ r. Distinct r.1.jobs) (enqueue_in_transaction i db)
unfolding enqueue_in_transaction enqueue_found
enqueue-Distinct i db d = let ds = insert_job-Distinct i db.jobs d in search (yields, ds) depth 8

pub Enqueues-Checks : (db after : Db) → Checks db → Enqueues db after → Checks after
Enqueues-Checks db after c (nothing _) = c
Enqueues-Checks db after c (one i r _ mid _ e more) =
    Enqueues-Checks mid after ((enqueue-Checks i db c).of _ e) more

pub Enqueues-Distinct : (db after : Db) → Distinct db.jobs → Enqueues db after → Distinct after.jobs
Enqueues-Distinct db after d (nothing _) = d
Enqueues-Distinct db after d (one i r _ mid _ e more) =
    Enqueues-Distinct mid after ((enqueue-Distinct i db d).of _ e) more

pub stepped : (db after : Db) → Distinct db.jobs → Checks after → Steps db after → Sound after
stepped db after d c s = (c, Steps-Distinct db.jobs after.jobs s d)
