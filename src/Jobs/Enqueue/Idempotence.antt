-- ===== src/Jobs/Enqueue/Idempotence.antt =====
-- A second enqueue of the same work finds the job of the first.
use content_automation.Base.{
  ℕ, String, ◌≡◌, refl, inl, inr, Bool, true, false, not, ◌||◌, Option, none, some, List, [], ◌∷◌,
  ◌++◌, arith,
}
use content_automation.Base.Tests.{Bool-cases, Option-cases, is_some, opt_eq}
use content_automation.Base.Rows.{All, find_first, All-find_first}
use content_automation.Errors.{ok}
use content_automation.Jobs.Store.{Job, Outbox, Db, is_outbox_of}
use content_automation.Jobs.Operations.Retry.{new_outbox_row}
use content_automation.Jobs.Enqueue.{
  EnqueueInput, Enqueued, new_job, has_key, conflicts, is_created, validate_enqueue, insert_job,
  insert_outbox, enqueue_found, enqueue_in_transaction, trimmed,
}
use text.Mathlib.Text.{◌==◌ as str_eq}
use text.Mathlib.TextEquality.{eq_iff}

-- The same request again, with fresh identifiers at a later time.
abbrev pub again : EnqueueInput → String → String → ℕ → EnqueueInput
again i job_id outbox_id now = record i { job_id = job_id; outbox_id = outbox_id; now = now }

find_first_append :
    (test : Outbox → Bool) (rows : List Outbox) (o : Outbox)
    → test o ≡ true
    → is_some (find_first test (rows ++ o ∷ [])) ≡ true
unfolding find_first
find_first_append test [] o t = ground arith
find_first_append test (r ∷ rows) o t = ground (arith, find_first_append test rows o t)

str_eq_refl : (a : String) → str_eq a a ≡ true
str_eq_refl a = (eq_iff a a).1 refl

opt_eq_refl : (a : Option String) → opt_eq a a ≡ true
opt_eq_refl none = refl
opt_eq_refl (some a) = str_eq_refl a

new_job-agrees : (i : EnqueueInput) → conflicts i (new_job i) ≡ false
new_job-agrees i = ground (
  arith,
  opt_eq_refl (trimmed i.input_version),
  opt_eq_refl i.resource_id,
  opt_eq_refl (trimmed i.resource_type),
)

-- A first enqueue that returned.
record Stored (i : EnqueueInput) (db after : Db) (r : Enqueued) : Type 0 where
  valid : validate_enqueue i ≡ ok tt
  found : find_first (has_key i) (insert_job i db.jobs) ≡ some r.job
  agreed : (is_created i r.job || not (conflicts i r.job)) ≡ true
  rows : after ≡ record db { jobs = insert_job i db.jobs; outbox = insert_outbox i r.job db.outbox }

enqueue-Stored :
    (i : EnqueueInput) (db after : Db) (r : Enqueued)
    → enqueue_in_transaction i db ≡ ok (r, after)
    → Stored i db after r
unfolding enqueue_in_transaction enqueue_found
enqueue-Stored i db after r h = record {
  valid = ground arith;
  found = ground arith;
  agreed = ground arith;
  rows = ground arith;
}

found_either :
    (p q : Job → Bool) (rows : List Job) (job : Job)
    → find_first q rows ≡ some job
    → is_some (find_first (λ r. p r || q r) rows) ≡ true
unfolding find_first
found_either p q [] job h = absurd (cc h)
found_either p q (r ∷ rows) job h = ground (arith, found_either p q rows job)

stays :
    (i : EnqueueInput) (rows : List Job) (job : Job)
    → find_first (has_key i) rows ≡ some job
    → insert_job i rows ≡ rows
unfolding insert_job
stays i rows job h = rw (found_either (λ r. str_eq r.id i.job_id) (has_key i) rows job h) refl

-- A row that either test finds, where the first finds none.
found_second :
    (p p' q : Outbox → Bool) (rows : List Outbox)
    → All (λ o. p o ≡ false) rows
    → is_some (find_first (λ o. p o || q o) rows) ≡ true
    → is_some (find_first (λ o. p' o || q o) rows) ≡ true
unfolding find_first
found_second p p' q [] f h = h
found_second p p' q (r ∷ rows) f h = ground (arith, found_second p p' q rows)

of_new_row :
    (i i' : EnqueueInput) (job : Job)
    → (str_eq (new_outbox_row i.outbox_id i.now job).id i'.outbox_id
        || is_outbox_of job.id (new_outbox_row i.outbox_id i.now job))
      ≡ true
of_new_row i i' job = ground (arith, str_eq_refl job.id)

found_outbox :
    (i i' : EnqueueInput) (job : Job) (rows : List Outbox)
    → All (λ o. str_eq o.id i.outbox_id ≡ false) rows
    → is_some (
        find_first
          (λ o. str_eq o.id i'.outbox_id || is_outbox_of job.id o)
          (insert_outbox i job rows))
      ≡ true
unfolding insert_outbox
found_outbox i i' job rows f =
    elim (Bool-cases (
      is_some
        (find_first (λ (o : Outbox). str_eq o.id i.outbox_id || is_outbox_of job.id o) rows))) [
          | inl t ↦ rw t (
              found_second (λ o. str_eq o.id i.outbox_id) (λ o. str_eq o.id i'.outbox_id)
                (is_outbox_of job.id) rows f t)
          | inr t ↦ rw t (
              find_first_append (λ o. str_eq o.id i'.outbox_id || is_outbox_of job.id o) rows
                (new_outbox_row i.outbox_id i.now job) (of_new_row i i' job))
        ]

outbox_stays :
    (i : EnqueueInput) (job : Job) (rows : List Outbox)
    → is_some (find_first (λ (o : Outbox). str_eq o.id i.outbox_id || is_outbox_of job.id o) rows)
      ≡ true
    → insert_outbox i job rows ≡ rows
unfolding insert_outbox
outbox_stays i job rows h = rw h refl

first_of_append :
    (test : Job → Bool) (rows : List Job) (new job : Job)
    → find_first test rows ≡ none
    → find_first test (rows ++ new ∷ []) ≡ some job
    → job ≡ new
unfolding find_first
first_of_append test [] new job n h = ground arith
first_of_append test (r ∷ rows) new job n h = ground (arith, first_of_append test rows new job)

neither :
    (p q : Job → Bool) (rows : List Job)
    → find_first (λ r. p r || q r) rows ≡ none
    → find_first q rows ≡ none
unfolding find_first
neither p q [] h = refl
neither p q (r ∷ rows) h = ground (arith, neither p q rows)

new_or_agreed :
    (i : EnqueueInput) (rows : List Job) (job : Job)
    → All (λ (r : Job). str_eq r.id i.job_id ≡ false) rows
    → find_first (has_key i) (insert_job i rows) ≡ some job
    → (is_created i job || not (conflicts i job)) ≡ true
    → conflicts i job ≡ false
unfolding insert_job
new_or_agreed i rows job fresh h a =
    elim (Option-cases (find_first (λ (r : Job). str_eq r.id i.job_id || has_key i r) rows)) [
      | inl e ↦
          let new =
            first_of_append (has_key i) rows (new_job i) job
              (neither (λ r. str_eq r.id i.job_id) (has_key i) rows e) (ground arith) in
          rw new (new_job-agrees i)
      | inr (x, e) ↦
          let old : str_eq job.id i.job_id ≡ false =
            All-find_first (λ (r : Job). str_eq r.id i.job_id ≡ false) (has_key i) rows {r = job}
              fresh (ground arith) in
          ground arith
    ]

enqueue_known :
    (i : EnqueueInput) (job : Job) (db : Db)
    → validate_enqueue i ≡ ok tt
    → insert_job i db.jobs ≡ db.jobs
    → find_first (has_key i) db.jobs ≡ some job
    → is_created i job ≡ false
    → conflicts i job ≡ false
    → insert_outbox i job db.outbox ≡ db.outbox
    → enqueue_in_transaction i db ≡ ok (record { created = false; job = job }, db)
unfolding enqueue_in_transaction enqueue_found
enqueue_known i job db v j f c a o = rw (v, j, f, c, a, o) refl

-- The same request again, with fresh identifiers and at any time, is no new work: where the
-- identifiers that the first call drew were fresh, and so is that of the second, the second returns
-- the job of the first as found, and leaves the database as it is.
pub enqueue_again :
    (i : EnqueueInput) (job_id outbox_id : String) (now : ℕ) (db after : Db) (r : Enqueued)
    → All (λ (x : Job). str_eq x.id i.job_id ≡ false) db.jobs
    → All (λ (o : Outbox). str_eq o.id i.outbox_id ≡ false) db.outbox
    → str_eq r.job.id job_id ≡ false
    → enqueue_in_transaction i db ≡ ok (r, after)
    → enqueue_in_transaction (again i job_id outbox_id now) after
      ≡ ok (record { created = false; job = r.job }, after)
unfolding validate_enqueue
enqueue_again i job_id outbox_id now db after r jobs outbox other h =
    let s = enqueue-Stored i db after r h in
    let i' = again i job_id outbox_id now in
    let agreed = new_or_agreed i db.jobs r.job jobs s.found s.agreed in
    let kept : insert_job i' (insert_job i db.jobs) ≡ insert_job i db.jobs =
      stays i' (insert_job i db.jobs) r.job s.found in
    let delivered : insert_outbox i' r.job (insert_outbox i r.job db.outbox)
        ≡ insert_outbox i r.job db.outbox =
      outbox_stays i' r.job (insert_outbox i r.job db.outbox)
        (found_outbox i i' r.job db.outbox outbox) in
    rw s.rows (enqueue_known i' r.job _ s.valid kept s.found other agreed delivered)
