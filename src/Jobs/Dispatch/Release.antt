-- ===== src/Jobs/Dispatch/Release.antt =====
-- The outbox rows that a pass of the dispatcher of packages/db/src/background-jobs.ts has leased, up to
-- where it settles the last of them.
use content_automation.Base.{
  ℕ, min, ◌≤◌, sym, zero, suc, String, Bool, true, false, not, ◌&&◌, ◌||◌, Option, none, some, List,
  [], ◌∷◌, ◌≡◌, refl, ap, ◌∙◌, inl, inr, arith,
}
use content_automation.Base.Tests.{◌==◌, if◌then◌else◌, is_some, opt_eq, Bool-cases}
use content_automation.Base.Order.{every}
use content_automation.Base.Order.Least.{every-imp}
use content_automation.Base.Rows.{update_many, count_where}
use content_automation.Correlation.{parse_correlation_id}
use content_automation.Errors.{Result, ok, err}
use content_automation.Jobs.Store.{Outbox, Db}
use content_automation.Jobs.Dispatch.{
  DispatchOptions, DispatchResult, Published, delivered, refused, is_candidate, take_lease,
  lease_rows, leased_rows, is_mine, mark_row, release_row, mark_outbox_dispatched, release_outbox,
  settle_dispatch, dispatch_outbox_record, dispatch_all, tally, length, report, dispatch_batch,
  validate_dispatch, after_validation, reconcile_job_outbox,
}
use content_automation.Jobs.Dispatch.Batches.{holds, lease_counts}
use text.Mathlib.TextEquality.{eq_iff}
use text.Mathlib.Text.{◌==◌ as str_eq}

abbrev among : Outbox → List Outbox → Bool
among o [] = false
among o (r ∷ rs) = str_eq o.id r.id || among o rs

-- A row under the lease is still open and one of the records to come.
abbrev waits : DispatchOptions → List Outbox → Outbox → Bool
waits d rs o =
    not (holds d o)
    || (not (is_some o.dispatched_at) && (not (is_some o.cancelled_at) && among o rs))

every-update_many :
    (p q test : Outbox → Bool) (change : Outbox → Outbox) (rows : List Outbox)
    → ((o : Outbox) → p o ≡ true → q (if test o then change o else o) ≡ true)
    → every p rows ≡ true
    → every q (update_many test change rows) ≡ true
unfolding every update_many
every-update_many p q test change [] step h = refl
every-update_many p q test change (o ∷ rows) step h =
    ground (arith, step o, every-update_many p q test change rows step)

lease_rows-waits :
    (d : DispatchOptions) (limit : ℕ) (rows : List Outbox)
    → every (λ o. not (holds d o)) rows ≡ true
    → every (waits d (leased_rows d limit rows)) (lease_rows d limit rows) ≡ true
unfolding lease_rows leased_rows every
lease_rows-waits d limit [] h = refl
lease_rows-waits d zero (o ∷ rows) h =
    every-imp (λ r. not (holds d r)) (waits d []) (o ∷ rows) (λ r t. ground arith) h
lease_rows-waits d (suc limit) (o ∷ rows) h = elim (Bool-cases (is_candidate d.now o)) [
  | inl t ↦
      let rest =
        every-imp (waits d (leased_rows d limit rows))
          (waits d (take_lease d o ∷ leased_rows d limit rows)) (lease_rows d limit rows)
          (λ r w. ground arith) (lease_rows-waits d limit rows (ground arith)) in
      rw t (ground (arith, (eq_iff o.id o.id).1 refl, rest))
  | inr t ↦ rw t (ground (arith, lease_rows-waits d (suc limit) rows))
]

leased_rows-holds :
    (d : DispatchOptions) (limit : ℕ) (rows : List Outbox)
    → every (holds d) (leased_rows d limit rows) ≡ true
unfolding leased_rows every
leased_rows-holds d limit [] = refl
leased_rows-holds d zero (o ∷ rows) = refl
leased_rows-holds d (suc limit) (o ∷ rows) = ground (
  arith,
  (eq_iff d.lease_id d.lease_id).1 refl,
  leased_rows-holds d limit rows,
  leased_rows-holds d (suc limit) rows,
)

opt_eq-some : (l : Option String) (m : String) → opt_eq l (some m) ≡ true → l ≡ some m
opt_eq-some none m h = absurd (cc h)
opt_eq-some (some l) m h = ground (arith, (eq_iff l m).0)

-- What is settled is under no lease, and the rest waits for the records after it.
row_waits :
    (d : DispatchOptions) (r : Outbox) (rs : List Outbox) (change : Outbox → Outbox)
    → ((o : Outbox) → (change o).lease_id ≡ none)
    → holds d r ≡ true
    → (o : Outbox) → waits d (r ∷ rs) o ≡ true
    → waits d rs (if is_mine r o then change o else o) ≡ true
row_waits d r rs change free held o h = elim (Bool-cases (is_mine r o)) [
  | inl t ↦ rw t (rw (free o) refl)
  | inr t ↦
      let same : opt_eq o.lease_id r.lease_id ≡ holds d o =
        ap (opt_eq o.lease_id) (opt_eq-some r.lease_id d.lease_id held) in
      rw t (ground (arith, same))
]

settle_dispatch-waits :
    (d : DispatchOptions) (r : Outbox) (rs : List Outbox) (answer : Published) (db : Db)
    → holds d r ≡ true
    → every (waits d (r ∷ rs)) db.outbox ≡ true
    → every (waits d rs) (settle_dispatch d r answer db).1.outbox ≡ true
unfolding settle_dispatch mark_outbox_dispatched release_outbox
settle_dispatch-waits d r rs (delivered delivery_id) db held h =
    let done =
      every-update_many (waits d (r ∷ rs)) (waits d rs) (is_mine r) (mark_row delivery_id d.now)
        db.outbox (row_waits d r rs (mark_row delivery_id d.now) (λ o. refl) held) h in
    elim (Bool-cases (count_where (is_mine r) db.outbox == 1)) [
      | inl t ↦ rw t done
      | inr t ↦ rw t done
    ]
settle_dispatch-waits d r rs (refused code) db held h =
    every-update_many (waits d (r ∷ rs)) (waits d rs) (is_mine r) (release_row d code) db.outbox
      (row_waits d r rs (release_row d code) (λ o. refl) held) h

dispatch_outbox_record-waits :
    (d : DispatchOptions) (r : Outbox) (rs : List Outbox) (db : Db) (b : Bool)
    → (dispatch_outbox_record d r db).0 ≡ ok b
    → holds d r ≡ true
    → every (waits d (r ∷ rs)) db.outbox ≡ true
    → every (waits d rs) (dispatch_outbox_record d r db).1.outbox ≡ true
unfolding dispatch_outbox_record
dispatch_outbox_record-waits d r rs db b e held h =
    elim (Bool-cases (is_some (parse_correlation_id r.correlation_id))) [
      | inl t ↦ rw t (settle_dispatch-waits d r rs (d.publish r) db held h)
      | inr t ↦ absurd (let k = rw t at e in cc k)
    ]

tally_ok :
    (b : Result Bool) (m : Result ℕ) (n : ℕ)
    → tally b m ≡ ok n
    → ((c : Bool) × (b ≡ ok c)) × ((k : ℕ) × (m ≡ ok k))
tally_ok (ok b) (ok m) n e = ((b, refl), (m, refl))
tally_ok (ok b) (err x) n e = absurd (cc e)
tally_ok (err x) m n e = absurd (cc e)

dispatch_all-waits :
    (d : DispatchOptions) (rs : List Outbox) (db : Db) (n : ℕ)
    → (dispatch_all d rs db).0 ≡ ok n
    → every (holds d) rs ≡ true
    → every (waits d rs) db.outbox ≡ true
    → every (waits d []) (dispatch_all d rs db).1.outbox ≡ true
unfolding dispatch_all every
dispatch_all-waits d [] db n e held h = h
dispatch_all-waits d (r ∷ rs) db n e held h =
    let first = dispatch_outbox_record d r db in
    let (one, rest) = tally_ok first.0 (dispatch_all d rs first.1).0 n e in
    dispatch_all-waits d rs first.1 rest.0 rest.1 (ground arith)
      (dispatch_outbox_record-waits d r rs db one.0 one.1 (ground arith) h)

report_ok :
    (claimed : ℕ) (m : Result ℕ) (r : DispatchResult)
    → report claimed m ≡ ok r
    → (r.claimed ≡ claimed) × ((n : ℕ) × (m ≡ ok n))
report_ok claimed (ok n) r e = (ground (arith, e), (n, refl))
report_ok claimed (err x) r e = absurd (cc e)

after_validation_ok :
    (v : Result (Unit {0})) (db : Db) (done : Result DispatchResult × Db) (r : DispatchResult)
    → (after_validation v db done).0 ≡ ok r
    → (v ≡ ok tt) × (after_validation v db done ≡ done)
after_validation_ok (ok u) db done r e = (refl, refl)
after_validation_ok (err x) db done r e = absurd (cc e)

lease_is_positive : (d : DispatchOptions) → validate_dispatch d ≡ ok tt → 1 ≤ d.lease_duration_ms
unfolding validate_dispatch
lease_is_positive d e = ground arith

dispatch_batch-released :
    (d : DispatchOptions) (db : Db) (r : DispatchResult)
    → every (λ o. not (holds d o)) db.outbox ≡ true
    → (dispatch_batch d db).0 ≡ ok r
    → (r.claimed ≡ length (leased_rows d d.batch_size db.outbox))
      × (every (λ o. not (holds d o)) (dispatch_batch d db).1.outbox ≡ true)
unfolding dispatch_batch
dispatch_batch-released d db r fresh e =
    let records = leased_rows d d.batch_size db.outbox in
    let start = record db { outbox = lease_rows d d.batch_size db.outbox } in
    let (claimed, settled) = report_ok (length records) (dispatch_all d records start).0 r e in
    let done =
      dispatch_all-waits d records start settled.0 settled.1
        (leased_rows-holds d d.batch_size db.outbox)
        (lease_rows-waits d d.batch_size db.outbox fresh) in
    (
      claimed,
      every-imp (waits d []) (λ o. not (holds d o)) (dispatch_all d records start).1.outbox
          (λ o t. ground arith) done,
    )

-- A pass of the dispatcher that answers, where no row held its lease before, has claimed the smaller of
-- its batch size and the number of due rows, and leaves no row under its lease.
pub pass_releases :
    (d : DispatchOptions) (db : Db) (r : DispatchResult)
    → every (λ o. not (holds d o)) db.outbox ≡ true
    → (reconcile_job_outbox d db).0 ≡ ok r
    → (r.claimed ≡ min d.batch_size (count_where (is_candidate d.now) db.outbox))
      × (every (λ o. not (holds d o)) (reconcile_job_outbox d db).1.outbox ≡ true)
unfolding reconcile_job_outbox
pass_releases d db r fresh e =
    let (valid, same) = after_validation_ok (validate_dispatch d) db (dispatch_batch d db) r e in
    let (claimed, released) = dispatch_batch-released d db r fresh (sym (ap (λ p. p.0) same) ∙ e) in
    (
      claimed ∙ (lease_counts d d.batch_size db.outbox (lease_is_positive d valid)).0,
      ap (λ p. every (λ o. not (holds d o)) p.1.outbox) same ∙ released,
    )
