-- ===== src/Jobs/Dispatch.antt =====
-- reconcileJobOutbox of packages/db/src/background-jobs.ts: due outbox rows are leased, published
-- and marked. Telemetry is left out.
pub mod Batches
pub mod Release
use content_automation.Base.{
  ℕ, zero, suc, ◌+◌, ◌-◌, String, Bool, true, false, not, ◌&&◌, ◌||◌, Option, none, some, List, [],
  ◌∷◌,
}
use content_automation.Base.Tests.{
  leb, ◌==◌, if◌then◌else◌, if_found, is_some, is_due, opt_eq, is_positive_safe,
}
use content_automation.Base.Rows.{update_many, count_where}
use content_automation.Correlation.{parse_correlation_id}
use content_automation.Errors.{
  Error, Result, ok, err, ◌>>=◌, ◌>>◌, ensure, operational, dependency, validation_error,
  job_database_error,
}
use content_automation.Jobs.Store.{Job, Outbox, Db, DispatchStatus}
use text.Mathlib.Text.{◌==◌ as str_eq}

-- What QueuePublisher.publish answers: the delivery identifier, or an error with the code that
-- toDispatchError gives it.
pub data Published : Type 0 where
  delivered : String → Published
  refused : String → Published

pub record DispatchOptions : Type 0 where
  pub batch_size : ℕ
  pub failure_delay_ms : ℕ
  pub lease_duration_ms : ℕ
  pub now : ℕ
  pub lease_id : String
  pub publish : Outbox → Published

-- the `WHERE` of the candidates
abbrev pub is_candidate : ℕ → Outbox → Bool
is_candidate now o =
    not (is_some o.dispatched_at)
    && (not (is_some o.cancelled_at)
        && (leb o.next_attempt_at now
            && (not (is_some o.lease_expires_at) || is_due o.lease_expires_at now)))

abbrev pub take_lease : DispatchOptions → Outbox → Outbox
take_lease d o = record o {
  lease_id = some d.lease_id;
  lease_expires_at = some (d.now + d.lease_duration_ms);
  dispatch_attempt_count = o.dispatch_attempt_count + 1;
}

-- leasePendingOutbox, over a table in the order of created_at and id: the first `limit` candidates.
unfoldable pub lease_rows : DispatchOptions → ℕ → List Outbox → List Outbox
lease_rows d limit [] = []
lease_rows d zero (o ∷ rows) = o ∷ rows
lease_rows d (suc limit) (o ∷ rows) =
    if is_candidate d.now o
    then take_lease d o ∷ lease_rows d limit rows
    else o ∷ lease_rows d (suc limit) rows

-- the rows that the statement returns
unfoldable pub leased_rows : DispatchOptions → ℕ → List Outbox → List Outbox
leased_rows d limit [] = []
leased_rows d zero (o ∷ rows) = []
leased_rows d (suc limit) (o ∷ rows) =
    if is_candidate d.now o
    then take_lease d o ∷ leased_rows d limit rows
    else leased_rows d (suc limit) rows

-- where: { dispatchedAt: null, cancelledAt: null, id, leaseId }
abbrev pub is_mine : Outbox → Outbox → Bool
is_mine leased o =
    not (is_some o.dispatched_at)
    && (not (is_some o.cancelled_at)
        && (str_eq o.id leased.id && opt_eq o.lease_id leased.lease_id))

abbrev pub mark_row : String → ℕ → Outbox → Outbox
mark_row delivery_id now o = record o {
  dispatched_at = some now;
  last_error_code = none;
  lease_expires_at = none;
  lease_id = none;
  queue_delivery_id = some delivery_id;
}

abbrev pub mark_job : Job → Job
mark_job r = record r { dispatch_status = DispatchStatus.dispatched }

-- markOutboxDispatched
unfoldable pub mark_outbox_dispatched : DispatchOptions → Outbox → String → Db → Db
mark_outbox_dispatched d leased delivery_id db =
    let updated = record db {
      outbox = update_many (is_mine leased) (mark_row delivery_id d.now) db.outbox;
    } in
    if count_where (is_mine leased) db.outbox == 1
    then record updated {
      jobs = update_many (λ r. str_eq r.id leased.background_job_id) mark_job db.jobs;
    }
    else updated

abbrev pub release_row : DispatchOptions → String → Outbox → Outbox
release_row d code o = record o {
  last_error_code = some code;
  lease_expires_at = none;
  lease_id = none;
  next_attempt_at = d.now + d.failure_delay_ms;
}

unfoldable pub release_outbox : DispatchOptions → Outbox → String → Db → Db
release_outbox d leased code db = record db {
  outbox = update_many (is_mine leased) (release_row d code) db.outbox;
}

unfoldable pub settle_dispatch : DispatchOptions → Outbox → Published → Db → Bool × Db
settle_dispatch d leased (delivered delivery_id) db =
    (true, mark_outbox_dispatched d leased delivery_id db)
settle_dispatch d leased (refused code) db = (false, release_outbox d leased code db)

pub record DispatchResult : Type 0 where
  pub claimed : ℕ
  pub dispatched : ℕ
  pub failed : ℕ

abbrev pub settled : Bool × Db → Result Bool × Db
settled (b, db) = (ok b, db)

abbrev pub tally : Result Bool → Result ℕ → Result ℕ
tally (ok b) (ok n) = ok (if b then suc n else n)
tally (ok b) (err e) = err e
tally (err e) m = err e

abbrev pub report : ℕ → Result ℕ → Result DispatchResult
report claimed (ok n) = ok (record { claimed = claimed; dispatched = n; failed = claimed - n })
report claimed (err e) = err e

abbrev pub after_validation :
    Result (Unit {0}) → Db → Result DispatchResult × Db → Result DispatchResult × Db
after_validation (ok _) db done = done
after_validation (err e) db done = (err e, db)

-- dispatchOutboxRecord: what it answers or throws, and the database that it leaves.
unfoldable pub dispatch_outbox_record : DispatchOptions → Outbox → Db → Result Bool × Db
dispatch_outbox_record d leased db =
    if is_some (parse_correlation_id leased.correlation_id)
    then settled (settle_dispatch d leased (d.publish leased) db)
    else (err (job_database_error "JOB_CORRELATION_INVALID"), db)

-- Promise.all over the records, which are taken one after the other: the number dispatched, or an
-- error once one of them has thrown. The others write all the same.
unfoldable pub dispatch_all : DispatchOptions → List Outbox → Db → Result ℕ × Db
dispatch_all d [] db = (ok 0, db)
dispatch_all d (o ∷ rows) db =
    let first = dispatch_outbox_record d o db in
    let rest = dispatch_all d rows first.1 in (tally first.0 rest.0, rest.1)

abbrev pub length : List Outbox → ℕ
length [] = 0
length (o ∷ rows) = suc (length rows)

-- The lease of a batch, and its records.
unfoldable pub dispatch_batch : DispatchOptions → Db → Result DispatchResult × Db
dispatch_batch d db =
    let records = leased_rows d d.batch_size db.outbox in
    let done =
      dispatch_all d records (record db { outbox = lease_rows d d.batch_size db.outbox }) in
    (report (length records) done.0, done.1)

unfoldable pub validate_dispatch : DispatchOptions → Result (Unit {0})
validate_dispatch d = do
  ensure (is_positive_safe d.batch_size) (validation_error "JOB_DISPATCH_BATCH_INVALID")
  ensure (is_positive_safe d.failure_delay_ms) (validation_error "JOB_DISPATCH_DELAY_INVALID")
  ensure (is_positive_safe d.lease_duration_ms) (validation_error "JOB_DISPATCH_LEASE_INVALID")

unfoldable pub reconcile_job_outbox : DispatchOptions → Db → Result DispatchResult × Db
reconcile_job_outbox d db = after_validation (validate_dispatch d) db (dispatch_batch d db)
