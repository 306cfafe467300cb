-- ===== src/Jobs/History/Passes.antt =====
-- A dispatcher pass of packages/db/src/background-jobs.ts as the transactions that it makes.
use content_automation.Correlation.{parse_correlation_id}
use content_automation.Base.{List, [], ◌∷◌, refl, inl, inr}
use content_automation.Base.Tests.{Bool-cases, is_some}
use content_automation.Errors.{Result, ok, err}
use content_automation.Jobs.Store.{Outbox, Db}
use content_automation.Jobs.Dispatch.{
  DispatchOptions, DispatchResult, lease_rows, leased_rows, dispatch_outbox_record, dispatch_all,
  dispatch_batch, reconcile_job_outbox, after_validation, validate_dispatch,
}
use content_automation.Jobs.History.{
  Transaction, lease_batch, settle_delivery, regular, Later, here, then,
}

commit : (before db after : Db) → Later before db → Transaction db db after → Later before after
commit before db after l t = then before db db after l (here db) (regular t)

record-Later :
    (d : DispatchOptions) (o : Outbox) (before db : Db)
    → Later before db
    → Later before (dispatch_outbox_record d o db).1
unfolding dispatch_outbox_record
record-Later d o before db l = elim (Bool-cases (is_some (parse_correlation_id o.correlation_id))) [
  | inl t ↦ rw t (commit before db _ l (settle_delivery d o (d.publish o) _ refl))
  | inr t ↦ rw t l
]

all-Later :
    (d : DispatchOptions) (rows : List Outbox) (before db : Db)
    → Later before db
    → Later before (dispatch_all d rows db).1
unfolding dispatch_all
all-Later d [] before db l = l
all-Later d (o ∷ rows) before db l =
    all-Later d rows before (dispatch_outbox_record d o db).1 (record-Later d o before db l)

validated-Later :
    (v : Result (Unit {0})) (db : Db) (done : Result DispatchResult × Db)
    → Later db done.1
    → Later db (after_validation v db done).1
validated-Later (ok u) db done l = l
validated-Later (err e) db done l = here db

pub reconcile_job_outbox-Later :
    (d : DispatchOptions) (db : Db) → Later db (reconcile_job_outbox d db).1
unfolding reconcile_job_outbox dispatch_batch
reconcile_job_outbox-Later d db =
    let leased = record db { outbox = lease_rows d d.batch_size db.outbox } in
    validated-Later (validate_dispatch d) db (dispatch_batch d db) (
      all-Later d (leased_rows d d.batch_size db.outbox) db leased
        (commit db db leased (here db) (lease_batch d leased refl)))
