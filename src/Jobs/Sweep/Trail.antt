-- ===== src/Jobs/Sweep/Trail.antt =====
-- A sweep as a history: whatever it repairs, and wherever it stops, it is a run of the transactions.
use content_automation.Base.{◌≡◌, refl, ◌⊎◌, inl, inr, Bool, ◌&&◌, ◌||◌, String, List, [], ◌∷◌}
use content_automation.Base.Tests.{is_some, leb, Bool-cases, Option-cases}
use content_automation.Correlation.{parse_correlation_id}
use content_automation.Domain.Lifecycle.{failed_attention, succeeded, same_state}
use content_automation.Errors.{Result, ok, err, Error, Yields, Yields-ok, Yields-if, Yields-bind}
use content_automation.Jobs.Store.{Job, Db}
use content_automation.Jobs.Reconciliation.{flag_ambiguous_job}
use content_automation.Jobs.CommittedResult.{repair_committed_result}
use content_automation.Jobs.History.{
  Later, here, then, Write, regular, repair, recovery, requeue, restrand, reoutbox, flag,
}
use content_automation.Jobs.Sweep.{
  SweepOptions, Tally, Settled, Inspection, absent, present, unsupported, Pass, expired,
  due_retries, stranded, missing_outbox, results, settles, settle_inspected, settle, settle_all,
  run_passes, reconcile_background_jobs, candidates, count, repair_of, recovery_of, all_passes,
  no_tally,
}

-- A transaction that reads what its writes meet.
next : (before db after : Db) → Later before db → Write db db after → Later before after
next before db after past w = then before db db after past (here db) w

settles-Yields :
    (P : Db → Type 0) (s : Settled) (m : Result (Bool × Db))
    → Yields (λ r. P r.1) m
    → Yields (λ r. P r.1) (settles s m)
settles-Yields P s m h = Yields-bind m _ h λ r k. Yields-ok _ k

flagged-Later :
    (o : SweepOptions) (id code : String) (job : Job) (before db : Db)
    → Later before db
    → Yields
        (λ r. Later before r.1)
        (settles Settled.flagged (flag_ambiguous_job (repair_of o id job) job.id code db))
flagged-Later o id code job before db past =
    settles-Yields (Later before) Settled.flagged _ (record {
      of = λ r e.
          next before db r.1 past (regular (flag (repair_of o id job) job.id code r.0 r.1 e));
    })

settle_inspected-Later :
    (o : SweepOptions) (id : String) (i : Inspection) (job : Job) (before db : Db)
    → Later before db
    → Yields (λ r. Later before r.1) (settle_inspected o id i job db)
unfolding settle_inspected
settle_inspected-Later o id unsupported job before db past = Yields-ok (Settled.untouched, db) past
settle_inspected-Later o id absent job before db past =
    let gone = flagged-Later o id "SUCCEEDED_RESULT_MISSING" job before db past in
    let same = Yields-ok (Settled.untouched, db) past in
    Yields-if (same_state job.state succeeded) _ _ (λ _. gone) (λ _. same)
settle_inspected-Later o id present job before db past =
    let gone = flagged-Later o id "TERMINAL_RESULT_CONFLICT" job before db past in
    let same = Yields-ok (Settled.untouched, db) past in
    Yields-if (same_state job.state succeeded) _ _ (λ _. same)
      λ _.
        Yields-if (same_state job.state failed_attention || is_some job.cancellation_requested_at) _
          _ (λ _. gone)
          λ _.
            settles-Yields (Later before) Settled.repaired
              (repair_committed_result (repair_of o id job) job.id db db)
              (record {
                of = λ r e. next before db r.1 past (repair (repair_of o id job) job.id r.0 e);
              })

settle-Later :
    (o : SweepOptions) (id : String) (p : Pass) (job : Job) (before db : Db)
    → Later before db
    → Yields (λ r. Later before r.1) (settle o id p job db)
unfolding settle
settle-Later o id expired job before db past =
    settles-Yields (Later before) Settled.repaired _ (record {
      of = λ r e.
          next before db r.1 past (regular (recovery (recovery_of o id job) job.id r.0 r.1 e));
    })
settle-Later o id due_retries job before db past =
    settles-Yields (Later before) Settled.repaired _ (record {
      of = λ r e. next before db r.1 past (regular (requeue (repair_of o id job) job.id r.0 r.1 e));
    })
settle-Later o id stranded job before db past =
    settles-Yields (Later before) Settled.repaired _ (record {
      of =
          λ r e. next before db r.1 past (regular (restrand (repair_of o id job) job.id r.0 r.1 e));
    })
settle-Later o id missing_outbox job before db past =
    settles-Yields (Later before) Settled.repaired _ (record {
      of =
          λ r e. next before db r.1 past (regular (reoutbox (repair_of o id job) job.id r.0 r.1 e));
    })
settle-Later o id results job before db past =
    settle_inspected-Later o id (o.inspect_result db job) job before db past

Result-cases : {A : Type 0} (m : Result A) → ((e : Error) × (m ≡ err e)) ⊎ ((a : A) × (m ≡ ok a))
Result-cases (err e) = inl (e, refl)
Result-cases (ok a) = inr (a, refl)

settle_all-Later :
    (o : SweepOptions) (id : String) (p : Pass) (jobs : List Job) (t : Tally) (before db : Db)
    → Later before db
    → Later before (settle_all o id p jobs t db).1
unfolding settle_all
settle_all-Later o id p [] t before db past = past
settle_all-Later o id p (job ∷ jobs) t before db past = elim (Result-cases (settle o id p job db)) [
  | inl (e, q) ↦ rw (q, settle_all) past
  | inr (r, q) ↦
      rw (q, settle_all)
        (settle_all-Later o id p jobs (count r.0 t) before r.1
          ((settle-Later o id p job before db past).of r q))
]

run_passes-Later :
    (o : SweepOptions) (id : String) (ps : List Pass) (t : Tally) (before db : Db)
    → Later before db
    → Later before (run_passes o id ps t db).1
unfolding run_passes
run_passes-Later o id [] t before db past = past
run_passes-Later o id (p ∷ ps) t before db past =
    let done = settle_all o id p (candidates o p db) t db in
    let met = settle_all-Later o id p (candidates o p db) t before db past in
    elim (Result-cases done.0) [
      | inl (e, q) ↦ rw (q, run_passes) met
      | inr (counted, q) ↦ rw (q, run_passes) (run_passes-Later o id ps counted before done.1 met)
    ]

-- A sweep, whether it ends or a repair throws and wherever that is, is a history of the transactions:
-- what it leaves in the database is reached from what it found by committed transactions alone.
pub reconcile-Later : (o : SweepOptions) (db : Db) → Later db (reconcile_background_jobs o db).1
unfolding reconcile_background_jobs
reconcile-Later o db = elim (Option-cases (parse_correlation_id o.correlation_id)) [
  | inl q ↦ rw (q) (here db)
  | inr (id, q) ↦ elim (Bool-cases (leb 1 o.batch_size && leb o.batch_size 100)) [
    | inl sized ↦ rw (q, sized) (run_passes-Later o id all_passes no_tally db db (here db))
    | inr sized ↦ rw (q, sized) (here db)
  ]
]
