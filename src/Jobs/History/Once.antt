-- ===== src/Jobs/History/Once.antt =====
-- The result of a job is committed once.
use content_automation.Base.{ℕ, String, ◌≡◌, ◌∙◌, refl, inl, inr, true, false, List, [], ◌∷◌, arith}
use content_automation.Base.Tests.{◌==◌}
use content_automation.Base.Rows.{All, update_many, count_where}
use content_automation.Base.Pointwise.{Any, Any-update_many, Any-Extends}
use content_automation.Domain.Lifecycle.{succeeded, same_state, is_safe_job_stage}
use content_automation.Domain.Retry.{JobFailure, RetryDecision}
use content_automation.Errors.{
  Result, ok, err, job_lease_lost, Yields, Yields-ok, Yields-ensure, Yields-rescue, Yields-bind,
}
use content_automation.Jobs.Store.{Job, Db, holds_lease}
use content_automation.Jobs.Lease.{is_leased}
use content_automation.Jobs.Commit.{
  is_committable, succeed, succeed_attempt, commit_job_success, commit_job_failure,
}
use content_automation.Jobs.Recovery.Fencing.{unleased_writes, unleased_others}
use content_automation.Jobs.Steps.Rows.{Settles}
use content_automation.Jobs.Steps.Agreement.{Distinct, Differs}
use content_automation.Jobs.Steps.Delivery.{Appends}
use content_automation.Jobs.History.{Later}
use content_automation.Jobs.History.Moves.{OnlyEnqueues, Enqueues-Appends, Later-Settle}
use text.Mathlib.Text.{◌==◌ as str_eq}
use text.Mathlib.TextEquality.{eq_iff}

-- The row of a job that has succeeded.
abbrev pub HasSucceeded : String → Job → Type 0
HasSucceeded j r = (str_eq r.id j ≡ true) × (r.state ≡ succeeded)

succeed-HasSucceeded :
    (w j l : String) (at : ℕ) (r : Job)
    → is_committable w j l r ≡ true
    → HasSucceeded j (succeed at r)
succeed-HasSucceeded w j l at r t = (ground arith, refl)

same-HasSucceeded : (j : String) (r s : Job) → s ≡ r → HasSucceeded j r → HasSucceeded j s
same-HasSucceeded j r s e h = rw e h

Settles-HasSucceeded : (j : String) (r s : Job) → Settles r s → HasSucceeded j r → HasSucceeded j s
Settles-HasSucceeded j r s k h = (rw k.evolves.id h.0, k.final (rw h.1 refl) ∙ h.1)

success-HasSucceeded :
    (commit : Db → Result Db) (w j l : String) (at : ℕ) (db : Db)
    → OnlyEnqueues commit
    → Yields (λ after. Any (HasSucceeded j) after.jobs) (commit_job_success commit w j l at db)
unfolding commit_job_success
success-HasSucceeded commit w j l at db k =
    let marked : Db = record db {
      jobs = update_many (is_committable w j l) (succeed at) db.jobs;
    } in
    let committed : Yields (Appends marked) (commit marked) = record {
      of = λ after e. Enqueues-Appends marked after (k marked after e);
    } in
    let attempted = λ (there : Any (HasSucceeded j) marked.jobs) (e : Db) (a : Appends marked e).
      Yields-ensure {P = λ (after : Db). Any (HasSucceeded j) after.jobs}
        (count_where (holds_lease l) e.attempts == 1) job_lease_lost
        (ok (record e { attempts = update_many (holds_lease l) (succeed_attempt at) e.attempts }))
        (λ _. Yields-ok _ (
          Any-Extends (HasSucceeded j) (λ (r s : Job). s ≡ r) marked.jobs e.jobs
            (same-HasSucceeded j) a there)) in
    Yields-rescue _ _ (
      Yields-ensure (count_where (is_committable w j l) db.jobs == 1) _ _ λ one.
        Yields-bind _ _ committed (
          attempted (
            Any-update_many (HasSucceeded j) (is_committable w j l) (succeed at) db.jobs
              (succeed-HasSucceeded w j l at) (λ z. absurd (ground arith)))))

Differs-from :
    (j : String) (r : Job) (rows : List Job)
    → All (Differs r) rows
    → Any (HasSucceeded j) rows
    → str_eq r.id j ≡ false
Differs-from j r [] d h = elim h [ ]
Differs-from j r (x ∷ rows) d (inl h) = cc (d.0.1, (eq_iff x.id j).0 h.0)
Differs-from j r (x ∷ rows) d (inr h) = Differs-from j r rows d.1 h

succeeded_unleased :
    (w j l : String) (rows : List Job)
    → Distinct rows
    → Any (HasSucceeded j) rows
    → count_where (is_leased w j l) rows ≡ 0
unfolding count_where same_state
succeeded_unleased w j l [] d h = elim h [ ]
succeeded_unleased w j l (r ∷ rows) d (inl h) = ground (arith, unleased_others w j l r rows h.0 d.0)
succeeded_unleased w j l (r ∷ rows) d (inr h) =
    let other = Differs-from j r rows d.0 h in ground (arith, succeeded_unleased w j l rows d.1 h)

-- Once a success of a job has committed, with a callback that at most enqueues further work, and
-- whatever has committed since, no row of the job is processed under any lease, where the
-- identifiers of jobs are distinct: no worker commits a result or a failure of it again.
pub commit_once :
    (commit again : Db → Result Db) (f : JobFailure) (d : RetryDecision) (w j l w' l' : String)
    (at at' : ℕ) (db mid met : Db)
    → OnlyEnqueues commit
    → commit_job_success commit w j l at db ≡ ok mid
    → Later mid met
    → Distinct met.jobs
    → (commit_job_success again w' j l' at' met ≡ err job_lease_lost)
      × (commit_job_failure f d w' j l' at' met ≡ err job_lease_lost)
unfolding is_safe_job_stage
commit_once commit again f d w j l w' l' at at' db mid met k h past distinct =
    let there =
      Any-Extends (HasSucceeded j) Settles mid.jobs met.jobs (Settles-HasSucceeded j)
        (Later-Settle mid met past) ((success-HasSucceeded commit w j l at db k).of _ h) in
    let fenced = succeeded_unleased w' j l' met.jobs distinct there in
    let (b, s, again_lost, failure_lost) =
      unleased_writes w' j l' "completed" at' 1 again f d met fenced refl refl in
    (again_lost, failure_lost)
