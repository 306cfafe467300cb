-- ===== src/Jobs/Operations/Authority.antt =====
-- Who may change jobs through packages/db/src/job-operations.ts, and what the audit trail keeps of it.
use content_automation.Base.{
  ◌<◌, String, ◌≡◌, refl, ◌⊎◌, inl, inr, true, not, some, List, [], ◌∷◌, ◌++◌, arith,
}
use content_automation.Base.Tests.{leb, if_found}
use content_automation.Base.Rows.{find_first, count_where}
use content_automation.Errors.{
  Result, ok, ◌>>=◌, Yields, Yields-ok, Yields-bind, Yields-if, Yields-if_found, yields,
}
use content_automation.Jobs.Store.{Job, User, AuditEvent, Db}
use content_automation.Jobs.Operations.{
  find_job, job_not_found, write_cancel_waiting, write_request, cancel_found, cancel_background_job,
}
use content_automation.Jobs.Guard.{
  Command, OperationResult, Action, refuse, audit_event, outcome_text, operation_limit,
  is_principal, is_recent, prepare_operation, authorise, audit_and_return,
}
use content_automation.Jobs.Operations.Retry.{
  RetryOptions, write_retry, retry_failed, retry_found, retry_background_job,
}

-- The caller is an active administrator of an active workspace, under the current session version,
-- and below the rate limit of the action.
pub record Authority (c : Command) (a : Action) (seen : Db) : Type 0 where
  pub actor : User
  pub found : find_first (is_principal c) seen.users ≡ some actor
  pub admin : actor.is_admin ≡ true
  pub rate : count_where (is_recent c a actor) seen.audit < operation_limit a

-- The trail of a command: nothing for a caller who is not a principal of the workspace, and else one
-- entry, with the outcome and the reason that the caller is told.
abbrev pub Trail : OperationResult → List AuditEvent → List AuditEvent → Type 0
Trail r before after =
    ((after ≡ before) × (r ≡ refuse "OPERATOR_NOT_AUTHORISED"))
    ⊎ ((e : AuditEvent) × (after ≡ before ++ e ∷ [])
        × (e.outcome ≡ outcome_text r.outcome)
        × (e.reason_code ≡ r.reason_code))

-- A command that returned.
record Guarded (c : Command) (a : Action) (seen db : Db) (d : OperationResult × Db) : Type 0 where
  jobs : (d.1.jobs ≡ db.jobs) ⊎ Authority c a seen
  trail : Trail d.0 db.audit d.1.audit

audited-Guarded :
    (c : Command) (id : String) (a : Action) (u : User) (r : OperationResult) (seen db after : Db)
    → (after.jobs ≡ db.jobs) ⊎ Authority c a seen
    → after.audit ≡ db.audit
    → Yields (Guarded c a seen db) (audit_and_return c id a u r after)
unfolding audit_and_return
audited-Guarded c id a u r seen db after h e =
    Yields-ok _ (record { jobs = h; trail = inr (audit_event c id a u r, rw e refl, refl, refl) })

authorise-Guarded :
    (c : Command) (id : String) (a : Action) (seen db : Db)
    (allowed : User → Result (OperationResult × Db))
    → ((u : User) → Authority c a seen → Yields (Guarded c a seen db) (allowed u))
    → Yields (Guarded c a seen db) (authorise c id a seen db allowed)
unfolding authorise
authorise-Guarded c id a seen db allowed k =
    let stranger : Guarded c a seen db (refuse "OPERATOR_NOT_AUTHORISED", db) = record {
      jobs = inl refl;
      trail = inl (refl, refl);
    } in
    let audited =
      λ (u : User) (r : OperationResult). audited-Guarded c id a u r seen db db (inl refl) refl in
    Yields-if_found (find_first (is_principal c) seen.users) _ _ (λ _. Yields-ok _ stranger)
      λ u e.
        Yields-if (not u.is_admin) _ _ (λ _. audited u _)
          λ ad.
            Yields-if (leb (operation_limit a) (count_where (is_recent c a u) seen.audit)) _ _
              (λ _. audited u _)
              λ rt. k u (record { actor = u; found = e; admin = ground arith; rate = ground arith })

-- The writes of a command on the job leave the trail to its end.
cancel_found-trail :
    (c : Command) (job : Job) (db : Db) → Yields (λ d. d.1.audit ≡ db.audit) (cancel_found c job db)
unfolding cancel_found write_cancel_waiting write_request
cancel_found-trail c job db = let same : db.audit ≡ db.audit = refl in search (yields, same) depth 8

retry_found-trail :
    (c : Command) (o : RetryOptions) (job : Job) (seen db : Db)
    → Yields (λ d. d.1.audit ≡ db.audit) (retry_found c o job seen db)
unfolding retry_found retry_failed write_retry
retry_found-trail c o job seen db =
    let same : db.audit ≡ db.audit = refl in search (yields, same) depth 12

command-Guarded :
    (c : Command) (id : String) (a : Action) (seen db : Db)
    (on_job : Job → Result (OperationResult × Db))
    → ((job : Job) → Yields (λ d. d.1.audit ≡ db.audit) (on_job job))
    → Yields (Guarded c a seen db) (
        authorise c id a seen db λ actor.
          if_found
            (find_job c actor seen)
            (audit_and_return c id a actor job_not_found db)
            λ job. on_job job >>= λ done. audit_and_return c id a actor done.0 done.1)
command-Guarded c id a seen db on_job k = authorise-Guarded c id a seen db _ λ u h.
    Yields-if_found (find_job c u seen) _ _
      (λ _. audited-Guarded c id a u job_not_found seen db db (inr h) refl)
      λ job _.
        Yields-bind (on_job job) _ (k job)
          λ done e. audited-Guarded c id a u done.0 seen db done.1 (inr h) e

cancel-Guarded :
    (c : Command) (seen db : Db)
    → Yields (Guarded c Action.cancel seen db) (cancel_background_job c seen db)
unfolding cancel_background_job
cancel-Guarded c seen db =
    Yields-bind {Q = λ _. Unit {0}} (prepare_operation c) _ (record { of = λ _ _. tt })
      λ id _.
        command-Guarded c id Action.cancel seen db (λ job. cancel_found c job db)
          λ job. cancel_found-trail c job db

retry-Guarded :
    (c : Command) (o : RetryOptions) (seen db : Db)
    → Yields (Guarded c Action.retry seen db) (retry_background_job c o seen db)
unfolding retry_background_job
retry-Guarded c o seen db =
    Yields-bind {Q = λ _. Unit {0}} (prepare_operation c) _ (record { of = λ _ _. tt })
      λ id _.
        command-Guarded c id Action.retry seen db (λ job. retry_found c o job seen db)
          λ job. retry_found-trail c o job seen db

-- A cancel command that returns has left every job as it was, or its caller is an active
-- administrator of an active workspace and below the rate limit. It adds one audit entry, with the
-- outcome and the reason that it returns, unless the caller is no principal of the workspace, who is
-- told OPERATOR_NOT_AUTHORISED.
pub cancel_authorised :
    (c : Command) (seen db after : Db) (r : OperationResult)
    → cancel_background_job c seen db ≡ ok (r, after)
    → ((after.jobs ≡ db.jobs) ⊎ Authority c Action.cancel seen) × Trail r db.audit after.audit
cancel_authorised c seen db after r h =
    let g = (cancel-Guarded c seen db).of _ h in (g.jobs, g.trail)

-- The same of a retry command, whatever the caller's options answer.
pub retry_authorised :
    (c : Command) (o : RetryOptions) (seen db after : Db) (r : OperationResult)
    → retry_background_job c o seen db ≡ ok (r, after)
    → ((after.jobs ≡ db.jobs) ⊎ Authority c Action.retry seen) × Trail r db.audit after.audit
retry_authorised c o seen db after r h =
    let g = (retry-Guarded c o seen db).of _ h in (g.jobs, g.trail)
