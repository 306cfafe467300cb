-- ===== src/Jobs/History/Exclusion.antt =====
-- Of the deliveries that read a job before it was claimed, one at most claims it.
use content_automation.Base.{
  ℕ, ◌<◌, String, ◌≡◌, ◌≢◌, refl, sym, ap, ◌∙◌, inl, inr, true, some, List, [], ◌∷◌, arith,
}
use content_automation.Base.Rows.{All, find_first, update_many, count_where}
use content_automation.Base.Pointwise.{Any, Any-update_many, Any-count, Any-Extends}
use content_automation.Errors.{ok, Yields, Yields-ok, Yields-if_found, yields}
use content_automation.Jobs.Store.{Job, Db, is_owned}
use content_automation.Jobs.Claim.{
  Claim, ClaimInput, ClaimResult, claimed, is_claimable, start, write_claim, claim_found,
  claim_background_job,
}
use content_automation.Jobs.Steps.Rows.{Evolves}
use content_automation.Jobs.Steps.Agreement.{Distinct, Differs}
use content_automation.Jobs.History.{Later}
use content_automation.Jobs.History.Moves.{Later-Evolve}
use text.Mathlib.Text.{◌==◌ as str_eq}
use text.Mathlib.TextEquality.{eq_iff}

-- A row of the job with the identifier `i`, under a version that `P` holds of.
abbrev IsAt : String → (ℕ → Type 0) → Job → Type 0
IsAt i P r = (str_eq r.id i ≡ true) × P r.version

same_identifier :
    (i : String) (r x : Job) → Differs r x → str_eq r.id i ≡ true → str_eq x.id i ≡ true → ⊥
same_identifier i r x d h k =
    cc (d.0, (eq_iff x.id r.id).1 ((eq_iff x.id i).0 k ∙ sym ((eq_iff r.id i).0 h)))

no_other :
    (i : String) (P : ℕ → Type 0) (r : Job) (rows : List Job)
    → All (Differs r) rows
    → str_eq r.id i ≡ true
    → Any (IsAt i P) rows
    → ⊥
no_other i P r [] d h k = k
no_other i P r (x ∷ rows) d h (inl k) = same_identifier i r x d.0 h k.0
no_other i P r (x ∷ rows) d h (inr k) = no_other i P r rows d.1 h k

-- A job has one row, under one version.
one_version :
    (i : String) (P Q : ℕ → Type 0) (rows : List Job)
    → ((v : ℕ) → P v → Q v → ⊥)
    → Distinct rows
    → Any (IsAt i P) rows
    → Any (IsAt i Q) rows
    → ⊥
one_version i P Q [] f d h k = h
one_version i P Q (r ∷ rows) f d (inl h) (inl k) = f r.version h.1 k.1
one_version i P Q (r ∷ rows) f d (inl h) (inr k) = no_other i Q r rows d.0 h.0 k
one_version i P Q (r ∷ rows) f d (inr h) (inl k) = no_other i P r rows d.0 k.0 h
one_version i P Q (r ∷ rows) f d (inr h) (inr k) = one_version i P Q rows f d.1 h k

some_injective : {a b : Job} → some a ≡ some b → a ≡ b
some_injective e = cc

-- What a claim that succeeds has read and written.
record Claimed (c : ClaimInput) (job_id : String) (seen db after : Db) : Type 0 where
  job : Job
  found : find_first (is_owned c.workspace_id job_id) seen.jobs ≡ some job
  count : count_where (is_claimable c job) db.jobs ≡ 1
  jobs : after.jobs ≡ update_many (is_claimable c job) (start c job) db.jobs

-- The same, of a claim that may fail.
record Claims (c : ClaimInput) (j : String) (seen db : Db) (r : ClaimResult × Db) : Type 0 where
  of : (k : Claim) → r.0 ≡ claimed k → Claimed c j seen db r.1

write_claim-Claimed :
    (c : ClaimInput) (job : Job) (db after : Db) (k : Claim)
    → write_claim c job db ≡ ok (claimed k, after)
    → (count_where (is_claimable c job) db.jobs ≡ 1)
      × (after.jobs ≡ update_many (is_claimable c job) (start c job) db.jobs)
unfolding write_claim
write_claim-Claimed c job db after k h = ground arith

claim_found-write :
    (c : ClaimInput) (job : Job) (db after : Db) (k : Claim)
    → claim_found c job db ≡ ok (claimed k, after)
    → write_claim c job db ≡ ok (claimed k, after)
unfolding claim_found
claim_found-write c job db after k h = ground arith

found_claim :
    (c : ClaimInput) (j : String) (job : Job) (seen db : Db)
    → find_first (is_owned c.workspace_id j) seen.jobs ≡ some job
    → Yields (Claims c j seen db) (claim_found c job db)
found_claim c j job seen db e = record {
  of = λ r h. record {
    of = λ k q.
        let (one, rows) =
          write_claim-Claimed c job db r.1 k
            (claim_found-write c job db r.1 k (h ∙ ap (λ x. ok (x, r.1)) q)) in
        record { job = job; found = e; count = one; jobs = rows };
  };
}

no_job :
    (c : ClaimInput) (j : String) (seen db : Db)
    → Yields (Claims c j seen db) (ok (ClaimResult.missing, db))
no_job c j seen db = Yields-ok _ (record { of = λ k e. absurd (cc e) })

claim-Claimed :
    (c : ClaimInput) (j : String) (seen db : Db)
    → Yields (Claims c j seen db) (claim_background_job c j seen db)
unfolding claim_background_job
claim-Claimed c j seen db =
    let read =
      Yields-if_found {P = Claims c j seen db} (find_first (is_owned c.workspace_id j) seen.jobs)
        (ok (ClaimResult.missing, db)) (λ job. claim_found c job db) (λ _. no_job c j seen db)
        (λ job e. found_claim c j job seen db e) in
    search (yields, read)

module _ (c : ClaimInput) (job : Job) where
  started-IsAt :
      (r : Job) → is_claimable c job r ≡ true → IsAt job.id (λ v. job.version < v) (start c job r)
  started-IsAt r t = ground arith

  claimable-IsAt : (r : Job) → is_claimable c job r ≡ true → IsAt job.id (λ v. v ≡ job.version) r
  claimable-IsAt r t = ground arith

later-IsAt :
    (i : String) (n : ℕ) (r s : Job) → Evolves r s → IsAt i (λ v. n < v) r → IsAt i (λ v. n < v) s
later-IsAt i n r s e h = (rw e.id h.0, omega (arith, e.version, h.1))

-- After the claim, and whatever commits behind it, the row of the job is ahead of the version read.
Claimed-ahead :
    (c : ClaimInput) (j : String) (seen db mid after : Db) (h : Claimed c j seen db mid)
    → Later mid after
    → Any (IsAt h.job.id (λ v. h.job.version < v)) after.jobs
Claimed-ahead c j seen db mid after h past =
    let started =
      Any-update_many (IsAt h.job.id (λ v. h.job.version < v)) (is_claimable c h.job)
        (start c h.job) db.jobs (started-IsAt c h.job) (λ e. absurd (omega (arith, e, h.count))) in
    Any-Extends (IsAt h.job.id (λ v. h.job.version < v)) Evolves mid.jobs after.jobs
      (later-IsAt h.job.id h.job.version) (Later-Evolve mid after past) (rw h.jobs started)

still-IsAt :
    (c : ClaimInput) (j : String) (seen db after : Db) (h : Claimed c j seen db after)
    → Any (IsAt h.job.id (λ v. v ≡ h.job.version)) db.jobs
still-IsAt c j seen db after h =
    Any-count (IsAt h.job.id (λ v. v ≡ h.job.version)) (is_claimable c h.job) db.jobs
      (claimable-IsAt c h.job) (λ e. absurd (omega (arith, e, h.count)))

claims_clash :
    (c c' : ClaimInput) (j : String) (seen db mid met after : Db)
    → c'.workspace_id ≡ c.workspace_id
    → Claimed c j seen db mid
    → Later mid met
    → Distinct met.jobs
    → Claimed c' j seen met after
    → ⊥
claims_clash c c' j seen db mid met after w h past d h' =
    let same : h'.job ≡ h.job =
      some_injective (sym h'.found ∙ ap (λ x. find_first (is_owned x j) seen.jobs) w ∙ h.found) in
    one_version h.job.id (λ v. h.job.version < v) (λ v. v ≡ h.job.version) met.jobs
      (λ v p q. absurd (omega (arith, p, q))) d (Claimed-ahead c j seen db mid met h past)
      (rw (← same) (still-IsAt c' j seen met after h'))

-- Of the deliveries that have read a job, one at most claims it: once a claim that read the job has
-- committed, and whatever else has committed since, no claim on the same read succeeds.
pub claim_exclusive :
    (c c' : ClaimInput) (j : String) (seen db mid met after : Db) (k k' : Claim)
    → c'.workspace_id ≡ c.workspace_id
    → claim_background_job c j seen db ≡ ok (claimed k, mid)
    → Later mid met
    → Distinct met.jobs
    → claim_background_job c' j seen met ≢ ok (claimed k', after)
claim_exclusive c c' j seen db mid met after k k' w h past d h' =
    claims_clash c c' j seen db mid met after w (((claim-Claimed c j seen db).of _ h).of k refl)
      past d (((claim-Claimed c' j seen met).of _ h').of k' refl)
