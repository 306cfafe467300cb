-- ===== src/Jobs/Recovery/Fencing.antt =====
-- A worker whose lease was taken back cannot write any more.
use content_automation.Base.{
  ℕ, String, ◌≡◌, ◌≢◌, refl, ap, ◌∙◌, inl, inr, Bool, true, false, some, List, [], ◌∷◌, arith,
}
use content_automation.Base.Tests.{if_found, Bool-cases, is_positive_safe}
use content_automation.Base.Rows.{All, find_first, update_many, count_where, find_first_test}
use content_automation.Domain.Lifecycle.{can_transition_job, is_safe_job_stage}
use content_automation.Domain.Retry.{JobFailure, RetryDecision, retry, failed}
use content_automation.Errors.{
  Result, ok, err, Yields, Yields-ok, Yields-if_found, yields, job_lease_lost,
  assert_job_transition,
}
use content_automation.Jobs.Store.{Job, Db}
use content_automation.Jobs.Lease.{
  is_leased, update_active_attempt, heartbeat_background_job, record_background_job_stage,
}
use content_automation.Jobs.Commit.{is_committable, commit_job_success, commit_job_failure}
use content_automation.Jobs.Recovery.{
  RecoveryInput, has_expired, is_recoverable, recover, write_recovery, recover_expired_lease,
}
use content_automation.Jobs.Steps.Agreement.{Distinct, Differs}
use text.Mathlib.Text.{◌==◌ as str_eq}
use text.Mathlib.TextEquality.{eq_iff}

-- No row of the job is processed under the lease.
abbrev pub IsFenced : String → String → String → Db → Type 0
IsFenced w j l db = count_where (is_leased w j l) db.jobs ≡ 0

uncommittable :
    (w j l : String) (rows : List Job)
    → count_where (is_leased w j l) rows ≡ 0
    → count_where (is_committable w j l) rows ≡ 0
unfolding count_where
uncommittable w j l [] h = refl
uncommittable w j l (r ∷ rows) h = ground (arith, uncommittable w j l rows)

failure_fenced :
    (f : JobFailure) (d : RetryDecision) (w j l : String) (at : ℕ) (db : Db)
    → count_where (is_committable w j l) db.jobs ≡ 0
    → commit_job_failure f d w j l at db ≡ err job_lease_lost
unfolding commit_job_failure assert_job_transition can_transition_job
failure_fenced f (retry delay next) w j l at db u = ground arith
failure_fenced f (failed action) w j l at db u = ground arith

-- Where no row of the job is processed under the lease, its holder's writes fail.
pub unleased_writes :
    (w j l s : String) (at duration : ℕ) (commit : Db → Result Db) (f : JobFailure)
    (d : RetryDecision) (db : Db)
    → IsFenced w j l db
    → is_positive_safe duration ≡ true
    → is_safe_job_stage s ≡ true
    → (heartbeat_background_job w j l at duration db ≡ err job_lease_lost)
      × (record_background_job_stage w j l s at db ≡ err job_lease_lost)
      × (commit_job_success commit w j l at db ≡ err job_lease_lost)
      × (commit_job_failure f d w j l at db ≡ err job_lease_lost)
unfolding heartbeat_background_job record_background_job_stage update_active_attempt
    commit_job_success commit_job_failure
unleased_writes w j l s at duration commit f d db h p q =
    let u = uncommittable w j l db.jobs h in
    (ground arith, ground arith, ground arith, failure_fenced f d w j l at db u)

-- A row of another job.
pub unleased_others :
    (w j l : String) (r : Job) (rows : List Job)
    → str_eq r.id j ≡ true
    → All (Differs r) rows
    → count_where (is_leased w j l) rows ≡ 0
unfolding count_where
unleased_others w j l r [] h d = refl
unleased_others w j l r (x ∷ rows) h d =
    let other : str_eq x.id j ≡ false = cc (d.0.0, (eq_iff r.id j).0 h) in
    ground (arith, unleased_others w j l r rows h d.1)

unmatched :
    (c : RecoveryInput) (l : String) (job r : Job) (rows : List Job)
    → count_where (is_recoverable c l job) rows ≢ 0
    → All (Differs r) rows
    → str_eq r.id job.id ≡ false
unfolding count_where
unmatched c l job r [] h d = absurd (h refl)
unmatched c l job r (x ∷ rows) h d = elim (Bool-cases (is_recoverable c l job x)) [
  | inl t ↦ let same : x.id ≡ job.id = (eq_iff x.id job.id).0 (ground arith) in cc (d.0.1, same)
  | inr t ↦ unmatched c l job r rows (λ e. h (ground arith)) d.1
]

others_unleased :
    (c : RecoveryInput) (w l : String) (job r : Job) (rows : List Job)
    → str_eq r.id job.id ≡ true
    → All (Differs r) rows
    → count_where (is_leased w job.id l) (update_many (is_recoverable c l job) (recover c job) rows)
      ≡ 0
unfolding count_where update_many
others_unleased c w l job r [] h d = refl
others_unleased c w l job r (x ∷ rows) h d =
    let other : str_eq x.id job.id ≡ false = cc (d.0.0, (eq_iff r.id job.id).0 h) in
    ground (arith, others_unleased c w l job r rows h d.1)

recovered_unleased :
    (c : RecoveryInput) (w l : String) (job : Job) (rows : List Job)
    → Distinct rows
    → count_where (is_recoverable c l job) rows ≢ 0
    → count_where (is_leased w job.id l) (update_many (is_recoverable c l job) (recover c job) rows)
      ≡ 0
unfolding count_where update_many
recovered_unleased c w l job [] d h = refl
recovered_unleased c w l job (r ∷ rows) d h = elim (Bool-cases (is_recoverable c l job r)) [
  | inl t ↦ ground (arith, others_unleased c w l job r rows (ground arith) d.0)
  | inr t ↦
      let found : count_where (is_recoverable c l job) rows ≢ 0 = λ e. h (ground arith) in
      let other = unmatched c l job r rows found d.0 in
      ground (arith, recovered_unleased c w l job rows d.1 found)
]

-- The lease that a recovery read, and took back.
pub record TakenBack (c : RecoveryInput) (j : String) (seen after : Db) : Type 0 where
  pub job : Job
  pub lease_id : String
  pub found : find_first (has_expired c.workspace_id j c.now) seen.jobs ≡ some job
  pub held : job.lease_id ≡ some lease_id
  pub fenced : IsFenced c.workspace_id j lease_id after

-- A recovery that returned.
record Recovers (c : RecoveryInput) (j : String) (seen : Db) (r : Bool × Db) : Type 0 where
  of : r.0 ≡ true → TakenBack c j seen r.1

unrecovered :
    (c : RecoveryInput) (j : String) (seen db : Db) → Yields (Recovers c j seen) (ok (false, db))
unrecovered c j seen db = Yields-ok _ (record { of = λ e. absurd (cc e) })

write_recovery-count :
    (c : RecoveryInput) (l : String) (job : Job) (db after : Db)
    → write_recovery c l job db ≡ ok (true, after)
    → (count_where (is_recoverable c l job) db.jobs ≡ 1)
      × (after.jobs ≡ update_many (is_recoverable c l job) (recover c job) db.jobs)
unfolding write_recovery
write_recovery-count c l job db after h = ground arith

found_recovery :
    (c : RecoveryInput) (j l : String) (job : Job) (seen db : Db)
    → Distinct db.jobs
    → find_first (has_expired c.workspace_id j c.now) seen.jobs ≡ some job
    → job.lease_id ≡ some l
    → Yields (Recovers c j seen) (write_recovery c l job db)
found_recovery c j l job seen db d e held = record {
  of = λ r h. record {
    of = λ q.
        let (one, rows) = write_recovery-count c l job db r.1 (h ∙ ap (λ x. ok (x, r.1)) q) in
        let test = find_first_test (has_expired c.workspace_id j c.now) seen.jobs e in
        let same : job.id ≡ j = (eq_iff job.id j).0 (ground arith) in
        let fenced =
          recovered_unleased c c.workspace_id l job db.jobs d
            (λ z. absurd (omega (arith, z, one))) in
        record {
          job = job;
          lease_id = l;
          found = e;
          held = held;
          fenced = rw (← same, rows) fenced;
        };
  };
}

recover-Recovers :
    (c : RecoveryInput) (j : String) (seen db : Db)
    → Distinct db.jobs
    → Yields (Recovers c j seen) (recover_expired_lease c j seen db)
unfolding recover_expired_lease
recover-Recovers c j seen db d =
    let read =
      Yields-if_found {P = Recovers c j seen}
        (find_first (has_expired c.workspace_id j c.now) seen.jobs) (ok (false, db))
        (λ job. if_found job.lease_id (ok (false, db)) λ l. write_recovery c l job db)
        (λ _. unrecovered c j seen db)
        λ job e.
          Yields-if_found job.lease_id (ok (false, db)) (λ l. write_recovery c l job db)
            (λ _. unrecovered c j seen db) (λ l held. found_recovery c j l job seen db d e held) in
    search (yields, read)

-- A recovery that reports success read a processed job whose lease had expired, and leaves no row of
-- the job that is processed under that lease, where the identifiers of jobs are distinct.
pub recovery_fences :
    (c : RecoveryInput) (j : String) (seen db after : Db)
    → Distinct db.jobs
    → recover_expired_lease c j seen db ≡ ok (true, after)
    → TakenBack c j seen after
recovery_fences c j seen db after d h = ((recover-Recovers c j seen db d).of _ h).of refl

-- After a recovery that reports success, every write under the lease that it read fails with
-- JOB_LEASE_LOST, where the identifiers of jobs are distinct: the heartbeat, the stage, the commit of a
-- success, whatever its callback, and the commit of a failure.
pub fenced_writes :
    (c : RecoveryInput) (j l s : String) (at duration : ℕ) (commit : Db → Result Db)
    (f : JobFailure) (d : RetryDecision) (job : Job) (seen db after : Db)
    → Distinct db.jobs
    → find_first (has_expired c.workspace_id j c.now) seen.jobs ≡ some job
    → job.lease_id ≡ some l
    → recover_expired_lease c j seen db ≡ ok (true, after)
    → is_positive_safe duration ≡ true
    → is_safe_job_stage s ≡ true
    → (heartbeat_background_job c.workspace_id j l at duration after ≡ err job_lease_lost)
      × (record_background_job_stage c.workspace_id j l s at after ≡ err job_lease_lost)
      × (commit_job_success commit c.workspace_id j l at after ≡ err job_lease_lost)
      × (commit_job_failure f d c.workspace_id j l at after ≡ err job_lease_lost)
fenced_writes c j l s at duration commit f d job seen db after k e held h p q =
    let t = recovery_fences c j seen db after k h in
    let job' : t.job ≡ job = cc (t.found, e) in
    let lease : t.lease_id ≡ l = cc (t.held, held, ap (λ (r : Job). r.lease_id) job') in
    unleased_writes c.workspace_id j l s at duration commit f d after (rw (← lease) t.fenced) p q
