-- ===== src/Jobs/Steps/Rows.antt =====
-- The steps of single rows, and what a step guarantees to a transaction that read the row before.
use content_automation.Base.{
  ℕ, ◌+◌, ◌≤◌, String, ◌≡◌, refl, ap, ◌∙◌, ◌⊎◌, inl, true, arith, Bool, inr, false,
}
use content_automation.Domain.Lifecycle.{JobState, same_state, can_transition_job}
use content_automation.Domain.Retry.{JobFailure, RetryDecision}
use content_automation.Jobs.Store.{Job}
use content_automation.Jobs.Claim.{ClaimInput, is_claimable, start}
use content_automation.Jobs.Lease.{beat, enter_stage, is_cancellable, settle_cancellation}
use content_automation.Jobs.Recovery.{
  RecoveryInput, is_retry_due, release_retry, is_recoverable, recover,
}
use content_automation.Jobs.Commit.{is_committable, succeed, fail}

-- Equal but for the dispatch status, which the dispatcher writes without a new version.
abbrev pub SameContent : Job → Job → Type 0
SameContent r s = record s { dispatch_status = r.dispatch_status } ≡ r

-- A later row of the same job: a row with an old version has the old content.
pub record Evolves (r s : Job) : Type 0 where
  pub id : s.id ≡ r.id
  pub workspace_id : s.workspace_id ≡ r.workspace_id
  pub handler_version : s.handler_version ≡ r.handler_version
  pub version : r.version ≤ s.version
  pub content : s.version ≡ r.version → SameContent r s

-- The state stays, or moves along an allowed transition.
abbrev pub MovesLegally : Job → Job → Type 0
MovesLegally r s = (s.state ≡ r.state) ⊎ (can_transition_job r.state s.state ≡ true)

pub record Step (r s : Job) : Type 0 where
  pub evolves : Evolves r s
  pub legal : MovesLegally r s

pub Evolves-refl : (r : Job) → Evolves r r
Evolves-refl r = record {
  id = refl;
  workspace_id = refl;
  handler_version = refl;
  version = omega arith;
  content = λ _. refl;
}

pub Step-refl : (r : Job) → Step r r
Step-refl r = record { evolves = Evolves-refl r; legal = inl refl }

-- A write that raises the version.
pub raise :
    (r s : Job)
    → s.id ≡ r.id
    → s.workspace_id ≡ r.workspace_id
    → s.handler_version ≡ r.handler_version
    → s.version ≡ r.version + 1
    → Evolves r s
raise r s i w n v = record {
  id = i;
  workspace_id = w;
  handler_version = n;
  version = omega arith;
  content = λ e. absurd (omega arith);
}

pub bump :
    (r s : Job)
    → s.id ≡ r.id
    → s.workspace_id ≡ r.workspace_id
    → s.handler_version ≡ r.handler_version
    → s.version ≡ r.version + 1
    → MovesLegally r s
    → Step r s
bump r s i w n v l = record { evolves = raise r s i w n v; legal = l }

pub start-Step :
    (c : ClaimInput) (job r : Job) → is_claimable c job r ≡ true → Step r (start c job r)
unfolding same_state can_transition_job
start-Step c job r t = bump r _ refl refl refl refl (ground arith)

pub beat-Step : (at d : ℕ) (r : Job) → Step r (beat at d r)
beat-Step at d r = bump r _ refl refl refl refl (inl refl)

pub enter_stage-Step : (s : String) (at : ℕ) (r : Job) → Step r (enter_stage s at r)
enter_stage-Step s at r = bump r _ refl refl refl refl (inl refl)

pub settle_cancellation-Step :
    (w l : String) (at : ℕ) (job r : Job)
    → is_cancellable w l job r ≡ true
    → Step r (settle_cancellation at r)
unfolding same_state can_transition_job
settle_cancellation-Step w l at job r t = bump r _ refl refl refl refl (ground arith)

pub release_retry-Step :
    (w j : String) (now : ℕ) (r : Job)
    → is_retry_due w j now r ≡ true
    → Step r (release_retry now r)
unfolding same_state can_transition_job
release_retry-Step w j now r t = bump r _ refl refl refl refl (ground arith)

pub recover-Step :
    (c : RecoveryInput) (l : String) (job r : Job)
    → is_recoverable c l job r ≡ true
    → Step r (recover c job r)
unfolding same_state can_transition_job
recover-Step c l job r t = bump r _ refl refl refl refl (ground arith)

pub succeed-Step :
    (w j l : String) (at : ℕ) (r : Job) → is_committable w j l r ≡ true → Step r (succeed at r)
unfolding same_state can_transition_job
succeed-Step w j l at r t = bump r _ refl refl refl refl (ground arith)

pub fail-Step :
    (f : JobFailure) (d : RetryDecision) (w j l : String) (at : ℕ) (r : Job)
    → is_committable w j l r ≡ true
    → Step r (fail f d at r)
unfolding same_state can_transition_job
fail-Step f d w j l at r t = bump r _ refl refl refl refl (ground arith)

pub Evolves-trans : (r s t : Job) → Evolves r s → Evolves s t → Evolves r t
Evolves-trans r s t p q = record {
  id = q.id ∙ p.id;
  workspace_id = q.workspace_id ∙ p.workspace_id;
  handler_version = q.handler_version ∙ p.handler_version;
  version = omega arith;
  content = λ e.
      ap (λ (x : Job). record x { dispatch_status = r.dispatch_status })
        (q.content (omega (arith, p.version, q.version)))
      ∙ p.content (omega (arith, p.version, q.version));
}

-- A state that no transaction leaves.
abbrev pub is_final : JobState → Bool
is_final JobState.succeeded = true
is_final JobState.cancelled = true
is_final _ = false

-- A later row, in the same state where that is final.
pub record Settles (r s : Job) : Type 0 where
  pub evolves : Evolves r s
  pub final : is_final r.state ≡ true → s.state ≡ r.state

pub Settles-refl : (r : Job) → Settles r r
Settles-refl r = record { evolves = Evolves-refl r; final = λ _. refl }

final_stays :
    (a b : JobState) → is_final a ≡ true → (b ≡ a) ⊎ (can_transition_job a b ≡ true) → b ≡ a
unfolding can_transition_job same_state
final_stays a b f (inl e) = e
final_stays a b f (inr t) = ground arith

pub Step-Settles : (r s : Job) → Step r s → Settles r s
Step-Settles r s h = record {
  evolves = h.evolves;
  final = λ f. final_stays r.state s.state f h.legal;
}

pub Settles-trans : (r s t : Job) → Settles r s → Settles s t → Settles r t
Settles-trans r s t p q = record {
  evolves = Evolves-trans r s t p.evolves q.evolves;
  final = λ f. q.final (rw (p.final f) f) ∙ p.final f;
}
