-- ===== src/Domain/Lifecycle.antt =====
-- packages/domain/src/job-lifecycle.ts: the states of a job and of an attempt, and the moves that
-- the program allows between job states.
use content_automation.Base.{String, Bool, true, false, ◌||◌, List, [], ◌∷◌}
use content_automation.Base.Tests.{◌==◌}
use content_automation.Base.Text.{codes, is_lower, is_digit, matches_name}

pub data JobState : Type 0 where
  queued processing retry_scheduled succeeded failed_attention cancelled : JobState

pub data AttemptState : Type 0 where
  active succeeded retry_scheduled failed_attention lease_expired cancelled : AttemptState

-- `===` on states
unfoldable pub same_state : JobState → JobState → Bool
same_state queued queued = true
same_state processing processing = true
same_state retry_scheduled retry_scheduled = true
same_state succeeded succeeded = true
same_state failed_attention failed_attention = true
same_state cancelled cancelled = true
same_state _ _ = false

abbrev allowed_transitions : JobState → List JobState
allowed_transitions cancelled = []
allowed_transitions failed_attention = queued ∷ []
allowed_transitions processing =
    queued ∷ retry_scheduled ∷ succeeded ∷ failed_attention ∷ cancelled ∷ []
allowed_transitions queued = processing ∷ cancelled ∷ []
allowed_transitions retry_scheduled = queued ∷ cancelled ∷ []
allowed_transitions succeeded = []

-- allowedTransitions[from].includes(to)
includes : List JobState → JobState → Bool
includes [] s = false
includes (t ∷ ts) s = same_state t s || includes ts s

unfoldable pub can_transition_job : JobState → JobState → Bool
unfolding includes same_state
can_transition_job from to = includes (allowed_transitions from) to

unfoldable pub is_terminal_job_state : JobState → Bool
unfolding includes same_state
is_terminal_job_state s = includes (succeeded ∷ failed_attention ∷ cancelled ∷ []) s

-- safeStagePattern
unfoldable pub is_safe_job_stage : String → Bool
unfolding matches_name
is_safe_job_stage stage =
    matches_name is_lower (λ c. is_lower c || (is_digit c || c == b'_')) 63 (codes stage)
