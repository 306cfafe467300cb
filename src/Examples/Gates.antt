-- ===== src/Examples/Gates.antt =====
-- A gate with one permit for each of two providers, on which three requests were made.
use content_automation.Base.{◌≡◌, refl, false, [], ◌∷◌}
use content_automation.Errors.{ok}
use content_automation.Queue.Gate.{
  Config, Request, Gate, new_gate, create_gate, validate_limits, is_safe_provider, limit_of, drain,
  drained, verdict, acquire, release,
}
use content_automation.Queue.Gate.Runs.{created, acquired, released, Invariant, Reached-Invariant}
use content_automation.Queue.Gate.Once.{release_twice}

abbrev config : Config
config = record {
  global_limit = 2;
  provider_limits =
      record { provider = "gemini"; limit = 1 } ∷ record { provider = "instagram"; limit = 1 } ∷ [];
}

abbrev first : Request
first = record { id = 1; provider = "gemini"; aborted = false }

abbrev second : Request
second = record { id = 2; provider = "gemini"; aborted = false }

abbrev one_active : Gate
one_active = drained config (first ∷ []) new_gate.active

abbrev one_waits : Gate
one_waits = drained config (second ∷ []) one_active.active

creation_run : create_gate config ≡ ok new_gate
unfolding create_gate validate_limits is_safe_provider
creation_run = refl

first_run : acquire config first new_gate ≡ ok one_active
unfolding acquire limit_of
first_run = refl

second_run : acquire config second one_active ≡ ok one_waits
unfolding acquire limit_of drain verdict
second_run = refl

waiting_run : one_waits.pending ≡ second ∷ []
unfolding drain verdict limit_of
waiting_run = refl

abbrev passed_on : Gate
passed_on = release config 1 one_waits

Reached-Invariant_example : Invariant config passed_on
Reached-Invariant_example = Reached-Invariant config passed_on (
    released 1 one_waits (
      acquired second one_active one_waits
        (acquired first new_gate one_active (created new_gate creation_run) first_run) second_run))

release_twice_example : release config 1 (release config 1 one_waits) ≡ release config 1 one_waits
release_twice_example = release_twice config 1 one_waits (rw waiting_run (refl, tt))
