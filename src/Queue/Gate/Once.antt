-- ===== src/Queue/Gate/Once.antt =====
-- A permit is called twice: its flag `released` makes the second call one that does nothing.
use content_automation.Base.{ℕ, ◌≡◌, refl, ap, inl, inr, false, none, List, [], ◌∷◌}
use content_automation.Base.Tests.{◌==◌, Bool-cases, Option-cases}
use content_automation.Base.Rows.{All}
use content_automation.Queue.Gate.{
  Config, Request, Permit, Active, Gate, drain, verdict, hand_out, mark_released, take_back,
  release,
}
use content_automation.Queue.Gate.Limits.{Verdict-cases}

-- No permit of this identifier is live.
abbrev pub Spent : ℕ → List Permit → Type 0
Spent id ps = (mark_released id ps).0 ≡ none

abbrev pub Other : ℕ → Request → Type 0
Other id r = (r.id == id) ≡ false

mark_released-Spent : (id : ℕ) (ps : List Permit) → Spent id (mark_released id ps).1
unfolding mark_released
mark_released-Spent id [] = refl
mark_released-Spent id (p ∷ ps) = elim (Bool-cases (p.id == id)) [
  | inl t ↦ elim (Bool-cases p.released) [ inl d ↦ simp (t, d) | inr d ↦ simp (t, d) ]
  | inr t ↦ rw (t, mark_released, t) (mark_released-Spent id ps)
]

hand_out-Spent :
    (id : ℕ) (r : Request) (a : Active)
    → Other id r
    → Spent id a.permits
    → Spent id (hand_out r a).permits
unfolding mark_released
hand_out-Spent id r a other k = rw other k

drain-Spent :
    (c : Config) (id : ℕ) (rs : List Request) (a : Active)
    → All (Other id) rs
    → Spent id a.permits
    → Spent id (drain c rs a).1.permits
unfolding drain
drain-Spent c id [] a h k = k
drain-Spent c id (r ∷ rs) a h k = elim (Verdict-cases (verdict c a r)) [
  | inl v ↦ rw (v, drain) k
  | inr (inl v) ↦ rw (v, drain) (drain-Spent c id rs a h.1 k)
  | inr (inr (inl v)) ↦ rw (v, drain) (drain-Spent c id rs a h.1 k)
  | inr (inr (inr v)) ↦
      rw (v, drain) (drain-Spent c id rs (hand_out r a) h.1 (hand_out-Spent id r a h.0 k))
]

release_again : (c : Config) (id : ℕ) (g : Gate) → Spent id g.active.permits → release c id g ≡ g
unfolding release
release_again c id g k = rw k refl

-- A second call of a permit, right after the first, does nothing, where no request that waits has the
-- permit's identifier: no place is given back twice.
pub release_twice :
    (c : Config) (id : ℕ) (g : Gate)
    → All (Other id) g.pending
    → release c id (release c id g) ≡ release c id g
unfolding release
release_twice c id g others = elim (Option-cases (mark_released id g.active.permits).0) [
  | inl e ↦ ap (release c id) (release_again c id g e)
  | inr (q, e) ↦
      let taken = take_back q (mark_released id g.active.permits).1 g.active in
      let spent =
        drain-Spent c id g.pending taken others (mark_released-Spent id g.active.permits) in
      release_again c id (release c id g) (rw (e, release) spent)
]
