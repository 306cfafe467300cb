-- ===== src/Queue/Gate/Runs.antt =====
-- Every gate that is reached by calls: acquire, the permits' releases, and aborted signals.
use content_automation.Base.{
  ℕ, ◌≡◌, ◌≢◌, refl, inl, inr, true, String, some, List, [], ◌∷◌, ◌++◌, arith,
}
use content_automation.Base.Tests.{◌==◌, Bool-cases, Option-cases}
use content_automation.Base.Rows.{All, count_where}
use content_automation.Errors.{ok}
use content_automation.Queue.Gate.{
  Config, Request, Active, Gate, new_gate, create_gate, drained, acquire, abort, remove,
  mark_released, take_back, release,
}
use content_automation.Queue.Gate.Limits.{
  is_live_of, Sound, MustWait, Saturated, drain-Sound, drain-Saturated, released_live,
  released_live_of, take_back-counts, take_back-le,
}
use text.Mathlib.Text.{◌==◌ as str_eq}
use text.Mathlib.TextEquality.{eq_iff}

-- The gates that calls lead to from a new one.
pub data Reached (c : Config) : Gate → Type 0 where
  created : (g : Gate) → create_gate c ≡ ok g → Reached c g
  acquired : (r : Request) (g h : Gate) → Reached c g → acquire c r g ≡ ok h → Reached c h
  released : (id : ℕ) (g : Gate) → Reached c g → Reached c (release c id g)
  aborted : (id : ℕ) (g : Gate) → Reached c g → Reached c (abort id g)

pub record Invariant (c : Config) (g : Gate) : Type 0 where
  pub sound : Sound c g.active
  pub saturated : Saturated c g.pending g.active

drained-Invariant :
    (c : Config) (pending : List Request) (a : Active)
    → Sound c a
    → Invariant c (drained c pending a)
drained-Invariant c pending a h = record {
  sound = drain-Sound c pending a h;
  saturated = drain-Saturated c pending a;
}

acquire-drained :
    (c : Config) (r : Request) (g h : Gate)
    → acquire c r g ≡ ok h
    → h ≡ drained c (g.pending ++ r ∷ []) g.active
unfolding acquire
acquire-drained c r g h e = ground arith

take_back-Sound :
    (c : Config) (id : ℕ) (q : String) (a : Active)
    → (mark_released id a.permits).0 ≡ some q
    → Sound c a
    → Sound c (take_back q (mark_released id a.permits).1 a)
take_back-Sound c id q a e h =
    let own = released_live_of id a.permits q q e in
    let self : str_eq q q ≡ true = (eq_iff q q).1 refl in
    let some_active : a.by_provider q ≢ 0 = λ z. absurd (ground (arith, h.by_provider q)) in
    record {
      global = omega (arith, h.global, released_live id a.permits q e);
      by_provider = λ p.
          take_back-counts q (mark_released id a.permits).1 a p
            (count_where (is_live_of p) a.permits) (h.by_provider p)
            (released_live_of id a.permits q p e);
      global_bound = omega (arith, h.global_bound);
      bounds = λ p.
          omega (arith, h.bounds p, take_back-le q (mark_released id a.permits).1 a p some_active);
    }

release-Invariant : (c : Config) (id : ℕ) (g : Gate) → Invariant c g → Invariant c (release c id g)
unfolding release
release-Invariant c id g h = elim (Option-cases (mark_released id g.active.permits).0) [
  | inl e ↦ rw e h
  | inr (q, e) ↦ rw e (
      drained-Invariant c g.pending (take_back q (mark_released id g.active.permits).1 g.active)
        (take_back-Sound c id q g.active e h.sound))
]

remove-All : (P : Request → Type 0) (id : ℕ) (rs : List Request) → All P rs → All P (remove id rs)
unfolding remove
remove-All P id [] h = tt
remove-All P id (r ∷ rs) h = elim (Bool-cases (r.id == id)) [
  | inl t ↦ rw t h.1
  | inr t ↦ rw t (h.0, remove-All P id rs h.1)
]

abort-Saturated :
    (c : Config) (id : ℕ) (g : Gate)
    → Saturated c g.pending g.active
    → Saturated c (abort id g).pending (abort id g).active
abort-Saturated c id g (inl full) = inl full
abort-Saturated c id g (inr all) = inr (remove-All (MustWait c g.active) id g.pending all)

create-new : (c : Config) (g : Gate) → create_gate c ≡ ok g → g ≡ new_gate
unfolding create_gate
create-new c g e = ground arith

new_gate-Invariant : (c : Config) → Invariant c new_gate
unfolding count_where
new_gate-Invariant c = record {
  sound = record {
    global = refl;
    by_provider = λ p. refl;
    global_bound = omega arith;
    bounds = λ p. omega arith;
  };
  saturated = inr tt;
}

-- In every gate that calls lead to, the counters are the numbers of permits that are not released,
-- in all and for each provider; they keep to the global limit and to the provider's; and unless the
-- gate is full, every request that waits is one whose signal is not aborted and whose provider has
-- all the permits that it may have.
pub Reached-Invariant : (c : Config) (g : Gate) → Reached c g → Invariant c g
Reached-Invariant c g (created _ e) = rw (create-new c g e) (new_gate-Invariant c)
Reached-Invariant c g (acquired r before _ past e) = rw (acquire-drained c r before g e) (
    drained-Invariant c (before.pending ++ r ∷ []) before.active
      (Reached-Invariant c before past).sound)
Reached-Invariant c g (released id before past) =
    release-Invariant c id before (Reached-Invariant c before past)
Reached-Invariant c g (aborted id before past) =
    let h = Reached-Invariant c before past in
    record { sound = h.sound; saturated = abort-Saturated c id before h.saturated }
