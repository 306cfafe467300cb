-- ===== src/Analytics/Statistics/Draws.antt =====
-- What the bootstrap of packages/domain/src/analytics-statistics.ts draws.
use Prim.Native.Nat.{◌<◌}
use native.Mathlib.Nat.{mul-lt-mul_of_pos_right}
use content_automation.Base.{ℕ, zero, suc, List, [], ◌∷◌, ◌≡◌, ◌≢◌, refl, arith}
use content_automation.Base.Rows.{All}
use content_automation.Base.Lists.{length, get_elem?}
use content_automation.Domain.Number.{Number}
use content_automation.Analytics.Spread.{value_at}
use content_automation.Analytics.Statistics.Bootstrap.{word, uniform, drawn_index, next_state, draw}

uniform_bound : (state : ℕ) → uniform state < word
unfolding uniform
uniform_bound state = omega arith

drawn_index_bound :
    (state : ℕ) (values : List Number) → values ≢ [] → drawn_index state values < length values
drawn_index_bound state [] n = absurd (n refl)
drawn_index_bound state (x ∷ xs) n =
    let positive : 0 < length (x ∷ xs) = omega arith in
    omega (arith, mul-lt-mul_of_pos_right (uniform_bound state) positive)

module _ {ℓ} (P : Number → Type ℓ) where
  All-value_at :
      (values : List Number) (i : ℕ) → All P values → i < length values → P (value_at values i)
  unfolding get_elem?
  All-value_at [] i h k = absurd (omega arith)
  All-value_at (x ∷ xs) zero h k = h.0
  All-value_at (x ∷ xs) (suc i) h k = All-value_at xs i h.1 (omega arith)

  -- A sample has as many values as are asked for, each of them a value of the list it is drawn from, at
  -- whatever state of the generator: whatever holds of all the values holds of all that is drawn.
  pub draw-All :
      (values : List Number) (n state : ℕ)
      → values ≢ []
      → All P values
      → All P (draw values n state).sample × (length (draw values n state).sample ≡ n)
  unfolding draw
  draw-All values zero state k h = (tt, refl)
  draw-All values (suc n) state k h =
      let rest = draw-All values n (next_state state) k h in
      (
        (
          All-value_at values (drawn_index (next_state state) values) h
              (drawn_index_bound (next_state state) values k),
          rest.0,
        ),
        omega (arith, rest.1),
      )
