-- ===== src/Analytics/Statistics/Discovery/Ranks.antt =====
-- The ranks that pass in the step-up procedure of packages/domain/src/analytics-statistics.ts.
use native.Mathlib.Nat.{mul-le-mul_right}
use content_automation.Base.{
  ℕ, suc, ◌-◌, ◌*◌, ◌≤◌, ◌<◌, Bool, true, List, [], ◌∷◌, ◌≡◌, refl, ◌⊎◌, inl, inr, arith,
}
use content_automation.Base.Tests.{Bool-cases}
use content_automation.Base.Order.{every, IsSorted}
use content_automation.Domain.Number.Arithmetic.{le_number}
use content_automation.Domain.Number.Arithmetic.Order.{le_number_trans}
use content_automation.Analytics.Spread.{Share}
use content_automation.Analytics.Statistics.Discovery.{Entry, threshold}
use content_automation.Analytics.Statistics.Discovery.Finite.{by_size, last_below}

module _ (total : ℕ) (rate : Share) where
  abbrev pub passes : ℕ → Entry → Bool
  passes place e = le_number e.value (threshold total rate place)

  pub threshold_le :
      (j k : ℕ) → j ≤ k → le_number (threshold total rate j) (threshold total rate k) ≡ true
  threshold_le j k h =
      let scaled =
        mul-le-mul_right (suc (total * suc rate.den_pred - 1)) (mul-le-mul_right rate.num h) in
      ground (arith, scaled)

  pub last_below_le :
      (rank : ℕ) (es : List Entry) (k : ℕ) → k ≤ rank → k ≤ last_below total rate rank es k
  unfolding last_below
  last_below_le rank [] k h = omega arith
  last_below_le rank (e ∷ es) k h = elim (Bool-cases (passes (suc rank) e)) [
    | inl t ↦ rw t (omega (arith, last_below_le (suc rank) es (suc rank)))
    | inr t ↦ rw t (last_below_le (suc rank) es k (omega arith))
  ]

  -- Nothing passes, or the last that passes is beyond the rank.
  pub last_below_cases :
      (rank : ℕ) (es : List Entry) (k : ℕ)
      → (last_below total rate rank es k ≡ k) ⊎ (rank < last_below total rate rank es k)
  unfolding last_below
  last_below_cases rank [] k = inl refl
  last_below_cases rank (e ∷ es) k = elim (Bool-cases (passes (suc rank) e)) [
    | inl t ↦ rw t (inr (omega (arith, last_below_le (suc rank) es (suc rank) (omega arith))))
    | inr t ↦
        rw t (elim (last_below_cases (suc rank) es k) [ inl e ↦ inl e | inr l ↦ inr (omega arith) ])
  ]

  -- What is at a rank that counts, or ahead of one, is below the threshold of the last that does.
  later_below :
      (rank : ℕ) (e : Entry) (es : List Entry) (k : ℕ)
      → IsSorted by_size (e ∷ es)
      → k ≤ rank
      → rank < last_below total rate rank es k
      → le_number e.value (threshold total rate (last_below total rate rank es k)) ≡ true
  unfolding last_below every
  later_below rank e [] k sorted h l = absurd (omega arith)
  later_below rank e (f ∷ es) k sorted h l =
      let ahead : le_number e.value f.value ≡ true = ground (arith, sorted.0) in
      elim (Bool-cases (passes (suc rank) f)) [
        | inl t ↦ elim (last_below_cases (suc rank) es (suc rank)) [
          | inl same ↦
              rw (t, same)
                (le_number_trans e.value f.value (threshold total rate (suc rank)) ahead t)
          | inr l' ↦ rw t (
              le_number_trans e.value f.value
                (threshold total rate (last_below total rate (suc rank) es (suc rank))) ahead
                (later_below (suc rank) f es (suc rank) sorted.1 (omega arith) l'))
        ]
        | inr t ↦ elim (last_below_cases (suc rank) es k) [
          | inl same ↦
              absurd
                (let l2 : rank < last_below total rate (suc rank) es k = rw t at l in omega arith)
          | inr l' ↦ rw t (
              le_number_trans e.value f.value
                (threshold total rate (last_below total rate (suc rank) es k)) ahead
                (later_below (suc rank) f es k sorted.1 (omega arith) l'))
        ]
      ]

  pub counted_below :
      (rank : ℕ) (e : Entry) (es : List Entry) (k : ℕ)
      → IsSorted by_size (e ∷ es)
      → k ≤ rank
      → rank < last_below total rate rank (e ∷ es) k
      → le_number e.value (threshold total rate (last_below total rate rank (e ∷ es) k)) ≡ true
  unfolding last_below
  counted_below rank e es k sorted h l = elim (Bool-cases (passes (suc rank) e)) [
    | inl t ↦ elim (last_below_cases (suc rank) es (suc rank)) [
      | inl same ↦ rw (t, same) t
      | inr l' ↦ rw t (later_below (suc rank) e es (suc rank) sorted (omega arith) l')
    ]
    | inr t ↦ elim (last_below_cases (suc rank) es k) [
      | inl same ↦
          absurd (let l2 : rank < last_below total rate (suc rank) es k = rw t at l in omega arith)
      | inr l' ↦ rw t (later_below (suc rank) e es k sorted (omega arith) l')
    ]
  ]
