-- ===== src/Analytics/Statistics/Discovery/Marks.antt =====
-- The entries that the step-up procedure of packages/domain/src/analytics-statistics.ts marks.
use content_automation.Base.{
  ℕ, zero, suc, ◌-◌, ◌≤◌, ◌<◌, Bool, true, false, not, ◌&&◌, ◌||◌, List, [], ◌∷◌, ◌≡◌, refl, inl,
  inr, arith,
}
use content_automation.Base.Tests.{ltb, ◌==◌, if◌then◌else◌, Bool-cases}
use content_automation.Base.Order.{every, IsSorted}
use content_automation.Domain.Number.{Number}
use content_automation.Domain.Number.Arithmetic.{le_number}
use content_automation.Domain.Number.Arithmetic.Order.{le_number_trans}
use content_automation.Analytics.Spread.{Share}
use content_automation.Analytics.Statistics.Discovery.{Entry, threshold}
use content_automation.Analytics.Statistics.Discovery.Finite.{by_size, last_below}
use content_automation.Analytics.Statistics.Discovery.Ranks.{
  passes, threshold_le, last_below_le, counted_below,
}

-- One of the first `n` entries was given at place `i`.
unfoldable pub marked : ℕ → List Entry → ℕ → Bool
marked zero es i = false
marked (suc n) [] i = false
marked (suc n) (e ∷ es) i = i == e.index || marked n es i

module _ (total : ℕ) (rate : Share) where
  marked_step :
      (rank last : ℕ) (e : Entry) (es : List Entry) (i : ℕ)
      → marked (last - rank) (e ∷ es) i ≡ true
      → (rank < last) × ((i == e.index || marked (last - suc rank) es i) ≡ true)
  unfolding marked
  marked_step rank last e es i h = elim (Bool-cases (ltb rank last)) [
    | inl t ↦
        let l : rank < last = ground arith in
        let next : last - rank ≡ suc (last - suc rank) = omega arith in (l, rw (next, marked) at h)
    | inr t ↦
        let l : last ≤ rank = ground arith in
        let none : last - rank ≡ 0 = omega arith in
        let off : false ≡ true = rw (none, marked) at h in absurd (ground (arith, off))
  ]

  marked-nil : (n i : ℕ) → marked n [] i ≡ false
  unfolding marked
  marked-nil zero i = refl
  marked-nil (suc n) i = refl

  -- The last rank that passes, after the entry at `rank`.
  noted : ℕ → Entry → ℕ → ℕ
  noted rank e k = if passes total rate (suc rank) e then suc rank else k

  noted_le : (rank : ℕ) (e : Entry) (k : ℕ) → k ≤ rank → noted rank e k ≤ suc rank
  unfolding noted
  noted_le rank e k h = ground arith

  last_below_step :
      (rank : ℕ) (e : Entry) (es : List Entry) (k : ℕ)
      → last_below total rate rank (e ∷ es) k ≡ last_below total rate (suc rank) es (noted rank e k)
  unfolding last_below noted
  last_below_step rank e es k = refl

  -- What counts is below the threshold of the last that passes.
  pub marked_below :
      (rank : ℕ) (es : List Entry) (k i : ℕ) (p : Number)
      → IsSorted by_size es
      → k ≤ rank
      → every (λ e. not (i == e.index) || le_number p e.value) es ≡ true
      → marked (last_below total rate rank es k - rank) es i ≡ true
      → le_number p (threshold total rate (last_below total rate rank es k)) ≡ true
  unfolding every
  marked_below rank [] k i p sorted h own m =
      absurd (ground (arith, marked-nil (last_below total rate rank [] k - rank) i))
  marked_below rank (e ∷ es) k i p sorted h own m =
      let last = last_below total rate rank (e ∷ es) k in
      let (l, step) = marked_step rank last e es i m in
      elim (Bool-cases (i == e.index)) [
        | inl t ↦
            le_number_trans p e.value (threshold total rate last) (ground arith)
              (counted_below total rate rank e es k sorted h l)
        | inr t ↦
            let same = last_below_step rank e es k in
            let later : marked (last_below total rate (suc rank) es (noted rank e k) - suc rank) es
                  i
                ≡ true =
              rw (t, same) at step in
            rw same (
              marked_below (suc rank) es (noted rank e k) i p sorted.1 (noted_le rank e k h)
                (ground arith) later)
      ]

  -- What passes total rate is counted.
  passing_counts :
      (rank : ℕ) (e : Entry) (es : List Entry) (k : ℕ)
      → passes total rate (suc rank) e ≡ true
      → rank < last_below total rate rank (e ∷ es) k
  unfolding last_below
  passing_counts rank e es k t =
      rw t (omega (arith, last_below_le total rate (suc rank) es (suc rank) (omega arith)))

  later_marked :
      (rank last : ℕ) (e : Entry) (es : List Entry) (i : ℕ)
      → marked (last - suc rank) es i ≡ true
      → marked (last - rank) (e ∷ es) i ≡ true
  unfolding marked
  later_marked rank last e es i h = elim (Bool-cases (ltb rank last)) [
    | inl t ↦
        let l : rank < last = ground arith in
        let next : last - rank ≡ suc (last - suc rank) = omega arith in
        rw (next, marked) (ground (arith, h))
    | inr t ↦
        let l : last ≤ rank = ground arith in
        let none : last - suc rank ≡ 0 = omega arith in
        let off : false ≡ true = rw (none, marked) at h in absurd (ground (arith, off))
  ]

  head_marked :
      (rank last : ℕ) (e : Entry) (es : List Entry) (i : ℕ)
      → rank < last
      → (i == e.index) ≡ true
      → marked (last - rank) (e ∷ es) i ≡ true
  unfolding marked
  head_marked rank last e es i l h =
      let next : last - rank ≡ suc (last - suc rank) = omega arith in
      rw (next, marked) (ground arith)

  -- What is below the threshold of the last that passes total rate counts.
  pub below_marked :
      (rank : ℕ) (es : List Entry) (k i : ℕ) (p : Number)
      → every (λ e. not ((i == e.index) && le_number e.value p)) es ≡ false
      → le_number p (threshold total rate (last_below total rate rank es k)) ≡ true
      → marked (last_below total rate rank es k - rank) es i ≡ true
  unfolding every
  below_marked rank [] k i p there h = absurd (ground arith)
  below_marked rank (e ∷ es) k i p there h =
      let last = last_below total rate rank (e ∷ es) k in
      let same = last_below_step rank e es k in
      elim (Bool-cases ((i == e.index) && le_number e.value p)) [
        | inr t ↦
            let below : le_number p
                  (threshold total rate (last_below total rate (suc rank) es (noted rank e k)))
                ≡ true =
              rw same at h in
            let later = below_marked (suc rank) es (noted rank e k) i p (ground arith) below in
            later_marked rank last e es i (rw same later)
        | inl t ↦ elim (Bool-cases (ltb rank last)) [
          | inl l ↦ head_marked rank last e es i (ground arith) (ground arith)
          | inr l ↦
              let small = threshold_le total rate last (suc rank) (ground arith) in
              let low = le_number_trans e.value p (threshold total rate last) (ground arith) h in
              let pass =
                le_number_trans e.value (threshold total rate last)
                  (threshold total rate (suc rank)) low small in
              let counts = passing_counts rank e es k pass in absurd (ground (arith, counts))
        ]
      ]
