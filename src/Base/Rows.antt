-- ===== src/Base/Rows.antt =====
-- Tables as lists of rows, and what the program asks of Prisma: `findFirst`, `updateMany`, `count`.
use Prim.Native.Nat.{ℕ, suc}
use mathlib.Core.Path.{◌≡◌, refl}
use mathlib.Core.Logic.{inl, inr}
use mathlib.Core.Bool.{Bool, true, false}
use mathlib.Core.Option.{Option, none, some}
use mathlib.Core.List.{List, [], ◌∷◌, ◌++◌}
use native.Mathlib.Omega.{arith}
use content_automation.Base.Tests.{if◌then◌else◌, Bool-cases}

module _ {ℓ} {A : Type ℓ} where
  -- findFirst({ where: test })
  unfoldable pub find_first : (A → Bool) → List A → Option A
  find_first test [] = none
  find_first test (r ∷ rs) = if test r then some r else find_first test rs

  -- updateMany({ where: test, data: change })
  unfoldable pub update_many : (A → Bool) → (A → A) → List A → List A
  update_many test change [] = []
  update_many test change (r ∷ rs) = (if test r then change r else r) ∷ update_many test change rs

  -- the count that updateMany returns, and count({ where: test })
  unfoldable pub count_where : (A → Bool) → List A → ℕ
  count_where test [] = 0
  count_where test (r ∷ rs) = let rest = count_where test rs in if test r then suc rest else rest

  pub find_first_test :
      (test : A → Bool) (rs : List A) {r : A} → find_first test rs ≡ some r → test r ≡ true
  unfolding find_first
  find_first_test test [] h = cc
  find_first_test test (x ∷ rs) {r} h = elim (Bool-cases (test x)) [
    | inl e ↦ ground (arith, find_first_test test rs {r = r})
    | inr e ↦ find_first_test test rs (ground arith)
  ]

  pub update_many_id :
      (test : A → Bool) (change : A → A) (rs : List A)
      → count_where test rs ≡ 0
      → update_many test change rs ≡ rs
  unfolding update_many count_where
  update_many_id test change [] h = refl
  update_many_id test change (r ∷ rs) h = ground (arith, update_many_id test change rs)

module _ {ℓ κ} {A : Type ℓ} (P : A → Type κ) where
  abbrev pub All : List A → Type κ
  All [] = Unit
  All (r ∷ rs) = P r × All rs

  pub All-if : (b : Bool) (rs ss : List A) → All rs → All ss → All (if b then rs else ss)
  All-if true rs ss h k = h
  All-if false rs ss h k = k

  pub All-append : (rs ss : List A) → All rs → All ss → All (rs ++ ss)
  All-append [] ss h k = k
  All-append (r ∷ rs) ss h k = (h.0, All-append rs ss h.1 k)

  pub All-find_first :
      (test : A → Bool) (rs : List A) {r : A} → All rs → find_first test rs ≡ some r → P r
  unfolding find_first
  All-find_first test [] h e = cc
  All-find_first test (x ∷ rs) {r} h e = elim (Bool-cases (test x)) [
    | inl t ↦ ground (arith, h.0)
    | inr t ↦ All-find_first test rs h.1 (ground arith)
  ]

  pub All-update_many :
      (test : A → Bool) (change : A → A) (rs : List A)
      → ((r : A) → test r ≡ true → P r → P (change r))
      → All rs
      → All (update_many test change rs)
  unfolding update_many
  All-update_many test change [] step h = tt
  All-update_many test change (r ∷ rs) step h = elim (Bool-cases (test r)) [
    | inl t ↦ rw t (step r t h.0, All-update_many test change rs step h.1)
    | inr t ↦ rw t (h.0, All-update_many test change rs step h.1)
  ]

pub All-find_none {ℓ} :
    {A : Type ℓ} (test : A → Bool) (rs : List A)
    → find_first test rs ≡ none
    → All (λ r. test r ≡ false) rs
unfolding find_first
All-find_none test [] h = tt
All-find_none test (r ∷ rs) h = elim (Bool-cases (test r)) [
  | inl t ↦ absurd (ground arith)
  | inr t ↦ (t, All-find_none test rs (ground arith))
]

-- The same with a second property of the rows, which the change may rely on.
pub All-update_many_with {ℓ κ μ} :
    {A : Type ℓ} (P : A → Type κ) (Q : A → Type μ) (test : A → Bool) (change : A → A) (rs : List A)
    → ((r : A) → test r ≡ true → P r → Q r → P (change r))
    → All P rs
    → All Q rs
    → All P (update_many test change rs)
unfolding update_many
All-update_many_with P Q test change [] step h k = tt
All-update_many_with P Q test change (r ∷ rs) step h k = elim (Bool-cases (test r)) [
  | inl t ↦ rw t (step r t h.0 k.0, All-update_many_with P Q test change rs step h.1 k.1)
  | inr t ↦ rw t (h.0, All-update_many_with P Q test change rs step h.1 k.1)
]

-- Row by row, and no row is added or dropped.
