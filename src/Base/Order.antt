-- ===== src/Base/Order.antt =====
-- Comparators, the stable sort of Array.prototype.sort, Array.prototype.filter, and lists that hold the
-- same members in whatever order.
pub mod Agreement
pub mod Counts
pub mod Extension
pub mod Laws
pub mod Least
pub mod Stable
pub mod Text
use Prim.Native.Nat.{compare, Ordering, lt, eq, gt}
use content_automation.Base.{
  ℕ, Bool, true, false, not, ◌&&◌, Option, none, some, List, [], ◌∷◌, ◌≡◌,
}
use content_automation.Base.Tests.{if◌then◌else◌}

-- The sign of what a comparator returns.
abbrev pub Comparator {ℓ} : Type ℓ → Type ℓ
Comparator A = A → A → Ordering

abbrev pub is_gt : Ordering → Bool
is_gt gt = true
is_gt lt = false
is_gt eq = false

abbrev pub reverse : Ordering → Ordering
reverse lt = gt
reverse eq = eq
reverse gt = lt

-- a || b, on the differences that a comparator returns
infixr 30 ◌then_by◌
abbrev pub ◌then_by◌ : Ordering → Ordering → Ordering
lt then_by o = lt
eq then_by o = o
gt then_by o = gt

module _ {ℓ} {A : Type ℓ} (cmp : Comparator A) where
  insert_by : A → List A → List A
  insert_by a [] = a ∷ []
  insert_by a (b ∷ ys) = if is_gt (cmp a b) then b ∷ insert_by a ys else a ∷ b ∷ ys

  -- [...list].sort(cmp)
  unfoldable pub sort_by : List A → List A
  unfolding insert_by
  sort_by [] = []
  sort_by (a ∷ xs) = insert_by a (sort_by xs)

module _ {ℓ} {A : Type ℓ} where
  -- list[0]
  abbrev pub head? : List A → Option A
  head? [] = none
  head? (a ∷ xs) = some a

  -- list.filter(test)
  unfoldable pub filter_by : (A → Bool) → List A → List A
  filter_by test [] = []
  filter_by test (a ∷ xs) = if test a then a ∷ filter_by test xs else filter_by test xs

  -- list.every(test)
  unfoldable pub every : (A → Bool) → List A → Bool
  every test [] = true
  every test (a ∷ xs) = test a && every test xs

  -- The same members, in whatever order and number.
  abbrev pub SameMembers : List A → List A → Type ℓ
  SameMembers xs ys = (test : A → Bool) → every test xs ≡ every test ys

-- A list in the order of a comparator: no member is placed ahead of one before it.
module _ {ℓ} {A : Type ℓ} (cmp : Comparator A) where
  abbrev pub not_after : A → A → Bool
  not_after a b = not (is_gt (cmp a b))

  abbrev pub IsSorted : List A → Type 0
  IsSorted [] = Unit
  IsSorted (x ∷ xs) = (every (not_after x) xs ≡ true) × IsSorted xs

-- [winner, ...list].reduce((winner, candidate) => better(candidate, winner) ? candidate : winner)
unfoldable pub reduce_best {ℓ} : {A : Type ℓ} → (A → A → Bool) → A → List A → A
reduce_best better w [] = w
reduce_best better w (c ∷ cs) = reduce_best better (if better c w then c else w) cs
