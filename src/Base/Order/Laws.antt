-- ===== src/Base/Order/Laws.antt =====
-- What sorting and filtering do to the members of a list, and the least member of a list.
use Prim.Native.Nat.{compare, Ordering, lt, eq, gt}
use mathlib.Core.Logic.{∥∥₁_elim}
use mathlib.Core.List.{Perm, Permᴰ}
use content_automation.Base.{
  ℕ, Bool, false, not, ◌||◌, List, [], ◌∷◌, ◌≡◌, refl, ◌∙◌, sym, ap, arith,
}
use content_automation.Base.Order.{
  Comparator, is_gt, reverse, ◌then_by◌, filter_by, every, SameMembers,
}

-- A comparator that orders: a total preorder.
pub record Ordered {ℓ} {A : Type ℓ} (cmp : Comparator A) : Type ℓ where
  pub flip : (a b : A) → cmp b a ≡ reverse (cmp a b)
  pub trans :
      (a b c : A) → is_gt (cmp a b) ≡ false → is_gt (cmp b c) ≡ false → is_gt (cmp a c) ≡ false

pub by_number-Ordered {ℓ} :
    {A : Type ℓ} (key : A → ℕ) → Ordered (λ (a b : A). compare (key a) (key b))
by_number-Ordered key = record { flip = λ a b. ground arith; trans = λ a b c h k. ground arith }

pub by_number_down-Ordered {ℓ} :
    {A : Type ℓ} (key : A → ℕ) → Ordered (λ (a b : A). compare (key b) (key a))
by_number_down-Ordered key = record {
  flip = λ a b. ground arith;
  trans = λ a b c h k. ground arith;
}

then_by_flip : (o p : Ordering) → reverse o then_by reverse p ≡ reverse (o then_by p)
then_by_flip lt p = refl
then_by_flip eq p = refl
then_by_flip gt p = refl

module _ {ℓ} {A : Type ℓ} (c d : Comparator A) (hc : Ordered c) (hd : Ordered d) where
  then_by_trans :
      (x y z : A)
      → is_gt (c x y then_by d x y) ≡ false
      → is_gt (c y z then_by d y z) ≡ false
      → is_gt (c x z then_by d x z) ≡ false
  then_by_trans x y z h k = ground (
    arith,
    hc.flip x y,
    hc.flip y z,
    hc.flip x z,
    hc.trans x y z,
    hc.trans y z x,
    hc.trans z x y,
    hd.trans x y z,
  )

  pub then_by-Ordered : Ordered (λ a b. c a b then_by d a b)
  then_by-Ordered = record {
    flip = λ a b. rw (hc.flip a b, hd.flip a b) (then_by_flip (c a b) (d a b));
    trans = then_by_trans;
  }

module _ {ℓ} {A : Type ℓ} where
  pub every-filter_by :
      (p test : A → Bool) (xs : List A)
      → every p (filter_by test xs) ≡ every (λ a. not (test a) || p a) xs
  unfolding every filter_by
  every-filter_by p test [] = refl
  every-filter_by p test (a ∷ xs) = ground (arith, every-filter_by p test xs)

  pub filter_by-SameMembers :
      (test : A → Bool) (xs ys : List A)
      → SameMembers xs ys
      → SameMembers (filter_by test xs) (filter_by test ys)
  filter_by-SameMembers test xs ys same p =
      every-filter_by p test xs ∙ same (λ a. not (test a) || p a) ∙ sym (every-filter_by p test ys)

  Permᴰ-SameMembers : {xs ys : List A} → Permᴰ xs ys → SameMembers xs ys
  unfolding every
  Permᴰ-SameMembers Permᴰ.nil p = refl
  Permᴰ-SameMembers (Permᴰ.cons e h) p = ground (arith, ap p e, Permᴰ-SameMembers h p)
  Permᴰ-SameMembers (Permᴰ.swap e f) p = ground (arith, ap p e, ap p f)
  Permᴰ-SameMembers (Permᴰ.trans h k) p = Permᴰ-SameMembers h p ∙ Permᴰ-SameMembers k p

  pub Perm-SameMembers : {xs ys : List A} → Perm xs ys → SameMembers xs ys
  Perm-SameMembers {xs} {ys} h p = ∥∥₁_elim h (hlevel) (λ k. Permᴰ-SameMembers k p)
