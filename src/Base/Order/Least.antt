-- ===== src/Base/Order/Least.antt =====
-- The least member of a list: the head of the sorted list, and what a reduction keeps.
use Prim.Native.Nat.{eq}
use content_automation.Base.{
  Bool, true, ◌&&◌, none, some, List, [], ◌∷◌, ◌≡◌, ◌≢◌, refl, ◌∙◌, sym, ap, inl, inr, arith,
}
use mathlib.Core.Path.{subst}
use content_automation.Base.Tests.{if◌then◌else◌, Bool-cases}
use content_automation.Base.Order.{
  Comparator, is_gt, insert_by, sort_by, head?, every, SameMembers, not_after, IsSorted,
  reduce_best,
}
use content_automation.Base.Order.Laws.{Ordered}

module _ {ℓ} {A : Type ℓ} where
  pub every-imp :
      (p q : A → Bool) (xs : List A)
      → ((a : A) → p a ≡ true → q a ≡ true)
      → every p xs ≡ true
      → every q xs ≡ true
  unfolding every
  every-imp p q [] h e = refl
  every-imp p q (x ∷ xs) h e = ground (arith, h x, every-imp p q xs h)

  pub every-true : (xs : List A) → every (λ a. true) xs ≡ true
  unfolding every
  every-true [] = refl
  every-true (x ∷ xs) = every-true xs

  -- What no member fails, the head does not fail.
  every-head :
      (p : A → Bool) (xs : List A) {m : A} → head? xs ≡ some m → every p xs ≡ true → p m ≡ true
  unfolding every
  every-head p [] e h = cc
  every-head p (x ∷ xs) e h = ground arith

module _ {ℓ} {A : Type ℓ} (cmp : Comparator A) (o : Ordered cmp) where
  pub cmp_self : (a : A) → cmp a a ≡ eq
  cmp_self a = ground (arith, o.flip a a)

  every-insert_by :
      (p : A → Bool) (a : A) (xs : List A) → every p (insert_by cmp a xs) ≡ (p a && every p xs)
  unfolding every insert_by
  every-insert_by p a [] = refl
  every-insert_by p a (x ∷ xs) = ground (arith, every-insert_by p a xs)

  pub every-sort_by : (p : A → Bool) (xs : List A) → every p (sort_by cmp xs) ≡ every p xs
  unfolding every sort_by
  every-sort_by p [] = refl
  every-sort_by p (x ∷ xs) =
      every-insert_by p x (sort_by cmp xs) ∙ ap (λ (b : Bool). p x && b) (every-sort_by p xs)

  not_after_trans :
      (a b : A) (xs : List A)
      → not_after cmp a b ≡ true
      → every (not_after cmp b) xs ≡ true
      → every (not_after cmp a) xs ≡ true
  not_after_trans a b xs h = every-imp _ _ xs (λ c k. ground (arith, o.trans a b c))

  insert_by-IsSorted : (a : A) (xs : List A) → IsSorted cmp xs → IsSorted cmp (insert_by cmp a xs)
  unfolding insert_by every
  insert_by-IsSorted a [] h = (refl, tt)
  insert_by-IsSorted a (x ∷ xs) h = elim (Bool-cases (is_gt (cmp a x))) [
    | inl t ↦ rw t (
      rw (every-insert_by (not_after cmp x) a xs) (ground (arith, o.flip a x, h.0)),
      insert_by-IsSorted a xs h.1,
    )
    | inr t ↦ rw t (ground (arith, not_after_trans a x xs), h)
  ]

  pub sort_by-IsSorted : (xs : List A) → IsSorted cmp (sort_by cmp xs)
  unfolding sort_by
  sort_by-IsSorted [] = tt
  sort_by-IsSorted (x ∷ xs) = insert_by-IsSorted x (sort_by cmp xs) (sort_by-IsSorted xs)

  IsSorted-head :
      (xs : List A) {m : A}
      → IsSorted cmp xs
      → head? xs ≡ some m
      → every (not_after cmp m) xs ≡ true
  unfolding every
  IsSorted-head [] h e = cc
  IsSorted-head (x ∷ xs) h e = ground (arith, cmp_self x)

  -- The head of the sorted list is a member that is after none.
  pub least_member :
      (xs : List A) (m : A) (p : A → Bool)
      → head? (sort_by cmp xs) ≡ some m
      → every p xs ≡ true
      → p m ≡ true
  least_member xs m p e h = every-head p (sort_by cmp xs) e (every-sort_by p xs ∙ h)

  pub least_first :
      (xs : List A) (m : A) → head? (sort_by cmp xs) ≡ some m → every (not_after cmp m) xs ≡ true
  least_first xs m e =
      sym (every-sort_by (not_after cmp m) xs)
      ∙ IsSorted-head (sort_by cmp xs) (sort_by-IsSorted xs) e

  -- Two heads that are after none of the same members tie.
  pub least_tie : (m n : A) → not_after cmp m n ≡ true → not_after cmp n m ≡ true → cmp m n ≡ eq
  least_tie m n h k = ground (arith, o.flip m n)

  pub least_same :
      (xs ys : List A) (m n : A)
      → SameMembers xs ys
      → head? (sort_by cmp xs) ≡ some m
      → head? (sort_by cmp ys) ≡ some n
      → cmp m n ≡ eq
  least_same xs ys m n same e f =
      least_tie m n
        (least_member ys n (not_after cmp m) f (sym (same (not_after cmp m)) ∙ least_first xs m e))
        (least_member xs m (not_after cmp n) e (same (not_after cmp n) ∙ least_first ys n f))

  insert_by-ne-nil : (a : A) (xs : List A) → head? (insert_by cmp a xs) ≢ none
  unfolding insert_by
  insert_by-ne-nil a [] = ground arith
  insert_by-ne-nil a (x ∷ xs) = ground arith

  pub sort_by-nil : (xs : List A) → head? (sort_by cmp xs) ≡ none → xs ≡ []
  unfolding sort_by
  sort_by-nil [] e = refl
  sort_by-nil (x ∷ xs) e = absurd (insert_by-ne-nil x (sort_by cmp xs) e)

module _ {ℓ} {A : Type ℓ} (cmp : Comparator A) (o : Ordered cmp) (better : A → A → Bool)
    (strict : (c w : A) → better c w ≡ is_gt (cmp w c)) where
  pub reduce_member :
      (w : A) (cs : List A) (p : A → Bool)
      → every p (w ∷ cs) ≡ true
      → p (reduce_best better w cs) ≡ true
  unfolding reduce_best every
  reduce_member w [] p h = ground arith
  reduce_member w (c ∷ cs) p h = elim (Bool-cases (better c w)) [
    | inl t ↦ rw t (reduce_member c cs p (ground arith))
    | inr t ↦ rw t (reduce_member w cs p (ground arith))
  ]

  reduce_after :
      (a w : A) (cs : List A)
      → not_after cmp w a ≡ true
      → not_after cmp (reduce_best better w cs) a ≡ true
  unfolding reduce_best
  reduce_after a w [] h = h
  reduce_after a w (c ∷ cs) h = elim (Bool-cases (better c w)) [
    | inl t ↦ rw t (reduce_after a c cs (ground (arith, strict c w, o.flip w c, o.trans c w a)))
    | inr t ↦ rw t (reduce_after a w cs h)
  ]

  reduce_step :
      (w c : A) (cs : List A)
      → reduce_best better w (c ∷ cs) ≡ reduce_best better (if better c w then c else w) cs
  unfolding reduce_best
  reduce_step w c cs = refl

  -- What the reduction keeps is after none.
  pub reduce_first :
      (w : A) (cs : List A) → every (not_after cmp (reduce_best better w cs)) (w ∷ cs) ≡ true
  unfolding every
  reduce_first w [] = ground (arith, reduce_after w w [], o.flip w w)
  reduce_first w (c ∷ cs) =
      let goal = λ (m : A). every (not_after cmp m) (w ∷ c ∷ cs) ≡ true in
      elim (Bool-cases (better c w)) [
        | inl t ↦
            let e : reduce_best better w (c ∷ cs) ≡ reduce_best better c cs =
              rw (reduce_step w c cs, t) refl in
            subst goal (sym e) (
              ground (
                arith,
                reduce_first c cs,
                reduce_after w c cs (ground (arith, strict c w, o.flip w c)),
              ))
        | inr t ↦
            let e : reduce_best better w (c ∷ cs) ≡ reduce_best better w cs =
              rw (reduce_step w c cs, t) refl in
            subst goal (sym e) (
              ground (
                arith,
                reduce_first w cs,
                reduce_after c w cs (ground (arith, strict c w, o.flip w c)),
              ))
      ]
