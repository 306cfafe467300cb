-- ===== src/Base/Order/Agreement.antt =====
-- Sorting does not depend on the order of the list, where members that tie are one.
use Prim.Native.Nat.{Ordering, lt, eq, gt}
use mathlib.Core.List.{Permᴰ}
use mathlib.Core.Path.{subst}
use content_automation.Base.{List, [], ◌∷◌, ◌≡◌, ◌⊎◌, inl, inr, refl, ◌∙◌, sym, ap, arith}
use content_automation.Base.Rows.{All}
use content_automation.Base.Order.{Comparator, insert_by, sort_by}
use content_automation.Base.Order.Laws.{Ordered}

Ordering-cases : (o : Ordering) → (o ≡ lt) ⊎ ((o ≡ eq) ⊎ (o ≡ gt))
Ordering-cases lt = inl refl
Ordering-cases eq = inr (inl refl)
Ordering-cases gt = inr (inr refl)

module _ {ℓ} {A : Type ℓ} (cmp : Comparator A) (o : Ordered cmp) where
  insert_lower :
      (a b : A) (xs : List A)
      → cmp a b ≡ lt
      → insert_by cmp a (insert_by cmp b xs) ≡ insert_by cmp b (insert_by cmp a xs)
  unfolding insert_by
  insert_lower a b [] h = ground (arith, o.flip a b)
  insert_lower a b (x ∷ xs) h = ground (arith, o.flip a b, o.trans a b x, insert_lower a b xs h)

  insert_twice :
      (a b : A) (xs : List A)
      → (cmp a b ≡ eq → a ≡ b)
      → insert_by cmp a (insert_by cmp b xs) ≡ insert_by cmp b (insert_by cmp a xs)
  insert_twice a b xs tie = elim (Ordering-cases (cmp a b)) [
    | inl h ↦ insert_lower a b xs h
    | inr (inl h) ↦ rw (tie h) refl
    | inr (inr h) ↦ sym (insert_lower b a xs (ground (arith, o.flip a b)))
  ]

  module _ {κ} (P : A → Type κ) (exact : (a b : A) → P a → P b → cmp a b ≡ eq → a ≡ b) where
    Permᴰ-All : {xs ys : List A} → Permᴰ xs ys → All P xs → All P ys
    Permᴰ-All Permᴰ.nil h = h
    Permᴰ-All (Permᴰ.cons e p) h = (subst P e h.0, Permᴰ-All p h.1)
    Permᴰ-All (Permᴰ.swap e f) h = (subst P f h.1.0, (subst P e h.0, h.1.1))
    Permᴰ-All (Permᴰ.trans p q) h = Permᴰ-All q (Permᴰ-All p h)

    pub Permᴰ-sort_by : {xs ys : List A} → Permᴰ xs ys → All P xs → sort_by cmp xs ≡ sort_by cmp ys
    unfolding sort_by
    Permᴰ-sort_by Permᴰ.nil h = refl
    Permᴰ-sort_by (Permᴰ.cons e p) h = rw (e, Permᴰ-sort_by p h.1) refl
    Permᴰ-sort_by (Permᴰ.swap {a} {b} {a'} {b'} {l} e f) h =
        insert_twice a b (sort_by cmp l) (exact a b h.0 h.1.0)
        ∙ ap (λ c. insert_by cmp c (insert_by cmp a (sort_by cmp l))) f
        ∙ ap (λ c. insert_by cmp a' (insert_by cmp c (sort_by cmp l))) e
    Permᴰ-sort_by (Permᴰ.trans p q) h = Permᴰ-sort_by p h ∙ Permᴰ-sort_by q (Permᴰ-All p h)
