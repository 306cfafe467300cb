-- ===== src/Base/Order/Extension.antt =====
-- Two comparators that agree on the members of a list sort it alike.
use content_automation.Base.{Bool, true, List, [], ◌∷◌, ◌≡◌, refl, ◌∙◌, ap, arith}
use content_automation.Base.Order.{Comparator, insert_by, sort_by, every}
use content_automation.Base.Order.Laws.{Ordered}
use content_automation.Base.Order.Least.{every-sort_by}

module _ {ℓ} {A : Type ℓ} (c d : Comparator A) (o : Ordered d) (test : A → Bool)
    (agree : (a b : A) → test a ≡ true → test b ≡ true → c a b ≡ d a b) where
  insert_by_ext :
      (a : A) (xs : List A)
      → test a ≡ true
      → every test xs ≡ true
      → insert_by c a xs ≡ insert_by d a xs
  unfolding insert_by every
  insert_by_ext a [] h k = refl
  insert_by_ext a (x ∷ xs) h k =
      let same : c a x ≡ d a x = agree a x h (ground arith) in
      let rest : insert_by c a xs ≡ insert_by d a xs = insert_by_ext a xs h (ground arith) in
      rw (same, rest) refl

  pub sort_by_ext : (xs : List A) → every test xs ≡ true → sort_by c xs ≡ sort_by d xs
  unfolding sort_by every
  sort_by_ext [] h = refl
  sort_by_ext (x ∷ xs) h =
      ap (insert_by c x) (sort_by_ext xs (ground arith))
      ∙ insert_by_ext x (sort_by d xs) (ground arith) (every-sort_by d o test xs ∙ ground arith)
