-- ===== src/Base/Order/Stable.antt =====
-- Sorting keeps the order of members that the comparator does not part.
use content_automation.Base.{Bool, true, not, ◌&&◌, ◌||◌, List, [], ◌∷◌, ◌≡◌, refl, ◌∙◌, arith}
use content_automation.Base.Order.{Comparator, insert_by, sort_by, filter_by, every, not_after}
use content_automation.Base.Order.Laws.{Ordered}
use content_automation.Base.Order.Least.{every-sort_by}

module _ {ℓ} {A : Type ℓ} (cmp : Comparator A) (o : Ordered cmp) (test : A → Bool) where
  -- A member is not after a later one, where the test picks both.
  abbrev pub before : A → A → Bool
  before a b = not (test a && test b) || not_after cmp a b

  abbrev pub IsInOrder : List A → Type 0
  IsInOrder [] = Unit
  IsInOrder (a ∷ xs) = (every (before a) xs ≡ true) × IsInOrder xs

  filter_by-insert_by :
      (a : A) (xs : List A)
      → every (before a) xs ≡ true
      → filter_by test (insert_by cmp a xs) ≡ filter_by test (a ∷ xs)
  unfolding filter_by insert_by every
  filter_by-insert_by a [] h = refl
  filter_by-insert_by a (b ∷ xs) h = ground (arith, filter_by-insert_by a xs)

  pub filter_by-sort_by :
      (xs : List A) → IsInOrder xs → filter_by test (sort_by cmp xs) ≡ filter_by test xs
  unfolding filter_by sort_by
  filter_by-sort_by [] h = refl
  filter_by-sort_by (a ∷ xs) h =
      let inserted =
        filter_by-insert_by a (sort_by cmp xs) (every-sort_by cmp o (before a) xs ∙ h.0) in
      ground (arith, inserted, filter_by-sort_by xs h.1)
