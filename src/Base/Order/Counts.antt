-- ===== src/Base/Order/Counts.antt =====
-- Sorting keeps the length, and how many members pass a test.
use content_automation.Base.{suc, Bool, List, [], ◌∷◌, ◌≡◌, refl, ap, ◌∙◌, arith}
use content_automation.Base.Lists.{length}
use content_automation.Base.Order.{Comparator, insert_by, sort_by}
use content_automation.Base.Rows.{count_where}

module _ {ℓ} {A : Type ℓ} (cmp : Comparator A) where
  count_where-insert_by :
      (test : A → Bool) (a : A) (xs : List A)
      → count_where test (insert_by cmp a xs) ≡ count_where test (a ∷ xs)
  unfolding count_where insert_by
  count_where-insert_by test a [] = refl
  count_where-insert_by test a (x ∷ xs) = ground (arith, count_where-insert_by test a xs)

  pub count_where-sort_by :
      (test : A → Bool) (xs : List A) → count_where test (sort_by cmp xs) ≡ count_where test xs
  unfolding count_where sort_by
  count_where-sort_by test [] = refl
  count_where-sort_by test (x ∷ xs) =
      ground (arith, count_where-insert_by test x (sort_by cmp xs), count_where-sort_by test xs)

  length-insert_by : (a : A) (xs : List A) → length (insert_by cmp a xs) ≡ suc (length xs)
  unfolding insert_by
  length-insert_by a [] = refl
  length-insert_by a (x ∷ xs) = ground (arith, length-insert_by a xs)

  pub length-sort_by : (xs : List A) → length (sort_by cmp xs) ≡ length xs
  unfolding sort_by
  length-sort_by [] = refl
  length-sort_by (x ∷ xs) = length-insert_by x (sort_by cmp xs) ∙ ap suc (length-sort_by xs)
