-- ===== src/Domain/Dashboard/Stable.antt =====
-- Items of one priority keep their order.
use Prim.Native.Nat.{compare}
use content_automation.Base.{ℕ, suc, ◌≤◌, Bool, true, List, [], ◌∷◌, ◌≡◌, refl, ap, sym, ◌∙◌, arith}
use content_automation.Base.Tests.{◌==◌, leb}
use content_automation.Base.Order.{Comparator, sort_by, filter_by, every, not_after, IsSorted}
use content_automation.Base.Order.Laws.{Ordered, by_number-Ordered, then_by-Ordered}
use content_automation.Base.Order.Least.{sort_by-IsSorted, every-imp}
use content_automation.Base.Order.Stable.{filter_by-sort_by, IsInOrder}
use content_automation.Domain.Dashboard.{
  priority_rank, Item, Placed, placed_from, by_priority, item_of, order_dashboard_attention_items,
}
use mathlib.Core.List.{map}

by_priority-Ordered : Ordered by_priority
by_priority-Ordered =
    then_by-Ordered _ _ (by_number-Ordered (λ (p : Placed). priority_rank p.item.priority))
      (by_number-Ordered (λ (p : Placed). p.original_index))

abbrev pub has_rank : ℕ → Item → Bool
has_rank r x = priority_rank x.priority == r

abbrev pub by_rank : Comparator Item
by_rank x y = compare (priority_rank x.priority) (priority_rank y.priority)

later_places :
    (start i : ℕ) (xs : List Item)
    → i ≤ start
    → every (λ (p : Placed). leb i p.original_index) (placed_from start xs) ≡ true
unfolding every placed_from
later_places start i [] h = refl
later_places start i (x ∷ xs) h = ground (arith, later_places (suc start) i xs)

placed_from-IsInOrder :
    (r start : ℕ) (xs : List Item)
    → IsInOrder by_priority by_priority-Ordered (λ p. has_rank r p.item) (placed_from start xs)
unfolding placed_from
placed_from-IsInOrder r start [] = tt
placed_from-IsInOrder r start (x ∷ xs) = (
  every-imp _ _ (placed_from (suc start) xs) (λ p h. ground arith)
      (later_places (suc start) (suc start) xs (omega arith)),
  placed_from-IsInOrder r (suc start) xs,
)

filter_by-map :
    (test : Item → Bool) (ps : List Placed)
    → filter_by test (map item_of ps) ≡ map item_of (filter_by (λ p. test p.item) ps)
unfolding filter_by
filter_by-map test [] = refl
filter_by-map test (p ∷ ps) = ground (arith, filter_by-map test ps)

items_placed : (start : ℕ) (xs : List Item) → map item_of (placed_from start xs) ≡ xs
unfolding placed_from
items_placed start [] = refl
items_placed start (x ∷ xs) = ap (◌∷◌ x) (items_placed (suc start) xs)

every-map :
    (test : Item → Bool) (ps : List Placed)
    → every test (map item_of ps) ≡ every (λ p. test p.item) ps
unfolding every
every-map test [] = refl
every-map test (p ∷ ps) = ground (arith, every-map test ps)

IsSorted-map : (ps : List Placed) → IsSorted by_priority ps → IsSorted by_rank (map item_of ps)
IsSorted-map [] h = tt
IsSorted-map (p ∷ ps) h = (
  every-map (not_after by_rank p.item) ps ∙ every-imp _ _ ps (λ q k. ground arith) h.0,
  IsSorted-map ps h.1,
)

-- The items are in the order of their priorities, and those of one priority are the given ones of that
-- priority in their given order.
pub order_stable :
    (items : List Item) (r : ℕ)
    → IsSorted by_rank (order_dashboard_attention_items items)
      × (filter_by (has_rank r) (order_dashboard_attention_items items)
          ≡ filter_by (has_rank r) items)
unfolding order_dashboard_attention_items
order_stable items r =
    let placed = placed_from 0 items in
    let kept =
      filter_by-sort_by by_priority by_priority-Ordered (λ (p : Placed). has_rank r p.item) placed
        (placed_from-IsInOrder r 0 items) in
    (
      IsSorted-map (sort_by by_priority placed)
          (sort_by-IsSorted by_priority by_priority-Ordered placed),
      filter_by-map (has_rank r) (sort_by by_priority placed)
          ∙ ap (map item_of) kept
          ∙ sym (filter_by-map (has_rank r) placed)
          ∙ ap (filter_by (has_rank r)) (items_placed 0 items),
    )
