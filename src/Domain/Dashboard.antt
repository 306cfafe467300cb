-- ===== src/Domain/Dashboard.antt =====
-- What needs attention, in order, of packages/domain/src/dashboard.ts.
pub mod Stable
use Prim.Native.Nat.{compare}
use content_automation.Base.{
  ℕ, suc, ◌-◌, String, Bool, true, false, Option, none, some, List, [], ◌∷◌,
}
use content_automation.Base.Tests.{ltb}
use content_automation.Base.Order.{Comparator, ◌then_by◌, sort_by}
use mathlib.Core.List.{map}

-- dashboardAttentionPriorities
pub data Priority : Type 0 where
  blocking security manual_action information : Priority

-- attentionPriorityRank
abbrev pub priority_rank : Priority → ℕ
priority_rank blocking = 0
priority_rank security = 1
priority_rank manual_action = 2
priority_rank information = 3

-- DashboardAttentionItem
pub record Item : Type 0 where
  pub action : Option (String × String)
  pub detail : String
  pub id : String
  pub priority : Priority
  pub title : String

pub record Placed : Type 0 where
  pub item : Item
  pub original_index : ℕ

unfoldable pub placed_from : ℕ → List Item → List Placed
placed_from start [] = []
placed_from start (x ∷ xs) =
    record { item = x; original_index = start } ∷ placed_from (suc start) xs

abbrev pub by_priority : Comparator Placed
by_priority a b =
    compare (priority_rank a.item.priority) (priority_rank b.item.priority)
    then_by compare a.original_index b.original_index

abbrev pub item_of : Placed → Item
item_of p = p.item

unfoldable pub order_dashboard_attention_items : List Item → List Item
order_dashboard_attention_items items = map item_of (sort_by by_priority (placed_from 0 items))

-- now.getTime() - updatedAt.getTime() > staleAfterMilliseconds
abbrev pub is_stale : ℕ → ℕ → ℕ → Bool
is_stale updated_at now stale_after = ltb stale_after (now - updated_at)
