-- ===== src/Strategy/Evidence/Order.antt =====
-- The selection does not depend on the order in which the rows came back.
use Prim.Native.Nat.{eq}
use content_automation.Base.{true, List, ◌≡◌}
use content_automation.Base.Lists.{Units}
use content_automation.Base.Text.{all_printable}
use content_automation.Base.{true}
use content_automation.Base.Order.{Comparator}
use content_automation.Base.Order.Laws.{Ordered}
use content_automation.Domain.Number.{Number}
use content_automation.Strategy.Manifest.{EvidenceCandidate, Category, reference_key}

-- What the code relies on: localeCompare orders, and ties no two texts of printable ASCII.
pub record Collation (locale_compare : Comparator Units) : Type 0 where
  pub ordered : Ordered locale_compare
  pub exact :
      (s t : Units)
      → all_printable s ≡ true
      → all_printable t ≡ true
      → locale_compare s t ≡ eq
      → s ≡ t

module _ (locale_compare : Comparator Units) (locale : Collation locale_compare) where
  module _ (named : Category → Units → EvidenceCandidate) where
    -- The key is a type and a UUID, or printable all the same, and the candidate is the one of its
    -- category with its key.
    abbrev pub IsNamed : EvidenceCandidate → Type 0
    IsNamed c = (all_printable (reference_key c) ≡ true) × (named c.category (reference_key c) ≡ c)
