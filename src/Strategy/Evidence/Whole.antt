-- ===== src/Strategy/Evidence/Whole.antt =====
-- What the selection of the evidence promises of its entries and of the categories that it reports.
use content_automation.Base.{true, List, ◌≡◌}
use content_automation.Base.Order.{filter_by}
use content_automation.Strategy.Evidence.{lacks_category}
use content_automation.Strategy.Manifest.{EvidenceCandidate, Category, EvidenceEntry, in_category}
use mathlib.Core.List.{map}

abbrev pub candidates_of : List EvidenceEntry → List EvidenceCandidate
candidates_of = map (λ (e : EvidenceEntry). e.candidate)

-- A category that is not in the set keeps all its candidates.
KeepsWhole : Category → List EvidenceCandidate → List EvidenceCandidate → List Category → Type 0
KeepsWhole k ordered kept trimmed =
    lacks_category trimmed k ≡ true
    → filter_by (in_category k) kept ≡ filter_by (in_category k) ordered
