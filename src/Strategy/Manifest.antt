-- ===== src/Strategy/Manifest.antt =====
-- The records that a strategy may argue from, their caps and their order, of
-- packages/domain/src/strategy-request.ts, with the taxonomy of packages/domain/src/strategy-contract.ts.
-- A rank score is a finite number. `locale_compare` stands for
-- String.prototype.localeCompare in English.
use Prim.Native.Nat.{compare, Ordering, lt, gt}
use content_automation.Base.{ℕ, String, Bool, true, false, Option, none, some, List, ◌++◌}
use content_automation.Base.Tests.{◌==◌, get_or}
use content_automation.Base.Text.{codes}
use content_automation.Base.Lists.{Units}
use content_automation.Domain.Number.{Number}
use content_automation.Domain.Number.Arithmetic.{compare_numbers}
use content_automation.Base.Order.{Comparator, reverse, ◌then_by◌}
use content_automation.Base.Order.Text.{compare_codes}

-- strategyTaxonomy.evidenceRole, evidenceType, evidenceClass and claimDimension
pub data EvidenceRole : Type 0 where
  supporting counterexample limitation context : EvidenceRole

pub data EvidenceType : Type 0 where
  feature_statistic post_analysis metric_snapshot post data_quality : EvidenceType
  recent_recommendation : EvidenceType

pub data EvidenceClass : Type 0 where
  statistically_supported_association moderate_association : EvidenceClass
  weak_directional_signal single_post_outlier insufficient_evidence : EvidenceClass
  unsupported creative_recommendation : EvidenceClass

pub data ClaimDimension : Type 0 where
  topic topic_saturation hook format duration editing_or_pacing cta : ClaimDimension
  presenter_mode visual_approach content_pillar other : ClaimDimension

-- strategyEvidenceCategories, in precedence order
pub data Category : Type 0 where
  positive_statistic negative_statistic counterexample top_post weak_post : Category
  recent_post comparator_post distribution recent_strategy data_quality : Category

abbrev pub category_order : Category → ℕ
category_order positive_statistic = 0
category_order negative_statistic = 1
category_order counterexample = 2
category_order top_post = 3
category_order weak_post = 4
category_order recent_post = 5
category_order comparator_post = 6
category_order distribution = 7
category_order recent_strategy = 8
category_order data_quality = 9

-- strategyEvidenceCaps
abbrev pub evidence_cap : Category → ℕ
evidence_cap positive_statistic = 8
evidence_cap negative_statistic = 6
evidence_cap counterexample = 4
evidence_cap top_post = 20
evidence_cap weak_post = 12
evidence_cap recent_post = 30
evidence_cap comparator_post = 20
evidence_cap distribution = 1
evidence_cap recent_strategy = 3
evidence_cap data_quality = 8

-- strategyManifestCaps
abbrev pub posts_cap : ℕ
posts_cap = 60

abbrev pub statistics_cap : ℕ
statistics_cap = 20

-- strategyInputTokenBudget
abbrev pub input_token_budget : ℕ
input_token_budget = 120_000

-- categoryPrefixes
abbrev pub category_prefix : Category → String
category_prefix comparator_post = "post_cmp"
category_prefix counterexample = "counter"
category_prefix data_quality = "quality"
category_prefix distribution = "dist"
category_prefix negative_statistic = "stat_neg"
category_prefix positive_statistic = "stat_pos"
category_prefix recent_post = "post_recent"
category_prefix recent_strategy = "prior"
category_prefix top_post = "post_top"
category_prefix weak_post = "post_weak"

abbrev pub type_text : EvidenceType → String
type_text feature_statistic = "feature_statistic"
type_text post_analysis = "post_analysis"
type_text metric_snapshot = "metric_snapshot"
type_text post = "post"
type_text data_quality = "quality"
type_text recent_recommendation = "recent_recommendation"

-- StrategyEvidenceCandidate
pub record EvidenceCandidate : Type 0 where
  pub allowed_numeric_claims : List String
  pub allowed_roles : List EvidenceRole
  pub category : Category
  pub classification : Option EvidenceClass
  pub dimensions : List ClaimDimension
  pub evidence_type : EvidenceType
  pub post_ids : List String
  pub rank_score : Option Number  -- finite
  pub reference_id : Option Units
  pub required_in_limitations : Bool
  pub retrieval_reason : String
  pub sample_size : Option ℕ
  pub summary_text : Units

-- StrategyEvidenceEntry
pub record EvidenceEntry : Type 0 where
  pub candidate : EvidenceCandidate
  pub evidence_key : Units
  pub rank : ℕ

-- StrategyEvidenceSelection
pub record EvidenceSelection : Type 0 where
  pub entries : List EvidenceEntry
  pub trimmed : List Category

abbrev pub reference_key : EvidenceCandidate → Units
reference_key c =
    codes (type_text c.evidence_type) ++ (codes ":" ++ get_or c.reference_id c.summary_text)

-- The scores, where null is Number.NEGATIVE_INFINITY.
abbrev pub compare_ranks : Comparator (Option Number)
compare_ranks none none = Ordering.eq
compare_ranks none (some b) = lt
compare_ranks (some a) none = gt
compare_ranks (some a) (some b) = compare_numbers a b

module _ (locale_compare : Comparator Units) where
  abbrev pub compare_candidates : Comparator EvidenceCandidate
  compare_candidates a b =
      reverse (compare_ranks a.rank_score b.rank_score)
      then_by locale_compare (reference_key a) (reference_key b)

  abbrev pub by_precedence : Comparator EvidenceCandidate
  by_precedence a b =
      compare (category_order a.category) (category_order b.category) then_by compare_candidates a b

abbrev pub is_statistic : EvidenceCandidate → Bool
is_statistic c = elim c.evidence_type [ feature_statistic ↦ true | _ ↦ false ]

abbrev pub is_post : EvidenceCandidate → Bool
is_post c = elim c.evidence_type [ post ↦ true | post_analysis ↦ true | _ ↦ false ]

abbrev pub same_category : Category → Category → Bool
same_category a b = category_order a == category_order b

abbrev pub in_category : Category → EvidenceCandidate → Bool
in_category k c = same_category c.category k

abbrev pub same_units : Units → Units → Bool
same_units a b = elim (compare_codes a b) [ Ordering.eq ↦ true | _ ↦ false ]
