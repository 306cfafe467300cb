-- ===== src/Examples/Requests.antt =====
-- A statistic, a post that it speaks for, and another post.
use content_automation.Base.{String, true, false, Option, none, some, List, [], ◌∷◌, arith}
use content_automation.Base.Text.{codes}
use content_automation.Base.Lists.{Units}
use content_automation.Strategy.Evidence
use content_automation.Strategy.Evidence.{lacks_category}
use content_automation.Domain.Number.{Number, fraction, negative}
use content_automation.Strategy.Manifest
use content_automation.Strategy.Manifest.{
  recent_post, top_post, EvidenceCandidate, Category, EvidenceType,
}

abbrev candidate :
    Category → EvidenceType → Option Number → String → List String → EvidenceCandidate
candidate category evidence_type score reference post_ids = record {
  allowed_numeric_claims = [];
  allowed_roles = Manifest.context ∷ [];
  category = category;
  classification = none;
  dimensions = [];
  evidence_type = evidence_type;
  post_ids = post_ids;
  rank_score = score;
  reference_id = some (codes reference);
  required_in_limitations = false;
  retrieval_reason = "rank";
  sample_size = none;
  summary_text = codes "hook=question";
}

abbrev recent : EvidenceCandidate
recent = candidate Manifest.recent_post Manifest.post (some (fraction 0 0)) "p2" ("p2" ∷ [])

abbrev top : EvidenceCandidate
top = candidate Manifest.top_post Manifest.post (some (negative 0 0)) "p1" ("p1" ∷ [])

abbrev statistic : EvidenceCandidate
statistic =
    candidate Manifest.positive_statistic Manifest.feature_statistic (some (fraction 2 3)) "s1"
      ("p1" ∷ [])

abbrev candidates : List EvidenceCandidate
candidates = recent ∷ top ∷ statistic ∷ []

abbrev named : Category → Units → EvidenceCandidate
named category key = elim category [ recent_post ↦ recent | top_post ↦ top | _ ↦ statistic ]
