-- ===== src/Strategy/Evidence.antt =====
-- selectStrategyEvidence of packages/domain/src/strategy-request.ts.
pub mod Budget
pub mod Caps
pub mod Cases
pub mod Looped
pub mod Order
pub mod Whole
use Prim.Native.Nat.{compare, Ordering, lt, gt, ◌%◌}
use content_automation.Base.{
  ℕ, zero, suc, ◌+◌, ◌*◌, ◌/◌, String, Bool, true, false, not, ◌&&◌, ◌||◌, Option, none, some, List,
  [], ◌∷◌, ◌++◌,
}
use content_automation.Base.Tests.{ltb, leb, ◌==◌, if◌then◌else◌, if_found, get_or}
use content_automation.Base.Text.{codes}
use content_automation.Base.Lists.{Units, length, join}
use content_automation.Base.Order.{Comparator, reverse, ◌then_by◌, sort_by, filter_by, every}
use content_automation.Base.Order.Text.{compare_codes}
use mathlib.Core.List.{map}
use text.Mathlib.Text.{◌==◌ as str_eq}
use content_automation.Strategy.Manifest.{
  EvidenceRole, EvidenceType, EvidenceClass, ClaimDimension, Category, category_order, evidence_cap,
  posts_cap, statistics_cap, input_token_budget, category_prefix, type_text, EvidenceCandidate,
  EvidenceEntry, EvidenceSelection, reference_key, compare_candidates, by_precedence, is_statistic,
  is_post, same_category, in_category, same_units,
}

-- The sets of the loop, as lists of what was added: !set.has(key)
abbrev pub lacks_category : List Category → Category → Bool
lacks_category set k = every (λ c. not (same_category c k)) set

abbrev pub lacks_reference : List Units → Units → Bool
lacks_reference set key = every (λ r. not (same_units r key)) set

-- !postIds.some((postId) => set.has(postId))
abbrev pub lacks_posts : List String → List String → Bool
lacks_posts set post_ids = every (λ claimed. every (λ p. not (str_eq claimed p)) post_ids) set

-- trimmed.add(category)
abbrev pub add_category : Category → List Category → List Category
add_category k set = if lacks_category set k then set ++ k ∷ [] else set

-- What the loop over the ordered candidates changes.
pub record Loop : Type 0 where
  pub trimmed : List Category
  pub seen_references : List Units
  pub claimed_posts : List String
  pub per_category : Category → ℕ
  pub selected : List EvidenceCandidate
  pub posts : ℕ
  pub statistics : ℕ

abbrev pub new_loop : Loop
new_loop = record {
  trimmed = [];
  seen_references = [];
  claimed_posts = [];
  per_category = λ k. 0;
  selected = [];
  posts = 0;
  statistics = 0;
}

abbrev pub trim_candidate : EvidenceCandidate → Loop → Loop
trim_candidate c s = record s { trimmed = add_category c.category s.trimmed }

abbrev pub select : EvidenceCandidate → Loop → Loop
select c s = record {
  trimmed = s.trimmed;
  seen_references = s.seen_references ++ reference_key c ∷ [];
  claimed_posts = s.claimed_posts ++ c.post_ids;
  per_category =
      λ k. if same_category c.category k then suc (s.per_category c.category) else s.per_category k;
  selected = s.selected ++ c ∷ [];
  posts = if is_post c then suc s.posts else s.posts;
  statistics = if is_statistic c then suc s.statistics else s.statistics;
}

-- The body of the loop.
unfoldable pub consider : EvidenceCandidate → Loop → Loop
consider c s =
    if not (lacks_reference s.seen_references (reference_key c))
    then trim_candidate c s
    else if leb (evidence_cap c.category) (s.per_category c.category)
    then trim_candidate c s
    else if is_statistic c && leb statistics_cap s.statistics
    then trim_candidate c s
    else if is_post c && not (lacks_posts s.claimed_posts c.post_ids)
    then trim_candidate c s
    else if is_post c && leb posts_cap s.posts
    then trim_candidate c s
    else select c s

unfoldable pub consider_all : List EvidenceCandidate → Loop → Loop
consider_all [] s = s
consider_all (c ∷ cs) s = consider_all cs (consider c s)

-- renderCandidates
abbrev pub render_candidates : List EvidenceCandidate → Units
render_candidates cs = join (10 ∷ []) (map (λ (c : EvidenceCandidate). c.summary_text) cs)

-- Math.ceil(text.length / charactersPerToken)
abbrev pub estimate_prompt_tokens : Units → ℕ
estimate_prompt_tokens text = (length text + 2) / 3

unfoldable pub last_candidate : List EvidenceCandidate → Option EvidenceCandidate
last_candidate [] = none
last_candidate (c ∷ []) = some c
last_candidate (c ∷ d ∷ cs) = last_candidate (d ∷ cs)

-- The test of the loop of applyTokenBudget.
unfoldable pub is_over : ℕ → List EvidenceCandidate → Bool
is_over budget kept =
    ltb 0 (length kept) && ltb budget (estimate_prompt_tokens (render_candidates kept))

abbrev pub drop_category : Category → List EvidenceCandidate → List EvidenceCandidate
drop_category k = filter_by (λ c. not (in_category k c))

-- applyTokenBudget, on a count of rounds: what is kept, and what is trimmed.
unfoldable pub apply_token_budget :
    ℕ → ℕ → List EvidenceCandidate → List Category → List EvidenceCandidate × List Category
apply_token_budget zero budget kept trimmed = (kept, trimmed)
apply_token_budget (suc n) budget kept trimmed = elim (is_over budget kept) [
  | false ↦ (kept, trimmed)
  | true ↦
      if_found (last_candidate kept) (kept, trimmed)
        λ last.
          apply_token_budget n budget (drop_category last.category kept)
            (add_category last.category trimmed)
]

-- String(n), for a safe integer
unfoldable pub decimal : ℕ → ℕ → Units → Units
decimal zero n rest = rest
decimal (suc fuel) n rest =
    let more = decimal fuel (n / 10) ((48 + n % 10) ∷ rest) in
    if ltb n 10 then (48 + n) ∷ rest else more

abbrev pub evidence_key_of : Category → ℕ → Units
evidence_key_of k rank = codes (category_prefix k) ++ (codes "_" ++ decimal 16 rank [])

-- The entries with their ranks, from the ranks given so far.
unfoldable pub number_entries : (Category → ℕ) → List EvidenceCandidate → List EvidenceEntry
number_entries ranks [] = []
number_entries ranks (c ∷ cs) =
    record {
      candidate = c;
      evidence_key = evidence_key_of c.category (ranks c.category);
      rank = ranks c.category;
    }
    ∷ number_entries (λ k. if same_category c.category k then suc (ranks c.category) else ranks k)
        cs

unfoldable pub select_strategy_evidence :
    Comparator Units → List EvidenceCandidate → Option ℕ → EvidenceSelection
select_strategy_evidence locale_compare candidates token_budget =
    let looped = consider_all (sort_by (by_precedence locale_compare) candidates) new_loop in
    let within =
      apply_token_budget (length looped.selected) (get_or token_budget input_token_budget)
        looped.selected looped.trimmed in
    record {
      entries = number_entries (λ k. 0) within.0;
      trimmed = sort_by (λ a b. compare (category_order a) (category_order b)) within.1;
    }
