-- ===== src/Chat/Context/Evidence.antt =====
-- The assembled context against its blocks.
use mathlib.Core.List.{map}
use content_automation.Base.{
  ℕ, ◌+◌, ◌*◌, ◌≤◌, ◌<◌, max, String, Bool, true, false, ◌||◌, Option, List, [], ◌∷◌, ◌++◌, ◌≡◌,
  refl, ap, ◌∙◌, inl, inr, arith,
}
use content_automation.Base.Tests.{if◌then◌else◌, get_or, is_some, Bool-cases}
use content_automation.Base.Rows.{All, find_first, count_where}
use content_automation.Base.Lists.{length, length-append, Units, join}
use content_automation.Chat.Context.{
  Block, Assembly, Contract, cost, estimate_chat_tokens, render_block, render_blocks, distinct,
  all_evidence_ids, fit_blocks, nothing_fitted, assemble_chat_context, chat_context_token_budget,
}
use content_automation.Chat.Context.Budget.{
  Interleaved, sources, total_cost, first_cost, fit-Placed, fit_within,
}
use text.Mathlib.Text.{◌==◌ as str_eq}
use text.Mathlib.TextEquality.{eq_iff}

abbrev pub has : List String → String → Bool
has ids id = is_some (find_first (str_eq id) ids)

abbrev occurrences : String → List String → ℕ
occurrences id ids = count_where (str_eq id) ids

has-append :
    (ids : List String) (j id : String) → has (ids ++ j ∷ []) id ≡ (has ids id || str_eq id j)
unfolding find_first
has-append [] j id = ground arith
has-append (i ∷ ids) j id = ground (arith, has-append ids j id)

count-append :
    (ids : List String) (j id : String)
    → occurrences id (ids ++ j ∷ []) ≡ occurrences id ids + (if str_eq id j then 1 else 0)
unfolding count_where
count-append [] j id = ground arith
count-append (i ∷ ids) j id = ground (arith, count-append ids j id)

count_absent : (ids : List String) (id : String) → has ids id ≡ false → occurrences id ids ≡ 0
unfolding find_first count_where
count_absent [] id h = refl
count_absent (i ∷ ids) id h = ground (arith, count_absent ids id)

same_has :
    (ids : List String) (id j : String) → has ids j ≡ true → str_eq id j ≡ true → has ids id ≡ true
same_has ids id j h e = rw ((eq_iff id j).0 e) h

same_count :
    (ids : List String) (id j : String)
    → str_eq id j ≡ true
    → occurrences id ids ≡ occurrences j ids
same_count ids id j e = rw ((eq_iff id j).0 e) refl

distinct-has :
    (seen ids : List String) (id : String)
    → has (distinct seen ids) id ≡ (has seen id || has ids id)
unfolding distinct find_first
distinct-has seen [] id = ground arith
distinct-has seen (j ∷ ids) id = elim (Bool-cases (has seen j)) [
  | inl t ↦ rw t (ground (arith, distinct-has seen ids id, same_has seen id j t))
  | inr t ↦ rw t (ground (arith, distinct-has (seen ++ j ∷ []) ids id, has-append seen j id))
]

distinct-once :
    (seen ids : List String) (id : String)
    → occurrences id seen ≤ 1
    → occurrences id (distinct seen ids) ≤ 1
unfolding distinct
distinct-once seen [] id h = h
distinct-once seen (j ∷ ids) id h = elim (Bool-cases (has seen j)) [
  | inl t ↦ rw t (distinct-once seen ids id h)
  | inr t ↦ rw t (
      distinct-once (seen ++ j ∷ []) ids id
        (ground (arith, count-append seen j id, count_absent seen j t, same_count seen id j)))
]

citable_ids :
    (bs : List Block) (id : String)
    → has (distinct [] (all_evidence_ids bs)) id ≡ has (all_evidence_ids bs) id
unfolding find_first
citable_ids bs id = distinct-has [] (all_evidence_ids bs) id

listed_once : (ids : List String) (id : String) → occurrences id (distinct [] ids) ≤ 1
unfolding count_where
listed_once ids id = distinct-once [] ids id (omega arith)

separated :
    (b : Block) (bs : List Block)
    → length (join (10 ∷ 10 ∷ []) (map render_block (b ∷ bs))) + 2
      ≤ 3 * total_cost (b ∷ bs) + 2 * length (b ∷ bs)
unfolding join estimate_chat_tokens
separated b [] = omega arith
separated b (c ∷ bs) = omega (
  arith,
  length-append {0} (render_block b) (10 ∷ 10 ∷ join (10 ∷ 10 ∷ []) (map render_block (c ∷ bs))),
  separated c bs,
)

All-tokens :
    (budget : ℕ) (left : List Block) (spent total : ℕ)
    → spent ≡ total
    → All (λ b. budget < spent + cost b) left
    → All (λ b. budget < total + cost b) left
All-tokens budget left spent total e h = rw (← e) h

estimate_total :
    (bs : List Block) → estimate_chat_tokens (render_blocks bs) ≤ total_cost bs + length bs + 16
unfolding estimate_chat_tokens
estimate_total [] = omega arith
estimate_total (b ∷ bs) = omega (arith, separated b bs)

kept_estimate :
    (bs kept : List Block)
    → bs ≡ kept
    → estimate_chat_tokens (render_blocks bs) ≤ total_cost kept + length kept + 16
kept_estimate bs kept e = rw (← e) (estimate_total bs)

-- What the assembly of the blocks under a budget is made of.
pub record Assembled (budget : ℕ) (blocks : List Block) (a : Assembly) : Type 0 where
  pub kept : List Block
  pub left : List Block
  pub merged : Interleaved blocks kept left
  pub included : a.included_sources ≡ sources kept
  pub dropped : a.dropped_sources ≡ sources left
  pub text : a.text ≡ render_blocks kept
  pub within : total_cost kept ≤ max budget (first_cost blocks)
  pub estimate : a.token_estimate ≤ total_cost kept + length kept + 16
  pub unfit : All (λ b. budget < total_cost kept + cost b) left
  pub citable : (id : String) → has a.evidence_ids id ≡ has (all_evidence_ids kept) id
  pub once : (id : String) → occurrences id a.evidence_ids ≤ 1

-- Each block is either kept or dropped, in the order of the list; the blocks that are kept cost no more
-- than the budget, or than the first block alone; the reported estimate is above their cost by one for
-- each block at most, and sixteen for the text of an empty context; a dropped block would not have fitted beside the kept
-- ones; the text is that of the kept blocks; and the citable identifiers are just theirs, each once.
pub assembly-Assembled :
    (sha256 : Units → String) (contract : Contract) (blocks : List Block) (token_budget : Option ℕ)
    → Assembled
        (get_or token_budget chat_context_token_budget)
        blocks
        (assemble_chat_context sha256 contract blocks token_budget)
unfolding assemble_chat_context
assembly-Assembled sha256 contract blocks token_budget =
    let budget = get_or token_budget chat_context_token_budget in
    let p = fit-Placed budget blocks in
    record {
      kept = p.kept;
      left = p.left;
      merged = p.merged;
      included = ap sources p.included;
      dropped = p.dropped;
      text = ap render_blocks p.included;
      within = omega (arith, fit_within budget blocks, p.tokens);
      estimate = kept_estimate _ p.kept p.included;
      unfit = All-tokens budget p.left _ (total_cost p.kept) (omega (arith, p.tokens)) p.unfit;
      citable = λ id.
          citable_ids (fit_blocks budget blocks nothing_fitted).included id
          ∙ ap (λ (bs : List Block). has (all_evidence_ids bs) id) p.included;
      once = λ id.
          listed_once (all_evidence_ids (fit_blocks budget blocks nothing_fitted).included) id;
    }
