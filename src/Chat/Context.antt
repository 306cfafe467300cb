-- ===== src/Chat/Context.antt =====
-- assembleChatContext of packages/domain/src/chat-context.ts. A text is a list of UTF-16 code units,
-- and `sha256` stands for node's createHash("sha256") with its hexadecimal digest.
pub mod Fences
pub mod Budget
pub mod Evidence
use mathlib.Core.List.{map}
use content_automation.Base.{
  ℕ, ◌+◌, ◌/◌, String, Bool, true, false, not, ◌&&◌, Option, none, some, List, [], ◌∷◌, ◌++◌,
}
use content_automation.Base.Tests.{ltb, ◌==◌, if◌then◌else◌, get_or, is_some}
use content_automation.Base.Rows.{find_first}
use content_automation.Base.Lists.{length, Units, lines_of, join}
use content_automation.Base.Text.{codes}
use text.Mathlib.Text.{◌==◌ as str_eq}

-- ChatContextBlock
pub record Block : Type 0 where
  pub body : Units
  pub evidence_ids : List String
  pub source : String
  pub title : Units

-- ChatContextAssembly
pub record Assembly : Type 0 where
  pub dropped_sources : List String
  pub evidence_ids : List String
  pub hash : String
  pub included_sources : List String
  pub text : Units
  pub token_estimate : ℕ

-- The versions and digests of chat-contract.ts that the hash covers.
pub record Contract : Type 0 where
  pub schema_version : Units
  pub schema_sha256 : Units
  pub prompt_version : Units
  pub prompt_sha256 : Units

abbrev pub chat_context_token_budget : ℕ
chat_context_token_budget = 150_000

-- Math.ceil(text.length / charactersPerToken)
unfoldable pub estimate_chat_tokens : Units → ℕ
estimate_chat_tokens text = (length text + 2) / 3

-- line.startsWith("<<<")
abbrev pub is_fence : Units → Bool
is_fence (a ∷ b ∷ c ∷ cs) = a == b'<' && (b == b'<' && c == b'<')
is_fence _ = false

abbrev pub indent_fence : Units → Units
indent_fence line = if is_fence line then b' ' ∷ line else line

unfoldable pub neutralise_fences : Units → Units
neutralise_fences body = join (10 ∷ []) (map indent_fence (lines_of body))

unfoldable pub render_block : Block → Units
render_block block = codes "## " ++ (block.title ++ (10 ∷ neutralise_fences block.body))

abbrev pub cost : Block → ℕ
cost block = estimate_chat_tokens (render_block block)

-- included, dropped and tokens
pub record Fit : Type 0 where
  pub included : List Block
  pub dropped : List String
  pub tokens : ℕ

abbrev pub is_empty : List Block → Bool
is_empty [] = true
is_empty (b ∷ bs) = false

abbrev pub include_block : Block → Fit → Fit
include_block block f = record {
  included = f.included ++ block ∷ [];
  dropped = f.dropped;
  tokens = f.tokens + cost block;
}

abbrev pub drop_block : Block → Fit → Fit
drop_block block f = record f { dropped = f.dropped ++ block.source ∷ [] }

unfoldable pub fit_blocks : ℕ → List Block → Fit → Fit
fit_blocks budget [] f = f
fit_blocks budget (block ∷ blocks) f = fit_blocks budget blocks (
    if not (is_empty f.included) && ltb budget (f.tokens + cost block)
    then drop_block block f
    else include_block block f)

abbrev pub nothing_fitted : Fit
nothing_fitted = record { included = []; dropped = []; tokens = 0 }

-- [...new Set(ids)]: `seen` are the ids so far
unfoldable pub distinct : List String → List String → List String
distinct seen [] = seen
distinct seen (id ∷ ids) =
    distinct (if is_some (find_first (str_eq id) seen) then seen else seen ++ id ∷ []) ids

abbrev pub all_evidence_ids : List Block → List String
all_evidence_ids [] = []
all_evidence_ids (block ∷ blocks) = block.evidence_ids ++ all_evidence_ids blocks

abbrev pub render_blocks : List Block → Units
render_blocks [] = codes "(no context is available for this account yet)"
render_blocks blocks = join (10 ∷ 10 ∷ []) (map render_block blocks)

module _ (sha256 : Units → String) (contract : Contract) where
  abbrev pub create_chat_context_hash : Units → String
  create_chat_context_hash text = sha256 (
      join (10 ∷ []) (
        contract.schema_version ∷ contract.schema_sha256 ∷ contract.prompt_version
        ∷ contract.prompt_sha256 ∷ text ∷ []))

  unfoldable pub assemble_chat_context : List Block → Option ℕ → Assembly
  assemble_chat_context blocks token_budget =
      let fitted =
        fit_blocks (get_or token_budget chat_context_token_budget) blocks nothing_fitted in
      let text = render_blocks fitted.included in
      record {
        dropped_sources = fitted.dropped;
        evidence_ids = distinct [] (all_evidence_ids fitted.included);
        hash = create_chat_context_hash text;
        included_sources = map (λ (b : Block). b.source) fitted.included;
        text = text;
        token_estimate = estimate_chat_tokens text;
      }
