-- ===== src/Chat/Context/Budget.antt =====
-- What is included and what is dropped, and that it keeps to the budget.
use mathlib.Core.List.{map, append_assoc, append-nil}
use content_automation.Base.{
  ℕ, ◌+◌, ◌≤◌, ◌<◌, max, String, false, not, ◌&&◌, List, [], ◌∷◌, ◌++◌, ◌≡◌, refl, sym, ◌∙◌, inl,
  inr, arith,
}
use content_automation.Base.Tests.{ltb, Bool-cases}
use content_automation.Base.Rows.{All}
use content_automation.Chat.Context.{
  Block, Fit, cost, is_empty, include_block, drop_block, fit_blocks, nothing_fitted,
}

-- The whole list is the two others, merged in order.
pub data Interleaved : List Block → List Block → List Block → Type 0 where
  none_left : Interleaved [] [] []
  kept_first :
      (b : Block) (bs ks ls : List Block) → Interleaved bs ks ls → Interleaved (b ∷ bs) (b ∷ ks) ls
  left_first :
      (b : Block) (bs ks ls : List Block) → Interleaved bs ks ls → Interleaved (b ∷ bs) ks (b ∷ ls)

abbrev pub sources : List Block → List String
sources bs = map (λ (b : Block). b.source) bs

abbrev pub total_cost : List Block → ℕ
total_cost [] = 0
total_cost (b ∷ bs) = cost b + total_cost bs

-- From `f` the blocks led to `g`: some are kept, and the others did not fit in.
pub record Placed (budget : ℕ) (blocks : List Block) (f g : Fit) : Type 0 where
  pub kept : List Block
  pub left : List Block
  pub merged : Interleaved blocks kept left
  pub included : g.included ≡ f.included ++ kept
  pub dropped : g.dropped ≡ f.dropped ++ sources left
  pub tokens : g.tokens ≡ f.tokens + total_cost kept
  pub unfit : All (λ b. budget < g.tokens + cost b) left

fit_blocks-Placed :
    (budget : ℕ) (blocks : List Block) (f : Fit)
    → Placed budget blocks f (fit_blocks budget blocks f)
unfolding fit_blocks
fit_blocks-Placed budget [] f = record {
  kept = [];
  left = [];
  merged = none_left;
  included = sym (append-nil f.included);
  dropped = sym (append-nil f.dropped);
  tokens = omega arith;
  unfit = tt;
}
fit_blocks-Placed budget (b ∷ bs) f =
    elim (Bool-cases (not (is_empty f.included) && ltb budget (f.tokens + cost b))) [
      | inl t ↦
          let p = fit_blocks-Placed budget bs (drop_block b f) in
          rw t (record {
            kept = p.kept;
            left = b ∷ p.left;
            merged = left_first b bs p.kept p.left p.merged;
            included = p.included;
            dropped = p.dropped ∙ append_assoc f.dropped (b.source ∷ []) (sources p.left);
            tokens = p.tokens;
            unfit = (ground (arith, p.tokens), p.unfit);
          })
      | inr t ↦
          let p = fit_blocks-Placed budget bs (include_block b f) in
          rw t (record {
            kept = b ∷ p.kept;
            left = p.left;
            merged = kept_first b bs p.kept p.left p.merged;
            included = p.included ∙ append_assoc f.included (b ∷ []) p.kept;
            dropped = p.dropped;
            tokens = omega (arith, p.tokens);
            unfit = p.unfit;
          })
    ]

included_ne : (bs : List Block) (b : Block) → is_empty (bs ++ b ∷ []) ≡ false
included_ne [] b = refl
included_ne (c ∷ bs) b = refl

fit_blocks-within :
    (budget limit : ℕ) (blocks : List Block) (f : Fit)
    → is_empty f.included ≡ false
    → f.tokens ≤ limit
    → budget ≤ limit
    → (fit_blocks budget blocks f).tokens ≤ limit
unfolding fit_blocks
fit_blocks-within budget limit [] f n h k = h
fit_blocks-within budget limit (b ∷ bs) f n h k =
    elim (Bool-cases (not (is_empty f.included) && ltb budget (f.tokens + cost b))) [
      | inl t ↦ rw (t, fit_blocks) (fit_blocks-within budget limit bs (drop_block b f) n h k)
      | inr t ↦
          rw (t, fit_blocks)
            (fit_blocks-within budget limit bs (include_block b f) (included_ne f.included b)
              (ground arith) k)
    ]

-- What the first block costs.
abbrev pub first_cost : List Block → ℕ
first_cost [] = 0
first_cost (b ∷ bs) = cost b

pub fit_within :
    (budget : ℕ) (blocks : List Block)
    → (fit_blocks budget blocks nothing_fitted).tokens ≤ max budget (first_cost blocks)
unfolding fit_blocks
fit_within budget [] = omega arith
fit_within budget (b ∷ bs) =
    fit_blocks-within budget (max budget (cost b)) bs (include_block b nothing_fitted) refl
      (omega arith) (omega arith)

pub fit-Placed :
    (budget : ℕ) (blocks : List Block)
    → Placed budget blocks nothing_fitted (fit_blocks budget blocks nothing_fitted)
fit-Placed budget blocks = fit_blocks-Placed budget blocks nothing_fitted
