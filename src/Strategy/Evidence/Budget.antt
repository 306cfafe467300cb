-- ===== src/Strategy/Evidence/Budget.antt =====
-- applyTokenBudget ends.
use content_automation.Base.{
  ℕ, zero, suc, ◌≤◌, ◌<◌, Bool, false, not, none, some, List, [], ◌∷◌, ◌≡◌, refl, inl, inr, arith,
}
use content_automation.Base.Tests.{Bool-cases, Option-cases}
use content_automation.Base.Lists.{length}
use content_automation.Base.Order.{filter_by}
use content_automation.Strategy.Evidence.{
  last_candidate, is_over, drop_category, add_category, apply_token_budget,
}
use content_automation.Strategy.Manifest.{EvidenceCandidate, Category, in_category}

length-filter_by :
    (test : EvidenceCandidate → Bool) (cs : List EvidenceCandidate)
    → length (filter_by test cs) ≤ length cs
unfolding filter_by
length-filter_by test [] = omega arith
length-filter_by test (c ∷ cs) = ground (arith, length-filter_by test cs)

-- Without the last one it is shorter.
filter_by-shorter :
    (test : EvidenceCandidate → Bool) (cs : List EvidenceCandidate) {c : EvidenceCandidate}
    → last_candidate cs ≡ some c
    → test c ≡ false
    → length (filter_by test cs) < length cs
unfolding filter_by last_candidate
filter_by-shorter test [] e h = cc
filter_by-shorter test (d ∷ []) e h = ground arith
filter_by-shorter test (d ∷ b ∷ cs) e h =
    ground (arith, filter_by-shorter test (b ∷ cs) e h, length-filter_by test (b ∷ cs))

drop_category-shorter :
    (cs : List EvidenceCandidate) {c : EvidenceCandidate}
    → last_candidate cs ≡ some c
    → length (drop_category c.category cs) < length cs
drop_category-shorter cs {c} e =
    filter_by-shorter (λ d. not (in_category c.category d)) cs e (ground arith)

last_candidate-none : (cs : List EvidenceCandidate) → last_candidate cs ≡ none → cs ≡ []
unfolding last_candidate
last_candidate-none [] e = refl
last_candidate-none (c ∷ []) e = cc
last_candidate-none (c ∷ d ∷ cs) e = let h = last_candidate-none (d ∷ cs) e in ground (arith, h)

not-is_over-nil : (budget : ℕ) → is_over budget [] ≡ false
unfolding is_over
not-is_over-nil budget = refl

nil_of_length : (cs : List EvidenceCandidate) → length cs ≤ 0 → cs ≡ []
nil_of_length [] h = refl
nil_of_length (c ∷ cs) h = absurd (omega arith)

-- What a round keeps, the loop keeps.
pub token_budget_keeps {κ} :
    (P : List EvidenceCandidate → List Category → Type κ)
    → ((kept : List EvidenceCandidate) (trimmed : List Category) (k : Category)
        → P kept trimmed
        → P (drop_category k kept) (add_category k trimmed))
    → (n budget : ℕ) (kept : List EvidenceCandidate) (trimmed : List Category) → P kept trimmed
    → P (apply_token_budget n budget kept trimmed).0 (apply_token_budget n budget kept trimmed).1
unfolding apply_token_budget
token_budget_keeps P round zero budget kept trimmed h = h
token_budget_keeps P round (suc n) budget kept trimmed h = elim (Bool-cases (is_over budget kept)) [
  | inl over ↦ elim (Option-cases (last_candidate kept)) [
    | inl e ↦ rw (over, apply_token_budget) (rw e h)
    | inr (c, e) ↦
        let rest =
          token_budget_keeps P round n budget (drop_category c.category kept)
            (add_category c.category trimmed) (round kept trimmed c.category h) in
        rw (over, apply_token_budget) (rw e rest)
  ]
  | inr under ↦ rw (under, apply_token_budget) h
]

-- Every round takes a candidate away, so that as many rounds as there are candidates are enough: the
-- loop ends by its own test.
pub token_budget_ends :
    (n budget : ℕ) (kept : List EvidenceCandidate) (trimmed : List Category)
    → length kept ≤ n
    → is_over budget (apply_token_budget n budget kept trimmed).0 ≡ false
unfolding apply_token_budget
token_budget_ends zero budget kept trimmed h = rw (nil_of_length kept h) (not-is_over-nil budget)
token_budget_ends (suc n) budget kept trimmed h = elim (Bool-cases (is_over budget kept)) [
  | inl over ↦ elim (Option-cases (last_candidate kept)) [
    | inl e ↦ absurd (ground (arith, last_candidate-none kept e, not-is_over-nil budget))
    | inr (c, e) ↦
        let ends =
          token_budget_ends n budget (drop_category c.category kept)
            (add_category c.category trimmed) (omega (arith, drop_category-shorter kept e)) in
        rw (over, apply_token_budget) (rw e ends)
  ]
  | inr under ↦ rw (under, apply_token_budget) under
]
