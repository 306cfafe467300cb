-- ===== src/Strategy/Evidence/Cases.antt =====
-- What becomes of one candidate: it is trimmed, or selected under the conditions of the loop.
use content_automation.Base.{
  ℕ, suc, Bool, true, false, not, ◌&&◌, ◌⊎◌, List, [], ◌∷◌, ◌++◌, ◌≡◌, refl, inl, inr, arith, ap,
}
use content_automation.Base.Tests.{leb, ◌==◌, if◌then◌else◌, Bool-cases}
use content_automation.Base.Rows.{count_where}
use content_automation.Base.Order.{every}
use content_automation.Strategy.Evidence.{
  Loop, trim_candidate, select, consider, lacks_reference, lacks_posts,
}
use content_automation.Strategy.Manifest
use content_automation.Strategy.Manifest.{
  EvidenceCandidate, Category, in_category, is_post, is_statistic, same_units, reference_key,
  evidence_cap, posts_cap, statistics_cap, same_category, category_order,
}

pub every-append {ℓ} :
    {A : Type ℓ} (p : A → Bool) (xs ys : List A) → every p (xs ++ ys) ≡ (every p xs && every p ys)
unfolding every
every-append p [] ys = refl
every-append p (x ∷ xs) ys = ground (arith, every-append p xs ys)

pub count_where-snoc :
    (p : EvidenceCandidate → Bool) (cs : List EvidenceCandidate) (d : EvidenceCandidate)
    → count_where p (cs ++ d ∷ []) ≡ (if p d then suc (count_where p cs) else count_where p cs)
unfolding count_where
count_where-snoc p [] d = ground arith
count_where-snoc p (c ∷ cs) d = ground (arith, count_where-snoc p cs d)

category_at : ℕ → Category
category_at n =
    if n == 0
    then Manifest.positive_statistic
    else if n == 1
    then Manifest.negative_statistic
    else if n == 2
    then Category.counterexample
    else if n == 3
    then Manifest.top_post
    else if n == 4
    then Manifest.weak_post
    else if n == 5
    then Manifest.recent_post
    else if n == 6
    then Manifest.comparator_post
    else if n == 7
    then Manifest.distribution
    else if n == 8
    then Manifest.recent_strategy
    else Category.data_quality

category_at-order : (c : Category) → category_at (category_order c) ≡ c
unfolding category_at
category_at-order c = ground arith

pub same_category-eq : (a b : Category) → same_category a b ≡ true → a ≡ b
same_category-eq a b h =
    let e : category_order a ≡ category_order b = ground arith in
    cc (ap category_at e, category_at-order a, category_at-order b)

-- The conditions under which a candidate is selected.
pub record Admissible (c : EvidenceCandidate) (s : Loop) : Type 0 where
  pub fresh : lacks_reference s.seen_references (reference_key c) ≡ true
  pub room : leb (evidence_cap c.category) (s.per_category c.category) ≡ false
  pub statistic : (is_statistic c && leb statistics_cap s.statistics) ≡ false
  pub unclaimed : (is_post c && not (lacks_posts s.claimed_posts c.post_ids)) ≡ false
  pub post : (is_post c && leb posts_cap s.posts) ≡ false

pub consider-cases :
    (c : EvidenceCandidate) (s : Loop)
    → (consider c s ≡ trim_candidate c s) ⊎ ((consider c s ≡ select c s) × Admissible c s)
unfolding consider
consider-cases c s = elim (Bool-cases (lacks_reference s.seen_references (reference_key c))) [
  | inr e ↦ inl (rw e refl)
  | inl e ↦ elim (Bool-cases (leb (evidence_cap c.category) (s.per_category c.category))) [
    | inl f ↦ inl (rw e (rw f refl))
    | inr f ↦ elim (Bool-cases (is_statistic c && leb statistics_cap s.statistics)) [
      | inl g ↦ inl (rw e (rw f (rw g refl)))
      | inr g ↦ elim (Bool-cases (is_post c && not (lacks_posts s.claimed_posts c.post_ids))) [
        | inl h ↦ inl (rw e (rw f (rw g (rw h refl))))
        | inr h ↦ elim (Bool-cases (is_post c && leb posts_cap s.posts)) [
          | inl k ↦ inl (rw e (rw f (rw g (rw h (rw k refl)))))
          | inr k ↦ inr (
            rw e (rw f (rw g (rw h (rw k refl)))),
            record { fresh = e; room = f; statistic = g; unclaimed = h; post = k },
          )
        ]
      ]
    ]
  ]
]
