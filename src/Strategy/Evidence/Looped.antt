-- ===== src/Strategy/Evidence/Looped.antt =====
-- What the loop over the ordered candidates holds after each of them.
use content_automation.Base.{
  ◌≤◌, true, false, not, List, [], ◌∷◌, ◌≡◌, refl, inl, inr, arith, String, ap,
}
use content_automation.Base.Tests.{if◌then◌else◌, Bool-cases}
use content_automation.Base.Rows.{All, All-append, count_where}
use content_automation.Base.Lists.{Units}
use content_automation.Base.Order.{every}
use text.Mathlib.Text.{◌==◌ as str_eq}
use content_automation.Strategy.Evidence.{
  Loop, new_loop, trim_candidate, select, consider, consider_all, lacks_reference, lacks_posts,
}
use content_automation.Strategy.Manifest.{
  EvidenceCandidate, Category, in_category, is_post, is_statistic, same_units, reference_key,
  evidence_cap, posts_cap, statistics_cap, same_category,
}
use content_automation.Strategy.Evidence.Caps.{apart, AllApart, AllApart-snoc, Within}
use content_automation.Strategy.Evidence.Cases.{
  every-append, count_where-snoc, same_category-eq, Admissible, consider-cases,
}

pub record Selected (s : Loop) : Type 0 where
  pub counted : (k : Category) → s.per_category k ≡ count_where (in_category k) s.selected
  pub capped : (k : Category) → s.per_category k ≤ evidence_cap k
  pub statistics_counted : s.statistics ≡ count_where is_statistic s.selected
  pub statistics_capped : s.statistics ≤ statistics_cap
  pub posts_counted : s.posts ≡ count_where is_post s.selected
  pub posts_capped : s.posts ≤ posts_cap
  pub apart : AllApart s.selected
  pub seen :
      (key : Units)
      → lacks_reference s.seen_references key ≡ true
      → All (λ a. same_units (reference_key a) key ≡ false) s.selected
  pub claimed :
      (ids : List String)
      → lacks_posts s.claimed_posts ids ≡ true
      → All (λ a. lacks_posts a.post_ids ids ≡ true) s.selected

All-both {κ μ ν} :
    {P : EvidenceCandidate → Type κ} {Q : EvidenceCandidate → Type μ}
    {R : EvidenceCandidate → Type ν} (cs : List EvidenceCandidate)
    → ((c : EvidenceCandidate) → P c → Q c → R c)
    → All P cs
    → All Q cs
    → All R cs
All-both [] f h k = tt
All-both (c ∷ cs) f h k = (f c h.0 k.0, All-both cs f h.1 k.1)

All-true : (cs : List EvidenceCandidate) → All (λ c. true ≡ true) cs
All-true [] = tt
All-true (c ∷ cs) = (refl, All-true cs)

module _ (c : EvidenceCandidate) (s : Loop) (h : Selected s) (a : Admissible c s) where
  unclaimed_posts :
      All (λ b. (if is_post c then lacks_posts b.post_ids c.post_ids else true) ≡ true) s.selected
  unclaimed_posts = elim (Bool-cases (is_post c)) [
    | inr e ↦ rw e (All-true s.selected)
    | inl e ↦ rw e (h.claimed c.post_ids (ground (arith, a.unclaimed)))
  ]

  selected_apart : All (λ b. apart b c ≡ true) s.selected
  selected_apart =
      All-both s.selected (λ b p q. ground arith) (h.seen (reference_key c) a.fresh) unclaimed_posts

  counted_after :
      (k : Category)
      → (select c s).per_category k ≡ count_where (in_category k) (select c s).selected
  counted_after k = elim (Bool-cases (same_category c.category k)) [
    | inl e ↦ ground (
      arith,
      same_category-eq c.category k e,
      h.counted k,
      h.counted c.category,
      count_where-snoc (in_category k) s.selected c,
      ap s.per_category (same_category-eq c.category k e),
    )
    | inr e ↦ ground (arith, h.counted k, count_where-snoc (in_category k) s.selected c)
  ]

  capped_after : (k : Category) → (select c s).per_category k ≤ evidence_cap k
  capped_after k = elim (Bool-cases (same_category c.category k)) [
    | inl e ↦ let q = same_category-eq c.category k e in ground (arith, a.room, ap evidence_cap q)
    | inr e ↦ ground (arith, h.capped k)
  ]

  seen_after :
      (key : Units)
      → lacks_reference (select c s).seen_references key ≡ true
      → All (λ b. same_units (reference_key b) key ≡ false) (select c s).selected
  unfolding every
  seen_after key l =
      let both =
        every-append (λ r. not (same_units r key)) s.seen_references (reference_key c ∷ []) in
      All-append _ s.selected (c ∷ []) (h.seen key (ground (arith, both)))
        (ground (arith, both), tt)

  claimed_after :
      (ids : List String)
      → lacks_posts (select c s).claimed_posts ids ≡ true
      → All (λ b. lacks_posts b.post_ids ids ≡ true) (select c s).selected
  claimed_after ids l =
      let both =
        every-append (λ claimed. every (λ p. not (str_eq claimed p)) ids) s.claimed_posts
          c.post_ids in
      All-append _ s.selected (c ∷ []) (h.claimed ids (ground (arith, both)))
        (ground (arith, both), tt)

  select-Selected : Selected (select c s)
  select-Selected = record {
    counted = counted_after;
    capped = capped_after;
    statistics_counted =
        ground (arith, h.statistics_counted, count_where-snoc is_statistic s.selected c);
    statistics_capped = ground (arith, h.statistics_capped, a.statistic);
    posts_counted = ground (arith, h.posts_counted, count_where-snoc is_post s.selected c);
    posts_capped = ground (arith, h.posts_capped, a.post);
    apart = AllApart-snoc s.selected c h.apart selected_apart;
    seen = seen_after;
    claimed = claimed_after;
  }

trim_candidate-Selected :
    (c : EvidenceCandidate) (s : Loop) → Selected s → Selected (trim_candidate c s)
trim_candidate-Selected c s h = record {
  counted = h.counted;
  capped = h.capped;
  statistics_counted = h.statistics_counted;
  statistics_capped = h.statistics_capped;
  posts_counted = h.posts_counted;
  posts_capped = h.posts_capped;
  apart = h.apart;
  seen = h.seen;
  claimed = h.claimed;
}

pub consider_all-Selected :
    (cs : List EvidenceCandidate) (s : Loop) → Selected s → Selected (consider_all cs s)
unfolding consider_all
consider_all-Selected [] s h = h
consider_all-Selected (c ∷ cs) s h =
    consider_all-Selected cs (consider c s) (elim (consider-cases c s) [
      | inl e ↦ rw e (trim_candidate-Selected c s h)
      | inr (e, a) ↦ rw e (select-Selected c s h a)
    ])

new_loop-Selected : Selected new_loop
unfolding count_where
new_loop-Selected = record {
  counted = λ k. refl;
  capped = λ k. omega arith;
  statistics_counted = refl;
  statistics_capped = omega arith;
  posts_counted = refl;
  posts_capped = omega arith;
  apart = tt;
  seen = λ key e. tt;
  claimed = λ ids e. tt;
}

pub looped-Within : (cs : List EvidenceCandidate) → Within (consider_all cs new_loop).selected
looped-Within cs =
    let h = consider_all-Selected cs new_loop new_loop-Selected in
    record {
      caps = λ k. rw (← h.counted k) (h.capped k);
      statistics = rw (← h.statistics_counted) h.statistics_capped;
      posts = rw (← h.posts_counted) h.posts_capped;
      apart = h.apart;
    }
