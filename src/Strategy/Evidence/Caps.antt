-- ===== src/Strategy/Evidence/Caps.antt =====
-- The bounds of the selected evidence.
use content_automation.Base.{◌≤◌, Bool, true, not, ◌&&◌, List, [], ◌∷◌, ◌++◌, ◌≡◌, inl, inr, arith}
use content_automation.Base.Tests.{if◌then◌else◌, Bool-cases}
use content_automation.Base.Rows.{All, All-append, count_where}
use content_automation.Base.Order.{filter_by}
use content_automation.Strategy.Evidence.{lacks_posts, drop_category}
use content_automation.Strategy.Manifest.{
  EvidenceCandidate, Category, in_category, is_post, is_statistic, same_units, reference_key,
  evidence_cap, posts_cap, statistics_cap,
}

-- The later of two entries is another record, and if it is a post, the earlier one does not speak for
-- its posts.
abbrev pub apart : EvidenceCandidate → EvidenceCandidate → Bool
apart a b =
    not (same_units (reference_key a) (reference_key b))
    && (if is_post b then lacks_posts a.post_ids b.post_ids else true)

abbrev pub AllApart : List EvidenceCandidate → Type 0
AllApart [] = Unit
AllApart (c ∷ cs) = All (λ d. apart c d ≡ true) cs × AllApart cs

-- The caps of each category and of the manifest, and no observation twice.
pub record Within (cs : List EvidenceCandidate) : Type 0 where
  pub caps : (k : Category) → count_where (in_category k) cs ≤ evidence_cap k
  pub statistics : count_where is_statistic cs ≤ statistics_cap
  pub posts : count_where is_post cs ≤ posts_cap
  pub apart : AllApart cs

count_where-filter_by :
    (p test : EvidenceCandidate → Bool) (cs : List EvidenceCandidate)
    → count_where p (filter_by test cs) ≤ count_where p cs
unfolding count_where filter_by
count_where-filter_by p test [] = omega arith
count_where-filter_by p test (c ∷ cs) = ground (arith, count_where-filter_by p test cs)

All-filter_by {κ} :
    (P : EvidenceCandidate → Type κ) (test : EvidenceCandidate → Bool) (cs : List EvidenceCandidate)
    → All P cs
    → All P (filter_by test cs)
unfolding filter_by
All-filter_by P test [] h = h
All-filter_by P test (c ∷ cs) h = elim (Bool-cases (test c)) [
  | inl e ↦ rw e (h.0, All-filter_by P test cs h.1)
  | inr e ↦ rw e (All-filter_by P test cs h.1)
]

AllApart-filter_by :
    (test : EvidenceCandidate → Bool) (cs : List EvidenceCandidate)
    → AllApart cs
    → AllApart (filter_by test cs)
unfolding filter_by
AllApart-filter_by test [] h = h
AllApart-filter_by test (c ∷ cs) h = elim (Bool-cases (test c)) [
  | inl e ↦ rw e (All-filter_by _ test cs h.0, AllApart-filter_by test cs h.1)
  | inr e ↦ rw e (AllApart-filter_by test cs h.1)
]

pub AllApart-snoc :
    (cs : List EvidenceCandidate) (d : EvidenceCandidate)
    → AllApart cs
    → All (λ c. apart c d ≡ true) cs
    → AllApart (cs ++ d ∷ [])
AllApart-snoc [] d h k = (tt, tt)
AllApart-snoc (c ∷ cs) d h k = (All-append _ cs (d ∷ []) h.0 (k.0, tt), AllApart-snoc cs d h.1 k.1)

pub Within-drop_category :
    (k : Category) (cs : List EvidenceCandidate) → Within cs → Within (drop_category k cs)
Within-drop_category k cs w =
    let test = λ (c : EvidenceCandidate). not (in_category k c) in
    record {
      caps = λ j. omega (arith, count_where-filter_by (in_category j) test cs, w.caps j);
      statistics = omega (arith, count_where-filter_by is_statistic test cs, w.statistics);
      posts = omega (arith, count_where-filter_by is_post test cs, w.posts);
      apart = AllApart-filter_by test cs w.apart;
    }
