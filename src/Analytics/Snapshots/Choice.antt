-- ===== src/Analytics/Snapshots/Choice.antt =====
-- The snapshot that is chosen is the closest one in the tolerance, in whatever order the rows come.
use Prim.Native.Nat.{compare, eq}
use mathlib.Core.List.{Perm}
use content_automation.Base.{
  ℕ, String, Bool, true, false, not, ◌||◌, Option, none, some, List, [], ◌≡◌, ◌≢◌, refl, sym, ap,
  ◌∙◌, inl, inr, ◌⊎◌, arith,
}
use content_automation.Base.{◌&&◌}
use content_automation.Base.Text.{codes, all_printable}
use content_automation.Base.Tests.{ltb, ◌==◌, if_found, Option-cases}
use content_automation.Base.Order.{
  Comparator, is_gt, ◌then_by◌, filter_by, sort_by, head?, every, SameMembers, not_after,
}
use content_automation.Base.Order.Laws.{
  Ordered, by_number-Ordered, by_number_down-Ordered, then_by-Ordered, every-filter_by,
  filter_by-SameMembers, Perm-SameMembers,
}
use content_automation.Base.Order.Least.{
  every-imp, every-true, least_member, least_first, least_same, sort_by-nil,
}
use content_automation.Analytics.Ages.{AgeWindow, AgeRange, age_window_for}
use content_automation.Analytics.Snapshots.{
  Snapshot, is_inside, distance, comparator_of, select_comparable_snapshot,
}

-- What the code relies on: localeCompare orders, and ties no two texts of printable ASCII.
pub record Locale (locale_compare : Comparator String) : Type 0 where
  pub ordered : Ordered locale_compare
  pub exact :
      (s t : String)
      → all_printable (codes s) ≡ true
      → all_printable (codes t) ≡ true
      → locale_compare s t ≡ eq
      → s ≡ t

-- The identifiers of the database are UUIDs.
abbrev pub has_printable_id : Snapshot → Bool
has_printable_id s = all_printable (codes s.snapshot_id)

nothing_least :
    (cmp : Comparator Snapshot) (o : Ordered cmp) (xs ys : List Snapshot) (m : Snapshot)
    → SameMembers xs ys
    → xs ≡ []
    → head? (sort_by cmp ys) ≢ some m
unfolding every
nothing_least cmp o xs ys m same empty e =
    let none_in : every (λ s. false) xs ≡ true = rw empty refl in
    ground (arith, least_member cmp o ys m (λ s. false) e (sym (same (λ s. false)) ∙ none_in))

module _ (locale_compare : Comparator String) (locale : Locale locale_compare) where
  by_age-Ordered : Ordered (λ (a b : Snapshot). compare a.post_age_seconds b.post_age_seconds)
  by_age-Ordered = by_number-Ordered (λ (s : Snapshot). s.post_age_seconds)

  by_id-Ordered : Ordered (λ (a b : Snapshot). locale_compare a.snapshot_id b.snapshot_id)
  by_id-Ordered = record {
    flip = λ a b. locale.ordered.flip a.snapshot_id b.snapshot_id;
    trans = λ a b c. locale.ordered.trans a.snapshot_id b.snapshot_id c.snapshot_id;
  }

  by_capture-Ordered : Ordered (λ (a b : Snapshot).
      compare a.captured_at b.captured_at then_by locale_compare a.snapshot_id b.snapshot_id)
  by_capture-Ordered =
      then_by-Ordered _ _ (by_number-Ordered (λ (s : Snapshot). s.captured_at)) by_id-Ordered

  comparator-Ordered : (target : Option ℕ) → Ordered (comparator_of locale_compare target)
  comparator-Ordered none =
      then_by-Ordered _ _ (by_number_down-Ordered (λ (s : Snapshot). s.post_age_seconds))
        by_capture-Ordered
  comparator-Ordered (some t) =
      then_by-Ordered _ _ (by_number-Ordered (λ (s : Snapshot). distance s.post_age_seconds t))
        (then_by-Ordered _ _ by_age-Ordered by_capture-Ordered)

  tie_id :
      (target : Option ℕ) (m n : Snapshot)
      → has_printable_id m ≡ true
      → has_printable_id n ≡ true
      → comparator_of locale_compare target m n ≡ eq
      → m.snapshot_id ≡ n.snapshot_id
  tie_id none m n p q e = locale.exact m.snapshot_id n.snapshot_id p q (ground arith)
  tie_id (some t) m n p q e = locale.exact m.snapshot_id n.snapshot_id p q (ground arith)

  -- Nearer to the target, or as near and younger; without a target, older. Then the earlier capture,
  -- then an identifier that localeCompare does not put after the other.
  abbrev pub earlier : Snapshot → Snapshot → Bool
  earlier m c =
      ltb m.captured_at c.captured_at
      || (m.captured_at == c.captured_at
          && not (is_gt (locale_compare m.snapshot_id c.snapshot_id)))

  abbrev pub comes_first : Option ℕ → Snapshot → Snapshot → Bool
  comes_first none m c =
      ltb c.post_age_seconds m.post_age_seconds
      || (m.post_age_seconds == c.post_age_seconds && earlier m c)
  comes_first (some t) m c =
      ltb (distance m.post_age_seconds t) (distance c.post_age_seconds t)
      || (distance m.post_age_seconds t == distance c.post_age_seconds t
          && (ltb m.post_age_seconds c.post_age_seconds
              || (m.post_age_seconds == c.post_age_seconds && earlier m c)))

  not_after-comes_first :
      (target : Option ℕ) (m c : Snapshot)
      → not_after (comparator_of locale_compare target) m c ≡ true
      → comes_first target m c ≡ true
  not_after-comes_first none m c h = ground arith
  not_after-comes_first (some t) m c h = ground arith

  -- The chosen snapshot is one of the candidates, lies in the tolerance, and comes first of all the
  -- candidates in the tolerance.
  pub record Chosen (candidates : List Snapshot) (r : AgeRange) (m : Snapshot) : Type 0 where
    pub member : (test : Snapshot → Bool) → every test candidates ≡ true → test m ≡ true
    pub inside : is_inside r m ≡ true
    pub first :
        every (λ c. not (is_inside r c) || comes_first r.target_seconds m c) candidates ≡ true

  abbrev eligible : List Snapshot → AgeWindow → List Snapshot
  eligible candidates w = filter_by (is_inside (age_window_for w)) candidates

  select-Chosen :
      (candidates : List Snapshot) (w : AgeWindow) (m : Snapshot)
      → select_comparable_snapshot locale_compare candidates w ≡ some m
      → Chosen candidates (age_window_for w) m
  unfolding select_comparable_snapshot
  select-Chosen candidates w m e =
      let r = age_window_for w in
      let cmp = comparator_of locale_compare r.target_seconds in
      let o = comparator-Ordered r.target_seconds in
      record {
        member = λ test h. least_member cmp o (eligible candidates w) m test e (
            every-filter_by test _ candidates
            ∙ every-imp test _ candidates (λ c t. ground arith) h);
        inside = least_member cmp o (eligible candidates w) m (is_inside r) e (
            every-filter_by (is_inside r) _ candidates
            ∙ every-imp (λ c. true) _ candidates (λ c t. ground arith) (every-true candidates));
        first =
            every-imp (λ c. not (is_inside r c) || not_after cmp m c) _ candidates
              (λ c t. ground (arith, not_after-comes_first r.target_seconds m c))
              (sym (every-filter_by (not_after cmp m) (is_inside r) candidates)
                ∙ least_first cmp o (eligible candidates w) m e);
      }

  select-none :
      (candidates : List Snapshot) (w : AgeWindow)
      → select_comparable_snapshot locale_compare candidates w ≡ none
      → every (λ c. not (is_inside (age_window_for w) c)) candidates ≡ true
  unfolding select_comparable_snapshot every
  select-none candidates w e =
      let r = age_window_for w in
      let o = comparator-Ordered r.target_seconds in
      let nothing =
        sort_by-nil (comparator_of locale_compare r.target_seconds) o (eligible candidates w) e in
      every-imp (λ c. not (is_inside r c) || false) (λ c. not (is_inside r c)) candidates
        (λ c t. ground arith)
        (sym (every-filter_by (λ c. false) (is_inside r) candidates)
          ∙ ap (every (λ c. false)) nothing)

  -- Either no candidate lies in the tolerance and nothing is chosen, or a candidate in the tolerance is
  -- chosen that comes first: the closest to the target, then the younger, or without a target the
  -- oldest; then the earlier capture; then the identifier, by localeCompare, which orders.
  pub closest_snapshot :
      (candidates : List Snapshot) (w : AgeWindow)
      → ((select_comparable_snapshot locale_compare candidates w ≡ none)
          × (every (λ c. not (is_inside (age_window_for w) c)) candidates ≡ true))
        ⊎ ((m : Snapshot) × (select_comparable_snapshot locale_compare candidates w ≡ some m)
            × Chosen candidates (age_window_for w) m)
  closest_snapshot candidates w =
      elim (Option-cases (select_comparable_snapshot locale_compare candidates w)) [
        | inl e ↦ inl (e, select-none candidates w e)
        | inr (m, e) ↦ inr (m, e, select-Chosen candidates w m e)
      ]

  abbrev pub id_of : Option Snapshot → Option String
  id_of o = if_found o none λ s. some s.snapshot_id

  same_choice :
      (candidates others : List Snapshot) (w : AgeWindow)
      → every has_printable_id candidates ≡ true
      → SameMembers candidates others
      → id_of (select_comparable_snapshot locale_compare candidates w)
        ≡ id_of (select_comparable_snapshot locale_compare others w)
  unfolding select_comparable_snapshot
  same_choice candidates others w ids same =
      let target = (age_window_for w).target_seconds in
      let cmp = comparator_of locale_compare target in
      let o = comparator-Ordered target in
      let inside = filter_by-SameMembers (is_inside (age_window_for w)) candidates others same in
      elim (Option-cases (head? (sort_by cmp (eligible candidates w)))) [
        | inl e ↦ elim (Option-cases (head? (sort_by cmp (eligible others w)))) [
          | inl f ↦ rw (e, f) refl
          | inr (n, f) ↦ absurd (
              nothing_least cmp o (eligible candidates w) (eligible others w) n inside
                (sort_by-nil cmp o (eligible candidates w) e) f)
        ]
        | inr (m, e) ↦ elim (Option-cases (head? (sort_by cmp (eligible others w)))) [
          | inl f ↦ absurd (
              nothing_least cmp o (eligible others w) (eligible candidates w) m
                (λ p. sym (inside p)) (sort_by-nil cmp o (eligible others w) f) e)
          | inr (n, f) ↦
              rw (e, f)
                (ap some (
                  tie_id target m n ((select-Chosen candidates w m e).member has_printable_id ids)
                    ((select-Chosen others w n f).member has_printable_id
                      (sym (same has_printable_id) ∙ ids))
                    (least_same cmp o (eligible candidates w) (eligible others w) m n inside e f)))
        ]
      ]

  -- Where localeCompare orders and ties no two texts of printable ASCII, and the identifiers of the rows
  -- are such texts, the chosen row has the same identifier whatever the order of the rows, or there is
  -- none for each order.
  pub snapshot_order :
      (candidates others : List Snapshot) (w : AgeWindow)
      → every has_printable_id candidates ≡ true
      → Perm candidates others
      → id_of (select_comparable_snapshot locale_compare candidates w)
        ≡ id_of (select_comparable_snapshot locale_compare others w)
  snapshot_order candidates others w ids h =
      same_choice candidates others w ids (Perm-SameMembers h)
