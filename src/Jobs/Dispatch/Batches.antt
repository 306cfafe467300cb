-- ===== src/Jobs/Dispatch/Batches.antt =====
-- The batches that the outbox dispatcher of packages/db/src/background-jobs.ts leases.
use content_automation.Base.{
  ℕ, zero, suc, ◌+◌, ◌≤◌, min, ◌≡◌, inl, inr, Bool, true, false, List, [], ◌∷◌, arith, refl,
}
use content_automation.Base.{not, some, sym, ◌⊎◌}
use content_automation.Base.Tests.{opt_eq, Bool-cases}
use content_automation.Base.Order.{every, filter_by}
use content_automation.Base.Pointwise.{Pointwise, Pointwise-refl}
use text.Mathlib.TextEquality.{eq_iff}
use content_automation.Base.Rows.{count_where}
use content_automation.Jobs.Store.{Outbox}
use content_automation.Jobs.Dispatch.{
  DispatchOptions, is_candidate, take_lease, lease_rows, leased_rows, length,
}

leased_is_no_candidate :
    (d : DispatchOptions) (o : Outbox)
    → 1 ≤ d.lease_duration_ms
    → is_candidate d.now (take_lease d o) ≡ false
leased_is_no_candidate d o h = ground arith

-- It takes the smaller of its limit and the number of due rows, and leaves the other due rows.
pub lease_counts :
    (d : DispatchOptions) (limit : ℕ) (rows : List Outbox)
    → 1 ≤ d.lease_duration_ms
    → (length (leased_rows d limit rows) ≡ min limit (count_where (is_candidate d.now) rows))
      × (count_where (is_candidate d.now) (lease_rows d limit rows)
            + length (leased_rows d limit rows)
          ≡ count_where (is_candidate d.now) rows)
unfolding lease_rows leased_rows count_where
lease_counts d limit [] h = omega arith
lease_counts d zero (o ∷ rows) h = omega arith
lease_counts d (suc limit) (o ∷ rows) h = elim (Bool-cases (is_candidate d.now o)) [
  | inl t ↦
      let (taken, left) = lease_counts d limit rows h in
      let none_left = leased_is_no_candidate d o h in
      rw (t, none_left) (omega (arith, taken), omega (arith, left))
  | inr t ↦
      let (taken, left) = lease_counts d (suc limit) rows h in
      rw t (omega (arith, taken), rw t (omega (arith, left)))
]

-- A row stays as it is, or it was due and is leased: its lease is set for the duration, its count of
-- dispatches goes up by one, and nothing else changes.
abbrev pub Leases : DispatchOptions → Outbox → Outbox → Type 0
Leases d o after =
    (after ≡ o)
    ⊎ ((is_candidate d.now o ≡ true)
        × (after ≡ record o {
          lease_id = some d.lease_id;
          lease_expires_at = some (d.now + d.lease_duration_ms);
          dispatch_attempt_count = o.dispatch_attempt_count + 1;
        }))

abbrev pub holds : DispatchOptions → Outbox → Bool
holds d o = opt_eq o.lease_id (some d.lease_id)

lease_rows-Leases :
    (d : DispatchOptions) (limit : ℕ) (rows : List Outbox)
    → Pointwise (Leases d) rows (lease_rows d limit rows)
unfolding lease_rows
lease_rows-Leases d limit [] = tt
lease_rows-Leases d zero (o ∷ rows) = Pointwise-refl (Leases d) (λ r. inl refl) (o ∷ rows)
lease_rows-Leases d (suc limit) (o ∷ rows) = elim (Bool-cases (is_candidate d.now o)) [
  | inl t ↦ rw (t, lease_rows) (inr (t, refl), lease_rows-Leases d limit rows)
  | inr t ↦ rw (t, lease_rows) (inl refl, lease_rows-Leases d (suc limit) rows)
]

none_held :
    (d : DispatchOptions) (rows : List Outbox)
    → every (λ o. not (holds d o)) rows ≡ true
    → filter_by (holds d) rows ≡ []
unfolding filter_by every
none_held d [] h = refl
none_held d (o ∷ rows) h = ground (arith, none_held d rows)

leased-held :
    (d : DispatchOptions) (limit : ℕ) (rows : List Outbox)
    → every (λ o. not (holds d o)) rows ≡ true
    → leased_rows d limit rows ≡ filter_by (holds d) (lease_rows d limit rows)
unfolding lease_rows leased_rows filter_by every
leased-held d limit [] h = refl
leased-held d zero (o ∷ rows) h = sym (none_held d (o ∷ rows) h)
leased-held d (suc limit) (o ∷ rows) h = elim (Bool-cases (is_candidate d.now o)) [
  | inl t ↦ ground (arith, (eq_iff d.lease_id d.lease_id).1 refl, leased-held d limit rows)
  | inr t ↦ ground (arith, leased-held d (suc limit) rows)
]

-- Where no row holds the new lease yet, a lease of a batch changes rows as `Leases` says and no others,
-- returns just the rows that now hold the lease, in order, which are as many as the smaller of its limit
-- and the number of due rows, and leaves the other due rows due.
pub lease_partition :
    (d : DispatchOptions) (limit : ℕ) (rows : List Outbox)
    → 1 ≤ d.lease_duration_ms
    → every (λ o. not (holds d o)) rows ≡ true
    → Pointwise (Leases d) rows (lease_rows d limit rows)
      × (leased_rows d limit rows ≡ filter_by (holds d) (lease_rows d limit rows))
      × (length (leased_rows d limit rows) ≡ min limit (count_where (is_candidate d.now) rows))
      × (count_where (is_candidate d.now) (lease_rows d limit rows)
            + length (leased_rows d limit rows)
          ≡ count_where (is_candidate d.now) rows)
lease_partition d limit rows h fresh =
    let counts = lease_counts d limit rows h in
    (lease_rows-Leases d limit rows, leased-held d limit rows fresh, counts.0, counts.1)
