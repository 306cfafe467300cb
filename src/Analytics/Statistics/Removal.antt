-- ===== src/Analytics/Statistics/Removal.antt =====
-- What the leave-one-out refits of packages/domain/src/analytics-statistics.ts find out.
use Prim.Native.Nat.{Ordering}
use content_automation.Base.{
  ℕ, zero, suc, ◌≤◌, Bool, true, false, Option, none, some, List, [], ◌∷◌, ◌≡◌, ◌≢◌, refl, inl, inr,
  arith,
}
use content_automation.Base.Tests.{Bool-cases, Option-cases}
use content_automation.Base.Rows.{All}
use content_automation.Base.Lists.{length, without}
use content_automation.Base.Order.{sort_by, filter_by, every, head?}
use content_automation.Base.Order.Least.{sort_by-nil}
use content_automation.Domain.Number.{Number, is_finite}
use content_automation.Domain.Number.Arithmetic.{
  sub, div, magnitude, compare_numbers, lt_number, le_number,
}
use content_automation.Domain.Number.Arithmetic.Order.{
  le_number_trans, lt_number_le, lt_number-false, compare_numbers-Ordered,
}
use content_automation.Analytics.Spread.{Share, finite_values, percentile, median, half}
use content_automation.Analytics.Statistics.{
  Refits, refit_all, note_refit, lesser, same_sign, relative_effect, is_zero,
}

filter_by_all :
    (test : Number → Bool) (xs : List Number) → every test xs ≡ true → filter_by test xs ≡ xs
unfolding filter_by every
filter_by_all test [] h = refl
filter_by_all test (x ∷ xs) h = ground (arith, filter_by_all test xs)

pub every_filtered :
    (test : Number → Bool) (xs : List Number) → every test (filter_by test xs) ≡ true
unfolding filter_by every
every_filtered test [] = refl
every_filtered test (x ∷ xs) = ground (arith, every_filtered test xs)

pub finite_twice : (xs : List Number) → finite_values (finite_values xs) ≡ finite_values xs
finite_twice xs = filter_by_all is_finite (finite_values xs) (every_filtered is_finite xs)

every-without :
    (test : Number → Bool) (i : ℕ) (xs : List Number)
    → every test xs ≡ true
    → every test (without i xs) ≡ true
unfolding every without
every-without test i [] h = refl
every-without test zero (x ∷ xs) h = ground arith
every-without test (suc i) (x ∷ xs) h = ground (arith, every-without test i xs)

percentile-some :
    (xs : List Number) (f : Share) {x : Number}
    → head? xs ≡ some x
    → (m : Number) × (percentile xs f ≡ some m)
unfolding percentile
percentile-some [] f e = cc
percentile-some (x ∷ []) f e = (x, refl)
percentile-some (x ∷ y ∷ ys) f e = (_, refl)

-- Finite values have a median, where there are any.
median_some :
    (xs : List Number) → every is_finite xs ≡ true → xs ≢ [] → (m : Number) × (median xs ≡ some m)
unfolding median
median_some xs h n = elim (Option-cases (head? (sort_by compare_numbers xs))) [
  | inl e ↦ absurd (n (sort_by-nil compare_numbers compare_numbers-Ordered xs e))
  | inr (x, e) ↦
      rw (filter_by_all is_finite xs h) (percentile-some (sort_by compare_numbers xs) half e)
]

without-ne-nil : (i : ℕ) (xs : List Number) → 2 ≤ length xs → without i xs ≢ []
unfolding without
without-ne-nil i [] h e = ground arith
without-ne-nil zero (x ∷ xs) h e = ground arith
without-ne-nil (suc i) (x ∷ xs) h e = ground arith

-- A median without the value at `i` is on the same side of `c`, and at least `least` times its size away.
pub record Refit (original : Ordering) (c : Number) (group : List Number) (i : ℕ) : Type 0 where
  pub refit : Number
  pub is_median : median (without i group) ≡ some refit
  pub same_side : compare_numbers refit c ≡ original

pub record FarRefit (least c : Number) (group : List Number) (i : ℕ) : Type 0 where
  pub refit : Number
  pub is_median : median (without i group) ≡ some refit
  pub far :
      (e : Number) × (relative_effect refit c ≡ some e) × (le_number least (magnitude e) ≡ true)

same_sign_eq : (o p : Ordering) → same_sign o p ≡ true → o ≡ p
same_sign_eq o p h = ground arith

-- No effect that was noted is below `least`.
abbrev pub AtLeast : Number → Option Number → Type 0
AtLeast least none = Unit
AtLeast least (some m) = le_number least m ≡ true

AtLeast-lesser :
    (least : Number) (o : Option Number) (x : Number)
    → le_number least (lesser o x) ≡ true
    → AtLeast least o × (le_number least x ≡ true)
AtLeast-lesser least none x h = (tt, h)
AtLeast-lesser least (some m) x h = elim (Bool-cases (lt_number x m)) [
  | inl t ↦
      let low : le_number least x ≡ true = rw t at h in
      (le_number_trans least x m low (lt_number_le x m t), low)
  | inr t ↦
      let low : le_number least m ≡ true = rw t at h in
      (low, le_number_trans least m x low (lt_number-false x m t))
]

module _ (original : Ordering) (c : Number) (group : List Number)
    (finite : every is_finite group ≡ true) (two : 2 ≤ length group) where
  refit_median : (i : ℕ) → (m : Number) × (median (without i group) ≡ some m)
  refit_median i =
      median_some (without i group) (every-without is_finite i group finite)
        (without-ne-nil i group two)

  pub refits_preserve :
      (is : List ℕ) (r : Refits)
      → (refit_all original c group is r).preserves ≡ true
      → (r.preserves ≡ true) × All (Refit original c group) is
  unfolding refit_all
  refits_preserve [] r h = (h, tt)
  refits_preserve (i ∷ is) r h =
      let (m, e) = refit_median i in
      let rest = refits_preserve is (note_refit original c r m) (rw (e, refit_all) at h) in
      (
        ground arith,
        (
          record {
            refit = m;
            is_median = e;
            same_side = same_sign_eq (compare_numbers m c) original (ground arith);
          },
          rest.1,
        ),
      )

  module _ (least : Number) (nonzero : is_zero c ≡ false) where
    note_far :
        (r : Refits) (m : Number)
        → AtLeast least (note_refit original c r m).minimum
        → AtLeast least r.minimum
          × ((e : Number) × (relative_effect m c ≡ some e) × (le_number least (magnitude e) ≡ true))
    note_far r m h =
        let found : relative_effect m c ≡ some (div (sub m c) (magnitude c)) = rw nonzero refl in
        let split =
          AtLeast-lesser least r.minimum (magnitude (div (sub m c) (magnitude c)))
            (rw found at h) in
        (split.0, (_, found, split.1))

    pub refits_far :
        (is : List ℕ) (r : Refits)
        → AtLeast least (refit_all original c group is r).minimum
        → AtLeast least r.minimum × All (FarRefit least c group) is
    unfolding refit_all
    refits_far [] r h = (h, tt)
    refits_far (i ∷ is) r h =
        let (m, e) = refit_median i in
        let rest = refits_far is (note_refit original c r m) (rw (e, refit_all) at h) in
        let one = note_far r m rest.0 in
        (one.0, (record { refit = m; is_median = e; far = one.1 }, rest.1))
