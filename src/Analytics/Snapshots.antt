-- ===== src/Analytics/Snapshots.antt =====
-- selectComparableSnapshot of packages/domain/src/analytics-cohorts.ts. The age at capture is a whole
-- number of the database. `locale_compare` stands for String.prototype.localeCompare.
pub mod Choice
use Prim.Native.Nat.{compare, Ordering}
use content_automation.Base.{ℕ, ◌+◌, ◌-◌, String, Bool, ◌&&◌, Option, none, some, List}
use content_automation.Base.Tests.{leb, if_found}
use content_automation.Base.Order.{Comparator, ◌then_by◌, filter_by, sort_by, head?}
use content_automation.Domain.Number.{fraction}
use content_automation.Analytics.Ages.{AgeWindow, AgeRange, age_window_for, at_most}

-- ComparableSnapshotCandidate
pub record Snapshot : Type 0 where
  pub captured_at : ℕ
  pub post_age_seconds : ℕ
  pub post_id : String
  pub snapshot_id : String

abbrev pub is_inside : AgeRange → Snapshot → Bool
is_inside r s =
    leb r.minimum_seconds s.post_age_seconds
    && at_most (fraction s.post_age_seconds 0) r.maximum_seconds

-- Math.abs(a - b)
abbrev pub distance : ℕ → ℕ → ℕ
distance a b = (a - b) + (b - a)

module _ (locale_compare : Comparator String) where
  -- right.postAgeSeconds - left.postAgeSeconds || …
  abbrev pub by_maturity : Comparator Snapshot
  by_maturity left right =
      compare right.post_age_seconds left.post_age_seconds
      then_by compare left.captured_at right.captured_at
      then_by locale_compare left.snapshot_id right.snapshot_id

  abbrev pub by_distance : ℕ → Comparator Snapshot
  by_distance target left right =
      compare (distance left.post_age_seconds target) (distance right.post_age_seconds target)
      then_by compare left.post_age_seconds right.post_age_seconds
      then_by compare left.captured_at right.captured_at
      then_by locale_compare left.snapshot_id right.snapshot_id

  abbrev pub comparator_of : Option ℕ → Comparator Snapshot
  comparator_of none = by_maturity
  comparator_of (some target) = by_distance target

  unfoldable pub select_comparable_snapshot : List Snapshot → AgeWindow → Option Snapshot
  select_comparable_snapshot candidates window = head? (
      sort_by (comparator_of (age_window_for window).target_seconds)
        (filter_by (is_inside (age_window_for window)) candidates))
