-- ===== src/Analytics/Ages.antt =====
-- The storage buckets of packages/domain/src/instagram-insights.ts and the tolerance windows of
-- packages/domain/src/analytics-cohorts.ts: ages of a post, in seconds. A maximum that is absent is
-- POSITIVE_INFINITY.
use content_automation.Base.{
  ℕ, suc, ◌*◌, String, Bool, true, false, not, Option, none, some, List, [], ◌∷◌,
}
use content_automation.Base.Tests.{leb, ltb, if_found, if◌then◌else◌}
use content_automation.Base.Rows.{find_first}
use content_automation.Domain.Number.{Number, nan, infinite, fraction, negative}

-- InstagramSnapshotBucket
pub data Bucket : Type 0 where
  import hour_1 day_1 day_3 day_7 day_30 mature : Bucket

-- SnapshotAgeWindowKey
pub data AgeWindow : Type 0 where
  import hour_1 day_1 day_3 day_7 day_30 mature lifetime : AgeWindow

-- instagramSnapshotBuckets
abbrev pub bucket_maximum : Bucket → Option ℕ
bucket_maximum Bucket.import = some 1_800
bucket_maximum Bucket.hour_1 = some 7_200
bucket_maximum Bucket.day_1 = some 129_600
bucket_maximum Bucket.day_3 = some 345_600
bucket_maximum Bucket.day_7 = some 777_600
bucket_maximum Bucket.day_30 = some 3_456_000
bucket_maximum Bucket.mature = none

abbrev pub snapshot_buckets : List Bucket
snapshot_buckets =
    Bucket.import ∷ Bucket.hour_1 ∷ Bucket.day_1 ∷ Bucket.day_3 ∷ Bucket.day_7 ∷ Bucket.day_30
    ∷ Bucket.mature ∷ []

-- x <= maximum, for a number that is neither NaN nor below zero
abbrev pub at_most : Number → Option ℕ → Bool
at_most x none = true
at_most (fraction n d) (some m) = leb n (m * suc d)
at_most (infinite positive) (some m) = not positive
at_most (negative _ _) (some m) = true
at_most nan (some m) = false

-- x < minimum, the same
abbrev pub is_below : Number → ℕ → Bool
is_below (fraction n d) m = ltb n (m * suc d)
is_below (infinite positive) m = not positive
is_below (negative _ _) m = true
is_below nan m = false

-- Number.isNaN(x) || x < 0
abbrev pub is_unknown_age : Number → Bool
is_unknown_age nan = true
is_unknown_age (negative _ _) = true
is_unknown_age (infinite positive) = not positive
is_unknown_age (fraction _ _) = false

-- instagramSnapshotBucketFor
unfoldable pub snapshot_bucket_for : Number → Bucket
unfolding find_first
snapshot_bucket_for x =
    if is_unknown_age x
    then Bucket.import
    else if_found (find_first (λ b. at_most x (bucket_maximum b)) snapshot_buckets) Bucket.mature
        λ b. b

pub record AgeRange : Type 0 where
  pub target_seconds : Option ℕ
  pub minimum_seconds : ℕ
  pub maximum_seconds : Option ℕ

abbrev range : Option ℕ → ℕ → Option ℕ → AgeRange
range target lo hi = record { target_seconds = target; minimum_seconds = lo; maximum_seconds = hi }

-- snapshotAgeWindows and snapshotAgeWindowFor
abbrev pub age_window_for : AgeWindow → AgeRange
age_window_for AgeWindow.import = range none 0 (some 1_800)
age_window_for AgeWindow.hour_1 = range (some 3_600) 1_800 (some 7_200)
age_window_for AgeWindow.day_1 = range (some 86_400) 64_800 (some 129_600)
age_window_for AgeWindow.day_3 = range (some 259_200) 216_000 (some 345_600)
age_window_for AgeWindow.day_7 = range (some 604_800) 518_400 (some 777_600)
age_window_for AgeWindow.day_30 = range (some 2_592_000) 2_160_000 (some 3_456_000)
age_window_for AgeWindow.mature = range none 3_456_000 none
age_window_for AgeWindow.lifetime = range none 0 none

-- A bucket's key is a window's key.
abbrev pub window_of : Bucket → AgeWindow
window_of Bucket.import = AgeWindow.import
window_of Bucket.hour_1 = AgeWindow.hour_1
window_of Bucket.day_1 = AgeWindow.day_1
window_of Bucket.day_3 = AgeWindow.day_3
window_of Bucket.day_7 = AgeWindow.day_7
window_of Bucket.day_30 = AgeWindow.day_30
window_of Bucket.mature = AgeWindow.mature

abbrev pub bucket_key : Bucket → String
bucket_key Bucket.import = "import"
bucket_key Bucket.hour_1 = "hour_1"
bucket_key Bucket.day_1 = "day_1"
bucket_key Bucket.day_3 = "day_3"
bucket_key Bucket.day_7 = "day_7"
bucket_key Bucket.day_30 = "day_30"
bucket_key Bucket.mature = "mature"

-- snapshotAgeWindowMaturity: the place in snapshotAgeWindows
abbrev pub age_window_maturity : AgeWindow → ℕ
age_window_maturity AgeWindow.import = 0
age_window_maturity AgeWindow.hour_1 = 1
age_window_maturity AgeWindow.day_1 = 2
age_window_maturity AgeWindow.day_3 = 3
age_window_maturity AgeWindow.day_7 = 4
age_window_maturity AgeWindow.day_30 = 5
age_window_maturity AgeWindow.mature = 6
age_window_maturity AgeWindow.lifetime = 7
