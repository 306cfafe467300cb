-- ===== src/Instagram/Scheduling.antt =====
-- What is due, of packages/domain/src/instagram-scheduling.ts.
pub mod Capture
use content_automation.Base.{
  ℕ, suc, ◌/◌, String, Bool, true, false, ◌||◌, Option, none, some, List, [], ◌∷◌,
}
use content_automation.Base.Tests.{if◌then◌else◌, is_some}
use content_automation.Base.Rows.{find_first}
use content_automation.Domain.Number.{Number, nan, infinite, fraction, negative}
use content_automation.Analytics.Ages.{
  Bucket, AgeRange, snapshot_bucket_for, bucket_key, window_of, age_window_for, is_below,
}
use text.Mathlib.Text.{◌==◌ as str_eq}

-- InstagramSnapshotDue
pub record Due : Type 0 where
  pub age_bucket : Bucket
  pub post_age_seconds : Number

-- Number.isNaN(x) ? 0 : Math.max(0, Math.floor(x))
abbrev pub normalise_age : Number → Number
normalise_age nan = fraction 0 0
normalise_age (negative _ _) = fraction 0 0
normalise_age (infinite positive) = if positive then infinite true else fraction 0 0
normalise_age (fraction n d) = fraction (n / suc d) 0

-- capturedBuckets.includes(key)
abbrev pub includes : List String → String → Bool
includes keys key = is_some (find_first (str_eq key) keys)

unfoldable pub snapshot_due_for : List String → Number → Option Due
snapshot_due_for captured x =
    let age = normalise_age x in
    let bucket = snapshot_bucket_for age in
    if includes captured (bucket_key bucket)
    then none
    else if is_below age (age_window_for (window_of bucket)).minimum_seconds
    then none
    else some (record { age_bucket = bucket; post_age_seconds = age })
