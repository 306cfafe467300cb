-- ===== src/Instagram/Scheduling/Capture.antt =====
-- What the scheduler captures is what the analytics accept.
use content_automation.Base.{ℕ, suc, ◌/◌, ◌≡◌, refl, String, true, false, some, List, ◌⊎◌, arith}
use content_automation.Domain.Number.{Number, nan, infinite, fraction, negative}
use content_automation.Analytics.Ages.{
  Bucket, AgeRange, snapshot_bucket_for, bucket_key, window_of, age_window_for, is_below, at_most,
}
use content_automation.Instagram.Scheduling.{Due, normalise_age, includes, snapshot_due_for}

-- The age lies in the tolerance.
pub record Inside (r : AgeRange) (x : Number) : Type 0 where
  pub reached : is_below x r.minimum_seconds ≡ false
  pub not_past : at_most x r.maximum_seconds ≡ true

pub record Sound (captured : List String) (x : Number) (d : Due) : Type 0 where
  pub age : d.post_age_seconds ≡ normalise_age x
  pub first : includes captured (bucket_key d.age_bucket) ≡ false
  pub inside : Inside (age_window_for (window_of d.age_bucket)) d.post_age_seconds

-- The bucket's own maximum is the window's.
bucket_fits :
    (x : Number)
    → at_most
        (normalise_age x)
        (age_window_for (window_of (snapshot_bucket_for (normalise_age x)))).maximum_seconds
      ≡ true
unfolding snapshot_bucket_for
bucket_fits nan = refl
bucket_fits (infinite true) = refl
bucket_fits (infinite false) = refl
bucket_fits (negative n d) = refl
bucket_fits (fraction n d) = ground arith

-- What is due is an observation of the post's age now, filed under a bucket that was not captured, and
-- inside the tolerance from which analytics select for that bucket.
pub due-Sound :
    (captured : List String) (x : Number) (d : Due)
    → snapshot_due_for captured x ≡ some d
    → Sound captured x d
unfolding snapshot_due_for
due-Sound captured x d h = let fits = bucket_fits x in ground arith

-- The age is past the minimum, which an earlier bucket may hold.
abbrev pub IsPast : Bucket → Number → Type 0
IsPast b age =
    (b ≡ Bucket.import)
    ⊎ (at_most age (some (age_window_for (window_of b)).minimum_seconds) ≡ false)

whole_bucket :
    (b : Bucket) (k : ℕ)
    → Inside (age_window_for (window_of b)) (fraction k 0)
    → IsPast b (fraction k 0)
    → snapshot_bucket_for (fraction k 0) ≡ b
unfolding snapshot_bucket_for
whole_bucket Bucket.import k i p = ground arith
whole_bucket Bucket.hour_1 k i p = ground arith
whole_bucket Bucket.day_1 k i p = ground arith
whole_bucket Bucket.day_3 k i p = ground arith
whole_bucket Bucket.day_7 k i p = ground arith
whole_bucket Bucket.day_30 k i p = ground arith
whole_bucket Bucket.mature k i p = ground arith

endless_bucket :
    (b : Bucket)
    → Inside (age_window_for (window_of b)) (infinite true)
    → snapshot_bucket_for (infinite true) ≡ b
unfolding snapshot_bucket_for
endless_bucket Bucket.mature i = refl
endless_bucket Bucket.import i = ground arith
endless_bucket Bucket.hour_1 i = ground arith
endless_bucket Bucket.day_1 i = ground arith
endless_bucket Bucket.day_3 i = ground arith
endless_bucket Bucket.day_7 i = ground arith
endless_bucket Bucket.day_30 i = ground arith

bucket_exact :
    (b : Bucket) (x : Number)
    → Inside (age_window_for (window_of b)) (normalise_age x)
    → IsPast b (normalise_age x)
    → snapshot_bucket_for (normalise_age x) ≡ b
bucket_exact b nan i p = whole_bucket b 0 i p
bucket_exact b (negative _ _) i p = whole_bucket b 0 i p
bucket_exact b (infinite true) i p = endless_bucket b i
bucket_exact b (infinite false) i p = whole_bucket b 0 i p
bucket_exact b (fraction n d) i p = whole_bucket b (n / suc d) i p

-- Where a bucket was not captured and the age is inside its tolerance, past the second that an earlier
-- bucket holds too, the post is due for that bucket at that age.
pub due_complete :
    (captured : List String) (x : Number) (b : Bucket)
    → includes captured (bucket_key b) ≡ false
    → Inside (age_window_for (window_of b)) (normalise_age x)
    → IsPast b (normalise_age x)
    → snapshot_due_for captured x
      ≡ some (record { age_bucket = b; post_age_seconds = normalise_age x })
unfolding snapshot_due_for
due_complete captured x b fresh i p = let e = bucket_exact b x i p in rw (e, fresh, i.reached) refl
