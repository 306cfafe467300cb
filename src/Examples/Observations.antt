-- ===== src/Examples/Observations.antt =====
-- Posts of different ages, what is due for them, and which observations are compared.
use mathlib.Core.List.Perm
use content_automation.Base.{◌≡◌, refl, true, some, none, List, [], ◌∷◌, inr, ◌⊎◌, not, String}
use content_automation.Base.Rows.{find_first}
use content_automation.Base.Text.{all_printable}
use content_automation.Base.Order.{every, filter_by, reduce_best, sort_by}
use content_automation.Base.Order.Text.{
  compare_texts, compare_texts-Ordered, compare_texts_exact, compare_codes,
}
use content_automation.Domain.Number.{Number, fraction}
use content_automation.Analytics.Ages.{Bucket, AgeWindow, snapshot_bucket_for, age_window_for}
use content_automation.Analytics.Windows.{Candidate, select_age_window}
use content_automation.Analytics.Windows.Agreement.{select_order}
use content_automation.Analytics.Windows.Coverage.{Leads, select_covered}
use content_automation.Analytics.Snapshots.{Snapshot, is_inside, select_comparable_snapshot}
use content_automation.Analytics.Snapshots.Choice.{
  Locale, Chosen, closest_snapshot, snapshot_order, id_of,
}
use content_automation.Instagram.Scheduling.{Due, snapshot_due_for}
use content_automation.Instagram.Scheduling.Capture.{Sound, due-Sound, due_complete}

-- Six and a half days, and a bit less than a second.
abbrev age : Number
age = fraction 1_123_201 1

abbrev due : Due
due = record { age_bucket = Bucket.day_7; post_age_seconds = fraction 561_600 0 }

abbrev captured : List String
captured = "day_1" ∷ "day_3" ∷ []

due_run : snapshot_due_for captured age ≡ some due
unfolding snapshot_due_for snapshot_bucket_for find_first
due_run = refl

-- At five days the bucket day_7 has begun, and its tolerance has not.
not_yet_run : snapshot_due_for captured (fraction 432_000 0) ≡ none
unfolding snapshot_due_for snapshot_bucket_for find_first
not_yet_run = refl

due-Sound_example : Sound captured age due
due-Sound_example = due-Sound captured age due due_run

due_complete_example : snapshot_due_for captured age ≡ some due
unfolding find_first
due_complete_example =
    due_complete captured age Bucket.day_7 refl (record { reached = refl; not_past = refl })
      (inr refl)

abbrev week : Candidate
week = record { age_window = AgeWindow.day_7; eligible_posts = 30 }

abbrev month : Candidate
month = record { age_window = AgeWindow.day_30; eligible_posts = 12 }

abbrev any_age : Candidate
any_age = record { age_window = AgeWindow.lifetime; eligible_posts = 41 }

abbrev offered : List Candidate
offered = week ∷ month ∷ any_age ∷ []

abbrev offered_again : List Candidate
offered_again = month ∷ week ∷ any_age ∷ []

month_run : select_age_window offered 10 3 ≡ some AgeWindow.day_30
unfolding select_age_window filter_by reduce_best find_first
month_run = refl

select_order_example : select_age_window offered 10 3 ≡ select_age_window offered_again 10 3
unfolding every
select_order_example =
    select_order offered offered_again 10 3 41 (Perm.swap month week (any_age ∷ [])) refl

select_covered_example :
    (m : Candidate) × (select_age_window offered 10 3 ≡ some m.age_window) × Leads 10 offered m
unfolding every
select_covered_example = select_covered offered 10 3 refl

abbrev early : Snapshot
early = record { captured_at = 100; post_age_seconds = 70_000; post_id = "p"; snapshot_id = "a" }

abbrev late : Snapshot
late = record { captured_at = 200; post_age_seconds = 90_000; post_id = "p"; snapshot_id = "b" }

abbrev settled : Snapshot
settled = record { captured_at = 900; post_age_seconds = 600_000; post_id = "p"; snapshot_id = "c" }

abbrev rows : List Snapshot
rows = early ∷ late ∷ settled ∷ []

abbrev rows_again : List Snapshot
rows_again = late ∷ early ∷ settled ∷ []

by_code : Locale compare_texts
by_code = record { ordered = compare_texts-Ordered; exact = λ s t p q. compare_texts_exact s t }

late_run : select_comparable_snapshot compare_texts rows AgeWindow.day_1 ≡ some late
unfolding select_comparable_snapshot sort_by filter_by compare_codes
late_run = refl

closest_snapshot_example :
    ((select_comparable_snapshot compare_texts rows AgeWindow.day_1 ≡ none)
      × (every (λ c. not (is_inside (age_window_for AgeWindow.day_1) c)) rows ≡ true))
    ⊎ ((m : Snapshot) × (select_comparable_snapshot compare_texts rows AgeWindow.day_1 ≡ some m)
        × Chosen compare_texts by_code rows (age_window_for AgeWindow.day_1) m)
closest_snapshot_example = closest_snapshot compare_texts by_code rows AgeWindow.day_1

snapshot_order_example :
    id_of compare_texts by_code (select_comparable_snapshot compare_texts rows AgeWindow.day_1)
    ≡ id_of compare_texts by_code
        (select_comparable_snapshot compare_texts rows_again AgeWindow.day_1)
unfolding every all_printable
snapshot_order_example =
    snapshot_order compare_texts by_code rows rows_again AgeWindow.day_1 refl
      (Perm.swap late early (settled ∷ []))
