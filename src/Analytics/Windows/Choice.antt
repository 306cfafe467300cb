-- ===== src/Analytics/Windows/Choice.antt =====
-- What the reductions over candidates keep.
use Prim.Native.Nat.{compare, eq}
use content_automation.Base.{ℕ, Bool, true, false, some, List, [], ◌∷◌, ◌≡◌, ◌≢◌, sym, ◌∙◌, arith}
use content_automation.Base.Order.{
  Comparator, is_gt, ◌then_by◌, reduce_best, every, SameMembers, not_after,
}
use content_automation.Base.Order.Laws.{Ordered, by_number_down-Ordered, then_by-Ordered}
use content_automation.Base.Order.Least.{reduce_member, reduce_first, least_tie}
use content_automation.Analytics.Ages.{AgeWindow, age_window_maturity}
use content_automation.Analytics.Windows.{Candidate, is_more_mature, is_wider, most_mature, widest}

abbrev pub maturity : Candidate → ℕ
maturity c = age_window_maturity c.age_window

abbrev pub posts : Candidate → ℕ
posts c = c.eligible_posts

-- The comparators that the two reductions go by.
abbrev pub by_maturity : Comparator Candidate
by_maturity a b = compare (maturity b) (maturity a)

abbrev pub by_width : Comparator Candidate
by_width a b = compare (posts b) (posts a) then_by by_maturity a b

pub by_maturity-Ordered : Ordered by_maturity
by_maturity-Ordered = by_number_down-Ordered maturity

pub by_width-Ordered : Ordered by_width
by_width-Ordered =
    then_by-Ordered (λ a b. compare (posts b) (posts a)) by_maturity (by_number_down-Ordered posts)
      by_maturity-Ordered

more_mature_strict : (c w : Candidate) → is_more_mature c w ≡ is_gt (by_maturity w c)
more_mature_strict c w = ground arith

wider_strict : (c w : Candidate) → is_wider c w ≡ is_gt (by_width w c)
wider_strict c w = ground arith

window_of_maturity : (a b : AgeWindow) → age_window_maturity a ≡ age_window_maturity b → a ≡ b
window_of_maturity AgeWindow.import b e = ground arith
window_of_maturity AgeWindow.hour_1 b e = ground arith
window_of_maturity AgeWindow.day_1 b e = ground arith
window_of_maturity AgeWindow.day_3 b e = ground arith
window_of_maturity AgeWindow.day_7 b e = ground arith
window_of_maturity AgeWindow.day_30 b e = ground arith
window_of_maturity AgeWindow.mature b e = ground arith
window_of_maturity AgeWindow.lifetime b e = ground arith

-- A choice from a list by a comparator: a member that is after none.
pub record Best (cmp : Comparator Candidate) (cs : List Candidate) (m : Candidate) : Type 0 where
  pub member : (test : Candidate → Bool) → every test cs ≡ true → test m ≡ true
  pub first : every (not_after cmp m) cs ≡ true

pub most_mature-Best :
    (cs : List Candidate) (m : Candidate) → most_mature cs ≡ some m → Best by_maturity cs m
most_mature-Best [] m e = absurd (ground arith)
most_mature-Best (c ∷ cs) m e =
    let kept : reduce_best is_more_mature c cs ≡ m = cc in
    rw (← kept) (record {
      member = λ test.
          reduce_member by_maturity by_maturity-Ordered is_more_mature more_mature_strict c cs test;
      first = reduce_first by_maturity by_maturity-Ordered is_more_mature more_mature_strict c cs;
    })

pub widest-Best : (cs : List Candidate) (m : Candidate) → widest cs ≡ some m → Best by_width cs m
widest-Best [] m e = absurd (ground arith)
widest-Best (c ∷ cs) m e =
    let kept : reduce_best is_wider c cs ≡ m = cc in
    rw (← kept) (record {
      member = λ test. reduce_member by_width by_width-Ordered is_wider wider_strict c cs test;
      first = reduce_first by_width by_width-Ordered is_wider wider_strict c cs;
    })

pub Best-tie :
    (cmp : Comparator Candidate) (o : Ordered cmp) (cs ds : List Candidate) (m n : Candidate)
    → SameMembers cs ds
    → Best cmp cs m
    → Best cmp ds n
    → cmp m n ≡ eq
Best-tie cmp o cs ds m n same h k =
    least_tie cmp o m n (k.member (not_after cmp m) (sym (same (not_after cmp m)) ∙ h.first))
      (h.member (not_after cmp n) (same (not_after cmp n) ∙ k.first))

pub mature_tie : (m n : Candidate) → by_maturity m n ≡ eq → m.age_window ≡ n.age_window
mature_tie m n e = window_of_maturity m.age_window n.age_window (ground arith)

pub wide_tie : (m n : Candidate) → by_width m n ≡ eq → m ≡ n
wide_tie m n e =
    let same = window_of_maturity m.age_window n.age_window (ground arith) in
    let count : m.eligible_posts ≡ n.eligible_posts = ground arith in ground (arith, same, count)

-- Lists with the same members are empty together.
pub nil_together :
    (cs : List Candidate) (d : Candidate) (ds : List Candidate) → SameMembers cs (d ∷ ds) → cs ≢ []
unfolding every
nil_together cs d ds same e = cc (same (λ c. false), e)
