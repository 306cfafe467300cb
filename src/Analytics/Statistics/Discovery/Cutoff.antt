-- ===== src/Analytics/Statistics/Discovery/Cutoff.antt =====
-- The step-up procedure of packages/domain/src/analytics-statistics.ts as one cutoff.
use content_automation.Base.{
  ℕ, zero, suc, ◌+◌, ◌-◌, ◌≤◌, ◌<◌, Bool, true, false, not, ◌&&◌, ◌||◌, some, List, [], ◌∷◌, ◌≡◌,
  refl, ap, sym, ◌∙◌, arith,
}
use content_automation.Base.Tests.{◌==◌}
use content_automation.Base.Lists.{length, get_elem?}
use content_automation.Base.Order.{every}
use content_automation.Base.Order.Least.{every-imp, every-sort_by, sort_by-IsSorted}
use content_automation.Domain.Number.{Number}
use content_automation.Domain.Number.Arithmetic.{le_number}
use content_automation.Analytics.Spread.{Share}
use content_automation.Analytics.Statistics.Discovery.{
  Entry, entries_from, threshold, set_true, mark,
}
use content_automation.Analytics.Statistics.Discovery.Finite.{
  by_size-Ordered, by_size, ranked_entries, places_below, step_up,
}
use content_automation.Analytics.Statistics.Discovery.Marks.{marked, marked_below, below_marked}
use mathlib.Core.List.{map}

-- A Boolean for each place of a list, by the place.
table : (ℕ → Bool) → ℕ → List Number → List Bool
table f start [] = []
table f start (p ∷ ps) = f start ∷ table f (suc start) ps

table_ext :
    (f g : ℕ → Bool) (start : ℕ) (ps : List Number)
    → ((i : ℕ) → start ≤ i → f i ≡ g i)
    → table f start ps ≡ table g start ps
unfolding table
table_ext f g start [] h = refl
table_ext f g start (p ∷ ps) h =
    cc (h start (omega arith), table_ext f g (suc start) ps (λ i l. h i (omega arith)))

set_true-table :
    (f : ℕ → Bool) (start j : ℕ) (ps : List Number)
    → set_true j (table f start ps) ≡ table (λ i. i == start + j || f i) start ps
unfolding set_true table
set_true-table f start j [] = refl
set_true-table f start zero (p ∷ ps) =
    let first : (start == start + 0 || f start) ≡ true = ground arith in
    cc (first, table_ext f (λ i. i == start + 0 || f i) (suc start) ps (λ i l. ground arith))
set_true-table f start (suc j) (p ∷ ps) =
    let first : (start == start + suc j || f start) ≡ f start = ground arith in
    let rest =
      set_true-table f (suc start) j ps
      ∙ table_ext _ (λ i. i == start + suc j || f i) (suc start) ps (λ i l. ground arith) in
    cc (first, rest)

mark-table :
    (n : ℕ) (es : List Entry) (f : ℕ → Bool) (ps : List Number)
    → mark n es (table f 0 ps) ≡ table (λ i. marked n es i || f i) 0 ps
unfolding mark marked
mark-table zero es f ps = refl
mark-table (suc n) [] f ps = refl
mark-table (suc n) (e ∷ es) f ps =
    ap (mark n es) (set_true-table f 0 e.index ps)
    ∙ mark-table n es (λ i. i == 0 + e.index || f i) ps
    ∙ table_ext _ _ 0 ps (λ i l. ground arith)

table-none : (start : ℕ) (ps : List Number) → map (λ p. false) ps ≡ table (λ i. false) start ps
unfolding table
table-none start [] = refl
table-none start (p ∷ ps) = ap (◌∷◌ false) (table-none (suc start) ps)

table-map :
    (f : ℕ → Bool) (test : Number → Bool) (start : ℕ) (ps : List Number)
    → ((i : ℕ) (p : Number) → get_elem? ps i ≡ some p → f (start + i) ≡ test p)
    → table f start ps ≡ map test ps
unfolding table get_elem?
table-map f test start [] h = refl
table-map f test start (p ∷ ps) h =
    let first : f start ≡ test p = ground (arith, h zero p refl) in
    cc (first, table-map f test (suc start) ps (λ i q e. ground (arith, h (suc i) q e)))

-- The entries hold the value of each place, once.
later_entries :
    (start j : ℕ) (ps : List Number)
    → j < start
    → every (λ e. not (j == e.index)) (entries_from start ps) ≡ true
unfolding every entries_from
later_entries start j [] l = refl
later_entries start j (p ∷ ps) l = ground (arith, later_entries (suc start) j ps)

later_every :
    (test : Entry → Bool) (start j : ℕ) (ps : List Number)
    → j < start
    → ((e : Entry) → (j == e.index) ≡ false → test e ≡ true)
    → every test (entries_from start ps) ≡ true
later_every test start j ps l h =
    every-imp _ test (entries_from start ps) (λ e k. h e (ground arith))
      (later_entries start j ps l)

own_value :
    (start i j : ℕ) (ps : List Number) (p : Number)
    → j ≡ start + i
    → get_elem? ps i ≡ some p
    → every (λ e. not (j == e.index) || le_number p e.value) (entries_from start ps) ≡ true
unfolding every entries_from get_elem?
own_value start i j [] p e h = refl
own_value start zero j (q ∷ ps) p e h =
    let rest =
      later_every (λ e. not (j == e.index) || le_number p e.value) (suc start) j ps (omega arith)
        (λ f k. ground arith) in
    ground (arith, rest)
own_value start (suc i) j (q ∷ ps) p e h =
    ground (arith, own_value (suc start) i j ps p (omega arith))

own_entry :
    (start i j : ℕ) (ps : List Number) (p : Number)
    → j ≡ start + i
    → get_elem? ps i ≡ some p
    → every (λ e. not ((j == e.index) && le_number e.value p)) (entries_from start ps) ≡ false
unfolding every entries_from get_elem?
own_entry start i j [] p e h = absurd (ground arith)
own_entry start zero j (q ∷ ps) p e h = ground arith
own_entry start (suc i) j (q ∷ ps) p e h =
    ground (arith, own_entry (suc start) i j ps p (omega arith))

-- The threshold of the last place whose p-value is not above its own.
abbrev pub cutoff : Share → List Number → Number
cutoff rate ps = threshold (length (ranked_entries ps)) rate (places_below rate ps)

same_truth : (a b : Bool) → (a ≡ true → b ≡ true) → (b ≡ true → a ≡ true) → a ≡ b
same_truth true b h k = sym (h refl)
same_truth false true h k = k refl
same_truth false false h k = refl

marked-cutoff :
    (rate : Share) (ps : List Number) (i : ℕ) (p : Number)
    → get_elem? ps i ≡ some p
    → marked (places_below rate ps) (ranked_entries ps) i ≡ le_number p (cutoff rate ps)
marked-cutoff rate ps i p h =
    let es = ranked_entries ps in
    let own =
      every-sort_by by_size by_size-Ordered (λ e. not (i == e.index) || le_number p e.value)
        (entries_from 0 ps)
      ∙ own_value 0 i i ps p (omega arith) h in
    let there =
      every-sort_by by_size by_size-Ordered (λ e. not ((i == e.index) && le_number e.value p))
        (entries_from 0 ps)
      ∙ own_entry 0 i i ps p (omega arith) h in
    let all : places_below rate ps - 0 ≡ places_below rate ps = omega arith in
    same_truth (marked (places_below rate ps) es i) (le_number p (cutoff rate ps))
      (λ m.
        marked_below (length es) rate 0 es 0 i p
          (sort_by-IsSorted by_size by_size-Ordered (entries_from 0 ps)) (omega arith) own
          (rw all m))
      (λ l. rw all at (below_marked (length es) rate 0 es 0 i p there l))

-- On finite p-values the procedure keeps just the hypotheses whose p-value is not above one cutoff, the
-- threshold of the last place in ascending order whose p-value is not above its own: rate times its
-- share of the family.
pub survivors_cutoff :
    (rate : Share) (ps : List Number) → step_up rate ps ≡ map (λ p. le_number p (cutoff rate ps)) ps
unfolding step_up
survivors_cutoff rate ps =
    ap (mark (places_below rate ps) (ranked_entries ps)) (table-none 0 ps)
    ∙ mark-table (places_below rate ps) (ranked_entries ps) (λ i. false) ps
    ∙ table-map (λ i. marked (places_below rate ps) (ranked_entries ps) i || false)
        (λ p. le_number p (cutoff rate ps)) 0 ps
        (λ i p e. ground (arith, marked-cutoff rate ps i p e))
