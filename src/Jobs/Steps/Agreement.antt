-- ===== src/Jobs/Steps/Agreement.antt =====
-- Why the version column makes the guarded writes of packages/db safe: a row that a write meets
-- under the identifier and the version that its transaction read has the content that it read.
use content_automation.Base.{String, ◌≡◌, ap, true, false, List, [], ◌∷◌}
use content_automation.Base.Rows.{All}
use content_automation.Base.Pointwise.{
  Pointwise, Pointwise-refl, Pointwise-map, Extends, Extends-Pointwise,
}
use content_automation.Jobs.Store.{Job}
use content_automation.Jobs.Steps.Rows.{SameContent, Evolves, Evolves-refl, Step}
use text.Mathlib.Text.{◌==◌ as str_eq}

-- The job row that a transaction read, against a row that its write meets.
abbrev pub AgreesWith : Job → Job → Type 0
AgreesWith job r = str_eq r.id job.id ≡ true → r.version ≡ job.version → SameContent job r

-- What a transaction read agrees with what its writes meet.
abbrev pub AgreeWith : List Job → List Job → Type 0
AgreeWith seen rows = All (λ job. All (AgreesWith job) rows) seen

abbrev pub Differs : Job → Job → Type 0
Differs r s = (str_eq s.id r.id ≡ false) × (str_eq r.id s.id ≡ false)

-- The primary key.
abbrev pub Distinct : List Job → Type 0
Distinct [] = Unit {0}
Distinct (r ∷ rs) = All (Differs r) rs × Distinct rs

-- A row of another job, against the job that `x` is an earlier row of.
others-AgreesWith :
    (x y : Job) (rows : List Job) → Evolves x y → All (Differs y) rows → All (AgreesWith x) rows
others-AgreesWith x y [] e d = tt
others-AgreesWith x y (r ∷ rows) e d = (
  λ same _. cc (same, d.0.0, ap (λ (i : String). str_eq r.id i) e.id),
  others-AgreesWith x y rows e d.1,
)

earlier-AgreeWith :
    (y : Job) (seen rows : List Job)
    → Extends Evolves seen rows
    → All (Differs y) rows
    → All (λ job. AgreesWith job y) seen
earlier-AgreeWith y [] rows e d = tt
earlier-AgreeWith y (x ∷ seen) [] e d = elim e [ ]
earlier-AgreeWith y (x ∷ seen) (r ∷ rows) e d = (
  λ same _. cc (same, d.0.1, ap (λ (i : String). str_eq y.id i) e.0.id),
  earlier-AgreeWith y seen rows e.1 d.1,
)

prepend-AgreeWith :
    (y : Job) (seen rows : List Job)
    → All (λ job. AgreesWith job y) seen
    → AgreeWith seen rows
    → AgreeWith seen (y ∷ rows)
prepend-AgreeWith y [] rows h k = tt
prepend-AgreeWith y (x ∷ seen) rows h k = ((h.0, k.0), prepend-AgreeWith y seen rows h.1 k.1)

-- Where identifiers are distinct and each row read is still there, evolved by steps of its own, a
-- row with the identifier and the version of a row that was read has the content that was read.
pub Evolves-AgreeWith :
    (seen rows : List Job) → Distinct rows → Extends Evolves seen rows → AgreeWith seen rows
Evolves-AgreeWith [] rows d e = tt
Evolves-AgreeWith (x ∷ seen) [] d e = elim e [ ]
Evolves-AgreeWith (x ∷ seen) (y ∷ rows) d e = (
  (λ _ v. e.0.content v, others-AgreesWith x y rows e.0 d.0),
  prepend-AgreeWith y seen rows (earlier-AgreeWith y seen rows e.1 d.0)
      (Evolves-AgreeWith seen rows d.1 e.1),
)

pub AgreeWith-self : (rows : List Job) → Distinct rows → AgreeWith rows rows
AgreeWith-self rows d =
    Evolves-AgreeWith rows rows d
      (Extends-Pointwise Evolves rows rows (Pointwise-refl Evolves Evolves-refl rows))

Differs-later :
    (r s : Job) (rs ss : List Job)
    → Evolves r s
    → Pointwise Evolves rs ss
    → All (Differs r) rs
    → All (Differs s) ss
Differs-later r s [] [] e p d = tt
Differs-later r s [] (y ∷ ss) e p d = elim p [ ]
Differs-later r s (x ∷ rs) [] e p d = elim p [ ]
Differs-later r s (x ∷ rs) (y ∷ ss) e p d =
    (rw (e.id, p.0.id) d.0, Differs-later r s rs ss e p.1 d.1)

-- Later rows of distinct jobs are distinct.
pub Evolves-Distinct : (rs ss : List Job) → Pointwise Evolves rs ss → Distinct rs → Distinct ss
Evolves-Distinct [] [] p d = tt
Evolves-Distinct [] (s ∷ ss) p d = elim p [ ]
Evolves-Distinct (r ∷ rs) [] p d = elim p [ ]
Evolves-Distinct (r ∷ rs) (s ∷ ss) p d =
    (Differs-later r s rs ss p.0 p.1 d.0, Evolves-Distinct rs ss p.1 d.1)

pub Steps-Distinct : (rs ss : List Job) → Pointwise Step rs ss → Distinct rs → Distinct ss
Steps-Distinct rs ss p d =
    Evolves-Distinct rs ss (Pointwise-map Step Evolves rs ss (λ r s k. k.evolves) p) d
