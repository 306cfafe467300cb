-- ===== src/Base/Lists.antt =====
-- Lists by native numbers: length, total, texts as lists of UTF-16 code units, lines.
use content_automation.Base.{
  ℕ, zero, suc, ◌+◌, false, Option, none, some, List, [], ◌∷◌, ◌++◌, ◌≡◌, ◌≢◌, refl, ap, ◌∙◌, inl,
  inr, arith,
}
use content_automation.Base.Tests.{◌==◌, if◌then◌else◌, Bool-cases}
use content_automation.Base.Rows.{All}

module _ {ℓ} {A : Type ℓ} where
  abbrev pub length : List A → ℕ
  length [] = 0
  length (x ∷ xs) = suc (length xs)

  pub length-append : (xs ys : List A) → length (xs ++ ys) ≡ length xs + length ys
  length-append [] ys = omega arith
  length-append (x ∷ xs) ys = omega (arith, length-append xs ys)

  -- list[index]
  unfoldable pub get_elem? : List A → ℕ → Option A
  get_elem? [] i = none
  get_elem? (x ∷ xs) zero = some x
  get_elem? (x ∷ xs) (suc i) = get_elem? xs i

  -- list.filter((_, position) => position !== index)
  unfoldable pub without : ℕ → List A → List A
  without i [] = []
  without zero (x ∷ xs) = xs
  without (suc i) (x ∷ xs) = x ∷ without i xs

-- The indices of a list of that length, in order.
unfoldable pub indices_from : ℕ → ℕ → List ℕ
indices_from start zero = []
indices_from start (suc n) = start ∷ indices_from (suc start) n

-- A text: its UTF-16 code units.
abbrev pub Units : Type 0
Units = List ℕ

-- text.split("\n")
abbrev pub glue : ℕ → List Units → List Units
glue c [] = (c ∷ []) ∷ []
glue c (line ∷ lines) = (c ∷ line) ∷ lines

unfoldable pub lines_of : Units → List Units
lines_of [] = [] ∷ []
lines_of (c ∷ cs) = if c == 10 then [] ∷ lines_of cs else glue c (lines_of cs)

-- lines.join(separator)
unfoldable pub join : Units → List Units → Units
join separator [] = []
join separator (line ∷ []) = line
join separator (line ∷ next ∷ lines) = line ++ (separator ++ join separator (next ∷ lines))

-- No line end in it.
abbrev pub IsLine : Units → Type 0
IsLine = All (λ c. (c == 10) ≡ false)

pub lines_of-ne-nil : (cs : Units) → lines_of cs ≢ []
unfolding lines_of
lines_of-ne-nil [] e = ground arith
lines_of-ne-nil (c ∷ cs) e = elim (Bool-cases (c == 10)) [
  | inl t ↦ ground arith
  | inr t ↦ ground (arith, lines_of-ne-nil cs)
]

glue-IsLine :
    (c : ℕ)
    → (c == 10) ≡ false
    → (lines : List Units) → All IsLine lines
    → All IsLine (glue c lines)
glue-IsLine c t [] h = ((t, tt), tt)
glue-IsLine c t (line ∷ lines) h = ((t, h.0), h.1)

pub lines_of-IsLine : (cs : Units) → All IsLine (lines_of cs)
unfolding lines_of
lines_of-IsLine [] = (tt, tt)
lines_of-IsLine (c ∷ cs) = elim (Bool-cases (c == 10)) [
  | inl t ↦ rw t (tt, lines_of-IsLine cs)
  | inr t ↦ rw t (glue-IsLine c t (lines_of cs) (lines_of-IsLine cs))
]

lines_of-append :
    (line rest : Units) → IsLine line → lines_of (line ++ 10 ∷ rest) ≡ line ∷ lines_of rest
unfolding lines_of
lines_of-append [] rest h = refl
lines_of-append (c ∷ line) rest h = rw (h.0, lines_of-append line rest h.1) refl

lines_of-line : (line : Units) → IsLine line → lines_of line ≡ line ∷ []
unfolding lines_of
lines_of-line [] h = refl
lines_of-line (c ∷ line) h = rw (h.0, lines_of-line line h.1) refl

-- Lines that are joined are read back.
pub lines_of-join :
    (line : Units) (lines : List Units)
    → All IsLine (line ∷ lines)
    → lines_of (join (10 ∷ []) (line ∷ lines)) ≡ line ∷ lines
unfolding join
lines_of-join line [] h = lines_of-line line h.0
lines_of-join line (next ∷ lines) h =
    lines_of-append line (join (10 ∷ []) (next ∷ lines)) h.0
    ∙ ap (◌∷◌ line) (lines_of-join next lines h.1)
