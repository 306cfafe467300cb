-- ===== src/Chat/Context/Fences.antt =====
-- No line of a quoted body closes the region that holds it.
use mathlib.Core.List.{map}
use content_automation.Base.{false, List, [], ◌∷◌, ◌≡◌, ◌≢◌, refl, inl, inr}
use content_automation.Base.Tests.{Bool-cases}
use content_automation.Base.Rows.{All}
use content_automation.Base.Lists.{
  Units, lines_of, join, IsLine, lines_of-IsLine, lines_of-join, lines_of-ne-nil,
}
use content_automation.Chat.Context.{is_fence, indent_fence, neutralise_fences}

indent_fence-IsLine : (line : Units) → IsLine line → IsLine (indent_fence line)
indent_fence-IsLine line h = elim (Bool-cases (is_fence line)) [
  | inl t ↦ rw t (refl, h)
  | inr t ↦ rw t h
]

map-IsLine : (lines : List Units) → All IsLine lines → All IsLine (map indent_fence lines)
map-IsLine [] h = tt
map-IsLine (line ∷ lines) h = (indent_fence-IsLine line h.0, map-IsLine lines h.1)

abbrev pub IsPlain : Units → Type 0
IsPlain line = is_fence line ≡ false

indented : (line : Units) → IsPlain (b' ' ∷ line)
indented [] = refl
indented (a ∷ []) = refl
indented (a ∷ b ∷ cs) = refl

indent_fence-IsPlain : (line : Units) → IsPlain (indent_fence line)
indent_fence-IsPlain line = elim (Bool-cases (is_fence line)) [
  | inl t ↦ rw t (indented line)
  | inr t ↦ rw t t
]

lines_of-map :
    (lines : List Units)
    → lines ≢ []
    → All IsLine lines
    → lines_of (join (10 ∷ []) (map indent_fence lines)) ≡ map indent_fence lines
lines_of-map [] n h = absurd (n refl)
lines_of-map (line ∷ lines) n h =
    lines_of-join (indent_fence line) (map indent_fence lines)
      (indent_fence-IsLine line h.0, map-IsLine lines h.1)

map-IsPlain : (lines : List Units) → All IsPlain (map indent_fence lines)
map-IsPlain [] = tt
map-IsPlain (line ∷ lines) = (indent_fence-IsPlain line, map-IsPlain lines)

-- The neutralised body has the lines of the body, each as it is but for a space before "<<<", and none
-- of them starts with "<<<".
pub neutralised_lines :
    (body : Units)
    → (lines_of (neutralise_fences body) ≡ map indent_fence (lines_of body))
      × All IsPlain (lines_of (neutralise_fences body))
unfolding neutralise_fences
neutralised_lines body =
    let same = lines_of-map (lines_of body) (lines_of-ne-nil body) (lines_of-IsLine body) in
    (same, rw same (map-IsPlain (lines_of body)))
