-- ===== src/Correlation.antt =====
-- parseCorrelationId of packages/observability/src/correlation.ts, and the same pattern for the
-- identifiers of an envelope in packages/domain/src/background-jobs.ts.
use Prim.Native.Char.{Char, code}
use content_automation.Base.{
  ℕ, zero, suc, String, Bool, true, false, ◌&&◌, ◌||◌, Option, none, some, List, [], ◌∷◌,
}
use content_automation.Base.Tests.{leb, ◌==◌, if◌then◌else◌}
use content_automation.Base.Text.{codes, is_digit, trim}

-- [0-9a-f] under the flag i
abbrev is_hex : ℕ → Bool
is_hex c = is_digit c || ((leb b'a' c && leb c b'f') || (leb b'A' c && leb c b'F'))

-- [89ab] under the flag i
abbrev is_variant : ℕ → Bool
is_variant c = c == b'8' || (c == b'9' || (c == b'a' || (c == b'b' || (c == b'A' || c == b'B'))))

-- A pattern as a list of classes, one to a character.
matches_classes : List (ℕ → Bool) → List ℕ → Bool
matches_classes [] [] = true
matches_classes (p ∷ ps) (c ∷ cs) = p c && matches_classes ps cs
matches_classes _ _ = false

abbrev times : ℕ → (ℕ → Bool) → List (ℕ → Bool) → List (ℕ → Bool)
times zero p ps = ps
times (suc n) p ps = p ∷ times n p ps

abbrev dashed : List (ℕ → Bool) → List (ℕ → Bool)
dashed ps = (λ c. c == b'-') ∷ ps

-- correlationIdPattern and uuidPattern
unfoldable pub uuid_classes : List (ℕ → Bool)
uuid_classes = times 8 is_hex (
    dashed (
      times 4 is_hex (
        dashed (
          (λ c. leb b'1' c && leb c b'8')
          ∷ times 3 is_hex (dashed (is_variant ∷ times 3 is_hex (dashed (times 12 is_hex []))))))))

unfoldable pub is_uuid : String → Bool
unfolding matches_classes uuid_classes
is_uuid s = matches_classes uuid_classes (codes s)

-- toLowerCase on the characters that the pattern lets through
lower_hex : Char → Char
lower_hex c =
    if code c == b'A'
    then "a"
    else if code c == b'B'
    then "b"
    else if code c == b'C'
    then "c"
    else if code c == b'D'
    then "d"
    else if code c == b'E'
    then "e"
    else if code c == b'F'
    then "f"
    else c

to_lower : String → String
unfolding lower_hex
to_lower String.[] = ""
to_lower (String.◌∷◌ c s) = String.◌∷◌ (lower_hex c) (to_lower s)

unfoldable pub parse_correlation_id : String → Option String
unfolding is_uuid trim to_lower
parse_correlation_id value =
    let candidate = trim value in if is_uuid candidate then some (to_lower candidate) else none
