-- ===== src/Base/Text.antt =====
-- The character classes and the bounded name patterns of the program's regular expressions.
use Prim.Native.Nat.{ℕ, zero, suc}
use Prim.Native.Char.{code}
use Prim.Native.String.{String}
use mathlib.Core.Bool.{Bool, true, false, ◌&&◌, ◌||◌}
use mathlib.Core.List.{List, [], ◌∷◌}
use text.Mathlib.Text.{◌==◌ as str_eq}
use content_automation.Base.Tests.{if◌then◌else◌, leb, ◌==◌}

-- The code points of a text.
abbrev pub codes : String → List ℕ
codes String.[] = []
codes (String.◌∷◌ c s) = code c ∷ codes s

abbrev pub is_upper : ℕ → Bool
is_upper c = leb b'A' c && leb c b'Z'

abbrev pub is_lower : ℕ → Bool
is_lower c = leb b'a' c && leb c b'z'

abbrev pub is_digit : ℕ → Bool
is_digit c = leb b'0' c && leb c b'9'

-- `class{0,n}$`
unfoldable pub at_most : ℕ → (ℕ → Bool) → List ℕ → Bool
at_most n class [] = true
at_most zero class (c ∷ cs) = false
at_most (suc n) class (c ∷ cs) = class c && at_most n class cs

-- `^first rest{0,n}$`
unfoldable pub matches_name : (ℕ → Bool) → (ℕ → Bool) → ℕ → List ℕ → Bool
unfolding at_most
matches_name first rest n [] = false
matches_name first rest n (c ∷ cs) = first c && at_most n rest cs

-- What String.prototype.trim drops: white space and line ends.
abbrev pub is_blank : ℕ → Bool
is_blank c =
    (leb 9 c && leb c 13)
    || (c == 32
        || (c == 160
            || (c == 0x1680
                || ((leb 0x2000 c && leb c 0x200a)
                    || (c == 0x2028
                        || (c == 0x2029
                            || (c == 0x202f || (c == 0x205f || (c == 0x3000 || c == 0xfeff)))))))))

trim_start : String → String
trim_start String.[] = ""
trim_start (String.◌∷◌ c s) =
    let rest = trim_start s in if is_blank (code c) then rest else String.◌∷◌ c s

trim_end : String → String
trim_end String.[] = ""
trim_end (String.◌∷◌ c s) =
    let rest = trim_end s in if is_blank (code c) && str_eq rest "" then "" else String.◌∷◌ c rest

-- value.trim()
unfoldable pub trim : String → String
unfolding trim_start trim_end
trim s = trim_start (trim_end s)

-- Printable ASCII.
unfoldable pub all_printable : List ℕ → Bool
all_printable [] = true
all_printable (c ∷ cs) = leb 32 c && (leb c 126 && all_printable cs)
