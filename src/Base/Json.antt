-- ===== src/Base/Json.antt =====
-- Values of unknown shape, as JSON.parse gives them. A number is of the type `N`, and a text of the
-- basic plane is a string of its code points.
use content_automation.Base.{ℕ, zero, suc, String, Bool, Option, none, some}
use content_automation.Base.Tests.{if◌then◌else◌}
use content_automation.Domain.Number.{Number}
use text.Mathlib.Text.{◌==◌ as str_eq}

mutual
  pub data Json : Type 0 where
    null : Json
    boolean : Bool → Json
    number : Number → Json
    string : String → Json
    array : Items → Json
    object : Fields → Json

  pub data Items : Type 0 where
    no_items : Items
    item : Json → Items → Items

  pub data Fields : Type 0 where
    no_fields : Fields
    field : String → Json → Fields → Fields

-- value[key] of an object, where a key that is missing is undefined
unfoldable pub get : String → Fields → Option Json
get key no_fields = none
get key (field k v fs) = if str_eq k key then some v else get key fs

-- isRecord(value) ? value : null
abbrev pub as_record : Option Json → Option Fields
as_record (some (object fs)) = some fs
as_record _ = none

-- Array.isArray(value) ? value : []
abbrev pub as_items : Option Json → Items
as_items (some (array xs)) = xs
as_items _ = no_items

-- typeof value === "number" ? value : null
abbrev pub as_number : Option Json → Option Number
as_number (some (number x)) = some x
as_number _ = none

-- typeof value === "string" ? value : null
abbrev pub as_string : Option Json → Option String
as_string (some (string s)) = some s
as_string _ = none

-- text.slice(0, n)
unfoldable pub prefix : ℕ → String → String
prefix zero s = ""
prefix (suc n) String.[] = ""
prefix (suc n) (String.◌∷◌ c s) = String.◌∷◌ c (prefix n s)
