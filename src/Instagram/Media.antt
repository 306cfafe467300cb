-- ===== src/Instagram/Media.antt =====
-- Kinds of media, pages and classes of responses, of packages/domain/src/instagram-media.ts.
use content_automation.Base.{
  ℕ, suc, ◌*◌, String, Bool, true, false, ◌&&◌, ◌||◌, Option, none, some, List, [], ◌∷◌, ◌++◌,
}
use content_automation.Base.Tests.{leb, ◌==◌, if_found, if◌then◌else◌}
use content_automation.Base.Lists.{length}
use content_automation.Base.Order.{every}
use content_automation.Base.Text.{codes}
use content_automation.Base.Json.{
  Json, number, array, object, Items, no_items, item, Fields, no_fields, field, get, as_record,
  as_items, as_number, as_string,
}
use content_automation.Domain.Number.{Number, fraction, is_finite}
use content_automation.Instagram.Insights.{
  ResponseClass, authorisation, invalid_request, rate_limit, transient, unsupported,
}
use text.Mathlib.Text.{◌==◌ as str_eq}

-- readString: a text that is not empty
abbrev pub read_text : String → Fields → Option String
read_text key fs = if_found (as_string (get key fs)) none λ s. if str_eq s "" then none else some s

-- instagramMediaKinds
pub data MediaKind : Type 0 where
  reel video image carousel_album unsupported_kind : MediaKind

-- mediaProductType === "REELS"
abbrev pub is_reels : Option String → Bool
is_reels (some product) = str_eq product "REELS"
is_reels none = false

unfoldable pub classify_instagram_media : Option String → String → MediaKind
classify_instagram_media product media_type =
    if is_reels product
    then reel
    else if str_eq media_type "CAROUSEL_ALBUM"
    then carousel_album
    else if str_eq media_type "IMAGE"
    then image
    else if str_eq media_type "VIDEO"
    then video
    else unsupported_kind

-- error.code, and error.error_subcode
abbrev pub error_of : Json → Option Fields
error_of body = if_found (as_record (some body)) none λ fs. as_record (get "error" fs)

abbrev pub error_number : String → Json → Option Number
error_number key body = if_found (error_of body) none λ fs. as_number (get key fs)

-- code === n
abbrev pub is_code : Option Number → ℕ → Bool
is_code (some (fraction m d)) n = m == n * suc d
is_code _ n = false

abbrev pub is_limit_code : Option Number → Bool
is_limit_code code = is_code code 4 || is_code code 17 || is_code code 32 || is_code code 613

unfoldable pub classify_instagram_response : Json → ℕ → ResponseClass
classify_instagram_response body status =
    let code = error_number "code" body in
    let subcode = error_number "error_subcode" body in
    if status == 429
    then rate_limit
    else if status == 401 || status == 403
    then authorisation
    else if leb 500 status
    then transient
    else if is_code code 190
    then authorisation
    else if is_limit_code code
    then rate_limit
    else if status == 400 && (is_code code 100 || is_code subcode 2_108_006)
    then unsupported
    else invalid_request

-- providerCursorPattern
abbrev pub is_cursor_code : ℕ → Bool
is_cursor_code c =
    leb 48 c && leb c 57 || leb 65 c && leb c 90 || leb 97 c && leb c 122 || c == 95 || c == 45

abbrev pub is_cursor : String → Bool
is_cursor s =
    leb 1 (length (codes s)) && leb (length (codes s)) 512 && every is_cursor_code (codes s)

-- InstagramMediaPage
pub record MediaPage : Type 0 where
  pub after : Option String
  pub has_next_page : Bool
  pub items : Items

-- paging.cursors.after, where it is a cursor
abbrev pub cursor_after : Fields → Option String
cursor_after paging =
    if_found (as_record (get "cursors" paging)) none
      λ cursors. if_found (read_text "after" cursors) none λ s. if is_cursor s then some s else none

abbrev pub has_next : Fields → Bool
has_next paging = if_found (as_string (get "next" paging)) false λ s. true

unfoldable pub read_instagram_media_page : Json → MediaPage
read_instagram_media_page body =
    if_found (as_record (some body))
      (record { after = none; has_next_page = false; items = no_items })
      λ fs.
        let paging = as_record (get "paging" fs) in
        record {
          after = if_found paging none cursor_after;
          has_next_page = if_found paging false has_next;
          items = as_items (get "data" fs);
        }

unfoldable mutual
  pub collect_numbers : Json → List Number
  collect_numbers (number x) = if is_finite x then x ∷ [] else []
  collect_numbers (array xs) = collect_items xs
  collect_numbers (object fs) = collect_fields fs
  collect_numbers _ = []

  pub collect_items : Items → List Number
  collect_items no_items = []
  collect_items (item x xs) = collect_numbers x ++ collect_items xs

  pub collect_fields : Fields → List Number
  collect_fields no_fields = []
  collect_fields (field k x fs) = collect_numbers x ++ collect_fields fs
