-- ===== src/Domain/Upload.antt =====
-- The admission of an upload, of packages/domain/src/video-upload.ts.
pub mod Parts
use content_automation.Base.{
  ℕ, suc, ◌+◌, ◌-◌, ◌/◌, String, Bool, true, false, not, ◌||◌, Option, none, some, List, [], ◌∷◌,
}
use content_automation.Base.Tests.{ltb, leb, ◌==◌, if◌then◌else◌, is_some, max_safe_integer}
use content_automation.Base.Rows.{find_first}
use content_automation.Base.Lists.{length}
use content_automation.Base.Order.{filter_by, every}
use text.Mathlib.Text.{◌==◌ as str_eq}

abbrev pub accepted_video_content_types : List String
accepted_video_content_types = "video/mp4" ∷ "video/quicktime" ∷ "video/webm" ∷ []

abbrev pub is_accepted_video_content_type : String → Bool
is_accepted_video_content_type value =
    is_some (find_first (str_eq value) accepted_video_content_types)

-- uploadAdmissionRefusalReasons
pub data Refusal : Type 0 where
  content_type_not_accepted empty_file too_large : Refusal

-- UploadAdmissionDecision
pub data Decision : Type 0 where
  admitted : ℕ → ℕ → Decision
  refused : Refusal → Decision

-- UploadAdmissionRequest; a size in bytes is a whole number
pub record Request : Type 0 where
  pub declared_bytes : ℕ
  pub declared_content_type : String
  pub max_bytes : ℕ
  pub part_size_bytes : ℕ

-- Math.ceil(bytes / size), for a size that is not 0
abbrev pub part_count : ℕ → ℕ → ℕ
part_count bytes size = (bytes + (size - 1)) / size

unfoldable pub evaluate_upload_admission : Request → Decision
evaluate_upload_admission r =
    if not (leb r.declared_bytes max_safe_integer) || r.declared_bytes == 0
    then refused empty_file
    else if ltb r.max_bytes r.declared_bytes
    then refused too_large
    else if not (is_accepted_video_content_type r.declared_content_type)
    then refused content_type_not_accepted
    else admitted (part_count r.declared_bytes r.part_size_bytes) r.part_size_bytes

-- parts.map((part) => part.partNumber) has no number twice: a Set of them has as many members.
abbrev pub members : List ℕ → List ℕ
members [] = []
members (n ∷ ns) =
    let rest = members ns in if is_some (find_first (λ m. m == n) rest) then rest else n ∷ rest

abbrev pub has_unique_part_numbers : List ℕ → Bool
has_unique_part_numbers parts = length (members parts) == length parts
