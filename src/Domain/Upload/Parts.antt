-- ===== src/Domain/Upload/Parts.antt =====
-- The parts of an admitted upload hold its bytes.
use native.Mathlib.Nat.{div-add-mod', mod-lt}
use Prim.Native.Nat.{◌%◌}
use content_automation.Base.{ℕ, zero, suc, ◌+◌, ◌-◌, ◌*◌, ◌/◌, ◌≤◌, ◌<◌, true, ◌≡◌, arith}
use content_automation.Base.Tests.{max_safe_integer}
use content_automation.Domain.Upload.{
  Request, admitted, is_accepted_video_content_type, part_count, evaluate_upload_admission,
}

ceiling_bounds :
    (q size rest bytes : ℕ)
    → 0 < bytes
    → rest < size
    → q * size + rest ≡ bytes + (size - 1)
    → ((q - 1) * size < bytes) × (bytes ≤ q * size)
ceiling_bounds zero size rest bytes b l e = (omega arith, omega arith)
ceiling_bounds (suc q) size rest bytes b l e =
    let less : suc q - 1 ≡ q = omega arith in (rw less (omega arith), omega arith)

parts_hold :
    (bytes size : ℕ)
    → 0 < bytes
    → 0 < size
    → ((part_count bytes size - 1) * size < bytes) × (bytes ≤ part_count bytes size * size)
parts_hold bytes size b s =
    let total = bytes + (size - 1) in
    ceiling_bounds (total / size) size (total % size) bytes b (mod-lt total s)
      (div-add-mod' total size)

-- An upload that is admitted is of an accepted type and within the limit, it is cut into parts of the size
-- that was asked for, and they hold its bytes with the last of them not empty.
pub admitted_parts :
    (r : Request) (count size : ℕ)
    → 0 < r.part_size_bytes
    → evaluate_upload_admission r ≡ admitted count size
    → (size ≡ r.part_size_bytes)
      × (0 < r.declared_bytes)
      × (r.declared_bytes ≤ r.max_bytes)
      × (r.declared_bytes ≤ max_safe_integer)
      × (is_accepted_video_content_type r.declared_content_type ≡ true)
      × ((count - 1) * size < r.declared_bytes)
      × (r.declared_bytes ≤ count * size)
unfolding evaluate_upload_admission
admitted_parts r count size s h = ground (arith, parts_hold r.declared_bytes r.part_size_bytes)
