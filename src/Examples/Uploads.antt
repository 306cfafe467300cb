-- ===== src/Examples/Uploads.antt =====
-- An admitted upload.
use content_automation.Base.{◌*◌, ◌-◌, ◌<◌, ◌≤◌, true, ◌≡◌, refl, arith}
use content_automation.Base.Tests.{max_safe_integer}
use content_automation.Base.Rows.{find_first}
use content_automation.Domain.Upload.{
  Request, admitted, is_accepted_video_content_type, evaluate_upload_admission,
}
use content_automation.Domain.Upload.Parts.{admitted_parts}

abbrev request : Request
request = record {
  declared_bytes = 25_000_000;
  declared_content_type = "video/mp4";
  max_bytes = 100_000_000;
  part_size_bytes = 8_388_608;
}

run_admitted : evaluate_upload_admission request ≡ admitted 3 8_388_608
unfolding evaluate_upload_admission find_first
run_admitted = refl

admitted_parts_example :
    (8_388_608 ≡ request.part_size_bytes)
    × (0 < request.declared_bytes)
    × (request.declared_bytes ≤ request.max_bytes)
    × (request.declared_bytes ≤ max_safe_integer)
    × (is_accepted_video_content_type request.declared_content_type ≡ true)
    × ((3 - 1) * 8_388_608 < request.declared_bytes)
    × (request.declared_bytes ≤ 3 * 8_388_608)
admitted_parts_example = admitted_parts request 3 8_388_608 (omega arith) run_admitted
