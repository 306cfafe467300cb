-- ===== src/Jobs/Envelope.antt =====
-- parseQueueJobEnvelope of packages/domain/src/background-jobs.ts. A value that comes from the queue is
-- an object with its own fields, or something else; what a field holds is a text, a number or
-- something else. A missing field reads as something else.
pub mod Roundtrip
use content_automation.Base.{
  ℕ, suc, ◌*◌, ◌/◌, String, Bool, true, false, ◌&&◌, Option, none, some, List, [], ◌∷◌,
}
use content_automation.Base.Tests.{◌==◌, if◌then◌else◌, if_found, is_positive_safe}
use content_automation.Base.Rows.{count_where}
use content_automation.Correlation.{is_uuid}
use content_automation.Domain.Number.{Number, fraction}
use content_automation.Jobs.Enqueue.{is_queue_name}
use content_automation.Jobs.Handler.{Envelope}
use text.Mathlib.Text.{◌==◌ as str_eq}

pub data Value : Type 0 where
  string : String → Value
  number : Number → Value
  anything_else : Value

pub record Field : Type 0 where
  pub key : String
  pub value : Value

pub data Message : Type 0 where
  object : List Field → Message
  no_record : Message

-- value[key]
unfoldable pub get : String → List Field → Value
get key [] = anything_else
get key (f ∷ fs) = if str_eq key f.key then f.value else get key fs

-- Number.isSafeInteger(value) && value >= 1, and the value as a whole number
unfoldable pub safe_version : Number → Option ℕ
safe_version (fraction n d) =
    if n / suc d * suc d == n && is_positive_safe (n / suc d) then some (n / suc d) else none
safe_version _ = none

abbrev pub if_version : {A : Type 0} → Value → (ℕ → Option A) → Option A
if_version (number n) f = if_found (safe_version n) none f
if_version _ f = none

-- typeof value === "string", and a test of the text
abbrev pub if_text : {A : Type 0} → (String → Bool) → Value → (String → Option A) → Option A
if_text test (string s) f = if test s then f s else none
if_text test _ f = none

abbrev pub parse_fields : List Field → Option Envelope
parse_fields fields = if_text is_uuid (get "correlationId" fields) λ correlation_id.
    if_text is_uuid (get "domainJobId" fields) λ domain_job_id.
      if_version (get "handlerVersion" fields) λ handler_version.
        if_text is_queue_name (get "queueName" fields) λ queue_name.
          if_text is_uuid (get "workspaceId" fields) λ workspace_id. some (record {
            correlation_id = correlation_id;
            domain_job_id = domain_job_id;
            handler_version = handler_version;
            queue_name = queue_name;
            workspace_id = workspace_id;
          })

unfoldable pub parse_queue_job_envelope : Message → Option Envelope
parse_queue_job_envelope no_record = none
parse_queue_job_envelope (object fields) =
    if count_where (λ f. true) fields == 5 then parse_fields fields else none
