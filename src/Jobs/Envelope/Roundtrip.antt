-- ===== src/Jobs/Envelope/Roundtrip.antt =====
-- An envelope as the publisher sends it, and what the parser makes of it.
use content_automation.Base.{
  ℕ, ◌≡◌, refl, inl, inr, Bool, true, String, Option, some, List, [], ◌∷◌, arith,
}
use content_automation.Base.Tests.{◌==◌, is_positive_safe, Bool-cases, Option-cases}
use content_automation.Base.Rows.{count_where}
use content_automation.Correlation.{is_uuid}
use content_automation.Domain.Number.{Number, fraction}
use content_automation.Jobs.Enqueue.{is_queue_name}
use content_automation.Jobs.Handler.{Envelope}
use content_automation.Jobs.Envelope.{
  Value, string, anything_else, no_record, number, Field, Message, object, get, safe_version,
  if_version, if_text, parse_fields, parse_queue_job_envelope,
}

abbrev field : String → Value → Field
field key value = record { key = key; value = value }

-- The envelope as an object, the way dispatchOutboxRecord writes it.
abbrev pub sent : Envelope → Message
sent e = object (
    field "correlationId" (string e.correlation_id)
    ∷ field "domainJobId" (string e.domain_job_id)
    ∷ field "handlerVersion" (number (fraction e.handler_version 0))
    ∷ field "queueName" (string e.queue_name)
    ∷ field "workspaceId" (string e.workspace_id)
    ∷ [])

-- What an envelope that is delivered satisfies.
abbrev pub IsDeliverable : Envelope → Type 0
IsDeliverable e =
    (is_uuid e.correlation_id ≡ true)
    × (is_uuid e.domain_job_id ≡ true)
    × (is_positive_safe e.handler_version ≡ true)
    × (is_queue_name e.queue_name ≡ true)
    × (is_uuid e.workspace_id ≡ true)

safe_version-whole : (n : ℕ) → is_positive_safe n ≡ true → safe_version (fraction n 0) ≡ some n
unfolding safe_version
safe_version-whole n h = ground arith

-- An envelope with UUIDs for identifiers, a version from 1 to the largest safe integer and the name of
-- a queue is parsed to itself from the object that it is sent as.
pub parse_sent : (e : Envelope) → IsDeliverable e → parse_queue_job_envelope (sent e) ≡ some e
unfolding parse_queue_job_envelope get count_where
parse_sent e h =
    let whole = safe_version-whole e.handler_version h.2 in rw (h.0, h.1, whole, h.3, h.4) refl

safe_version-some : (x : Number) (n : ℕ) → safe_version x ≡ some n → is_positive_safe n ≡ true
unfolding safe_version
safe_version-some x n h = ground arith

if_text-some :
    {A : Type 0} (test : String → Bool) (v : Value) (f : String → Option A) (a : A)
    → if_text test v f ≡ some a
    → (s : String) × (test s ≡ true) × (f s ≡ some a)
if_text-some test (string s) f a h = elim (Bool-cases (test s)) [
  | inl t ↦ (s, t, ground arith)
  | inr t ↦ absurd (ground arith)
]
if_text-some test (number x) f a h = absurd (ground arith)
if_text-some test anything_else f a h = absurd (ground arith)

if_version-some :
    {A : Type 0} (v : Value) (f : ℕ → Option A) (a : A)
    → if_version v f ≡ some a
    → (n : ℕ) × (is_positive_safe n ≡ true) × (f n ≡ some a)
if_version-some (string s) f a h = absurd (ground arith)
if_version-some (number x) f a h = elim (Option-cases (safe_version x)) [
  | inl q ↦ absurd (ground arith)
  | inr (n, q) ↦ (n, safe_version-some x n q, ground arith)
]
if_version-some anything_else f a h = absurd (ground arith)

parse_fields-Deliverable :
    (fields : List Field) (e : Envelope) → parse_fields fields ≡ some e → IsDeliverable e
parse_fields-Deliverable fields e h =
    let c = if_text-some is_uuid (get "correlationId" fields) _ e h in
    let d = if_text-some is_uuid (get "domainJobId" fields) _ e c.2 in
    let v = if_version-some (get "handlerVersion" fields) _ e d.2 in
    let q = if_text-some is_queue_name (get "queueName" fields) _ e v.2 in
    let w = if_text-some is_uuid (get "workspaceId" fields) _ e q.2 in
    let built : Envelope = record {
      correlation_id = c.0;
      domain_job_id = d.0;
      handler_version = v.0;
      queue_name = q.0;
      workspace_id = w.0;
    } in
    let same : built ≡ e = cc in rw (← same) (c.1, d.1, v.1, q.1, w.1)

parse-Deliverable :
    (m : Message) (e : Envelope) → parse_queue_job_envelope m ≡ some e → IsDeliverable e
unfolding parse_queue_job_envelope
parse-Deliverable no_record e h = absurd (ground arith)
parse-Deliverable (object fields) e h = elim (Bool-cases (count_where (λ f. true) fields == 5)) [
  | inl t ↦ parse_fields-Deliverable fields e (ground arith)
  | inr t ↦ absurd (ground arith)
]

-- An envelope that the parser makes of whatever message has identifiers that are UUIDs, a version from
-- 1 to the largest safe integer and the name of a queue, and the object that it is sent as is parsed
-- to it again.
pub reparse :
    (m : Message) (e : Envelope)
    → parse_queue_job_envelope m ≡ some e
    → IsDeliverable e × (parse_queue_job_envelope (sent e) ≡ some e)
reparse m e h = (parse-Deliverable m e h, parse_sent e (parse-Deliverable m e h))
