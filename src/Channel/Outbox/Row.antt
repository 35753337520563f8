-- ===== src/Channel/Outbox/Row.antt =====
-- The rows of app/channel/models.py that the delivery of messages reads and writes. `payload` and
-- `delivery_context` are JSON objects, kept as records of the keys that the code reads.
use chat_bot_ceiba.Common.{ℕ, Bool, true, false, Option, none, some, List, String}
use chat_bot_ceiba.Rows.Json.{Json}
use chat_bot_ceiba.Rows.Handoff.{Handoff}
use chat_bot_ceiba.Rows.Evidence.{PaymentEvidence}
use chat_bot_ceiba.Rows.Reservation.{Reservation}
use chat_bot_ceiba.Rows.Audit.{AuditEvent}
use chat_bot_ceiba.Conversation.{Conversation}

pub data OutboxStatus : Type 0 where
  pending sending sent failed suppressed review : OutboxStatus

pub data MessageKind : Type 0 where
  text_message document_message : MessageKind

-- `payload["agent"] is True`, `payload["text"]["body"]` and `payload["document"]["caption"]` where they are texts.
pub record Payload : Type 0 where
  pub agent : Bool
  pub body : Option String
  pub caption : Option String

pub record DeliveryContext : Type 0 where
  pub origin : Option Json
  pub purpose : Option Json
  pub epoch : Option Json
  pub case_id : Option Json
  pub evidence_id : Option Json
  pub handoff_id : Option Json
  pub decision : Option Json
  pub agent_id : Option Json
  pub legacy_proof : Option Json
  pub after_outbox_id : Option Json

-- A column of JSON that is not null.
pub data StoredContext : Type 0 where
  object : DeliveryContext → StoredContext
  not_object : StoredContext

pub data Phase : Type 0 where
  admitted unknown sent_phase rejected_media : Phase

pub record Admission : Type 0 where
  pub admission_id : Option ℕ
  pub claim_token : Option ℕ
  pub at : Option ℕ
  pub phase : Phase

pub record OutboxRow : Type 0 where
  pub outbox_id : ℕ
  pub conversation_id : ℕ
  pub message_id : ℕ
  pub recipient_phone_number : String
  pub payload : Payload
  pub message_kind : MessageKind
  pub catalog_asset_id : Option ℕ
  pub status : OutboxStatus
  pub attempts : ℕ
  pub last_error : Option String
  pub sent_at : Option ℕ
  pub next_attempt_at : Option ℕ
  pub claimed_at : Option ℕ
  pub claim_token : Option ℕ
  pub delivery_context : Option StoredContext
  pub send_admission : Option Admission
  pub delivery_reason : Option String
  pub delivery_decided_at : Option ℕ
  pub created_at : ℕ

pub data Direction : Type 0 where
  inbound outbound : Direction

pub data Content : Type 0 where
  text_content : String → Content
  document_content : ℕ → String → String → Content
  other_content : Content

pub record Message : Type 0 where
  pub message_id : ℕ
  pub external_message_id : String
  pub conversation_id : ℕ
  pub customer_id : ℕ
  pub direction : Direction
  pub message_type : String
  pub content : Content

-- An audit event AGENT_MESSAGE_ENQUEUED of the entity "outbox", with the two values that are read of it.
pub record EnqueueEvent : Type 0 where
  pub event_id : ℕ
  pub outbox_id : Option Json
  pub conversation_id : Option Json

pub record Deliveries : Type 0 where
  pub rows : List OutboxRow
  pub conversations : List Conversation
  pub customers : List ℕ
  pub cases : List Handoff
  pub evidences : List PaymentEvidence
  pub reservations : List Reservation
  pub messages : List Message
  pub enqueued : List EnqueueEvent
  pub trail : List AuditEvent

abbrev pub outbox_key : OutboxRow → ℕ
outbox_key r = r.outbox_id

abbrev pub conversation_key : Conversation → ℕ
conversation_key c = c.conversation_id

abbrev pub message_key : Message → ℕ
message_key m = m.message_id

abbrev pub is_pending : OutboxStatus → Bool
is_pending pending = true
is_pending _ = false

abbrev pub is_sending : OutboxStatus → Bool
is_sending sending = true
is_sending _ = false

abbrev pub is_sent : OutboxStatus → Bool
is_sent sent = true
is_sent _ = false

abbrev pub is_suppressed : OutboxStatus → Bool
is_suppressed suppressed = true
is_suppressed _ = false

-- SENT, FAILED, SUPPRESSED or REVIEW.
abbrev pub is_settled : OutboxStatus → Bool
is_settled pending = false
is_settled sending = false
is_settled _ = true

abbrev pub is_text_kind : MessageKind → Bool
is_text_kind text_message = true
is_text_kind document_message = false

abbrev pub is_inbound : Direction → Bool
is_inbound inbound = true
is_inbound outbound = false

abbrev pub phase_is_admitted : Option Admission → Bool
phase_is_admitted none = false
phase_is_admitted (some a) = elim a.phase [ admitted ↦ true | _ ↦ false ]

-- phase in {"ADMITTED", "UNKNOWN"}
abbrev pub is_uncertain : Option Admission → Bool
is_uncertain none = false
is_uncertain (some a) = elim a.phase [ admitted ↦ true | unknown ↦ true | _ ↦ false ]
