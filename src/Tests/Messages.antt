-- ===== src/Tests/Messages.antt =====
-- The rows of the outbox that the runs start from.
use chat_bot_ceiba.Common.{ℕ, Bool, true, false, Option, none, some, List, [], ◌∷◌, ◌+◌}
use chat_bot_ceiba.Rows.Json.{Json, integer, text}
use chat_bot_ceiba.Conversation.{Conversation, bot_active, waiting_for_human}
use chat_bot_ceiba.Channel.Outbox.Row.{
  OutboxRow, OutboxStatus, DeliveryContext, object, Deliveries, Message, inbound, other_content,
  text_message, document_message,
}
use chat_bot_ceiba.Channel.Outbox.Settle.{Limits}

abbrev pub talk : Conversation
talk = record {
  conversation_id = 1;
  customer_id = 7;
  state = bot_active;
  bot_enabled = true;
  automation_epoch = "5b8e";
  assigned_agent_id = none;
  pending_action = none;
  context = 40;
}

abbrev pub waiting_talk : Conversation
waiting_talk = record talk { state = waiting_for_human }

abbrev pub limits : Limits
limits = record { max_attempts = 5; max_backoff_seconds = 300; sending_timeout_seconds = 120 }

abbrev pub automatic : Option Json → DeliveryContext
automatic after = record {
  origin = some (text "AUTO");
  purpose = some (text "TEMPLATE");
  epoch = some (text "5b8e");
  case_id = none;
  evidence_id = none;
  handoff_id = none;
  decision = none;
  agent_id = none;
  legacy_proof = none;
  after_outbox_id = after;
}

abbrev pub notice : DeliveryContext
notice = record (automatic none) {
  origin = some (text "HANDOFF_NOTICE");
  purpose = some (text "TRANSFER");
  case_id = some (integer 4);
}

abbrev pub greeting : OutboxRow
greeting = record {
  outbox_id = 1;
  conversation_id = 1;
  message_id = 21;
  recipient_phone_number = "573001112233";
  payload = record { agent = false; body = some "Hola"; caption = none };
  message_kind = text_message;
  catalog_asset_id = none;
  status = OutboxStatus.pending;
  attempts = 0;
  last_error = none;
  sent_at = none;
  next_attempt_at = none;
  claimed_at = none;
  claim_token = none;
  delivery_context = some (object (automatic none));
  send_admission = none;
  delivery_reason = none;
  delivery_decided_at = none;
  created_at = 100;
}

abbrev pub sent_greeting : OutboxRow
sent_greeting = record greeting { status = OutboxStatus.sent; sent_at = some 500 }

abbrev pub catalog : OutboxRow
catalog = record greeting {
  outbox_id = 2;
  payload = record { agent = false; body = none; caption = some "Nuestro catálogo" };
  message_kind = document_message;
  catalog_asset_id = some 9;
  delivery_context = some (object (automatic (some (integer 1))));
}

abbrev pub question : Message
question = record {
  message_id = 21;
  external_message_id = "wamid.1";
  conversation_id = 1;
  customer_id = 7;
  direction = inbound;
  message_type = "text";
  content = other_content;
}

abbrev pub office : List OutboxRow → Deliveries
office rows = record {
  rows = rows;
  conversations = talk ∷ [];
  customers = 7 ∷ [];
  cases = [];
  evidences = [];
  reservations = [];
  messages = question ∷ [];
  enqueued = [];
  trail = [];
}

abbrev pub two_rows : Deliveries
two_rows = office (greeting ∷ catalog ∷ [])

abbrev pub after_text : Deliveries
after_text = office (sent_greeting ∷ catalog ∷ [])

abbrev pub nobody : ℕ → Bool
nobody k = false

abbrev pub token : ℕ → ℕ
token k = 90 + k
