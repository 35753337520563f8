-- ===== src/Admin/Direct.antt =====
-- app/admin/routes.py: the takeover of a conversation that has no case, and the messages of the person who has it.
use chat_bot_ceiba.Common.{
  ℕ, Bool, true, false, not, Option, none, some, List, [], ◌∷◌, ◌++◌, String, Result, ok, contains,
  ◌==◌, raise_if, or_raise, ◌>>=◌, ◌>>◌, if◌then◌else◌,
}
use chat_bot_ceiba.Rows.Json.{integer}
use chat_bot_ceiba.Rows.Audit.{AuditEvent, AuditValue, opt_num}
use chat_bot_ceiba.Rows.Handoff.{Handoff, taken}
use chat_bot_ceiba.Conversation.{
  Conversation, ConversationState, same_state, state_text, bot_active, answering_information,
  collecting_event_data, waiting_for_appointment_date, waiting_for_appointment_selection,
  appointment_pending_confirmation, appointment_confirmed, waiting_for_human, human_active,
  resolved, closed,
}
use chat_bot_ceiba.Channel.Outbox.Row.{
  OutboxRow, OutboxStatus, Deliveries, Message, conversation_key, text_message, object,
}
use chat_bot_ceiba.Rows.Table.{put}
use chat_bot_ceiba.Channel.Outbox.Context.{human_context}
use chat_bot_ceiba.Admin.Ownership.{
  RequestError, http, by_conversation, lock_human_case, require_case_owner,
  require_unassigned_conversation,
}
use chat_bot_ceiba.Admin.Takeover.{Agent, moved_to, assigned_to_agent, wait_for_human, taken_event}

-- `DIRECT_TAKE_ELIGIBLE_STATES`
abbrev pub direct_take_eligible : ConversationState → Bool
direct_take_eligible bot_active = true
direct_take_eligible answering_information = true
direct_take_eligible collecting_event_data = true
direct_take_eligible waiting_for_appointment_date = true
direct_take_eligible waiting_for_appointment_selection = true
direct_take_eligible appointment_pending_confirmation = true
direct_take_eligible appointment_confirmed = true
direct_take_eligible resolved = true
direct_take_eligible _ = false

-- The refusals before the assignment is looked at.
unfoldable pub require_direct : Conversation → Result RequestError (Unit {0})
require_direct c = do
  raise_if (same_state c.state human_active)
      (http 409 "Conversation already has an active human agent")
  raise_if (same_state c.state closed)
      (http 409 "Closed conversations require explicit admin reopening")
  raise_if (same_state c.state waiting_for_human)
      (http 409 "Conversation has a handoff pendiente; take the existing handoff")
  raise_if (not (direct_take_eligible c.state))
      (http 409 "Conversation state is not eligible for direct takeover")

abbrev pub reopened_event : Conversation → Agent → AuditEvent
reopened_event c agent = record {
  actor = agent.name;
  action = "CONVERSATION_REOPENED";
  entity = "conversation";
  old_value = some (
      ("conversation_id", AuditValue.num c.conversation_id)
      ∷ ("state", AuditValue.text (state_text c.state))
      ∷ []);
  new_value = some (
      ("conversation_id", AuditValue.num c.conversation_id)
      ∷ ("state", AuditValue.text "BOT_ACTIVE")
      ∷ []);
  reason = "Direct takeover reopened resolved conversation";
}

-- A resolved conversation is reopened first.
unfoldable pub reopened :
    Conversation
    → Agent
    → String
    → List AuditEvent
    → Result RequestError (Conversation × List AuditEvent)
reopened c agent epoch log =
    if same_state c.state resolved
    then moved_to c bot_active agent.name (some "Direct takeover reopening") epoch
        (log ++ reopened_event c agent ∷ [])
    else ok (c, log)

abbrev pub manual_case : ℕ → Conversation → Agent → ℕ → Handoff
manual_case k c agent now = record {
  handoff_id = k;
  conversation_id = c.conversation_id;
  status = taken;
  reason = "MANUAL_TAKEOVER";
  priority = "NORMAL";
  assigned_to = some agent.name;
  assigned_agent_id = some agent.agent_id;
  taken_at = some now;
  resolved_at = none;
}

abbrev pub manual_event : Handoff → Agent → AuditEvent
manual_event h agent = record {
  actor = agent.name;
  action = "HANDOFF_CREATED";
  entity = "handoff";
  old_value = none;
  new_value = some (
      ("handoff_id", AuditValue.num h.handoff_id)
      ∷ ("conversation_id", AuditValue.num h.conversation_id)
      ∷ ("reason", AuditValue.text "MANUAL_TAKEOVER")
      ∷ ("priority", AuditValue.text "NORMAL")
      ∷ ("status", AuditValue.text "TAKEN")
      ∷ []);
  reason = "Manual direct takeover";
}

abbrev pub takeover_event : Conversation → Handoff → Agent → AuditEvent
takeover_event before h agent = record {
  actor = agent.name;
  action = "CONVERSATION_MANUAL_TAKEOVER";
  entity = "conversation";
  old_value = some (
      ("conversation_id", AuditValue.num before.conversation_id)
      ∷ ("state", AuditValue.text (state_text before.state))
      ∷ ("bot_enabled", AuditValue.flag before.bot_enabled)
      ∷ ("assigned_agent_id", opt_num before.assigned_agent_id)
      ∷ []);
  new_value = some (
      ("conversation_id", AuditValue.num before.conversation_id)
      ∷ ("handoff_id", AuditValue.num h.handoff_id)
      ∷ ("state", AuditValue.text "HUMAN_ACTIVE")
      ∷ ("bot_enabled", AuditValue.flag false)
      ∷ ("assigned_to", AuditValue.text agent.name)
      ∷ ("assigned_agent_id", AuditValue.num agent.agent_id)
      ∷ []);
  reason = "Manual direct takeover";
}

-- The UUIDs that the writes of the conversation may draw.
pub record Epochs : Type 0 where
  pub reopening : String
  pub disabling : String
  pub waiting : String
  pub active : String

unfoldable pub move_conversation_to_human_active :
    Conversation
    → String
    → String
    → String
    → String
    → List AuditEvent
    → Result RequestError (Conversation × List AuditEvent)
move_conversation_to_human_active c actor reason epoch epoch' log =
    if same_state c.state human_active then ok (c, log) else (do
      m ←
          (if same_state c.state waiting_for_human
            then ok (c, log)
            else moved_to c waiting_for_human actor (some reason) epoch log)
      moved_to m.0 human_active actor (some reason) epoch' m.1)

unfoldable pub take_conversation :
    Agent → ℕ → ℕ → ℕ → Epochs → Deliveries → Result RequestError Deliveries
unfolding require_direct reopened move_conversation_to_human_active
take_conversation agent k new_id now e s = do
  found ← lock_human_case (by_conversation k) s
  raise_if (not (contains found.0.customer_id s.customers))
      (http 409 "Conversation has no customer")
  require_direct found.0
  require_unassigned_conversation found.0 found.1
  again ← reopened found.0 agent e.reopening s.trail
  let h = manual_case new_id found.0 agent now
  moved ←
      move_conversation_to_human_active
        (wait_for_human (assigned_to_agent again.0 agent e.disabling)) agent.name
        "Manual direct takeover" e.waiting e.active (again.1 ++ manual_event h agent ∷ [])
  ok (record s {
    cases = s.cases ++ h ∷ [];
    conversations = put conversation_key moved.0 s.conversations;
    trail =
        moved.1
        ++ taken_event h found.0 agent "Manual direct takeover"
          ∷ takeover_event found.0 h agent
          ∷ [];
  })

-- The last message of the conversation: messages stand in the order of their ids.
unfoldable pub latest_message : ℕ → List Message → Option Message
latest_message k [] = none
latest_message k (m ∷ ms) =
    let later = latest_message k ms in
    elim later [ some n ↦ some n | none ↦ if m.conversation_id == k then some m else none ]

abbrev pub agent_row : ℕ → Conversation → ℕ → Agent → String → String → ℕ → OutboxRow
agent_row k c message agent phone body now = record {
  outbox_id = k;
  conversation_id = c.conversation_id;
  message_id = message;
  recipient_phone_number = phone;
  payload = record { agent = true; body = some body; caption = none };
  message_kind = text_message;
  catalog_asset_id = none;
  status = OutboxStatus.pending;
  attempts = 0;
  last_error = none;
  sent_at = none;
  next_attempt_at = none;
  claimed_at = none;
  claim_token = none;
  delivery_context = some (object (human_context agent.agent_id));
  send_admission = none;
  delivery_reason = none;
  delivery_decided_at = none;
  created_at = now;
}

abbrev pub enqueued_event : ℕ → Conversation → Agent → AuditEvent
enqueued_event k c agent = record {
  actor = agent.name;
  action = "AGENT_MESSAGE_ENQUEUED";
  entity = "outbox";
  old_value = none;
  new_value = some (
      ("conversation_id", AuditValue.num c.conversation_id) ∷ ("outbox_id", AuditValue.num k) ∷ []);
  reason = "Human agent message queued through admin API";
}

-- `phone` gives a customer's number; the event stands in the trail, and as `human_proof` reads it.
unfoldable pub create_agent_message :
    Agent → (ℕ → String) → ℕ → String → ℕ → ℕ → ℕ → Deliveries → Result RequestError Deliveries
unfolding latest_message
create_agent_message agent phone k body new_id event_id now s = do
  found ← lock_human_case (by_conversation k) s
  h ← require_case_owner found.0 found.1 agent.agent_id
  m ←
      or_raise
        (if contains found.0.customer_id s.customers
          then latest_message found.0.conversation_id s.messages
          else none)
        (http 409 "Conversation cannot receive agent messages")
  ok (record s {
    rows =
        s.rows
        ++ agent_row new_id found.0 m.message_id agent (phone found.0.customer_id) body now ∷ [];
    enqueued =
        s.enqueued
        ++ record {
          event_id = event_id;
          outbox_id = some (integer new_id);
          conversation_id = some (integer found.0.conversation_id);
        }
          ∷ [];
    trail = s.trail ++ enqueued_event new_id found.0 agent ∷ [];
  })
