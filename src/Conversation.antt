-- ===== src/Conversation.antt =====
-- app/conversation/: the states of a conversation and the transitions between them.
pub mod Reach
use Prim.Native.String.{◌++◌ as cat}
use chat_bot_ceiba.Common.{
  ℕ, Bool, Option, none, some, List, [], ◌∷◌, ◌++◌, String, Result, ok, err, ◌==◌, any_of,
  is_empty_text, raise_if, ◌>>=◌, ◌>>◌, not, true, false, ◌&&◌, ◌||◌, if◌then◌else◌,
}
use chat_bot_ceiba.Rows.Audit.{AuditEvent, AuditValue}

pub data ConversationState : Type 0 where
  new bot_active answering_information collecting_event_data quote_request_ready : ConversationState
  waiting_for_appointment_date waiting_for_appointment_selection : ConversationState
  appointment_pending_confirmation appointment_confirmed waiting_for_human human_active :
      ConversationState
  returned_to_bot resolved closed : ConversationState

-- The value of each member.
abbrev pub state_text : ConversationState → String
state_text new = "NEW"
state_text bot_active = "BOT_ACTIVE"
state_text answering_information = "ANSWERING_INFORMATION"
state_text collecting_event_data = "COLLECTING_EVENT_DATA"
state_text quote_request_ready = "QUOTE_REQUEST_READY"
state_text waiting_for_appointment_date = "WAITING_FOR_APPOINTMENT_DATE"
state_text waiting_for_appointment_selection = "WAITING_FOR_APPOINTMENT_SELECTION"
state_text appointment_pending_confirmation = "APPOINTMENT_PENDING_CONFIRMATION"
state_text appointment_confirmed = "APPOINTMENT_CONFIRMED"
state_text waiting_for_human = "WAITING_FOR_HUMAN"
state_text human_active = "HUMAN_ACTIVE"
state_text returned_to_bot = "RETURNED_TO_BOT"
state_text resolved = "RESOLVED"
state_text closed = "CLOSED"

abbrev pub state_index : ConversationState → ℕ
state_index new = 0
state_index bot_active = 1
state_index answering_information = 2
state_index collecting_event_data = 3
state_index quote_request_ready = 4
state_index waiting_for_appointment_date = 5
state_index waiting_for_appointment_selection = 6
state_index appointment_pending_confirmation = 7
state_index appointment_confirmed = 8
state_index waiting_for_human = 9
state_index human_active = 10
state_index returned_to_bot = 11
state_index resolved = 12
state_index closed = 13

abbrev pub same_state : ConversationState → ConversationState → Bool
same_state a b = state_index a == state_index b

-- `ALLOWED_TRANSITIONS`
abbrev pub allowed_transitions : ConversationState → List ConversationState
allowed_transitions new = bot_active ∷ waiting_for_human ∷ closed ∷ []
allowed_transitions bot_active =
    answering_information ∷ collecting_event_data ∷ waiting_for_appointment_date
    ∷ waiting_for_appointment_selection ∷ appointment_pending_confirmation ∷ waiting_for_human
    ∷ resolved ∷ closed ∷ []
allowed_transitions answering_information =
    bot_active ∷ collecting_event_data ∷ waiting_for_appointment_date ∷ waiting_for_human ∷ resolved
    ∷ []
allowed_transitions collecting_event_data =
    collecting_event_data ∷ answering_information ∷ quote_request_ready ∷ bot_active
    ∷ waiting_for_appointment_date ∷ waiting_for_human ∷ resolved ∷ []
allowed_transitions quote_request_ready =
    collecting_event_data ∷ waiting_for_human ∷ bot_active ∷ resolved ∷ []
allowed_transitions waiting_for_appointment_date =
    waiting_for_appointment_date ∷ waiting_for_appointment_selection ∷ answering_information
    ∷ waiting_for_human ∷ bot_active ∷ []
allowed_transitions waiting_for_appointment_selection =
    waiting_for_appointment_selection ∷ appointment_pending_confirmation
    ∷ waiting_for_appointment_date ∷ answering_information ∷ waiting_for_human ∷ bot_active ∷ []
allowed_transitions appointment_pending_confirmation =
    appointment_confirmed ∷ waiting_for_appointment_date ∷ waiting_for_appointment_selection
    ∷ bot_active ∷ waiting_for_human ∷ []
allowed_transitions appointment_confirmed =
    bot_active ∷ waiting_for_appointment_date ∷ waiting_for_appointment_selection
    ∷ appointment_pending_confirmation ∷ waiting_for_human ∷ resolved ∷ []
allowed_transitions waiting_for_human = human_active ∷ bot_active ∷ resolved ∷ closed ∷ []
allowed_transitions human_active = returned_to_bot ∷ resolved ∷ closed ∷ waiting_for_human ∷ []
allowed_transitions returned_to_bot =
    bot_active ∷ collecting_event_data ∷ waiting_for_appointment_date ∷ resolved ∷ waiting_for_human
    ∷ []
allowed_transitions resolved = bot_active ∷ human_active ∷ closed ∷ []
allowed_transitions closed = bot_active ∷ human_active ∷ []

-- The columns of a conversation that the modelled code reads, the automation epoch as the text of its UUID;
-- `context` stands for the others that go into the fingerprint of `channel/inbox.py`.
pub record Conversation : Type 0 where
  pub conversation_id : ℕ
  pub customer_id : ℕ
  pub state : ConversationState
  pub bot_enabled : Bool
  pub automation_epoch : String
  pub assigned_agent_id : Option ℕ
  pub pending_action : Option String
  pub context : ℕ

pub data StateError : Type 0 where
  invalid_state_transition : String → StateError

abbrev pub arrow : ConversationState → ConversationState → String
arrow old target = cat (state_text old) (cat " -> " (state_text target))

-- `reason or f"{old} -> {new}"`
abbrev pub transition_reason : Option String → ConversationState → ConversationState → String
transition_reason none old target = arrow old target
transition_reason (some r) old target = if is_empty_text r then arrow old target else r

abbrev pub state_value : ℕ → ConversationState → Option (List (String × AuditValue))
state_value k state =
    some
      (("conversation_id", AuditValue.num k) ∷ ("state", AuditValue.text (state_text state)) ∷ [])

abbrev pub state_transition : Conversation → ConversationState → String → Option String → AuditEvent
state_transition c target actor reason = record {
  actor = actor;
  action = "CONVERSATION_STATE_TRANSITION";
  entity = "conversation";
  old_value = state_value c.conversation_id c.state;
  new_value = state_value c.conversation_id target;
  reason = transition_reason reason c.state target;
}

-- The states in which the assistant does not write.
abbrev pub is_paused : ConversationState → Bool
is_paused waiting_for_human = true
is_paused human_active = true
is_paused closed = true
is_paused _ = false

-- `conversation.state = value`, through `validate_state`; `epoch` is the UUID that it draws.
unfoldable pub set_state : ConversationState → String → Conversation → Conversation
set_state value epoch c =
    let renewed = not (same_state value c.state) && (is_paused value || is_paused c.state) in
    record c { state = value; automation_epoch = if renewed then epoch else c.automation_epoch }

-- `conversation.bot_enabled = enabled`, through `invalidate_disabled_automation`
unfoldable pub set_bot_enabled : Bool → String → Conversation → Conversation
set_bot_enabled enabled epoch c =
    let renewed = (enabled && not c.bot_enabled) || (not enabled && c.bot_enabled) in
    record c {
      bot_enabled = enabled;
      automation_epoch = if renewed then epoch else c.automation_epoch;
    }

unfoldable pub transition_conversation :
    Conversation
    → ConversationState
    → String
    → Option String
    → String
    → List AuditEvent
    → Result StateError (Conversation × List AuditEvent)
transition_conversation c target actor reason epoch log = do
  raise_if (not (any_of (same_state target) (allowed_transitions c.state)))
      (invalid_state_transition (arrow c.state target))
  ok (set_state target epoch c, log ++ state_transition c target actor reason ∷ [])
