-- ===== src/Tests/Admin.antt =====
-- Runs of the requests on cases.
use chat_bot_ceiba.Common.{
  ℕ, ◌≡◌, refl, true, false, none, some, [], ◌∷◌, ◌++◌, String, ok, err, arith, ◌==◌, opt_eq,
  select, if◌then◌else◌,
}
use chat_bot_ceiba.Rows.Table.{get, put}
use chat_bot_ceiba.Rows.Handoff.{Handoff, HandoffStatus}
use chat_bot_ceiba.Conversation.{
  Conversation, human_active, waiting_for_human, transition_conversation, set_state,
  set_bot_enabled,
}
use chat_bot_ceiba.Channel.Outbox.Row.{
  OutboxRow, Deliveries, Message, inbound, other_content, conversation_key,
}
use chat_bot_ceiba.Channel.Outbox.Eligibility.{open_case_of, is_eligible, eligibility}
use chat_bot_ceiba.Channel.Outbox.Reach.{IsNew}
use chat_bot_ceiba.Admin.Ownership.{
  http, lock_human_case, require_pending_case, require_case_owner, require_owned_case,
}
use chat_bot_ceiba.Admin.Takeover.{Agent, take_handoff}
use chat_bot_ceiba.Admin.Direct.{create_agent_message, latest_message}
use chat_bot_ceiba.Admin.Owner.{Cared}
use chat_bot_ceiba.Admin.Reach.{start, next, takes, Reach-Cared, owner_only}
use chat_bot_ceiba.Admin.Reply.{create_agent_message-eligible}
use chat_bot_ceiba.Tests.Data.{returned}

abbrev ana : Agent
ana = record { agent_id = 3; name = "Ana"; active = true }

abbrev asking : Conversation
asking = record {
  conversation_id = 1;
  customer_id = 7;
  state = waiting_for_human;
  bot_enabled = true;
  automation_epoch = "5b8e";
  assigned_agent_id = none;
  pending_action = some "WAIT_FOR_HUMAN";
  context = 40;
}

abbrev transfer_case : Handoff
transfer_case = record {
  handoff_id = 4;
  conversation_id = 1;
  status = HandoffStatus.pending;
  reason = "CUSTOMER_REQUEST";
  priority = "NORMAL";
  assigned_to = none;
  assigned_agent_id = none;
  taken_at = none;
  resolved_at = none;
}

abbrev request : Message
request = record {
  message_id = 21;
  external_message_id = "wamid.1";
  conversation_id = 1;
  customer_id = 7;
  direction = inbound;
  message_type = "text";
  content = other_content;
}

abbrev desk : Deliveries
desk = record {
  rows = [];
  conversations = asking ∷ [];
  customers = 7 ∷ [];
  cases = transfer_case ∷ [];
  evidences = [];
  reservations = [];
  messages = request ∷ [];
  enqueued = [];
  trail = [];
}

abbrev in_hands : Deliveries
in_hands = returned desk (take_handoff ana 4 900 "91c0" "d27f" desk)

ana_takes : take_handoff ana 4 900 "91c0" "d27f" desk ≡ ok in_hands
unfolding take_handoff lock_human_case require_pending_case transition_conversation set_state
    set_bot_enabled get put
ana_takes = refl

desk-Cared : Cared desk
unfolding get
desk-Cared = record { ids = (tt, tt); held = λ k c here assigned. ground arith }

in_hands-Cared : Cared in_hands
in_hands-Cared =
    Reach-Cared desk in_hands (next start (takes ana 4 900 "91c0" "d27f" ana_takes)) desk-Cared

Reach-Cared_example : Cared in_hands
Reach-Cared_example =
    Reach-Cared desk in_hands (next start (takes ana 4 900 "91c0" "d27f" ana_takes)) desk-Cared

abbrev served : Conversation
served = record asking {
  state = human_active;
  bot_enabled = false;
  automation_epoch = "d27f";
  assigned_agent_id = some 3;
}

abbrev no_one : Conversation
no_one = record asking { assigned_agent_id = none }

in_hands_stored : get conversation_key 1 in_hands.conversations ≡ some served
unfolding take_handoff lock_human_case require_pending_case transition_conversation set_state
    set_bot_enabled get put
in_hands_stored = refl

owner_only_example :
    (h : Handoff) × (require_case_owner served (select (open_case_of 1) in_hands.cases) 5
      ≡ (if 3 == 5 then ok h else err (http 403 "Case mutation is not permitted")))
owner_only_example = owner_only in_hands 1 3 5 served in_hands-Cared in_hands_stored refl

abbrev phone : ℕ → String
phone k = "573001112233"

abbrev answered_desk : Deliveries
answered_desk =
    returned in_hands (create_agent_message ana phone 1 "Buenas tardes" 30 55 950 in_hands)

ana_answers : create_agent_message ana phone 1 "Buenas tardes" 30 55 950 in_hands ≡ ok answered_desk
unfolding create_agent_message latest_message require_case_owner require_owned_case take_handoff
    lock_human_case require_pending_case transition_conversation set_state set_bot_enabled get put
ana_answers = refl

create_agent_message-eligible_example :
    (c : Conversation) × (r : OutboxRow) × (get conversation_key c.conversation_id
        in_hands.conversations
      ≡ some c)
    × (opt_eq c.assigned_agent_id 3 ≡ true)
    × (answered_desk.rows ≡ in_hands.rows ++ r ∷ [])
    × (r.conversation_id ≡ c.conversation_id)
    × (r.payload.body ≡ some "Buenas tardes")
    × IsNew r
    × ((later : Conversation) → is_eligible (eligibility answered_desk later r).0 ≡ true)
create_agent_message-eligible_example =
    create_agent_message-eligible ana phone 1 "Buenas tardes" 30 55 950 in_hands answered_desk
      ana_answers
