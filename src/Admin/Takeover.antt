-- ===== src/Admin/Takeover.antt =====
-- app/handoff/service.py and the requests of app/admin/routes.py on one case: it is opened, taken, reassigned,
-- answered and returned. The agent is the one that the session belongs to; the epochs are the UUIDs that the writes
-- of a conversation may draw, in their order; new keys and times come in as arguments.
use chat_bot_ceiba.Common.{
  ℕ, Bool, true, false, not, Option, none, some, List, [], ◌∷◌, ◌++◌, String, Result, ok, err,
  opt_eq, raise_if, or_raise, ◌>>=◌, ◌>>◌, text_eq, any_of, if◌then◌else◌,
}
use chat_bot_ceiba.Rows.Table.{get, put}
use chat_bot_ceiba.Rows.Audit.{AuditEvent, AuditValue, opt_text, opt_num}
use chat_bot_ceiba.Rows.Handoff.{Handoff, pending, taken, returned, handoff_key}
use chat_bot_ceiba.Conversation.{
  Conversation, ConversationState, transition_conversation, set_bot_enabled, same_state, bot_active,
  waiting_for_human, human_active, returned_to_bot,
}
use chat_bot_ceiba.Channel.Outbox.Row.{Deliveries, conversation_key}
use chat_bot_ceiba.Admin.Ownership.{
  RequestError, http, invalid_transition, by_conversation, by_handoff, lock_human_case,
  require_owned_case, require_case_owner, require_pending_case,
}

pub record Agent : Type 0 where
  pub agent_id : ℕ
  pub name : String
  pub active : Bool

abbrev pub handoff_reasons : List String
handoff_reasons =
    "CUSTOMER_REQUEST" ∷ "QUOTE_PREPARATION" ∷ "PRICE_NEGOTIATION" ∷ "DISCOUNT_REQUEST"
    ∷ "PAYMENT_REVIEW" ∷ "RESERVATION_CONFIRMATION" ∷ "CANCELLATION" ∷ "COMPLAINT"
    ∷ "LOW_CONFIDENCE" ∷ "UNSUPPORTED_REQUEST" ∷ "CAPACITY_REVIEW" ∷ "SPECIAL_EVENT"
    ∷ "SUPPLIER_CONFIRMATION" ∷ "URGENT_EVENT" ∷ "SYSTEM_ERROR" ∷ "REPEATED_NO_SHOW"
    ∷ "MANUAL_TAKEOVER" ∷ "TEMPLATE_UNAVAILABLE" ∷ "CATALOG_NOT_AVAILABLE" ∷ "OTHER" ∷ []

unfoldable pub normalize_handoff_reason : String → String
normalize_handoff_reason reason =
    if any_of (text_eq reason) handoff_reasons then reason else "OTHER"

-- A refused transition inside a request.
abbrev pub moved_to :
    Conversation
    → ConversationState
    → String
    → Option String
    → String
    → List AuditEvent
    → Result RequestError (Conversation × List AuditEvent)
moved_to c target actor reason epoch log =
    elim (transition_conversation c target actor reason epoch log) [
      | ok moved ↦ ok moved
      | err e ↦ err (invalid_transition e)
    ]

abbrev pub put_conversation : Conversation → Deliveries → Deliveries
put_conversation c s = record s { conversations = put conversation_key c s.conversations }

-- The row that `create_handoff` adds.
abbrev pub opened_case : ℕ → ℕ → String → String → Handoff
opened_case k conversation reason priority = record {
  handoff_id = k;
  conversation_id = conversation;
  status = pending;
  reason = reason;
  priority = priority;
  assigned_to = none;
  assigned_agent_id = none;
  taken_at = none;
  resolved_at = none;
}

abbrev pub created_event : Conversation → String → Option String → String → AuditEvent
created_event c reason detail priority = record {
  actor = "SYSTEM";
  action = "HANDOFF_CREATED";
  entity = "handoff";
  old_value = none;
  new_value = some (
      ("conversation_id", AuditValue.num c.conversation_id)
      ∷ ("reason", AuditValue.text reason)
      ∷ ("detail", opt_text detail)
      ∷ ("priority", AuditValue.text priority)
      ∷ []);
  reason = reason;
}

abbrev pub wait_for_human : Conversation → Conversation
wait_for_human c = record c { pending_action = some "WAIT_FOR_HUMAN" }

-- Of the store, the case and the conversation; the summary's text and the response code are the caller's.
unfoldable pub create_handoff :
    ℕ
    → Conversation
    → String
    → String
    → Option String
    → String
    → Deliveries
    → Result RequestError Deliveries
unfolding normalize_handoff_reason
create_handoff new_id c reason priority detail epoch s =
    let why = normalize_handoff_reason reason in
    let h = opened_case new_id c.conversation_id why priority in
    let log = s.trail ++ created_event c why detail priority ∷ [] in
    let opened = record s { cases = s.cases ++ h ∷ []; trail = log } in
    if same_state c.state waiting_for_human
    then ok (put_conversation (wait_for_human c) opened)
    else (do
      moved ← moved_to (wait_for_human c) waiting_for_human "SYSTEM" (some why) epoch log
      ok (record (put_conversation moved.0 opened) { trail = moved.1 }))

abbrev pub taken_case : Handoff → Agent → ℕ → Handoff
taken_case h agent now = record h {
  status = taken;
  assigned_to = some agent.name;
  assigned_agent_id = some agent.agent_id;
  taken_at = some now;
}

abbrev pub taken_event : Handoff → Conversation → Agent → String → AuditEvent
taken_event h c agent reason = record {
  actor = agent.name;
  action = "HANDOFF_TAKEN";
  entity = "handoff";
  old_value = some (("status", AuditValue.text "PENDING") ∷ []);
  new_value = some (
      ("handoff_id", AuditValue.num h.handoff_id)
      ∷ ("conversation_id", AuditValue.num c.conversation_id)
      ∷ ("status", AuditValue.text "TAKEN")
      ∷ ("assigned_to", AuditValue.text agent.name)
      ∷ ("assigned_agent_id", AuditValue.num agent.agent_id)
      ∷ []);
  reason = reason;
}

-- The conversation with a person: the assistant is off.
abbrev pub assigned_to_agent : Conversation → Agent → String → Conversation
assigned_to_agent c agent epoch = record (set_bot_enabled false epoch c) {
  assigned_agent_id = some agent.agent_id;
}

unfoldable pub take_handoff :
    Agent → ℕ → ℕ → String → String → Deliveries → Result RequestError Deliveries
take_handoff agent k now epoch epoch' s = do
  found ← lock_human_case (by_handoff k) s
  h ← require_pending_case found.0 found.1
  moved ←
      moved_to (assigned_to_agent found.0 agent epoch) human_active agent.name
        (some "Handoff taken by human agent") epoch' s.trail
  ok (record s {
    cases = put handoff_key (taken_case h agent now) s.cases;
    conversations = put conversation_key moved.0 s.conversations;
    trail = moved.1 ++ taken_event h found.0 agent "Human agent took handoff" ∷ [];
  })

abbrev pub reassigned_event : Handoff → Conversation → String → Agent → AuditEvent
reassigned_event h c actor target = record {
  actor = actor;
  action = "HANDOFF_REASSIGNED";
  entity = "handoff";
  old_value = some (
      ("assigned_agent_id", opt_num h.assigned_agent_id)
      ∷ ("assigned_to", opt_text h.assigned_to)
      ∷ ("handoff_id", AuditValue.num h.handoff_id)
      ∷ ("conversation_id", AuditValue.num c.conversation_id)
      ∷ []);
  new_value = some (
      ("handoff_id", AuditValue.num h.handoff_id)
      ∷ ("conversation_id", AuditValue.num c.conversation_id)
      ∷ ("assigned_agent_id", AuditValue.num target.agent_id)
      ∷ ("assigned_to", AuditValue.text target.name)
      ∷ []);
  reason = "Admin reassigned human case";
}

abbrev pub agent_key : Agent → ℕ
agent_key a = a.agent_id

-- By an administrator whose name is `actor`; `agents` is the table of agents.
unfoldable pub reassign_conversation :
    List Agent → String → ℕ → ℕ → Deliveries → Result RequestError Deliveries
reassign_conversation agents actor k target_id s = do
  found ← lock_human_case (by_conversation k) s
  h ← require_owned_case found.0 found.1
  target ← or_raise (get agent_key target_id agents) (http 404 "Agent not found")
  raise_if (not target.active) (http 409 "Target agent is not active")
  raise_if (opt_eq found.0.assigned_agent_id target.agent_id)
      (http 409 "Agent already owns this case")
  ok (record s {
    cases =
        put handoff_key
          (record h { assigned_agent_id = some target.agent_id; assigned_to = some target.name })
          s.cases;
    conversations =
        put conversation_key (record found.0 { assigned_agent_id = some target.agent_id })
          s.conversations;
    trail = s.trail ++ reassigned_event h found.0 actor target ∷ [];
  })

abbrev pub returned_case : Handoff → ℕ → Handoff
returned_case h now = record h {
  status = returned;
  resolved_at = some now;
  assigned_agent_id = none;
  assigned_to = none;
}

abbrev pub returned_event : Handoff → Conversation → String → String → AuditEvent
returned_event h c actor resolution = record {
  actor = actor;
  action = "HANDOFF_RETURNED";
  entity = "handoff";
  old_value = some (("status", AuditValue.text "TAKEN") ∷ []);
  new_value = some (
      ("handoff_id", AuditValue.num h.handoff_id)
      ∷ ("conversation_id", AuditValue.num c.conversation_id)
      ∷ ("status", AuditValue.text "RETURNED")
      ∷ []);
  reason = resolution;
}

-- The assistant is on again, and nobody has the conversation.
abbrev pub freed : String → Conversation → Conversation
freed epoch c = record (set_bot_enabled true epoch c) {
  pending_action = none;
  assigned_agent_id = none;
}

-- The three writes of a conversation may draw an epoch each.
unfoldable pub return_handoff :
    Agent → ℕ → String → ℕ → String → String → String → Deliveries → Result RequestError Deliveries
return_handoff agent k resolution now epoch epoch' epoch'' s = do
  found ← lock_human_case (by_handoff k) s
  h ← require_case_owner found.0 found.1 agent.agent_id
  let c = freed epoch found.0
  away ← moved_to c returned_to_bot agent.name (some resolution) epoch' s.trail
  back ←
      moved_to away.0 bot_active agent.name (some "Returned to bot after human handling") epoch''
        away.1
  ok (record s {
    cases = put handoff_key (returned_case h now) s.cases;
    conversations = put conversation_key back.0 s.conversations;
    trail = back.1 ++ returned_event h found.0 agent.name resolution ∷ [];
  })
