-- ===== src/Admin/Ownership.antt =====
-- app/admin/ownership.py: the open cases of a conversation, and who may act on them. The store is the one of the
-- deliveries, in which the conversations and their cases stand.
use chat_bot_ceiba.Common.{
  ℕ, Bool, true, false, not, ◌&&◌, ◌||◌, Option, none, some, List, String, Result, ok, err, ◌==◌,
  opt_eq, is_some, is_empty, any_of, select, raise_if, or_raise, ◌>>=◌, ◌>>◌, if◌then◌else◌,
}
use chat_bot_ceiba.Rows.Table.{get}
use chat_bot_ceiba.Rows.Handoff.{Handoff, handoff_key, is_pending, is_taken}
use chat_bot_ceiba.Conversation.{
  Conversation, StateError, same_state, waiting_for_human, human_active,
}
use chat_bot_ceiba.Channel.Outbox.Row.{Deliveries, conversation_key}
use chat_bot_ceiba.Channel.Outbox.Eligibility.{open_case_of, only_case}

-- What a request may end with: an HTTP status with its detail, or a refused transition.
pub data RequestError : Type 0 where
  http : ℕ → String → RequestError
  invalid_transition : StateError → RequestError

abbrev pub assignment_conflict : RequestError
assignment_conflict = http 409 "Human assignment is not consistent"

pub data Locator : Type 0 where
  by_conversation by_handoff : ℕ → Locator

abbrev pub located : Locator → Deliveries → Result RequestError ℕ
located (by_conversation k) s = ok k
located (by_handoff k) s = elim (get handoff_key k s.cases) [
  | none ↦ err (http 404 "Handoff not found")
  | some h ↦ ok h.conversation_id
]

-- `handoff_id is not None and (len(cases) != 1 or cases[0].id != handoff_id)`
abbrev pub is_other_case : Locator → List Handoff → Bool
is_other_case (by_conversation k) cases = false
is_other_case (by_handoff k) cases = elim (only_case cases) [
  | none ↦ true
  | some h ↦ not (h.handoff_id == k)
]

-- The cases stand in the order of their ids.
unfoldable pub lock_human_case :
    Locator → Deliveries → Result RequestError (Conversation × List Handoff)
lock_human_case at s = do
  k ← located at s
  c ← or_raise (get conversation_key k s.conversations) (http 404 "Conversation not found")
  let cases = select (open_case_of c.conversation_id) s.cases
  raise_if (is_other_case at cases) assignment_conflict
  raise_if (any_of (λ (h : Handoff). not (h.conversation_id == c.conversation_id)) cases)
      assignment_conflict
  ok (c, cases)

-- Both are set and equal.
abbrev pub same_agent : Option ℕ → Option ℕ → Bool
same_agent none b = false
same_agent (some a) b = opt_eq b a

unfoldable pub require_owned_case : Conversation → List Handoff → Result RequestError Handoff
require_owned_case c cases = elim (only_case cases) [
  | none ↦ err assignment_conflict
  | some h ↦
      if same_state c.state human_active
        && not c.bot_enabled
        && is_taken h.status
        && same_agent c.assigned_agent_id h.assigned_agent_id
      then ok h
      else err assignment_conflict
]

unfoldable pub require_case_owner : Conversation → List Handoff → ℕ → Result RequestError Handoff
unfolding require_owned_case
require_case_owner c cases agent_id = do
  h ← require_owned_case c cases
  raise_if (not (opt_eq c.assigned_agent_id agent_id)) (http 403 "Case mutation is not permitted")
  ok h

unfoldable pub require_pending_case : Conversation → List Handoff → Result RequestError Handoff
require_pending_case c cases = elim (only_case cases) [
  | none ↦ err assignment_conflict
  | some h ↦
      if same_state c.state waiting_for_human
        && not (is_some c.assigned_agent_id)
        && is_pending h.status
        && not (is_some h.assigned_agent_id)
        && not (is_some h.assigned_to)
      then ok h
      else err assignment_conflict
]

unfoldable pub require_unassigned_conversation :
    Conversation → List Handoff → Result RequestError (Unit {0})
require_unassigned_conversation c cases =
    raise_if (is_some c.assigned_agent_id || not (is_empty cases)) assignment_conflict
