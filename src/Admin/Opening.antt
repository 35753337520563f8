-- ===== src/Admin/Opening.antt =====
-- A case that is opened, by the assistant or by a person who takes over, keeps every assigned conversation in one
-- agent's hands.
use chat_bot_ceiba.Common.{
  ℕ, ◌≡◌, refl, sym, ap, ◌∙◌, subst, inl, inr, true, false, not, Option, none, some, List, [], ◌∷◌,
  String, ok, arith, ◌==◌, ==_iff, ==_refl, is_some, contains, Bool-cases, select, >>=-eq-ok,
  raise_if-eq-ok, if◌then◌else◌,
}
use chat_bot_ceiba.Rows.Table.{get}
use chat_bot_ceiba.Rows.Audit.{AuditEvent}
use chat_bot_ceiba.Rows.Handoff.{Handoff, handoff_key}
use chat_bot_ceiba.Conversation.{
  Conversation, ConversationState, same_state, human_active, waiting_for_human, set_state,
  set_bot_enabled, bot_active, resolved,
}
use chat_bot_ceiba.Channel.Outbox.Row.{Deliveries, conversation_key}
use chat_bot_ceiba.Channel.Outbox.Eligibility.{open_case_of}
use chat_bot_ceiba.Admin.Ownership.{
  by_conversation, lock_human_case, require_unassigned_conversation,
}
use chat_bot_ceiba.Admin.Takeover.{
  Agent, moved_to, assigned_to_agent, wait_for_human, opened_case, normalize_handoff_reason,
  create_handoff,
}
use chat_bot_ceiba.Admin.Direct.{
  Epochs, require_direct, reopened, manual_case, move_conversation_to_human_active,
  take_conversation,
}
use chat_bot_ceiba.Admin.Requests.{lock_human_case-ok, moved_to-ok}
use chat_bot_ceiba.Admin.Keeping.{ok-injective}
use chat_bot_ceiba.Admin.Owner.{Cared, Wrote, put-Wrote, Cared-add_case}

-- What a write of a conversation may leave of it.
record IsMove (c m : Conversation) : Type 0 where
  ident : m.conversation_id ≡ c.conversation_id
  enabled : m.bot_enabled ≡ c.bot_enabled
  agent : m.assigned_agent_id ≡ c.assigned_agent_id

set_state-IsMove :
    (target : ConversationState) (epoch : String) (c : Conversation)
    → IsMove c (set_state target epoch c)
unfolding set_state
set_state-IsMove target epoch c = record { ident = refl; enabled = refl; agent = refl }

moved_to-IsMove :
    (c : Conversation) (target : ConversationState) (actor : String) (reason : Option String)
    (epoch : String) (log : List AuditEvent) (m : Conversation × List AuditEvent)
    → moved_to c target actor reason epoch log ≡ ok m
    → IsMove c m.0 × (m.0.state ≡ target)
unfolding set_state
moved_to-IsMove c target actor reason epoch log m e =
    let new_c = moved_to-ok c target actor reason epoch log m e in
    (
      subst (IsMove c) (sym new_c) (set_state-IsMove target epoch c),
      ap (λ (d : Conversation). d.state) new_c,
    )

IsMove-trans : (a b c : Conversation) → IsMove a b → IsMove b c → IsMove a c
IsMove-trans a b c m n = record {
  ident = n.ident ∙ m.ident;
  enabled = n.enabled ∙ m.enabled;
  agent = n.agent ∙ m.agent;
}

self-Wrote :
    (cs : List Conversation) (c : Conversation)
    → get conversation_key c.conversation_id cs ≡ some c
    → Wrote c cs cs
self-Wrote cs c here k = elim (Bool-cases (c.conversation_id == k)) [
  | inl hit ↦
      let it : c.conversation_id ≡ k = (==_iff c.conversation_id k).0 hit in
      rw hit (subst (λ n. get conversation_key n cs ≡ some c) it here)
  | inr miss ↦ rw miss refl
]

-- The assistant opens a case of a conversation that nobody has.
pub create_handoff-Cared :
    (k : ℕ) (c : Conversation) (reason priority : String) (detail : Option String) (epoch : String)
    (s t : Deliveries)
    → create_handoff k c reason priority detail epoch s ≡ ok t
    → get conversation_key c.conversation_id s.conversations ≡ some c
    → get handoff_key k s.cases ≡ none
    → is_some c.assigned_agent_id ≡ false
    → Cared s
    → Cared t
unfolding create_handoff
create_handoff-Cared k c reason priority detail epoch s t h here fresh nobody v =
    let case = opened_case k c.conversation_id (normalize_handoff_reason reason) priority in
    elim (Bool-cases (same_state c.state waiting_for_human)) [
      | inl waiting ↦
          let made = rw (create_handoff, waiting) at h in
          subst Cared (ok-injective made) (
            Cared-add_case s _ (wait_for_human c) case v fresh refl refl
              (put-Wrote s.conversations c (wait_for_human c) here refl)
              (λ assigned. absurd (ground arith)))
      | inr other ↦
          let rest = rw (create_handoff, other) at h in
          let (m, moved, last) =
            >>=-eq-ok (moved_to (wait_for_human c) waiting_for_human "SYSTEM" _ epoch _) _ rest in
          let (move, state) =
            moved_to-IsMove (wait_for_human c) waiting_for_human "SYSTEM" _ epoch _ m moved in
          let agent = move.agent in
          subst Cared (ok-injective last) (
            Cared-add_case s _ m.0 case v fresh (sym move.ident) refl
              (put-Wrote s.conversations c m.0 here move.ident) (λ assigned. absurd (ground arith)))
    ]

reopened-IsMove :
    (c : Conversation) (agent : Agent) (epoch : String) (log : List AuditEvent)
    (m : Conversation × List AuditEvent)
    → reopened c agent epoch log ≡ ok m
    → IsMove c m.0
unfolding reopened
reopened-IsMove c agent epoch log m h = elim (Bool-cases (same_state c.state resolved)) [
  | inl again ↦ (moved_to-IsMove c bot_active agent.name _ epoch _ m (rw (reopened, again) at h)).0
  | inr other ↦
      let it = ok-injective (rw (reopened, other) at h) in
      subst (λ (p : Conversation × List AuditEvent). IsMove c p.0) it
        (record { ident = refl; enabled = refl; agent = refl })
]

waiting_first :
    (c : Conversation) (actor reason epoch : String) (log : List AuditEvent)
    (n : Conversation × List AuditEvent)
    → (if same_state c.state waiting_for_human
        then ok (c, log)
        else moved_to c waiting_for_human actor (some reason) epoch log)
      ≡ ok n
    → IsMove c n.0
waiting_first c actor reason epoch log n h =
    elim (Bool-cases (same_state c.state waiting_for_human)) [
      | inl waits ↦
          let it = ok-injective (rw waits at h) in
          subst (λ (p : Conversation × List AuditEvent). IsMove c p.0) it
            (record { ident = refl; enabled = refl; agent = refl })
      | inr other ↦
          (moved_to-IsMove c waiting_for_human actor (some reason) epoch log n (rw other at h)).0
    ]

to_human-IsMove :
    (c : Conversation) (actor reason epoch epoch' : String) (log : List AuditEvent)
    (m : Conversation × List AuditEvent)
    → move_conversation_to_human_active c actor reason epoch epoch' log ≡ ok m
    → IsMove c m.0 × (same_state m.0.state human_active ≡ true)
unfolding move_conversation_to_human_active
to_human-IsMove c actor reason epoch epoch' log m h =
    elim (Bool-cases (same_state c.state human_active)) [
      | inl there ↦
          let it = ok-injective (rw (move_conversation_to_human_active, there) at h) in
          subst
            (λ (p : Conversation × List AuditEvent).
              IsMove c p.0 × (same_state p.0.state human_active ≡ true))
            it (record { ident = refl; enabled = refl; agent = refl }, there)
      | inr away ↦
          let rest = rw (move_conversation_to_human_active, away) at h in
          let (n, first, last) = >>=-eq-ok _ _ rest in
          let (move, state) = moved_to-IsMove n.0 human_active actor _ epoch' n.1 m last in
          let before : IsMove c n.0 = waiting_first c actor reason epoch log n first in
          (IsMove-trans c n.0 m.0 before move, rw state refl)
    ]

assigned_facts :
    (c : Conversation) (agent : Agent) (epoch : String)
    → ((wait_for_human (assigned_to_agent c agent epoch)).conversation_id ≡ c.conversation_id)
      × ((wait_for_human (assigned_to_agent c agent epoch)).bot_enabled ≡ false)
      × ((wait_for_human (assigned_to_agent c agent epoch)).assigned_agent_id ≡ some agent.agent_id)
unfolding set_bot_enabled
assigned_facts c agent epoch = (refl, refl, refl)

unassigned-empty :
    (c : Conversation) (cases : List Handoff) (u : Unit {0})
    → require_unassigned_conversation c cases ≡ ok u
    → cases ≡ []
unfolding require_unassigned_conversation
unassigned-empty c [] u h = refl
unassigned-empty c (x ∷ xs) u h = ground arith

pub take_conversation-Cared :
    (agent : Agent) (k new_id now : ℕ) (e : Epochs) (s t : Deliveries)
    → take_conversation agent k new_id now e s ≡ ok t
    → get handoff_key new_id s.cases ≡ none
    → Cared s
    → Cared t
unfolding take_conversation
take_conversation-Cared agent k new_id now e s t h fresh v =
    let (found, locked, rest) = >>=-eq-ok (lock_human_case (by_conversation k) s) _ h in
    let c = found.0 in
    let (known, rest1) = raise_if-eq-ok (not (contains c.customer_id s.customers)) _ _ rest in
    let (direct, may, rest2) = >>=-eq-ok (require_direct c) _ rest1 in
    let (none_yet, free, rest3) = >>=-eq-ok (require_unassigned_conversation c found.1) _ rest2 in
    let (again, open_again, rest4) = >>=-eq-ok (reopened c agent e.reopening s.trail) _ rest3 in
    let (m, moved, last) =
      >>=-eq-ok
        (move_conversation_to_human_active
          (wait_for_human (assigned_to_agent again.0 agent e.disabling)) agent.name
          "Manual direct takeover" e.waiting e.active _)
        _ rest4 in
    let (here, chosen) = lock_human_case-ok (by_conversation k) s c found.1 locked in
    let back = reopened-IsMove c agent e.reopening s.trail again open_again in
    let (move, active) =
      to_human-IsMove (wait_for_human (assigned_to_agent again.0 agent e.disabling)) agent.name
        "Manual direct takeover" e.waiting e.active _ m moved in
    let (ident, silent, mine) = assigned_facts again.0 agent e.disabling in
    let same : m.0.conversation_id ≡ c.conversation_id = move.ident ∙ ident ∙ back.ident in
    let nothing : found.1 ≡ [] = unassigned-empty c found.1 none_yet free in
    subst Cared (ok-injective last) (
      Cared-add_case s _ m.0 (manual_case new_id c agent now) v fresh (sym same) refl
        (put-Wrote s.conversations c m.0 here same)
        (λ assigned. (
          ap (λ n. select (open_case_of n) s.cases) same ∙ sym chosen ∙ nothing,
          refl,
          rw move.agent (==_refl agent.agent_id),
          active,
          move.enabled ∙ silent,
        )))
