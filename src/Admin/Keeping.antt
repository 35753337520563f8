-- ===== src/Admin/Keeping.antt =====
-- Each request that succeeds keeps every assigned conversation in one agent's hands.
use chat_bot_ceiba.Common.{
  ℕ, ◌≡◌, refl, sym, ap, ◌∙◌, subst, true, false, not, none, some, List, String, Result, ok, arith,
  ==_refl, opt_eq, or_raise, >>=-eq-ok, raise_if-eq-ok,
}
use chat_bot_ceiba.Rows.Table.{get}
use chat_bot_ceiba.Conversation.{
  Conversation, same_state, human_active, set_state, set_bot_enabled, bot_active, returned_to_bot,
}
use chat_bot_ceiba.Channel.Outbox.Row.{Deliveries}
use chat_bot_ceiba.Admin.Ownership.{
  by_handoff, by_conversation, lock_human_case, same_agent, require_owned_case, require_case_owner,
  require_pending_case,
}
use chat_bot_ceiba.Admin.Takeover.{
  Agent, agent_key, moved_to, assigned_to_agent, taken_case, returned_case, freed, take_handoff,
  reassign_conversation, return_handoff,
}
use chat_bot_ceiba.Admin.Requests.{
  lock_human_case-ok, require_pending_case-ok, require_owned_case-ok, require_case_owner-ok,
  moved_to-ok,
}
use chat_bot_ceiba.Admin.Owner.{Cared, put-Wrote, Cared-put_case}

pub ok-injective : {E A : Type 0} {a b : A} → ◌≡◌ {A = Result E A} (ok a) (ok b) → a ≡ b
ok-injective e = cc

-- The state and the rest of a conversation after the writes of a takeover.
active_state :
    (c : Conversation) (agent : Agent) (epoch epoch' : String)
    → (same_state
          (set_state human_active epoch' (assigned_to_agent c agent epoch)).state
          human_active
        ≡ true)
      × ((set_state human_active epoch' (assigned_to_agent c agent epoch)).bot_enabled ≡ false)
      × ((set_state human_active epoch' (assigned_to_agent c agent epoch)).assigned_agent_id
          ≡ some agent.agent_id)
      × ((set_state human_active epoch' (assigned_to_agent c agent epoch)).conversation_id
          ≡ c.conversation_id)
unfolding set_state set_bot_enabled
active_state c agent epoch epoch' = (refl, refl, refl, refl)

pub take_handoff-Cared :
    (agent : Agent) (k now : ℕ) (epoch epoch' : String) (s t : Deliveries)
    → take_handoff agent k now epoch epoch' s ≡ ok t
    → Cared s
    → Cared t
unfolding take_handoff
take_handoff-Cared agent k now epoch epoch' s t h v =
    let (found, locked, rest) = >>=-eq-ok (lock_human_case (by_handoff k) s) _ h in
    let c = found.0 in
    let (case, pended, rest') = >>=-eq-ok (require_pending_case c found.1) _ rest in
    let (m, moved, last) =
      >>=-eq-ok
        (moved_to (assigned_to_agent c agent epoch) human_active agent.name _ epoch' s.trail) _
        rest' in
    let (here, chosen) = lock_human_case-ok (by_handoff k) s c found.1 locked in
    let (alone, waiting, pend) = require_pending_case-ok c found.1 case pended in
    let new_c =
      moved_to-ok (assigned_to_agent c agent epoch) human_active agent.name _ epoch' s.trail m
        moved in
    let (active, silent, agent_is, same) = active_state c agent epoch epoch' in
    let ident : m.0.conversation_id ≡ c.conversation_id =
      subst (λ (d : Conversation). d.conversation_id ≡ c.conversation_id) (sym new_c) same in
    subst Cared (ok-injective last) (
      Cared-put_case s _ c m.0 case (taken_case case agent now) v (sym chosen ∙ alone) refl refl
        ident refl (put-Wrote s.conversations c m.0 here ident)
        (λ assigned. (
          refl,
          subst (λ (d : Conversation). same_agent d.assigned_agent_id (some agent.agent_id) ≡ true)
              (sym new_c) (rw agent_is (==_refl agent.agent_id)),
          subst (λ (d : Conversation). same_state d.state human_active ≡ true) (sym new_c) active,
          subst (λ (d : Conversation). d.bot_enabled ≡ false) (sym new_c) silent,
        )))

pub reassign_conversation-Cared :
    (agents : List Agent) (actor : String) (k target : ℕ) (s t : Deliveries)
    → reassign_conversation agents actor k target s ≡ ok t
    → Cared s
    → Cared t
unfolding reassign_conversation
reassign_conversation-Cared agents actor k target s t h v =
    let (found, locked, rest) = >>=-eq-ok (lock_human_case (by_conversation k) s) _ h in
    let c = found.0 in
    let (case, owned, rest') = >>=-eq-ok (require_owned_case c found.1) _ rest in
    let (a, known, rest'') = >>=-eq-ok (or_raise (get agent_key target agents) _) _ rest' in
    let (works, rest3) = raise_if-eq-ok (not a.active) _ _ rest'' in
    let (other, last) = raise_if-eq-ok (opt_eq c.assigned_agent_id a.agent_id) _ _ rest3 in
    let (here, chosen) = lock_human_case-ok (by_conversation k) s c found.1 locked in
    let (alone, active, silent, in_hand, agent) = require_owned_case-ok c found.1 case owned in
    subst Cared (ok-injective last) (
      Cared-put_case s _ c _ case _ v (sym chosen ∙ alone) refl refl refl refl
        (put-Wrote s.conversations c _ here refl)
        (λ assigned. (in_hand, ==_refl a.agent_id, active, silent)))

returned_state :
    (c : Conversation) (epoch epoch' epoch'' : String)
    → ((set_state bot_active epoch''
          (set_state returned_to_bot epoch' (freed epoch c))).assigned_agent_id
        ≡ none)
      × ((set_state bot_active epoch''
            (set_state returned_to_bot epoch' (freed epoch c))).conversation_id
          ≡ c.conversation_id)
unfolding set_state set_bot_enabled
returned_state c epoch epoch' epoch'' = (refl, refl)

pub return_handoff-Cared :
    (agent : Agent) (k : ℕ) (resolution : String) (now : ℕ) (epoch epoch' epoch'' : String)
    (s t : Deliveries)
    → return_handoff agent k resolution now epoch epoch' epoch'' s ≡ ok t
    → Cared s
    → Cared t
unfolding return_handoff
return_handoff-Cared agent k resolution now epoch epoch' epoch'' s t h v =
    let (found, locked, rest) = >>=-eq-ok (lock_human_case (by_handoff k) s) _ h in
    let c = found.0 in
    let (case, mine, rest') = >>=-eq-ok (require_case_owner c found.1 agent.agent_id) _ rest in
    let (away, left, rest'') =
      >>=-eq-ok (moved_to (freed epoch c) returned_to_bot agent.name _ epoch' s.trail) _ rest' in
    let (back, came, last) =
      >>=-eq-ok (moved_to away.0 bot_active agent.name _ epoch'' away.1) _ rest'' in
    let (here, chosen) = lock_human_case-ok (by_handoff k) s c found.1 locked in
    let (owned, is_mine) = require_case_owner-ok c found.1 agent.agent_id case mine in
    let (alone, active, silent, in_hand, agent_is) = require_owned_case-ok c found.1 case owned in
    let first = moved_to-ok _ returned_to_bot agent.name _ epoch' s.trail away left in
    let second = moved_to-ok away.0 bot_active agent.name _ epoch'' away.1 back came in
    let new_c = second ∙ ap (set_state bot_active epoch'') first in
    let (nobody, same) = returned_state c epoch epoch' epoch'' in
    let ident : back.0.conversation_id ≡ c.conversation_id =
      subst (λ (d : Conversation). d.conversation_id ≡ c.conversation_id) (sym new_c) same in
    let free : back.0.assigned_agent_id ≡ none =
      subst (λ (d : Conversation). d.assigned_agent_id ≡ none) (sym new_c) nobody in
    subst Cared (ok-injective last) (
      Cared-put_case s _ c back.0 case (returned_case case now) v (sym chosen ∙ alone) refl refl
        ident refl (put-Wrote s.conversations c back.0 here ident)
        (λ assigned. absurd (ground arith)))
