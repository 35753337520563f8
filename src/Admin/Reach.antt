-- ===== src/Admin/Reach.antt =====
-- Any sequence of requests on the cases, and what an owner is.
use chat_bot_ceiba.Common.{
  ℕ, ◌≡◌, refl, inl, inr, true, false, not, ◌&&◌, Option, none, some, List, String, ok, err, arith,
  ◌==◌, is_some, opt_eq, Bool-cases, select, if◌then◌else◌,
}
use chat_bot_ceiba.Rows.Table.{get}
use chat_bot_ceiba.Rows.Handoff.{Handoff, handoff_key, is_taken}
use chat_bot_ceiba.Conversation.{Conversation, same_state, human_active}
use chat_bot_ceiba.Channel.Outbox.Row.{Deliveries, conversation_key}
use chat_bot_ceiba.Channel.Outbox.Eligibility.{open_case_of}
use chat_bot_ceiba.Admin.Ownership.{http, same_agent, require_owned_case, require_case_owner}
use chat_bot_ceiba.Admin.Takeover.{
  Agent, create_handoff, take_handoff, reassign_conversation, return_handoff,
}
use chat_bot_ceiba.Admin.Direct.{Epochs, take_conversation}
use chat_bot_ceiba.Admin.Owner.{Cared}
use chat_bot_ceiba.Admin.Keeping.{
  take_handoff-Cared, reassign_conversation-Cared, return_handoff-Cared,
}
use chat_bot_ceiba.Admin.Opening.{create_handoff-Cared, take_conversation-Cared}

-- A request that succeeds; a case of the assistant is of a conversation that nobody has, and new keys are new.
pub data Step (s t : Deliveries) : Type 0 where
  creates :
      (k : ℕ) (c : Conversation) (reason priority : String) (detail : Option String)
      (epoch : String)
      → create_handoff k c reason priority detail epoch s ≡ ok t
      → get conversation_key c.conversation_id s.conversations ≡ some c
      → get handoff_key k s.cases ≡ none
      → is_some c.assigned_agent_id ≡ false
      → Step s t
  takes :
      (agent : Agent) (k now : ℕ) (epoch epoch' : String)
      → take_handoff agent k now epoch epoch' s ≡ ok t
      → Step s t
  takes_directly :
      (agent : Agent) (k new_id now : ℕ) (e : Epochs)
      → take_conversation agent k new_id now e s ≡ ok t
      → get handoff_key new_id s.cases ≡ none
      → Step s t
  reassigns :
      (agents : List Agent) (actor : String) (k target : ℕ)
      → reassign_conversation agents actor k target s ≡ ok t
      → Step s t
  returns :
      (agent : Agent) (k : ℕ) (resolution : String) (now : ℕ) (epoch epoch' epoch'' : String)
      → return_handoff agent k resolution now epoch epoch' epoch'' s ≡ ok t
      → Step s t

pub data Reach (s : Deliveries) : Deliveries → Type 0 where
  start : Reach s s
  next : {t u : Deliveries} → Reach s t → Step t u → Reach s u

Step-Cared : (s t : Deliveries) → Step s t → Cared s → Cared t
Step-Cared s t (creates k c reason priority detail epoch done here fresh nobody) v =
    create_handoff-Cared k c reason priority detail epoch s t done here fresh nobody v
Step-Cared s t (takes agent k now epoch epoch' done) v =
    take_handoff-Cared agent k now epoch epoch' s t done v
Step-Cared s t (takes_directly agent k new_id now e done fresh) v =
    take_conversation-Cared agent k new_id now e s t done fresh v
Step-Cared s t (reassigns agents actor k target done) v =
    reassign_conversation-Cared agents actor k target s t done v
Step-Cared s t (returns agent k resolution now epoch epoch' epoch'' done) v =
    return_handoff-Cared agent k resolution now epoch epoch' epoch'' s t done v

-- After any sequence of requests that succeed (cases opened by the assistant for conversations that nobody has, taken,
-- taken over directly, reassigned and returned) from a store in which it holds: the cases have unique ids, and every
-- assigned conversation is HUMAN_ACTIVE with the assistant off and has exactly one open case, TAKEN by its agent.
pub Reach-Cared : (s t : Deliveries) → Reach s t → Cared s → Cared t
Reach-Cared s _ start v = v
Reach-Cared s t (next {t = m} r step) v = Step-Cared m t step (Reach-Cared s m r v)

-- In such a store, the only person who can act on a conversation is the one to whom it is assigned: with the open
-- cases of an assigned conversation, the check succeeds for its agent, and refuses every other with 403.
pub owner_only :
    (s : Deliveries) (k a agent : ℕ) (c : Conversation)
    → Cared s
    → get conversation_key k s.conversations ≡ some c
    → c.assigned_agent_id ≡ some a
    → (h : Handoff) × (require_case_owner c (select (open_case_of c.conversation_id) s.cases) agent
        ≡ (if a == agent then ok h else err (http 403 "Case mutation is not permitted")))
unfolding require_case_owner require_owned_case
owner_only s k a agent c v here mine =
    let (h, holds) = v.held k c here (rw mine refl) in
    let fits : (same_state c.state human_active
          && not c.bot_enabled
          && is_taken h.status
          && same_agent c.assigned_agent_id h.assigned_agent_id)
        ≡ true =
      ground (arith, holds.active, holds.silent, holds.in_hand, holds.agent) in
    let who : opt_eq c.assigned_agent_id agent ≡ (a == agent) = rw mine refl in
    (
      h,
      rw (holds.alone, require_owned_case, fits, who)
          (elim (Bool-cases (a == agent)) [ inl same ↦ rw same refl | inr other ↦ rw other refl ]),
    )
