-- ===== src/Admin/Requests.antt =====
-- What each request that succeeds has found, and that it keeps the conversations in one agent's hands.
use chat_bot_ceiba.Common.{
  ℕ, ◌≡◌, sym, ap, ◌∙◌, subst, inl, inr, true, false, not, ◌&&◌, Option, none, some, List, [], ◌∷◌,
  String, ok, err, arith, ◌==◌, is_some, opt_eq, Option-cases, Result-cases, select, any_of,
  or_raise, >>=-eq-ok, raise_if-eq-ok, if◌then◌else◌,
}
use chat_bot_ceiba.Rows.Table.{get, key-get}
use chat_bot_ceiba.Rows.Audit.{AuditEvent}
use chat_bot_ceiba.Rows.Handoff.{Handoff, is_pending, is_taken}
use chat_bot_ceiba.Conversation.{
  Conversation, ConversationState, same_state, human_active, waiting_for_human, set_state,
  transition_conversation,
}
use chat_bot_ceiba.Conversation.Reach.{transition-ok}
use chat_bot_ceiba.Channel.Outbox.Row.{Deliveries, conversation_key}
use chat_bot_ceiba.Channel.Outbox.Eligibility.{open_case_of, only_case}
use chat_bot_ceiba.Admin.Ownership.{
  Locator, located, is_other_case, assignment_conflict, lock_human_case, same_agent,
  require_owned_case, require_case_owner, require_pending_case,
}
use chat_bot_ceiba.Admin.Takeover.{moved_to}

pub or_raise-ok : {E A : Type 0} (o : Option A) (e : E) (a : A) → or_raise o e ≡ ok a → o ≡ some a
or_raise-ok none e a h = absurd (cc)
or_raise-ok (some b) e a h = cc

only_case-some : (hs : List Handoff) (h : Handoff) → only_case hs ≡ some h → hs ≡ h ∷ []
only_case-some [] h e = absurd (cc)
only_case-some (x ∷ []) h e = cc
only_case-some (x ∷ y ∷ hs) h e = absurd (cc)

pub lock_human_case-ok :
    (at : Locator) (s : Deliveries) (c : Conversation) (cases : List Handoff)
    → lock_human_case at s ≡ ok (c, cases)
    → (get conversation_key c.conversation_id s.conversations ≡ some c)
      × (cases ≡ select (open_case_of c.conversation_id) s.cases)
unfolding lock_human_case
lock_human_case-ok at s c cases h =
    let (k, named, rest) = >>=-eq-ok (located at s) _ h in
    let (d, found, rest') =
      >>=-eq-ok (or_raise (get conversation_key k s.conversations) _) _ rest in
    let mine = select (open_case_of d.conversation_id) s.cases in
    let (one, rest'') = raise_if-eq-ok (is_other_case at mine) _ _ rest' in
    let (home, last) =
      raise_if-eq-ok (any_of (λ (x : Handoff). not (x.conversation_id == d.conversation_id)) mine) _
        _ rest'' in
    let here = or_raise-ok (get conversation_key k s.conversations) _ d found in
    let same : d ≡ c = cc in
    let chosen : mine ≡ cases = cc in
    let key = key-get conversation_key k d s.conversations here in
    (
      subst (λ (x : Conversation). get conversation_key x.conversation_id s.conversations ≡ some x)
          same (subst (λ n. get conversation_key n s.conversations ≡ some d) (sym key) here),
      sym chosen ∙ ap (λ (x : Conversation). select (open_case_of x.conversation_id) s.cases) same,
    )

pub require_pending_case-ok :
    (c : Conversation) (cases : List Handoff) (h : Handoff)
    → require_pending_case c cases ≡ ok h
    → (cases ≡ h ∷ [])
      × (same_state c.state waiting_for_human ≡ true)
      × (is_pending h.status ≡ true)
unfolding require_pending_case
require_pending_case-ok c cases h e = elim (Option-cases (only_case cases)) [
  | inl nothing ↦
      let clash : err assignment_conflict ≡ ok h = rw (require_pending_case, nothing) at e in
      absurd (cc)
  | inr (x, one) ↦
      let inner : (if same_state c.state waiting_for_human
              && not (is_some c.assigned_agent_id)
              && is_pending x.status
              && not (is_some x.assigned_agent_id)
              && not (is_some x.assigned_to)
            then ok x
            else err assignment_conflict)
          ≡ ok h =
        rw (require_pending_case, one) at e in
      let same : x ≡ h = ground arith in
      (
        only_case-some cases x one ∙ ap (λ (y : Handoff). y ∷ []) same,
        ground arith,
        subst (λ (y : Handoff). is_pending y.status ≡ true) same (ground arith),
      )
]

pub require_owned_case-ok :
    (c : Conversation) (cases : List Handoff) (h : Handoff)
    → require_owned_case c cases ≡ ok h
    → (cases ≡ h ∷ [])
      × (same_state c.state human_active ≡ true)
      × (c.bot_enabled ≡ false)
      × (is_taken h.status ≡ true)
      × (same_agent c.assigned_agent_id h.assigned_agent_id ≡ true)
unfolding require_owned_case
require_owned_case-ok c cases h e = elim (Option-cases (only_case cases)) [
  | inl nothing ↦
      let clash : err assignment_conflict ≡ ok h = rw (require_owned_case, nothing) at e in
      absurd (cc)
  | inr (x, one) ↦
      let inner : (if same_state c.state human_active
              && not c.bot_enabled
              && is_taken x.status
              && same_agent c.assigned_agent_id x.assigned_agent_id
            then ok x
            else err assignment_conflict)
          ≡ ok h =
        rw (require_owned_case, one) at e in
      let same : x ≡ h = ground arith in
      (
        only_case-some cases x one ∙ ap (λ (y : Handoff). y ∷ []) same,
        ground arith,
        ground arith,
        subst (λ (y : Handoff). is_taken y.status ≡ true) same (ground arith),
        subst (λ (y : Handoff). same_agent c.assigned_agent_id y.assigned_agent_id ≡ true) same
            (ground arith),
      )
]

pub require_case_owner-ok :
    (c : Conversation) (cases : List Handoff) (agent : ℕ) (h : Handoff)
    → require_case_owner c cases agent ≡ ok h
    → (require_owned_case c cases ≡ ok h) × (opt_eq c.assigned_agent_id agent ≡ true)
unfolding require_case_owner
require_case_owner-ok c cases agent h e =
    let (x, owned, rest) = >>=-eq-ok (require_owned_case c cases) _ e in
    let (mine, last) = raise_if-eq-ok (not (opt_eq c.assigned_agent_id agent)) _ _ rest in
    (owned ∙ last, ground arith)

-- The conversation after a transition that was accepted.
pub moved_to-ok :
    (c : Conversation) (target : ConversationState) (actor : String) (reason : Option String)
    (epoch : String) (log : List AuditEvent) (m : Conversation × List AuditEvent)
    → moved_to c target actor reason epoch log ≡ ok m
    → m.0 ≡ set_state target epoch c
moved_to-ok c target actor reason epoch log m e =
    elim (Result-cases (transition_conversation c target actor reason epoch log)) [
      | inl (x, refused) ↦ let clash : err _ ≡ ok m = rw (moved_to, refused) at e in absurd (cc)
      | inr (n, passed) ↦
          let same : n ≡ m = let it : ok n ≡ ok m = rw (moved_to, passed) at e in cc in
          ap (λ (p : Conversation × List AuditEvent). p.0) (sym same)
          ∙ (transition-ok c target actor reason epoch log n.0 n.1 passed).0
    ]
