-- ===== src/Admin/Owner.antt =====
-- Who has a conversation: between requests, an assigned conversation is in the hands of one agent with one case.
use chat_bot_ceiba.Common.{
  ℕ, ◌≡◌, refl, sym, ◌∙◌, subst, inl, inr, true, false, none, some, List, [], ◌∷◌, ◌++◌, arith,
  ◌==◌, is_some, Bool-cases, select, if◌then◌else◌,
}
use mathlib.Core.List.{append-nil}
use chat_bot_ceiba.Rows.Table.{get, put, get-put, key-get, Unique, put-Unique, snoc-Unique}
use chat_bot_ceiba.Rows.Handoff.{Handoff, handoff_key, is_taken}
use chat_bot_ceiba.Conversation.{Conversation, same_state, human_active}
use chat_bot_ceiba.Channel.Outbox.Row.{Deliveries, conversation_key}
use chat_bot_ceiba.Channel.Outbox.Eligibility.{open_case_of}
use chat_bot_ceiba.Admin.Ownership.{same_agent}
use chat_bot_ceiba.Admin.Cases.{select-hit, select-get, select-put, select-put_other, select-snoc}

-- One open case, TAKEN by the agent of the conversation, which is HUMAN_ACTIVE with the assistant off.
pub record IsHeldBy (cases : List Handoff) (c : Conversation) (h : Handoff) : Type 0 where
  pub alone : select (open_case_of c.conversation_id) cases ≡ h ∷ []
  pub in_hand : is_taken h.status ≡ true
  pub agent : same_agent c.assigned_agent_id h.assigned_agent_id ≡ true
  pub active : same_state c.state human_active ≡ true
  pub silent : c.bot_enabled ≡ false

pub record Cared (s : Deliveries) : Type 0 where
  pub ids : Unique handoff_key s.cases
  pub held :
      (k : ℕ) (c : Conversation)
      → get conversation_key k s.conversations ≡ some c
      → is_some c.assigned_agent_id ≡ true
      → (h : Handoff) × IsHeldBy s.cases c h

-- A write of the conversation `c`, as it is read afterwards.
abbrev pub Wrote : Conversation → List Conversation → List Conversation → Type 0
Wrote c cs ds =
    (k : ℕ)
    → get conversation_key k ds
      ≡ (if c.conversation_id == k then some c else get conversation_key k cs)

-- Another conversation keeps its cases.
Cared-write :
    (s t : Deliveries) (c : Conversation)
    → Cared s
    → Unique handoff_key t.cases
    → Wrote c s.conversations t.conversations
    → ((x : ℕ)
        → (c.conversation_id == x) ≡ false
        → select (open_case_of x) t.cases ≡ select (open_case_of x) s.cases)
    → (is_some c.assigned_agent_id ≡ true → (h : Handoff) × IsHeldBy t.cases c h)
    → Cared t
Cared-write s t c v u wrote others mine = record {
  ids = u;
  held = λ k x there assigned. elim (Bool-cases (c.conversation_id == k)) [
    | inl hit ↦
        let it : some c ≡ some x = rw (wrote k, hit) at there in
        let same : c ≡ x = cc in
        subst (λ (y : Conversation). (h : Handoff) × IsHeldBy t.cases y h) same
          (mine
            (subst (λ (y : Conversation). is_some y.assigned_agent_id ≡ true) (sym same) assigned))
    | inr miss ↦
        let before : get conversation_key k s.conversations ≡ some x =
          rw (wrote k, miss) at there in
        let key = key-get conversation_key k x s.conversations before in
        let (h, holds) = v.held k x before assigned in
        let apart : (c.conversation_id == x.conversation_id) ≡ false =
          subst (λ n. (c.conversation_id == n) ≡ false) (sym key) miss in
        (
          h,
          record {
            alone = others x.conversation_id apart ∙ holds.alone;
            in_hand = holds.in_hand;
            agent = holds.agent;
            active = holds.active;
            silent = holds.silent;
          },
        )
  ];
}

pub put-Wrote :
    (cs : List Conversation) (old c : Conversation)
    → get conversation_key old.conversation_id cs ≡ some old
    → c.conversation_id ≡ old.conversation_id
    → Wrote c cs (put conversation_key c cs)
put-Wrote cs old c here same k =
    let stored : get conversation_key c.conversation_id cs ≡ some old =
      subst (λ n. get conversation_key n cs ≡ some old) (sym same) here in
    get-put conversation_key k c old cs stored

open_case_of-other :
    (k n : ℕ) (h : Handoff) → h.conversation_id ≡ k → (k == n) ≡ false → open_case_of n h ≡ false
open_case_of-other k n h e apart = ground arith

-- The only open case of a conversation is written, and the conversation with it.
pub Cared-put_case :
    (s t : Deliveries) (old c : Conversation) (h h' : Handoff)
    → Cared s
    → select (open_case_of old.conversation_id) s.cases ≡ h ∷ []
    → h'.handoff_id ≡ h.handoff_id
    → h'.conversation_id ≡ h.conversation_id
    → c.conversation_id ≡ old.conversation_id
    → t.cases ≡ put handoff_key h' s.cases
    → Wrote c s.conversations t.conversations
    → (is_some c.assigned_agent_id ≡ true
        → (is_taken h'.status ≡ true)
          × (same_agent c.assigned_agent_id h'.assigned_agent_id ≡ true)
          × (same_state c.state human_active ≡ true)
          × (c.bot_enabled ≡ false))
    → Cared t
Cared-put_case s t old c h h' v alone key home same e wrote mine =
    let open_before = select-hit (open_case_of old.conversation_id) s.cases h alone in
    let stored = select-get (open_case_of old.conversation_id) s.cases h v.ids alone in
    let stored' : get handoff_key h'.handoff_id s.cases ≡ some h =
      subst (λ n. get handoff_key n s.cases ≡ some h) (sym key) stored in
    let own : h.conversation_id ≡ c.conversation_id = ground arith in
    Cared-write s t c v (rw e (put-Unique handoff_key h' s.cases v.ids)) wrote
      (λ x apart. rw e (
        select-put_other (open_case_of x) s.cases h h' stored'
          (open_case_of-other c.conversation_id x h own apart)
          (open_case_of-other c.conversation_id x h' (home ∙ own) apart)))
      (λ assigned.
        let (in_hand, agent, active, silent) = mine assigned in
        let still : open_case_of c.conversation_id h' ≡ true = ground arith in
        let before : select (open_case_of c.conversation_id) s.cases ≡ h ∷ [] =
          subst (λ n. select (open_case_of n) s.cases ≡ h ∷ []) (sym same) alone in
        let after = select-put (open_case_of c.conversation_id) s.cases h h' v.ids before key in
        (
          h',
          record {
            alone = rw (e, after, still) refl;
            in_hand = in_hand;
            agent = agent;
            active = active;
            silent = silent;
          },
        ))

-- A case is added to a conversation.
pub Cared-add_case :
    (s t : Deliveries) (c : Conversation) (h : Handoff)
    → Cared s
    → get handoff_key h.handoff_id s.cases ≡ none
    → h.conversation_id ≡ c.conversation_id
    → t.cases ≡ s.cases ++ h ∷ []
    → Wrote c s.conversations t.conversations
    → (is_some c.assigned_agent_id ≡ true
        → (select (open_case_of c.conversation_id) s.cases ≡ [])
          × (is_taken h.status ≡ true)
          × (same_agent c.assigned_agent_id h.assigned_agent_id ≡ true)
          × (same_state c.state human_active ≡ true)
          × (c.bot_enabled ≡ false))
    → Cared t
Cared-add_case s t c h v fresh home e wrote mine =
    Cared-write s t c v (rw e (snoc-Unique handoff_key h s.cases v.ids fresh)) wrote
      (λ x apart.
        rw
          (
            e,
            select-snoc (open_case_of x) s.cases h,
            open_case_of-other c.conversation_id x h home apart,
          )
          (append-nil (select (open_case_of x) s.cases)))
      (λ assigned.
        let (empty, in_hand, agent, active, silent) = mine assigned in
        let still : open_case_of c.conversation_id h ≡ true = ground arith in
        (
          h,
          record {
            alone =
                rw (e, select-snoc (open_case_of c.conversation_id) s.cases h, empty, still) refl;
            in_hand = in_hand;
            agent = agent;
            active = active;
            silent = silent;
          },
        ))
