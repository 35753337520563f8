-- ===== src/Admin/Reply.antt =====
-- A person's message on its way into the outbox.
use chat_bot_ceiba.Common.{
  ℕ, ◌≡◌, refl, sym, ap, ◌∙◌, inl, inr, Bool, true, false, not, ◌||◌, contains, none, some, List,
  [], ◌∷◌, ◌++◌, String, ok, arith, ==_refl, opt_eq, Bool-cases, find_first, or_raise, >>=-eq-ok,
  if◌then◌else◌,
}
use chat_bot_ceiba.Rows.Table.{get}
use chat_bot_ceiba.Conversation.{Conversation}
use chat_bot_ceiba.Channel.Outbox.Row.{
  OutboxRow, Deliveries, EnqueueEvent, conversation_key, is_text_kind,
}
use chat_bot_ceiba.Channel.Outbox.Eligibility.{proves, human_proof, is_eligible, eligibility}
use chat_bot_ceiba.Channel.Outbox.Reach.{IsNew}
use chat_bot_ceiba.Channel.Outbox.Context.{human-eligible}
use chat_bot_ceiba.Channel.Outbox.Period.{stored_ruling}
use chat_bot_ceiba.Admin.Ownership.{by_conversation, lock_human_case, require_case_owner}
use chat_bot_ceiba.Admin.Takeover.{Agent}
use chat_bot_ceiba.Admin.Direct.{create_agent_message, agent_row, latest_message}
use chat_bot_ceiba.Admin.Requests.{lock_human_case-ok, require_case_owner-ok}
use chat_bot_ceiba.Admin.Keeping.{ok-injective}

find_first-snoc :
    (p : EnqueueEvent → Bool) (es : List EnqueueEvent) (e : EnqueueEvent)
    → p e ≡ true
    → (x : EnqueueEvent) × (find_first p (es ++ e ∷ []) ≡ some x)
find_first-snoc p [] e h = (e, rw h refl)
find_first-snoc p (x ∷ xs) e h = elim (Bool-cases (p x)) [
  | inl hit ↦ (x, rw hit refl)
  | inr miss ↦ let (y, found) = find_first-snoc p xs e h in (y, rw miss found)
]

human_proof-enqueued :
    (s : Deliveries) (r : OutboxRow) (es : List EnqueueEvent) (e : EnqueueEvent)
    → s.enqueued ≡ es ++ e ∷ []
    → is_text_kind r.message_kind ≡ true
    → r.payload.agent ≡ true
    → proves r e ≡ true
    → (event : ℕ) × (human_proof s r ≡ some event)
unfolding human_proof
human_proof-enqueued s r es e grown kind agent fits =
    let (x, found) = find_first-snoc (proves r) es e fits in
    let last : find_first (proves r) s.enqueued ≡ some x =
      ap (find_first (proves r)) grown ∙ found in
    let shut : (not (is_text_kind r.message_kind) || not r.payload.agent) ≡ false = ground arith in
    (x.event_id, rw (human_proof, shut, last) refl)

-- When a person's message is accepted, the person is the one to whom the conversation is assigned, exactly one row is
-- added to the outbox, untried and PENDING, and that row is eligible for delivery whatever happens to the
-- conversation.
pub create_agent_message-eligible :
    (agent : Agent) (phone : ℕ → String) (k : ℕ) (body : String) (new_id event_id now : ℕ)
    (s t : Deliveries)
    → create_agent_message agent phone k body new_id event_id now s ≡ ok t
    → (c : Conversation) × (r : OutboxRow) × (get conversation_key c.conversation_id s.conversations
        ≡ some c)
      × (opt_eq c.assigned_agent_id agent.agent_id ≡ true)
      × (t.rows ≡ s.rows ++ r ∷ [])
      × (r.conversation_id ≡ c.conversation_id)
      × (r.payload.body ≡ some body)
      × IsNew r
      × ((later : Conversation) → is_eligible (eligibility t later r).0 ≡ true)
unfolding create_agent_message
create_agent_message-eligible agent phone k body new_id event_id now s t h =
    let (found, locked, rest) = >>=-eq-ok (lock_human_case (by_conversation k) s) _ h in
    let c = found.0 in
    let (case, owner, rest') = >>=-eq-ok (require_case_owner c found.1 agent.agent_id) _ rest in
    let (m, latest, last) =
      >>=-eq-ok
        (or_raise
          (if contains c.customer_id s.customers
            then latest_message c.conversation_id s.messages
            else none)
          _)
        _ rest' in
    let (here, chosen) = lock_human_case-ok (by_conversation k) s c found.1 locked in
    let (owned, mine) = require_case_owner-ok c found.1 agent.agent_id case owner in
    let r = agent_row new_id c m.message_id agent (phone c.customer_id) body now in
    let made = ok-injective last in
    let (event, proof) =
      human_proof-enqueued t r s.enqueued _ (ap (λ (d : Deliveries). d.enqueued) (sym made)) refl
        refl (rw (==_refl new_id) (==_refl c.conversation_id)) in
    (
      c,
      r,
      here,
      mine,
      ap (λ (d : Deliveries). d.rows) (sym made),
      refl,
      refl,
      record {
        waiting = refl;
        untried = refl;
        unowned = refl;
        unclaimed = refl;
        unsent = refl;
        uncalled = refl;
      },
      λ later.
          rw (stored_ruling t later r _ refl) (human-eligible t later r agent.agent_id event proof),
    )
