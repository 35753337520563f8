-- ===== src/Channel/Outbox/Context.antt =====
-- app/channel/delivery.py: the contexts that the producers of messages write, which `eligibility` reads again.
use chat_bot_ceiba.Common.{
  ℕ, ◌≡◌, ◌↔◌, ap, ◌∙◌, ◌⊎◌, inl, inr, refl, true, false, not, ◌||◌, Option, none, some, String,
  Result, ok, ◌==◌, raise_if, ◌>>◌, raise_if-eq-ok,
}
use chat_bot_ceiba.Rows.Json.{Json, integer, text, other_value, text_is}
use chat_bot_ceiba.Rows.Table.{get}
use chat_bot_ceiba.Rows.Handoff.{Handoff, handoff_key, is_pending}
use chat_bot_ceiba.Rows.Evidence.{PaymentEvidence}
use chat_bot_ceiba.Conversation.{Conversation, is_paused, same_state, waiting_for_human}
use chat_bot_ceiba.Channel.Outbox.Row.{OutboxRow, DeliveryContext, object, Deliveries}
use chat_bot_ceiba.Channel.Outbox.Eligibility.{
  is_eligible, eligibility, context_eligibility, review_text, human_eligibility, human_proof,
}
use chat_bot_ceiba.Channel.Outbox.Period.{auto_eligible_iff, notice_eligible_iff}

abbrev empty_context : DeliveryContext
empty_context = record {
  origin = none;
  purpose = none;
  epoch = none;
  case_id = none;
  evidence_id = none;
  handoff_id = none;
  decision = none;
  agent_id = none;
  legacy_proof = none;
  after_outbox_id = none;
}

pub data Purpose : Type 0 where
  template catalog : Purpose

abbrev pub purpose_text : Purpose → String
purpose_text template = "TEMPLATE"
purpose_text catalog = "CATALOG"

-- Of a conversation that has its epoch.
unfoldable pub automatic_context : Conversation → Purpose → DeliveryContext
automatic_context c purpose = record empty_context {
  origin = some (text "AUTO");
  purpose = some (text (purpose_text purpose));
  epoch = some (text c.automation_epoch);
}

abbrev pub notice_of : Conversation → Handoff → DeliveryContext
notice_of c h = record empty_context {
  origin = some (text "HANDOFF_NOTICE");
  purpose = some (text "TRANSFER");
  case_id = some (integer h.handoff_id);
  epoch = some (text c.automation_epoch);
}

unfoldable pub handoff_context : Conversation → Handoff → Result String DeliveryContext
handoff_context c h = do
  raise_if (not (h.conversation_id == c.conversation_id) || not (is_pending h.status))
      "Cannot authorize an unrelated or non-pending handoff notice"
  ok (notice_of c h)

unfoldable pub human_context : ℕ → DeliveryContext
human_context agent = record empty_context {
  origin = some (text "HUMAN_REPLY");
  purpose = some (text "REPLY");
  agent_id = some (integer agent);
}

-- An optional number in a JSON object: `None` is a null.
abbrev pub number_or_null : Option ℕ → Json
number_or_null none = other_value
number_or_null (some n) = integer n

unfoldable pub payment_review_context : PaymentEvidence → DeliveryContext
payment_review_context e = record empty_context {
  origin = some (text "PAYMENT_REVIEW_RESULT");
  purpose = some (text "PAYMENT_DECISION");
  evidence_id = some (integer e.evidence_id);
  decision = some (text (review_text e.review_status));
  agent_id = some (number_or_null e.reviewed_by_agent_id);
}

unfoldable pub payment_evidence_ack_context : PaymentEvidence → Handoff → DeliveryContext
payment_evidence_ack_context e h = record empty_context {
  origin = some (text "PAYMENT_EVIDENCE_ACK");
  purpose = some (text "EVIDENCE_RECEIPT");
  evidence_id = some (integer e.evidence_id);
  handoff_id = some (integer h.handoff_id);
}

purpose_known :
    (p : Purpose)
    → (text_is (some (text (purpose_text p))) "TEMPLATE" ≡ true)
      ⊎ (text_is (some (text (purpose_text p))) "CATALOG" ≡ true)
purpose_known template = inl refl
purpose_known catalog = inr refl

pub human-eligible :
    (s : Deliveries) (c : Conversation) (r : OutboxRow) (agent event : ℕ)
    → human_proof s r ≡ some event
    → is_eligible (context_eligibility s c r (human_context agent)) ≡ true
unfolding human_context context_eligibility human_eligibility
human-eligible s c r agent event proof = rw proof refl

text-injective : {a b : String} → ◌≡◌ {A = Option Json} (some (text a)) (some (text b)) → a ≡ b
text-injective e = cc

-- A message that the assistant wrote for a conversation is eligible for what became of it exactly when its automation
-- epoch is still the one that it had, the assistant is on, and it is in no paused state.
pub automatic_context_iff :
    (s : Deliveries) (c later : Conversation) (r : OutboxRow) (purpose : Purpose)
    → r.delivery_context ≡ some (object (automatic_context c purpose))
    → (is_eligible (eligibility s later r).0 ≡ true) ↔ (
        (c.automation_epoch ≡ later.automation_epoch)
        × (later.bot_enabled ≡ true)
        × (is_paused later.state ≡ false))
unfolding automatic_context
automatic_context_iff s c later r purpose stored =
    let (read, write) = auto_eligible_iff s later r _ stored refl in
    (
      λ h. let now = read h in (text-injective now.epoch, now.enabled, now.active),
      λ (epoch, enabled, active). write (record {
        purpose = purpose_known purpose;
        epoch = ap (λ t. some (text t)) epoch;
        enabled = enabled;
        active = active;
      }),
    )

-- A transfer notice that was issued for a case is eligible, for what became of the conversation and of the case, exactly
-- when the case still exists, belongs to the conversation and is PENDING, the conversation is WAITING_FOR_HUMAN, and its
-- automation epoch is still the one that it had.
pub handoff_context_iff :
    (s : Deliveries) (c later : Conversation) (r : OutboxRow) (h : Handoff) (x : DeliveryContext)
    → handoff_context c h ≡ ok x
    → r.delivery_context ≡ some (object x)
    → (is_eligible (eligibility s later r).0 ≡ true) ↔ (
        (now : Handoff) × (get handoff_key h.handoff_id s.cases ≡ some now)
        × (now.conversation_id ≡ later.conversation_id)
        × (is_pending now.status ≡ true)
        × (same_state later.state waiting_for_human ≡ true)
        × (c.automation_epoch ≡ later.automation_epoch))
unfolding handoff_context
handoff_context_iff s c later r h x issued stored =
    let (fits, made) =
      raise_if-eq-ok (not (h.conversation_id == c.conversation_id) || not (is_pending h.status)) _ _
        issued in
    let it : x ≡ notice_of c h = cc in
    let here : r.delivery_context ≡ some (object (notice_of c h)) =
      stored ∙ ap (λ y. some (object y)) it in
    let (read, write) = notice_eligible_iff s later r (notice_of c h) here refl in
    (
      λ e.
          let (now, named, found, related, waiting, state, purpose, epoch) = read e in
          (now, found, related, waiting, state, text-injective epoch),
      λ (now, found, related, waiting, state, epoch).
          write (now, refl, found, related, waiting, state, refl, ap (λ t. some (text t)) epoch),
    )
