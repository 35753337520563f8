-- ===== src/Channel/Outbox/Eligibility.antt =====
-- app/channel/delivery.py: whether a stored message may be sent, by what its row, its conversation and the rows
-- that it names say at this moment.
use chat_bot_ceiba.Common.{
  ℕ, Bool, true, false, not, ◌&&◌, ◌||◌, Option, none, some, List, [], ◌∷◌, String, ◌==◌, is_some,
  text_eq, if◌then◌else◌, find_first, any_of, select,
}
use chat_bot_ceiba.Rows.Json.{integer, text, is_int, int_is, as_key, is_text, text_is}
use chat_bot_ceiba.Rows.Table.{get}
use chat_bot_ceiba.Rows.Handoff.{Handoff, handoff_key, is_pending, is_taken, is_open}
use chat_bot_ceiba.Rows.Evidence.{
  PaymentEvidence, ReviewStatus, pending_review, accepted, rejected, is_pending_review,
}
use chat_bot_ceiba.Rows.Reservation.{Reservation}
use chat_bot_ceiba.Conversation.{
  Conversation, is_paused, same_state, waiting_for_human, human_active, closed,
}
use chat_bot_ceiba.Channel.Outbox.Row.{
  OutboxRow, DeliveryContext, object, not_object, EnqueueEvent, Deliveries, Message, message_key,
  is_text_kind, is_inbound,
}

-- A refusal: SUPPRESSED, or REVIEW by a person.
pub data Stop : Type 0 where
  suppress to_review : Stop

pub data Ruling : Type 0 where
  eligible : String → Ruling
  stopped : Stop → String → Ruling

abbrev pub is_eligible : Ruling → Bool
is_eligible (eligible reason) = true
is_eligible (stopped stop reason) = false

-- The event that proves a message of an agent.
abbrev pub proves : OutboxRow → EnqueueEvent → Bool
proves r e = int_is e.outbox_id r.outbox_id && int_is e.conversation_id r.conversation_id

unfoldable pub human_proof : Deliveries → OutboxRow → Option ℕ
human_proof s r =
    if not (is_text_kind r.message_kind) || not r.payload.agent
    then none
    else elim (find_first (proves r) s.enqueued) [ none ↦ none | some e ↦ some e.event_id ]

abbrev pub review_text : ReviewStatus → String
review_text pending_review = "PENDING_REVIEW"
review_text accepted = "ACCEPTED"
review_text rejected = "REJECTED"

abbrev pub evidence_key : PaymentEvidence → ℕ
evidence_key e = e.evidence_id

abbrev pub reservation_key : Reservation → ℕ
reservation_key r = r.reservation_id

-- The conditions on the receipt of a payment decision.
abbrev pub decision_fits : Conversation → OutboxRow → DeliveryContext → PaymentEvidence → Bool
decision_fits c r x e =
    e.conversation_id == c.conversation_id
    && e.customer_id == c.customer_id
    && e.message_id == r.message_id
    && not (is_pending_review e.review_status)
    && text_is x.decision (review_text e.review_status)
    && is_int x.agent_id
    && (elim e.reviewed_by_agent_id [ none ↦ false | some a ↦ int_is x.agent_id a ])
    && is_some e.reviewed_at

unfoldable pub decision_eligibility :
    Deliveries → Conversation → OutboxRow → DeliveryContext → Ruling
decision_eligibility s c r x =
    let unproven = stopped to_review "PAYMENT_DECISION_UNPROVEN" in
    if not (is_int x.evidence_id) || not (text_is x.purpose "PAYMENT_DECISION")
    then unproven
    else (elim (get evidence_key (as_key x.evidence_id) s.evidences) [
      | none ↦ unproven
      | some e ↦ if decision_fits c r x e then eligible "AUTHORIZED_PAYMENT_DECISION" else unproven
    ])

abbrev pub open_case_of : ℕ → Handoff → Bool
open_case_of k h = h.conversation_id == k && is_open h.status

abbrev pub only_case : List Handoff → Option Handoff
only_case (h ∷ []) = some h
only_case _ = none

-- The receipt's own reservation and image.
unfoldable pub ack_receipt : Deliveries → Conversation → OutboxRow → DeliveryContext → Ruling
ack_receipt s c r x =
    let unlinked = stopped suppress "PAYMENT_ACK_EVIDENCE_UNLINKED" in
    elim (get evidence_key (as_key x.evidence_id) s.evidences) [
      | none ↦ unlinked
      | some e ↦ elim e.reservation_id [
        | none ↦ unlinked
        | some k ↦
            let unrelated = stopped suppress "PAYMENT_ACK_RESERVATION_UNRELATED" in
            let no_image = stopped suppress "PAYMENT_ACK_NOT_IMAGE" in
            let by_message = λ (m : Message).
              if is_inbound m.direction
                && text_eq m.message_type "image"
                && m.customer_id == c.customer_id
                && m.conversation_id == c.conversation_id
              then eligible "AUTHORIZED_PAYMENT_EVIDENCE_ACK"
              else no_image in
            let by_reservation = λ (b : Reservation).
              if b.customer_id == c.customer_id
              then (elim (get message_key e.message_id s.messages) [
                | none ↦ no_image
                | some m ↦ by_message m
              ])
              else unrelated in
            if e.conversation_id == c.conversation_id
              && e.customer_id == c.customer_id
              && e.message_id == r.message_id
            then (elim (get reservation_key k s.reservations) [
              | none ↦ unrelated
              | some b ↦ by_reservation b
            ])
            else unlinked
      ]
    ]

abbrev pub ack_case_fits : DeliveryContext → Option Handoff → Bool
ack_case_fits x none = false
ack_case_fits x (some h) = text_eq h.reason "PAYMENT_REVIEW" && int_is x.handoff_id h.handoff_id

unfoldable pub payment_ack_eligibility :
    Deliveries → Conversation → OutboxRow → DeliveryContext → Ruling
payment_ack_eligibility s c r x =
    let cases = select (open_case_of c.conversation_id) s.cases in
    if not (text_is x.purpose "EVIDENCE_RECEIPT")
    then stopped suppress "PAYMENT_ACK_INVALID_PURPOSE"
    else if not (is_int x.evidence_id) || not (is_int x.handoff_id)
    then stopped suppress "PAYMENT_ACK_INVALID_PROOF"
    else if same_state c.state human_active
    then stopped suppress "PAYMENT_ACK_HUMAN_ACTIVE"
    else if same_state c.state closed
    then stopped suppress "PAYMENT_ACK_CLOSED"
    else if not (same_state c.state waiting_for_human)
    then stopped suppress "PAYMENT_ACK_WAIT_ENDED"
    else if not c.bot_enabled
    then stopped suppress "PAYMENT_ACK_BOT_DISABLED"
    else if any_of (λ (h : Handoff). is_taken h.status) cases
    then stopped suppress "PAYMENT_ACK_HANDOFF_TAKEN"
    else if not (ack_case_fits x (only_case cases))
    then stopped suppress "PAYMENT_ACK_OTHER_HANDOFF"
    else ack_receipt s c r x

-- The automation period that AUTO and HANDOFF_NOTICE share; `paused` is AUTO's own condition.
unfoldable pub period_eligibility : Conversation → DeliveryContext → Bool → Ruling
period_eligibility c x paused =
    if not (is_text x.epoch)
    then stopped to_review "AUTOMATION_PERIOD_UNPROVEN"
    else if not (text_is x.epoch c.automation_epoch)
    then stopped suppress "AUTOMATION_PERIOD_REVOKED"
    else if paused
    then stopped suppress "AUTOMATION_PAUSED"
    else eligible "CURRENT_AUTOMATION_PERIOD"

unfoldable pub auto_eligibility : Conversation → DeliveryContext → Ruling
unfolding period_eligibility
auto_eligibility c x =
    if text_is x.purpose "TEMPLATE" || text_is x.purpose "CATALOG"
    then period_eligibility c x (not c.bot_enabled || is_paused c.state)
    else stopped to_review "AUTOMATIC_PURPOSE_UNPROVEN"

unfoldable pub notice_eligibility : Deliveries → Conversation → DeliveryContext → Ruling
unfolding period_eligibility
notice_eligibility s c x =
    let unrelated = stopped to_review "HANDOFF_NOTICE_UNRELATED" in
    let by_case = λ (h : Handoff).
      if not (h.conversation_id == c.conversation_id)
      then unrelated
      else if not (is_pending h.status) || not (same_state c.state waiting_for_human)
      then stopped suppress "HANDOFF_WAIT_ENDED"
      else period_eligibility c x false in
    if not (is_int x.case_id) || not (text_is x.purpose "TRANSFER")
    then stopped to_review "HANDOFF_NOTICE_UNPROVEN"
    else (elim (get handoff_key (as_key x.case_id) s.cases) [
      | none ↦ unrelated
      | some h ↦ by_case h
    ])

unfoldable pub human_eligibility : Deliveries → OutboxRow → DeliveryContext → Ruling
unfolding human_proof
human_eligibility s r x =
    if text_is x.purpose "REPLY" && is_some (human_proof s r)
    then eligible "AUTHORIZED_HUMAN_REPLY"
    else stopped to_review "HUMAN_ORIGIN_UNPROVEN"

-- The dispatch on the origin.
unfoldable pub context_eligibility :
    Deliveries → Conversation → OutboxRow → DeliveryContext → Ruling
unfolding human_eligibility payment_ack_eligibility decision_eligibility notice_eligibility
    auto_eligibility
context_eligibility s c r x =
    if not (is_text x.origin)
    then stopped to_review "INVALID_DELIVERY_ORIGIN"
    else if text_is x.origin "HUMAN_REPLY"
    then human_eligibility s r x
    else if text_is x.origin "PAYMENT_EVIDENCE_ACK"
    then payment_ack_eligibility s c r x
    else if text_is x.origin "PAYMENT_REVIEW_RESULT"
    then decision_eligibility s c r x
    else if text_is x.origin "HANDOFF_NOTICE"
    then notice_eligibility s c x
    else if text_is x.origin "AUTO"
    then auto_eligibility c x
    else stopped to_review "UNKNOWN_DELIVERY_ORIGIN"

-- The context that a proven row of an earlier version is given.
abbrev pub legacy_context : ℕ → DeliveryContext
legacy_context proof = record {
  origin = some (text "HUMAN_REPLY");
  purpose = some (text "REPLY");
  epoch = none;
  case_id = none;
  evidence_id = none;
  handoff_id = none;
  decision = none;
  agent_id = none;
  legacy_proof = some (integer proof);
  after_outbox_id = none;
}

-- The ruling, and the row with the context that it may have been given.
unfoldable pub eligibility : Deliveries → Conversation → OutboxRow → Ruling × OutboxRow
unfolding context_eligibility human_proof
eligibility s c r = elim r.delivery_context [
  | none ↦ elim (human_proof s r) [
    | none ↦ (stopped to_review "LEGACY_ORIGIN_UNPROVEN", r)
    | some proof ↦
        let x = legacy_context proof in
        let r' = record r { delivery_context = some (object x) } in
        (context_eligibility s c r' x, r')
  ]
  | some not_object ↦ (stopped to_review "INVALID_DELIVERY_CONTEXT", r)
  | some (object x) ↦ (context_eligibility s c r x, r)
]
