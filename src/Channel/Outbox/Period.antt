-- ===== src/Channel/Outbox/Period.antt =====
-- Which messages of the assistant itself may be sent: those of the conversation's present automation period.
use chat_bot_ceiba.Common.{
  ◌≡◌, ◌↔◌, ◌⊎◌, refl, sym, ◌∙◌, inl, inr, true, false, Option, none, some, List, String, arith,
  text_eq_iff, Bool-cases, Option-cases, All, any_of, ok,
}
use chat_bot_ceiba.Rows.Json.{Json, text, is_text, text_is, is_int, as_key}
use chat_bot_ceiba.Rows.Table.{get}
use chat_bot_ceiba.Rows.Audit.{AuditEvent}
use chat_bot_ceiba.Rows.Handoff.{Handoff, handoff_key, is_pending}
use chat_bot_ceiba.Conversation.{Conversation, is_paused, same_state, waiting_for_human}
use chat_bot_ceiba.Conversation.Reach.{Move, run, pauses, IsFresh, run-revokes}
use chat_bot_ceiba.Channel.Outbox.Row.{OutboxRow, DeliveryContext, object, Deliveries}
use chat_bot_ceiba.Channel.Outbox.Eligibility.{
  is_eligible, eligibility, context_eligibility, auto_eligibility, period_eligibility,
  notice_eligibility, ack_receipt,
}

-- The conditions of an automatic message, as a predicate.
pub record IsCurrent (c : Conversation) (x : DeliveryContext) : Type 0 where
  pub purpose : (text_is x.purpose "TEMPLATE" ≡ true) ⊎ (text_is x.purpose "CATALOG" ≡ true)
  pub epoch : x.epoch ≡ some (text c.automation_epoch)
  pub enabled : c.bot_enabled ≡ true
  pub active : is_paused c.state ≡ false

text_is-value : (v : Option Json) (t : String) → text_is v t ≡ true → v ≡ some (text t)
text_is-value none t h = cc
text_is-value (some (Json.integer n)) t h = cc
text_is-value (some (Json.negative_integer n)) t h = cc
text_is-value (some (text u)) t h = let same = (text_eq_iff u t).0 h in rw same refl
text_is-value (some Json.other_value) t h = cc

text_is_self : (t : String) → text_is (some (text t)) t ≡ true
text_is_self t = (text_eq_iff t t).1 refl

pub stored_ruling :
    (s : Deliveries) (c : Conversation) (r : OutboxRow) (x : DeliveryContext)
    → r.delivery_context ≡ some (object x)
    → (eligibility s c r).0 ≡ context_eligibility s c r x
unfolding eligibility ack_receipt
stored_ruling s c r x stored = rw (eligibility, stored) refl

auto_ruling :
    (s : Deliveries) (c : Conversation) (r : OutboxRow) (x : DeliveryContext)
    → x.origin ≡ some (text "AUTO")
    → context_eligibility s c r x ≡ auto_eligibility c x
unfolding context_eligibility
auto_ruling s c r x origin = rw (context_eligibility, origin) refl

notice_ruling :
    (s : Deliveries) (c : Conversation) (r : OutboxRow) (x : DeliveryContext)
    → x.origin ≡ some (text "HANDOFF_NOTICE")
    → context_eligibility s c r x ≡ notice_eligibility s c x
unfolding context_eligibility
notice_ruling s c r x origin = rw (context_eligibility, origin) refl

auto_eligibility-IsCurrent :
    (c : Conversation) (x : DeliveryContext)
    → is_eligible (auto_eligibility c x) ≡ true
    → IsCurrent c x
unfolding auto_eligibility period_eligibility
auto_eligibility-IsCurrent c x h = record {
  purpose = ground arith;
  epoch = text_is-value x.epoch c.automation_epoch (ground arith);
  enabled = ground arith;
  active = ground arith;
}

current-auto_eligibility :
    (c : Conversation) (x : DeliveryContext)
    → IsCurrent c x
    → is_eligible (auto_eligibility c x) ≡ true
unfolding auto_eligibility period_eligibility
current-auto_eligibility c x now =
    let epoch : text_is x.epoch c.automation_epoch ≡ true =
      rw now.epoch (text_is_self c.automation_epoch) in
    let shown : is_text x.epoch ≡ true = rw now.epoch refl in
    ground (arith, now.purpose, now.enabled, now.active)

-- A message of origin AUTO is eligible exactly when its purpose is TEMPLATE or CATALOG, its epoch is the
-- conversation's present one, the bot is enabled and the conversation is in no paused state.
pub auto_eligible_iff :
    (s : Deliveries) (c : Conversation) (r : OutboxRow) (x : DeliveryContext)
    → r.delivery_context ≡ some (object x)
    → x.origin ≡ some (text "AUTO")
    → (is_eligible (eligibility s c r).0 ≡ true) ↔ IsCurrent c x
auto_eligible_iff s c r x stored origin =
    rw (stored_ruling s c r x stored, auto_ruling s c r x origin)
      (auto_eligibility-IsCurrent c x, current-auto_eligibility c x)

-- The conditions of a notice that a person will answer.
abbrev pub IsAwaited : Deliveries → Conversation → DeliveryContext → Type 0
IsAwaited s c x =
    (h : Handoff) × (is_int x.case_id ≡ true)
    × (get handoff_key (as_key x.case_id) s.cases ≡ some h)
    × (h.conversation_id ≡ c.conversation_id)
    × (is_pending h.status ≡ true)
    × (same_state c.state waiting_for_human ≡ true)
    × (text_is x.purpose "TRANSFER" ≡ true)
    × (x.epoch ≡ some (text c.automation_epoch))

notice_eligibility-IsAwaited :
    (s : Deliveries) (c : Conversation) (x : DeliveryContext)
    → is_eligible (notice_eligibility s c x) ≡ true
    → IsAwaited s c x
unfolding notice_eligibility period_eligibility
notice_eligibility-IsAwaited s c x h =
    elim (Option-cases (get handoff_key (as_key x.case_id) s.cases)) [
      | inl gone ↦ absurd (ground arith)
      | inr (case, found) ↦ (
        case,
        ground arith,
        found,
        ground arith,
        ground arith,
        ground arith,
        ground arith,
        text_is-value x.epoch c.automation_epoch (ground arith),
      )
    ]

awaited-notice_eligibility :
    (s : Deliveries) (c : Conversation) (x : DeliveryContext)
    → IsAwaited s c x
    → is_eligible (notice_eligibility s c x) ≡ true
unfolding notice_eligibility period_eligibility
awaited-notice_eligibility s c x (case, named, found, related, waiting, state, purpose, epoch) =
    let current : text_is x.epoch c.automation_epoch ≡ true =
      rw epoch (text_is_self c.automation_epoch) in
    let shown : is_text x.epoch ≡ true = rw epoch refl in ground arith

-- A transfer notice is eligible exactly when the case that it names exists, belongs to the conversation and is
-- PENDING, the conversation is WAITING_FOR_HUMAN, and its purpose and its epoch are the right ones.
pub notice_eligible_iff :
    (s : Deliveries) (c : Conversation) (r : OutboxRow) (x : DeliveryContext)
    → r.delivery_context ≡ some (object x)
    → x.origin ≡ some (text "HANDOFF_NOTICE")
    → (is_eligible (eligibility s c r).0 ≡ true) ↔ IsAwaited s c x
notice_eligible_iff s c r x stored origin =
    rw (stored_ruling s c r x stored, notice_ruling s c r x origin)
      (notice_eligibility-IsAwaited s c x, awaited-notice_eligibility s c x)

-- An automatic message that belongs to the period before a pause is not eligible after it: for a conversation that
-- was not paused, after any accepted transitions with a pause among them whose drawn epochs are new, a message of
-- origin AUTO with the old epoch is refused in every table, also when the bot is active again.
pub revoked_by_pause :
    (s : Deliveries) (c c' : Conversation) (ms : List Move) (log log' : List AuditEvent)
    (r : OutboxRow) (x : DeliveryContext)
    → is_paused c.state ≡ false
    → any_of pauses ms ≡ true
    → All (IsFresh c.automation_epoch) ms
    → run ms c log ≡ ok (c', log')
    → r.delivery_context ≡ some (object x)
    → x.origin ≡ some (text "AUTO")
    → x.epoch ≡ some (text c.automation_epoch)
    → is_eligible (eligibility s c' r).0 ≡ false
revoked_by_pause s c c' ms log log' r x active pause fresh ran stored origin epoch =
    let renewed = run-revokes ms c log c' log' active pause fresh ran in
    elim (Bool-cases (is_eligible (eligibility s c' r).0)) [
      | inr refused ↦ refused
      | inl passed ↦
          let now = (auto_eligible_iff s c' r x stored origin).0 passed in
          let both : some (text c'.automation_epoch) ≡ some (text c.automation_epoch) =
            sym now.epoch ∙ epoch in
          absurd (renewed (cc))
    ]
