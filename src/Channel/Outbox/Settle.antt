-- ===== src/Channel/Outbox/Settle.antt =====
-- app/channel/worker.py: what a worker makes of the provider's answer, and the recovery of rows whose worker has
-- gone. Each function of a table of deliveries is one transaction.
use chat_bot_ceiba.Common.{
  ℕ, ◌+◌, ◌-◌, ◌*◌, Bool, true, false, not, ◌&&◌, ◌||◌, Option, none, some, List, [], ◌∷◌, ◌++◌,
  String, text_eq, take_chars, is_empty_text, ltb, leb, is_some, find_first, if◌then◌else◌,
}
use chat_bot_ceiba.Rows.Settings.{second}
use chat_bot_ceiba.Rows.Table.{get}
use chat_bot_ceiba.Rows.Audit.{AuditEvent, AuditValue}
use chat_bot_ceiba.Conversation.{Conversation}
use chat_bot_ceiba.Notifications.Queue.{backoff_seconds}
use chat_bot_ceiba.Channel.Outbox.Row.{
  OutboxRow, pending, sent, failed, Admission, unknown, sent_phase, Deliveries, Message, Content,
  outbound, message_key, is_sending, phase_is_admitted,
}
use chat_bot_ceiba.Channel.Outbox.Eligibility.{Ruling, eligible, stopped, eligibility}
use chat_bot_ceiba.Channel.Outbox.Admission.{lock_delivery_row, stop_delivery, put_row, owns}

pub data SettlementOutcome : Type 0 where
  applied discarded : SettlementOutcome

pub record Limits : Type 0 where
  pub max_attempts : ℕ
  pub max_backoff_seconds : ℕ
  pub sending_timeout_seconds : ℕ

-- An admitted call without an answer: `{**send_admission, "phase": "UNKNOWN"}`
unfoldable pub forget_call : Option Admission → Option Admission
forget_call none = none
forget_call (some a) =
    if phase_is_admitted (some a) then some (record a { phase = unknown }) else some a

-- The row of a failure that may not be tried again by the rules of eligibility.
unfoldable pub failed_stopped : OutboxRow → String → OutboxRow
unfolding forget_call
failed_stopped r error =
    if phase_is_admitted r.send_admission
    then record r {
      attempts = r.attempts + 1;
      last_error = some (take_chars 1000 error);
      send_admission = forget_call r.send_admission;
    }
    else r

abbrev pub is_final : Bool → ℕ → Limits → Bool
is_final permanent attempts l = permanent || leb l.max_attempts attempts

unfoldable pub failed_row : OutboxRow → String → ℕ → Bool → Limits → OutboxRow
unfolding forget_call
failed_row r error now permanent l =
    let final = is_final permanent (r.attempts + 1) l in
    record r {
      send_admission = forget_call r.send_admission;
      claim_token = none;
      attempts = r.attempts + 1;
      last_error = some (take_chars 1000 error);
      claimed_at = none;
      status = if final then failed else pending;
      next_attempt_at =
          if final
          then none
          else some (now + backoff_seconds (r.attempts + 1) l.max_backoff_seconds * second);
    }

abbrev pub error_or_default : String → String
error_or_default error = if is_empty_text error then "Unknown outbound send error" else error

abbrev pub send_failed_event : OutboxRow → String → AuditEvent
send_failed_event r error = record {
  actor = "INTEGRATION";
  action = "WHATSAPP_OUTBOX_SEND_FAILED";
  entity = "outbox";
  old_value = none;
  new_value = some (
      ("outbox_id", AuditValue.num r.outbox_id)
      ∷ ("attempts", AuditValue.num r.attempts)
      ∷ ("status", AuditValue.text "FAILED")
      ∷ []);
  reason = error_or_default (take_chars 1000 error);
}

-- The event that only the last failure leaves.
unfoldable pub log_final : Bool → AuditEvent → Deliveries → Deliveries
log_final true e s = record s { trail = s.trail ++ e ∷ [] }
log_final false e s = s

-- `_mark_outbox_failure_locked` with the ruling and the row that `eligibility` left.
unfoldable pub mark_ruled :
    Ruling → OutboxRow → String → ℕ → Bool → Limits → Deliveries → Deliveries
unfolding stop_delivery failed_stopped failed_row
mark_ruled (stopped stop reason) r error now permanent l s =
    put_row (failed_stopped (stop_delivery r stop reason now) error) s
mark_ruled (eligible reason) r error now permanent l s =
    let r' = failed_row r error now permanent l in
    log_final (is_final permanent r'.attempts l) (send_failed_event r' error) (put_row r' s)

unfoldable pub mark_outbox_failure_locked :
    Conversation → OutboxRow → String → ℕ → Bool → Limits → Deliveries → Deliveries
unfolding mark_ruled
mark_outbox_failure_locked c r error now permanent l s =
    mark_ruled (eligibility s c r).0 (eligibility s c r).1 error now permanent l s

unfoldable pub lock_owned_outbox : ℕ → ℕ → Deliveries → Option (Conversation × OutboxRow)
unfolding lock_delivery_row
lock_owned_outbox k token s = elim (lock_delivery_row k s) [
  | none ↦ none
  | some (c, r) ↦ if owns token r then some (c, r) else none
]

abbrev pub delivered : Option Admission → Option Admission
delivered none = none
delivered (some a) = some (record a { phase = sent_phase })

unfoldable pub sent_row : OutboxRow → ℕ → OutboxRow
sent_row r sent_at = record r {
  status = sent;
  send_admission = delivered r.send_admission;
  claim_token = none;
  sent_at = some sent_at;
  claimed_at = none;
  next_attempt_at = none;
  last_error = none;
}

-- What a worker reports of a call that was answered.
pub record Answer : Type 0 where
  pub provider_message_id : String
  pub message_type : String
  pub content : Content
  pub sent_at : ℕ

abbrev pub outbound_message : ℕ → OutboxRow → ℕ → Answer → Message
outbound_message k r customer a = record {
  message_id = k;
  external_message_id = a.provider_message_id;
  conversation_id = r.conversation_id;
  customer_id = customer;
  direction = outbound;
  message_type = a.message_type;
  content = a.content;
}

abbrev pub has_external_id : String → Message → Bool
has_external_id i m = text_eq m.external_message_id i

-- The stored conversation gets the outgoing message once.
unfoldable pub add_outbound : ℕ → OutboxRow → ℕ → Answer → Deliveries → Deliveries
add_outbound new_id r customer a s =
    if is_some (find_first (has_external_id a.provider_message_id) s.messages)
    then s
    else record s { messages = s.messages ++ outbound_message new_id r customer a ∷ [] }

-- `missing` is the text of the RuntimeError, `new_id` the serial key of the message.
unfoldable pub settle_outbox_success :
    ℕ → ℕ → Answer → String → ℕ → Limits → Deliveries → SettlementOutcome × Deliveries
unfolding lock_owned_outbox sent_row add_outbound
settle_outbox_success k token a missing new_id l s = elim (lock_owned_outbox k token s) [
  | none ↦ (discarded, s)
  | some (c, r) ↦ elim (get message_key r.message_id s.messages) [
    | none ↦ (applied, mark_outbox_failure_locked c r missing a.sent_at false l s)
    | some m ↦ (applied, add_outbound new_id r m.customer_id a (put_row (sent_row r a.sent_at) s))
  ]
]

unfoldable pub settle_outbox_failure :
    ℕ → ℕ → String → ℕ → Bool → Limits → Deliveries → SettlementOutcome × Deliveries
unfolding lock_owned_outbox
settle_outbox_failure k token error failed_at permanent l s = elim (lock_owned_outbox k token s) [
  | none ↦ (discarded, s)
  | some (c, r) ↦ (applied, mark_outbox_failure_locked c r error failed_at permanent l s)
]

abbrev pub is_stale : ℕ → OutboxRow → Bool
is_stale stale_before r = elim r.claimed_at [
  | some t ↦ ltb t stale_before
  | none ↦ not (is_some r.claim_token) && ltb r.created_at stale_before
]

-- The transaction of one candidate; `busy` says that another transaction holds one of the locks.
unfoldable pub recover_row : Bool → ℕ → ℕ → Limits → ℕ → Deliveries → ℕ × Deliveries
unfolding lock_delivery_row
recover_row busy now stale_before l k s = if busy then (0, s) else (elim (lock_delivery_row k s) [
  | none ↦ (0, s)
  | some (c, r) ↦
      if is_sending r.status && is_stale stale_before r
      then (1, mark_outbox_failure_locked c r "stale SENDING recovered by reaper" now false l s)
      else (0, s)
])

abbrev pub stale_point : Limits → ℕ → ℕ
stale_point l now = now - l.sending_timeout_seconds * second

-- The loop over the candidates, each in its own transaction, with the rows that were busy then.
unfoldable pub recover_rows : (ℕ → Bool) → ℕ → Limits → List ℕ → Deliveries → ℕ × Deliveries
unfolding recover_row
recover_rows busy now l [] s = (0, s)
recover_rows busy now l (k ∷ ks) s =
    let (n, t) = recover_row (busy k) now (stale_point l now) l k s in
    let (m, u) = recover_rows busy now l ks t in (n + m, u)

abbrev pub stale_ids : ℕ → List OutboxRow → List ℕ
stale_ids stale_before [] = []
stale_ids stale_before (r ∷ rs) =
    if is_sending r.status && is_stale stale_before r
    then r.outbox_id ∷ stale_ids stale_before rs
    else stale_ids stale_before rs

unfoldable pub recover_stale_sending_outbox : (ℕ → Bool) → ℕ → Limits → Deliveries → ℕ × Deliveries
unfolding recover_rows
recover_stale_sending_outbox busy now l s =
    recover_rows busy now l (stale_ids (stale_point l now) s.rows) s
