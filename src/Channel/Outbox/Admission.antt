-- ===== src/Channel/Outbox/Admission.antt =====
-- app/channel/delivery.py: the lock on a row, its retirement without a call, and the permission for one call of
-- the provider. Each of `decide` and `reject_media_admission` is one transaction; the UUID that the admission
-- draws and the time come in as arguments.
use Prim.Native.String.{◌++◌ as cat}
use chat_bot_ceiba.Common.{
  ℕ, Bool, true, false, not, ◌&&◌, ◌||◌, Option, none, some, String, opt_eq, if◌then◌else◌,
  contains,
}
use chat_bot_ceiba.Rows.Table.{get, put}
use chat_bot_ceiba.Conversation.{Conversation}
use chat_bot_ceiba.Channel.Outbox.Row.{
  OutboxRow, OutboxStatus, suppressed, review, Admission, admitted, rejected_media, Deliveries,
  outbox_key, conversation_key, is_sending, phase_is_admitted, is_uncertain,
}
use chat_bot_ceiba.Channel.Outbox.Eligibility.{
  Stop, suppress, to_review, Ruling, eligible, stopped, eligibility,
}

pub data Decision : Type 0 where
  eligible_now admitted_now discarded : Decision
  stopped_as : OutboxStatus → Decision

abbrev pub put_row : OutboxRow → Deliveries → Deliveries
put_row r s = record s { rows = put outbox_key r s.rows }

-- In a transaction that waits for the locks, or finds them free.
unfoldable pub lock_delivery_row : ℕ → Deliveries → Option (Conversation × OutboxRow)
lock_delivery_row k s = elim (get outbox_key k s.rows) [
  | none ↦ none
  | some r ↦ elim (get conversation_key r.conversation_id s.conversations) [
    | none ↦ none
    | some c ↦ if contains c.customer_id s.customers then some (c, r) else none
  ]
]

abbrev pub stop_status : Stop → OutboxStatus
stop_status suppress = suppressed
stop_status to_review = review

unfoldable pub stop_delivery : OutboxRow → Stop → String → ℕ → OutboxRow
stop_delivery r stop reason now =
    let uncertain = is_uncertain r.send_admission in
    record r {
      status = if uncertain then review else stop_status stop;
      delivery_reason =
          some (if uncertain then cat "EXTERNAL_RESULT_UNCERTAIN_" reason else reason);
      delivery_decided_at = some now;
      claim_token = none;
      claimed_at = none;
      next_attempt_at = none;
    }

abbrev pub owns : ℕ → OutboxRow → Bool
owns token r = is_sending r.status && opt_eq r.claim_token token

abbrev pub new_admission : ℕ → ℕ → ℕ → Admission
new_admission uuid token now = record {
  admission_id = some uuid;
  claim_token = some token;
  at = some now;
  phase = admitted;
}

-- `_decide` after the guards, with the ruling and the row that `eligibility` left.
unfoldable pub ruled : Ruling → OutboxRow → ℕ → Bool → ℕ → ℕ → Deliveries → Decision × Deliveries
unfolding stop_delivery
ruled (stopped stop reason) r token admit uuid now s =
    let r' = stop_delivery r stop reason now in (stopped_as r'.status, put_row r' s)
ruled (eligible reason) r token admit uuid now s =
    if admit
    then (
      admitted_now,
      put_row (record r { send_admission = some (new_admission uuid token now) }) s,
    )
    else (eligible_now, put_row r s)

unfoldable pub decide : ℕ → ℕ → Bool → ℕ → ℕ → Deliveries → Decision × Deliveries
unfolding lock_delivery_row ruled
decide k token admit uuid now s = elim (lock_delivery_row k s) [
  | none ↦ (discarded, s)
  | some (c, r) ↦
      if not (owns token r) || phase_is_admitted r.send_admission
      then (discarded, s)
      else ruled (eligibility s c r).0 (eligibility s c r).1 token admit uuid now s
]

abbrev pub admit_outbox : ℕ → ℕ → ℕ → ℕ → Deliveries → Decision × Deliveries
admit_outbox k token uuid now s = decide k token true uuid now s

abbrev pub check_outbox : ℕ → ℕ → ℕ → Deliveries → Decision × Deliveries
check_outbox k token now s = decide k token false 0 now s

abbrev pub with_rejected_media : Option Admission → Admission
with_rejected_media none = record {
  admission_id = none;
  claim_token = none;
  at = none;
  phase = rejected_media;
}
with_rejected_media (some a) = record a { phase = rejected_media }

unfoldable pub reject_media_admission : ℕ → ℕ → Deliveries → Bool × Deliveries
unfolding lock_delivery_row
reject_media_admission k token s = elim (lock_delivery_row k s) [
  | none ↦ (false, s)
  | some (c, r) ↦
      if owns token r
      then (
        true,
        put_row (record r { send_admission = some (with_rejected_media r.send_admission) }) s,
      )
      else (false, s)
]
