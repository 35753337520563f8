-- ===== src/Notifications/Staff.antt =====
-- app/notifications/service.py: a notice for each advisor who asked for it, once for each source.
pub mod Once
use chat_bot_ceiba.Common.{
  ℕ, suc, ◌+◌, ◌-◌, ◌≤◌, ◌≡◌, refl, Bool, true, false, not, ◌&&◌, ◌||◌, Option, none, some, List,
  [], ◌∷◌, ◌++◌, map, String, Result, ok, err, arith, ◌==◌, if◌then◌else◌, any_of, select, is_empty,
  length, contains, ◌>>=◌, All,
}
use chat_bot_ceiba.Rows.Reservation.{Reservation, is_reserved}
use chat_bot_ceiba.Rows.Audit.{AuditEvent, AuditValue}
use chat_bot_ceiba.Reservation.Transition.{BookingError}
use chat_bot_ceiba.Reservation.Deposit.{deposit_amount}
use chat_bot_ceiba.Reservation.Store.{
  Store, EventKind, evidence_received, payment_pending_created, test_notice, balance_overdue,
  SourceEntity, reservation_source, evidence_source, NotificationRecipient, StaffParams,
  StaffNotice, add_audit,
}

abbrev pub same_kind : EventKind → EventKind → Bool
same_kind evidence_received evidence_received = true
same_kind payment_pending_created payment_pending_created = true
same_kind test_notice test_notice = true
same_kind balance_overdue balance_overdue = true
same_kind _ _ = false

abbrev pub same_entity : SourceEntity → SourceEntity → Bool
same_entity reservation_source reservation_source = true
same_entity evidence_source evidence_source = true
same_entity _ _ = false

-- The constraint uq_staff_outbox_source.
abbrev pub same_source : StaffNotice → StaffNotice → Bool
same_source a b =
    a.recipient_id == b.recipient_id
    && (same_kind a.event_kind b.event_kind
        && (same_entity a.source_entity b.source_entity && a.source_id == b.source_id))

abbrev pub kind_text : EventKind → String
kind_text evidence_received = "EVIDENCE_RECEIVED"
kind_text payment_pending_created = "PAYMENT_PENDING_CREATED"
kind_text test_notice = "TEST"
kind_text balance_overdue = "BALANCE_OVERDUE"

abbrev pub entity_text : SourceEntity → String
entity_text reservation_source = "reservation"
entity_text evidence_source = "payment_evidence"

-- The serial id that the database gives to the row is left out of the event.
abbrev pub enqueued_event : StaffNotice → AuditEvent
enqueued_event n = record {
  actor = "SYSTEM";
  action = "STAFF_NOTIFICATION_ENQUEUED";
  entity = "staff_outbox";
  old_value = none;
  new_value = some (
      ("recipient_id", AuditValue.num n.recipient_id)
      ∷ ("event_kind", AuditValue.text (kind_text n.event_kind))
      ∷ ("source", AuditValue.source (entity_text n.source_entity) n.source_id)
      ∷ ("status", AuditValue.text "PENDING")
      ∷ []);
  reason = "Aviso interno a asesor";
}

-- INSERT … ON CONFLICT DO NOTHING, audited when a row came of it.
unfoldable pub enqueue_staff_notification : StaffNotice → Store → Store
enqueue_staff_notification n s =
    if any_of (same_source n) s.staff_outbox
    then s
    else add_audit (enqueued_event n) (record s { staff_outbox = s.staff_outbox ++ n ∷ [] })

abbrev pub wants : EventKind → NotificationRecipient → Bool
wants payment_pending_created r = r.notify_on_payment_pending
wants _ r = r.notify_on_evidence

unfoldable pub notified : EventKind → SourceEntity → ℕ → List StaffNotice → List ℕ
notified kind entity source_id outbox =
    map (λ (n : StaffNotice). n.recipient_id)
      (select
        (λ n.
          same_kind n.event_kind kind
          && (same_entity n.source_entity entity && n.source_id == source_id))
        outbox)

-- The recipients of a notice: those already told of an overdue balance are left out.
unfoldable pub recipients_for : EventKind → SourceEntity → ℕ → Store → List ℕ
recipients_for kind entity source_id s =
    let chosen =
      map (λ (r : NotificationRecipient). r.recipient_id)
        (select (λ r. r.active && wants kind r) s.recipients) in
    if same_kind kind balance_overdue
    then select (λ i. not (contains i (notified kind entity source_id s.staff_outbox))) chosen
    else chosen

unfoldable pub enqueue_each : EventKind → SourceEntity → ℕ → StaffParams → List ℕ → Store → Store
enqueue_each kind entity source_id params [] s = s
enqueue_each kind entity source_id params (i ∷ is) s =
    enqueue_each kind entity source_id params is (
      enqueue_staff_notification
        (record {
          recipient_id = i;
          event_kind = kind;
          source_entity = entity;
          source_id = source_id;
          params = params;
        })
        s)

abbrev pub notice_params : Reservation → ℕ → StaffParams
notice_params r amount = record {
  customer_id = r.customer_id;
  plan_id = r.plan_id;
  starts_at = r.starts_at;
  amount_cop = amount;
}

-- `max(0, …)`: the price for a confirmed reservation, the deposit otherwise, less what is paid.
unfoldable pub expected_amount : Store → Reservation → Result BookingError ℕ
expected_amount s r =
    if is_reserved r.status
    then ok (r.price_cop - r.amount_paid_cop)
    else (deposit_amount s.settings r.price_cop >>= λ d. ok (d - r.amount_paid_cop))

unfoldable pub enqueue_for_reservation :
    Reservation → EventKind → SourceEntity → ℕ → Store → Result BookingError Store
enqueue_for_reservation r kind entity source_id s =
    if not s.settings.staff_notifications_enabled
    then ok s
    else if is_empty (recipients_for kind entity source_id s)
    then ok s
    else do
      amount ← expected_amount s r
      ok (
          enqueue_each kind entity source_id (notice_params r amount)
            (recipients_for kind entity source_id s) s)
