-- ===== src/Reservation/Booking.antt =====
-- app/reservation/booking.py: pending requests, and the receipt that is linked to one of them.
pub mod Candidate
pub mod Link
pub mod Request
use chat_bot_ceiba.Common.{
  ℕ, ◌<◌, Bool, true, false, not, ◌&&◌, ◌||◌, Option, none, some, List, [], ◌∷◌, ◌++◌, String,
  Result, ok, err, ltb, leb, ◌==◌, opt_eq, is_some, if◌then◌else◌, is_blank, raise_if, ◌>>=◌, ◌>>◌,
}
use chat_bot_ceiba.Rows.Settings.{date_of}
use chat_bot_ceiba.Rows.Plan.{Plan, EventType, same_event_type}
use chat_bot_ceiba.Rows.Reservation.{
  Reservation, ReservationStatus, payment_pending, payment_review, reserved, expired, cancelled,
  not_synced, is_payment_pending,
}
use chat_bot_ceiba.Rows.Evidence.{PaymentEvidence}
use chat_bot_ceiba.Rows.Audit.{AuditEvent, AuditValue, opt_num}
use chat_bot_ceiba.Reservation.Transition.{
  BookingError, value_error, invalid_plan, status_text, transition_reservation,
}
use chat_bot_ceiba.Reservation.Window.{Datetime, booking_ends_at}
use chat_bot_ceiba.Reservation.Store.{
  Store, payment_pending_created, evidence_received, reservation_source, evidence_source, add_audit,
  put_reservation, put_evidence,
}
use chat_bot_ceiba.Notifications.Staff.{enqueue_for_reservation}

pub data DateType : Type 0 where
  exact approximate flexible unknown : DateType

-- The columns of Event that a request reads and writes.
pub record Event : Type 0 where
  pub event_id : ℕ
  pub event_type : EventType
  pub plan_id : Option ℕ
  pub event_date : Option ℕ
  pub event_date_type : Option DateType
  pub event_month : Option ℕ
  pub event_date_raw : Option String

abbrev pub date_type_value : Option DateType → AuditValue
date_type_value none = AuditValue.null
date_type_value (some exact) = AuditValue.text "EXACT"
date_type_value (some approximate) = AuditValue.text "APPROXIMATE"
date_type_value (some flexible) = AuditValue.text "FLEXIBLE"
date_type_value (some unknown) = AuditValue.text "UNKNOWN"

abbrev pub opt_date : Option ℕ → AuditValue
opt_date none = AuditValue.null
opt_date (some d) = AuditValue.date d

abbrev pub opt_text : Option String → AuditValue
opt_text none = AuditValue.null
opt_text (some t) = AuditValue.text t

abbrev pub is_exact : Option DateType → Bool
is_exact (some exact) = true
is_exact _ = false

abbrev pub date_changed : Event → ℕ → Bool
date_changed e local_date = not (opt_eq e.event_date local_date) || not (is_exact e.event_date_type)

-- `event_date_raw` is cleared only when the date changes.
abbrev pub dated_event : Event → Plan → ℕ → Event
dated_event e plan local_date = record e {
  plan_id = some plan.plan_id;
  event_date = some local_date;
  event_date_type = some exact;
  event_month = none;
  event_date_raw = if date_changed e local_date then none else e.event_date_raw;
}

abbrev pub date_captured : Event → ℕ → String → AuditEvent
date_captured e local_date actor = record {
  actor = actor;
  action = "EVENT_DATE_CAPTURED";
  entity = "event";
  old_value = some (
      ("event_id", AuditValue.ident e.event_id)
      ∷ ("event_date", opt_date e.event_date)
      ∷ ("event_date_type", date_type_value e.event_date_type)
      ∷ ("event_month", opt_num e.event_month)
      ∷ ("event_date_raw", opt_text e.event_date_raw)
      ∷ []);
  new_value = some (
      ("event_id", AuditValue.ident e.event_id)
      ∷ ("event_date", AuditValue.date local_date)
      ∷ ("event_date_type", AuditValue.text "EXACT")
      ∷ ("event_month", AuditValue.null)
      ∷ ("event_date_raw", AuditValue.null)
      ∷ []);
  reason = "Fecha seleccionada para solicitud de reserva";
}

abbrev pub reservation_created : Reservation → Plan → String → AuditEvent
reservation_created r plan actor = record {
  actor = actor;
  action = "RESERVATION_CREATED";
  entity = "reservation";
  old_value = none;
  new_value = some (
      ("reservation_id", AuditValue.ident r.reservation_id)
      ∷ ("plan_code", AuditValue.text plan.code)
      ∷ ("starts_at", AuditValue.instant r.starts_at)
      ∷ ("ends_at", AuditValue.instant r.ends_at)
      ∷ ("checkout", if plan.overnight then AuditValue.instant r.ends_at else AuditValue.null)
      ∷ ("price_cop", AuditValue.num plan.price_cop)
      ∷ []);
  reason = "Solicitud pendiente de pago; sin bloqueo de disponibilidad";
}

-- What the caller supplies: the rows by their ids, and the id that `uuid4()` draws.
pub record BookingRequest : Type 0 where
  pub reservation_id : ℕ
  pub lead_id : ℕ
  pub event : Event
  pub plan : Plan
  pub conversation_id : Option ℕ
  pub customer_id : ℕ
  pub starts_at : Datetime
  pub actor : String

abbrev pub pending_row : BookingRequest → ℕ → ℕ → Reservation
pending_row q ends_at now = record {
  reservation_id = q.reservation_id;
  lead_id = q.lead_id;
  event_id = q.event.event_id;
  plan_id = q.plan.plan_id;
  conversation_id = q.conversation_id;
  customer_id = q.customer_id;
  status = payment_pending;
  starts_at = q.starts_at.at;
  ends_at = ends_at;
  price_cop = q.plan.price_cop;
  amount_paid_cop = 0;
  payment_kind = none;
  balance_due_at = none;
  balance_overdue_at = none;
  hold_expires_at = none;
  external_calendar_id = none;
  calendar_status = not_synced;
  created_at = now;
}

abbrev pub add_reservation : Reservation → Store → Store
add_reservation r s = record s { reservations = s.reservations ++ r ∷ [] }

-- The trail of a request: the event's new date where it changes, then the reservation.
abbrev pub request_audits : BookingRequest → Reservation → Store → Store
request_audits q r s =
    let local_date = date_of q.starts_at.at in
    add_audit (reservation_created r q.plan q.actor) (
      if date_changed q.event local_date
      then add_audit (date_captured q.event local_date q.actor) s
      else s)

unfoldable pub create_pending_reservation :
    BookingRequest → Store → Result BookingError (Reservation × Event × Store)
create_pending_reservation q s = do
  raise_if (not q.plan.active) (invalid_plan "El plan está inactivo.")
  raise_if (not (same_event_type q.plan.event_type q.event.event_type))
      (invalid_plan "El plan no corresponde al tipo de evento.")
  raise_if (not q.starts_at.aware) (value_error "La fecha requiere zona horaria.")
  raise_if (is_blank q.actor) (value_error "El actor es obligatorio.")
  ends_at ← booking_ends_at q.plan q.starts_at
  let r = pending_row q ends_at.at s.now
  s' ←
      enqueue_for_reservation r payment_pending_created reservation_source r.reservation_id
        (request_audits q r (add_reservation r s))
  ok (r, dated_event q.event q.plan (date_of q.starts_at.at), s')

-- The WHERE clause of the candidate query.
abbrev pub awaits_payment : Reservation → Bool
awaits_payment r = elim r.status [
  | payment_review ↦ true
  | payment_pending ↦ true
  | reserved ↦ ltb r.amount_paid_cop r.price_cop
  | _ ↦ false
]

abbrev pub is_candidate : ℕ → ℕ → Reservation → Bool
is_candidate customer_id now r =
    r.customer_id == customer_id && (ltb now r.starts_at && awaits_payment r)

-- The CASE expression; a status that it does not list sorts as NULL, after the others.
abbrev pub priority : ReservationStatus → ℕ
priority payment_review = 0
priority payment_pending = 1
priority reserved = 2
priority _ = 3

-- The ORDER BY clause: the case, the newest, the greatest id.
unfoldable pub precedes : Reservation → Reservation → Bool
precedes r q =
    if ltb (priority r.status) (priority q.status)
    then true
    else if ltb (priority q.status) (priority r.status)
    then false
    else if ltb q.created_at r.created_at
    then true
    else if ltb r.created_at q.created_at
    then false
    else leb q.reservation_id r.reservation_id

abbrev pub first_of_two : Reservation → Option Reservation → Option Reservation
first_of_two r none = some r
first_of_two r (some q) = if precedes r q then some r else some q

-- `LIMIT 1` of the ordered rows.
unfoldable pub payment_reservation_candidate : ℕ → ℕ → List Reservation → Option Reservation
unfolding precedes
payment_reservation_candidate customer_id now [] = none
payment_reservation_candidate customer_id now (r ∷ rs) =
    if is_candidate customer_id now r
    then first_of_two r (payment_reservation_candidate customer_id now rs)
    else payment_reservation_candidate customer_id now rs

abbrev pub evidence_linked : PaymentEvidence → Reservation → AuditEvent
evidence_linked e r = record {
  actor = "SYSTEM";
  action = "PAYMENT_EVIDENCE_LINKED";
  entity = "payment_evidence";
  old_value =
      some
        (("evidence_id", AuditValue.num e.evidence_id) ∷ ("reservation_id", AuditValue.null) ∷ []);
  new_value = some (
      ("evidence_id", AuditValue.num e.evidence_id)
      ∷ ("reservation_id", AuditValue.ident r.reservation_id)
      ∷ ("customer_id", AuditValue.num e.customer_id)
      ∷ ("reservation_status", AuditValue.text (status_text r.status))
      ∷ []);
  reason = "Comprobante vinculado a la reserva futura del cliente";
}

-- `if reservation.status == "PAYMENT_PENDING": await transition_reservation(…)`
unfoldable pub move_to_review :
    Reservation → String → String → Store → Result BookingError (Reservation × Store)
move_to_review r actor reason s =
    if is_payment_pending r.status
    then (transition_reservation r payment_review actor reason s.audits >>= λ m.
        ok (m.0, put_reservation m.0 (record s { audits = m.1 })))
    else ok (r, s)

-- The reservation comes back with the rows, or `none` where nothing was linked.
unfoldable pub attach_payment_evidence :
    PaymentEvidence → Store → Result BookingError (Option Reservation × Store)
attach_payment_evidence e s =
    if is_some e.reservation_id
    then ok (none, s)
    else elim (payment_reservation_candidate e.customer_id s.now s.reservations) [
      | none ↦ ok (none, s)
      | some r ↦ do
        (r', s') ←
            move_to_review r "SYSTEM" "Comprobante recibido"
              (put_evidence (record e { reservation_id = some r.reservation_id }) s)
        s'' ←
            enqueue_for_reservation r' evidence_received evidence_source e.evidence_id
              (add_audit (evidence_linked e r') s')
        ok (some r', s'')
    ]
