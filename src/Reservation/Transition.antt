-- ===== src/Reservation/Transition.antt =====
-- app/reservation/service.py: the status matrix of a reservation and the audited transition.
pub mod Matrix
use chat_bot_ceiba.Common.{
  ℕ, Bool, true, false, not, ◌||◌, none, some, List, [], ◌∷◌, ◌++◌, String, Result, ok, err,
  is_blank, raise_if, ◌>>=◌, ◌>>◌, any_of,
}
use chat_bot_ceiba.Rows.Reservation.{
  Reservation, ReservationStatus, payment_pending, payment_review, reserved, expired, cancelled,
}
use chat_bot_ceiba.Rows.Audit.{AuditEvent, AuditValue}

pub data BookingError : Type 0 where
  value_error : String → BookingError
  invalid_transition : ReservationStatus → ReservationStatus → BookingError
  invalid_plan : String → BookingError

abbrev pub same_status : ReservationStatus → ReservationStatus → Bool
same_status payment_pending payment_pending = true
same_status payment_review payment_review = true
same_status reserved reserved = true
same_status expired expired = true
same_status cancelled cancelled = true
same_status _ _ = false

-- RESERVATION_TRANSITIONS
unfoldable pub reservation_transitions : ReservationStatus → List ReservationStatus
reservation_transitions payment_pending = payment_review ∷ expired ∷ cancelled ∷ []
reservation_transitions payment_review = payment_pending ∷ reserved ∷ cancelled ∷ []
reservation_transitions reserved = cancelled ∷ []
reservation_transitions expired = []
reservation_transitions cancelled = []

-- The text of a status in an audited value.
abbrev pub status_text : ReservationStatus → String
status_text payment_pending = "PAYMENT_PENDING"
status_text payment_review = "PAYMENT_REVIEW"
status_text reserved = "RESERVED"
status_text expired = "EXPIRED"
status_text cancelled = "CANCELLED"

abbrev pub status_event : ReservationStatus → ReservationStatus → ℕ → String → String → AuditEvent
status_event old_status new_status reservation_id actor reason = record {
  actor = actor;
  action = "RESERVATION_STATUS_CHANGED";
  entity = "reservation";
  old_value = some (
      ("status", AuditValue.text (status_text old_status))
      ∷ ("reservation_id", AuditValue.ident reservation_id)
      ∷ []);
  new_value = some (
      ("status", AuditValue.text (status_text new_status))
      ∷ ("reservation_id", AuditValue.ident reservation_id)
      ∷ []);
  reason = reason;
}

-- `session.add` appends to the trail. The reservation comes back with its new status.
unfoldable pub transition_reservation :
    Reservation
    → ReservationStatus
    → String
    → String
    → List AuditEvent
    → Result BookingError (Reservation × List AuditEvent)
unfolding reservation_transitions
transition_reservation r new_status actor reason audits = do
  raise_if (is_blank actor) (value_error "El actor es obligatorio.")
  raise_if (is_blank reason) (value_error "El motivo es obligatorio.")
  raise_if (not (any_of (same_status new_status) (reservation_transitions r.status)))
      (invalid_transition r.status new_status)
  ok (
    record r { status = new_status },
    audits ++ status_event r.status new_status r.reservation_id actor reason ∷ [],
  )
