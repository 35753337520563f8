-- ===== src/Reservation/Settlement.antt =====
-- app/reservation/settlement.py: a person accepts or rejects a receipt, in one local transaction.
pub mod Flush
pub mod Slot
pub mod Accept
pub mod Keeps
pub mod Ledger
pub mod Expiry
use Prim.Native.String.{◌++◌ as cat}
use chat_bot_ceiba.Common.{
  length, ℕ, ◌+◌, ◌-◌, ◌<◌, Bool, true, false, not, ◌&&◌, ◌||◌, Option, none, some, List, [], ◌∷◌,
  ◌++◌, map, String, Result, ok, err, ltb, leb, ◌==◌, opt_eq, is_some, or_else, if◌then◌else◌,
  is_blank, is_empty, is_empty_text, take_chars, select, any_of, raise_if, or_raise, ◌>>=◌, ◌>>◌,
}
use chat_bot_ceiba.Rows.Settings.{day}
use chat_bot_ceiba.Rows.Plan.{Plan}
use chat_bot_ceiba.Rows.Reservation.{
  Reservation, ReservationStatus, payment_pending, payment_review, reserved, expired, cancelled,
  is_reserved, is_payment_review, is_payment_pending, PaymentKind, deposit, full,
}
use chat_bot_ceiba.Rows.Evidence.{
  PaymentEvidence, PaymentEvidenceReview, ReviewStatus, pending_review, accepted, rejected,
  is_pending_review, is_accepted, is_failed_permanent, is_completed,
}
use chat_bot_ceiba.Rows.Blocker.{BookingBlocker}
use chat_bot_ceiba.Rows.Audit.{AuditEvent, AuditDict, AuditValue, opt_num, opt_text}
use chat_bot_ceiba.Rows.Table.{get}
use chat_bot_ceiba.Reservation.Transition.{BookingError, value_error, transition_reservation}
use chat_bot_ceiba.Reservation.Availability.{Unicode, evaluate_booking_availability}
use chat_bot_ceiba.Reservation.Deposit.{deposit_amount}
use chat_bot_ceiba.Reservation.Store.{
  Store, add_audit, put_reservation, put_evidence, reservation_key,
}
use chat_bot_ceiba.Reservation.Window.{Datetime}
use chat_bot_ceiba.Reservation.Booking.{move_to_review}

pub data SettlementKind : Type 0 where
  settled_reserved partial conflict no_reservation balance_paid balance_partial : SettlementKind

pub record SettlementResult : Type 0 where
  pub kind : SettlementKind
  pub reservation : Option Reservation
  pub missing_cop : ℕ
  pub blockers : List BookingBlocker

-- The keyword arguments of `accept_payment`.
pub record Acceptance : Type 0 where
  pub amount_cop : ℕ
  pub actor : String
  pub note : Option String
  pub calendar_blockers : List BookingBlocker
  pub review : Option PaymentEvidenceReview

-- `note or default`, where an empty text counts as none.
abbrev pub text_or : Option String → String → String
text_or none d = d
text_or (some n) d = if is_empty_text n then d else n

abbrev pub proposal : Option PaymentEvidenceReview → Option ℕ → AuditDict
proposal none amount = []
proposal (some v) amount =
    ("review_id", AuditValue.ident v.review_id)
    ∷ ("suggested_amount_cop", opt_num v.suggested_amount_cop)
    ∷ (
      "amount_differs_from_suggestion",
      AuditValue.flag (not (same_amount amount v.suggested_amount_cop)),
    )
    ∷ []
  where
    same_amount : Option ℕ → Option ℕ → Bool
    same_amount none none = true
    same_amount (some a) (some b) = a == b
    same_amount _ _ = false

abbrev pub review_text : ReviewStatus → String
review_text pending_review = "PENDING_REVIEW"
review_text accepted = "ACCEPTED"
review_text rejected = "REJECTED"

abbrev pub audit_reason : ReviewStatus → Option String → Option PaymentEvidenceReview → String
audit_reason accepted note v =
    let reason = if is_some v then "aceptado con propuesta de IA" else "aceptado manual" in
    elim note [
      | none ↦ reason
      | some n ↦ if is_empty_text n then reason else take_chars 255 (cat reason (cat ": " n))
    ]
audit_reason _ note v = text_or note "Comprobante rechazado por asesor"

-- `payment_audit`
unfoldable pub payment_audit :
    PaymentEvidence → String → Option String → Option ℕ → Option PaymentEvidenceReview → AuditEvent
payment_audit e actor note amount review = record {
  actor = actor;
  action = cat "PAYMENT_EVIDENCE_" (review_text e.review_status);
  entity = "payment_evidence";
  old_value = some (
      ("evidence_id", AuditValue.num e.evidence_id)
      ∷ ("review_status", AuditValue.text "PENDING_REVIEW")
      ∷ []);
  new_value = some (
      ("evidence_id", AuditValue.num e.evidence_id)
      ∷ ("review_status", AuditValue.text (review_text e.review_status))
      ∷ ("amount_cop", opt_num amount)
      ∷ ("note", opt_text note)
      ∷ proposal review amount);
  reason = audit_reason e.review_status note review;
}

-- `review is not None and (…)`
abbrev pub review_mismatch : Option PaymentEvidenceReview → PaymentEvidence → Bool
review_mismatch none e = false
review_mismatch (some v) e = not (v.evidence_id == e.evidence_id) || not (is_completed v.status)

unfoldable pub accept_guards : Acceptance → PaymentEvidence → Result BookingError (Unit {0})
accept_guards q e = do
  raise_if (q.amount_cop == 0) (value_error "El monto debe ser un entero positivo.")
  raise_if (is_blank q.actor) (value_error "El actor es obligatorio.")
  raise_if (not (is_pending_review e.review_status)) (value_error "El comprobante ya fue revisado.")
  raise_if (is_failed_permanent e.download_status)
      (value_error "La descarga del comprobante falló. Solicita una nueva imagen.")
  raise_if (review_mismatch q.review e)
      (value_error "La propuesta no corresponde a este comprobante.")

abbrev pub can_settle : ReservationStatus → Bool
can_settle s = is_payment_review s || (is_payment_pending s || is_reserved s)

-- The locked row of the linked reservation, `none` where the receipt is linked to none.
unfoldable pub settled_row : PaymentEvidence → Store → Result BookingError (Option Reservation)
settled_row e s = elim e.reservation_id [
  | none ↦ ok none
  | some k ↦ do
    r ←
        or_raise (get reservation_key k s.reservations)
          (value_error "La reserva no está pendiente de revisión de pago.")
    raise_if (not (can_settle r.status))
        (value_error "La reserva no está pendiente de revisión de pago.")
    ok (some r)
]

abbrev pub accepted_row : Acceptance → PaymentEvidence → ℕ → PaymentEvidence
accepted_row q e now = record e {
  review_status = accepted;
  amount_cop = some q.amount_cop;
  reviewed_at = some now;
  review_note = q.note;
}

abbrev pub accept_evidence : Acceptance → PaymentEvidence → Store → Store
accept_evidence q e s =
    let e' = accepted_row q e s.now in
    add_audit (payment_audit e' q.actor q.note (some q.amount_cop) q.review) (put_evidence e' s)

abbrev pub kind_value : Option PaymentKind → AuditValue
kind_value none = AuditValue.null
kind_value (some deposit) = AuditValue.text "DEPOSIT"
kind_value (some full) = AuditValue.text "FULL"

abbrev pub old_amount : Reservation → Option AuditDict
old_amount r = some (
    ("reservation_id", AuditValue.ident r.reservation_id)
    ∷ ("amount_paid_cop", AuditValue.num r.amount_paid_cop)
    ∷ [])

abbrev pub balance_event : Acceptance → Reservation → Reservation → ℕ → AuditEvent
balance_event q old r missing = record {
  actor = q.actor;
  action = "RESERVATION_BALANCE_PAYMENT";
  entity = "reservation";
  old_value = old_amount old;
  new_value = some (
      ("reservation_id", AuditValue.ident r.reservation_id)
      ∷ ("amount_paid_cop", AuditValue.num r.amount_paid_cop)
      ∷ ("missing_cop", AuditValue.num missing)
      ∷ ("payment_kind", kind_value r.payment_kind)
      ∷ []);
  reason = text_or q.note "Aceptación humana de pago de saldo";
}

abbrev pub add_amount : Acceptance → Reservation → Reservation
add_amount q r = record r { amount_paid_cop = r.amount_paid_cop + q.amount_cop }

-- `if not missing:` the balance is settled.
abbrev pub close_balance : Reservation → Reservation
close_balance r =
    if r.price_cop - r.amount_paid_cop == 0
    then record r { payment_kind = some full; balance_due_at = none; balance_overdue_at = none }
    else r

-- The branch of a reservation that is reserved already.
unfoldable pub settle_balance : Acceptance → Reservation → Store → SettlementResult × Store
settle_balance q old s =
    let r = close_balance (add_amount q old) in
    let missing = r.price_cop - r.amount_paid_cop in
    (
      record {
        kind = if missing == 0 then balance_paid else balance_partial;
        reservation = some r;
        missing_cop = missing;
        blockers = [];
      },
      add_audit (balance_event q old r missing) (put_reservation r s),
    )

abbrev pub result_text : SettlementKind → String
result_text settled_reserved = "RESERVED"
result_text partial = "PARTIAL"
result_text conflict = "CONFLICT"
result_text no_reservation = "NO_RESERVATION"
result_text balance_paid = "BALANCE_PAID"
result_text balance_partial = "BALANCE_PARTIAL"

abbrev pub payment_event :
    Acceptance → Reservation → Reservation → SettlementKind → ℕ → List BookingBlocker → AuditEvent
payment_event q old r kind missing blockers = record {
  actor = q.actor;
  action = cat "RESERVATION_PAYMENT_" (result_text kind);
  entity = "reservation";
  old_value = old_amount old;
  new_value = some (
      ("reservation_id", AuditValue.ident r.reservation_id)
      ∷ ("amount_paid_cop", AuditValue.num r.amount_paid_cop)
      ∷ ("missing_cop", AuditValue.num missing)
      ∷ ("blockers", AuditValue.blockers blockers)
      ∷ []);
  reason = text_or q.note "Aceptación humana de comprobante";
}

-- A transition by a person, flushed to the row.
unfoldable pub move_to :
    ReservationStatus
    → Reservation
    → String
    → String
    → Store
    → Result BookingError (Reservation × Store)
move_to status r actor reason s = transition_reservation r status actor reason s.audits >>= λ m.
    ok (m.0, put_reservation m.0 (record s { audits = m.1 }))

-- `has_pending_payment_evidence`
unfoldable pub has_pending_payment_evidence : ℕ → List PaymentEvidence → Bool
has_pending_payment_evidence k es =
    any_of (λ e. opt_eq e.reservation_id k && is_pending_review e.review_status) es

-- The branch of a deposit that is not complete.
unfoldable pub settle_partial :
    Acceptance → Reservation → Store → Result BookingError (Reservation × Store)
settle_partial q r s =
    if has_pending_payment_evidence r.reservation_id s.evidences
    then ok (r, s)
    else move_to payment_pending r q.actor "Abono parcial registrado" s

abbrev pub overlaps : Reservation → Reservation → Bool
overlaps r x = is_reserved x.status && (ltb x.starts_at r.ends_at && ltb r.starts_at x.ends_at)

-- The overlapping reserved rows, each with the plan that the query joins.
unfoldable pub fresh_rows : Reservation → Store → List (Reservation × Plan)
fresh_rows r s =
    map (λ (x : Reservation). (x, s.plan x.plan_id)) (select (overlaps r) s.reservations)

abbrev pub confirmed_row : Reservation → Reservation
confirmed_row r =
    if leb r.price_cop r.amount_paid_cop
    then record r { payment_kind = some full; balance_due_at = none }
    else record r { payment_kind = some deposit; balance_due_at = some (r.starts_at - day) }

-- The branch of a complete deposit: the slot is checked again, then the reservation is confirmed.
unfoldable pub settle_complete :
    Unicode
    → Acceptance
    → Reservation
    → Store
    → Result BookingError (List BookingBlocker × Reservation × Store)
settle_complete u q r s = do
  a ←
      evaluate_booking_availability u (s.plan r.plan_id) r.starts_at r.ends_at [] (fresh_rows r s)
        s.settings.booking_exclusivity_keyword
  let blockers = a.blockers ++ q.calendar_blockers
  if is_empty blockers
      then (move_to reserved r q.actor "Pago humano aceptado; anticipo completo" s >>= λ m.
          ok (blockers, confirmed_row m.0, put_reservation (confirmed_row m.0) m.1))
      else ok (blockers, r, s)

-- What the deposit branch returns, with its closing event.
abbrev pub finish :
    Acceptance
    → Reservation
    → SettlementKind
    → ℕ
    → List BookingBlocker
    → Reservation
    → Store
    → SettlementResult × Store
finish q old kind missing blockers r s = (
  record { kind = kind; reservation = some r; missing_cop = missing; blockers = blockers },
  add_audit (payment_event q old r kind missing blockers) s,
)

-- After the reservation has gone into review: is the deposit complete?
unfoldable pub settle_reviewed :
    Unicode
    → Acceptance
    → Reservation
    → Reservation
    → Store
    → Result BookingError (SettlementResult × Store)
settle_reviewed u q old r s = do
  amount ← deposit_amount s.settings r.price_cop
  let missing = amount - r.amount_paid_cop
  if missing == 0
      then (settle_complete u q r s >>= λ m.
          ok (
            finish q old (if is_empty m.0 then settled_reserved else conflict) missing m.0 m.1 m.2))
      else (settle_partial q r s >>= λ m. ok (finish q old partial missing [] m.0 m.1))

-- The branch of a reservation that waits for its deposit.
unfoldable pub settle_deposit :
    Unicode → Acceptance → Reservation → Store → Result BookingError (SettlementResult × Store)
settle_deposit u q old s = do
  (r, s') ←
      move_to_review (add_amount q old) q.actor "Liquidación humana de comprobante vinculado"
        (put_reservation (add_amount q old) s)
  settle_reviewed u q old r s'

unfoldable pub accept_payment :
    Unicode → Acceptance → PaymentEvidence → Store → Result BookingError (SettlementResult × Store)
accept_payment u q e s = do
  accept_guards q e
  row ← settled_row e s
  let s' = accept_evidence q e s
  elim row [
    | none ↦
        ok
          (record { kind = no_reservation; reservation = none; missing_cop = 0; blockers = [] }, s')
    | some r ↦ if is_reserved r.status then ok (settle_balance q r s') else settle_deposit u q r s'
  ]

abbrev pub rejected_row : PaymentEvidence → String → ℕ → PaymentEvidence
rejected_row e note now = record e {
  review_status = rejected;
  reviewed_at = some now;
  review_note = some note;
}

-- The linked reservation waits for a payment again once no receipt of it is left to review.
unfoldable pub reopen :
    PaymentEvidence → String → String → Store → Result BookingError (Option Reservation × Store)
reopen e actor note s = elim e.reservation_id [
  | none ↦ ok (none, s)
  | some k ↦ elim (get reservation_key k s.reservations) [
    | none ↦ ok (none, s)
    | some r ↦
        if is_payment_review r.status
          && not (has_pending_payment_evidence r.reservation_id s.evidences)
        then (move_to payment_pending r actor note s >>= λ m. ok (some m.0, m.1))
        else ok (some r, s)
  ]
]

unfoldable pub reject_payment :
    PaymentEvidence → String → String → Store → Result BookingError (Option Reservation × Store)
reject_payment e actor note s = do
  raise_if (is_blank actor || is_blank note) (value_error "El actor y el motivo son obligatorios.")
  raise_if (not (is_pending_review e.review_status)) (value_error "El comprobante ya fue revisado.")
  let e' = rejected_row e note s.now
  reopen e actor note (add_audit (payment_audit e' actor (some note) none none) (put_evidence e' s))

-- The WHERE clause of `expire_pending_reservations`.
abbrev pub is_past_due : ℕ → Reservation → Bool
is_past_due now r = is_payment_pending r.status && ltb r.starts_at now

-- Its loop, over the selected rows.
unfoldable pub expire_each : List Reservation → Store → Result BookingError Store
expire_each [] s = ok s
expire_each (r ∷ rs) s =
    move_to expired r "SYSTEM" "Fecha vencida sin pago" s >>= λ m. expire_each rs m.1

-- `SKIP LOCKED`: `busy` says which rows another transaction holds. The number of the selected rows comes back.
unfoldable pub expire_pending_reservations :
    (ℕ → Bool) → Datetime → Store → Result BookingError (ℕ × Store)
expire_pending_reservations busy now s = do
  raise_if (not now.aware) (value_error "La fecha requiere zona horaria.")
  let rows =
      select (λ (r : Reservation). is_past_due now.at r && not (busy r.reservation_id))
        s.reservations
  t ← expire_each rows s
  ok (length rows, t)
