-- ===== src/Tests/Booking.antt =====
-- Runs of the booking side.
use chat_bot_ceiba.Common.{
  Bool, ℕ, ◌+◌, ◌*◌, ◌%◌, ◌≤◌, ◌<◌, ◌≡◌, ◌↔◌, ◌⊎◌, refl, inl, true, false, not, Option, none, some,
  List, [], ◌∷◌, ◌++◌, ok, err, arith, All, is_some, or_else, is_empty, is_blank, is_space,
  is_empty_text, strip,
}
use chat_bot_ceiba.Rows.Settings.{IsLoaded, date_of}
use chat_bot_ceiba.Rows.Plan.{same_event_type}
use chat_bot_ceiba.Rows.Reservation.{
  Reservation, payment_pending, payment_review, reserved, is_payment_pending,
}
use chat_bot_ceiba.Rows.Evidence.{PaymentEvidence, accepted}
use chat_bot_ceiba.Rows.Audit.{AuditEvent}
use chat_bot_ceiba.Rows.Table.{get, put}
use chat_bot_ceiba.Notifications.Staff.{
  enqueue_staff_notification, notified, recipients_for, enqueue_each, expected_amount,
  enqueue_for_reservation,
}
use chat_bot_ceiba.Notifications.Staff.Once.{SameRows, Distinct, enqueue_for_reservation_once}
use chat_bot_ceiba.Reservation.Transition.{
  BookingError, invalid_transition, reservation_transitions, transition_reservation, status_event,
}
use chat_bot_ceiba.Reservation.Transition.Matrix.{
  Step, Request, run_transitions, transition_reservation-Step,
}
use chat_bot_ceiba.Reservation.Availability.{
  normalized, event_blocks, event_blockers, reservation_blockers, BookingAvailability,
  evaluate_booking_availability,
}
use chat_bot_ceiba.Reservation.Availability.Clash.{taken_by, available_iff}
use chat_bot_ceiba.Reservation.Window.{Datetime, booking_ends_at, validate_booking_window}
use chat_bot_ceiba.Reservation.Window.Bounds.{Bookable, validate_booking_window_iff}
use chat_bot_ceiba.Reservation.Deposit.{deposit_amount, deposit_amount_least}
use chat_bot_ceiba.Reservation.Invariant.{Inv}
use chat_bot_ceiba.Reservation.Store.{
  Store, payment_pending_created, reservation_source, reservation_key, evidence_key,
}
use chat_bot_ceiba.Reservation.Booking.{
  Event, create_pending_reservation, payment_reservation_candidate, move_to_review,
  attach_payment_evidence,
}
use chat_bot_ceiba.Reservation.Booking.Candidate.{IsBest, candidate-IsBest}
use chat_bot_ceiba.Reservation.Booking.Link.{attach_payment_evidence-links}
use chat_bot_ceiba.Reservation.Booking.Request.{create_pending_reservation-row}
use chat_bot_ceiba.Reservation.Settlement.{
  SettlementResult, no_reservation, accept_guards, settled_row, move_to,
  has_pending_payment_evidence, fresh_rows, settle_complete, settle_reviewed, settle_deposit,
  accept_payment, reopen, reject_payment, expire_each, expire_pending_reservations,
}
use chat_bot_ceiba.Reservation.Settlement.Accept.{KindFits}
use chat_bot_ceiba.Reservation.Settlement.Ledger.{accept_payment-counts, accept_payment_once}
use chat_bot_ceiba.Reservation.System.{Reach-Inv, start, next, accepts}
use chat_bot_ceiba.Tests.Data.{
  settings, plan, morning, booking, receipt, in_review, waiting, plain, whole_deposit, event,
  request, returned,
}

one_row-Inv : Inv in_review
one_row-Inv = record {
  reservation_ids = (tt, tt);
  evidence_ids = (tt, tt);
  priced = (omega arith, tt);
  no_double = (tt, tt);
  money = (refl, tt);
  funded = (inl refl, tt);
}

waiting-Inv : Inv waiting
waiting-Inv = record {
  reservation_ids = (tt, tt);
  evidence_ids = (tt, tt);
  priced = (omega arith, tt);
  no_double = (tt, tt);
  money = (refl, tt);
  funded = (inl refl, tt);
}

receipt_stored : get evidence_key 11 in_review.evidences ≡ some (receipt (some 1))
unfolding get
receipt_stored = refl

free_stored : get evidence_key 11 waiting.evidences ≡ some (receipt none)
unfolding get
free_stored = refl

two_absent : get reservation_key 2 waiting.reservations ≡ none
unfolding get
two_absent = refl

keyword_given : is_empty_text (normalized plain "reserva") ≡ false
unfolding normalized is_blank is_space strip
keyword_given = refl

texts_given : (is_blank "asesor" ≡ false) × (is_blank "pago" ≡ false)
unfolding is_blank is_space
texts_given = (refl, refl)

abbrev nothing_settled : SettlementResult × Store
nothing_settled = (
  record { kind = no_reservation; reservation = none; missing_cop = 0; blockers = [] },
  in_review,
)

abbrev settlement : SettlementResult × Store
settlement =
    returned nothing_settled (accept_payment plain whole_deposit (receipt (some 1)) in_review)

settlement_runs :
    accept_payment plain whole_deposit (receipt (some 1)) in_review
    ≡ ok (settlement.0, settlement.1)
unfolding accept_payment accept_guards settled_row settle_deposit settle_reviewed settle_complete
    move_to move_to_review get put transition_reservation reservation_transitions fresh_rows
    evaluate_booking_availability is_blank is_space normalized event_blockers reservation_blockers
    deposit_amount
settlement_runs = refl

Reach-Inv_example : Inv settlement.1
Reach-Inv_example =
    Reach-Inv plain in_review settlement.1
      (next start
        (accepts whole_deposit (receipt (some 1)) settlement.0 receipt_stored settlement_runs))
      one_row-Inv

accept_payment-counts_example :
    (old : Reservation) × (r : Reservation) × (get reservation_key 1 in_review.reservations
      ≡ some old)
    × (get reservation_key 1 settlement.1.reservations ≡ some r)
    × (r.amount_paid_cop ≡ old.amount_paid_cop + 150_000)
    × KindFits settings settlement.0 r settlement.0.kind
accept_payment-counts_example =
    accept_payment-counts plain whole_deposit (receipt (some 1)) in_review settlement.0 settlement.1
      1 one_row-Inv refl settlement_runs

accept_payment_once_example :
    (e' : PaymentEvidence) × (get evidence_key 11 settlement.1.evidences ≡ some e')
    × (e'.review_status ≡ accepted)
    × ((x : BookingError) × (accept_payment plain whole_deposit e' settlement.1 ≡ err x))
accept_payment_once_example =
    accept_payment_once plain whole_deposit whole_deposit (receipt (some 1)) in_review settlement.0
      settlement.1 one_row-Inv receipt_stored settlement_runs

abbrev refusal : Option Reservation × Store
refusal =
    returned (none, in_review) (reject_payment (receipt (some 1)) "asesor" "ilegible" in_review)

refusal_runs :
    reject_payment (receipt (some 1)) "asesor" "ilegible" in_review ≡ ok (refusal.0, refusal.1)
unfolding reject_payment reopen has_pending_payment_evidence move_to get put transition_reservation
    reservation_transitions is_blank is_space
refusal_runs = refl

abbrev attachment : Option Reservation × Store
attachment = returned (none, waiting) (attach_payment_evidence (receipt none) waiting)

abbrev attached : Reservation
attached = or_else attachment.0 (booking payment_pending)

attachment_runs : attach_payment_evidence (receipt none) waiting ≡ ok (some attached, attachment.1)
unfolding attach_payment_evidence payment_reservation_candidate move_to_review get put
    transition_reservation reservation_transitions is_blank is_space enqueue_for_reservation
    expected_amount deposit_amount recipients_for notified enqueue_each enqueue_staff_notification
attachment_runs = refl

attach_payment_evidence-links_example :
    (◌≡◌ {A = Option ℕ} none none)
    × (get evidence_key 11 attachment.1.evidences
        ≡ some (record (receipt none) { reservation_id = some attached.reservation_id }))
    × (attached.customer_id ≡ 7)
    × (1000 < attached.starts_at)
    × (is_payment_pending attached.status ≡ false)
    × (get reservation_key attached.reservation_id attachment.1.reservations ≡ some attached)
    × ((r : Reservation) × (payment_reservation_candidate 7 waiting.now waiting.reservations
          ≡ some r)
        × (attached.reservation_id ≡ r.reservation_id)
        × IsBest 7 waiting.now waiting.reservations (some r))
attach_payment_evidence-links_example =
    attach_payment_evidence-links (receipt none) waiting attached attachment.1 waiting-Inv
      free_stored attachment_runs

candidate-IsBest_example :
    IsBest 7 1000 waiting.reservations (payment_reservation_candidate 7 1000 waiting.reservations)
candidate-IsBest_example = candidate-IsBest 7 1000 waiting.reservations

abbrev creation : Reservation × Event × Store
creation =
    returned (booking payment_pending, event, waiting) (create_pending_reservation request waiting)

creation_runs : create_pending_reservation request waiting ≡ ok (creation.0, creation.1, creation.2)
unfolding create_pending_reservation booking_ends_at is_blank is_space enqueue_for_reservation
    expected_amount deposit_amount recipients_for notified enqueue_each enqueue_staff_notification
creation_runs = refl

create_pending_reservation-row_example :
    (plan.active ≡ true)
    × (same_event_type plan.event_type event.event_type ≡ true)
    × (creation.2.reservations ≡ waiting.reservations ++ creation.0 ∷ [])
    × (creation.0.status ≡ payment_pending)
    × (creation.0.price_cop ≡ plan.price_cop)
    × (creation.0.amount_paid_cop ≡ 0)
    × (creation.1.plan_id ≡ some creation.0.plan_id)
    × (creation.1.event_date ≡ some (date_of creation.0.starts_at))
    × ((ends : Datetime) × (booking_ends_at plan request.starts_at ≡ ok ends)
        × (creation.0.ends_at ≡ ends.at))
create_pending_reservation-row_example =
    create_pending_reservation-row request waiting creation.0 creation.1 creation.2 creation_runs

abbrev late : Datetime
late = record { at = morning + 1; aware = true }

abbrev nobody_busy : ℕ → Bool
nobody_busy k = false

abbrev sweep : Store
sweep = (returned (0, waiting) (expire_pending_reservations nobody_busy late waiting)).1

sweep_runs : expire_pending_reservations nobody_busy late waiting ≡ ok (1, sweep)
unfolding expire_pending_reservations expire_each move_to get put transition_reservation
    reservation_transitions is_blank is_space
sweep_runs = refl

settings-IsLoaded : IsLoaded settings
settings-IsLoaded = record {
  start_before_latest = omega arith;
  latest_before_end = omega arith;
  end_within_day = omega arith;
  percent_pos = omega arith;
  percent_le = omega arith;
  attempts_pos = omega arith;
  staff_attempts_pos = omega arith;
  confidence_order = omega arith;
}

deposit_amount_least_example :
    (d : ℕ) × (deposit_amount settings 500_000 ≡ ok d)
    × (0 < d)
    × (d % 1000 ≡ 0)
    × (500_000 * 30 ≤ d * 100)
    × (d ≤ 160_000)
deposit_amount_least_example =
    deposit_amount_least settings 500_000 160_000 settings-IsLoaded (omega arith) refl (omega arith)

validate_booking_window_iff_example :
    (((validate_booking_window late
          (record late { at = morning + 5 })
          settings
          (some 5)
          1000
          (some plan)).accepted
        ≡ true)
      ↔ Bookable settings 5 (some plan) late (record late { at = morning + 5 }))
    × (is_some
          (validate_booking_window late
            (record late { at = morning + 5 })
            settings
            (some 5)
            1000
            (some plan)).reason
        ≡ not
            (validate_booking_window late
              (record late { at = morning + 5 })
              settings
              (some 5)
              1000
              (some plan)).accepted)
validate_booking_window_iff_example =
    validate_booking_window_iff settings (some 5) 1000 (some plan) late
      (record late { at = morning + 5 }) settings-IsLoaded

available_iff_example :
    (a : BookingAvailability) × (evaluate_booking_availability plain plan morning
        (morning + 5)
        []
        ((booking reserved, plan) ∷ [])
        "reserva"
      ≡ ok a)
    × (a.available ≡ is_empty a.blockers)
    × ((a.available ≡ true) ↔ (
        All
          (λ e. event_blocks plain (normalized plain "reserva") morning (morning + 5) e ≡ false)
          []
        × All (λ x. taken_by plan morning (morning + 5) x ≡ false) ((booking reserved, plan) ∷ [])))
available_iff_example =
    available_iff plain plan morning (morning + 5) [] ((booking reserved, plan) ∷ []) "reserva"
      keyword_given

abbrev notified_store : Store
notified_store = returned waiting (
    enqueue_for_reservation (booking payment_pending) payment_pending_created reservation_source 1
      waiting)

notice_runs :
    enqueue_for_reservation
      (booking payment_pending)
      payment_pending_created
      reservation_source
      1
      waiting
    ≡ ok notified_store
unfolding enqueue_for_reservation expected_amount deposit_amount recipients_for notified
    enqueue_each enqueue_staff_notification
notice_runs = refl

enqueue_for_reservation_once_example :
    Distinct notified_store.staff_outbox × SameRows waiting notified_store
enqueue_for_reservation_once_example =
    enqueue_for_reservation_once (booking payment_pending) payment_pending_created
      reservation_source 1 waiting notified_store tt notice_runs

transition_reservation-Step_example :
    (Step payment_review reserved
      × (transition_reservation (booking payment_review) reserved "asesor" "pago" []
          ≡ ok (
            booking reserved,
            [] ++ status_event payment_review reserved 1 "asesor" "pago" ∷ [],
          )))
    ⊎ ((¬ Step payment_review reserved)
        × (transition_reservation (booking payment_review) reserved "asesor" "pago" []
            ≡ err (invalid_transition payment_review reserved)))
transition_reservation-Step_example =
    transition_reservation-Step (booking payment_review) reserved "asesor" "pago" [] texts_given.0
      texts_given.1

abbrev visits : List Request
visits = (payment_review, "asesor", "pago") ∷ (reserved, "asesor", "pago") ∷ []

abbrev visited : Reservation × List AuditEvent
visited =
    returned (booking payment_pending, []) (run_transitions visits (booking payment_pending, []))

visits_run : run_transitions visits (booking payment_pending, []) ≡ ok (visited.0, visited.1)
unfolding run_transitions transition_reservation reservation_transitions is_blank is_space
visits_run = refl
