-- ===== src/Reservation/Transition/Matrix.antt =====
-- The matrix as a step relation, what the transition does on every branch, and what is reachable.
use chat_bot_ceiba.Common.{
  ◌≡◌, ◌⊎◌, inl, inr, Bool, true, false, List, [], ◌∷◌, ◌++◌, String, ok, err, arith, is_blank,
  any_of, Result, Bool-cases, ◌>>=◌, length, ◌+◌, suc, refl, length-append, >>=-eq-ok,
}
use chat_bot_ceiba.Rows.Reservation.{
  Reservation, ReservationStatus, payment_pending, payment_review, reserved, expired, cancelled,
}
use chat_bot_ceiba.Rows.Audit.{AuditEvent}
use chat_bot_ceiba.Reservation.Transition.{
  BookingError, invalid_transition, same_status, reservation_transitions, status_event,
  transition_reservation,
}

-- The life of a reservation, as the product describes it.
pub data Step : ReservationStatus → ReservationStatus → Type 0 where
  evidence_received : Step payment_pending payment_review
  date_passed : Step payment_pending expired
  request_cancelled : Step payment_pending cancelled
  evidence_refused : Step payment_review payment_pending
  payment_settled : Step payment_review reserved
  review_cancelled : Step payment_review cancelled
  booking_cancelled : Step reserved cancelled

abbrev allowed : ReservationStatus → ReservationStatus → Bool
allowed s t = any_of (same_status t) (reservation_transitions s)

pub Step-allowed : {s t : ReservationStatus} → Step s t → allowed s t ≡ true
unfolding reservation_transitions
Step-allowed evidence_received = refl
Step-allowed date_passed = refl
Step-allowed request_cancelled = refl
Step-allowed evidence_refused = refl
Step-allowed payment_settled = refl
Step-allowed review_cancelled = refl
Step-allowed booking_cancelled = refl

allowed→Step : (s t : ReservationStatus) → allowed s t ≡ true → Step s t
unfolding reservation_transitions
allowed→Step payment_pending payment_review h = evidence_received
allowed→Step payment_pending expired h = date_passed
allowed→Step payment_pending cancelled h = request_cancelled
allowed→Step payment_review payment_pending h = evidence_refused
allowed→Step payment_review reserved h = payment_settled
allowed→Step payment_review cancelled h = review_cancelled
allowed→Step reserved cancelled h = booking_cancelled
allowed→Step _ _ h = cc

-- A call with an actor and a reason follows the life of a reservation: on a step of it the status
-- changes, nothing else of the row does, and one event with both statuses is appended to the trail;
-- on any other pair it raises the error that names the pair.
pub transition_reservation-Step :
    (r : Reservation) (t : ReservationStatus) (actor reason : String) (audits : List AuditEvent)
    → is_blank actor ≡ false
    → is_blank reason ≡ false
    → (Step r.status t
        × (transition_reservation r t actor reason audits
            ≡ ok (
              record r { status = t },
              audits ++ status_event r.status t r.reservation_id actor reason ∷ [],
            )))
      ⊎ ((¬ Step r.status t)
          × (transition_reservation r t actor reason audits ≡ err (invalid_transition r.status t)))
unfolding transition_reservation
transition_reservation-Step r t actor reason audits ha hr = elim (Bool-cases (allowed r.status t)) [
  | inl e ↦ inl (allowed→Step r.status t e, simp (ha, hr, e))
  | inr e ↦ inr (λ st. cc (Step-allowed st), simp (ha, hr, e))
]

-- Any number of transitions, each by some actor and for some reason.
pub data Reach (s : ReservationStatus) : ReservationStatus → Type 0 where
  here : Reach s s
  next : {t u : ReservationStatus} → Reach s t → Step t u → Reach s u

-- Once paid, a reservation stays reserved until it is cancelled, and then for good.
pub Reach-reserved :
    {s t : ReservationStatus} → s ≡ reserved → Reach s t → (t ≡ reserved) ⊎ (t ≡ cancelled)
Reach-reserved e here = inl e
Reach-reserved e (next r st) = Step-kept st (Reach-reserved e r)
  where
    Step-kept :
        {t u : ReservationStatus}
        → Step t u
        → (t ≡ reserved) ⊎ (t ≡ cancelled)
        → (u ≡ reserved) ⊎ (u ≡ cancelled)
    Step-kept evidence_received h = ground arith
    Step-kept date_passed h = ground arith
    Step-kept request_cancelled h = inr refl
    Step-kept evidence_refused h = ground arith
    Step-kept payment_settled h = inl refl
    Step-kept review_cancelled h = inr refl
    Step-kept booking_cancelled h = inr refl

abbrev pub Request : Type 0
Request = ReservationStatus × String × String

-- Requests in turn, as the callers of one session make them.
unfoldable pub run_transitions :
    List Request
    → Reservation × List AuditEvent
    → Result BookingError (Reservation × List AuditEvent)
run_transitions [] (r, log) = ok (r, log)
run_transitions ((t, actor, reason) ∷ rest) (r, log) =
    transition_reservation r t actor reason log >>= run_transitions rest

Reach-cons : {s t u : ReservationStatus} → Step s t → Reach t u → Reach s u
Reach-cons st here = next here st
Reach-cons st (next r e) = next (Reach-cons st r) e

transition_reservation-ok :
    (r : Reservation) (t : ReservationStatus) (actor reason : String) (log : List AuditEvent)
    {r' : Reservation} {log' : List AuditEvent}
    → transition_reservation r t actor reason log ≡ ok (r', log')
    → (allowed r.status t ≡ true)
      × (r'.status ≡ t)
      × (r'.reservation_id ≡ r.reservation_id)
      × (length log' ≡ length log + 1)
unfolding transition_reservation
transition_reservation-ok r t actor reason log h =
    ground (arith, length-append log (status_event r.status t r.reservation_id actor reason ∷ []))

-- A session that makes any requests in turn, and is not rolled back, takes the reservation along the
-- life of a reservation and leaves exactly one event more for each request.
pub run_transitions-Reach :
    (reqs : List Request) (r : Reservation) (log : List AuditEvent) (r' : Reservation)
    (log' : List AuditEvent)
    → run_transitions reqs (r, log) ≡ ok (r', log')
    → Reach r.status r'.status × (length log' ≡ length log + length reqs)
unfolding run_transitions
run_transitions-Reach [] r log r' log' h = let e : r ≡ r' = cc in rw (← e) (here, ground arith)
run_transitions-Reach ((t, actor, reason) ∷ rest) r log r' log' h =
    then_rest (λ r₁ log₁. run_transitions-Reach rest r₁ log₁ r' log')
      (>>=-eq-ok (transition_reservation r t actor reason log) (run_transitions rest) h)
  where
    then_rest :
        ((r₁ : Reservation) (log₁ : List AuditEvent)
          → run_transitions rest (r₁, log₁) ≡ ok (r', log')
          → Reach r₁.status r'.status × (length log' ≡ length log₁ + length rest))
        → (m : Reservation × List AuditEvent) × (transition_reservation r t actor reason log ≡ ok m)
          × (run_transitions rest m ≡ ok (r', log'))
        → Reach r.status r'.status × (length log' ≡ length log + suc (length rest))
    then_rest later ((r₁, log₁), e, tail) =
        let now = transition_reservation-ok r t actor reason log e in
        let (reached, grown) = later r₁ log₁ tail in
        (Reach-cons (rw now.1 (allowed→Step r.status t now.0)) reached, omega (arith, now.3))
