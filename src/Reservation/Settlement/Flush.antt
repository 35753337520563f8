-- ===== src/Reservation/Settlement/Flush.antt =====
-- How the rows of a store stand after the flushes of one reservation.
use chat_bot_ceiba.Common.{
  ◌≡◌, refl, sym, ap, ◌∙◌, ◌⊎◌, inl, inr, Bool-cases, List, String, ok, arith, >>=-eq-ok, Result,
}
use chat_bot_ceiba.Rows.Reservation.{
  Reservation, ReservationStatus, payment_review, is_payment_pending, payment_pending,
}
use chat_bot_ceiba.Rows.Table.{put, put-put}
use chat_bot_ceiba.Rows.Audit.{AuditEvent}
use chat_bot_ceiba.Reservation.Transition.{BookingError, transition_reservation}
use chat_bot_ceiba.Reservation.Store.{Store, put_reservation, reservation_key}
use chat_bot_ceiba.Reservation.Booking.{move_to_review}
use chat_bot_ceiba.Reservation.Settlement.{move_to}

-- Against `s`, only the row of `r` and the trail have changed.
pub record Flushed (s t : Store) (r : Reservation) : Type 0 where
  pub rows : t.reservations ≡ put reservation_key r s.reservations
  pub evidences : t.evidences ≡ s.evidences
  pub settings : t.settings ≡ s.settings
  pub plan : t.plan ≡ s.plan
  pub now : t.now ≡ s.now

pub Flushed-put : (s : Store) (r : Reservation) → Flushed s (put_reservation r s) r
Flushed-put s r = record { rows = refl; evidences = refl; settings = refl; plan = refl; now = refl }

pub Flushed-trans :
    (s t u : Store) (r r' : Reservation)
    → Flushed s t r
    → Flushed t u r'
    → r.reservation_id ≡ r'.reservation_id
    → Flushed s u r'
Flushed-trans s t u r r' f g e = record {
  rows =
      g.rows ∙ (ap (put reservation_key r') f.rows ∙ put-put reservation_key r r' s.reservations e);
  evidences = g.evidences ∙ f.evidences;
  settings = g.settings ∙ f.settings;
  plan = g.plan ∙ f.plan;
  now = g.now ∙ f.now;
}

transition_reservation-row :
    (r : Reservation) (status : ReservationStatus) (actor reason : String) (log : List AuditEvent)
    (r' : Reservation) (log' : List AuditEvent)
    → transition_reservation r status actor reason log ≡ ok (r', log')
    → r' ≡ record r { status = status }
unfolding transition_reservation
transition_reservation-row r status actor reason log r' log' h = ground arith

-- A transition that is made writes the new status, and only that, to the row.
pub move_to-Flushed :
    (status : ReservationStatus) (r : Reservation) (actor reason : String) (s : Store)
    (r' : Reservation) (t : Store)
    → move_to status r actor reason s ≡ ok (r', t)
    → (r' ≡ record r { status = status }) × Flushed s t r'
unfolding move_to
move_to-Flushed status r actor reason s r' t h =
    moved (>>=-eq-ok (transition_reservation r status actor reason s.audits) _ h)
  where
    moved :
        (m : Reservation × List AuditEvent) × (transition_reservation r status actor reason s.audits
            ≡ ok m)
          × (◌≡◌ {A = Result BookingError (Reservation × Store)}
              (ok (m.0, put_reservation m.0 (record s { audits = m.1 })))
              (ok (r', t)))
        → (r' ≡ record r { status = status }) × Flushed s t r'
    moved ((r₁, log), e, same) =
        let row = transition_reservation-row r status actor reason s.audits r₁ log e in
        let it : r₁ ≡ r' = cc in
        let there : put_reservation r₁ (record s { audits = log }) ≡ t = cc in
        (
          sym it ∙ row,
          rw (← there, ← it)
              (record { rows = refl; evidences = refl; settings = refl; plan = refl; now = refl }),
        )

-- The same facts of a row that nothing or one transition has moved.
pub record SameSlot (r r' : Reservation) : Type 0 where
  pub ident : r'.reservation_id ≡ r.reservation_id
  pub plan : r'.plan_id ≡ r.plan_id
  pub customer : r'.customer_id ≡ r.customer_id
  pub starts : r'.starts_at ≡ r.starts_at
  pub ends : r'.ends_at ≡ r.ends_at
  pub price : r'.price_cop ≡ r.price_cop
  pub paid : r'.amount_paid_cop ≡ r.amount_paid_cop

pub SameSlot-refl : (r : Reservation) → SameSlot r r
SameSlot-refl r = ground arith

pub SameSlot-trans : (r r' t : Reservation) → SameSlot r r' → SameSlot r' t → SameSlot r t
SameSlot-trans r r' t a b = ground arith

pub move_to-SameSlot :
    (status : ReservationStatus) (r r' : Reservation)
    → r' ≡ record r { status = status }
    → SameSlot r r'
move_to-SameSlot status r r' e = ground arith

-- The opening step of a settlement: a pending reservation goes into review first.
pub move_to_review-Flushed :
    (r : Reservation) (actor reason : String) (s t : Store) (r' : Reservation) (u : Store)
    → Flushed s t r
    → move_to_review r actor reason t ≡ ok (r', u)
    → Flushed s u r'
      × SameSlot r r'
      × (((r.status ≡ payment_pending) × (r'.status ≡ payment_review)) ⊎ (r' ≡ r))
unfolding move_to_review
move_to_review-Flushed r actor reason s t r' u f h =
    elim (Bool-cases (is_payment_pending r.status)) [
      | inl pending ↦
          let m =
            move_to-Flushed payment_review r actor reason t r' u (unfold move_to in ground arith) in
          (
            Flushed-trans s t u r r' f m.1 (ground arith),
            move_to-SameSlot payment_review r r' m.0,
            inl (ground arith, ground arith),
          )
      | inr other ↦
          let it : r' ≡ r = ground arith in
          let there : u ≡ t = ground arith in (rw (there, it) f, rw it (SameSlot-refl r), inr it)
    ]
