-- ===== src/Reservation/Booking/Request.antt =====
-- `create_pending_reservation`: the row that a request adds.
use chat_bot_ceiba.Common.{
  ℕ, ◌<◌, ◌≡◌, refl, sym, ◌∙◌, inl, inr, true, false, not, none, some, List, [], ◌∷◌, ◌++◌, ok,
  arith, All-snoc, is_blank, Bool-cases, >>=-eq-ok, Result, raise_if-eq-ok,
}
use chat_bot_ceiba.Rows.Plan.{Plan, same_event_type}
use chat_bot_ceiba.Rows.Settings.{date_of}
use chat_bot_ceiba.Rows.Reservation.{Reservation, is_reserved, payment_pending}
use chat_bot_ceiba.Rows.Table.{get, snoc-Unique}
use chat_bot_ceiba.Notifications.Staff.{enqueue_for_reservation}
use chat_bot_ceiba.Notifications.Staff.Once.{SameRows, enqueue_for_reservation-SameRows}
use chat_bot_ceiba.Reservation.Transition.{BookingError}
use chat_bot_ceiba.Reservation.Invariant.{
  Inv, clash, clash_symm, NoDoubleBooking, IsPaid, IsFunded, accepted_total,
}
use chat_bot_ceiba.Reservation.Keeping.{Inv-same}
use chat_bot_ceiba.Reservation.Store.{
  Store, payment_pending_created, reservation_source, reservation_key,
}
use chat_bot_ceiba.Reservation.Window.{Datetime, booking_ends_at}
use chat_bot_ceiba.Reservation.Booking.{
  BookingRequest, Event, create_pending_reservation, pending_row, add_reservation, request_audits,
  dated_event, date_changed,
}

-- A row that is not reserved excludes nothing.
NoDoubleBooking-snoc :
    (plan : ℕ → Plan) (r : Reservation) (rs : List Reservation)
    → is_reserved r.status ≡ false
    → NoDoubleBooking plan rs
    → NoDoubleBooking plan (rs ++ r ∷ [])
NoDoubleBooking-snoc plan r [] idle h = (tt, tt)
NoDoubleBooking-snoc plan r (x ∷ rs) idle h = (
  All-snoc (λ q. clash plan x q ≡ false) rs r h.0 (clash_symm plan r x (ground arith)),
  NoDoubleBooking-snoc plan r rs idle h.1,
)

added-Inv :
    (r : Reservation) (s : Store)
    → Inv s
    → get reservation_key r.reservation_id s.reservations ≡ none
    → is_reserved r.status ≡ false
    → 0 < r.price_cop
    → r.amount_paid_cop ≡ accepted_total r.reservation_id s.evidences
    → Inv (add_reservation r s)
added-Inv r s v fresh idle price paid = record {
  reservation_ids = snoc-Unique reservation_key r s.reservations v.reservation_ids fresh;
  evidence_ids = v.evidence_ids;
  priced = All-snoc (λ x. 0 < x.price_cop) s.reservations r v.priced price;
  no_double = NoDoubleBooking-snoc s.plan r s.reservations idle v.no_double;
  money = All-snoc (IsPaid (λ k. accepted_total k s.evidences)) s.reservations r v.money paid;
  funded = All-snoc (IsFunded s.settings) s.reservations r v.funded (inl idle);
}

-- A request that returns has passed every guard.
record Requested (q : BookingRequest) (s : Store) (r : Reservation) (v : Event) (t : Store)
    : Type 0 where
  pub active : q.plan.active ≡ true
  pub fits : same_event_type q.plan.event_type q.event.event_type ≡ true
  pub ends : Datetime
  pub length_known : booking_ends_at q.plan q.starts_at ≡ ok ends
  pub row : r ≡ pending_row q ends.at s.now
  pub event : v ≡ dated_event q.event q.plan (date_of q.starts_at.at)
  pub rows :
      SameRows
        (request_audits q
          (pending_row q ends.at s.now)
          (add_reservation (pending_row q ends.at s.now) s))
        t

told :
    (q : BookingRequest) (ends : Datetime) (s : Store) (r : Reservation) (v : Event) (t : Store)
    → (s' : Store) × (enqueue_for_reservation
          (pending_row q ends.at s.now)
          payment_pending_created
          reservation_source
          q.reservation_id
          (request_audits q
            (pending_row q ends.at s.now)
            (add_reservation (pending_row q ends.at s.now) s))
        ≡ ok s')
      × (◌≡◌ {A = Result BookingError (Reservation × Event × Store)}
          (ok
            (pending_row q ends.at s.now, dated_event q.event q.plan (date_of q.starts_at.at), s'))
          (ok (r, v, t)))
    → (r ≡ pending_row q ends.at s.now)
      × (v ≡ dated_event q.event q.plan (date_of q.starts_at.at))
      × SameRows
          (request_audits q
            (pending_row q ends.at s.now)
            (add_reservation (pending_row q ends.at s.now) s))
          t
told q ends s r v t (s', done, shown) =
    let it : s' ≡ t = ground arith in
    (
      ground arith,
      ground arith,
      rw (← it) (
          enqueue_for_reservation-SameRows (pending_row q ends.at s.now) payment_pending_created
            reservation_source q.reservation_id _ s' done),
    )

request-cases :
    (q : BookingRequest) (s : Store) (r : Reservation) (v : Event) (t : Store)
    → create_pending_reservation q s ≡ ok (r, v, t)
    → Requested q s r v t
unfolding create_pending_reservation
request-cases q s r v t h =
    let (active, h₁) = raise_if-eq-ok (not q.plan.active) _ _ h in
    let (fits, h₂) =
      raise_if-eq-ok (not (same_event_type q.plan.event_type q.event.event_type)) _ _ h₁ in
    let (aware, h₃) = raise_if-eq-ok (not q.starts_at.aware) _ _ h₂ in
    let (actor, h₄) = raise_if-eq-ok (is_blank q.actor) _ _ h₃ in
    let (ends, known, h₅) = >>=-eq-ok (booking_ends_at q.plan q.starts_at) _ h₄ in
    let (row, event, rows) = told q ends s r v t (
      >>=-eq-ok
        (enqueue_for_reservation (pending_row q ends.at s.now) payment_pending_created
          reservation_source q.reservation_id _)
        _ h₅) in
    record {
      active = ground arith;
      fits = ground arith;
      ends = ends;
      length_known = known;
      row = row;
      event = event;
      rows = rows;
    }

audited : (q : BookingRequest) (r : Reservation) (s : Store) → SameRows s (request_audits q r s)
audited q r s = elim (Bool-cases (date_changed q.event (date_of q.starts_at.at))) [
  | inl new ↦ rw new (record {
    settings = refl;
    now = refl;
    plan = refl;
    reservations = refl;
    evidences = refl;
    recipients = refl;
  })
  | inr old ↦ rw old (record {
    settings = refl;
    now = refl;
    plan = refl;
    reservations = refl;
    evidences = refl;
    recipients = refl;
  })
]

-- When `create_pending_reservation` returns, for an id that no reservation has and that no accepted
-- receipt brings money to, a plan with a price, and rows that satisfied the invariant, they satisfy
-- it again.
pub create_pending_reservation-Inv :
    (q : BookingRequest) (s : Store) (r : Reservation) (v : Event) (t : Store)
    → Inv s
    → get reservation_key q.reservation_id s.reservations ≡ none
    → accepted_total q.reservation_id s.evidences ≡ 0
    → 0 < q.plan.price_cop
    → create_pending_reservation q s ≡ ok (r, v, t)
    → Inv t
create_pending_reservation-Inv q s r v t inv fresh unpaid price h =
    let c = request-cases q s r v t h in
    let row = pending_row q c.ends.at s.now in
    let a = audited q row (add_reservation row s) in
    let added = added-Inv row s inv fresh refl price (sym unpaid) in
    Inv-same (add_reservation row s) t (c.rows.settings ∙ a.settings) (c.rows.plan ∙ a.plan)
      (c.rows.reservations ∙ a.reservations) (c.rows.evidences ∙ a.evidences) added

-- When `create_pending_reservation` returns, the plan is active and of the event's type, the only reservation
-- added is the returned one, which waits for its payment with the plan's price, nothing paid and the end
-- that the plan gives, and the event carries the plan and the local date of the start.
pub create_pending_reservation-row :
    (q : BookingRequest) (s : Store) (r : Reservation) (v : Event) (t : Store)
    → create_pending_reservation q s ≡ ok (r, v, t)
    → (q.plan.active ≡ true)
      × (same_event_type q.plan.event_type q.event.event_type ≡ true)
      × (t.reservations ≡ s.reservations ++ r ∷ [])
      × (r.status ≡ payment_pending)
      × (r.price_cop ≡ q.plan.price_cop)
      × (r.amount_paid_cop ≡ 0)
      × (v.plan_id ≡ some r.plan_id)
      × (v.event_date ≡ some (date_of r.starts_at))
      × ((ends : Datetime) × (booking_ends_at q.plan q.starts_at ≡ ok ends) × (r.ends_at ≡ ends.at))
create_pending_reservation-row q s r v t h =
    let c = request-cases q s r v t h in
    let row = pending_row q c.ends.at s.now in
    let a = audited q row (add_reservation row s) in
    (
      c.active,
      c.fits,
      c.rows.reservations ∙ a.reservations ∙ rw c.row refl,
      rw c.row refl,
      rw c.row refl,
      rw c.row refl,
      rw (c.event, c.row) refl,
      rw (c.event, c.row) refl,
      (c.ends, c.length_known, rw c.row refl),
    )
