-- ===== src/Reservation/Settlement/Slot.antt =====
-- The confirmation of a paid reservation looks at the slot again before it takes it.
use chat_bot_ceiba.Common.{
  ℕ, ◌≡◌, refl, sym, ap, ◌∙◌, ◌⊎◌, inl, inr, true, false, some, List, [], ◌∷◌, ◌++◌, map, String,
  ok, err, arith, All, is_empty, is_empty_text, select, Bool-cases, Result-cases,
}
use chat_bot_ceiba.Rows.Plan.{Plan}
use chat_bot_ceiba.Rows.Reservation.{Reservation, payment_pending, reserved, is_reserved}
use chat_bot_ceiba.Rows.Blocker.{BookingBlocker}
use chat_bot_ceiba.Rows.Table.{get, put}
use chat_bot_ceiba.Reservation.Transition.{BookingError}
use chat_bot_ceiba.Reservation.Availability.{
  Unicode, BookingAvailability, normalized, evaluate_booking_availability,
}
use chat_bot_ceiba.Reservation.Availability.Clash.{taken_by, available_iff}
use chat_bot_ceiba.Reservation.Invariant.{
  clash, NoDoubleBooking, NoDoubleBooking-put, NoDoubleBooking-put_weaker,
}
use chat_bot_ceiba.Reservation.Store.{Store, put_reservation, reservation_key}
use chat_bot_ceiba.Reservation.Settlement.{
  Acceptance, overlaps, fresh_rows, move_to, confirmed_row, settle_complete, settle_partial,
  has_pending_payment_evidence,
}
use chat_bot_ceiba.Reservation.Settlement.Flush.{
  Flushed, Flushed-put, Flushed-trans, SameSlot, SameSlot-refl, SameSlot-trans, move_to-Flushed,
  move_to-SameSlot,
}

abbrev join : (ℕ → Plan) → List Reservation → List (Reservation × Plan)
join plan = map (λ (x : Reservation). (x, plan x.plan_id))

-- What the query leaves out cannot clash.
clash_of_fresh :
    (plan : ℕ → Plan) (r c : Reservation) (rs : List Reservation)
    → SameSlot r c
    → All
        (λ x. taken_by (plan r.plan_id) r.starts_at r.ends_at x ≡ false)
        (join plan (select (overlaps r) rs))
    → All (λ q. clash plan c q ≡ false) rs
clash_of_fresh plan r c [] same h = tt
clash_of_fresh plan r c (q ∷ rs) same h = elim (Bool-cases (overlaps r q)) [
  | inl over ↦
      let k = rw over at h in
      (ground (arith, k.0, ap plan same.plan), clash_of_fresh plan r c rs same k.1)
  | inr apart ↦ (ground (arith, ap plan same.plan), clash_of_fresh plan r c rs same (rw apart at h))
]

is_empty-left : (xs ys : List BookingBlocker) → is_empty (xs ++ ys) ≡ true → is_empty xs ≡ true
is_empty-left [] ys h = refl
is_empty-left (x ∷ xs) ys h = cc

-- A check that returned with no blocker says that no row of the table clashes.
evaluated-clash :
    (u : Unicode) (plan : ℕ → Plan) (r c : Reservation) (rs : List Reservation) (keyword : String)
    (a : BookingAvailability)
    → SameSlot r c
    → evaluate_booking_availability u
        (plan r.plan_id)
        r.starts_at
        r.ends_at
        []
        (join plan (select (overlaps r) rs))
        keyword
      ≡ ok a
    → is_empty a.blockers ≡ true
    → All (λ q. clash plan c q ≡ false) rs
evaluated-clash u plan r c rs keyword a same h free =
    elim (Bool-cases (is_empty_text (normalized u keyword))) [
      | inl blank ↦ unfold evaluate_booking_availability in ground arith
      | inr told ↦
          let (a', e, counted, iff) =
            available_iff u (plan r.plan_id) r.starts_at r.ends_at []
              (join plan (select (overlaps r) rs)) keyword told in
          let it : a' ≡ a = ground arith in
          clash_of_fresh plan r c rs same (iff.0 (counted ∙ rw it free)).1
    ]

-- What a stage of the deposit branch hands on: the flushed row, in a table with no double booking,
-- is where it was, and stays unconfirmed unless the stage confirms it.
pub record Stage (s t : Store) (r : Reservation) : Type 0 where
  pub flushed : Flushed s t r
  pub free : NoDoubleBooking s.plan t.reservations

confirmed_row-SameSlot : (r : Reservation) → SameSlot r (confirmed_row r)
confirmed_row-SameSlot r = ground arith

NoDoubleBooking-confirmed :
    (plan : ℕ → Plan) (c : Reservation) (rs rs' : List Reservation)
    → rs' ≡ put reservation_key c rs
    → All (λ q. clash plan c q ≡ false) rs
    → NoDoubleBooking plan rs
    → NoDoubleBooking plan rs'
NoDoubleBooking-confirmed plan c rs rs' e free h = rw e (NoDoubleBooking-put plan c rs free h)

settle_complete-confirms :
    (u : Unicode) (q : Acceptance) (r : Reservation) (s t : Store) (a : BookingAvailability)
    (m : Reservation × Store)
    → Stage s t r
    → evaluate_booking_availability u
        (t.plan r.plan_id)
        r.starts_at
        r.ends_at
        []
        (fresh_rows r t)
        t.settings.booking_exclusivity_keyword
      ≡ ok a
    → is_empty a.blockers ≡ true
    → move_to reserved r q.actor "Pago humano aceptado; anticipo completo" t ≡ ok m
    → Stage s (put_reservation (confirmed_row m.0) m.1) (confirmed_row m.0)
      × SameSlot r (confirmed_row m.0)
      × ((confirmed_row m.0).status ≡ reserved)
unfolding fresh_rows
settle_complete-confirms u q r s t a (r₁, t₁) st checked free moved =
    let m =
      move_to-Flushed reserved r q.actor "Pago humano aceptado; anticipo completo" t r₁ t₁ moved in
    let one = move_to-SameSlot reserved r r₁ m.0 in
    let same = SameSlot-trans r r₁ (confirmed_row r₁) one (confirmed_row-SameSlot r₁) in
    let there =
      Flushed-trans t t₁ (put_reservation (confirmed_row r₁) t₁) r₁ (confirmed_row r₁) m.1
        (Flushed-put t₁ (confirmed_row r₁)) (sym (confirmed_row-SameSlot r₁).ident) in
    let clear =
      evaluated-clash u t.plan r (confirmed_row r₁) t.reservations
        t.settings.booking_exclusivity_keyword a same checked free in
    (
      record {
        flushed =
            Flushed-trans s t (put_reservation (confirmed_row r₁) t₁) r (confirmed_row r₁)
              st.flushed there (sym same.ident);
        free =
            NoDoubleBooking-confirmed s.plan (confirmed_row r₁) t.reservations
              (put_reservation (confirmed_row r₁) t₁).reservations there.rows
              (rw (← st.flushed.plan) clear) st.free;
      },
      same,
      ground arith,
    )

is_empty-nil : (xs : List BookingBlocker) → is_empty xs ≡ true → xs ≡ []
is_empty-nil [] h = refl
is_empty-nil (x ∷ xs) h = cc

pub settle_complete-Stage :
    (u : Unicode) (q : Acceptance) (r : Reservation) (s t : Store)
    (m : List BookingBlocker × Reservation × Store)
    → Stage s t r
    → settle_complete u q r t ≡ ok m
    → Stage s m.2 m.1
      × SameSlot r m.1
      × (((is_empty m.0 ≡ false) × (m.1 ≡ r)) ⊎ ((m.0 ≡ []) × (m.1.status ≡ reserved)))
unfolding settle_complete
settle_complete-Stage u q r s t m st h = checked (
    Result-cases (
      evaluate_booking_availability u (t.plan r.plan_id) r.starts_at r.ends_at [] (fresh_rows r t)
        t.settings.booking_exclusivity_keyword))
  where
    confirms : (Reservation × Store) → List BookingBlocker × Reservation × Store
    confirms n = ([], confirmed_row n.0, put_reservation (confirmed_row n.0) n.1)

    checked :
        ((e : BookingError) × (evaluate_booking_availability u
                (t.plan r.plan_id)
                r.starts_at
                r.ends_at
                []
                (fresh_rows r t)
                t.settings.booking_exclusivity_keyword
              ≡ err e))
          ⊎ ((a : BookingAvailability) × (evaluate_booking_availability u
                  (t.plan r.plan_id)
                  r.starts_at
                  r.ends_at
                  []
                  (fresh_rows r t)
                  t.settings.booking_exclusivity_keyword
                ≡ ok a))
        → Stage s m.2 m.1
          × SameSlot r m.1
          × (((is_empty m.0 ≡ false) × (m.1 ≡ r)) ⊎ ((m.0 ≡ []) × (m.1.status ≡ reserved)))
    checked (inl (e, raised)) = ground arith
    checked (inr (a, returned)) = elim (Bool-cases (is_empty (a.blockers ++ q.calendar_blockers))) [
      | inr blocked ↦
          let it : m ≡ (a.blockers ++ q.calendar_blockers, r, t) = ground arith in
          rw it (st, SameSlot-refl r, inl (blocked, refl))
      | inl clear ↦
          elim (Result-cases
            (move_to reserved r q.actor "Pago humano aceptado; anticipo completo" t)) [
              | inl (e, raised) ↦ ground arith
              | inr (n, moved) ↦
                  let none_left = is_empty-nil (a.blockers ++ q.calendar_blockers) clear in
                  let it : m ≡ confirms n = ground arith in
                  let (stage, same, taken) =
                    settle_complete-confirms u q r s t a n st returned
                      (is_empty-left a.blockers q.calendar_blockers clear) moved in
                  rw it (stage, same, inr (refl, taken))
            ]
    ]

-- A row that is not reserved takes no slot.
pub unreserved-Stage :
    (s t : Store) (old r : Reservation)
    → NoDoubleBooking s.plan s.reservations
    → get reservation_key r.reservation_id s.reservations ≡ some old
    → is_reserved r.status ≡ false
    → Flushed s t r
    → Stage s t r
unreserved-Stage s t old r h g idle f = record {
  flushed = f;
  free =
      rw f.rows (NoDoubleBooking-put_weaker s.plan old r s.reservations g (λ x k. ground arith) h);
}

pub settle_partial-Stage :
    (q : Acceptance) (old r : Reservation) (s t : Store) (m : Reservation × Store)
    → NoDoubleBooking s.plan s.reservations
    → get reservation_key r.reservation_id s.reservations ≡ some old
    → is_reserved r.status ≡ false
    → Flushed s t r
    → settle_partial q r t ≡ ok m
    → Stage s m.1 m.0
      × SameSlot r m.0
      × (is_reserved m.0.status ≡ false)
      × (((has_pending_payment_evidence r.reservation_id t.evidences ≡ true) × (m.0 ≡ r))
          ⊎ ((has_pending_payment_evidence r.reservation_id t.evidences ≡ false)
              × (m.0.status ≡ payment_pending)))
unfolding settle_partial
settle_partial-Stage q old r s t (r₁, t₁) h g idle f e =
    elim (Bool-cases (has_pending_payment_evidence r.reservation_id t.evidences)) [
      | inl more ↦
          let it : r₁ ≡ r = ground arith in
          let there : t₁ ≡ t = ground arith in
          rw (it, there)
            (unreserved-Stage s t old r h g idle f, SameSlot-refl r, idle, inl (more, refl))
      | inr last ↦
          let m =
            move_to-Flushed payment_pending r q.actor "Abono parcial registrado" t r₁ t₁
              (ground arith) in
          let same = move_to-SameSlot payment_pending r r₁ m.0 in
          let down : is_reserved r₁.status ≡ false = rw m.0 refl in
          (
            unreserved-Stage s t₁ old r₁ h (rw same.ident g) down
                (Flushed-trans s t t₁ r r₁ f m.1 (sym same.ident)),
            same,
            down,
            inr (last, rw m.0 refl),
          )
    ]
