-- ===== src/Reservation/Booking/Link.antt =====
-- `attach_payment_evidence` on a stored receipt.
use chat_bot_ceiba.Common.{
  ◌<◌, ◌≡◌, refl, sym, subst, ◌∙◌, inl, inr, false, none, some, Option, ok, arith, ==_refl,
  Bool-cases, Option-cases, >>=-eq-ok, Result, ◌>>=◌, ◌⊎◌, String,
}
use chat_bot_ceiba.Rows.Reservation.{Reservation, payment_review, is_payment_pending}
use chat_bot_ceiba.Rows.Evidence.{PaymentEvidence, is_accepted}
use chat_bot_ceiba.Reservation.Settlement.Flush.{
  Flushed, SameSlot, move_to-Flushed, move_to-SameSlot,
}
use chat_bot_ceiba.Reservation.Settlement.{move_to}
use chat_bot_ceiba.Rows.Table.{get, put, get-put}
use chat_bot_ceiba.Notifications.Staff.{enqueue_for_reservation}
use chat_bot_ceiba.Notifications.Staff.Once.{SameRows, enqueue_for_reservation-SameRows}
use chat_bot_ceiba.Reservation.Invariant.{Inv}
use chat_bot_ceiba.Reservation.Keeping.{Inv-same, unaccepted-Inv, Flushed-Inv}
use chat_bot_ceiba.Reservation.Store.{
  Store, evidence_received, evidence_source, add_audit, put_evidence, evidence_key, reservation_key,
}
use chat_bot_ceiba.Reservation.Transition.{BookingError}
use chat_bot_ceiba.Reservation.Booking.{
  attach_payment_evidence, payment_reservation_candidate, move_to_review, evidence_linked,
}
use chat_bot_ceiba.Reservation.Booking.Candidate.{
  IsChoice, candidate-IsChoice, IsBest, candidate-IsBest, get-candidate,
}

-- A row that goes into review, or is left alone.
review_step :
    (r : Reservation) (actor reason : String) (s : Store) (r' : Reservation) (t : Store)
    → move_to_review r actor reason s ≡ ok (r', t)
    → ((r' ≡ r) × (t ≡ s) × (is_payment_pending r.status ≡ false))
      ⊎ (Flushed s t r' × SameSlot r r' × (r'.status ≡ payment_review))
unfolding move_to_review
review_step r actor reason s r' t h = elim (Bool-cases (is_payment_pending r.status)) [
  | inl pending ↦
      let m =
        move_to-Flushed payment_review r actor reason s r' t (unfold move_to in ground arith) in
      inr (m.1, move_to-SameSlot payment_review r r' m.0, ground arith)
  | inr other ↦ inl (ground arith, ground arith, other)
]

-- What a call that returns has done.
record Linked (e : PaymentEvidence) (s : Store) (r r' : Reservation) (t : Store) : Type 0 where
  pub chosen : payment_reservation_candidate e.customer_id s.now s.reservations ≡ some r
  pub mid : Store
  pub step :
      ((r' ≡ r)
        × (mid ≡ put_evidence (record e { reservation_id = some r.reservation_id }) s)
        × (is_payment_pending r.status ≡ false))
      ⊎ (Flushed (put_evidence (record e { reservation_id = some r.reservation_id }) s) mid r'
          × SameSlot r r'
          × (r'.status ≡ payment_review))
  pub after : SameRows (add_audit (evidence_linked e r') mid) t

attach_cases :
    (e : PaymentEvidence) (s : Store) (row : Option Reservation) (t : Store)
    → attach_payment_evidence e s ≡ ok (row, t)
    → ((row ≡ none) × (t ≡ s))
      ⊎ ((r : Reservation) × (r' : Reservation) × (row ≡ some r')
          × (e.reservation_id ≡ none)
          × Linked e s r r' t)
unfolding attach_payment_evidence
attach_cases e s row t h = elim (Option-cases e.reservation_id) [
  | inr (k, to) ↦ inl (ground arith, ground arith)
  | inl free ↦
      elim (Option-cases (payment_reservation_candidate e.customer_id s.now s.reservations)) [
        | inl nobody ↦ inl (ground arith, ground arith)
        | inr (r, chosen) ↦ inr (
            linked r chosen free (
              >>=-eq-ok
                (move_to_review r "SYSTEM" "Comprobante recibido"
                  (put_evidence (record e { reservation_id = some r.reservation_id }) s))
                _ (rw (free, chosen) at h)))
      ]
]
  where
    linked :
        (r : Reservation)
        → payment_reservation_candidate e.customer_id s.now s.reservations ≡ some r
        → e.reservation_id ≡ none
        → (m : Reservation × Store) × (move_to_review r "SYSTEM" "Comprobante recibido"
              (put_evidence (record e { reservation_id = some r.reservation_id }) s)
            ≡ ok m)
          × (◌≡◌ {A = Result BookingError (Option Reservation × Store)}
              (enqueue_for_reservation m.0 evidence_received evidence_source e.evidence_id
                  (add_audit (evidence_linked e m.0) m.1)
                >>= λ (s'' : Store). ok (some m.0, s''))
              (ok (row, t)))
        → (r : Reservation) × (r' : Reservation) × (row ≡ some r')
          × (e.reservation_id ≡ none)
          × Linked e s r r' t
    linked r chosen free ((r', mid), moved, k) =
        let (s'', told, shown) =
          >>=-eq-ok
            (enqueue_for_reservation r' evidence_received evidence_source e.evidence_id
              (add_audit (evidence_linked e r') mid))
            _ k in
        let it : s'' ≡ t = ground arith in
        (
          r,
          r',
          ground arith,
          free,
          record {
            chosen = chosen;
            mid = mid;
            step =
                review_step r "SYSTEM" "Comprobante recibido"
                  (put_evidence (record e { reservation_id = some r.reservation_id }) s) r' mid
                  moved;
            after = rw (← it) (
                enqueue_for_reservation-SameRows r' evidence_received evidence_source e.evidence_id
                  _ s'' told);
          },
        )

-- When `attach_payment_evidence` returns for a stored receipt that is not accepted, and the rows satisfied
-- the invariant, they satisfy it again.
pub attach_payment_evidence-Inv :
    (e : PaymentEvidence) (s : Store) (row : Option Reservation) (t : Store)
    → Inv s
    → get evidence_key e.evidence_id s.evidences ≡ some e
    → is_accepted e.review_status ≡ false
    → attach_payment_evidence e s ≡ ok (row, t)
    → Inv t
attach_payment_evidence-Inv e s row t v there open_yet h = elim (attach_cases e s row t h) [
  | inl (nothing, same) ↦ rw same v
  | inr (r, r', shown, free, l) ↦
      let base = put_evidence (record e { reservation_id = some r.reservation_id }) s in
      let v' =
        unaccepted-Inv e (record e { reservation_id = some r.reservation_id }) s v there open_yet
          open_yet in
      let found = get-candidate e.customer_id s.now r s.reservations v.reservation_ids l.chosen in
      let moved : Inv l.mid = elim l.step [
        | inl (it, same, other) ↦ rw same v'
        | inr (f, slot, status) ↦ Flushed-Inv base l.mid r r' v' found f slot (rw status refl)
      ] in
      Inv-same l.mid t l.after.settings l.after.plan l.after.reservations l.after.evidences moved
]

chosen_fits :
    (e : PaymentEvidence) (s : Store) (r : Reservation)
    → payment_reservation_candidate e.customer_id s.now s.reservations ≡ some r
    → (r.customer_id ≡ e.customer_id) × (s.now < r.starts_at)
chosen_fits e s r chosen =
    let choice = candidate-IsChoice e.customer_id s.now s.reservations in
    let mine = (subst (IsChoice e.customer_id s.now s.reservations) chosen choice).0 in ground arith

kept :
    (e : PaymentEvidence) (s : Store) (r q : Reservation) (t : Store) (l : Linked e s r q t)
    → (l.mid.evidences
        ≡ put evidence_key (record e { reservation_id = some r.reservation_id }) s.evidences)
      × (q.reservation_id ≡ r.reservation_id)
      × (q.customer_id ≡ r.customer_id)
      × (q.starts_at ≡ r.starts_at)
      × (is_payment_pending q.status ≡ false)
kept e s r q t l = elim l.step [
  | inl (same, mid, other) ↦ (rw mid refl, rw same refl, rw same refl, rw same refl, rw same other)
  | inr (f, slot, status) ↦ (f.evidences, slot.ident, slot.customer, slot.starts, rw status refl)
]

row_written :
    (e : PaymentEvidence) (s : Store) (r q : Reservation) (t : Store)
    → Inv s
    → get reservation_key r.reservation_id s.reservations ≡ some r
    → Linked e s r q t
    → get reservation_key q.reservation_id t.reservations ≡ some q
row_written e s r q t v here l = elim l.step [
  | inl (same, mid, other) ↦
      subst (λ rows. get reservation_key q.reservation_id rows ≡ some q) (sym l.after.reservations)
        (subst (λ (m : Store). get reservation_key q.reservation_id m.reservations ≡ some q)
          (sym mid)
          (subst (λ (x : Reservation). get reservation_key x.reservation_id s.reservations ≡ some x)
            (sym same) here))
  | inr (f, slot, status) ↦
      let stored : get reservation_key q.reservation_id s.reservations ≡ some r =
        subst (λ k. get reservation_key k s.reservations ≡ some r) (sym slot.ident) here in
      let written = get-put reservation_key q.reservation_id q r s.reservations stored in
      let hit = ==_refl q.reservation_id in
      subst (λ rows. get reservation_key q.reservation_id rows ≡ some q) (sym l.after.reservations)
        (subst (λ rows. get reservation_key q.reservation_id rows ≡ some q) (sym f.rows)
          (rw (written, hit) refl))
]

-- When it returns a reservation for a stored receipt, and the rows satisfied the invariant, the receipt had no link and
-- the stored receipt is now linked to that reservation; the reservation is the row of the query for the receipt's
-- customer, which is the best choice among the customer's future reservations that can take a payment; as it was
-- returned it stands in the table, starts in the future and no longer has the status PAYMENT_PENDING.
pub attach_payment_evidence-links :
    (e : PaymentEvidence) (s : Store) (r' : Reservation) (t : Store)
    → Inv s
    → get evidence_key e.evidence_id s.evidences ≡ some e
    → attach_payment_evidence e s ≡ ok (some r', t)
    → (e.reservation_id ≡ none)
      × (get evidence_key e.evidence_id t.evidences
          ≡ some (record e { reservation_id = some r'.reservation_id }))
      × (r'.customer_id ≡ e.customer_id)
      × (s.now < r'.starts_at)
      × (is_payment_pending r'.status ≡ false)
      × (get reservation_key r'.reservation_id t.reservations ≡ some r')
      × ((r : Reservation) × (payment_reservation_candidate e.customer_id s.now s.reservations
            ≡ some r)
          × (r'.reservation_id ≡ r.reservation_id)
          × IsBest e.customer_id s.now s.reservations (some r))
attach_payment_evidence-links e s r' t v there h = elim (attach_cases e s (some r') t h) [
  | inl (nothing, same) ↦ ground arith
  | inr (r, q, shown, free, l) ↦
      let it : q ≡ r' = ground arith in
      let row = record e { reservation_id = some r.reservation_id } in
      let written = get-put evidence_key e.evidence_id row e s.evidences there in
      let here : get evidence_key e.evidence_id (put evidence_key row s.evidences) ≡ some row =
        written ∙ (let hit = ==_refl e.evidence_id in rw hit refl) in
      let fits = chosen_fits e s r l.chosen in
      let facts = kept e s r q t l in
      let found = get-candidate e.customer_id s.now r s.reservations v.reservation_ids l.chosen in
      let best =
        subst (IsBest e.customer_id s.now s.reservations) l.chosen
          (candidate-IsBest e.customer_id s.now s.reservations) in
      (
        free,
        rw (l.after.evidences, facts.0, ← it, facts.1) here,
        rw (← it, facts.2) fits.0,
        rw (← it, facts.3) fits.1,
        rw (← it) facts.4,
        subst (λ (x : Reservation). get reservation_key x.reservation_id t.reservations ≡ some x) it
            (row_written e s r q t v found l),
        (
          r,
          l.chosen,
          subst (λ (x : Reservation). x.reservation_id ≡ r.reservation_id) it facts.1,
          best,
        ),
      )
]
