-- ===== src/Reservation/Settlement/Ledger.antt =====
-- The ledger of a reservation under `accept_payment` and `reject_payment`.
use chat_bot_ceiba.Common.{
  ℕ, ◌+◌, ◌≡◌, refl, sym, subst, ◌∙◌, inl, inr, false, not, ◌&&◌, none, some, Option, String, ok,
  err, arith, ◌||◌, is_blank, ==_refl, >>=-eq-ok, Bool-cases, Option-cases, Result-cases, Result,
}
use chat_bot_ceiba.Rows.Reservation.{Reservation, is_payment_review, payment_pending}
use chat_bot_ceiba.Rows.Evidence.{PaymentEvidence, is_pending_review, accepted}
use chat_bot_ceiba.Rows.Table.{get, put, get-put, key-get}
use chat_bot_ceiba.Reservation.Transition.{BookingError}
use chat_bot_ceiba.Reservation.Availability.{Unicode}
use chat_bot_ceiba.Reservation.Invariant.{Inv}
use chat_bot_ceiba.Reservation.Keeping.{Inv-same, unaccepted-Inv, Flushed-Inv}
use chat_bot_ceiba.Reservation.Store.{Store, add_audit, put_evidence, reservation_key, evidence_key}
use chat_bot_ceiba.Reservation.Settlement.{
  SettlementResult, Acceptance, accept_guards, accepted_row, payment_audit, rejected_row, reopen,
  has_pending_payment_evidence, move_to, accept_payment, reject_payment,
}
use chat_bot_ceiba.Reservation.Settlement.Accept.{KindFits}
use chat_bot_ceiba.Reservation.Settlement.Flush.{move_to-Flushed, move_to-SameSlot}
use chat_bot_ceiba.Reservation.Settlement.Keeps.{
  accept_guards-ok, accept_payment-Accepted, unlinked-Inv, linked-Inv,
}

-- When `accept_payment` returns for a stored receipt and the rows satisfied the invariant, they satisfy it
-- again: no two reserved bookings exclude each other, each reservation's paid amount is the sum of its
-- accepted receipts, and each reserved booking has at least its deposit.
pub accept_payment-Inv :
    (u : Unicode) (q : Acceptance) (e : PaymentEvidence) (s : Store) (res : SettlementResult)
    (t : Store)
    → Inv s
    → get evidence_key e.evidence_id s.evidences ≡ some e
    → accept_payment u q e s ≡ ok (res, t)
    → Inv t
accept_payment-Inv u q e s res t v there h =
    let a = accept_payment-Accepted u q e s res t v.no_double v.funded h in
    elim a.effect [
      | inl (free, kind, same) ↦ rw same (unlinked-Inv q e s t v there a.was_pending free)
      | inr (old, linked, found, (r, o)) ↦
          linked-Inv q e s t res old r v there a.was_pending linked found o
    ]

-- When `accept_payment` returns for a receipt that is linked to a reservation, and the rows
-- satisfied the invariant, the stored row of that reservation has grown by exactly the accepted
-- amount, and the kind of the result fits the row: reserved with nothing missing and no blocker, not
-- reserved because of a blocker or of a deposit that is not complete, or reserved before with its
-- balance paid in full or in part; the missing amount is what the row lacks.
pub accept_payment-counts :
    (u : Unicode) (q : Acceptance) (e : PaymentEvidence) (s : Store) (res : SettlementResult)
    (t : Store) (k : ℕ)
    → Inv s
    → e.reservation_id ≡ some k
    → accept_payment u q e s ≡ ok (res, t)
    → (old : Reservation) × (r : Reservation) × (get reservation_key k s.reservations ≡ some old)
      × (get reservation_key k t.reservations ≡ some r)
      × (r.amount_paid_cop ≡ old.amount_paid_cop + q.amount_cop)
      × KindFits s.settings res r res.kind
accept_payment-counts u q e s res t k v to h =
    let a = accept_payment-Accepted u q e s res t v.no_double v.funded h in
    elim a.effect [
      | inl (free, kind, same) ↦ ground arith
      | inr (old, linked, found, (r, o)) ↦
          let it : old.reservation_id ≡ k = ground arith in
          let mine : r.reservation_id ≡ k = o.slot.ident ∙ it in
          let there : get reservation_key r.reservation_id s.reservations ≡ some old =
            rw (mine, ← it) found in
          let written = get-put reservation_key k r old s.reservations there in
          (old, r, rw (← it) found, rw o.stage.flushed.rows (ground arith), o.slot.paid, o.fits)
    ]

reviewed-raises :
    (u : Unicode) (q : Acceptance) (e : PaymentEvidence) (s : Store)
    → is_pending_review e.review_status ≡ false
    → (x : BookingError) × (accept_payment u q e s ≡ err x)
unfolding accept_payment
reviewed-raises u q e s done = elim (Result-cases (accept_guards q e)) [
  | inl (x, raised) ↦ (x, rw raised refl)
  | inr (passed, guards) ↦ let waiting = (accept_guards-ok q e guards).1 in ground arith
]

-- When `accept_payment` returns for a stored receipt, and the rows satisfied the invariant, the
-- stored receipt is accepted, and any acceptance of it on the new rows raises.
pub accept_payment_once :
    (u : Unicode) (q q' : Acceptance) (e : PaymentEvidence) (s : Store) (res : SettlementResult)
    (t : Store)
    → Inv s
    → get evidence_key e.evidence_id s.evidences ≡ some e
    → accept_payment u q e s ≡ ok (res, t)
    → (e' : PaymentEvidence) × (get evidence_key e.evidence_id t.evidences ≡ some e')
      × (e'.review_status ≡ accepted)
      × ((x : BookingError) × (accept_payment u q' e' t ≡ err x))
accept_payment_once u q q' e s res t v there h =
    let a = accept_payment-Accepted u q e s res t v.no_double v.funded h in
    let row = accepted_row q e s.now in
    let written = get-put evidence_key e.evidence_id row e s.evidences there in
    let here : get evidence_key e.evidence_id (put evidence_key row s.evidences) ≡ some row =
      written ∙ (let hit = ==_refl e.evidence_id in rw hit refl) in
    elim a.effect [
      | inl (free, kind, same) ↦ (row, rw same here, refl, reviewed-raises u q' row t refl)
      | inr (old, linked, found, (r, o)) ↦
          (row, rw o.stage.flushed.evidences here, refl, reviewed-raises u q' row t refl)
    ]

reopen_moved-Inv :
    (actor note : String) (s : Store) (row : Option Reservation) (t : Store) (r : Reservation)
    → Inv s
    → get reservation_key r.reservation_id s.reservations ≡ some r
    → (m : Reservation × Store) × (move_to payment_pending r actor note s ≡ ok m)
      × (◌≡◌ {A = Result BookingError (Option Reservation × Store)}
          (ok (some m.0, m.1))
          (ok (row, t)))
    → Inv t × (t.evidences ≡ s.evidences)
reopen_moved-Inv actor note s row t r v found ((r', t'), done, shown) =
    let it : t' ≡ t = ground arith in
    let f = move_to-Flushed payment_pending r actor note s r' t' done in
    rw (← it) (
      Flushed-Inv s t' r r' v found f.1 (move_to-SameSlot payment_pending r r' f.0) (ground arith),
      f.1.evidences,
    )

reopen-Inv :
    (e : PaymentEvidence) (actor note : String) (s : Store) (row : Option Reservation) (t : Store)
    → Inv s
    → reopen e actor note s ≡ ok (row, t)
    → Inv t × (t.evidences ≡ s.evidences)
unfolding reopen
reopen-Inv e actor note s row t v h = elim (Option-cases e.reservation_id) [
  | inl free ↦ let it : t ≡ s = ground arith in (rw it v, rw it refl)
  | inr (n, to) ↦ elim (Option-cases (get reservation_key n s.reservations)) [
    | inl lost ↦ let it : t ≡ s = ground arith in (rw it v, rw it refl)
    | inr (r, found) ↦
        let mine = key-get reservation_key n r s.reservations found in
        elim (Bool-cases (
          is_payment_review r.status
          && not (has_pending_payment_evidence r.reservation_id s.evidences))) [
            | inr other ↦ let it : t ≡ s = ground arith in (rw it v, rw it refl)
            | inl last ↦
                reopen_moved-Inv actor note s row t r v
                  (subst (λ j. get reservation_key j s.reservations ≡ some r) (sym mine) found)
                  (>>=-eq-ok (move_to payment_pending r actor note s) _
                    (rw (to, reopen, found, last) at h))
          ]
  ]
]

-- When `reject_payment` returns for a stored receipt and the rows satisfied the invariant, they satisfy it
-- again, and among the receipts only this one has changed: it is rejected.
pub reject_payment-Inv :
    (e : PaymentEvidence) (actor note : String) (s : Store) (row : Option Reservation) (t : Store)
    → Inv s
    → get evidence_key e.evidence_id s.evidences ≡ some e
    → reject_payment e actor note s ≡ ok (row, t)
    → Inv t × (t.evidences ≡ put evidence_key (rejected_row e note s.now) s.evidences)
unfolding reject_payment
reject_payment-Inv e actor note s row t v there h =
    elim (Bool-cases (is_blank actor || is_blank note)) [
      | inl blank ↦ ground arith
      | inr given ↦ elim (Bool-cases (is_pending_review e.review_status)) [
        | inr reviewed ↦ ground arith
        | inl pending ↦
            let base = put_evidence (rejected_row e note s.now) s in
            let v' =
              Inv-same base
                (add_audit (payment_audit (rejected_row e note s.now) actor (some note) none none)
                  base)
                refl refl refl refl
                (unaccepted-Inv e (rejected_row e note s.now) s v there (ground arith) refl) in
            reopen-Inv e actor note _ row t v' (rw (given, pending) at h)
      ]
    ]
