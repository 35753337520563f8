-- ===== src/Reservation/Settlement/Keeps.antt =====
-- What a call of `accept_payment` leaves behind, and that it keeps the invariant.
use chat_bot_ceiba.Common.{
  ℕ, ◌+◌, ◌<◌, ◌≡◌, sym, ap, subst, ◌∙◌, ◌⊎◌, inl, inr, true, false, none, some, List, Option, ok,
  arith, ◌==◌, opt_eq, All, All-weaken, Bool-cases, Option-cases, Result-cases, if◌then◌else◌,
}
use chat_bot_ceiba.Rows.Reservation.{Reservation, is_reserved}
use chat_bot_ceiba.Rows.Evidence.{PaymentEvidence, is_pending_review, is_failed_permanent}
use chat_bot_ceiba.Rows.Table.{get, put, put-Unique, key-get, All-put, All-get}
use chat_bot_ceiba.Reservation.Availability.{Unicode}
use chat_bot_ceiba.Reservation.Invariant.{
  Inv, NoDoubleBooking, IsPaid, IsPaid-put, IsFunded, contribution, accepted_total,
  accepted_total-put,
}
use chat_bot_ceiba.Reservation.Store.{Store, reservation_key, evidence_key}
use chat_bot_ceiba.Reservation.Settlement.{
  no_reservation, SettlementResult, Acceptance, accept_guards, settled_row, accepted_row,
  accept_evidence, add_amount, close_balance, settle_balance, settle_deposit, accept_payment,
}
use chat_bot_ceiba.Reservation.Settlement.Accept.{
  Outcome, settle_balance-Outcome, settle_deposit-Outcome,
}

-- The guards that an acceptance has passed.
pub accept_guards-ok :
    (q : Acceptance) (e : PaymentEvidence)
    → accept_guards q e ≡ ok tt
    → (0 < q.amount_cop)
      × (is_pending_review e.review_status ≡ true)
      × (is_failed_permanent e.download_status ≡ false)
unfolding accept_guards
accept_guards-ok q e h = ground arith

settled_row-ok :
    (e : PaymentEvidence) (s : Store) (row : Option Reservation)
    → settled_row e s ≡ ok row
    → ((e.reservation_id ≡ none) × (row ≡ none))
      ⊎ ((r : Reservation) × (row ≡ some r)
          × (e.reservation_id ≡ some r.reservation_id)
          × (get reservation_key r.reservation_id s.reservations ≡ some r))
unfolding settled_row
settled_row-ok e s row h = linked (Option-cases e.reservation_id)
  where
    linked :
        (e.reservation_id ≡ none) ⊎ ((k : ℕ) × (e.reservation_id ≡ some k))
        → ((e.reservation_id ≡ none) × (row ≡ none))
          ⊎ ((r : Reservation) × (row ≡ some r)
              × (e.reservation_id ≡ some r.reservation_id)
              × (get reservation_key r.reservation_id s.reservations ≡ some r))
    linked (inl free) = inl (free, ground arith)
    linked (inr (k, to)) = elim (Option-cases (get reservation_key k s.reservations)) [
      | inl lost ↦ ground arith
      | inr (r, found) ↦
          let it = key-get reservation_key k r s.reservations found in
          inr (
            r,
            ground arith,
            to ∙ ap some (sym it),
            subst (λ j. get reservation_key j s.reservations ≡ some r) (sym it) found,
          )
    ]

-- The rows after an acceptance that returned.
pub record Accepted (q : Acceptance) (e : PaymentEvidence) (s : Store) (res : SettlementResult)
    (t : Store) : Type 0 where
  pub amount_pos : 0 < q.amount_cop
  pub was_pending : is_pending_review e.review_status ≡ true
  pub effect :
      ((e.reservation_id ≡ none) × (res.kind ≡ no_reservation) × (t ≡ accept_evidence q e s))
      ⊎ ((old : Reservation) × (e.reservation_id ≡ some old.reservation_id)
          × (get reservation_key old.reservation_id s.reservations ≡ some old)
          × ((r : Reservation) × Outcome q (accept_evidence q e s) old res t r))

-- The branch on the status of the linked row.
settled :
    (u : Unicode) (q : Acceptance) (e : PaymentEvidence) (s : Store) (res : SettlementResult)
    (t : Store) (old : Reservation)
    → NoDoubleBooking s.plan s.reservations
    → IsFunded s.settings old
    → get reservation_key old.reservation_id s.reservations ≡ some old
    → (if is_reserved old.status
        then ok (settle_balance q old (accept_evidence q e s))
        else settle_deposit u q old (accept_evidence q e s))
      ≡ ok (res, t)
    → (r : Reservation) × Outcome q (accept_evidence q e s) old res t r
settled u q e s res t old free funded there h = elim (Bool-cases (is_reserved old.status)) [
  | inl taken ↦
      let same : settle_balance q old (accept_evidence q e s) ≡ (res, t) = ground arith in
      (
        close_balance (add_amount q old),
        subst
            (λ (m : SettlementResult × Store).
              Outcome q (accept_evidence q e s) old m.0 m.1 (close_balance (add_amount q old)))
            same (settle_balance-Outcome q old (accept_evidence q e s) free there taken funded),
      )
  | inr idle ↦
      settle_deposit-Outcome u q old (accept_evidence q e s) res t free there idle (rw idle at h)
]

pub accept_payment-Accepted :
    (u : Unicode) (q : Acceptance) (e : PaymentEvidence) (s : Store) (res : SettlementResult)
    (t : Store)
    → NoDoubleBooking s.plan s.reservations
    → All (IsFunded s.settings) s.reservations
    → accept_payment u q e s ≡ ok (res, t)
    → Accepted q e s res t
unfolding accept_payment
accept_payment-Accepted u q e s res t free funded h = elim (Result-cases (accept_guards q e)) [
  | inl (x, raised) ↦ ground arith
  | inr (passed, guards) ↦
      let g = accept_guards-ok q e guards in
      elim (Result-cases (settled_row e s)) [
        | inl (x, raised) ↦ ground arith
        | inr (row, found) ↦ elim (settled_row-ok e s row found) [
          | inl (unlinked, nothing) ↦ record {
            amount_pos = g.0;
            was_pending = g.1;
            effect = inl (unlinked, ground arith, ground arith);
          }
          | inr (old, it, linked, there) ↦ record {
            amount_pos = g.0;
            was_pending = g.1;
            effect = inr (
              old,
              linked,
              there,
              settled u q e s res t old free
                  (All-get reservation_key (IsFunded s.settings) _ old _ funded there) there
                  (rw (guards, found, it) at h),
            );
          }
        ]
      ]
]

-- What the accepted receipt adds to the total of a reservation.
accepted_total-accept :
    (q : Acceptance) (e : PaymentEvidence) (now k : ℕ) (es : List PaymentEvidence)
    → get evidence_key e.evidence_id es ≡ some e
    → is_pending_review e.review_status ≡ true
    → accepted_total k (put evidence_key (accepted_row q e now) es)
      ≡ accepted_total k es + (if opt_eq e.reservation_id k then q.amount_cop else 0)
accepted_total-accept q e now k es g pending =
    let moved = accepted_total-put k e (accepted_row q e now) es g in
    let before : contribution k e ≡ 0 = ground arith in
    let after : contribution k (accepted_row q e now)
        ≡ (if opt_eq e.reservation_id k then q.amount_cop else 0) =
      ground arith in
    omega arith

module _ (q : Acceptance) (e : PaymentEvidence) (s t : Store) where
  total : ℕ → ℕ
  total k = accepted_total k (put evidence_key (accepted_row q e s.now) s.evidences)

  pub unlinked-Inv :
      Inv s
      → get evidence_key e.evidence_id s.evidences ≡ some e
      → is_pending_review e.review_status ≡ true
      → e.reservation_id ≡ none
      → Inv (accept_evidence q e s)
  unlinked-Inv v g pending free = record {
    reservation_ids = v.reservation_ids;
    evidence_ids = put-Unique evidence_key (accepted_row q e s.now) s.evidences v.evidence_ids;
    priced = v.priced;
    no_double = v.no_double;
    money =
        All-weaken (IsPaid (λ k. accepted_total k s.evidences))
          (IsPaid (λ k. accepted_total k (accept_evidence q e s).evidences)) s.reservations
          (λ r paid.
            ground (arith, accepted_total-accept q e s.now r.reservation_id s.evidences g pending))
          v.money;
    funded = v.funded;
  }

  others :
      (old r : Reservation) {res : SettlementResult}
      → e.reservation_id ≡ some old.reservation_id
      → Outcome q (accept_evidence q e s) old res t r
      → (j : ℕ) → (r.reservation_id == j) ≡ false
      → get evidence_key e.evidence_id s.evidences ≡ some e
      → is_pending_review e.review_status ≡ true
      → total j ≡ accepted_total j s.evidences
  unfolding total
  others old r linked o j other g pending =
      let moved = accepted_total-accept q e s.now j s.evidences g pending in
      let same = o.slot.ident in
      let elsewhere : opt_eq e.reservation_id j ≡ false = ground arith in ground arith

  paid :
      (res : SettlementResult) (old r : Reservation)
      → Inv s
      → get evidence_key e.evidence_id s.evidences ≡ some e
      → is_pending_review e.review_status ≡ true
      → e.reservation_id ≡ some old.reservation_id
      → get reservation_key old.reservation_id s.reservations ≡ some old
      → Outcome q (accept_evidence q e s) old res t r
      → IsPaid total r
  unfolding total
  paid res old r v g pending linked there o =
      let moved = accepted_total-accept q e s.now old.reservation_id s.evidences g pending in
      let before =
        All-get reservation_key (IsPaid (λ k. accepted_total k s.evidences)) _ old s.reservations
          v.money there in
      let same = o.slot.ident in
      let now = o.slot.paid in
      let hit : opt_eq e.reservation_id old.reservation_id ≡ true = ground arith in
      rw same (ground arith)

  pub linked-Inv :
      (res : SettlementResult) (old r : Reservation)
      → Inv s
      → get evidence_key e.evidence_id s.evidences ≡ some e
      → is_pending_review e.review_status ≡ true
      → e.reservation_id ≡ some old.reservation_id
      → get reservation_key old.reservation_id s.reservations ≡ some old
      → Outcome q (accept_evidence q e s) old res t r
      → Inv t
  unfolding total
  linked-Inv res old r v g pending linked there o =
      let f = o.stage.flushed in
      record {
        reservation_ids = rw f.rows (put-Unique reservation_key r s.reservations v.reservation_ids);
        evidence_ids =
            rw f.evidences
              (put-Unique evidence_key (accepted_row q e s.now) s.evidences v.evidence_ids);
        priced = rw f.rows (
            All-put reservation_key (λ x. 0 < x.price_cop) r s.reservations
              (rw o.slot.price (
                All-get reservation_key (λ x. 0 < x.price_cop) old.reservation_id old s.reservations
                  v.priced there))
              v.priced);
        no_double = rw f.plan o.stage.free;
        money =
            rw (f.rows, f.evidences)
              (IsPaid-put (λ k. accepted_total k s.evidences) total r s.reservations
                (λ j other. others old r linked o j other g pending)
                (paid res old r v g pending linked there o) v.reservation_ids v.money);
        funded =
            rw (f.rows, f.settings)
              (All-put reservation_key (IsFunded s.settings) r s.reservations o.funded v.funded);
      }
