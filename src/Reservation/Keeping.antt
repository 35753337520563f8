-- ===== src/Reservation/Keeping.antt =====
-- Writes of one row that keep the invariant of the rows, whichever operation makes them.
use chat_bot_ceiba.Common.{◌<◌, ◌≡◌, inl, false, some, arith, All-weaken}
use chat_bot_ceiba.Rows.Reservation.{Reservation, is_reserved}
use chat_bot_ceiba.Rows.Evidence.{PaymentEvidence, is_accepted}
use chat_bot_ceiba.Rows.Table.{get, put, put-Unique, All-put, All-get}
use chat_bot_ceiba.Reservation.Invariant.{
  Inv, NoDoubleBooking-put_weaker, IsPaid, IsFunded, contribution, accepted_total,
  accepted_total-put,
}
use chat_bot_ceiba.Reservation.Store.{Store, put_evidence, reservation_key, evidence_key}
use chat_bot_ceiba.Reservation.Settlement.Flush.{Flushed, SameSlot}

-- The invariant reads the plans, the settings and the two tables.
pub Inv-same :
    (s t : Store)
    → t.settings ≡ s.settings
    → t.plan ≡ s.plan
    → t.reservations ≡ s.reservations
    → t.evidences ≡ s.evidences
    → Inv s
    → Inv t
Inv-same s t settings plan rows evidences v = record {
  reservation_ids = rw rows v.reservation_ids;
  evidence_ids = rw evidences v.evidence_ids;
  priced = rw rows v.priced;
  no_double = rw (rows, plan) v.no_double;
  money = rw (rows, evidences) v.money;
  funded = rw (rows, settings) v.funded;
}

-- A receipt that is not accepted may be rewritten, as long as it stays so.
pub unaccepted-Inv :
    (old e : PaymentEvidence) (s : Store)
    → Inv s
    → get evidence_key e.evidence_id s.evidences ≡ some old
    → is_accepted old.review_status ≡ false
    → is_accepted e.review_status ≡ false
    → Inv (put_evidence e s)
unaccepted-Inv old e s v there before after = record {
  reservation_ids = v.reservation_ids;
  evidence_ids = put-Unique evidence_key e s.evidences v.evidence_ids;
  priced = v.priced;
  no_double = v.no_double;
  money =
      All-weaken (IsPaid (λ k. accepted_total k s.evidences))
        (IsPaid (λ k. accepted_total k (put evidence_key e s.evidences))) s.reservations
        (λ r paid.
          let moved = accepted_total-put r.reservation_id old e s.evidences there in
          let was : contribution r.reservation_id old ≡ 0 = ground arith in
          let is : contribution r.reservation_id e ≡ 0 = ground arith in omega arith)
        v.money;
  funded = v.funded;
}

-- A row that is not reserved after a flush, with its facts and its money as they were.
pub Flushed-Inv :
    (s t : Store) (old r : Reservation)
    → Inv s
    → get reservation_key old.reservation_id s.reservations ≡ some old
    → Flushed s t r
    → SameSlot old r
    → is_reserved r.status ≡ false
    → Inv t
Flushed-Inv s t old r v there f slot idle =
    let it = slot.ident in
    let found : get reservation_key r.reservation_id s.reservations ≡ some old = rw it there in
    let price =
      All-get reservation_key (λ x. 0 < x.price_cop) _ old s.reservations v.priced there in
    let paid =
      All-get reservation_key (IsPaid (λ k. accepted_total k s.evidences)) _ old s.reservations
        v.money there in
    record {
      reservation_ids = rw f.rows (put-Unique reservation_key r s.reservations v.reservation_ids);
      evidence_ids = rw f.evidences v.evidence_ids;
      priced = rw f.rows (
          All-put reservation_key (λ x. 0 < x.price_cop) r s.reservations (rw slot.price price)
            v.priced);
      no_double =
          rw (f.rows, f.plan)
            (NoDoubleBooking-put_weaker s.plan old r s.reservations found (λ x clear. ground arith)
              v.no_double);
      money =
          rw (f.rows, f.evidences)
            (All-put reservation_key (IsPaid (λ k. accepted_total k s.evidences)) r s.reservations
              (rw (slot.paid, slot.ident) paid) v.money);
      funded =
          rw (f.rows, f.settings)
            (All-put reservation_key (IsFunded s.settings) r s.reservations (inl idle) v.funded);
    }
