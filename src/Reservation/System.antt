-- ===== src/Reservation/System.antt =====
-- The booking side as a whole: any sequence of its transactions, each on the rows that the last one left.
-- A transaction that raises is rolled back and leaves no step.
use chat_bot_ceiba.Common.{Bool, ℕ, ◌+◌, ◌<◌, ◌≡◌, refl, false, none, some, Option, String, ok}
use chat_bot_ceiba.Rows.Reservation.{Reservation}
use chat_bot_ceiba.Rows.Evidence.{PaymentEvidence, is_accepted}
use chat_bot_ceiba.Rows.Table.{get}
use chat_bot_ceiba.Reservation.Availability.{Unicode}
use chat_bot_ceiba.Reservation.Invariant.{Inv, accepted_total}
use chat_bot_ceiba.Reservation.Keeping.{Inv-same}
use chat_bot_ceiba.Reservation.Store.{Store, reservation_key, evidence_key}
use chat_bot_ceiba.Reservation.Window.{Datetime}
use chat_bot_ceiba.Reservation.Booking.{
  BookingRequest, Event, create_pending_reservation, attach_payment_evidence,
}
use chat_bot_ceiba.Reservation.Booking.Request.{create_pending_reservation-Inv}
use chat_bot_ceiba.Reservation.Booking.Link.{attach_payment_evidence-Inv}
use chat_bot_ceiba.Reservation.Settlement.{
  SettlementResult, Acceptance, accept_payment, reject_payment, expire_pending_reservations,
}
use chat_bot_ceiba.Reservation.Settlement.Ledger.{accept_payment-Inv, reject_payment-Inv}
use chat_bot_ceiba.Reservation.Settlement.Expiry.{expire_pending_reservations-Inv}

pub data Step (u : Unicode) (s : Store) : Store → Type 0 where
  waits : (n : ℕ) → Step u s (record s { now = s.now + n })
  requests :
      {t : Store} (q : BookingRequest) (r : Reservation) (v : Event)
      → get reservation_key q.reservation_id s.reservations ≡ none
      → accepted_total q.reservation_id s.evidences ≡ 0
      → 0 < q.plan.price_cop
      → create_pending_reservation q s ≡ ok (r, v, t)
      → Step u s t
  attaches :
      {t : Store} (e : PaymentEvidence) (row : Option Reservation)
      → get evidence_key e.evidence_id s.evidences ≡ some e
      → is_accepted e.review_status ≡ false
      → attach_payment_evidence e s ≡ ok (row, t)
      → Step u s t
  accepts :
      {t : Store} (q : Acceptance) (e : PaymentEvidence) (res : SettlementResult)
      → get evidence_key e.evidence_id s.evidences ≡ some e
      → accept_payment u q e s ≡ ok (res, t)
      → Step u s t
  rejects :
      {t : Store} (e : PaymentEvidence) (actor note : String) (row : Option Reservation)
      → get evidence_key e.evidence_id s.evidences ≡ some e
      → reject_payment e actor note s ≡ ok (row, t)
      → Step u s t
  expires :
      {t : Store} (busy : ℕ → Bool) (now : Datetime) (n : ℕ)
      → expire_pending_reservations busy now s ≡ ok (n, t)
      → Step u s t

pub data Reach (u : Unicode) (s : Store) : Store → Type 0 where
  start : Reach u s s
  next : {t t' : Store} → Reach u s t → Step u t t' → Reach u s t'

Step-Inv : {u : Unicode} {s t : Store} → Step u s t → Inv s → Inv t
Step-Inv {s = s} (waits n) v = Inv-same s _ refl refl refl refl v
Step-Inv (requests q r e fresh unpaid price h) v =
    create_pending_reservation-Inv q _ r e _ v fresh unpaid price h
Step-Inv (attaches e row there unaccepted h) v =
    attach_payment_evidence-Inv e _ row _ v there unaccepted h
Step-Inv (accepts q e res there h) v = accept_payment-Inv _ q e _ res _ v there h
Step-Inv (rejects e actor note row there h) v =
    (reject_payment-Inv e actor note _ row _ v there h).0
Step-Inv (expires busy now n h) v = expire_pending_reservations-Inv busy now _ _ n v h

-- Whatever requests with new ids and priced plans, links of receipts that are not accepted,
-- acceptances, rejections and sweeps return one after the other, rows that satisfied the invariant
-- still do: no two reserved bookings exclude each other, every reservation's paid amount is the sum
-- of its accepted receipts, and every reserved booking has at least its deposit.
pub Reach-Inv : (u : Unicode) (s t : Store) → Reach u s t → Inv s → Inv t
Reach-Inv u s _ start v = v
Reach-Inv u s t (next r step) v = Step-Inv step (Reach-Inv u s _ r v)
