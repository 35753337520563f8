-- ===== src/Reservation/Settlement/Accept.antt =====
-- The acceptance of a receipt keeps the invariant, counts the money once, and reports what it did.
use chat_bot_ceiba.Common.{
  ℕ, ◌+◌, ◌-◌, ◌≤◌, ◌<◌, ◌≡◌, refl, ap, ◌⊎◌, inl, inr, true, false, some, List, [], ◌∷◌, String, ok,
  arith, if◌then◌else◌, ◌==◌, ==_iff, is_empty, Bool-cases, Result-cases, ◌>>=◌,
}
use chat_bot_ceiba.Rows.Settings.{Settings}
use chat_bot_ceiba.Rows.Reservation.{Reservation, reserved, is_reserved, full}
use chat_bot_ceiba.Rows.Blocker.{BookingBlocker}
use chat_bot_ceiba.Rows.Audit.{AuditEvent}
use chat_bot_ceiba.Rows.Table.{get}
use chat_bot_ceiba.Reservation.Availability.{Unicode}
use chat_bot_ceiba.Reservation.Deposit.{deposit_amount, round_deposit}
use chat_bot_ceiba.Reservation.Invariant.{NoDoubleBooking, NoDoubleBooking-put_weaker, IsFunded}
use chat_bot_ceiba.Reservation.Store.{Store, put_reservation, reservation_key, add_audit}
use chat_bot_ceiba.Reservation.Booking.{move_to_review}
use chat_bot_ceiba.Reservation.Settlement.{
  SettlementKind, settled_reserved, partial, conflict, no_reservation, balance_paid,
  balance_partial, SettlementResult, Acceptance, add_amount, close_balance, settle_balance,
  settle_complete, settle_partial, settle_reviewed, settle_deposit, finish,
}
use chat_bot_ceiba.Reservation.Settlement.Flush.{
  Flushed, Flushed-put, SameSlot, SameSlot-trans, move_to_review-Flushed,
}
use chat_bot_ceiba.Reservation.Settlement.Slot.{
  Stage, settle_complete-Stage, unreserved-Stage, settle_partial-Stage,
}

-- What each kind of result says of the reservation that it carries.
abbrev pub KindFits : Settings → SettlementResult → Reservation → SettlementKind → Type 0
KindFits s res r settled_reserved =
    (r.status ≡ reserved) × (res.missing_cop ≡ 0) × (res.blockers ≡ [])
KindFits s res r conflict =
    (is_reserved r.status ≡ false) × (res.missing_cop ≡ 0) × (is_empty res.blockers ≡ false)
KindFits s res r partial =
    (is_reserved r.status ≡ false)
    × (0 < res.missing_cop)
    × (r.amount_paid_cop + res.missing_cop ≡ round_deposit s.booking_deposit_percent r.price_cop)
KindFits s res r balance_paid =
    (is_reserved r.status ≡ true)
    × (res.missing_cop ≡ 0)
    × (r.price_cop ≤ r.amount_paid_cop)
    × (r.payment_kind ≡ some full)
KindFits s res r balance_partial =
    (is_reserved r.status ≡ true)
    × (0 < res.missing_cop)
    × (r.amount_paid_cop + res.missing_cop ≡ r.price_cop)
KindFits s res r no_reservation = ⊥

-- The branch for a linked reservation, whose row was `old`, has left the row `r`.
pub record Outcome (q : Acceptance) (s : Store) (old : Reservation) (res : SettlementResult)
    (t : Store) (r : Reservation) : Type 0 where
  pub stage : Stage s t r
  pub slot : SameSlot (add_amount q old) r
  pub funded : IsFunded s.settings r
  pub shown : res.reservation ≡ some r
  pub fits : KindFits s.settings res r res.kind

pub settle_balance-Outcome :
    (q : Acceptance) (old : Reservation) (s : Store)
    → NoDoubleBooking s.plan s.reservations
    → get reservation_key old.reservation_id s.reservations ≡ some old
    → is_reserved old.status ≡ true
    → IsFunded s.settings old
    → Outcome q s old
        (settle_balance q old s).0
        (settle_balance q old s).1
        (close_balance (add_amount q old))
unfolding settle_balance
settle_balance-Outcome q old s h g taken f = record {
  stage = record {
    flushed = record { rows = refl; evidences = refl; settings = refl; plan = refl; now = refl };
    free =
        NoDoubleBooking-put_weaker s.plan old (close_balance (add_amount q old)) s.reservations
          (ground arith) (λ x k. ground arith) h;
  };
  slot = ground arith;
  funded = ground arith;
  shown = refl;
  fits = ground arith;
}

deposit_amount-eq :
    (s : Settings) (price d : ℕ)
    → deposit_amount s price ≡ ok d
    → d ≡ round_deposit s.booking_deposit_percent price
unfolding deposit_amount
deposit_amount-eq s price d h = ground arith

complete_fits :
    (s : Settings) (r r' : Reservation) (bs : List BookingBlocker) (missing : ℕ)
    → is_reserved r.status ≡ false
    → missing ≡ 0
    → ((is_empty bs ≡ false) × (r' ≡ r)) ⊎ ((bs ≡ []) × (r'.status ≡ reserved))
    → let kind = if is_empty bs then settled_reserved else conflict in
      KindFits s
        (record { kind = kind; reservation = some r'; missing_cop = missing; blockers = bs })
        r'
        kind
complete_fits s r r' [] missing idle enough (inl (blocked, it)) = cc
complete_fits s r r' [] missing idle enough (inr (clear, taken)) = (taken, enough, refl)
complete_fits s r r' (b ∷ bs) missing idle enough (inl (blocked, it)) = (rw it idle, enough, refl)
complete_fits s r r' (b ∷ bs) missing idle enough (inr (clear, taken)) = cc

-- An event in the trail changes no row.
Stage-audit :
    (s t : Store) (r : Reservation) (e : AuditEvent) → Stage s t r → Stage s (add_audit e t) r
Stage-audit s t r e st = record {
  flushed = record {
    rows = st.flushed.rows;
    evidences = st.flushed.evidences;
    settings = st.flushed.settings;
    plan = st.flushed.plan;
    now = st.flushed.now;
  };
  free = st.free;
}

module _ (u : Unicode) (q : Acceptance) (old : Reservation) (s : Store) where
  -- The deposit is complete.
  complete-Outcome :
      (r : Reservation) (t : Store) (d : ℕ) (res : SettlementResult) (t' : Store)
      → Stage s t r
      → SameSlot (add_amount q old) r
      → is_reserved r.status ≡ false
      → d ≡ round_deposit s.settings.booking_deposit_percent r.price_cop
      → d - r.amount_paid_cop ≡ 0
      → (settle_complete u q r t >>= λ m. ok (
          finish q old
            (if is_empty m.0 then settled_reserved else conflict)
            (d - r.amount_paid_cop)
            m.0
            m.1
            m.2))
        ≡ ok (res, t')
      → (r' : Reservation) × Outcome q s old res t' r'
  complete-Outcome r t d res t' st slot idle exact enough h =
      elim (Result-cases (settle_complete u q r t)) [
        | inl (e, raised) ↦ ground arith
        | inr (m, done) ↦
            let (stage, same, how) = settle_complete-Stage u q r s t m st done in
            let out =
              finish q old (if is_empty m.0 then settled_reserved else conflict)
                (d - r.amount_paid_cop) m.0 m.1 m.2 in
            let shown : out.0 ≡ res = ground arith in
            let left : out.1 ≡ t' = ground arith in
            (
              m.1,
              rw (← shown, ← left)
                  (record {
                    stage = Stage-audit s m.2 m.1 _ stage;
                    slot = SameSlot-trans (add_amount q old) r m.1 slot same;
                    funded = inr (
                        omega (
                          arith,
                          ap (round_deposit s.settings.booking_deposit_percent) same.price,
                        ));
                    shown = refl;
                    fits =
                        complete_fits s.settings r m.1 m.0 (d - r.amount_paid_cop) idle enough how;
                  }),
            )
      ]

  -- The deposit is not complete.
  partial-Outcome :
      (r : Reservation) (t : Store) (d : ℕ) (res : SettlementResult) (t' : Store)
      → NoDoubleBooking s.plan s.reservations
      → get reservation_key old.reservation_id s.reservations ≡ some old
      → Flushed s t r
      → SameSlot (add_amount q old) r
      → is_reserved r.status ≡ false
      → d ≡ round_deposit s.settings.booking_deposit_percent r.price_cop
      → 0 < d - r.amount_paid_cop
      → (settle_partial q r t >>= λ m. ok (finish q old partial (d - r.amount_paid_cop) [] m.0 m.1))
        ≡ ok (res, t')
      → (r' : Reservation) × Outcome q s old res t' r'
  partial-Outcome r t d res t' free g f slot idle exact short h =
      elim (Result-cases (settle_partial q r t)) [
        | inl (e, raised) ↦ ground arith
        | inr (m, done) ↦
            let (stage, same, down, how) =
              settle_partial-Stage q old r s t m free (rw slot.ident g) idle f done in
            let out = finish q old partial (d - r.amount_paid_cop) [] m.0 m.1 in
            let shown : out.0 ≡ res = ground arith in
            let left : out.1 ≡ t' = ground arith in
            (
              m.0,
              rw (← shown, ← left)
                  (record {
                    stage = Stage-audit s m.1 m.0 _ stage;
                    slot = SameSlot-trans (add_amount q old) r m.0 slot same;
                    funded = inl down;
                    shown = refl;
                    fits = (
                      down,
                      short,
                      omega (
                        arith,
                        same.price,
                        ap (round_deposit s.settings.booking_deposit_percent) same.price,
                      ),
                    );
                  }),
            )
      ]

  settle_reviewed-Outcome :
      (r : Reservation) (s' : Store) (res : SettlementResult) (t : Store)
      → NoDoubleBooking s.plan s.reservations
      → get reservation_key old.reservation_id s.reservations ≡ some old
      → Flushed s s' r
      → SameSlot (add_amount q old) r
      → is_reserved r.status ≡ false
      → settle_reviewed u q old r s' ≡ ok (res, t)
      → (r' : Reservation) × Outcome q s old res t r'
  unfolding settle_reviewed
  settle_reviewed-Outcome r s' res t free g f slot idle h =
      elim (Result-cases (deposit_amount s'.settings r.price_cop)) [
        | inl (e, raised) ↦ ground arith
        | inr (d, priced) ↦
            let exact : d ≡ round_deposit s.settings.booking_deposit_percent r.price_cop =
              rw (← f.settings) (deposit_amount-eq s'.settings r.price_cop d priced) in
            elim (Bool-cases (d - r.amount_paid_cop == 0)) [
              | inl enough ↦
                  complete-Outcome r s' d res t
                    (unreserved-Stage s s' old r free (rw slot.ident g) idle f) slot idle exact
                    ((==_iff _ _).0 enough) (rw (priced, enough) at h)
              | inr short ↦
                  partial-Outcome r s' d res t free g f slot idle exact (ground arith)
                    (rw (priced, short) at h)
            ]
      ]

  pub settle_deposit-Outcome :
      (res : SettlementResult) (t : Store)
      → NoDoubleBooking s.plan s.reservations
      → get reservation_key old.reservation_id s.reservations ≡ some old
      → is_reserved old.status ≡ false
      → settle_deposit u q old s ≡ ok (res, t)
      → (r' : Reservation) × Outcome q s old res t r'
  unfolding settle_deposit
  settle_deposit-Outcome res t free g idle h =
      let reason : String = "Liquidación humana de comprobante vinculado" in
      let s₁ = put_reservation (add_amount q old) s in
      elim (Result-cases (move_to_review (add_amount q old) q.actor reason s₁)) [
        | inl (e, raised) ↦ ground arith
        | inr (m, moved) ↦
            let (f, slot, how) =
              move_to_review-Flushed (add_amount q old) q.actor reason s s₁ m.0 m.1
                (Flushed-put s (add_amount q old)) moved in
            let down : is_reserved m.0.status ≡ false = ground arith in
            settle_reviewed-Outcome m.0 m.1 res t free g f slot down (rw moved at h)
      ]
