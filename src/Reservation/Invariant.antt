-- ===== src/Reservation/Invariant.antt =====
-- What the rows of the booking side satisfy between transactions.
use chat_bot_ceiba.Common.{
  ℕ, ◌+◌, ◌≤◌, ◌<◌, ◌≡◌, sym, ◌∙◌, ◌⊎◌, inl, inr, Bool, false, ◌&&◌, some, List, [], ◌∷◌, arith,
  ◌==◌, ==_iff, opt_eq, or_else, if◌then◌else◌, All, Bool-cases,
}
use chat_bot_ceiba.Rows.Plan.{Plan}
use chat_bot_ceiba.Rows.Settings.{Settings}
use chat_bot_ceiba.Rows.Reservation.{Reservation, is_reserved}
use chat_bot_ceiba.Rows.Evidence.{PaymentEvidence, is_accepted}
use chat_bot_ceiba.Rows.Table.{get, put, Unique, All-put}
use chat_bot_ceiba.Reservation.Availability.Clash.{taken_by}
use chat_bot_ceiba.Reservation.Deposit.{round_deposit}
use chat_bot_ceiba.Reservation.Store.{Store, reservation_key, evidence_key}

-- Two reserved bookings that overlap and whose plans exclude each other.
abbrev pub clash : (ℕ → Plan) → Reservation → Reservation → Bool
clash plan r q =
    is_reserved r.status && taken_by (plan r.plan_id) r.starts_at r.ends_at (q, plan q.plan_id)

pub clash_symm :
    (plan : ℕ → Plan) (r q : Reservation) → clash plan r q ≡ false → clash plan q r ≡ false
clash_symm plan r q h = ground arith

abbrev pub NoDoubleBooking : (ℕ → Plan) → List Reservation → Type 0
NoDoubleBooking plan [] = Unit
NoDoubleBooking plan (r ∷ rs) = All (λ q. clash plan r q ≡ false) rs × NoDoubleBooking plan rs

-- A row may be written over another if it clashes with nothing in the table.
pub NoDoubleBooking-put :
    (plan : ℕ → Plan) (r : Reservation) (rs : List Reservation)
    → All (λ q. clash plan r q ≡ false) rs
    → NoDoubleBooking plan rs
    → NoDoubleBooking plan (put reservation_key r rs)
unfolding put
NoDoubleBooking-put plan r [] free h = tt
NoDoubleBooking-put plan r (q ∷ rs) free h =
    elim (Bool-cases (q.reservation_id == r.reservation_id)) [
      | inl e ↦ rw e (free.1, h.1)
      | inr e ↦ rw e (
        All-put reservation_key (λ t. clash plan q t ≡ false) r rs (clash_symm plan r q free.0) h.0,
        NoDoubleBooking-put plan r rs free.1 h.1,
      )
    ]

-- … or over a row that it does not differ from in what a clash looks at.
All-clash-put :
    (plan : ℕ → Plan) (q old r : Reservation) (rs : List Reservation)
    → get reservation_key r.reservation_id rs ≡ some old
    → ((t : Reservation) → clash plan t old ≡ false → clash plan t r ≡ false)
    → All (λ t. clash plan q t ≡ false) rs
    → All (λ t. clash plan q t ≡ false) (put reservation_key r rs)
unfolding get put
All-clash-put plan q old r [] g w h = tt
All-clash-put plan q old r (t ∷ rs) g w h =
    elim (Bool-cases (t.reservation_id == r.reservation_id)) [
      | inl e ↦ let same : t ≡ old = ground arith in rw e (w q (rw (← same) h.0), h.1)
      | inr e ↦ rw e (h.0, All-clash-put plan q old r rs (ground arith) w h.1)
    ]

All-clash-weaken :
    (plan : ℕ → Plan) (old r : Reservation) (rs : List Reservation)
    → ((t : Reservation) → clash plan t old ≡ false → clash plan t r ≡ false)
    → All (λ t. clash plan old t ≡ false) rs
    → All (λ t. clash plan r t ≡ false) rs
All-clash-weaken plan old r [] w h = tt
All-clash-weaken plan old r (t ∷ rs) w h =
    (clash_symm plan t r (w t (clash_symm plan old t h.0)), All-clash-weaken plan old r rs w h.1)

pub NoDoubleBooking-put_weaker :
    (plan : ℕ → Plan) (old r : Reservation) (rs : List Reservation)
    → get reservation_key r.reservation_id rs ≡ some old
    → ((t : Reservation) → clash plan t old ≡ false → clash plan t r ≡ false)
    → NoDoubleBooking plan rs
    → NoDoubleBooking plan (put reservation_key r rs)
unfolding get put
NoDoubleBooking-put_weaker plan old r [] g w h = tt
NoDoubleBooking-put_weaker plan old r (t ∷ rs) g w h =
    elim (Bool-cases (t.reservation_id == r.reservation_id)) [
      | inl e ↦
          let same : t ≡ old = ground arith in
          rw e (All-clash-weaken plan old r rs w (rw (← same) h.0), h.1)
      | inr e ↦
          let rest : get reservation_key r.reservation_id rs ≡ some old = ground arith in
          rw e (
            All-clash-put plan t old r rs rest w h.0,
            NoDoubleBooking-put_weaker plan old r rs rest w h.1,
          )
    ]

-- The money that accepted receipts have brought to a reservation.
abbrev pub contribution : ℕ → PaymentEvidence → ℕ
contribution k e =
    if opt_eq e.reservation_id k && is_accepted e.review_status then or_else e.amount_cop 0 else 0

abbrev pub accepted_total : ℕ → List PaymentEvidence → ℕ
accepted_total k [] = 0
accepted_total k (e ∷ es) = contribution k e + accepted_total k es

pub accepted_total-put :
    (k : ℕ) (old e : PaymentEvidence) (es : List PaymentEvidence)
    → get evidence_key e.evidence_id es ≡ some old
    → accepted_total k (put evidence_key e es) + contribution k old
      ≡ accepted_total k es + contribution k e
unfolding get put
accepted_total-put k old e [] g = cc
accepted_total-put k old e (x ∷ es) g = elim (Bool-cases (x.evidence_id == e.evidence_id)) [
  | inl same ↦ let it : x ≡ old = ground arith in rw (same, it) (omega arith)
  | inr other ↦ rw other (omega (arith, accepted_total-put k old e es (ground arith)))
]

abbrev pub IsPaid : (ℕ → ℕ) → Reservation → Type 0
IsPaid total r = r.amount_paid_cop ≡ total r.reservation_id

IsPaid-others :
    (k : ℕ) (f g : ℕ → ℕ) (rs : List Reservation)
    → ((j : ℕ) → (k == j) ≡ false → g j ≡ f j)
    → All (λ r. (r.reservation_id == k) ≡ false) rs
    → All (IsPaid f) rs
    → All (IsPaid g) rs
IsPaid-others k f g [] same other h = tt
IsPaid-others k f g (r ∷ rs) same other h =
    (h.0 ∙ sym (same r.reservation_id (ground arith)), IsPaid-others k f g rs same other.1 h.1)

-- One row's new amount goes with that row's new total, where the others' totals stay.
pub IsPaid-put :
    (f g : ℕ → ℕ) (r : Reservation) (rs : List Reservation)
    → ((j : ℕ) → (r.reservation_id == j) ≡ false → g j ≡ f j)
    → IsPaid g r
    → Unique reservation_key rs
    → All (IsPaid f) rs
    → All (IsPaid g) (put reservation_key r rs)
unfolding put
IsPaid-put f g r [] same p u h = tt
IsPaid-put f g r (q ∷ rs) same p u h = elim (Bool-cases (q.reservation_id == r.reservation_id)) [
  | inl e ↦
      let it : q.reservation_id ≡ r.reservation_id = (==_iff _ _).0 e in
      rw e (p, IsPaid-others r.reservation_id f g rs same (rw it at u.0) h.1)
  | inr e ↦
      rw e (h.0 ∙ sym (same q.reservation_id (ground arith)), IsPaid-put f g r rs same p u.1 h.1)
]

-- A reserved booking has at least its deposit.
abbrev pub IsFunded : Settings → Reservation → Type 0
IsFunded s r =
    (is_reserved r.status ≡ false)
    ⊎ (round_deposit s.booking_deposit_percent r.price_cop ≤ r.amount_paid_cop)

pub record Inv (s : Store) : Type 0 where
  pub reservation_ids : Unique reservation_key s.reservations
  pub evidence_ids : Unique evidence_key s.evidences
  pub priced : All (λ r. 0 < r.price_cop) s.reservations
  pub no_double : NoDoubleBooking s.plan s.reservations
  pub money : All (IsPaid (λ k. accepted_total k s.evidences)) s.reservations
  pub funded : All (IsFunded s.settings) s.reservations
