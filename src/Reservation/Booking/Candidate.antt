-- ===== src/Reservation/Booking/Candidate.antt =====
-- Which reservation of a customer a receipt is for.
use chat_bot_ceiba.Common.{
  ℕ, ltb, sym, ap, subst, ◌∙◌, All-weaken, ◌≤◌, ◌<◌, ◌≡◌, refl, ◌⊎◌, inl, inr, true, false, Option,
  none, some, List, [], ◌∷◌, arith, All, Bool-cases, Option-cases, ◌==◌, ==_refl,
}
use mathlib.Core.List.{Mem, mem-cons_self, mem-cons_of_mem}
use chat_bot_ceiba.Rows.Reservation.{
  Reservation, ReservationStatus, payment_review, payment_pending, reserved, expired, cancelled,
  is_payment_review, is_payment_pending, is_reserved,
}
use chat_bot_ceiba.Rows.Table.{get, Unique}
use chat_bot_ceiba.Reservation.Booking.{
  priority, awaits_payment, is_candidate, precedes, payment_reservation_candidate,
}

precedes_refl : (r : Reservation) → precedes r r ≡ true
unfolding precedes
precedes_refl r = ground arith

precedes_total : (r q : Reservation) → precedes r q ≡ false → precedes q r ≡ true
unfolding precedes
precedes_total r q h = ground arith

precedes_trans :
    (r q t : Reservation) → precedes r q ≡ true → precedes q t ≡ true → precedes r t ≡ true
unfolding precedes
precedes_trans r q t h k = ground arith

-- A receipt of the customer can be for the reservation: it is the customer's, starts later than now, and is in review,
-- waits for a payment, or is reserved with a balance.
pub record Awaits (c now : ℕ) (r : Reservation) : Type 0 where
  pub own : r.customer_id ≡ c
  pub future : now < r.starts_at
  pub payable :
      (r.status ≡ payment_review)
      ⊎ ((r.status ≡ payment_pending) ⊎ ((r.status ≡ reserved) × (r.amount_paid_cop < r.price_cop)))

-- Of two such reservations the first is at least as good a choice.
pub data IsPreferred (r q : Reservation) : Type 0 where
  review_over_pending : r.status ≡ payment_review → q.status ≡ payment_pending → IsPreferred r q
  review_over_reserved : r.status ≡ payment_review → q.status ≡ reserved → IsPreferred r q
  pending_over_reserved : r.status ≡ payment_pending → q.status ≡ reserved → IsPreferred r q
  newer : r.status ≡ q.status → q.created_at < r.created_at → IsPreferred r q
  greater_id :
      r.status ≡ q.status
      → r.created_at ≡ q.created_at
      → q.reservation_id ≤ r.reservation_id
      → IsPreferred r q

abbrev pub IsBest : ℕ → ℕ → List Reservation → Option Reservation → Type 0
IsBest c now rs none = All (λ r. ¬ Awaits c now r) rs
IsBest c now rs (some r) =
    Mem r rs × Awaits c now r × All (λ q. (¬ Awaits c now q) ⊎ IsPreferred r q) rs

-- The status of a reservation.
Status-cases :
    (s : ReservationStatus)
    → (s ≡ payment_review)
      ⊎ ((s ≡ payment_pending)
          ⊎ ((s ≡ reserved)
              ⊎ ((is_payment_review s ≡ false)
                  × (is_payment_pending s ≡ false)
                  × (is_reserved s ≡ false))))
Status-cases payment_review = inl refl
Status-cases payment_pending = inr (inl refl)
Status-cases reserved = inr (inr (inl refl))
Status-cases expired = inr (inr (inr (refl, refl, refl)))
Status-cases cancelled = inr (inr (inr (refl, refl, refl)))

awaits-payable :
    (r : Reservation)
    → awaits_payment r ≡ true
    → (r.status ≡ payment_review)
      ⊎ ((r.status ≡ payment_pending) ⊎ ((r.status ≡ reserved) × (r.amount_paid_cop < r.price_cop)))
awaits-payable r h = elim (Status-cases r.status) [
  | inl review ↦ inl review
  | inr (inl pending) ↦ inr (inl pending)
  | inr (inr (inl booked)) ↦ inr (inr (booked, ground arith))
  | inr (inr (inr others)) ↦ absurd (ground arith)
]

payable-awaits :
    (r : Reservation)
    → (r.status ≡ payment_review)
      ⊎ ((r.status ≡ payment_pending) ⊎ ((r.status ≡ reserved) × (r.amount_paid_cop < r.price_cop)))
    → awaits_payment r ≡ true
payable-awaits r (inl review) = rw (awaits_payment, review) refl
payable-awaits r (inr (inl pending)) = rw (awaits_payment, pending) refl
payable-awaits r (inr (inr (booked, less))) = rw (awaits_payment, booked) (ground arith)

candidate-Awaits : (c now : ℕ) (r : Reservation) → is_candidate c now r ≡ true → Awaits c now r
candidate-Awaits c now r h = record {
  own = ground arith;
  future = ground arith;
  payable = awaits-payable r (ground arith);
}

Awaits-candidate : (c now : ℕ) (r : Reservation) → Awaits c now r → is_candidate c now r ≡ true
Awaits-candidate c now r a =
    let may = payable-awaits r a.payable in ground (arith, a.own, a.future, may)

tie : (r q : Reservation) → r.status ≡ q.status → precedes r q ≡ true → IsPreferred r q
unfolding precedes
tie r q same h = elim (Bool-cases (ltb q.created_at r.created_at)) [
  | inl later ↦ newer same (ground arith)
  | inr not_later ↦
      let equal : priority r.status ≡ priority q.status = ap priority same in
      greater_id same (ground arith) (ground arith)
]

precedes-IsPreferred :
    (c now : ℕ) (r q : Reservation)
    → Awaits c now r
    → Awaits c now q
    → precedes r q ≡ true
    → IsPreferred r q
unfolding precedes
precedes-IsPreferred c now r q a b h = elim a.payable [
  | inl review ↦ elim b.payable [
    | inl review' ↦ tie r q (review ∙ sym review') h
    | inr (inl pending) ↦ review_over_pending review pending
    | inr (inr (booked, less)) ↦ review_over_reserved review booked
  ]
  | inr (inl pending) ↦ elim b.payable [
    | inl review ↦ absurd (ground arith)
    | inr (inl pending') ↦ tie r q (pending ∙ sym pending') h
    | inr (inr (booked, less)) ↦ pending_over_reserved pending booked
  ]
  | inr (inr (booked, less)) ↦ elim b.payable [
    | inl review ↦ absurd (ground arith)
    | inr (inl pending) ↦ absurd (ground arith)
    | inr (inr (booked', less')) ↦ tie r q (booked ∙ sym booked') h
  ]
]

no-Awaits : (c now : ℕ) (r : Reservation) → is_candidate c now r ≡ false → ¬ Awaits c now r
no-Awaits c now r h a = let fits = Awaits-candidate c now r a in ground arith

preferred :
    (c now : ℕ) (r q : Reservation)
    → Awaits c now r
    → (is_candidate c now q ≡ false) ⊎ (precedes r q ≡ true)
    → (¬ Awaits c now q) ⊎ IsPreferred r q
preferred c now r q mine (inl unfit) = inl (no-Awaits c now q unfit)
preferred c now r q mine (inr before) = elim (Bool-cases (is_candidate c now q)) [
  | inr unfit ↦ inl (no-Awaits c now q unfit)
  | inl fits ↦ inr (precedes-IsPreferred c now r q mine (candidate-Awaits c now q fits) before)
]

choice-none :
    (c now : ℕ) (rs : List Reservation)
    → All (λ r. is_candidate c now r ≡ false) rs
    → All (λ r. ¬ Awaits c now r) rs
choice-none c now rs h =
    All-weaken (λ r. is_candidate c now r ≡ false) (λ r. ¬ Awaits c now r) rs
      (λ r e. no-Awaits c now r e) h

-- The chosen row is a candidate, and stands before every candidate of the list.
abbrev pub IsChoice : ℕ → ℕ → List Reservation → Option Reservation → Type 0
IsChoice c now rs none = All (λ r. is_candidate c now r ≡ false) rs
IsChoice c now rs (some r) =
    (is_candidate c now r ≡ true)
    × All (λ q. (is_candidate c now q ≡ false) ⊎ (precedes r q ≡ true)) rs

All-after :
    (c now : ℕ) (r q : Reservation) (rs : List Reservation)
    → precedes r q ≡ true
    → All (λ t. (is_candidate c now t ≡ false) ⊎ (precedes q t ≡ true)) rs
    → All (λ t. (is_candidate c now t ≡ false) ⊎ (precedes r t ≡ true)) rs
All-after c now r q [] h all = tt
All-after c now r q (t ∷ rs) h all =
    (ground (arith, precedes_trans r q t), All-after c now r q rs h all.1)

All-none :
    (c now : ℕ) (r : Reservation) (rs : List Reservation)
    → All (λ t. is_candidate c now t ≡ false) rs
    → All (λ t. (is_candidate c now t ≡ false) ⊎ (precedes r t ≡ true)) rs
All-none c now r [] h = tt
All-none c now r (t ∷ rs) h = (inl h.0, All-none c now r rs h.1)

pub candidate-IsChoice :
    (c now : ℕ) (rs : List Reservation) → IsChoice c now rs (payment_reservation_candidate c now rs)
unfolding payment_reservation_candidate
candidate-IsChoice c now [] = tt
candidate-IsChoice c now (r ∷ rs) =
    with_rest (payment_reservation_candidate c now rs) refl (candidate-IsChoice c now rs)
      (Bool-cases (is_candidate c now r))
  where
    with_rest :
        (best : Option Reservation)
        → payment_reservation_candidate c now rs ≡ best
        → IsChoice c now rs best
        → (is_candidate c now r ≡ true) ⊎ (is_candidate c now r ≡ false)
        → IsChoice c now (r ∷ rs) (payment_reservation_candidate c now (r ∷ rs))
    with_rest none e h (inl fits) =
        rw (fits, e) (fits, (inr (precedes_refl r), All-none c now r rs h))
    with_rest none e h (inr unfit) = rw (unfit, e) (unfit, h)
    with_rest (some q) e h (inr unfit) = rw (unfit, e) (h.0, (inl unfit, h.1))
    with_rest (some q) e h (inl fits) = elim (Bool-cases (precedes r q)) [
      | inl before ↦
          rw (fits, e, before) (fits, (inr (precedes_refl r), All-after c now r q rs before h.1))
      | inr after ↦ rw (fits, e, after) (h.0, (inr (precedes_total r q after), h.1))
    ]

module _ (c now : ℕ) where
  candidate-cons :
      (r q : Reservation) (rs : List Reservation)
      → payment_reservation_candidate c now (q ∷ rs) ≡ some r
      → (r ≡ q) ⊎ (payment_reservation_candidate c now rs ≡ some r)
  unfolding payment_reservation_candidate
  candidate-cons r q rs h = elim (Option-cases (payment_reservation_candidate c now rs)) [
    | inl e ↦ inl (ground arith)
    | inr (t, e) ↦ ground arith
  ]

candidate-Mem :
    (c now : ℕ) (rs : List Reservation) (r : Reservation)
    → payment_reservation_candidate c now rs ≡ some r
    → Mem r rs
candidate-Mem c now [] r h = unfold payment_reservation_candidate in cc
candidate-Mem c now (q ∷ rs) r h = elim (candidate-cons c now r q rs h) [
  | inl same ↦ subst (λ x. Mem x (q ∷ rs)) (sym same) mem-cons_self
  | inr later ↦ mem-cons_of_mem q (candidate-Mem c now rs r later)
]

-- The query's row for a customer and a time: when it returns none, no row of the table is a reservation of the customer
-- in the future that is in review, waits for a payment or is reserved with a balance. When it returns a row, that row is
-- in the table, is such a reservation, and is preferred to every other one: a row in review to a pending one, both to a
-- reserved one, and among rows of one status the newest, among the newest the greatest id.
pub candidate-IsBest :
    (c now : ℕ) (rs : List Reservation) → IsBest c now rs (payment_reservation_candidate c now rs)
candidate-IsBest c now rs = elim (Option-cases (payment_reservation_candidate c now rs)) [
  | inl nobody ↦
      subst (IsBest c now rs) (sym nobody)
        (choice-none c now rs (subst (IsChoice c now rs) nobody (candidate-IsChoice c now rs)))
  | inr (r, chosen) ↦
      let (fits, first) = subst (IsChoice c now rs) chosen (candidate-IsChoice c now rs) in
      let mine = candidate-Awaits c now r fits in
      subst (IsBest c now rs) (sym chosen) (
        candidate-Mem c now rs r chosen,
        mine,
        All-weaken _ (λ q. (¬ Awaits c now q) ⊎ IsPreferred r q) rs
            (λ q e. preferred c now r q mine e) first,
      )
]

abbrev id_of : Reservation → ℕ
id_of r = r.reservation_id

module _ (c now : ℕ) where
  fresh_key :
      (k : ℕ) (r : Reservation) (rs : List Reservation)
      → All (λ q. (id_of q == k) ≡ false) rs
      → payment_reservation_candidate c now rs ≡ some r
      → (r.reservation_id == k) ≡ false
  fresh_key k r [] h e = unfold payment_reservation_candidate in cc
  fresh_key k r (q ∷ rs) h e = elim (candidate-cons c now r q rs e) [
    | inl same ↦ rw same h.0
    | inr later ↦ fresh_key k r rs h.1 later
  ]

  -- The chosen row is the one that its id names.
  pub get-candidate :
      (r : Reservation) (rs : List Reservation)
      → Unique id_of rs
      → payment_reservation_candidate c now rs ≡ some r
      → get id_of r.reservation_id rs ≡ some r
  unfolding get
  get-candidate r [] u e = unfold payment_reservation_candidate in cc
  get-candidate r (q ∷ rs) u e = elim (candidate-cons c now r q rs e) [
    | inl same ↦ rw same (ground (arith, ==_refl q.reservation_id))
    | inr later ↦
        ground (arith, fresh_key q.reservation_id r rs u.0 later, get-candidate r rs u.1 later)
  ]
