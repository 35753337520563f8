-- ===== src/Reservation/Settlement/Expiry.antt =====
-- `expire_pending_reservations`: what the sweep does to the rows.
use chat_bot_ceiba.Common.{
  ℕ, ◌≡◌, refl, ◌&&◌, sym, subst, ◌∙◌, inl, inr, Bool, false, not, some, List, [], ◌∷◌, ok, arith,
  ◌==◌, if◌then◌else◌, select, All, Bool-cases, >>=-eq-ok, raise_if-eq-ok,
}
use chat_bot_ceiba.Rows.Reservation.{Reservation, expired, is_reserved}
use chat_bot_ceiba.Rows.Table.{get, put, get-put, Unique}
use chat_bot_ceiba.Reservation.Invariant.{Inv}
use chat_bot_ceiba.Reservation.Keeping.{Flushed-Inv}
use chat_bot_ceiba.Reservation.Store.{Store, reservation_key}
use chat_bot_ceiba.Reservation.Window.{Datetime}
use chat_bot_ceiba.Reservation.Settlement.{
  move_to, is_past_due, expire_each, expire_pending_reservations,
}
use chat_bot_ceiba.Reservation.Settlement.Flush.{move_to-Flushed, move_to-SameSlot}

abbrev Present : List Reservation → Reservation → Type 0
Present rows r = get reservation_key r.reservation_id rows ≡ some r

Present-cons :
    (x : Reservation) (rows rs : List Reservation)
    → All (λ r. (r.reservation_id == x.reservation_id) ≡ false) rs
    → All (Present rows) rs
    → All (Present (x ∷ rows)) rs
unfolding get
Present-cons x rows [] other h = tt
Present-cons x rows (r ∷ rs) other h = (ground arith, Present-cons x rows rs other.1 h.1)

All-select :
    (P : Reservation → Type 0) (p : Reservation → Bool) (rs : List Reservation)
    → All P rs
    → All P (select p rs)
All-select P p [] h = tt
All-select P p (r ∷ rs) h = ground (arith, All-select P p rs h.1)

select-Present :
    (p : Reservation → Bool) (rows : List Reservation)
    → Unique reservation_key rows
    → All (Present rows) (select p rows) × Unique reservation_key (select p rows)
unfolding get
select-Present p [] u = (tt, tt)
select-Present p (x ∷ rows) u =
    let rest = select-Present p rows u.1 in
    let other = All-select (λ r. (r.reservation_id == x.reservation_id) ≡ false) p rows u.0 in
    let later = Present-cons x rows (select p rows) other rest.0 in
    elim (Bool-cases (p x)) [
      | inl fits ↦ rw fits (((ground arith, later), (other, rest.1)))
      | inr misses ↦ rw misses (later, rest.1)
    ]

Present-put :
    (r : Reservation) (r' : Reservation) (rows rs : List Reservation)
    → get reservation_key r'.reservation_id rows ≡ some r
    → All (λ x. (x.reservation_id == r'.reservation_id) ≡ false) rs
    → All (Present rows) rs
    → All (Present (put reservation_key r' rows)) rs
Present-put r r' rows [] g other h = tt
Present-put r r' rows (x ∷ rs) g other h =
    let written = get-put reservation_key x.reservation_id r' r rows g in
    let miss : (r'.reservation_id == x.reservation_id) ≡ false = ground arith in
    (
      written
          ∙ subst
              (λ (b : Bool).
                (if b then some r' else get reservation_key x.reservation_id rows) ≡ some x)
              (sym miss) h.0,
      Present-put r r' rows rs g other.1 h.1,
    )

expire_each-Inv :
    (rs : List Reservation) (s t : Store)
    → Inv s
    → All (Present s.reservations) rs
    → Unique reservation_key rs
    → expire_each rs s ≡ ok t
    → Inv t
unfolding expire_each
expire_each-Inv [] s t v there u h = let it : s ≡ t = ground arith in subst Inv it v
expire_each-Inv (r ∷ rs) s t v there u h =
    let (m, moved, rest) = >>=-eq-ok (move_to expired r "SYSTEM" "Fecha vencida sin pago" s) _ h in
    let f = move_to-Flushed expired r "SYSTEM" "Fecha vencida sin pago" s m.0 m.1 moved in
    let slot = move_to-SameSlot expired r m.0 f.0 in
    let here : get reservation_key m.0.reservation_id s.reservations ≡ some r =
      subst (λ k. get reservation_key k s.reservations ≡ some r) (sym slot.ident) there.0 in
    let other : All (λ x. (x.reservation_id == m.0.reservation_id) ≡ false) rs =
      subst (λ k. All (λ (x : Reservation). (x.reservation_id == k) ≡ false) rs) (sym slot.ident)
        u.0 in
    expire_each-Inv rs m.1 t
      (Flushed-Inv s m.1 r m.0 v there.0 f.1 slot
        (subst (λ (x : Reservation). is_reserved x.status ≡ false) (sym f.0) refl))
      (subst (λ (rows : List Reservation). All (Present rows) rs) (sym f.1.rows)
        (Present-put r m.0 s.reservations rs here other there.1))
      u.1 rest

-- When the sweep of the past reservations returns and the rows satisfied the invariant, they satisfy it again.
pub expire_pending_reservations-Inv :
    (busy : ℕ → Bool) (now : Datetime) (s t : Store) (n : ℕ)
    → Inv s
    → expire_pending_reservations busy now s ≡ ok (n, t)
    → Inv t
unfolding expire_pending_reservations
expire_pending_reservations-Inv busy now s t n v h =
    let (aware, rest) = raise_if-eq-ok (not now.aware) _ _ h in
    let free = λ (r : Reservation). is_past_due now.at r && not (busy r.reservation_id) in
    let (u, swept, last) = >>=-eq-ok (expire_each (select free s.reservations) s) _ rest in
    let same : u ≡ t = cc in
    let picked = select-Present free s.reservations v.reservation_ids in
    subst Inv same (expire_each-Inv (select free s.reservations) s u v picked.0 picked.1 swept)
