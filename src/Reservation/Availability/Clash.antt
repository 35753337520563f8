-- ===== src/Reservation/Availability/Clash.antt =====
-- When two bookings cannot stand side by side, said without the order of the source's tests.
use chat_bot_ceiba.Common.{
  ℕ, ◌≡◌, refl, ◌↔◌, Bool, true, false, ◌&&◌, ◌||◌, none, List, [], ◌∷◌, ◌++◌, String, ok, arith,
  is_empty, is_empty_text, All, ltb,
}
use chat_bot_ceiba.Rows.Plan.{Plan}
use chat_bot_ceiba.Rows.Reservation.{Reservation, is_reserved}
use chat_bot_ceiba.Rows.Blocker.{BookingBlocker}
use chat_bot_ceiba.Reservation.Availability.{
  Unicode, CalendarEvent, BookingAvailability, normalized, event_blocks, event_blockers,
  plan_blocker, reservation_blocker, reservation_blockers, evaluate_booking_availability,
}

-- An exclusive plan tolerates no company; two nights at the lodge exclude each other.
abbrev pub plans_clash : Plan → Plan → Bool
plans_clash p q = p.exclusive || (q.exclusive || (p.overnight && q.overnight))

pub plan_blocker-none : (p q : Plan) → (plan_blocker p q ≡ none) ↔ (plans_clash p q ≡ false)
unfolding plan_blocker
plan_blocker-none p q = ground arith

-- The slot [starts_at, ends_at) of `plan` is taken by a reserved booking that overlaps it.
abbrev pub taken_by : Plan → ℕ → ℕ → Reservation × Plan → Bool
taken_by plan starts_at ends_at (r, booked) =
    is_reserved r.status
    && (ltb r.starts_at ends_at && (ltb starts_at r.ends_at && plans_clash plan booked))

reservation_blocker-none :
    (p : Plan) (a b : ℕ) (x : Reservation × Plan)
    → (reservation_blocker p a b x ≡ none) ↔ (taken_by p a b x ≡ false)
unfolding reservation_blocker
reservation_blocker-none p a b x = ground (arith, plan_blocker-none p x.1)

reservation_blockers-empty :
    (p : Plan) (a b : ℕ) (xs : List (Reservation × Plan))
    → (is_empty (reservation_blockers p a b xs) ≡ true) ↔ All (λ x. taken_by p a b x ≡ false) xs
unfolding reservation_blockers
reservation_blockers-empty p a b [] = (λ _. tt, λ _. refl)
reservation_blockers-empty p a b (x ∷ xs) =
    ground (arith, reservation_blocker-none p a b x, reservation_blockers-empty p a b xs)

event_blockers-empty :
    (u : Unicode) (k : String) (a b : ℕ) (es : List CalendarEvent)
    → (is_empty (event_blockers u k a b es) ≡ true) ↔ All (λ e. event_blocks u k a b e ≡ false) es
unfolding event_blockers
event_blockers-empty u k a b [] = (λ _. tt, λ _. refl)
event_blockers-empty u k a b (e ∷ es) = ground (arith, event_blockers-empty u k a b es)

is_empty-append :
    (xs ys : List BookingBlocker)
    → (is_empty (xs ++ ys) ≡ true) ↔ ((is_empty xs ≡ true) × (is_empty ys ≡ true))
is_empty-append [] ys = ground arith
is_empty-append (x ∷ xs) ys = ground arith

-- With a keyword that is not blank the check returns, and it finds the slot available exactly when no
-- exclusive calendar event overlaps it and no reserved booking whose plan clashes with the requested
-- one does. It then names no blocker.
pub available_iff :
    (u : Unicode) (plan : Plan) (starts_at ends_at : ℕ) (events : List CalendarEvent)
    (booked : List (Reservation × Plan)) (keyword : String)
    → is_empty_text (normalized u keyword) ≡ false
    → (a : BookingAvailability) × (evaluate_booking_availability u plan starts_at ends_at events
          booked keyword
        ≡ ok a)
      × (a.available ≡ is_empty a.blockers)
      × ((a.available ≡ true) ↔ (
          All (λ e. event_blocks u (normalized u keyword) starts_at ends_at e ≡ false) events
          × All (λ x. taken_by plan starts_at ends_at x ≡ false) booked))
unfolding evaluate_booking_availability
available_iff u plan starts_at ends_at events booked keyword h =
    let k = normalized u keyword in
    let es = event_blockers u k starts_at ends_at events in
    let rs = reservation_blockers plan starts_at ends_at booked in
    (
      record { available = is_empty (es ++ rs); blockers = es ++ rs },
      rw h,
      refl,
      ground (
        arith,
        is_empty-append es rs,
        event_blockers-empty u k starts_at ends_at events,
        reservation_blockers-empty plan starts_at ends_at booked,
      ),
    )

-- Clashing is mutual: the booked plan blocks the requested one exactly when, had they come in the
-- other order, the requested one would have blocked it.
pub plan_blocker_symm : (p q : Plan) → (plan_blocker p q ≡ none) ↔ (plan_blocker q p ≡ none)
plan_blocker_symm p q = ground (arith, plan_blocker-none p q, plan_blocker-none q p)
