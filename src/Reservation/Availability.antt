-- ===== src/Reservation/Availability.antt =====
-- app/reservation/availability.py: which reservations and calendar events block a slot.
pub mod Clash
use Prim.Native.Char.{Char}
use Prim.Native.String.{◌++◌ as cat}
use chat_bot_ceiba.Common.{
  ℕ, ◌+◌, ◌*◌, Bool, true, false, not, ◌&&◌, ◌||◌, Option, none, some, List, [], ◌∷◌, ◌++◌, map,
  String, Result, ok, err, ltb, leb, if◌then◌else◌, or_else, strip, keep_chars, is_within,
  is_empty_text, is_empty, raise_if, ◌>>=◌, ◌>>◌,
}
use chat_bot_ceiba.Rows.Plan.{Plan}
use chat_bot_ceiba.Rows.Settings.{minute, date_of, combine}
use chat_bot_ceiba.Rows.Reservation.{Reservation, is_reserved}
use chat_bot_ceiba.Rows.Blocker.{
  BookingBlocker, BlockerKind, calendar_exclusive, reserved_exclusive, reserved_conflict,
  reserved_overnight, event_ref, reservation_ref,
}
use chat_bot_ceiba.Reservation.Transition.{BookingError, value_error}

-- The tables of Python's `str.casefold` and `unicodedata`, which stand outside the repository.
pub record Unicode : Type 0 where
  pub casefold : String → String
  pub nfkd : String → String
  pub combining : Char → Bool

-- app/calendar/adapter.py
pub record CalendarEvent : Type 0 where
  pub event_id : String
  pub summary : String
  pub description : Option String
  pub start : ℕ
  pub end : ℕ

pub record BookingAvailability : Type 0 where
  pub available : Bool
  pub blockers : List BookingBlocker

-- `_normalized`
unfoldable pub normalized : Unicode → String → String
unfolding strip keep_chars
normalized u value = strip (keep_chars (λ c. not (u.combining c)) (u.nfkd (u.casefold value)))

-- `event.start < ends_at and starts_at < event.end and keyword in …`
unfoldable pub event_blocks : Unicode → String → ℕ → ℕ → CalendarEvent → Bool
unfolding normalized is_within
event_blocks u keyword starts_at ends_at e =
    ltb e.start ends_at
    && (ltb starts_at e.end
        && is_within keyword (normalized u (cat e.summary (cat " " (or_else e.description "")))))

unfoldable pub event_blockers : Unicode → String → ℕ → ℕ → List CalendarEvent → List BookingBlocker
unfolding event_blocks
event_blockers u keyword starts_at ends_at [] = []
event_blockers u keyword starts_at ends_at (e ∷ es) =
    if event_blocks u keyword starts_at ends_at e
    then record { kind = calendar_exclusive; ref = event_ref e.event_id }
      ∷ event_blockers u keyword starts_at ends_at es
    else event_blockers u keyword starts_at ends_at es

-- The chain of `if`, `elif` for the plan of an overlapping reservation.
unfoldable pub plan_blocker : Plan → Plan → Option BlockerKind
plan_blocker plan booked =
    if booked.overnight && (plan.exclusive || plan.overnight)
    then some reserved_overnight
    else if booked.exclusive
    then some reserved_exclusive
    else if plan.exclusive
    then some reserved_conflict
    else none

-- The `continue` of the loop, then the chain.
unfoldable pub reservation_blocker : Plan → ℕ → ℕ → Reservation × Plan → Option BlockerKind
unfolding plan_blocker
reservation_blocker plan starts_at ends_at (r, booked) =
    if not (is_reserved r.status) || (leb ends_at r.starts_at || leb r.ends_at starts_at)
    then none
    else plan_blocker plan booked

-- One round of the loop: `blockers.append`, or nothing.
abbrev pub note_blocker :
    Option BlockerKind → Reservation → List BookingBlocker → List BookingBlocker
note_blocker none r rest = rest
note_blocker (some k) r rest = record { kind = k; ref = reservation_ref r.reservation_id } ∷ rest

unfoldable pub reservation_blockers : Plan → ℕ → ℕ → List (Reservation × Plan) → List BookingBlocker
unfolding reservation_blocker
reservation_blockers plan starts_at ends_at [] = []
reservation_blockers plan starts_at ends_at (x ∷ xs) =
    note_blocker (reservation_blocker plan starts_at ends_at x) x.0
      (reservation_blockers plan starts_at ends_at xs)

-- Each reservation comes with the plan that the query has loaded for it.
unfoldable pub evaluate_booking_availability :
    Unicode
    → Plan
    → ℕ
    → ℕ
    → List CalendarEvent
    → List (Reservation × Plan)
    → String
    → Result BookingError BookingAvailability
unfolding normalized event_blockers reservation_blockers
evaluate_booking_availability u plan starts_at ends_at calendar_events reservations keyword_text =
    do
      let keyword = normalized u keyword_text
      raise_if (is_empty_text keyword)
          (value_error "The booking exclusivity keyword must not be empty")
      let blockers =
          event_blockers u keyword starts_at ends_at calendar_events
          ++ reservation_blockers plan starts_at ends_at reservations
      ok (record { available = is_empty blockers; blockers = blockers })
