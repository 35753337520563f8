-- ===== src/Reservation/Window.antt =====
-- app/reservation/availability.py: where a booking ends, and which windows can be requested.
pub mod Bounds
use chat_bot_ceiba.Common.{
  ℕ, ◌+◌, ◌*◌, Bool, true, false, not, ◌&&◌, ◌||◌, Option, none, some, Result, ok, err, ltb, leb,
  if◌then◌else◌, or_else, is_some, raise_if, or_raise, ◌==◌, ◌>>=◌, ◌>>◌,
}
use chat_bot_ceiba.Rows.Plan.{Plan}
use chat_bot_ceiba.Rows.Settings.{Settings, minute, day, date_of, time_of, combine, weekday}
use chat_bot_ceiba.Reservation.Transition.{BookingError, value_error}

-- A Python datetime: `aware` says that `utcoffset()` is not None.
pub record Datetime : Type 0 where
  pub at : ℕ
  pub aware : Bool

pub data WindowReason : Type 0 where
  timezone_required invalid_range crosses_midnight outside_hours min_lead_days weekend_only_plan :
      WindowReason

pub record BookingWindow : Type 0 where
  pub accepted : Bool
  pub reason : Option WindowReason

abbrev pub refused : WindowReason → BookingWindow
refused r = record { accepted = false; reason = some r }

unfoldable pub booking_ends_at : Plan → Datetime → Result BookingError Datetime
booking_ends_at plan starts_at =
    if not plan.overnight
    then ok (record starts_at { at = starts_at.at + plan.duration_minutes * minute })
    else do
      raise_if (not starts_at.aware || not (is_some plan.checkout_time))
          (value_error "Overnight bookings require a timezone and checkout time")
      ok (record starts_at {
        at = combine (date_of starts_at.at + 1) (or_else plan.checkout_time 0);
      })

-- `plan is not None and p(plan)`
abbrev pub plan_is : (Plan → Bool) → Option Plan → Bool
plan_is p none = false
plan_is p (some plan) = p plan

-- `ends_at != booking_ends_at(plan, starts_at)`, where the call raises or not.
abbrev pub ends_at_matches : Plan → Datetime → Datetime → Bool
ends_at_matches plan starts_at ends_at = elim (booking_ends_at plan starts_at) [
  | ok e ↦ ends_at.at == e.at
  | err _ ↦ false
]

abbrev pub lacks_hours : Plan → Bool
lacks_hours p = not (is_some p.checkin_from) || not (is_some p.checkout_time)

-- `plan.checkin_from if overnight else settings.booking_hours_start`
abbrev pub first_start : Settings → Option Plan → ℕ
first_start s none = s.booking_hours_start
first_start s (some p) = if p.overnight then or_else p.checkin_from 0 else s.booking_hours_start

abbrev pub allowed_end : Settings → ℕ → ℕ
allowed_end s starts_at =
    if s.booking_hours_end == day
    then combine (date_of starts_at + 1) 0
    else combine (date_of starts_at) s.booking_hours_end

-- The test of the end, then the notice: `none` stands for passing on.
abbrev pub end_reason : Settings → Option Plan → Datetime → Datetime → Option WindowReason
end_reason s plan starts_at ends_at =
    if plan_is (λ p. p.overnight) plan
    then if plan_is (λ p. ends_at_matches p starts_at ends_at) plan
      then none
      else some invalid_range
    else if ltb (combine (date_of starts_at.at + 1) 0) ends_at.at
    then some crosses_midnight
    else if ltb (allowed_end s starts_at.at) ends_at.at
    then some outside_hours
    else none

-- `today` defaults to the date of `now`.
unfoldable pub validate_booking_window :
    Datetime → Datetime → Settings → Option ℕ → ℕ → Option Plan → BookingWindow
unfolding booking_ends_at
validate_booking_window starts_at ends_at s today now plan =
    if not starts_at.aware || not ends_at.aware
    then refused timezone_required
    else if leb ends_at.at starts_at.at
    then refused invalid_range
    else if plan_is (λ p. p.weekend_only) plan
        && not (weekday (date_of starts_at.at) == 5 || weekday (date_of starts_at.at) == 6)
    then refused weekend_only_plan
    else if plan_is (λ p. p.overnight && lacks_hours p) plan
    then refused invalid_range
    else if ltb (time_of starts_at.at) (first_start s plan)
        || ltb s.booking_latest_start (time_of starts_at.at)
    then refused outside_hours
    else elim (end_reason s plan starts_at ends_at) [
      | some r ↦ refused r
      | none ↦
          if ltb (date_of starts_at.at) (or_else today (date_of now) + s.booking_min_lead_days)
          then refused min_lead_days
          else record { accepted = true; reason = none }
    ]
