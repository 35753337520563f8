-- ===== src/Reservation/Window/Bounds.antt =====
-- What a requested window satisfies when it is accepted, and that nothing else is asked of it.
use chat_bot_ceiba.Common.{
  ℕ, ◌+◌, ◌*◌, ◌≤◌, ◌<◌, ◌≡◌, refl, ◌↔◌, ◌⊎◌, inl, inr, true, false, Option, none, some, ok, arith,
  or_else, is_some, Bool-cases, not,
}
use chat_bot_ceiba.Rows.Plan.{Plan}
use chat_bot_ceiba.Rows.Settings.{
  Settings, IsLoaded, minute, day, date_of, time_of, combine, weekday,
}
use chat_bot_ceiba.Reservation.Window.{Datetime, booking_ends_at, validate_booking_window}

-- The rules of the house for the hours of a booking, for a day visit and for a night at the lodge.
abbrev pub HoursFit : Settings → Option Plan → ℕ → ℕ → Type 0
HoursFit s none a b =
    (s.booking_hours_start ≤ time_of a) × (b ≤ combine (date_of a) s.booking_hours_end)
HoursFit s (some p) a b =
    ((p.weekend_only ≡ false) ⊎ (5 ≤ weekday (date_of a)))
    × (((p.overnight ≡ false)
          × (s.booking_hours_start ≤ time_of a)
          × (b ≤ combine (date_of a) s.booking_hours_end))
        ⊎ ((p.overnight ≡ true)
            × (is_some p.checkin_from ≡ true)
            × (is_some p.checkout_time ≡ true)
            × (or_else p.checkin_from 0 ≤ time_of a)
            × (b ≡ combine (date_of a + 1) (or_else p.checkout_time 0))))

pub record Bookable (s : Settings) (today : ℕ) (plan : Option Plan) (a b : Datetime) : Type 0 where
  pub aware_start : a.aware ≡ true
  pub aware_end : b.aware ≡ true
  pub range : a.at < b.at
  pub latest : time_of a.at ≤ s.booking_latest_start
  pub hours : HoursFit s plan a.at b.at
  pub notice : today + s.booking_min_lead_days ≤ date_of a.at

accepted-Bookable :
    (s : Settings) (today : Option ℕ) (now : ℕ) (plan : Option Plan) (a b : Datetime)
    → IsLoaded s
    → (validate_booking_window a b s today now plan).accepted ≡ true
    → Bookable s (or_else today (date_of now)) plan a b
unfolding validate_booking_window
accepted-Bookable s today now none a b l h = ground arith
accepted-Bookable s today now (some p) a b l h = ground arith

Bookable-accepted :
    (s : Settings) (today : Option ℕ) (now : ℕ) (plan : Option Plan) (a b : Datetime)
    → IsLoaded s
    → Bookable s (or_else today (date_of now)) plan a b
    → validate_booking_window a b s today now plan ≡ record { accepted = true; reason = none }
unfolding validate_booking_window
Bookable-accepted s today now none a b l h = ground arith
Bookable-accepted s today now (some p) a b l h = ground arith

reason_on_refusal :
    (s : Settings) (today : Option ℕ) (now : ℕ) (plan : Option Plan) (a b : Datetime)
    → let w = validate_booking_window a b s today now plan in is_some w.reason ≡ not w.accepted
unfolding validate_booking_window
reason_on_refusal s today now none a b = ground arith
reason_on_refusal s today now (some p) a b = ground arith

-- Under settings that pass their own validation, a window is accepted exactly when it is bookable:
-- both ends carry a time zone, it runs forwards, it starts no later than the latest start and with the
-- notice asked for; by day within the opening hours of one date, by night between check-in and the
-- check-out of the next day; at a week end where the plan wants one. Refusals, and they alone, carry a
-- reason.
pub validate_booking_window_iff :
    (s : Settings) (today : Option ℕ) (now : ℕ) (plan : Option Plan) (a b : Datetime)
    → IsLoaded s
    → let w = validate_booking_window a b s today now plan in
      ((w.accepted ≡ true) ↔ Bookable s (or_else today (date_of now)) plan a b)
      × (is_some w.reason ≡ not w.accepted)
validate_booking_window_iff s today now plan a b l = (
  (accepted-Bookable s today now plan a b l, λ h. rw (Bookable-accepted s today now plan a b l h)),
  reason_on_refusal s today now plan a b,
)

-- The end that a plan gives to a booking lies after its start, for a positive duration and a check-out
-- time of the day: a day plan ends its duration later, a night on the next calendar day at the
-- check-out time.
pub booking_ends_at_after :
    (p : Plan) (a : Datetime) (t : ℕ)
    → 0 < p.duration_minutes
    → t < day
    → p.checkout_time ≡ some t
    → a.aware ≡ true
    → (e : Datetime) × (booking_ends_at p a ≡ ok e)
      × (a.at < e.at)
      × (e.aware ≡ true)
      × (((p.overnight ≡ false) × (e.at ≡ a.at + p.duration_minutes * minute))
          ⊎ ((p.overnight ≡ true) × (date_of e.at ≡ date_of a.at + 1) × (time_of e.at ≡ t)))
unfolding booking_ends_at
booking_ends_at_after p a t d lt c w = elim (Bool-cases p.overnight) [
  | inl night ↦ (
    record a { at = combine (date_of a.at + 1) t },
    ground arith,
    omega arith,
    w,
    inr (night, omega arith, omega arith),
  )
  | inr by_day ↦ (
    record a { at = a.at + p.duration_minutes * minute },
    ground arith,
    omega arith,
    w,
    inl (by_day, refl),
  )
]
