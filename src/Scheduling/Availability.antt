-- ===== src/Scheduling/Availability.antt =====
-- app/scheduling/availability.py: the days on which the venue may be visited, and the slots that a day has left.
pub mod Slots
use chat_bot_ceiba.Common.{
  ℕ, ◌+◌, ◌*◌, ◌%◌, Bool, true, false, not, ◌&&◌, ◌||◌, Option, none, some, List, [], ◌∷◌, map,
  String, ◌==◌, ltb, contains, any_of, select, or_else, is_empty, if◌then◌else◌,
}
use chat_bot_ceiba.Rows.Settings.{minute, hour, day, combine, weekday}

abbrev pub visit_start_times : List ℕ
visit_start_times = 8 * hour ∷ 9 * hour ∷ 10 * hour ∷ 11 * hour ∷ []

abbrev pub visit_duration : ℕ
visit_duration = 45 * minute

abbrev pub minimum_notice_days : ℕ
minimum_notice_days = 3

pub record VisitDateDecision : Type 0 where
  pub accepted : Bool
  pub response_code : Option String

pub record VisitSlot : Type 0 where
  pub start_time : ℕ
  pub end_time : ℕ

pub record AvailabilityResult : Type 0 where
  pub visit_date : ℕ
  pub slots : List VisitSlot
  pub response_code : String
  pub requires_review : Bool

-- app/calendar/adapter.py
pub record BusyInterval : Type 0 where
  pub start : ℕ
  pub end : ℕ

abbrev pub intersects : BusyInterval → ℕ → ℕ → Bool
intersects b start end = ltb b.start end && ltb start b.end

-- app/appointment/models.py
pub data AppointmentStatus : Type 0 where
  pending_confirmation confirmed rescheduled cancelled late_cancel completed no_show :
      AppointmentStatus

-- `ACTIVE_APPOINTMENT_STATUSES`
abbrev pub is_active : AppointmentStatus → Bool
is_active pending_confirmation = true
is_active confirmed = true
is_active rescheduled = true
is_active _ = false

-- The columns that the slots are computed from.
pub record Appointment : Type 0 where
  pub appointment_date : ℕ
  pub start_time : ℕ
  pub appointment_status : AppointmentStatus

pub record VisitTables : Type 0 where
  pub holidays : List ℕ
  pub blocked_dates : List ℕ
  pub appointments : List Appointment

abbrev pub refused_visit : String → VisitDateDecision
refused_visit code = record { accepted = false; response_code = some code }

-- The difference of the dates may be negative in the source, so its tests are written on the dates.
unfoldable pub validate_visit_date : ℕ → ℕ → List ℕ → List ℕ → VisitDateDecision
validate_visit_date visit_date today holidays blocked_dates =
    if visit_date == today
    then refused_visit "RESP-VISIT-004"
    else if visit_date == today + 1
    then refused_visit "RESP-VISIT-005"
    else if weekday visit_date == 0 || weekday visit_date == 6
    then refused_visit "RESP-VISIT-006"
    else if contains visit_date holidays
    then refused_visit "RESP-VISIT-007"
    else if contains visit_date blocked_dates
    then refused_visit "RESP-VISIT-008"
    else if ltb visit_date (today + minimum_notice_days)
    then refused_visit "RESP-VISIT-004"
    else record { accepted = true; response_code = none }

-- `.time()` forgets the day.
abbrev pub slot_end : ℕ → ℕ
slot_end start_time = (start_time + visit_duration) % day

abbrev pub visit_slot : ℕ → VisitSlot
visit_slot t = record { start_time = t; end_time = slot_end t }

abbrev pub deterministic_visit_slots : List VisitSlot
deterministic_visit_slots = map visit_slot visit_start_times

abbrev pub busy_intersects_slot : BusyInterval → ℕ → ℕ → Bool
busy_intersects_slot interval visit_date slot_time =
    let slot_start = combine visit_date slot_time in
    intersects interval slot_start (slot_start + visit_duration)

abbrev pub takes_date : ℕ → Appointment → Bool
takes_date visit_date a = a.appointment_date == visit_date && is_active a.appointment_status

abbrev pub active_times : VisitTables → ℕ → List ℕ
active_times v visit_date =
    map (λ (a : Appointment). a.start_time) (select (takes_date visit_date) v.appointments)

abbrev pub is_free : List ℕ → List BusyInterval → ℕ → ℕ → Bool
is_free times busy visit_date t =
    not (contains t times) && not (any_of (λ b. busy_intersects_slot b visit_date t) busy)

abbrev pub answer : ℕ → List VisitSlot → AvailabilityResult
answer visit_date [] = record {
  visit_date = visit_date;
  slots = [];
  response_code = "RESP-VISIT-009";
  requires_review = false;
}
answer visit_date (x ∷ xs) = record {
  visit_date = visit_date;
  slots = x ∷ xs;
  response_code = "RESP-VISIT-TIME-001";
  requires_review = false;
}

-- `get_busy_intervals` is the calendar's answer for a day and its calendars, none when it is unavailable.
unfoldable pub available_slots :
    (ℕ → List String → Option (List BusyInterval))
    → List String
    → VisitTables
    → ℕ
    → ℕ
    → AvailabilityResult
unfolding validate_visit_date
available_slots get_busy_intervals freebusy_calendar_ids v visit_date today =
    let decision =
      validate_visit_date visit_date today (select (λ d. d == visit_date) v.holidays)
        (select (λ d. d == visit_date) v.blocked_dates) in
    if not decision.accepted
    then record {
      visit_date = visit_date;
      slots = [];
      response_code = or_else decision.response_code "RESP-VISIT-009";
      requires_review = false;
    }
    else elim (get_busy_intervals visit_date freebusy_calendar_ids) [
      | none ↦ record {
        visit_date = visit_date;
        slots = [];
        response_code = "RESP-CALENDAR-ERROR-001";
        requires_review = true;
      }
      | some busy ↦ answer visit_date (
          select
            (λ (s : VisitSlot). is_free (active_times v visit_date) busy visit_date s.start_time)
            deterministic_visit_slots)
    ]
