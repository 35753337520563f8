-- ===== src/Rows/Settings.antt =====
-- app/config/settings.py: the settings that the modelled code reads. Times of day are parsed to
-- microseconds, so "24:00" is the length of a day.
--
-- A point in time is the number of microseconds since 0001-01-01 00:00 on the Bogotá clock, which
-- stands five hours behind UTC all year: the order and the differences are those of the UTC
-- instants, the calendar day is the quotient by the length of a day, the clock time the remainder.
use chat_bot_ceiba.Common.{ℕ, ◌*◌, ◌/◌, ◌%◌, ◌+◌, ◌≤◌, ◌<◌, Bool, String}

abbrev pub second : ℕ
second = 1_000_000

abbrev pub minute : ℕ
minute = 60_000_000

abbrev pub hour : ℕ
hour = 3_600_000_000

abbrev pub day : ℕ
day = 86_400_000_000

-- `.date()` as the number of days since the first, and `.time()`.
abbrev pub date_of : ℕ → ℕ
date_of t = t / 86_400_000_000

abbrev pub time_of : ℕ → ℕ
time_of t = t % 86_400_000_000

-- `datetime.combine(d, t, tzinfo=BOGOTA)`
abbrev pub combine : ℕ → ℕ → ℕ
combine d t = d * 86_400_000_000 + t

-- `date.weekday()`: 0001-01-01 was a Monday, which Python numbers 0.
abbrev pub weekday : ℕ → ℕ
weekday d = d % 7

pub record Settings : Type 0 where
  pub staff_notifications_enabled : Bool
  pub booking_exclusivity_keyword : String
  pub booking_account_number : String
  pub booking_hours_start : ℕ
  pub booking_hours_end : ℕ
  pub booking_latest_start : ℕ
  pub booking_min_lead_days : ℕ
  pub booking_deposit_percent : ℕ
  pub inbox_batch_size : ℕ
  pub inbox_claim_timeout_seconds : ℕ
  pub inbox_max_attempts : ℕ
  pub inbox_max_backoff_seconds : ℕ
  pub outbox_max_backoff_seconds : ℕ
  pub outbox_sending_timeout_seconds : ℕ
  pub staff_deferred_max_age_hours : ℕ
  pub staff_outbox_max_attempts : ℕ
  pub payment_review_ai_enabled : Bool
  pub payment_review_max_attempts : ℕ
  pub payment_review_confidence_ok : ℕ
  pub payment_review_confidence_min : ℕ

-- What the field constraints and `validate_booking_settings` guarantee of a loaded object.
pub record IsLoaded (s : Settings) : Type 0 where
  pub start_before_latest : s.booking_hours_start < s.booking_latest_start
  pub latest_before_end : s.booking_latest_start < s.booking_hours_end
  pub end_within_day : s.booking_hours_end ≤ day
  pub percent_pos : 1 ≤ s.booking_deposit_percent
  pub percent_le : s.booking_deposit_percent ≤ 100
  pub attempts_pos : 1 ≤ s.inbox_max_attempts
  pub staff_attempts_pos : 1 ≤ s.staff_outbox_max_attempts
  pub confidence_order : s.payment_review_confidence_min ≤ s.payment_review_confidence_ok
