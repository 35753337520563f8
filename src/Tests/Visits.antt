-- ===== src/Tests/Visits.antt =====
-- A day of visits.
use chat_bot_ceiba.Common.{
  ℕ, ◌+◌, ◌*◌, ◌≡◌, ◌↔◌, refl, true, false, Option, some, List, [], ◌∷◌, String, contains, any_of,
  length,
}
use chat_bot_ceiba.Rows.Settings.{hour, minute, combine}
use chat_bot_ceiba.Scheduling.Availability.{
  BusyInterval, VisitTables, confirmed, cancelled, available_slots, visit_start_times, active_times,
  busy_intersects_slot,
}
use chat_bot_ceiba.Scheduling.Availability.Slots.{offers, IsVisitDay, available_slots_iff}

-- A visit at eight and one at nine that was cancelled.
abbrev visits : VisitTables
visits = record {
  holidays = 17 ∷ [];
  blocked_dates = [];
  appointments =
      record { appointment_date = 16; start_time = 8 * hour; appointment_status = confirmed }
      ∷ record { appointment_date = 16; start_time = 9 * hour; appointment_status = cancelled }
      ∷ [];
}

-- A busy interval from half past ten to eleven.
abbrev agenda : ℕ → List String → Option (List BusyInterval)
agenda d ids =
    some (record { start = combine d (10 * hour + 30 * minute); end = combine d (11 * hour) } ∷ [])

-- Nine and eleven are left.
two_left : length (available_slots agenda [] visits 16 10).slots ≡ 2
unfolding available_slots
two_left = refl

available_slots_iff_example :
    (offers (available_slots agenda [] visits 16 10) (9 * hour) ≡ true) ↔ (
      IsVisitDay visits 16 10
      × (busy : List BusyInterval) × (agenda 16 [] ≡ some busy)
      × (contains (9 * hour) visit_start_times ≡ true)
      × (contains (9 * hour) (active_times visits 16) ≡ false)
      × (any_of (λ b. busy_intersects_slot b 16 (9 * hour)) busy ≡ false))
available_slots_iff_example = available_slots_iff agenda [] visits 16 10 (9 * hour)
