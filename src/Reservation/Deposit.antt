-- ===== src/Reservation/Deposit.antt =====
-- app/reservation/booking.py: the amount that books a slot.
use chat_bot_ceiba.Common.{
  ℕ, ◌+◌, ◌-◌, ◌*◌, ◌/◌, ◌%◌, ◌≤◌, ◌<◌, ◌≡◌, Result, ok, arith, ◌==◌, raise_if, ◌>>◌,
}
use chat_bot_ceiba.Rows.Settings.{Settings, IsLoaded}
use chat_bot_ceiba.Reservation.Transition.{BookingError, value_error}

-- The integer ceiling of the percentage, to whole thousands.
abbrev pub round_deposit : ℕ → ℕ → ℕ
round_deposit percent price = (price * percent + 100_000 - 1) / 100_000 * 1000

unfoldable pub deposit_amount : Settings → ℕ → Result BookingError ℕ
deposit_amount s price = do
  raise_if (price == 0) (value_error "El precio debe ser positivo.")
  ok (round_deposit s.booking_deposit_percent price)

round_deposit_bounds :
    (n : ℕ)
    → (n ≤ (n + 100_000 - 1) / 100_000 * 1000 * 100)
      × ((n + 100_000 - 1) / 100_000 * 1000 * 100 < n + 100_000)
round_deposit_bounds n = (omega arith, omega arith)

-- For a positive price the deposit is a positive multiple of a thousand pesos, at least the configured
-- percentage of the price, and no larger than any multiple of a thousand that is.
pub deposit_amount_least :
    (s : Settings) (price m : ℕ)
    → IsLoaded s
    → 0 < price
    → m % 1000 ≡ 0
    → price * s.booking_deposit_percent ≤ m * 100
    → (d : ℕ) × (deposit_amount s price ≡ ok d)
      × (0 < d)
      × (d % 1000 ≡ 0)
      × (price * s.booking_deposit_percent ≤ d * 100)
      × (d ≤ m)
unfolding deposit_amount
deposit_amount_least s price m l h whole enough =
    let n = price * s.booking_deposit_percent in
    let pos : 0 < n = grind arith in
    let b = round_deposit_bounds n in
    (
      round_deposit s.booking_deposit_percent price,
      ground arith,
      omega arith,
      omega arith,
      omega arith,
      omega arith,
    )
