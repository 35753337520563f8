-- ===== src/Reservation.antt =====
-- app/reservation/: the life of a reservation, its availability, and the settlement of payments.
pub mod Transition
pub mod Availability
pub mod Window
pub mod Deposit
pub mod Store
pub mod Booking
pub mod Invariant
pub mod Keeping
pub mod Settlement
pub mod System
