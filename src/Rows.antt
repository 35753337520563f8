-- ===== src/Rows.antt =====
-- The rows of the database that the booking side reads and writes, one record for each mapped class.
pub mod Settings
pub mod Plan
pub mod Reservation
pub mod Evidence
pub mod Handoff
pub mod Json
pub mod Blocker
pub mod Audit
pub mod Table
