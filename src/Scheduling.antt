-- ===== src/Scheduling.antt =====
-- app/scheduling/: the visits of customers who want to see the venue.
pub mod Availability
