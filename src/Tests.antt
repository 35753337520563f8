-- ===== src/Tests.antt =====
-- Concrete runs of the modelled code, which show that the conditions of the theorems can hold.
mod Admin
mod Data
mod Booking
mod Inbox
mod Messages
mod Outbox
mod Sends
mod Rest
mod Visits
mod Questions
