-- ===== src/Channel/Outbox.antt =====
-- app/channel/delivery.py and app/channel/worker.py: the messages that go out, from the row that waits to the
-- settlement of its one permitted call of the provider.
pub mod Row
pub mod Eligibility
pub mod Admission
pub mod Settle
pub mod Claim
pub mod Life
pub mod Moves
pub mod Dependency
pub mod Batch
pub mod Claims
pub mod Reach
pub mod Period
pub mod Process
pub mod Settles
pub mod Finish
pub mod Stale
pub mod Context
pub mod Once
pub mod Permits
pub mod Writes
pub mod Flight
pub mod Steps
pub mod Round
