-- ===== src/Admin.antt =====
-- app/admin/ and app/handoff/: the people who take a conversation over and give it back.
pub mod Ownership
pub mod Takeover
pub mod Direct
pub mod Cases
pub mod Owner
pub mod Requests
pub mod Keeping
pub mod Opening
pub mod Reach
pub mod Reply
