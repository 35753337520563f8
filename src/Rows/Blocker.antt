-- ===== src/Rows/Blocker.antt =====
-- app/reservation/availability.py: why a slot cannot be booked.
use chat_bot_ceiba.Common.{ℕ, String}

pub data BlockerKind : Type 0 where
  calendar_exclusive reserved_exclusive reserved_conflict reserved_overnight : BlockerKind

-- A reference is the identifier of a calendar event, or a printed reservation id.
pub data BlockerRef : Type 0 where
  event_ref : String → BlockerRef
  reservation_ref : ℕ → BlockerRef

pub record BookingBlocker : Type 0 where
  pub kind : BlockerKind
  pub ref : BlockerRef
