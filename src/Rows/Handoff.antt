-- ===== src/Rows/Handoff.antt =====
-- app/handoff/models.py: the case that a person takes over.
use chat_bot_ceiba.Common.{ℕ, Bool, true, false, Option, String}

pub data HandoffStatus : Type 0 where
  pending taken returned resolved : HandoffStatus

pub record Handoff : Type 0 where
  pub handoff_id : ℕ
  pub conversation_id : ℕ
  pub status : HandoffStatus
  pub reason : String
  pub priority : String
  pub assigned_to : Option String
  pub assigned_agent_id : Option ℕ
  pub taken_at : Option ℕ
  pub resolved_at : Option ℕ

abbrev pub handoff_key : Handoff → ℕ
handoff_key h = h.handoff_id

abbrev pub is_pending : HandoffStatus → Bool
is_pending pending = true
is_pending _ = false

abbrev pub is_taken : HandoffStatus → Bool
is_taken taken = true
is_taken _ = false

-- status IN ('PENDING', 'TAKEN')
abbrev pub is_open : HandoffStatus → Bool
is_open pending = true
is_open taken = true
is_open _ = false
