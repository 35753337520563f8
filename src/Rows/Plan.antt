-- ===== src/Rows/Plan.antt =====
-- app/plan/models.py
use chat_bot_ceiba.Common.{ℕ, Bool, true, false, Option, String}

pub data EventType : Type 0 where
  romantic_dinner proposal other_event : EventType

pub record Plan : Type 0 where
  pub plan_id : ℕ
  pub code : String
  pub name : String
  pub event_type : EventType
  pub price_cop : ℕ
  pub duration_minutes : ℕ
  pub exclusive : Bool
  pub weekend_only : Bool
  pub overnight : Bool
  pub checkin_from : Option ℕ
  pub checkout_time : Option ℕ
  pub active : Bool

abbrev pub same_event_type : EventType → EventType → Bool
same_event_type romantic_dinner romantic_dinner = true
same_event_type proposal proposal = true
same_event_type other_event other_event = true
same_event_type _ _ = false
