-- ===== src/Rows/Audit.antt =====
-- app/audit/models.py: the append-only trail. `old_value` and `new_value` are JSON objects, kept as
-- lists of keys and values in the order of the source's dict.
use chat_bot_ceiba.Common.{ℕ, Option, none, some, Bool, List, String}
use chat_bot_ceiba.Rows.Blocker.{BookingBlocker}

-- A value in an audited dict. `ident` is a UUID printed by `str`, `blockers` the list of dicts that a
-- settlement records.
pub data AuditValue : Type 0 where
  null : AuditValue
  num : ℕ → AuditValue
  flag : Bool → AuditValue
  text : String → AuditValue
  ident : ℕ → AuditValue
  instant : ℕ → AuditValue
  date : ℕ → AuditValue
  source : String → ℕ → AuditValue
  blockers : List BookingBlocker → AuditValue

abbrev pub AuditDict : Type 0
AuditDict = List (String × AuditValue)

pub record AuditEvent : Type 0 where
  pub actor : String
  pub action : String
  pub entity : String
  pub old_value : Option AuditDict
  pub new_value : Option AuditDict
  pub reason : String

abbrev pub opt_num : Option ℕ → AuditValue
opt_num none = null
opt_num (some n) = num n

abbrev pub opt_text : Option String → AuditValue
opt_text none = null
opt_text (some s) = text s

abbrev pub opt_ident : Option ℕ → AuditValue
opt_ident none = null
opt_ident (some n) = ident n
