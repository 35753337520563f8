-- ===== src/Rows/Json.antt =====
-- The values that the code reads out of JSON columns by key. The readers distinguish integers and texts; every
-- other value is refused in the same way.
use chat_bot_ceiba.Common.{ℕ, Bool, true, false, Option, some, String, text_eq, ◌==◌}

pub data Json : Type 0 where
  integer : ℕ → Json
  negative_integer : ℕ → Json
  text : String → Json
  other_value : Json

-- `type(value) is int`; a key that is missing is `none`.
abbrev pub is_int : Option Json → Bool
is_int (some (integer n)) = true
is_int (some (negative_integer n)) = true
is_int _ = false

-- `value == n` for a value that may have any type.
abbrev pub int_is : Option Json → ℕ → Bool
int_is (some (integer m)) n = m == n
int_is _ n = false

-- The value as a primary key: keys are positive, so a negative one has no row.
abbrev pub as_key : Option Json → ℕ
as_key (some (integer m)) = m
as_key _ = 0

abbrev pub is_text : Option Json → Bool
is_text (some (text t)) = true
is_text _ = false

-- `value == "…"`
abbrev pub text_is : Option Json → String → Bool
text_is (some (text t)) s = text_eq t s
text_is _ s = false
