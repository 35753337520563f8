-- ===== src/Payment/Receipt.antt =====
-- app/payment/review.py: `evaluate_receipt`, the checks that a machine reading of a receipt goes through.
--
-- A confidence is a float of [0, 1]; it stands here as the number that its bits spell, which has the same
-- order. A date is the number of days of `date_of`.
pub mod Suggest
use Prim.Native.Char.{Char}
use chat_bot_ceiba.Common.{
  ℕ, ◌+◌, ◌-◌, ◌*◌, ◌/◌, zero, suc, Bool, true, false, not, ◌&&◌, ◌||◌, Option, none, some, List,
  [], ◌∷◌, String, Result, ok, err, ltb, leb, ◌==◌, if◌then◌else◌, any_of, all_of, text_eq,
  keep_chars, strip, is_empty_text, raise_if, ◌>>=◌, ◌>>◌, length,
}
use chat_bot_ceiba.Rows.Settings.{Settings, date_of}
use chat_bot_ceiba.Rows.Reservation.{Reservation, is_reserved}
use chat_bot_ceiba.Rows.Evidence.{Suggestion, accept, review, reject}
use chat_bot_ceiba.Reservation.Transition.{BookingError, value_error}
use chat_bot_ceiba.Reservation.Deposit.{round_deposit}
use chat_bot_ceiba.Reservation.Window.{Datetime}

pub data CheckCode : Type 0 where
  amount currency account date reference confidence : CheckCode

pub data CheckResult : Type 0 where
  fine warn fail unknown : CheckResult

pub record ReceiptCheck : Type 0 where
  pub code : CheckCode
  pub result : CheckResult
  pub detail : String

-- The fields of the extraction that the checks read.
pub record ReceiptExtraction : Type 0 where
  pub amount_cop : Option ℕ
  pub currency : Option String
  pub transaction_date : Option ℕ
  pub reference : Option String
  pub destination_account_last4 : Option String
  pub confidence : ℕ

-- `unicodedata` and the methods of `str`.
pub record ReceiptText : Type 0 where
  pub nfkc : String → String
  pub casefold : String → String
  pub upper : String → String
  pub alnum : Char → Bool
  pub decimal : Char → Bool

unfoldable pub text_length : String → ℕ
text_length String.[] = 0
text_length (String.◌∷◌ c s) = suc (text_length s)

abbrev pub drop_chars : ℕ → String → String
drop_chars zero s = s
drop_chars (suc n) String.[] = String.[]
drop_chars (suc n) (String.◌∷◌ c s) = drop_chars n s

-- `account[-4:]`
unfoldable pub last_four : String → String
last_four s = drop_chars (text_length s - 4) s

unfoldable pub normalize_reference : ReceiptText → String → String
normalize_reference x s = keep_chars x.alnum (x.casefold (x.nfkc s))

-- `extraction.amount_cop if extraction.amount_cop and extraction.amount_cop > 0 else None`
abbrev pub read_amount : Option ℕ → Option ℕ
read_amount none = none
read_amount (some n) = if ltb 0 n then some n else none

-- What the reservation still needs for its deposit, or for its price once it is reserved.
abbrev pub missing_amount : Settings → Reservation → ℕ
missing_amount s r =
    (if is_reserved r.status
      then r.price_cop
      else round_deposit s.booking_deposit_percent r.price_cop)
    - r.amount_paid_cop

abbrev pub check : CheckCode → CheckResult → String → ReceiptCheck
check code result detail = record { code = code; result = result; detail = detail }

abbrev pub compare_amount : Settings → Reservation → ℕ → ReceiptCheck
compare_amount s r n =
    if leb (missing_amount s r) n
    then check amount fine (
        if is_reserved r.status
        then "Saldo suficiente para completar el pago."
        else "Monto suficiente para el anticipo.")
    else check amount warn "Abono parcial."

unfoldable pub check_amount : Settings → Option Reservation → ReceiptExtraction → ReceiptCheck
check_amount s row x = elim row [
  | none ↦ check amount unknown "Sin reserva vinculada para comparar el monto."
  | some r ↦ elim x.amount_cop [
    | none ↦ check amount unknown "No se pudo leer el monto."
    | some n ↦ elim (read_amount (some n)) [
      | none ↦ check amount fail "El monto debe ser mayor que cero."
      | some m ↦ compare_amount s r m
    ]
  ]
]

abbrev pub currency_ok : ReceiptText → Option String → Bool
currency_ok x none = true
currency_ok x (some c) = text_eq (x.upper (strip c)) "COP"

unfoldable pub check_currency : ReceiptText → ReceiptExtraction → ReceiptCheck
check_currency u x =
    if currency_ok u x.currency
    then check currency fine "Moneda compatible con pesos colombianos."
    else check currency fail "Moneda distinta de COP."

-- `re.sub(r"\D", "", settings.booking_account_number)`
abbrev pub account_digits : ReceiptText → Settings → String
account_digits u s = keep_chars u.decimal s.booking_account_number

unfoldable pub check_account : ReceiptText → Settings → ReceiptExtraction → ReceiptCheck
check_account u s x = elim x.destination_account_last4 [
  | none ↦ check account unknown "No se pudo comparar la cuenta destino."
  | some last4 ↦
      if ltb (text_length (account_digits u s)) 4
      then check account unknown "No se pudo comparar la cuenta destino."
      else if text_eq last4 (last_four (account_digits u s))
      then check account fine "Cuenta destino coincide."
      else check account fail "Cuenta destino no coincide"
]

unfoldable pub check_date : Option Reservation → ReceiptExtraction → ℕ → ReceiptCheck
check_date row x today = elim x.transaction_date [
  | none ↦ check date unknown "No se pudo leer la fecha."
  | some d ↦
      if ltb (today + 1) d then check date fail "Fecha futura superior a un día." else elim row [
        | none ↦ check date unknown "Sin reserva para comparar la fecha."
        | some r ↦
            if leb (date_of r.created_at - 2) d
            then check date fine "Fecha dentro del intervalo esperado."
            else check date warn "Fecha anterior al intervalo."
      ]
]

-- `normalize_reference(extraction.reference or "")`
abbrev pub read_reference : ReceiptText → Option String → String
read_reference u none = normalize_reference u ""
read_reference u (some r) = normalize_reference u r

abbrev pub was_used : ReceiptText → List String → String → Bool
was_used u previous mine = any_of (λ r. text_eq mine (normalize_reference u r)) previous

unfoldable pub check_reference : ReceiptText → List String → ReceiptExtraction → ReceiptCheck
check_reference u previous x =
    if is_empty_text (read_reference u x.reference)
    then check reference unknown "No se pudo leer la referencia."
    else if was_used u previous (read_reference u x.reference)
    then check reference fail "Referencia ya usada"
    else check reference fine "Referencia sin aceptación previa."

unfoldable pub check_confidence : Settings → ReceiptExtraction → ReceiptCheck
check_confidence s x =
    if leb s.payment_review_confidence_ok x.confidence
    then check confidence fine "Lectura con confianza alta."
    else if leb s.payment_review_confidence_min x.confidence
    then check confidence warn "Lectura con confianza media."
    else check confidence fail "Lectura con confianza baja."

abbrev pub is_fail : CheckResult → Bool
is_fail fail = true
is_fail _ = false

abbrev pub rejects : ReceiptCheck → Bool
rejects c = elim c.code [ account ↦ is_fail c.result | reference ↦ is_fail c.result | _ ↦ false ]

abbrev pub may_be_unknown : CheckCode → Bool
may_be_unknown date = true
may_be_unknown reference = true
may_be_unknown _ = false

abbrev pub passes : ReceiptCheck → Bool
passes c = elim c.result [ fine ↦ true | unknown ↦ may_be_unknown c.code | _ ↦ false ]

abbrev pub suggest : List ReceiptCheck → Suggestion
suggest checks =
    if any_of rejects checks then reject else if all_of passes checks then accept else review

abbrev pub receipt_checks :
    ReceiptText
    → ReceiptExtraction
    → Option Reservation
    → Settings
    → List String
    → ℕ
    → List ReceiptCheck
receipt_checks u x row s previous now =
    check_amount s row x
    ∷ check_currency u x
    ∷ check_account u s x
    ∷ check_date row x (date_of now)
    ∷ check_reference u previous x
    ∷ check_confidence s x
    ∷ []

-- A reservation's `created_at` comes from the database with its zone.
unfoldable pub evaluate_receipt :
    ReceiptText
    → ReceiptExtraction
    → Option Reservation
    → Settings
    → List String
    → Datetime
    → Result BookingError (List ReceiptCheck × Suggestion × Option ℕ)
evaluate_receipt u x row s previous now = do
  raise_if (not now.aware) (value_error "Receipt evaluation requires timezone-aware timestamps")
  let checks = receipt_checks u x row s previous now.at
  ok (checks, suggest checks, read_amount x.amount_cop)
