-- ===== src/Payment/Receipt/Suggest.antt =====
-- When a receipt is suggested for acceptance, and when for rejection.
use chat_bot_ceiba.Common.{
  ℕ, ◌+◌, ◌≤◌, ◌<◌, ◌≡◌, ◌↔◌, ◌⊎◌, refl, inl, inr, Bool, true, false, not, ◌&&◌, ◌||◌, Option, none,
  some, List, String, ok, arith, ltb, text_eq, is_empty_text, any_of, all_of, Bool-cases,
  Option-cases, raise_if-eq-ok,
}
use chat_bot_ceiba.Rows.Settings.{Settings, date_of}
use chat_bot_ceiba.Rows.Reservation.{Reservation, is_reserved}
use chat_bot_ceiba.Rows.Evidence.{Suggestion, accept, reject}
use chat_bot_ceiba.Reservation.Deposit.{round_deposit}
use chat_bot_ceiba.Reservation.Window.{Datetime}
use chat_bot_ceiba.Payment.Receipt.{
  ReceiptCheck, ReceiptExtraction, ReceiptText, text_length, last_four, account_digits, currency_ok,
  read_reference, was_used, check_amount, check_currency, check_account, check_date,
  check_reference, check_confidence, passes, rejects, receipt_checks, suggest, evaluate_receipt,
}

-- The receipt is made out to an account other than the business's.
abbrev pub wrong_account : ReceiptText → Settings → ReceiptExtraction → Bool
wrong_account u s x = elim x.destination_account_last4 [
  | none ↦ false
  | some last4 ↦
      not (ltb (text_length (account_digits u s)) 4)
      && not (text_eq last4 (last_four (account_digits u s)))
]

-- Its reference was accepted before.
abbrev pub used_reference : ReceiptText → List String → ReceiptExtraction → Bool
used_reference u previous x =
    not (is_empty_text (read_reference u x.reference))
    && was_used u previous (read_reference u x.reference)

amount_rejects :
    (s : Settings) (row : Option Reservation) (x : ReceiptExtraction)
    → rejects (check_amount s row x) ≡ false
unfolding check_amount
amount_rejects s row x = ground arith

currency_rejects : (u : ReceiptText) (x : ReceiptExtraction) → rejects (check_currency u x) ≡ false
unfolding check_currency
currency_rejects u x = ground arith

date_rejects :
    (row : Option Reservation) (x : ReceiptExtraction) (d : ℕ)
    → rejects (check_date row x d) ≡ false
unfolding check_date
date_rejects row x d = ground arith

confidence_rejects : (s : Settings) (x : ReceiptExtraction) → rejects (check_confidence s x) ≡ false
unfolding check_confidence
confidence_rejects s x = ground arith

account_rejects :
    (u : ReceiptText) (s : Settings) (x : ReceiptExtraction)
    → rejects (check_account u s x) ≡ wrong_account u s x
unfolding check_account
account_rejects u s x = ground arith

reference_rejects :
    (u : ReceiptText) (previous : List String) (x : ReceiptExtraction)
    → rejects (check_reference u previous x) ≡ used_reference u previous x
unfolding check_reference
reference_rejects u previous x = ground arith

any_rejects :
    (u : ReceiptText) (x : ReceiptExtraction) (row : Option Reservation) (s : Settings)
    (previous : List String) (t : ℕ)
    → any_of rejects (receipt_checks u x row s previous t)
      ≡ (wrong_account u s x || used_reference u previous x)
any_rejects u x row s previous t =
    rw
      (
        amount_rejects s row x,
        currency_rejects u x,
        account_rejects u s x,
        date_rejects row x (date_of t),
        reference_rejects u previous x,
        confidence_rejects s x,
      )
      (or_false (wrong_account u s x) (used_reference u previous x))
  where
    or_false : (a b : Bool) → (a || (b || false)) ≡ (a || b)
    or_false a b = ground arith

suggest_iff : (cs : List ReceiptCheck) → (suggest cs ≡ reject) ↔ (any_of rejects cs ≡ true)
suggest_iff cs = elim (Bool-cases (any_of rejects cs)) [
  | inl bad ↦ ((λ h. bad), (λ h. rw bad refl))
  | inr good ↦ ground arith
]

-- The evaluation at a time with a zone suggests a rejection exactly when the receipt is made out to another
-- account or repeats the reference of an accepted one; no other check rejects.
pub evaluate_receipt-rejects :
    (u : ReceiptText) (x : ReceiptExtraction) (row : Option Reservation) (s : Settings)
    (previous : List String) (now : Datetime) (checks : List ReceiptCheck) (suggestion : Suggestion)
    (n : Option ℕ)
    → evaluate_receipt u x row s previous now ≡ ok (checks, suggestion, n)
    → (suggestion ≡ reject) ↔ ((wrong_account u s x || used_reference u previous x) ≡ true)
unfolding evaluate_receipt
evaluate_receipt-rejects u x row s previous now checks suggestion n h =
    let (aware, rest) = raise_if-eq-ok (not now.aware) _ _ h in
    let same : suggestion ≡ suggest (receipt_checks u x row s previous now.at) = ground arith in
    rw (same, ← any_rejects u x row s previous now.at)
      (suggest_iff (receipt_checks u x row s previous now.at))

amount_passes :
    (s : Settings) (row : Option Reservation) (x : ReceiptExtraction)
    → passes (check_amount s row x) ≡ true
    → (r : Reservation) × (n : ℕ) × (row ≡ some r)
      × (x.amount_cop ≡ some n)
      × (0 < n)
      × (((is_reserved r.status ≡ true) × (r.price_cop ≤ r.amount_paid_cop + n))
          ⊎ ((is_reserved r.status ≡ false)
              × (round_deposit s.booking_deposit_percent r.price_cop ≤ r.amount_paid_cop + n)))
unfolding check_amount
amount_passes s none x h = cc
amount_passes s (some r) x h = elim (Option-cases x.amount_cop) [
  | inl unread ↦ ground arith
  | inr (n, read) ↦ (
    r,
    n,
    refl,
    read,
    ground arith,
    elim (Bool-cases (is_reserved r.status)) [
      | inl taken ↦ inl (taken, ground arith)
      | inr idle ↦ inr (idle, ground arith)
    ],
  )
]

account_passes :
    (u : ReceiptText) (s : Settings) (x : ReceiptExtraction)
    → passes (check_account u s x) ≡ true
    → (last4 : String) × (x.destination_account_last4 ≡ some last4)
      × (text_eq last4 (last_four (account_digits u s)) ≡ true)
unfolding check_account
account_passes u s x h = elim (Option-cases x.destination_account_last4) [
  | inl unread ↦ ground arith
  | inr (last4, read) ↦ (last4, read, ground arith)
]

confidence_passes :
    (s : Settings) (x : ReceiptExtraction)
    → passes (check_confidence s x) ≡ true
    → s.payment_review_confidence_ok ≤ x.confidence
unfolding check_confidence
confidence_passes s x h = ground arith

currency_passes :
    (u : ReceiptText) (x : ReceiptExtraction)
    → passes (check_currency u x) ≡ true
    → currency_ok u x.currency ≡ true
unfolding check_currency
currency_passes u x h = ground arith

suggest_accept :
    (cs : List ReceiptCheck)
    → suggest cs ≡ accept
    → (any_of rejects cs ≡ false) × (all_of passes cs ≡ true)
suggest_accept cs h = ground arith

-- An evaluation that suggests acceptance has a linked reservation, a positive amount read from the receipt that
-- completes its deposit, or its price where it is reserved, a compatible currency, the last four digits of the
-- business's account and a confidence of at least the upper threshold, and it does not repeat the reference of an
-- accepted receipt; a reference that could not be read repeats none.
pub evaluate_receipt-accepts :
    (u : ReceiptText) (x : ReceiptExtraction) (row : Option Reservation) (s : Settings)
    (previous : List String) (now : Datetime) (checks : List ReceiptCheck) (n : Option ℕ)
    → evaluate_receipt u x row s previous now ≡ ok (checks, accept, n)
    → (currency_ok u x.currency ≡ true)
      × (s.payment_review_confidence_ok ≤ x.confidence)
      × (used_reference u previous x ≡ false)
      × ((last4 : String) × (x.destination_account_last4 ≡ some last4)
          × (text_eq last4 (last_four (account_digits u s)) ≡ true))
      × ((r : Reservation) × (m : ℕ) × (row ≡ some r)
          × (x.amount_cop ≡ some m)
          × (0 < m)
          × (((is_reserved r.status ≡ true) × (r.price_cop ≤ r.amount_paid_cop + m))
              ⊎ ((is_reserved r.status ≡ false)
                  × (round_deposit s.booking_deposit_percent r.price_cop ≤ r.amount_paid_cop + m))))
unfolding evaluate_receipt
evaluate_receipt-accepts u x row s previous now checks n h =
    let (aware, rest) = raise_if-eq-ok (not now.aware) _ _ h in
    let same : suggest (receipt_checks u x row s previous now.at) ≡ accept = ground arith in
    let rejected = any_rejects u x row s previous now.at in
    let (clear, good) = suggest_accept (receipt_checks u x row s previous now.at) same in
    let (a, c, d, f) = all_six (passes (check_amount s row x)) _ _ _ _ _ good in
    (
      currency_passes u x c,
      confidence_passes s x f,
      or_none (wrong_account u s x) (used_reference u previous x) (rw (← rejected) clear),
      account_passes u s x d,
      amount_passes s row x a,
    )
  where
    all_six :
        (a b c d e f : Bool)
        → (a && (b && (c && (d && (e && (f && true)))))) ≡ true
        → (a ≡ true) × (b ≡ true) × (c ≡ true) × (f ≡ true)
    all_six a b c d e f k = ground arith

    or_none : (a b : Bool) → (a || b) ≡ false → b ≡ false
    or_none a b k = ground arith
