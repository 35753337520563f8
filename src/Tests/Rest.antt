-- ===== src/Tests/Rest.antt =====
-- Runs of the receipt checks, the notification queue and the transitions of a conversation.
use chat_bot_ceiba.Common.{
  Bool, ℕ, ◌+◌, ◌*◌, ◌≤◌, ◌<◌, ◌≡◌, ◌↔◌, ◌⊎◌, refl, true, false, ◌||◌, Option, none, some, List, [],
  ◌∷◌, String, ok, text_eq, keep_chars,
}
use chat_bot_ceiba.Rows.Audit.{AuditEvent}
use chat_bot_ceiba.Rows.Settings.{second}
use chat_bot_ceiba.Rows.Reservation.{Reservation, payment_review, is_reserved}
use chat_bot_ceiba.Rows.Evidence.{Suggestion, accept, reject}
use chat_bot_ceiba.Rows.Table.{get}
use chat_bot_ceiba.Reservation.Deposit.{round_deposit}
use chat_bot_ceiba.Reservation.Window.{Datetime}
use chat_bot_ceiba.Payment.Receipt.{
  ReceiptCheck, ReceiptExtraction, ReceiptText, text_length, last_four, normalize_reference,
  check_amount, check_currency, check_account, check_date, check_reference, check_confidence,
  account_digits, currency_ok, evaluate_receipt,
}
use chat_bot_ceiba.Payment.Receipt.Suggest.{
  wrong_account, used_reference, evaluate_receipt-accepts, evaluate_receipt-rejects,
}
use chat_bot_ceiba.Notifications.Queue.{
  maintain_queue, NotificationRow, sent, failed, pending, sending, delivered, SendError, Queue,
  notice_key, settle_claim, backoff_seconds,
}
use chat_bot_ceiba.Notifications.Queue.Care.{IsCaredFor, maintain_queue-tends}
use chat_bot_ceiba.Notifications.Queue.Life.{settle_claim-fails}
use chat_bot_ceiba.Conversation.{
  set_state, Conversation, bot_active, waiting_for_human, human_active, transition_conversation,
}
use chat_bot_ceiba.Conversation.Reach.{Move, run, is_new, events, run-keeps}
use chat_bot_ceiba.Tests.Data.{settings, booking, returned}

abbrev ascii : ReceiptText
ascii = record {
  nfkc = λ s. s;
  casefold = λ s. s;
  upper = λ s. s;
  alnum = λ c. true;
  decimal = λ c. true;
}

abbrev reading : ReceiptExtraction
reading = record {
  amount_cop = some 150_000;
  currency = none;
  transaction_date = none;
  reference = some "R1";
  destination_account_last4 = some "1234";
  confidence = 90;
}

abbrev noon : Datetime
noon = record { at = 1000; aware = true }

abbrev verdict : List ReceiptCheck × Suggestion × Option ℕ
verdict =
    returned ([], reject, none)
      (evaluate_receipt ascii reading (some (booking payment_review)) settings [] noon)

verdict_accepts :
    evaluate_receipt ascii reading (some (booking payment_review)) settings [] noon
    ≡ ok (verdict.0, accept, verdict.2)
unfolding evaluate_receipt check_amount check_currency check_account check_date check_reference
    check_confidence text_length last_four normalize_reference keep_chars
verdict_accepts = refl

evaluate_receipt-accepts_example :
    (currency_ok ascii none ≡ true)
    × (80 ≤ 90)
    × (used_reference ascii [] reading ≡ false)
    × ((last4 : String) × (reading.destination_account_last4 ≡ some last4)
        × (text_eq last4 (last_four (account_digits ascii settings)) ≡ true))
    × ((r : Reservation) × (m : ℕ) × (some (booking payment_review) ≡ some r)
        × (reading.amount_cop ≡ some m)
        × (0 < m)
        × (((is_reserved r.status ≡ true) × (r.price_cop ≤ r.amount_paid_cop + m))
            ⊎ ((is_reserved r.status ≡ false)
                × (round_deposit 30 r.price_cop ≤ r.amount_paid_cop + m))))
evaluate_receipt-accepts_example =
    evaluate_receipt-accepts ascii reading (some (booking payment_review)) settings [] noon
      verdict.0 verdict.2 verdict_accepts

evaluate_receipt-rejects_example :
    (accept ≡ reject)
    ↔ ((wrong_account ascii settings reading || used_reference ascii [] reading) ≡ true)
evaluate_receipt-rejects_example =
    evaluate_receipt-rejects ascii reading (some (booking payment_review)) settings [] noon
      verdict.0 accept verdict.2 verdict_accepts

abbrev notice : NotificationRow
notice = record {
  notice_id = 4;
  status = sending;
  attempts = 1;
  next_attempt_at = 0;
  claim_token = some 99;
  claimed_at = some 10;
  last_error = none;
  last_error_code = none;
  message_kind = none;
  created_at = 1;
  updated_at = 1;
}

abbrev outage : SendError
outage = record { message = "HTTP 503"; code = none; permanent = false }

abbrev queue : Queue
queue = record { settings = settings; rows = notice ∷ []; trail = [] }

abbrev unchanged : NotificationRow → NotificationRow
unchanged r = r

notice_stored : get notice_key 4 queue.rows ≡ some notice
unfolding get
notice_stored = refl

settle_claim-fails_example :
    (r' : NotificationRow) × (get notice_key 4
        (settle_claim 4 99 50 sent (some outage) unchanged queue).rows
      ≡ some r')
    × (r'.claim_token ≡ none)
    × (r'.attempts ≡ 2)
    × (((r'.status ≡ failed)
          × ((outage.permanent ≡ true) ⊎ (settings.staff_outbox_max_attempts ≤ 2)))
        ⊎ ((r'.status ≡ pending)
            × (outage.permanent ≡ false)
            × (2 < settings.staff_outbox_max_attempts)
            × (r'.next_attempt_at
                ≡ 50 + backoff_seconds 2 settings.outbox_max_backoff_seconds * second)))
settle_claim-fails_example =
    settle_claim-fails 4 99 50 sent outage unchanged queue notice notice_stored refl

abbrev nobody_busy : ℕ → Bool
nobody_busy k = false

maintain_queue-tends_example :
    (r' : NotificationRow) × (get notice_key 4 (maintain_queue nobody_busy 900_000_000 queue).rows
      ≡ some r')
    × IsCaredFor nobody_busy 900_000_000 settings 4 notice r'
maintain_queue-tends_example =
    maintain_queue-tends nobody_busy 900_000_000 queue 4 notice (tt, tt) notice_stored

abbrev read_notice : NotificationRow
read_notice = record notice { status = delivered; claim_token = none }

abbrev talk : Conversation
talk = record {
  conversation_id = 1;
  customer_id = 7;
  state = bot_active;
  bot_enabled = true;
  automation_epoch = "5b8e";
  assigned_agent_id = none;
  pending_action = none;
  context = 40;
}

abbrev handover : List Move
handover = (waiting_for_human, "SYSTEM", none, "91c0") ∷ (human_active, "asesor", none, "d27f") ∷ []

abbrev handed : Conversation × List AuditEvent
handed = returned (talk, []) (run handover talk [])

handover_runs : run handover talk [] ≡ ok (handed.0, handed.1)
unfolding transition_conversation set_state
handover_runs = refl

run-keeps_example :
    (handed.0 ≡ record talk { state = human_active; automation_epoch = handed.0.automation_epoch })
    × (handed.1 ≡ events 1 bot_active handover)
    × ((handover ≡ []) ⊎ (is_new handed.0.state ≡ false))
run-keeps_example = run-keeps handover talk [] handed.0 handed.1 handover_runs
