-- ===== src/Tests/Data.antt =====
-- The rows that the runs share: one plan, one customer, a reservation in review and its receipt.
use chat_bot_ceiba.Common.{
  ℕ, ◌+◌, ◌*◌, true, false, Option, none, some, List, [], ◌∷◌, Result, ok, err,
}
use chat_bot_ceiba.Rows.Settings.{Settings}
use chat_bot_ceiba.Rows.Plan.{Plan, romantic_dinner}
use chat_bot_ceiba.Rows.Reservation.{
  Reservation, ReservationStatus, payment_pending, payment_review, not_synced,
}
use chat_bot_ceiba.Rows.Evidence.{PaymentEvidence, downloaded, pending_review}
use chat_bot_ceiba.Reservation.Availability.{Unicode}
use chat_bot_ceiba.Reservation.Store.{Store, NotificationRecipient}
use chat_bot_ceiba.Reservation.Settlement.{Acceptance}
use chat_bot_ceiba.Reservation.Booking.{BookingRequest, Event}

abbrev pub settings : Settings
settings = record {
  staff_notifications_enabled = true;
  booking_exclusivity_keyword = "reserva";
  booking_account_number = "0001234";
  booking_hours_start = 8 * 3_600_000_000;
  booking_hours_end = 24 * 3_600_000_000;
  booking_latest_start = 20 * 3_600_000_000;
  booking_min_lead_days = 1;
  booking_deposit_percent = 30;
  inbox_batch_size = 10;
  inbox_claim_timeout_seconds = 120;
  inbox_max_attempts = 3;
  inbox_max_backoff_seconds = 300;
  outbox_max_backoff_seconds = 300;
  outbox_sending_timeout_seconds = 120;
  staff_deferred_max_age_hours = 48;
  staff_outbox_max_attempts = 3;
  payment_review_ai_enabled = true;
  payment_review_max_attempts = 2;
  payment_review_confidence_ok = 80;
  payment_review_confidence_min = 50;
}

abbrev pub plan : Plan
plan = record {
  plan_id = 1;
  code = "CENA";
  name = "Cena";
  event_type = romantic_dinner;
  price_cop = 500_000;
  duration_minutes = 120;
  exclusive = true;
  weekend_only = false;
  overnight = false;
  checkin_from = none;
  checkout_time = some (12 * 3_600_000_000);
  active = true;
}

-- Ten in the morning of the hundredth day.
abbrev pub morning : ℕ
morning = 100 * 86_400_000_000 + 10 * 3_600_000_000

abbrev pub booking : ReservationStatus → Reservation
booking status = record {
  reservation_id = 1;
  lead_id = 1;
  event_id = 1;
  plan_id = 1;
  conversation_id = some 1;
  customer_id = 7;
  status = status;
  starts_at = morning;
  ends_at = morning + 120 * 60_000_000;
  price_cop = 500_000;
  amount_paid_cop = 0;
  payment_kind = none;
  balance_due_at = none;
  balance_overdue_at = none;
  hold_expires_at = none;
  external_calendar_id = none;
  calendar_status = not_synced;
  created_at = 5;
}

abbrev pub receipt : Option ℕ → PaymentEvidence
receipt link = record {
  evidence_id = 11;
  conversation_id = 1;
  customer_id = 7;
  message_id = 21;
  mime_type = "image/png";
  download_status = downloaded;
  prereview_claim_token = none;
  prereview_claimed_at = none;
  review_status = pending_review;
  reviewed_at = none;
  reviewed_by_agent_id = none;
  review_note = none;
  amount_cop = none;
  reservation_id = link;
  created_at = 6;
}

abbrev pub advisor : NotificationRecipient
advisor = record {
  recipient_id = 31;
  active = true;
  notify_on_evidence = true;
  notify_on_payment_pending = true;
}

abbrev pub world : List Reservation → List PaymentEvidence → Store
world rows evidences = record {
  settings = settings;
  now = 1000;
  plan = λ k. plan;
  reservations = rows;
  evidences = evidences;
  recipients = advisor ∷ [];
  staff_outbox = [];
  audits = [];
}

abbrev pub in_review : Store
in_review = world (booking payment_review ∷ []) (receipt (some 1) ∷ [])

abbrev pub waiting : Store
waiting = world (booking payment_pending ∷ []) (receipt none ∷ [])

abbrev pub plain : Unicode
plain = record { casefold = λ s. s; nfkd = λ s. s; combining = λ c. false }

abbrev pub whole_deposit : Acceptance
whole_deposit = record {
  amount_cop = 150_000;
  actor = "asesor";
  note = none;
  calendar_blockers = [];
  review = none;
}

abbrev pub event : Event
event = record {
  event_id = 1;
  event_type = romantic_dinner;
  plan_id = none;
  event_date = none;
  event_date_type = none;
  event_month = none;
  event_date_raw = none;
}

abbrev pub request : BookingRequest
request = record {
  reservation_id = 2;
  lead_id = 1;
  event = event;
  plan = plan;
  conversation_id = some 1;
  customer_id = 7;
  starts_at = record { at = morning; aware = true };
  actor = "cliente";
}

-- What a call that returned has returned.
abbrev pub returned {ℓ κ} : {E : Type ℓ} {A : Type κ} → A → Result E A → A
returned d (ok a) = a
returned d (err e) = d
