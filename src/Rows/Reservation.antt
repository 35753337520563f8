-- ===== src/Rows/Reservation.antt =====
-- app/reservation/models.py
use chat_bot_ceiba.Common.{ℕ, ◌≡◌, refl, Bool, true, false, Option, arith}

-- RESERVATION_STATUSES
pub data ReservationStatus : Type 0 where
  payment_pending payment_review reserved expired cancelled : ReservationStatus

pub data PaymentKind : Type 0 where
  deposit full : PaymentKind

pub data CalendarStatus : Type 0 where
  not_synced confirmed : CalendarStatus

abbrev pub is_reserved : ReservationStatus → Bool
is_reserved reserved = true
is_reserved _ = false

abbrev pub is_payment_pending : ReservationStatus → Bool
is_payment_pending payment_pending = true
is_payment_pending _ = false

abbrev pub is_payment_review : ReservationStatus → Bool
is_payment_review payment_review = true
is_payment_review _ = false

pub record Reservation : Type 0 where
  pub reservation_id : ℕ
  pub lead_id : ℕ
  pub event_id : ℕ
  pub plan_id : ℕ
  pub conversation_id : Option ℕ
  pub customer_id : ℕ
  pub status : ReservationStatus
  pub starts_at : ℕ
  pub ends_at : ℕ
  pub price_cop : ℕ
  pub amount_paid_cop : ℕ
  pub payment_kind : Option PaymentKind
  pub balance_due_at : Option ℕ
  pub balance_overdue_at : Option ℕ
  pub hold_expires_at : Option ℕ
  pub external_calendar_id : Option ℕ
  pub calendar_status : CalendarStatus
  pub created_at : ℕ

pub reserved_of_test : (s : ReservationStatus) → is_reserved s ≡ true → s ≡ reserved
reserved_of_test reserved h = refl
reserved_of_test payment_pending h = ground arith
reserved_of_test payment_review h = ground arith
reserved_of_test expired h = ground arith
reserved_of_test cancelled h = ground arith
