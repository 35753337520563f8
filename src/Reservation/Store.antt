-- ===== src/Reservation/Store.antt =====
-- The rows that one transaction of the booking side reads and writes. The tables with serial ids are
-- listed in the order of the ids. A plan is found through a foreign key, so the lookup is total.
use chat_bot_ceiba.Common.{ℕ, Bool, List, [], ◌∷◌, ◌++◌}
use chat_bot_ceiba.Rows.Settings.{Settings}
use chat_bot_ceiba.Rows.Plan.{Plan}
use chat_bot_ceiba.Rows.Reservation.{Reservation}
use chat_bot_ceiba.Rows.Evidence.{PaymentEvidence}
use chat_bot_ceiba.Rows.Audit.{AuditEvent}
use chat_bot_ceiba.Rows.Table.{put}

-- app/notifications/models.py
pub data EventKind : Type 0 where
  evidence_received payment_pending_created test_notice balance_overdue : EventKind

pub data SourceEntity : Type 0 where
  reservation_source evidence_source : SourceEntity

pub record NotificationRecipient : Type 0 where
  pub recipient_id : ℕ
  pub active : Bool
  pub notify_on_evidence : Bool
  pub notify_on_payment_pending : Bool

-- The values that `build_params` renders to text, before the rendering.
pub record StaffParams : Type 0 where
  pub customer_id : ℕ
  pub plan_id : ℕ
  pub starts_at : ℕ
  pub amount_cop : ℕ

pub record StaffNotice : Type 0 where
  pub recipient_id : ℕ
  pub event_kind : EventKind
  pub source_entity : SourceEntity
  pub source_id : ℕ
  pub params : StaffParams

pub record Store : Type 0 where
  pub settings : Settings
  pub now : ℕ
  pub plan : ℕ → Plan
  pub reservations : List Reservation
  pub evidences : List PaymentEvidence
  pub recipients : List NotificationRecipient
  pub staff_outbox : List StaffNotice
  pub audits : List AuditEvent

abbrev pub add_audit : AuditEvent → Store → Store
add_audit e s = record s { audits = s.audits ++ e ∷ [] }

abbrev pub reservation_key : Reservation → ℕ
reservation_key r = r.reservation_id

abbrev pub evidence_key : PaymentEvidence → ℕ
evidence_key e = e.evidence_id

abbrev pub put_reservation : Reservation → Store → Store
put_reservation r s = record s { reservations = put reservation_key r s.reservations }

abbrev pub put_evidence : PaymentEvidence → Store → Store
put_evidence e s = record s { evidences = put evidence_key e s.evidences }
