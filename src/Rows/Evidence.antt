-- ===== src/Rows/Evidence.antt =====
-- app/payment/models.py: a receipt sent by a customer, and one assisted review of it.
use chat_bot_ceiba.Common.{ℕ, Bool, true, false, Option, String}

-- DOWNLOAD_STATUSES
pub data DownloadStatus : Type 0 where
  pending downloaded failed_retryable failed_permanent : DownloadStatus

-- REVIEW_STATUSES
pub data ReviewStatus : Type 0 where
  pending_review accepted rejected : ReviewStatus

abbrev pub is_pending_review : ReviewStatus → Bool
is_pending_review pending_review = true
is_pending_review _ = false

abbrev pub is_accepted : ReviewStatus → Bool
is_accepted accepted = true
is_accepted _ = false

abbrev pub is_failed_permanent : DownloadStatus → Bool
is_failed_permanent failed_permanent = true
is_failed_permanent _ = false

-- download_status IN ('DOWNLOADED', 'FAILED_PERMANENT')
abbrev pub is_settled_download : DownloadStatus → Bool
is_settled_download downloaded = true
is_settled_download failed_permanent = true
is_settled_download _ = false

pub record PaymentEvidence : Type 0 where
  pub evidence_id : ℕ
  pub conversation_id : ℕ
  pub customer_id : ℕ
  pub message_id : ℕ
  pub mime_type : String
  pub download_status : DownloadStatus
  pub prereview_claim_token : Option ℕ
  pub prereview_claimed_at : Option ℕ
  pub review_status : ReviewStatus
  pub reviewed_by_agent_id : Option ℕ
  pub reviewed_at : Option ℕ
  pub review_note : Option String
  pub amount_cop : Option ℕ
  pub reservation_id : Option ℕ
  pub created_at : ℕ

pub data AttemptStatus : Type 0 where
  completed failed skipped : AttemptStatus

abbrev pub is_completed : AttemptStatus → Bool
is_completed completed = true
is_completed _ = false

pub data Suggestion : Type 0 where
  accept review reject : Suggestion

-- The columns of PaymentEvidenceReview that the settlement reads.
pub record PaymentEvidenceReview : Type 0 where
  pub review_id : ℕ
  pub evidence_id : ℕ
  pub status : AttemptStatus
  pub suggestion : Suggestion
  pub suggested_amount_cop : Option ℕ
  pub attempt_number : ℕ
