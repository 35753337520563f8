-- ===== src/Channel/Outbox/Stale.antt =====
-- A worker whose claim was taken over.
use chat_bot_ceiba.Common.{
  ℕ, ◌≡◌, refl, inl, inr, Bool, true, false, not, ◌||◌, Option, none, some, [], String, arith,
  Option-cases,
}
use chat_bot_ceiba.Rows.Table.{get}
use chat_bot_ceiba.Channel.Outbox.Row.{OutboxRow, Deliveries, outbox_key, phase_is_admitted}
use chat_bot_ceiba.Channel.Outbox.Admission.{
  Decision, lock_delivery_row, owns, decide, reject_media_admission,
}
use chat_bot_ceiba.Channel.Outbox.Settle.{
  Limits, Answer, discarded, settle_outbox_success, settle_outbox_failure, lock_owned_outbox,
}
use chat_bot_ceiba.Channel.Outbox.Claim.{OutboxClaim}
use chat_bot_ceiba.Channel.Outbox.Moves.{lock_delivery_row-get}
use chat_bot_ceiba.Channel.Outbox.Process.{
  SendResult, MediaResult, Call, Run, process_text, process_document, process_claimed_outbox_item,
}
use chat_bot_ceiba.Channel.Outbox.Finish.{MessageKind-cases}

-- The stored row, if there is one, is not SENDING with this token.
abbrev pub IsForeign : ℕ → ℕ → Deliveries → Type 0
IsForeign k token s = (r : OutboxRow) → get outbox_key k s.rows ≡ some r → owns token r ≡ false

decide-foreign :
    (k token : ℕ) (admit : Bool) (uuid now : ℕ) (s : Deliveries)
    → IsForeign k token s
    → decide k token admit uuid now s ≡ (Decision.discarded, s)
unfolding decide
decide-foreign k token admit uuid now s foreign = elim (Option-cases (lock_delivery_row k s)) [
  | inl missing ↦ rw (decide, missing) refl
  | inr ((c, r), found) ↦
      let other = foreign r (lock_delivery_row-get k s c r found) in
      let shut : (not (owns token r) || phase_is_admitted r.send_admission) ≡ true = ground arith in
      rw (decide, found, shut) refl
]

pub reject-foreign :
    (k token : ℕ) (s : Deliveries)
    → IsForeign k token s
    → reject_media_admission k token s ≡ (false, s)
unfolding reject_media_admission
reject-foreign k token s foreign = elim (Option-cases (lock_delivery_row k s)) [
  | inl missing ↦ rw (reject_media_admission, missing) refl
  | inr ((c, r), found) ↦
      rw (reject_media_admission, found, foreign r (lock_delivery_row-get k s c r found)) refl
]

lock_owned_outbox-foreign :
    (k token : ℕ) (s : Deliveries) → IsForeign k token s → lock_owned_outbox k token s ≡ none
unfolding lock_owned_outbox
lock_owned_outbox-foreign k token s foreign = elim (Option-cases (lock_delivery_row k s)) [
  | inl missing ↦ rw (lock_owned_outbox, missing) refl
  | inr ((c, r), found) ↦
      rw (lock_owned_outbox, found, foreign r (lock_delivery_row-get k s c r found)) refl
]

pub failure-foreign :
    (k token : ℕ) (error : String) (now : ℕ) (permanent : Bool) (l : Limits) (s : Deliveries)
    → IsForeign k token s
    → settle_outbox_failure k token error now permanent l s ≡ (discarded, s)
unfolding settle_outbox_failure
failure-foreign k token error now permanent l s foreign =
    rw (settle_outbox_failure, lock_owned_outbox-foreign k token s foreign) refl

pub success-foreign :
    (k token : ℕ) (a : Answer) (missing : String) (new_id : ℕ) (l : Limits) (s : Deliveries)
    → IsForeign k token s
    → settle_outbox_success k token a missing new_id l s ≡ (discarded, s)
unfolding settle_outbox_success
success-foreign k token a missing new_id l s foreign =
    rw (settle_outbox_success, lock_owned_outbox-foreign k token s foreign) refl

process_text-foreign :
    (send : ℕ → Call → SendResult) (run : Run) (claim : OutboxClaim) (s : Deliveries)
    → IsForeign claim.outbox_id claim.claim_token s
    → process_text send run claim s ≡ record { outcome = discarded; calls = []; store = s }
unfolding process_text
process_text-foreign send run claim s foreign = elim (Option-cases claim.payload.body) [
  | inl no_body ↦
      rw
        (
          process_text,
          no_body,
          failure-foreign claim.outbox_id claim.claim_token run.no_body run.failed_at false
              run.limits s foreign,
        )
        refl
  | inr (body, there) ↦
      rw
        (
          process_text,
          there,
          decide-foreign claim.outbox_id claim.claim_token true run.first.uuid run.first.decided_at
              s foreign,
        )
        refl
]

process-foreign :
    (send : ℕ → Call → SendResult) (invalidated : Option String) (media again : MediaResult)
    (run : Run) (claim : OutboxClaim) (s : Deliveries)
    → IsForeign claim.outbox_id claim.claim_token s
    → process_claimed_outbox_item send invalidated media again run claim s
      ≡ record { outcome = discarded; calls = []; store = s }
unfolding process_claimed_outbox_item process_document
process-foreign send invalidated media again run claim s foreign =
    elim (MessageKind-cases claim.message_kind) [
      | inl text ↦
          rw (process_claimed_outbox_item, text) (process_text-foreign send run claim s foreign)
      | inr document ↦
          rw
            (
              process_claimed_outbox_item,
              document,
              process_document,
              decide-foreign claim.outbox_id claim.claim_token false 0 run.checked_at s foreign,
            )
            refl
    ]

-- A late answer of a call, and a worker that comes late to its claim: when the stored row is not SENDING with the
-- claim's token, reporting a success, a failure or a refused medium is DISCARDED and writes nothing, and the processing of
-- the claim ends DISCARDED, with no call of the provider and nothing written.
pub foreign_claim_discarded :
    (claim : OutboxClaim) (s : Deliveries) (l : Limits)
    → IsForeign claim.outbox_id claim.claim_token s
    → ((a : Answer) (missing : String) (new_id : ℕ)
        → settle_outbox_success claim.outbox_id claim.claim_token a missing new_id l s
          ≡ (discarded, s))
      × ((error : String) (now : ℕ) (permanent : Bool)
          → settle_outbox_failure claim.outbox_id claim.claim_token error now permanent l s
            ≡ (discarded, s))
      × (reject_media_admission claim.outbox_id claim.claim_token s ≡ (false, s))
      × ((send : ℕ → Call → SendResult) (invalidated : Option String) (media again : MediaResult)
            (run : Run)
          → process_claimed_outbox_item send invalidated media again run claim s
            ≡ record { outcome = discarded; calls = []; store = s })
foreign_claim_discarded claim s l foreign = (
  λ a missing new_id.
      success-foreign claim.outbox_id claim.claim_token a missing new_id l s foreign,
  λ error now permanent.
      failure-foreign claim.outbox_id claim.claim_token error now permanent l s foreign,
  reject-foreign claim.outbox_id claim.claim_token s foreign,
  λ send invalidated media again run.
      process-foreign send invalidated media again run claim s foreign,
)
