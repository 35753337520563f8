-- ===== src/Channel/Outbox/Process.antt =====
-- app/channel/worker.py: what one worker does with one claim, each transaction on the table that the last one left.
-- The provider and the media service are arguments, by what their calls give: `send n` is the provider at the call with
-- the number `n` of this run. The calls of the provider are listed.
use chat_bot_ceiba.Common.{
  ℕ, Bool, true, false, Option, none, some, List, [], ◌∷◌, ◌++◌, String, is_empty_text,
  if◌then◌else◌,
}
use chat_bot_ceiba.Channel.Outbox.Row.{
  text_message, document_message, Content, text_content, document_content, Deliveries,
}
use chat_bot_ceiba.Channel.Outbox.Admission.{
  Decision, eligible_now, admitted_now, admit_outbox, check_outbox, reject_media_admission,
}
use chat_bot_ceiba.Channel.Outbox.Settle.{
  Limits, SettlementOutcome, applied, settle_outbox_success, settle_outbox_failure,
}
use chat_bot_ceiba.Channel.Outbox.Claim.{OutboxClaim}

-- A call of the provider: its message id, an exception with its text, or WhatsAppInvalidMediaError.
pub data SendResult : Type 0 where
  answered : String → SendResult
  raised : String → SendResult
  invalid_media : String → SendResult

-- A document that the media service has ready, an exception, or PermanentCatalogMediaError.
pub data MediaResult : Type 0 where
  resolved : String → String → MediaResult
  unavailable : String → MediaResult
  permanent_error : String → MediaResult

pub data Call : Type 0 where
  send_text : String → String → Call
  send_document : String → String → String → String → Call

-- One admission: the UUID that it draws, its time, and the time of the sending.
pub record Attempt : Type 0 where
  pub uuid : ℕ
  pub decided_at : ℕ
  pub sent_at : ℕ

-- The texts of the exceptions, the times of the other steps, and the key of the message that may be stored.
pub record Run : Type 0 where
  pub limits : Limits
  pub first : Attempt
  pub second : Attempt
  pub checked_at : ℕ
  pub rechecked_at : ℕ
  pub failed_at : ℕ
  pub new_message_id : ℕ
  pub no_body : String
  pub no_caption : String
  pub no_asset : String
  pub no_input : String

pub record Processed : Type 0 where
  pub outcome : SettlementOutcome
  pub calls : List Call
  pub store : Deliveries

abbrev pub finished : List Call → SettlementOutcome × Deliveries → Processed
finished calls (outcome, store) = record { outcome = outcome; calls = calls; store = store }

-- "DISCARDED" if decision == "DISCARDED" else "APPLIED"
abbrev pub refused : Decision → SettlementOutcome
refused Decision.discarded = SettlementOutcome.discarded
refused _ = applied

abbrev pub fail_with : Run → OutboxClaim → String → Bool → List Call → Deliveries → Processed
fail_with run claim error permanent calls s = finished calls (
    settle_outbox_failure claim.outbox_id claim.claim_token error run.failed_at permanent run.limits
      s)

abbrev pub succeed_with :
    Run → OutboxClaim → String → String → Content → ℕ → List Call → Deliveries → Processed
succeed_with run claim provider_id type content sent_at calls s = finished calls (
    settle_outbox_success claim.outbox_id claim.claim_token
      (record {
        provider_message_id = provider_id;
        message_type = type;
        content = content;
        sent_at = sent_at;
      })
      run.no_input run.new_message_id run.limits s)

abbrev pub is_admitted : Decision → Bool
is_admitted admitted_now = true
is_admitted _ = false

abbrev pub is_eligible_now : Decision → Bool
is_eligible_now eligible_now = true
is_eligible_now _ = false

abbrev pub admit : Attempt → OutboxClaim → Deliveries → Decision × Deliveries
admit a claim s = admit_outbox claim.outbox_id claim.claim_token a.uuid a.decided_at s

-- The text's branch of `process_claimed_outbox_item`, from the answer on.
unfoldable pub text_answer : Run → OutboxClaim → String → SendResult → Deliveries → Processed
text_answer run claim body (answered i) s =
    succeed_with run claim i "text" (text_content body) run.first.sent_at
      (send_text claim.recipient_phone_number body ∷ []) s
text_answer run claim body (raised e) s =
    fail_with run claim e false (send_text claim.recipient_phone_number body ∷ []) s
text_answer run claim body (invalid_media e) s =
    fail_with run claim e false (send_text claim.recipient_phone_number body ∷ []) s

unfoldable pub process_text : (ℕ → Call → SendResult) → Run → OutboxClaim → Deliveries → Processed
unfolding text_answer
process_text send run claim s = elim claim.payload.body [
  | none ↦ fail_with run claim run.no_body false [] s
  | some body ↦
      let (d, t) = admit run.first claim s in
      if is_admitted d
      then text_answer run claim body (send 0 (send_text claim.recipient_phone_number body)) t
      else finished [] (refused d, t)
]

-- `extract_document_caption`
abbrev pub extract_document_caption : OutboxClaim → Option String
extract_document_caption claim = elim claim.payload.caption [
  | none ↦ none
  | some text ↦ if is_empty_text text then none else some text
]

-- A document that is ready to be sent.
pub record Document : Type 0 where
  pub asset_id : ℕ
  pub caption : String
  pub media_id : String
  pub filename : String

abbrev pub document_call : OutboxClaim → Document → Call
document_call claim d = send_document claim.recipient_phone_number d.media_id d.filename d.caption

abbrev pub document_success :
    Run → OutboxClaim → Document → String → ℕ → List Call → Deliveries → Processed
document_success run claim d provider_id sent_at calls s =
    succeed_with run claim provider_id "document" (document_content d.asset_id d.filename d.caption)
      sent_at calls s

unfoldable pub second_answer :
    Run → OutboxClaim → Document → SendResult → List Call → Deliveries → Processed
second_answer run claim d (answered i) calls s =
    document_success run claim d i run.second.sent_at calls s
second_answer run claim d (raised e) calls s = fail_with run claim e false calls s
second_answer run claim d (invalid_media e) calls s = fail_with run claim e false calls s

-- The second call, with the media that was resolved again.
unfoldable pub document_second :
    (ℕ → Call → SendResult) → Run → OutboxClaim → Document → List Call → Deliveries → Processed
unfolding second_answer
document_second send run claim d calls s =
    let (decision, t) = admit run.second claim s in
    if is_admitted decision
    then second_answer run claim d (send 1 (document_call claim d))
        (calls ++ document_call claim d ∷ []) t
    else finished calls (refused decision, t)

-- From the second answer of the media service on.
unfoldable pub document_retried :
    (ℕ → Call → SendResult)
    → MediaResult
    → Run
    → OutboxClaim
    → Document
    → List Call
    → Deliveries
    → Processed
unfolding document_second
document_retried send (resolved media_id filename) run claim d calls s =
    document_second send run claim (record d { media_id = media_id; filename = filename }) calls s
document_retried send (unavailable e) run claim d calls s = fail_with run claim e false calls s
document_retried send (permanent_error e) run claim d calls s = fail_with run claim e true calls s

-- After the provider has refused the cached media; `invalidated` is the exception of the cache, if any.
unfoldable pub document_again :
    (ℕ → Call → SendResult)
    → Option String
    → MediaResult
    → Run
    → OutboxClaim
    → Document
    → List Call
    → Deliveries
    → Processed
unfolding document_retried
document_again send invalidated media run claim d calls s =
    let (mine, t) = reject_media_admission claim.outbox_id claim.claim_token s in
    let (decision, u) = check_outbox claim.outbox_id claim.claim_token run.rechecked_at t in
    let checked =
      if is_eligible_now decision
      then document_retried send media run claim d calls u
      else finished calls (refused decision, u) in
    if mine
    then (elim invalidated [ none ↦ checked | some e ↦ fail_with run claim e false calls t ])
    else finished calls (SettlementOutcome.discarded, t)

unfoldable pub first_answer :
    (ℕ → Call → SendResult)
    → Option String
    → MediaResult
    → Run
    → OutboxClaim
    → Document
    → SendResult
    → Deliveries
    → Processed
unfolding document_again
first_answer send invalidated again run claim d (answered i) s =
    document_success run claim d i run.first.sent_at (document_call claim d ∷ []) s
first_answer send invalidated again run claim d (raised e) s =
    fail_with run claim e false (document_call claim d ∷ []) s
first_answer send invalidated again run claim d (invalid_media e) s =
    document_again send invalidated again run claim d (document_call claim d ∷ []) s

-- The first call.
unfoldable pub document_first :
    (ℕ → Call → SendResult)
    → Option String
    → MediaResult
    → Run
    → OutboxClaim
    → Document
    → Deliveries
    → Processed
unfolding first_answer
document_first send invalidated again run claim d s =
    let (decision, t) = admit run.first claim s in
    if is_admitted decision
    then first_answer send invalidated again run claim d (send 0 (document_call claim d)) t
    else finished [] (refused decision, t)

-- From the first answer of the media service on.
unfoldable pub document_resolved :
    (ℕ → Call → SendResult)
    → Option String
    → MediaResult
    → MediaResult
    → Run
    → OutboxClaim
    → ℕ
    → String
    → Deliveries
    → Processed
unfolding document_first
document_resolved send invalidated (resolved media_id filename) again run claim asset caption s =
    document_first send invalidated again run claim
      (record { asset_id = asset; caption = caption; media_id = media_id; filename = filename }) s
document_resolved send invalidated (unavailable e) again run claim asset caption s =
    fail_with run claim e false [] s
document_resolved send invalidated (permanent_error e) again run claim asset caption s =
    fail_with run claim e true [] s

-- `process_claimed_document_outbox_item`; `media` is the media service at its first and its second call.
unfoldable pub process_document :
    (ℕ → Call → SendResult)
    → Option String
    → MediaResult
    → MediaResult
    → Run
    → OutboxClaim
    → Deliveries
    → Processed
unfolding document_resolved
process_document send invalidated media again run claim s =
    let (decision, t) = check_outbox claim.outbox_id claim.claim_token run.checked_at s in
    if is_eligible_now decision
    then (elim (extract_document_caption claim) [
      | none ↦ fail_with run claim run.no_caption false [] t
      | some caption ↦ elim claim.catalog_asset_id [
        | none ↦ fail_with run claim run.no_asset false [] t
        | some asset ↦ document_resolved send invalidated media again run claim asset caption t
      ]
    ])
    else finished [] (refused decision, t)

unfoldable pub process_claimed_outbox_item :
    (ℕ → Call → SendResult)
    → Option String
    → MediaResult
    → MediaResult
    → Run
    → OutboxClaim
    → Deliveries
    → Processed
unfolding process_text process_document
process_claimed_outbox_item send invalidated media again run claim s = elim claim.message_kind [
  | document_message ↦ process_document send invalidated media again run claim s
  | text_message ↦ process_text send run claim s
]
