-- ===== src/Channel/Outbox/Finish.antt =====
-- A worker alone with its claim: whatever the provider and the media service do, the row leaves its hands.
use chat_bot_ceiba.Common.{
  ℕ, ◌≤◌, ◌≡◌, ◌⊎◌, refl, inl, inr, Bool, true, false, Option, List, [], ◌∷◌, ◌++◌, String, arith,
  length, length-append, Option-cases,
}
use chat_bot_ceiba.Channel.Outbox.Row.{
  Deliveries, MessageKind, text_message, document_message, Content, text_content,
}
use chat_bot_ceiba.Channel.Outbox.Admission.{check_outbox, reject_media_admission}
use chat_bot_ceiba.Channel.Outbox.Settle.{applied}
use chat_bot_ceiba.Channel.Outbox.Claim.{OutboxClaim}
use chat_bot_ceiba.Channel.Outbox.Process.{
  SendResult, answered, raised, invalid_media, MediaResult, resolved, unavailable, permanent_error,
  Call, send_text, Run, Processed, Document, document_call, extract_document_caption, fail_with,
  succeed_with, text_answer, process_text, document_second, document_retried, document_again,
  document_first, second_answer, first_answer, document_resolved, process_document,
  process_claimed_outbox_item,
}
use chat_bot_ceiba.Channel.Outbox.Settles.{
  IsReleased, IsOwned, IsHeld, admit-held, check-IsHeld, reject-owned, failure-releases,
  success-releases,
}

-- The claim was settled, its row is in no worker's hands, and the provider was called at most `n` times.
abbrev pub Ends : ℕ → OutboxClaim → Processed → Type 0
Ends n claim p = (p.outcome ≡ applied) × IsReleased claim.outbox_id p.store × (length p.calls ≤ n)

fail_with-Ends :
    (n : ℕ) (run : Run) (claim : OutboxClaim) (e : String) (permanent : Bool) (calls : List Call)
    (s : Deliveries)
    → IsOwned claim.outbox_id claim.claim_token s
    → length calls ≤ n
    → Ends n claim (fail_with run claim e permanent calls s)
fail_with-Ends n run claim e permanent calls s mine few =
    let (done, free) =
      failure-releases claim.outbox_id claim.claim_token e run.failed_at permanent run.limits s
        mine in
    (done, free, few)

succeed_with-Ends :
    (n : ℕ) (run : Run) (claim : OutboxClaim) (i type : String) (content : Content) (sent_at : ℕ)
    (calls : List Call) (s : Deliveries)
    → IsOwned claim.outbox_id claim.claim_token s
    → length calls ≤ n
    → Ends n claim (succeed_with run claim i type content sent_at calls s)
succeed_with-Ends n run claim i type content sent_at calls s mine few =
    let (done, free) =
      success-releases claim.outbox_id claim.claim_token _ run.no_input run.new_message_id
        run.limits s mine in
    (done, free, few)

held-IsOwned : (k token : ℕ) (s : Deliveries) → IsHeld k token s → IsOwned k token s
held-IsOwned k token s (c, r, found, mine, idle) = (c, r, found, mine)

text_answer-Ends :
    (run : Run) (claim : OutboxClaim) (body : String) (a : SendResult) (s : Deliveries)
    → IsOwned claim.outbox_id claim.claim_token s
    → Ends 1 claim (text_answer run claim body a s)
unfolding text_answer
text_answer-Ends run claim body (answered i) s mine =
    succeed_with-Ends 1 run claim i "text" (text_content body) run.first.sent_at
      (send_text claim.recipient_phone_number body ∷ []) s mine (omega arith)
text_answer-Ends run claim body (raised e) s mine =
    fail_with-Ends 1 run claim e false (send_text claim.recipient_phone_number body ∷ []) s mine
      (omega arith)
text_answer-Ends run claim body (invalid_media e) s mine =
    fail_with-Ends 1 run claim e false (send_text claim.recipient_phone_number body ∷ []) s mine
      (omega arith)

pub MessageKind-cases : (m : MessageKind) → (m ≡ text_message) ⊎ (m ≡ document_message)
MessageKind-cases text_message = inl refl
MessageKind-cases document_message = inr refl

process_text-Ends :
    (send : ℕ → Call → SendResult) (run : Run) (claim : OutboxClaim) (s : Deliveries)
    → IsHeld claim.outbox_id claim.claim_token s
    → Ends 1 claim (process_text send run claim s)
unfolding process_text
process_text-Ends send run claim s held = elim (Option-cases claim.payload.body) [
  | inl no_body ↦
      rw (process_text, no_body)
        (fail_with-Ends 1 run claim run.no_body false [] s
          (held-IsOwned claim.outbox_id claim.claim_token s held) (omega arith))
  | inr (body, there) ↦
      elim (admit-held claim.outbox_id claim.claim_token run.first.uuid run.first.decided_at s
        held) [
          | inl (granted, mine) ↦
              rw (process_text, there, granted)
                (text_answer-Ends run claim body
                  (send 0 (send_text claim.recipient_phone_number body)) _ mine)
          | inr (denied, settled, free) ↦
              rw (process_text, there, denied) (settled, free, omega arith)
        ]
]

second_answer-Ends :
    (run : Run) (claim : OutboxClaim) (d : Document) (a : SendResult) (calls : List Call)
    (s : Deliveries)
    → IsOwned claim.outbox_id claim.claim_token s
    → length calls ≤ 2
    → Ends 2 claim (second_answer run claim d a calls s)
unfolding second_answer
second_answer-Ends run claim d (answered i) calls s mine few =
    succeed_with-Ends 2 run claim i "document" _ run.second.sent_at calls s mine few
second_answer-Ends run claim d (raised e) calls s mine few =
    fail_with-Ends 2 run claim e false calls s mine few
second_answer-Ends run claim d (invalid_media e) calls s mine few =
    fail_with-Ends 2 run claim e false calls s mine few

document_second-Ends :
    (send : ℕ → Call → SendResult) (run : Run) (claim : OutboxClaim) (d : Document)
    (calls : List Call) (s : Deliveries)
    → IsHeld claim.outbox_id claim.claim_token s
    → length calls ≤ 1
    → Ends 2 claim (document_second send run claim d calls s)
unfolding document_second
document_second-Ends send run claim d calls s held few =
    elim (admit-held claim.outbox_id claim.claim_token run.second.uuid run.second.decided_at s
      held) [
        | inl (granted, mine) ↦
            let grown = length-append calls (document_call claim d ∷ []) in
            rw (document_second, granted)
              (second_answer-Ends run claim d (send 1 (document_call claim d))
                (calls ++ document_call claim d ∷ []) _ mine (omega (arith, grown)))
        | inr (denied, settled, free) ↦ rw (document_second, denied) (settled, free, omega arith)
      ]

document_retried-Ends :
    (send : ℕ → Call → SendResult) (media : MediaResult) (run : Run) (claim : OutboxClaim)
    (d : Document) (calls : List Call) (s : Deliveries)
    → IsHeld claim.outbox_id claim.claim_token s
    → length calls ≤ 1
    → Ends 2 claim (document_retried send media run claim d calls s)
unfolding document_retried
document_retried-Ends send (resolved media_id filename) run claim d calls s held few =
    document_second-Ends send run claim _ calls s held few
document_retried-Ends send (unavailable e) run claim d calls s held few =
    fail_with-Ends 2 run claim e false calls s
      (held-IsOwned claim.outbox_id claim.claim_token s held) (omega arith)
document_retried-Ends send (permanent_error e) run claim d calls s held few =
    fail_with-Ends 2 run claim e true calls s
      (held-IsOwned claim.outbox_id claim.claim_token s held) (omega arith)

document_again-Ends :
    (send : ℕ → Call → SendResult) (invalidated : Option String) (media : MediaResult) (run : Run)
    (claim : OutboxClaim) (d : Document) (calls : List Call) (s : Deliveries)
    → IsOwned claim.outbox_id claim.claim_token s
    → length calls ≤ 1
    → Ends 2 claim (document_again send invalidated media run claim d calls s)
unfolding document_again
document_again-Ends send invalidated media run claim d calls s mine few =
    let (told, held) = reject-owned claim.outbox_id claim.claim_token s mine in
    let t = (reject_media_admission claim.outbox_id claim.claim_token s).1 in
    elim (Option-cases invalidated) [
      | inr (e, cache) ↦
          rw (document_again, told, cache)
            (fail_with-Ends 2 run claim e false calls t
              (held-IsOwned claim.outbox_id claim.claim_token t held) (omega arith))
      | inl clear ↦
          elim (check-IsHeld claim.outbox_id claim.claim_token 0 run.rechecked_at t held) [
            | inl (passed, still) ↦
                rw (document_again, told, clear, passed)
                  (document_retried-Ends send media run claim d calls _ still few)
            | inr (denied, settled, free) ↦
                rw (document_again, told, clear, denied) (settled, free, omega arith)
          ]
    ]

first_answer-Ends :
    (send : ℕ → Call → SendResult) (invalidated : Option String) (media : MediaResult) (run : Run)
    (claim : OutboxClaim) (d : Document) (a : SendResult) (s : Deliveries)
    → IsOwned claim.outbox_id claim.claim_token s
    → Ends 2 claim (first_answer send invalidated media run claim d a s)
unfolding first_answer
first_answer-Ends send invalidated media run claim d (answered i) s mine =
    succeed_with-Ends 2 run claim i "document" _ run.first.sent_at (document_call claim d ∷ []) s
      mine (omega arith)
first_answer-Ends send invalidated media run claim d (raised e) s mine =
    fail_with-Ends 2 run claim e false (document_call claim d ∷ []) s mine (omega arith)
first_answer-Ends send invalidated media run claim d (invalid_media e) s mine =
    document_again-Ends send invalidated media run claim d (document_call claim d ∷ []) s mine
      (omega arith)

document_first-Ends :
    (send : ℕ → Call → SendResult) (invalidated : Option String) (media : MediaResult) (run : Run)
    (claim : OutboxClaim) (d : Document) (s : Deliveries)
    → IsHeld claim.outbox_id claim.claim_token s
    → Ends 2 claim (document_first send invalidated media run claim d s)
unfolding document_first
document_first-Ends send invalidated media run claim d s held =
    elim (admit-held claim.outbox_id claim.claim_token run.first.uuid run.first.decided_at s held) [
      | inl (granted, mine) ↦
          rw (document_first, granted)
            (first_answer-Ends send invalidated media run claim d (send 0 (document_call claim d)) _
              mine)
      | inr (denied, settled, free) ↦ rw (document_first, denied) (settled, free, omega arith)
    ]

document_resolved-Ends :
    (send : ℕ → Call → SendResult) (invalidated : Option String) (media again : MediaResult)
    (run : Run) (claim : OutboxClaim) (asset : ℕ) (caption : String) (s : Deliveries)
    → IsHeld claim.outbox_id claim.claim_token s
    → Ends 2 claim (document_resolved send invalidated media again run claim asset caption s)
unfolding document_resolved
document_resolved-Ends send invalidated (resolved media_id filename) again run claim asset caption s
      held =
    document_first-Ends send invalidated again run claim _ s held
document_resolved-Ends send invalidated (unavailable e) again run claim asset caption s held =
    fail_with-Ends 2 run claim e false [] s (held-IsOwned claim.outbox_id claim.claim_token s held)
      (omega arith)
document_resolved-Ends send invalidated (permanent_error e) again run claim asset caption s held =
    fail_with-Ends 2 run claim e true [] s (held-IsOwned claim.outbox_id claim.claim_token s held)
      (omega arith)

process_document-Ends :
    (send : ℕ → Call → SendResult) (invalidated : Option String) (media again : MediaResult)
    (run : Run) (claim : OutboxClaim) (s : Deliveries)
    → IsHeld claim.outbox_id claim.claim_token s
    → Ends 2 claim (process_document send invalidated media again run claim s)
unfolding process_document
process_document-Ends send invalidated media again run claim s held =
    let k = claim.outbox_id in
    let token = claim.claim_token in
    let t = (check_outbox k token run.checked_at s).1 in
    elim (check-IsHeld k token 0 run.checked_at s held) [
      | inr (denied, settled, free) ↦ rw (process_document, denied) (settled, free, omega arith)
      | inl (passed, still) ↦ elim (Option-cases (extract_document_caption claim)) [
        | inl no_caption ↦
            rw (process_document, passed, no_caption)
              (fail_with-Ends 2 run claim run.no_caption false [] t (held-IsOwned k token t still)
                (omega arith))
        | inr (caption, told) ↦ elim (Option-cases claim.catalog_asset_id) [
          | inl no_asset ↦
              rw (process_document, passed, told, no_asset)
                (fail_with-Ends 2 run claim run.no_asset false [] t (held-IsOwned k token t still)
                  (omega arith))
          | inr (asset, named) ↦
              rw (process_document, passed, told, named)
                (document_resolved-Ends send invalidated media again run claim asset caption t
                  still)
        ]
      ]
    ]

-- A worker that holds its claim, with no call in flight, and is not disturbed, settles it whatever the provider and the
-- media service do: the outcome is APPLIED, the row is no longer SENDING, and the provider was called at most twice.
pub process_claimed_outbox_item-ends :
    (send : ℕ → Call → SendResult) (invalidated : Option String) (media again : MediaResult)
    (run : Run) (claim : OutboxClaim) (s : Deliveries)
    → IsHeld claim.outbox_id claim.claim_token s
    → ((process_claimed_outbox_item send invalidated media again run claim s).outcome ≡ applied)
      × IsReleased claim.outbox_id
          (process_claimed_outbox_item send invalidated media again run claim s).store
      × (length (process_claimed_outbox_item send invalidated media again run claim s).calls ≤ 2)
unfolding process_claimed_outbox_item
process_claimed_outbox_item-ends send invalidated media again run claim s held =
    elim (MessageKind-cases claim.message_kind) [
      | inl text ↦
          let (settled, free, few) = process_text-Ends send run claim s held in
          rw (process_claimed_outbox_item, text) (settled, free, omega (arith, few))
      | inr document ↦
          rw (process_claimed_outbox_item, document)
            (process_document-Ends send invalidated media again run claim s held)
    ]
