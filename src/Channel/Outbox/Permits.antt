-- ===== src/Channel/Outbox/Permits.antt =====
-- app/channel/worker.py: no call of the provider without its own admission.
use chat_bot_ceiba.Common.{
  ℕ, ◌+◌, ◌≡◌, ◌⊎◌, refl, ap, ◌∙◌, inl, inr, true, false, Option, some, List, [], ◌∷◌, ◌++◌, String,
  length, length-append, Bool-cases, Option-cases,
}
use chat_bot_ceiba.Conversation.{Conversation}
use chat_bot_ceiba.Channel.Outbox.Row.{OutboxRow, Deliveries, phase_is_admitted}
use chat_bot_ceiba.Channel.Outbox.Eligibility.{is_eligible, eligibility}
use chat_bot_ceiba.Channel.Outbox.Admission.{
  Decision, admitted_now, lock_delivery_row, owns, check_outbox, reject_media_admission,
}
use chat_bot_ceiba.Channel.Outbox.Claim.{OutboxClaim}
use chat_bot_ceiba.Channel.Outbox.Process.{
  SendResult, answered, raised, invalid_media, MediaResult, resolved, unavailable, permanent_error,
  Call, Attempt, Run, Document, document_call, extract_document_caption, is_admitted,
  is_eligible_now, admit, text_answer, process_text, second_answer, document_second,
  document_retried, document_again, first_answer, document_first, document_resolved,
  process_document, process_claimed_outbox_item,
}
use chat_bot_ceiba.Channel.Outbox.Once.{decide-admits}
use chat_bot_ceiba.Channel.Outbox.Finish.{MessageKind-cases}

granted_of_test : (d : Decision) → is_admitted d ≡ true → d ≡ admitted_now
granted_of_test Decision.admitted_now h = refl
granted_of_test Decision.eligible_now h = absurd cc
granted_of_test (Decision.stopped_as s) h = absurd cc
granted_of_test Decision.discarded h = absurd cc

-- The admission of an attempt is granted on these tables: the claim's token is the one of the SENDING row, no call is in
-- flight for it, and the message is eligible.
abbrev pub IsGranted : Attempt → OutboxClaim → Deliveries → Type 0
IsGranted a claim u =
    ((admit a claim u).0 ≡ admitted_now)
    × ((c : Conversation) × (r : OutboxRow) × (lock_delivery_row claim.outbox_id u ≡ some (c, r))
        × (owns claim.claim_token r ≡ true)
        × (phase_is_admitted r.send_admission ≡ false)
        × (is_eligible (eligibility u c r).0 ≡ true))

granted :
    (a : Attempt) (claim : OutboxClaim) (u : Deliveries)
    → is_admitted (admit a claim u).0 ≡ true
    → IsGranted a claim u
granted a claim u h =
    let given = granted_of_test (admit a claim u).0 h in
    let (c, r, found, mine, idle, passed, wrote) =
      decide-admits claim.outbox_id claim.claim_token true a.uuid a.decided_at u given in
    (given, (c, r, found, mine, idle, passed))

module _ (run : Run) (claim : OutboxClaim) where
  second_answer-calls :
      (d : Document) (a : SendResult) (calls : List Call) (s : Deliveries)
      → (second_answer run claim d a calls s).calls ≡ calls
  unfolding second_answer
  second_answer-calls d (answered i) calls s = refl
  second_answer-calls d (raised e) calls s = refl
  second_answer-calls d (invalid_media e) calls s = refl

  -- No further call, or one that was granted on these tables.
  abbrev IsFurther : List Call → List Call → Deliveries → Type 0
  IsFurther before after u =
      (after ≡ before) ⊎ (IsGranted run.second claim u × (length after ≡ length before + 1))

  document_second-calls :
      (send : ℕ → Call → SendResult) (d : Document) (calls : List Call) (s : Deliveries)
      → IsFurther calls (document_second send run claim d calls s).calls s
  unfolding document_second
  document_second-calls send d calls s =
      elim (Bool-cases (is_admitted (admit run.second claim s).0)) [
        | inr denied ↦ rw (document_second, denied) (inl refl)
        | inl given ↦
            let same =
              second_answer-calls d (send 1 (document_call claim d))
                (calls ++ document_call claim d ∷ []) (admit run.second claim s).1 in
            let grown = length-append calls (document_call claim d ∷ []) in
            rw (document_second, given)
              (inr (granted run.second claim s given, ap length same ∙ grown))
      ]

  document_retried-calls :
      (send : ℕ → Call → SendResult) (media : MediaResult) (d : Document) (calls : List Call)
      (s : Deliveries)
      → IsFurther calls (document_retried send media run claim d calls s).calls s
  unfolding document_retried
  document_retried-calls send (resolved media_id filename) d calls s =
      document_second-calls send _ calls s
  document_retried-calls send (unavailable e) d calls s = inl refl
  document_retried-calls send (permanent_error e) d calls s = inl refl

  -- The tables after the admission was marked as refused and the message was checked again.
  abbrev pub rechecked : Deliveries → Deliveries
  rechecked s =
      (check_outbox claim.outbox_id claim.claim_token run.rechecked_at
        (reject_media_admission claim.outbox_id claim.claim_token s).1).1

  document_again-calls :
      (send : ℕ → Call → SendResult) (invalidated : Option String) (media : MediaResult)
      (d : Document) (calls : List Call) (s : Deliveries)
      → IsFurther calls
          (document_again send invalidated media run claim d calls s).calls
          (rechecked s)
  unfolding document_again
  document_again-calls send invalidated media d calls s =
      let k = claim.outbox_id in
      let token = claim.claim_token in
      let t = (reject_media_admission k token s).1 in
      elim (Bool-cases (reject_media_admission k token s).0) [
        | inr lost ↦ rw (document_again, lost) (inl refl)
        | inl mine ↦ elim (Option-cases invalidated) [
          | inr (e, failed) ↦ rw (document_again, mine, failed) (inl refl)
          | inl fine ↦
              elim (Bool-cases (is_eligible_now (check_outbox k token run.rechecked_at t).0)) [
                | inl may ↦
                    rw (document_again, mine, fine, may)
                      (document_retried-calls send media d calls (rechecked s))
                | inr may_not ↦ rw (document_again, mine, fine, may_not) (inl refl)
              ]
        ]
      ]

  -- One call, or two with the second granted after the first was marked as refused.
  abbrev pub IsOnceOrAgain : List Call → Deliveries → Type 0
  IsOnceOrAgain calls t =
      (length calls ≡ 1) ⊎ (IsGranted run.second claim (rechecked t) × (length calls ≡ 2))

  first_answer-calls :
      (send : ℕ → Call → SendResult) (invalidated : Option String) (again : MediaResult)
      (d : Document) (a : SendResult) (t : Deliveries)
      → IsOnceOrAgain (first_answer send invalidated again run claim d a t).calls t
  unfolding first_answer
  first_answer-calls send invalidated again d (answered i) t = inl refl
  first_answer-calls send invalidated again d (raised e) t = inl refl
  first_answer-calls send invalidated again d (invalid_media e) t =
      elim (document_again-calls send invalidated again d (document_call claim d ∷ []) t) [
        | inl same ↦ inl (ap length same)
        | inr (given, grown) ↦ inr (given, grown)
      ]

  -- The calls of a run that begins to send on these tables.
  abbrev pub IsPermitted : List Call → Deliveries → Type 0
  IsPermitted calls u =
      (calls ≡ []) ⊎ (IsGranted run.first claim u × IsOnceOrAgain calls (admit run.first claim u).1)

  document_first-calls :
      (send : ℕ → Call → SendResult) (invalidated : Option String) (again : MediaResult)
      (d : Document) (s : Deliveries)
      → IsPermitted (document_first send invalidated again run claim d s).calls s
  unfolding document_first
  document_first-calls send invalidated again d s =
      elim (Bool-cases (is_admitted (admit run.first claim s).0)) [
        | inr denied ↦ rw (document_first, denied) (inl refl)
        | inl given ↦
            rw (document_first, given)
              (inr (
                granted run.first claim s given,
                first_answer-calls send invalidated again d _ (admit run.first claim s).1,
              ))
      ]

  document_resolved-calls :
      (send : ℕ → Call → SendResult) (invalidated : Option String) (media again : MediaResult)
      (asset : ℕ) (caption : String) (s : Deliveries)
      → IsPermitted
          (document_resolved send invalidated media again run claim asset caption s).calls
          s
  unfolding document_resolved
  document_resolved-calls send invalidated (resolved media_id filename) again asset caption s =
      document_first-calls send invalidated again _ s
  document_resolved-calls send invalidated (unavailable e) again asset caption s = inl refl
  document_resolved-calls send invalidated (permanent_error e) again asset caption s = inl refl

  process_document-calls :
      (send : ℕ → Call → SendResult) (invalidated : Option String) (media again : MediaResult)
      (s : Deliveries)
      → IsPermitted
          (process_document send invalidated media again run claim s).calls
          (check_outbox claim.outbox_id claim.claim_token run.checked_at s).1
  unfolding process_document
  process_document-calls send invalidated media again s =
      let t = (check_outbox claim.outbox_id claim.claim_token run.checked_at s).1 in
      elim (Bool-cases
        (is_eligible_now (check_outbox claim.outbox_id claim.claim_token run.checked_at s).0)) [
          | inr denied ↦ rw (process_document, denied) (inl refl)
          | inl passed ↦ elim (Option-cases (extract_document_caption claim)) [
            | inl no_caption ↦ rw (process_document, passed, no_caption) (inl refl)
            | inr (caption, told) ↦ elim (Option-cases claim.catalog_asset_id) [
              | inl no_asset ↦ rw (process_document, passed, told, no_asset) (inl refl)
              | inr (asset, named) ↦
                  rw (process_document, passed, told, named)
                    (document_resolved-calls send invalidated media again asset caption t)
            ]
          ]
        ]

  text_answer-calls :
      (body : String) (a : SendResult) (s : Deliveries)
      → length (text_answer run claim body a s).calls ≡ 1
  unfolding text_answer
  text_answer-calls body (answered i) s = refl
  text_answer-calls body (raised e) s = refl
  text_answer-calls body (invalid_media e) s = refl

  process_text-calls :
      (send : ℕ → Call → SendResult) (s : Deliveries)
      → IsPermitted (process_text send run claim s).calls s
  unfolding process_text
  process_text-calls send s = elim (Option-cases claim.payload.body) [
    | inl no_body ↦ rw (process_text, no_body) (inl refl)
    | inr (body, there) ↦ elim (Bool-cases (is_admitted (admit run.first claim s).0)) [
      | inr denied ↦ rw (process_text, there, denied) (inl refl)
      | inl given ↦
          rw (process_text, there, given)
            (inr (granted run.first claim s given, inl (text_answer-calls body _ _)))
    ]
  ]

-- Whatever the provider and the media service do, a run over a claim makes no call, or its first admission was granted:
-- on the tables as they were, or, for a document, as its check had left them. Then it made one call, or two, and the
-- second only after the first admission was marked as refused, the message was checked again, and a second admission was
-- granted. Each grant means that the SENDING row carries the claim's token, that no call was in flight for it, and that
-- the message was eligible at that moment.
pub process_claimed_outbox_item-IsPermitted :
    (send : ℕ → Call → SendResult) (invalidated : Option String) (media again : MediaResult)
    (run : Run) (claim : OutboxClaim) (s : Deliveries)
    → (u : Deliveries) × ((u ≡ s)
        ⊎ (u ≡ (check_outbox claim.outbox_id claim.claim_token run.checked_at s).1))
      × IsPermitted run claim
          (process_claimed_outbox_item send invalidated media again run claim s).calls
          u
unfolding process_claimed_outbox_item
process_claimed_outbox_item-IsPermitted send invalidated media again run claim s =
    elim (MessageKind-cases claim.message_kind) [
      | inl text ↦
          rw (process_claimed_outbox_item, text) (s, inl refl, process_text-calls run claim send s)
      | inr document ↦
          rw (process_claimed_outbox_item, document)
            (_, inr refl, process_document-calls run claim send invalidated media again s)
    ]
