-- ===== src/Channel/Outbox/Steps.antt =====
-- What a worker does with a claim is a sequence of steps of the outbox, whatever the claim is worth.
use chat_bot_ceiba.Common.{
  ℕ, inl, inr, Bool, true, false, Option, List, [], String, Bool-cases, Option-cases,
}
use chat_bot_ceiba.Channel.Outbox.Row.{Deliveries, Content, text_content}
use chat_bot_ceiba.Channel.Outbox.Admission.{check_outbox, reject_media_admission}
use chat_bot_ceiba.Channel.Outbox.Claim.{OutboxClaim}
use chat_bot_ceiba.Channel.Outbox.Process.{
  SendResult, answered, raised, invalid_media, MediaResult, resolved, unavailable, permanent_error,
  Call, Attempt, Run, Document, extract_document_caption, fail_with, succeed_with, is_admitted,
  is_eligible_now, admit, text_answer, process_text, document_second, document_retried,
  document_again, document_first, second_answer, first_answer, document_resolved, process_document,
  process_claimed_outbox_item,
}
use chat_bot_ceiba.Channel.Outbox.Reach.{Reach, next, decides, rejects, succeeds, fails}
use chat_bot_ceiba.Channel.Outbox.Finish.{MessageKind-cases}

module _ (run : Run) (claim : OutboxClaim) (o : Deliveries) where
  fail_with-Reach :
      (e : String) (permanent : Bool) (calls : List Call) (s : Deliveries)
      → Reach run.limits o s
      → Reach run.limits o (fail_with run claim e permanent calls s).store
  fail_with-Reach e permanent calls s r =
      next r (fails claim.outbox_id claim.claim_token e run.failed_at permanent)

  succeed_with-Reach :
      (i type : String) (content : Content) (sent_at : ℕ) (calls : List Call) (s : Deliveries)
      → Reach run.limits o s
      → Reach run.limits o (succeed_with run claim i type content sent_at calls s).store
  succeed_with-Reach i type content sent_at calls s r =
      next r (succeeds claim.outbox_id claim.claim_token _ run.no_input run.new_message_id)

  admit-Reach :
      (a : Attempt) (s : Deliveries) → Reach run.limits o s → Reach run.limits o (admit a claim s).1
  admit-Reach a s r = next r (decides claim.outbox_id claim.claim_token true a.uuid a.decided_at)

  check-Reach :
      (now : ℕ) (s : Deliveries)
      → Reach run.limits o s
      → Reach run.limits o (check_outbox claim.outbox_id claim.claim_token now s).1
  check-Reach now s r = next r (decides claim.outbox_id claim.claim_token false 0 now)

  text_answer-Reach :
      (body : String) (a : SendResult) (s : Deliveries)
      → Reach run.limits o s
      → Reach run.limits o (text_answer run claim body a s).store
  unfolding text_answer
  text_answer-Reach body (answered i) s r =
      succeed_with-Reach i "text" (text_content body) run.first.sent_at [] s r
  text_answer-Reach body (raised e) s r = fail_with-Reach e false [] s r
  text_answer-Reach body (invalid_media e) s r = fail_with-Reach e false [] s r

  process_text-Reach :
      (send : ℕ → Call → SendResult) (s : Deliveries)
      → Reach run.limits o s
      → Reach run.limits o (process_text send run claim s).store
  unfolding process_text
  process_text-Reach send s r = elim (Option-cases claim.payload.body) [
    | inl no_body ↦ rw (process_text, no_body) (fail_with-Reach run.no_body false [] s r)
    | inr (body, there) ↦ elim (Bool-cases (is_admitted (admit run.first claim s).0)) [
      | inl granted ↦
          rw (process_text, there, granted) (text_answer-Reach body _ _ (admit-Reach run.first s r))
      | inr denied ↦ rw (process_text, there, denied) (admit-Reach run.first s r)
    ]
  ]

  second_answer-Reach :
      (d : Document) (a : SendResult) (calls : List Call) (s : Deliveries)
      → Reach run.limits o s
      → Reach run.limits o (second_answer run claim d a calls s).store
  unfolding second_answer
  second_answer-Reach d (answered i) calls s r =
      succeed_with-Reach i "document" _ run.second.sent_at calls s r
  second_answer-Reach d (raised e) calls s r = fail_with-Reach e false calls s r
  second_answer-Reach d (invalid_media e) calls s r = fail_with-Reach e false calls s r

  document_second-Reach :
      (send : ℕ → Call → SendResult) (d : Document) (calls : List Call) (s : Deliveries)
      → Reach run.limits o s
      → Reach run.limits o (document_second send run claim d calls s).store
  unfolding document_second
  document_second-Reach send d calls s r =
      elim (Bool-cases (is_admitted (admit run.second claim s).0)) [
        | inl granted ↦
            rw (document_second, granted) (second_answer-Reach d _ _ _ (admit-Reach run.second s r))
        | inr denied ↦ rw (document_second, denied) (admit-Reach run.second s r)
      ]

  document_retried-Reach :
      (send : ℕ → Call → SendResult) (media : MediaResult) (d : Document) (calls : List Call)
      (s : Deliveries)
      → Reach run.limits o s
      → Reach run.limits o (document_retried send media run claim d calls s).store
  unfolding document_retried
  document_retried-Reach send (resolved media_id filename) d calls s r =
      document_second-Reach send _ calls s r
  document_retried-Reach send (unavailable e) d calls s r = fail_with-Reach e false calls s r
  document_retried-Reach send (permanent_error e) d calls s r = fail_with-Reach e true calls s r

  document_again-Reach :
      (send : ℕ → Call → SendResult) (invalidated : Option String) (media : MediaResult)
      (d : Document) (calls : List Call) (s : Deliveries)
      → Reach run.limits o s
      → Reach run.limits o (document_again send invalidated media run claim d calls s).store
  unfolding document_again
  document_again-Reach send invalidated media d calls s r =
      let k = claim.outbox_id in
      let token = claim.claim_token in
      let t = (reject_media_admission k token s).1 in
      let r' : Reach run.limits o t = next r (rejects k token) in
      elim (Bool-cases (reject_media_admission k token s).0) [
        | inr lost ↦ rw (document_again, lost) r'
        | inl mine ↦ elim (Option-cases invalidated) [
          | inr (e, failed) ↦ rw (document_again, mine, failed) (fail_with-Reach e false calls t r')
          | inl fine ↦
              elim (Bool-cases (is_eligible_now (check_outbox k token run.rechecked_at t).0)) [
                | inl may ↦
                    rw (document_again, mine, fine, may)
                      (document_retried-Reach send media d calls _
                        (check-Reach run.rechecked_at t r'))
                | inr may_not ↦
                    rw (document_again, mine, fine, may_not) (check-Reach run.rechecked_at t r')
              ]
        ]
      ]

  first_answer-Reach :
      (send : ℕ → Call → SendResult) (invalidated : Option String) (again : MediaResult)
      (d : Document) (a : SendResult) (s : Deliveries)
      → Reach run.limits o s
      → Reach run.limits o (first_answer send invalidated again run claim d a s).store
  unfolding first_answer
  first_answer-Reach send invalidated again d (answered i) s r =
      succeed_with-Reach i "document" _ run.first.sent_at [] s r
  first_answer-Reach send invalidated again d (raised e) s r = fail_with-Reach e false [] s r
  first_answer-Reach send invalidated again d (invalid_media e) s r =
      document_again-Reach send invalidated again d _ s r

  document_first-Reach :
      (send : ℕ → Call → SendResult) (invalidated : Option String) (again : MediaResult)
      (d : Document) (s : Deliveries)
      → Reach run.limits o s
      → Reach run.limits o (document_first send invalidated again run claim d s).store
  unfolding document_first
  document_first-Reach send invalidated again d s r =
      elim (Bool-cases (is_admitted (admit run.first claim s).0)) [
        | inl granted ↦
            rw (document_first, granted)
              (first_answer-Reach send invalidated again d _ _ (admit-Reach run.first s r))
        | inr denied ↦ rw (document_first, denied) (admit-Reach run.first s r)
      ]

  document_resolved-Reach :
      (send : ℕ → Call → SendResult) (invalidated : Option String) (media again : MediaResult)
      (asset : ℕ) (caption : String) (s : Deliveries)
      → Reach run.limits o s
      → Reach run.limits o
          (document_resolved send invalidated media again run claim asset caption s).store
  unfolding document_resolved
  document_resolved-Reach send invalidated (resolved media_id filename) again asset caption s r =
      document_first-Reach send invalidated again _ s r
  document_resolved-Reach send invalidated (unavailable e) again asset caption s r =
      fail_with-Reach e false [] s r
  document_resolved-Reach send invalidated (permanent_error e) again asset caption s r =
      fail_with-Reach e true [] s r

  process_document-Reach :
      (send : ℕ → Call → SendResult) (invalidated : Option String) (media again : MediaResult)
      (s : Deliveries)
      → Reach run.limits o s
      → Reach run.limits o (process_document send invalidated media again run claim s).store
  unfolding process_document
  process_document-Reach send invalidated media again s r =
      let t = (check_outbox claim.outbox_id claim.claim_token run.checked_at s).1 in
      let r' = check-Reach run.checked_at s r in
      elim (Bool-cases
        (is_eligible_now (check_outbox claim.outbox_id claim.claim_token run.checked_at s).0)) [
          | inr denied ↦ rw (process_document, denied) r'
          | inl passed ↦ elim (Option-cases (extract_document_caption claim)) [
            | inl no_caption ↦
                rw (process_document, passed, no_caption)
                  (fail_with-Reach run.no_caption false [] t r')
            | inr (caption, told) ↦ elim (Option-cases claim.catalog_asset_id) [
              | inl no_asset ↦
                  rw (process_document, passed, told, no_asset)
                    (fail_with-Reach run.no_asset false [] t r')
              | inr (asset, named) ↦
                  rw (process_document, passed, told, named)
                    (document_resolved-Reach send invalidated media again asset caption t r')
            ]
          ]
        ]

  pub process_claimed_outbox_item-Reach :
      (send : ℕ → Call → SendResult) (invalidated : Option String) (media again : MediaResult)
      (s : Deliveries)
      → Reach run.limits o s
      → Reach run.limits o
          (process_claimed_outbox_item send invalidated media again run claim s).store
  unfolding process_claimed_outbox_item
  process_claimed_outbox_item-Reach send invalidated media again s r =
      elim (MessageKind-cases claim.message_kind) [
        | inl text ↦ rw (process_claimed_outbox_item, text) (process_text-Reach send s r)
        | inr document ↦
            rw (process_claimed_outbox_item, document)
              (process_document-Reach send invalidated media again s r)
      ]
