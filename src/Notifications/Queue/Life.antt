-- ===== src/Notifications/Queue/Life.antt =====
-- How a notification leaves the hands of its worker, and what the provider's callbacks can do to it.
use chat_bot_ceiba.Common.{
  ℕ, ◌+◌, ◌*◌, ◌≤◌, ◌<◌, ◌≡◌, ◌⊎◌, refl, sym, ◌∙◌, inl, inr, true, false, Option, none, some, arith,
  ◌==◌, ==_iff, subst, opt_eq, Bool-cases,
}
use chat_bot_ceiba.Rows.Settings.{Settings, second}
use chat_bot_ceiba.Rows.Table.{get, get-put, key-get}
use chat_bot_ceiba.Notifications.Queue.{
  NoticeStatus, pending, failed, NotificationRow, SendError, Queue, notice_key, owns, fail,
  failed_row, settle_claim, backoff_seconds, ProviderStatus, rank, provider_row, is_sending,
  delivered_status, read_status, failed_callback, other_status,
}

-- What the row of a failed attempt says.
pub failed_row-fits :
    (r : NotificationRow) (e : SendError) (s : Settings) (now : ℕ)
    → ((failed_row r e s now).notice_id ≡ r.notice_id)
      × ((failed_row r e s now).claim_token ≡ none)
      × ((failed_row r e s now).attempts ≡ r.attempts + 1)
      × ((((failed_row r e s now).status ≡ failed)
            × ((e.permanent ≡ true) ⊎ (s.staff_outbox_max_attempts ≤ r.attempts + 1)))
          ⊎ (((failed_row r e s now).status ≡ pending)
              × (e.permanent ≡ false)
              × (r.attempts + 1 < s.staff_outbox_max_attempts)
              × ((failed_row r e s now).next_attempt_at
                  ≡ now + backoff_seconds (r.attempts + 1) s.outbox_max_backoff_seconds * second)))
unfolding failed_row
failed_row-fits r e s now = elim (Bool-cases e.permanent) [
  | inl final ↦ (refl, refl, refl, inl (ground arith, inl final))
  | inr again ↦ (refl, refl, refl, ground arith)
]

-- When the owner of a claim reports an error, the row is released with one more attempt: it fails for good
-- exactly when the error is permanent or the attempts are used up, and waits for its next attempt otherwise.
pub settle_claim-fails :
    (k token now : ℕ) (state : NoticeStatus) (e : SendError)
    (update : NotificationRow → NotificationRow) (q : Queue) (r : NotificationRow)
    → get notice_key k q.rows ≡ some r
    → owns token r ≡ true
    → (r' : NotificationRow) × (get notice_key k
          (settle_claim k token now state (some e) update q).rows
        ≡ some r')
      × (r'.claim_token ≡ none)
      × (r'.attempts ≡ r.attempts + 1)
      × (((r'.status ≡ failed)
            × ((e.permanent ≡ true) ⊎ (q.settings.staff_outbox_max_attempts ≤ r.attempts + 1)))
          ⊎ ((r'.status ≡ pending)
              × (e.permanent ≡ false)
              × (r.attempts + 1 < q.settings.staff_outbox_max_attempts)
              × (r'.next_attempt_at
                  ≡ now
                    + backoff_seconds (r.attempts + 1) q.settings.outbox_max_backoff_seconds
                      * second)))
unfolding settle_claim fail
settle_claim-fails k token now state e update q r g mine =
    let r' = failed_row r e q.settings now in
    let (ident, released, counted, end) = failed_row-fits r e q.settings now in
    let key = key-get notice_key k r q.rows g in
    let here : get notice_key r'.notice_id q.rows ≡ some r =
      subst (λ i. get notice_key i q.rows ≡ some r) (sym (ident ∙ key)) g in
    let written = get-put notice_key k r' r q.rows here in
    let hit : (r'.notice_id == k) ≡ true = (==_iff _ _).1 (ident ∙ key) in
    (r', rw (settle_claim, g, mine) (ground arith), released, counted, end)

-- A worker whose claim is no longer the row's changes nothing, whatever it reports.
pub settle_claim-stale :
    (k token now : ℕ) (state : NoticeStatus) (error : Option SendError)
    (update : NotificationRow → NotificationRow) (q : Queue) (r : NotificationRow)
    → get notice_key k q.rows ≡ some r
    → (is_sending r.status ≡ false) ⊎ (opt_eq r.claim_token token ≡ false)
    → settle_claim k token now state error update q ≡ q
unfolding settle_claim
settle_claim-stale k token now state error update q r g (inl idle) = ground arith
settle_claim-stale k token now state error update q r g (inr other) = ground arith

-- For a notification that was delivered or read, no callback lowers the rank of its status, counts
-- an attempt or touches its claim.
pub provider_row-monotone :
    (p : ProviderStatus) (retry : NoticeStatus) (now : ℕ) (r : NotificationRow)
    → 2 ≤ rank r.status
    → (rank r.status ≤ rank (provider_row p retry now r).status)
      × ((provider_row p retry now r).attempts ≡ r.attempts)
      × ((provider_row p retry now r).claim_token ≡ r.claim_token)
unfolding provider_row
provider_row-monotone delivered_status retry now r h = ground arith
provider_row-monotone read_status retry now r h = ground arith
provider_row-monotone (failed_callback code message) retry now r h = ground arith
provider_row-monotone other_status retry now r h = ground arith

-- The same callback twice leaves the status that it left the first time.
pub provider_row-twice :
    (p : ProviderStatus) (retry : NoticeStatus) (now : ℕ) (r : NotificationRow)
    → (provider_row p retry now (provider_row p retry now r)).status
      ≡ (provider_row p retry now r).status
unfolding provider_row
provider_row-twice delivered_status retry now r = ground arith
provider_row-twice read_status retry now r = ground arith
provider_row-twice (failed_callback code message) retry now r = ground arith
provider_row-twice other_status retry now r = refl
