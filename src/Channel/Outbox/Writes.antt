-- ===== src/Channel/Outbox/Writes.antt =====
-- Each transaction on one message writes the row of that message at most.
use chat_bot_ceiba.Common.{
  ℕ, ◌+◌, ◌≡◌, ◌⊎◌, refl, sym, ap, ◌∙◌, subst, inl, inr, Bool, true, false, not, ◌||◌, ◌&&◌, some,
  String, List, ◌==◌, arith, Bool-cases, Option-cases,
}
use chat_bot_ceiba.Rows.Table.{get, put, get-put, key-get}
use chat_bot_ceiba.Conversation.{Conversation}
use chat_bot_ceiba.Channel.Outbox.Row.{
  OutboxRow, Deliveries, outbox_key, message_key, is_sending, phase_is_admitted,
}
use chat_bot_ceiba.Channel.Outbox.Eligibility.{Ruling, eligible, stopped}
use chat_bot_ceiba.Channel.Outbox.Admission.{
  lock_delivery_row, put_row, owns, ruled, decide, stop_delivery, reject_media_admission,
}
use chat_bot_ceiba.Channel.Outbox.Settle.{
  Limits, Answer, is_final, failed_row, failed_stopped, mark_ruled, mark_outbox_failure_locked,
  lock_owned_outbox, sent_row, settle_outbox_success, settle_outbox_failure, is_stale, recover_row,
}
use chat_bot_ceiba.Channel.Outbox.Life.{eligibility-row}
use chat_bot_ceiba.Channel.Outbox.Moves.{
  lock_delivery_row-get, log_final-rows, lock_owned_outbox-fits, add_outbound-rows,
}

-- A write of the row with the key `k`, or none.
abbrev pub Writes : ℕ → List OutboxRow → List OutboxRow → Type 0
Writes k rs ts =
    (ts ≡ rs)
    ⊎ ((r : OutboxRow) × (r' : OutboxRow) × (get outbox_key k rs ≡ some r)
        × (r'.outbox_id ≡ r.outbox_id)
        × (ts ≡ put outbox_key r' rs))

ruled-Writes :
    (k : ℕ) (v : Ruling) (r q : OutboxRow) (token : ℕ) (admit : Bool) (uuid now : ℕ)
    (s : Deliveries)
    → get outbox_key k s.rows ≡ some r
    → q.outbox_id ≡ r.outbox_id
    → Writes k s.rows (ruled v q token admit uuid now s).1.rows
unfolding ruled stop_delivery
ruled-Writes k (stopped stop reason) r q token admit uuid now s g e = inr (r, _, g, e, refl)
ruled-Writes k (eligible reason) r q token true uuid now s g e = inr (r, _, g, e, refl)
ruled-Writes k (eligible reason) r q token false uuid now s g e = inr (r, _, g, e, refl)

pub decide-Writes :
    (k token : ℕ) (admit : Bool) (uuid now : ℕ) (s : Deliveries)
    → Writes k s.rows (decide k token admit uuid now s).1.rows
unfolding decide
decide-Writes k token admit uuid now s = elim (Option-cases (lock_delivery_row k s)) [
  | inl missing ↦ rw (decide, missing) (inl refl)
  | inr ((c, r), found) ↦
      elim (Bool-cases (not (owns token r) || phase_is_admitted r.send_admission)) [
        | inl other ↦ rw (decide, found, other) (inl refl)
        | inr mine ↦
            rw (decide, found, mine)
              (ruled-Writes k _ r _ token admit uuid now s (lock_delivery_row-get k s c r found)
                (ap (λ (q : OutboxRow). q.outbox_id) (eligibility-row s c r)))
      ]
]

failed_stopped-ident :
    (r : OutboxRow) (error : String) → (failed_stopped r error).outbox_id ≡ r.outbox_id
unfolding failed_stopped
failed_stopped-ident r error = ground arith

mark_ruled-Writes :
    (k : ℕ) (l : Limits) (v : Ruling) (r q : OutboxRow) (error : String) (now : ℕ)
    (permanent : Bool) (s : Deliveries)
    → get outbox_key k s.rows ≡ some r
    → q.outbox_id ≡ r.outbox_id
    → Writes k s.rows (mark_ruled v q error now permanent l s).rows
unfolding mark_ruled stop_delivery failed_row
mark_ruled-Writes k l (stopped stop reason) r q error now permanent s g e =
    inr (r, _, g, failed_stopped-ident (stop_delivery q stop reason now) error ∙ e, refl)
mark_ruled-Writes k l (eligible reason) r q error now permanent s g e =
    inr (r, _, g, e, log_final-rows (is_final permanent (q.attempts + 1) l) _ _)

mark-Writes :
    (k : ℕ) (l : Limits) (c : Conversation) (r : OutboxRow) (error : String) (now : ℕ)
    (permanent : Bool) (s : Deliveries)
    → get outbox_key k s.rows ≡ some r
    → Writes k s.rows (mark_outbox_failure_locked c r error now permanent l s).rows
unfolding mark_outbox_failure_locked
mark-Writes k l c r error now permanent s g =
    mark_ruled-Writes k l _ r _ error now permanent s g
      (ap (λ (q : OutboxRow). q.outbox_id) (eligibility-row s c r))

pub failure-Writes :
    (k token : ℕ) (error : String) (now : ℕ) (permanent : Bool) (l : Limits) (s : Deliveries)
    → Writes k s.rows (settle_outbox_failure k token error now permanent l s).1.rows
unfolding settle_outbox_failure
failure-Writes k token error now permanent l s = elim (Option-cases (lock_owned_outbox k token s)) [
  | inl missing ↦ rw (settle_outbox_failure, missing) (inl refl)
  | inr ((c, r), found) ↦
      let (locked, mine) = lock_owned_outbox-fits k token s c r found in
      rw (settle_outbox_failure, found)
        (mark-Writes k l c r error now permanent s (lock_delivery_row-get k s c r locked))
]

pub success-Writes :
    (k token : ℕ) (a : Answer) (missing_text : String) (new_id : ℕ) (l : Limits) (s : Deliveries)
    → Writes k s.rows (settle_outbox_success k token a missing_text new_id l s).1.rows
unfolding settle_outbox_success sent_row
success-Writes k token a missing_text new_id l s =
    elim (Option-cases (lock_owned_outbox k token s)) [
      | inl missing ↦ rw (settle_outbox_success, missing) (inl refl)
      | inr ((c, r), found) ↦
          let (locked, mine) = lock_owned_outbox-fits k token s c r found in
          let here = lock_delivery_row-get k s c r locked in
          elim (Option-cases (get message_key r.message_id s.messages)) [
            | inl gone ↦
                rw (settle_outbox_success, found, gone)
                  (mark-Writes k l c r missing_text a.sent_at false s here)
            | inr (m, there) ↦
                rw
                  (
                    settle_outbox_success,
                    found,
                    there,
                    add_outbound-rows new_id r m.customer_id a (put_row (sent_row r a.sent_at) s),
                  )
                  (inr (r, _, here, refl, refl))
          ]
    ]

pub reject-Writes :
    (k token : ℕ) (s : Deliveries) → Writes k s.rows (reject_media_admission k token s).1.rows
unfolding reject_media_admission
reject-Writes k token s = elim (Option-cases (lock_delivery_row k s)) [
  | inl missing ↦ rw (reject_media_admission, missing) (inl refl)
  | inr ((c, r), found) ↦ elim (Bool-cases (owns token r)) [
    | inr other ↦ rw (reject_media_admission, found, other) (inl refl)
    | inl mine ↦
        rw (reject_media_admission, found, mine)
          (inr (r, _, lock_delivery_row-get k s c r found, refl, refl))
  ]
]

pub recover-Writes :
    (l : Limits) (busy : Bool) (now stale_before k : ℕ) (s : Deliveries)
    → Writes k s.rows (recover_row busy now stale_before l k s).1.rows
unfolding recover_row
recover-Writes l true now stale_before k s = inl refl
recover-Writes l false now stale_before k s = elim (Option-cases (lock_delivery_row k s)) [
  | inl missing ↦ rw (recover_row, missing) (inl refl)
  | inr ((c, r), found) ↦ elim (Bool-cases (is_sending r.status && is_stale stale_before r)) [
    | inl gone ↦
        rw (recover_row, found, gone)
          (mark-Writes k l c r "stale SENDING recovered by reaper" now false s
            (lock_delivery_row-get k s c r found))
    | inr held ↦ rw (recover_row, found, held) (inl refl)
  ]
]

pub Writes-other :
    (k n : ℕ) (rs ts : List OutboxRow)
    → Writes k rs ts
    → (k == n) ≡ false
    → get outbox_key n ts ≡ get outbox_key n rs
Writes-other k n rs ts (inl e) apart = rw e refl
Writes-other k n rs ts (inr (r, r', g, ident, e)) apart =
    let key : r'.outbox_id ≡ k = ident ∙ key-get outbox_key k r rs g in
    let stored : get outbox_key r'.outbox_id rs ≡ some r =
      subst (λ i. get outbox_key i rs ≡ some r) (sym key) g in
    let written = get-put outbox_key n r' r rs stored in
    let miss : (r'.outbox_id == n) ≡ false = subst (λ i. (i == n) ≡ false) (sym key) apart in
    rw (e, written, miss) refl
