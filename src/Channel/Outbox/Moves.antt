-- ===== src/Channel/Outbox/Moves.antt =====
-- What each transaction does to the table: it leaves it, or makes one or more moves of open rows.
use chat_bot_ceiba.Common.{
  ℕ, ◌+◌, ◌≡◌, refl, sym, ◌∙◌, subst, inl, inr, Bool, true, false, not, ◌&&◌, ◌||◌, some, List, [],
  ◌∷◌, String, arith, ◌==◌, Bool-cases, Option-cases,
}
use chat_bot_ceiba.Rows.Table.{get, put, get-put, key-get}
use chat_bot_ceiba.Rows.Audit.{AuditEvent}
use chat_bot_ceiba.Conversation.{Conversation}
use chat_bot_ceiba.Channel.Outbox.Row.{
  OutboxRow, Deliveries, outbox_key, message_key, is_sending, is_settled, phase_is_admitted,
}
use chat_bot_ceiba.Channel.Outbox.Eligibility.{Ruling, eligible, stopped, eligibility}
use chat_bot_ceiba.Channel.Outbox.Admission.{
  lock_delivery_row, put_row, owns, ruled, decide, reject_media_admission, new_admission,
}
use chat_bot_ceiba.Channel.Outbox.Settle.{
  Limits, Answer, is_final, log_final, mark_ruled, mark_outbox_failure_locked, lock_owned_outbox,
  settle_outbox_success, settle_outbox_failure, recover_row, recover_rows, stale_point, is_stale,
  add_outbound, sent_row, failed_row,
}
use chat_bot_ceiba.Channel.Outbox.Life.{
  RowMove, sending_open, owns_sending, self-Move, eligibility-Move, eligibility-row,
  stop_delivery-Move, failed_stopped-Move, failed_row-Move, sent_row-Move, admission-Move,
}

pub data Changes (l : Limits) : List OutboxRow → List OutboxRow → Type 0 where
  same : {rs : List OutboxRow} → Changes l rs rs
  moved :
      {rs ts : List OutboxRow} (k : ℕ) (r r' : OutboxRow)
      → get outbox_key k rs ≡ some r
      → RowMove l r r'
      → Changes l (put outbox_key r' rs) ts
      → Changes l rs ts

pub one_move :
    (l : Limits) (k : ℕ) (r r' : OutboxRow) (rs : List OutboxRow)
    → get outbox_key k rs ≡ some r
    → RowMove l r r'
    → Changes l rs (put outbox_key r' rs)
one_move l k r r' rs g m = moved k r r' g m same

pub Changes-trans :
    {l : Limits} {rs ss ts : List OutboxRow} → Changes l rs ss → Changes l ss ts → Changes l rs ts
Changes-trans same b = b
Changes-trans (moved k r r' g m rest) b = moved k r r' g m (Changes-trans rest b)

pub lock_delivery_row-get :
    (k : ℕ) (s : Deliveries) (c : Conversation) (r : OutboxRow)
    → lock_delivery_row k s ≡ some (c, r)
    → get outbox_key k s.rows ≡ some r
unfolding lock_delivery_row
lock_delivery_row-get k s c r h = ground arith

-- The row with its context has the status and the admission that it had.
eligibility-sending :
    (s : Deliveries) (c : Conversation) (r : OutboxRow)
    → is_sending r.status ≡ true
    → is_sending (eligibility s c r).1.status ≡ true
eligibility-sending s c r h =
    subst (λ (q : OutboxRow). is_sending q.status ≡ true) (sym (eligibility-row s c r)) h

eligibility-idle :
    (s : Deliveries) (c : Conversation) (r : OutboxRow)
    → phase_is_admitted r.send_admission ≡ false
    → phase_is_admitted (eligibility s c r).1.send_admission ≡ false
eligibility-idle s c r h =
    subst (λ (q : OutboxRow). phase_is_admitted q.send_admission ≡ false)
      (sym (eligibility-row s c r)) h

ruled-Changes :
    (l : Limits) (k : ℕ) (v : Ruling) (c : Conversation) (r : OutboxRow) (token : ℕ) (admit : Bool)
    (uuid now : ℕ) (s : Deliveries)
    → get outbox_key k s.rows ≡ some r
    → is_sending r.status ≡ true
    → phase_is_admitted r.send_admission ≡ false
    → Changes l s.rows (ruled v (eligibility s c r).1 token admit uuid now s).1.rows
unfolding ruled
ruled-Changes l k (stopped stop reason) c r token admit uuid now s g h idle =
    let still = sending_open (eligibility s c r).1 (eligibility-sending s c r h) in
    one_move l k r _ s.rows g (
      eligibility-Move l s c r _
        (stop_delivery-Move l _ stop reason now still (eligibility-idle s c r idle)))
ruled-Changes l k (eligible reason) c r token true uuid now s g h idle = one_move l k r _ s.rows g (
    eligibility-Move l s c r _
      (admission-Move l _ (some (new_admission uuid token now)) (eligibility-sending s c r h)))
ruled-Changes l k (eligible reason) c r token false uuid now s g h idle =
    one_move l k r _ s.rows g (
      eligibility-Move l s c r _
        (self-Move l _ (sending_open (eligibility s c r).1 (eligibility-sending s c r h))))

pub decide-Changes :
    (l : Limits) (k token : ℕ) (admit : Bool) (uuid now : ℕ) (s : Deliveries)
    → Changes l s.rows (decide k token admit uuid now s).1.rows
unfolding decide
decide-Changes l k token admit uuid now s = elim (Option-cases (lock_delivery_row k s)) [
  | inl missing ↦ rw (decide, missing) same
  | inr ((c, r), found) ↦
      elim (Bool-cases (not (owns token r) || phase_is_admitted r.send_admission)) [
        | inl other ↦ rw (decide, found, other) same
        | inr mine ↦
            rw (decide, found, mine)
              (ruled-Changes l k _ c r token admit uuid now s (lock_delivery_row-get k s c r found)
                (ground arith) (ground arith))
      ]
]

pub reject_media_admission-Changes :
    (l : Limits) (k token : ℕ) (s : Deliveries)
    → Changes l s.rows (reject_media_admission k token s).1.rows
unfolding reject_media_admission
reject_media_admission-Changes l k token s = elim (Option-cases (lock_delivery_row k s)) [
  | inl missing ↦ rw (reject_media_admission, missing) same
  | inr ((c, r), found) ↦ elim (Bool-cases (owns token r)) [
    | inl mine ↦
        rw (reject_media_admission, found, mine)
          (one_move l k r _ s.rows (lock_delivery_row-get k s c r found)
            (admission-Move l r _ (owns_sending token r mine)))
    | inr other ↦ rw (reject_media_admission, found, other) same
  ]
]

pub log_final-rows : (b : Bool) (e : AuditEvent) (s : Deliveries) → (log_final b e s).rows ≡ s.rows
unfolding log_final
log_final-rows true e s = refl
log_final-rows false e s = refl

mark_ruled-Changes :
    (l : Limits) (k : ℕ) (v : Ruling) (c : Conversation) (r : OutboxRow) (error : String) (now : ℕ)
    (permanent : Bool) (s : Deliveries)
    → get outbox_key k s.rows ≡ some r
    → is_sending r.status ≡ true
    → Changes l s.rows (mark_ruled v (eligibility s c r).1 error now permanent l s).rows
unfolding mark_ruled
mark_ruled-Changes l k (stopped stop reason) c r error now permanent s g h =
    one_move l k r _ s.rows g (
      eligibility-Move l s c r _ (
        failed_stopped-Move l _ stop reason error now
          (sending_open (eligibility s c r).1 (eligibility-sending s c r h))))
mark_ruled-Changes l k (eligible reason) c r error now permanent s g h =
    let r1 = (eligibility s c r).1 in
    rw (log_final-rows (is_final permanent (r1.attempts + 1) l)) (
      one_move l k r (failed_row r1 error now permanent l) s.rows g (
        eligibility-Move l s c r _ (
          failed_row-Move l r1 error now permanent
            (sending_open r1 (eligibility-sending s c r h)))))

pub mark-Changes :
    (l : Limits) (k : ℕ) (c : Conversation) (r : OutboxRow) (error : String) (now : ℕ)
    (permanent : Bool) (s : Deliveries)
    → get outbox_key k s.rows ≡ some r
    → is_sending r.status ≡ true
    → Changes l s.rows (mark_outbox_failure_locked c r error now permanent l s).rows
unfolding mark_outbox_failure_locked
mark-Changes l k c r error now permanent s g h =
    mark_ruled-Changes l k _ c r error now permanent s g h

-- A row that is locked as the worker's own.
pub lock_owned_outbox-fits :
    (k token : ℕ) (s : Deliveries) (c : Conversation) (r : OutboxRow)
    → lock_owned_outbox k token s ≡ some (c, r)
    → (lock_delivery_row k s ≡ some (c, r)) × (owns token r ≡ true)
unfolding lock_owned_outbox
lock_owned_outbox-fits k token s c r h = ground arith

pub settle_outbox_failure-Changes :
    (l : Limits) (k token : ℕ) (error : String) (now : ℕ) (permanent : Bool) (s : Deliveries)
    → Changes l s.rows (settle_outbox_failure k token error now permanent l s).1.rows
unfolding settle_outbox_failure
settle_outbox_failure-Changes l k token error now permanent s =
    elim (Option-cases (lock_owned_outbox k token s)) [
      | inl missing ↦ rw (settle_outbox_failure, missing) same
      | inr ((c, r), found) ↦
          let (locked, mine) = lock_owned_outbox-fits k token s c r found in
          rw (settle_outbox_failure, found)
            (mark-Changes l k c r error now permanent s (lock_delivery_row-get k s c r locked)
              (owns_sending token r mine))
    ]

pub add_outbound-rows :
    (new_id : ℕ) (r : OutboxRow) (customer : ℕ) (a : Answer) (s : Deliveries)
    → (add_outbound new_id r customer a s).rows ≡ s.rows
unfolding add_outbound
add_outbound-rows new_id r customer a s = ground arith

pub settle_outbox_success-Changes :
    (l : Limits) (k token : ℕ) (a : Answer) (missing_text : String) (new_id : ℕ) (s : Deliveries)
    → Changes l s.rows (settle_outbox_success k token a missing_text new_id l s).1.rows
unfolding settle_outbox_success
settle_outbox_success-Changes l k token a missing_text new_id s =
    elim (Option-cases (lock_owned_outbox k token s)) [
      | inl missing ↦ rw (settle_outbox_success, missing) same
      | inr ((c, r), found) ↦
          let (locked, mine) = lock_owned_outbox-fits k token s c r found in
          let here = lock_delivery_row-get k s c r locked in
          elim (Option-cases (get message_key r.message_id s.messages)) [
            | inl gone ↦
                rw (settle_outbox_success, found, gone)
                  (mark-Changes l k c r missing_text a.sent_at false s here
                    (owns_sending token r mine))
            | inr (m, there) ↦
                rw
                  (
                    settle_outbox_success,
                    found,
                    there,
                    add_outbound-rows new_id r m.customer_id a (put_row (sent_row r a.sent_at) s),
                  )
                  (one_move l k r _ s.rows here
                    (sent_row-Move l r a.sent_at (sending_open r (owns_sending token r mine))))
          ]
    ]

pub recover_row-Changes :
    (l : Limits) (busy : Bool) (now stale_before k : ℕ) (s : Deliveries)
    → Changes l s.rows (recover_row busy now stale_before l k s).1.rows
unfolding recover_row
recover_row-Changes l true now stale_before k s = same
recover_row-Changes l false now stale_before k s = elim (Option-cases (lock_delivery_row k s)) [
  | inl missing ↦ rw (recover_row, missing) same
  | inr ((c, r), found) ↦ elim (Bool-cases (is_sending r.status && is_stale stale_before r)) [
    | inl gone ↦
        rw (recover_row, found, gone)
          (mark-Changes l k c r "stale SENDING recovered by reaper" now false s
            (lock_delivery_row-get k s c r found) (ground arith))
    | inr held ↦ rw (recover_row, found, held) same
  ]
]

pub recover_rows-Changes :
    (l : Limits) (busy : ℕ → Bool) (now : ℕ) (ks : List ℕ) (s : Deliveries)
    → Changes l s.rows (recover_rows busy now l ks s).1.rows
unfolding recover_rows
recover_rows-Changes l busy now [] s = same
recover_rows-Changes l busy now (k ∷ ks) s =
    Changes-trans (recover_row-Changes l (busy k) now (stale_point l now) k s)
      (recover_rows-Changes l busy now ks _)

-- A settled row stands as it is through every change.
pub Changes-settled :
    (l : Limits) (rs ts : List OutboxRow) (n : ℕ) (p : OutboxRow)
    → Changes l rs ts
    → get outbox_key n rs ≡ some p
    → is_settled p.status ≡ true
    → get outbox_key n ts ≡ some p
Changes-settled l rs _ n p same g done = g
Changes-settled l rs ts n p (moved k r r' here m rest) g done =
    let key = key-get outbox_key k r rs here in
    let stored : get outbox_key r'.outbox_id rs ≡ some r =
      subst (λ i. get outbox_key i rs ≡ some r) (sym (m.ident ∙ key)) here in
    let written = get-put outbox_key n r' r rs stored in
    let still : get outbox_key n (put outbox_key r' rs) ≡ some p =
      elim (Bool-cases (r'.outbox_id == n)) [
        | inl hit ↦
            let it : r'.outbox_id ≡ n = ground arith in
            let same_row : some r ≡ some p = sym stored ∙ rw it g in
            let live = m.was_open in ground arith
        | inr miss ↦ rw (written, miss) g
      ] in
    Changes-settled l _ ts n p rest still done
