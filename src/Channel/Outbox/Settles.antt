-- ===== src/Channel/Outbox/Settles.antt =====
-- What a worker leaves of the row that its claim names.
use chat_bot_ceiba.Common.{
  ℕ, ◌+◌, ◌≡◌, ◌⊎◌, refl, sym, ap, ◌∙◌, subst, inl, inr, Bool, true, false, not, ◌||◌, some, List,
  String, arith, ==_iff, Option-cases,
}
use chat_bot_ceiba.Rows.Table.{get, put, get-put, key-get}
use chat_bot_ceiba.Conversation.{Conversation}
use chat_bot_ceiba.Channel.Outbox.Row.{
  OutboxRow, Deliveries, outbox_key, message_key, is_sending, phase_is_admitted,
}
use chat_bot_ceiba.Channel.Outbox.Eligibility.{Stop, Ruling, eligible, stopped, eligibility}
use chat_bot_ceiba.Channel.Outbox.Admission.{
  eligible_now, admitted_now, lock_delivery_row, put_row, owns, ruled, decide, stop_delivery,
  reject_media_admission, with_rejected_media, new_admission,
}
use chat_bot_ceiba.Channel.Outbox.Settle.{
  Limits, Answer, applied, settle_outbox_success, settle_outbox_failure, lock_owned_outbox,
  mark_outbox_failure_locked, mark_ruled, failed_row, failed_stopped, sent_row, is_final,
}
use chat_bot_ceiba.Channel.Outbox.Process.{refused, is_admitted, is_eligible_now}
use chat_bot_ceiba.Channel.Outbox.Life.{eligibility-row}
use chat_bot_ceiba.Channel.Outbox.Moves.{lock_delivery_row-get, log_final-rows, add_outbound-rows}

-- The row is in no worker's hands.
abbrev pub IsReleased : ℕ → Deliveries → Type 0
IsReleased k s =
    (r : OutboxRow) × (get outbox_key k s.rows ≡ some r) × (is_sending r.status ≡ false)

-- The row is locked by the claim's owner; `Held` says also that no call is in flight.
abbrev pub IsOwned : ℕ → ℕ → Deliveries → Type 0
IsOwned k token s =
    (c : Conversation) × (r : OutboxRow) × (lock_delivery_row k s ≡ some (c, r))
    × (owns token r ≡ true)

abbrev pub IsHeld : ℕ → ℕ → Deliveries → Type 0
IsHeld k token s =
    (c : Conversation) × (r : OutboxRow) × (lock_delivery_row k s ≡ some (c, r))
    × (owns token r ≡ true)
    × (phase_is_admitted r.send_admission ≡ false)

get-put_row :
    (k : ℕ) (r r' : OutboxRow) (rs : List OutboxRow)
    → get outbox_key k rs ≡ some r
    → r'.outbox_id ≡ r.outbox_id
    → get outbox_key k (put outbox_key r' rs) ≡ some r'
get-put_row k r r' rs here ident =
    let key : r'.outbox_id ≡ k = ident ∙ key-get outbox_key k r rs here in
    let stored : get outbox_key r'.outbox_id rs ≡ some r =
      subst (λ n. get outbox_key n rs ≡ some r) (sym key) here in
    rw (get-put outbox_key k r' r rs stored, (==_iff r'.outbox_id k).1 key) refl

lock-put_row :
    (k : ℕ) (c : Conversation) (r r' : OutboxRow) (s : Deliveries)
    → lock_delivery_row k s ≡ some (c, r)
    → r'.outbox_id ≡ r.outbox_id
    → r'.conversation_id ≡ r.conversation_id
    → lock_delivery_row k (put_row r' s) ≡ some (c, r')
unfolding lock_delivery_row
lock-put_row k c r r' s found ident same =
    let here = lock_delivery_row-get k s c r found in
    let written = get-put_row k r r' s.rows here ident in ground arith

-- What `eligibility` leaves of a row is still the claim's.
record IsSame (token : ℕ) (r q : OutboxRow) : Type 0 where
  ident : q.outbox_id ≡ r.outbox_id
  conversation : q.conversation_id ≡ r.conversation_id
  mine : owns token q ≡ owns token r
  phase : phase_is_admitted q.send_admission ≡ phase_is_admitted r.send_admission

eligibility-IsSame :
    (token : ℕ) (s : Deliveries) (c : Conversation) (r : OutboxRow)
    → IsSame token r (eligibility s c r).1
eligibility-IsSame token s c r =
    let e = eligibility-row s c r in
    record {
      ident = ap (λ (q : OutboxRow). q.outbox_id) e;
      conversation = ap (λ (q : OutboxRow). q.conversation_id) e;
      mine = ap (owns token) e;
      phase = ap (λ (q : OutboxRow). phase_is_admitted q.send_admission) e;
    }

stop_delivery-idle :
    (r : OutboxRow) (stop : Stop) (reason : String) (now : ℕ)
    → is_sending (stop_delivery r stop reason now).status ≡ false
unfolding stop_delivery
stop_delivery-idle r stop reason now = ground arith

stop_delivery-ident :
    (r : OutboxRow) (stop : Stop) (reason : String) (now : ℕ)
    → (stop_delivery r stop reason now).outbox_id ≡ r.outbox_id
unfolding stop_delivery
stop_delivery-ident r stop reason now = refl

ruled-held :
    (k token : ℕ) (c : Conversation) (v : Ruling) (r q : OutboxRow) (uuid now : ℕ) (s : Deliveries)
    → lock_delivery_row k s ≡ some (c, r)
    → IsSame token r q
    → owns token r ≡ true
    → (((ruled v q token true uuid now s).0 ≡ admitted_now)
        × IsOwned k token (ruled v q token true uuid now s).1)
      ⊎ ((is_admitted (ruled v q token true uuid now s).0 ≡ false)
          × (refused (ruled v q token true uuid now s).0 ≡ applied)
          × IsReleased k (ruled v q token true uuid now s).1)
unfolding ruled
ruled-held k token c (stopped stop reason) r q uuid now s found same mine =
    let r' = stop_delivery q stop reason now in
    inr (
      refl,
      refl,
      (
        r',
        get-put_row k r r' s.rows (lock_delivery_row-get k s c r found)
            (stop_delivery-ident q stop reason now ∙ same.ident),
        stop_delivery-idle q stop reason now,
      ),
    )
ruled-held k token c (eligible reason) r q uuid now s found same mine =
    let r' = record q { send_admission = some (new_admission uuid token now) } in
    inl
      (refl, (c, r', lock-put_row k c r r' s found same.ident same.conversation, same.mine ∙ mine))

ruled-checked :
    (k token : ℕ) (c : Conversation) (v : Ruling) (r q : OutboxRow) (uuid now : ℕ) (s : Deliveries)
    → lock_delivery_row k s ≡ some (c, r)
    → IsSame token r q
    → owns token r ≡ true
    → phase_is_admitted r.send_admission ≡ false
    → (((ruled v q token false uuid now s).0 ≡ eligible_now)
        × IsHeld k token (ruled v q token false uuid now s).1)
      ⊎ ((is_eligible_now (ruled v q token false uuid now s).0 ≡ false)
          × (refused (ruled v q token false uuid now s).0 ≡ applied)
          × IsReleased k (ruled v q token false uuid now s).1)
unfolding ruled
ruled-checked k token c (stopped stop reason) r q uuid now s found same mine idle =
    let r' = stop_delivery q stop reason now in
    inr (
      refl,
      refl,
      (
        r',
        get-put_row k r r' s.rows (lock_delivery_row-get k s c r found)
            (stop_delivery-ident q stop reason now ∙ same.ident),
        stop_delivery-idle q stop reason now,
      ),
    )
ruled-checked k token c (eligible reason) r q uuid now s found same mine idle = inl (
  refl,
  (
    c,
    q,
    lock-put_row k c r q s found same.ident same.conversation,
    same.mine ∙ mine,
    same.phase ∙ idle,
  ),
)

pub admit-held :
    (k token uuid now : ℕ) (s : Deliveries)
    → IsHeld k token s
    → (((decide k token true uuid now s).0 ≡ admitted_now)
        × IsOwned k token (decide k token true uuid now s).1)
      ⊎ ((is_admitted (decide k token true uuid now s).0 ≡ false)
          × (refused (decide k token true uuid now s).0 ≡ applied)
          × IsReleased k (decide k token true uuid now s).1)
unfolding decide
admit-held k token uuid now s (c, r, found, mine, idle) =
    let open_door : (not (owns token r) || phase_is_admitted r.send_admission) ≡ false =
      ground arith in
    rw (decide, found, open_door)
      (ruled-held k token c _ r _ uuid now s found (eligibility-IsSame token s c r) mine)

pub check-IsHeld :
    (k token uuid now : ℕ) (s : Deliveries)
    → IsHeld k token s
    → (((decide k token false uuid now s).0 ≡ eligible_now)
        × IsHeld k token (decide k token false uuid now s).1)
      ⊎ ((is_eligible_now (decide k token false uuid now s).0 ≡ false)
          × (refused (decide k token false uuid now s).0 ≡ applied)
          × IsReleased k (decide k token false uuid now s).1)
unfolding decide
check-IsHeld k token uuid now s (c, r, found, mine, idle) =
    let open_door : (not (owns token r) || phase_is_admitted r.send_admission) ≡ false =
      ground arith in
    rw (decide, found, open_door)
      (ruled-checked k token c _ r _ uuid now s found (eligibility-IsSame token s c r) mine idle)

pub reject-owned :
    (k token : ℕ) (s : Deliveries)
    → IsOwned k token s
    → ((reject_media_admission k token s).0 ≡ true)
      × IsHeld k token (reject_media_admission k token s).1
unfolding reject_media_admission
reject-owned k token s (c, r, found, mine) =
    let a = with_rejected_media r.send_admission in
    let r' = record r { send_admission = some a } in
    let idle : phase_is_admitted (some a) ≡ false = ground arith in
    rw (reject_media_admission, found, mine)
      (refl, (c, r', lock-put_row k c r r' s found refl refl, mine, idle))

failed_row-idle :
    (r : OutboxRow) (error : String) (now : ℕ) (permanent : Bool) (l : Limits)
    → (is_sending (failed_row r error now permanent l).status ≡ false)
      × ((failed_row r error now permanent l).outbox_id ≡ r.outbox_id)
unfolding failed_row
failed_row-idle r error now permanent l = (ground arith, refl)

failed_stopped-idle :
    (r : OutboxRow) (error : String)
    → is_sending r.status ≡ false
    → (is_sending (failed_stopped r error).status ≡ false)
      × ((failed_stopped r error).outbox_id ≡ r.outbox_id)
unfolding failed_stopped
failed_stopped-idle r error h = (ground arith, ground arith)

mark_ruled-releases :
    (k token : ℕ) (c : Conversation) (v : Ruling) (r q : OutboxRow) (error : String) (now : ℕ)
    (permanent : Bool) (l : Limits) (s : Deliveries)
    → get outbox_key k s.rows ≡ some r
    → IsSame token r q
    → IsReleased k (mark_ruled v q error now permanent l s)
unfolding mark_ruled
mark_ruled-releases k token c (stopped stop reason) r q error now permanent l s here same =
    let stop_row = stop_delivery q stop reason now in
    let (idle, ident) = failed_stopped-idle stop_row error (stop_delivery-idle q stop reason now) in
    (
      failed_stopped stop_row error,
      get-put_row k r (failed_stopped stop_row error) s.rows here
          (ident ∙ stop_delivery-ident q stop reason now ∙ same.ident),
      idle,
    )
mark_ruled-releases k token c (eligible reason) r q error now permanent l s here same =
    let (idle, ident) = failed_row-idle q error now permanent l in
    (
      failed_row q error now permanent l,
      rw (log_final-rows (is_final permanent (q.attempts + 1) l))
          (get-put_row k r (failed_row q error now permanent l) s.rows here (ident ∙ same.ident)),
      idle,
    )

mark-releases :
    (k token : ℕ) (c : Conversation) (r : OutboxRow) (error : String) (now : ℕ) (permanent : Bool)
    (l : Limits) (s : Deliveries)
    → get outbox_key k s.rows ≡ some r
    → IsReleased k (mark_outbox_failure_locked c r error now permanent l s)
unfolding mark_outbox_failure_locked
mark-releases k token c r error now permanent l s here =
    mark_ruled-releases k token c _ r _ error now permanent l s here
      (eligibility-IsSame token s c r)

lock_owned-owned :
    (k token : ℕ) (s : Deliveries) (c : Conversation) (r : OutboxRow)
    → lock_delivery_row k s ≡ some (c, r)
    → owns token r ≡ true
    → lock_owned_outbox k token s ≡ some (c, r)
unfolding lock_owned_outbox
lock_owned-owned k token s c r found mine = rw (lock_owned_outbox, found, mine) refl

pub failure-releases :
    (k token : ℕ) (error : String) (now : ℕ) (permanent : Bool) (l : Limits) (s : Deliveries)
    → IsOwned k token s
    → ((settle_outbox_failure k token error now permanent l s).0 ≡ applied)
      × IsReleased k (settle_outbox_failure k token error now permanent l s).1
unfolding settle_outbox_failure
failure-releases k token error now permanent l s (c, r, found, mine) =
    rw (settle_outbox_failure, lock_owned-owned k token s c r found mine)
      (
        refl,
        mark-releases k token c r error now permanent l s (lock_delivery_row-get k s c r found),
      )

pub success-releases :
    (k token : ℕ) (a : Answer) (missing : String) (new_id : ℕ) (l : Limits) (s : Deliveries)
    → IsOwned k token s
    → ((settle_outbox_success k token a missing new_id l s).0 ≡ applied)
      × IsReleased k (settle_outbox_success k token a missing new_id l s).1
unfolding settle_outbox_success sent_row
success-releases k token a missing new_id l s (c, r, found, mine) =
    let here = lock_delivery_row-get k s c r found in
    elim (Option-cases (get message_key r.message_id s.messages)) [
      | inl gone ↦
          rw (settle_outbox_success, lock_owned-owned k token s c r found mine, gone)
            (refl, mark-releases k token c r missing a.sent_at false l s here)
      | inr (m, there) ↦
          let t = put_row (sent_row r a.sent_at) s in
          rw (settle_outbox_success, lock_owned-owned k token s c r found mine, there)
            (
              refl,
              (
                sent_row r a.sent_at,
                rw (add_outbound-rows new_id r m.customer_id a t)
                    (get-put_row k r (sent_row r a.sent_at) s.rows here refl),
                refl,
              ),
            )
    ]
