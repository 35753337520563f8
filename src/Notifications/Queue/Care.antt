-- ===== src/Notifications/Queue/Care.antt =====
-- What the maintenance of the queue does to each of its rows.
use chat_bot_ceiba.Common.{
  ℕ, ◌+◌, ◌*◌, ◌≤◌, ◌<◌, ◌≡◌, ◌⊎◌, refl, ap, subst, ◌∙◌, inl, inr, Bool, true, false, none, some,
  arith, Bool-cases, Option-cases,
}
use chat_bot_ceiba.Rows.Settings.{Settings, second}
use chat_bot_ceiba.Rows.Table.{get, key-get, Unique}
use chat_bot_ceiba.Notifications.Queue.{
  NoticeStatus, sending, sent, delivered, was_read, deferred, failed, pending, is_sending,
  NotificationRow, Queue, notice_key, needs_care, stuck, failed_row, expired, is_deferred,
  maintain_queue, stale_before, deferred_before, backoff_seconds,
}
use chat_bot_ceiba.Notifications.Queue.Life.{failed_row-fits}
use chat_bot_ceiba.Notifications.Queue.Loop.{
  is_due, after_care, left_of, maintain_rows-get, Unique-Present,
}

-- A row that was put off for a reply of the staff for too long.
abbrev pub IsTooOld : Settings → ℕ → NotificationRow → Type 0
IsTooOld s now r = (r.status ≡ deferred) × (r.created_at < deferred_before s now)

-- A row whose worker claimed it too long ago, or which nobody claimed and is too old itself.
abbrev pub IsStuck : Settings → ℕ → NotificationRow → Type 0
IsStuck s now r =
    (r.status ≡ sending)
    × (((t : ℕ) × (r.claimed_at ≡ some t) × (t < stale_before s now))
        ⊎ ((r.claimed_at ≡ none) × (r.created_at < stale_before s now)))

deferred_of_test : (s : NoticeStatus) → is_deferred s ≡ true → s ≡ deferred
deferred_of_test pending h = absurd cc
deferred_of_test sending h = absurd cc
deferred_of_test sent h = absurd cc
deferred_of_test delivered h = absurd cc
deferred_of_test was_read h = absurd cc
deferred_of_test failed h = absurd cc
deferred_of_test deferred h = refl
deferred_of_test expired h = absurd cc

sending_of_test : (s : NoticeStatus) → is_sending s ≡ true → s ≡ sending
sending_of_test pending h = absurd cc
sending_of_test sending h = refl
sending_of_test sent h = absurd cc
sending_of_test delivered h = absurd cc
sending_of_test was_read h = absurd cc
sending_of_test failed h = absurd cc
sending_of_test deferred h = absurd cc
sending_of_test expired h = absurd cc

care-cases :
    (s : Settings) (now : ℕ) (r : NotificationRow)
    → needs_care (stale_before s now) (deferred_before s now) r ≡ true
    → ((is_deferred r.status ≡ true) × IsTooOld s now r)
      ⊎ ((is_deferred r.status ≡ false) × IsStuck s now r)
care-cases s now r h = elim (Bool-cases (is_deferred r.status)) [
  | inl put_off ↦ elim (Bool-cases (is_sending r.status)) [
    | inl both ↦
        let one = deferred_of_test r.status put_off in
        let other = sending_of_test r.status both in absurd (ground arith)
    | inr other ↦ inl (put_off, (deferred_of_test r.status put_off, ground arith))
  ]
  | inr other ↦
      let status = sending_of_test r.status (ground arith) in
      elim (Option-cases r.claimed_at) [
        | inl never ↦ inr (other, (status, inr (never, ground arith)))
        | inr (t, at) ↦ inr (other, (status, inl (t, at, ground arith)))
      ]
]

no_care :
    (s : Settings) (now : ℕ) (r : NotificationRow)
    → needs_care (stale_before s now) (deferred_before s now) r ≡ false
    → (¬ IsTooOld s now r) × (¬ IsStuck s now r)
no_care s now r h = (too_old, held)
  where
    too_old : IsTooOld s now r → ⊥
    too_old (status, old) =
        let put_off : is_deferred r.status ≡ true = rw status refl in ground arith

    held : IsStuck s now r → ⊥
    held (status, inl (t, at, old)) =
        let sends : is_sending r.status ≡ true = rw status refl in ground arith
    held (status, inr (never, old)) =
        let sends : is_sending r.status ≡ true = rw status refl in ground arith

-- What may become of the row with the key `k`.
abbrev pub IsCaredFor : (ℕ → Bool) → ℕ → Settings → ℕ → NotificationRow → NotificationRow → Type 0
IsCaredFor busy now s k r r' =
    (((r' ≡ r) × ((busy k ≡ true) ⊎ ((¬ IsTooOld s now r) × (¬ IsStuck s now r))))
      ⊎ (((busy k ≡ false)
            × IsTooOld s now r
            × (r' ≡ record r {
              status = expired;
              claim_token = none;
              claimed_at = none;
              updated_at = now;
            }))
          ⊎ ((busy k ≡ false)
              × IsStuck s now r
              × (r'.claim_token ≡ none)
              × (r'.attempts ≡ r.attempts + 1)
              × (((r'.status ≡ failed) × (s.staff_outbox_max_attempts ≤ r.attempts + 1))
                  ⊎ ((r'.status ≡ pending)
                      × (r.attempts + 1 < s.staff_outbox_max_attempts)
                      × (r'.next_attempt_at
                          ≡ now
                            + backoff_seconds (r.attempts + 1) s.outbox_max_backoff_seconds
                              * second))))))

-- The error of a stuck row is not permanent.
ended_stuck :
    (s : Settings) (now : ℕ) (r r' : NotificationRow)
    → (((r'.status ≡ failed)
          × ((stuck.permanent ≡ true) ⊎ (s.staff_outbox_max_attempts ≤ r.attempts + 1)))
        ⊎ ((r'.status ≡ pending)
            × (stuck.permanent ≡ false)
            × (r.attempts + 1 < s.staff_outbox_max_attempts)
            × (r'.next_attempt_at
                ≡ now + backoff_seconds (r.attempts + 1) s.outbox_max_backoff_seconds * second)))
    → ((r'.status ≡ failed) × (s.staff_outbox_max_attempts ≤ r.attempts + 1))
      ⊎ ((r'.status ≡ pending)
          × (r.attempts + 1 < s.staff_outbox_max_attempts)
          × (r'.next_attempt_at
              ≡ now + backoff_seconds (r.attempts + 1) s.outbox_max_backoff_seconds * second))
ended_stuck s now r r' (inl (over, inl permanent)) = absurd cc
ended_stuck s now r r' (inl (over, inr used)) = inl (over, used)
ended_stuck s now r r' (inr (again, soft, few, next)) = inr (again, few, next)

outcome :
    (busy : ℕ → Bool) (now : ℕ) (s : Settings) (k : ℕ) (r : NotificationRow)
    → r.notice_id ≡ k
    → IsCaredFor busy now s k r (after_care busy now s r)
unfolding failed_row
outcome busy now s k r key = elim (Bool-cases (busy r.notice_id)) [
  | inl locked ↦
      let shut : is_due busy now s r ≡ false = ground arith in
      rw shut (inl (refl, inl (subst (λ i. busy i ≡ true) key locked)))
  | inr free ↦
      let mine : busy k ≡ false = subst (λ i. busy i ≡ false) key free in
      elim (Bool-cases (needs_care (stale_before s now) (deferred_before s now) r)) [
        | inr fine ↦
            let shut : is_due busy now s r ≡ false = ground arith in
            rw shut (inl (refl, inr (no_care s now r fine)))
        | inl bad ↦
            let due : is_due busy now s r ≡ true = ground arith in
            elim (care-cases s now r bad) [
              | inl (put_off, old) ↦ rw (due, put_off) (inr (inl (mine, old, refl)))
              | inr (other, held) ↦
                  let (ident, released, counted, end) = failed_row-fits r stuck s now in
                  rw (due, other)
                    (inr (
                      inr (
                        mine,
                        held,
                        released,
                        counted,
                        ended_stuck s now r (failed_row r stuck s now) end,
                      )))
            ]
      ]
]

-- What the maintenance of a queue with unique ids leaves of each row. A row that another transaction holds, or that is
-- neither put off for too long nor stuck with a worker, stays as it is. Of the others, one that was put off for too
-- long becomes EXPIRED and is nobody's; a stuck one is released with one more attempt, FAILED when the attempts are used
-- up, and otherwise PENDING until its next attempt.
pub maintain_queue-tends :
    (busy : ℕ → Bool) (now : ℕ) (q : Queue) (k : ℕ) (r : NotificationRow)
    → Unique notice_key q.rows
    → get notice_key k q.rows ≡ some r
    → (r' : NotificationRow) × (get notice_key k (maintain_queue busy now q).rows ≡ some r')
      × IsCaredFor busy now q.settings k r r'
maintain_queue-tends busy now q k r u here =
    let s = q.settings in
    let key = key-get notice_key k r q.rows here in
    let done : get notice_key k (maintain_queue busy now q).rows ≡ some (after_care busy now s r) =
      maintain_rows-get busy now k s q.rows q refl u (Unique-Present q.rows u)
      ∙ ap (λ o. left_of busy now s o (get notice_key k q.rows)) here in
    (after_care busy now s r, done, outcome busy now s k r key)
