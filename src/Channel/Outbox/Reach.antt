-- ===== src/Channel/Outbox/Reach.antt =====
-- The invariant of the outbox under any interleaving of the transactions of its workers.
use chat_bot_ceiba.Common.{
  ℕ, ◌≤◌, ◌≡◌, ◌⊎◌, refl, inl, inr, Bool, true, none, some, List, [], ◌∷◌, ◌++◌, String, arith, All,
  All-snoc,
}
use chat_bot_ceiba.Rows.Table.{get, get-snoc, Unique, put-Unique, All-put, All-get, snoc-Unique}
use chat_bot_ceiba.Channel.Outbox.Row.{OutboxRow, Deliveries, outbox_key, is_settled, is_pending}
use chat_bot_ceiba.Channel.Outbox.Admission.{decide, reject_media_admission}
use chat_bot_ceiba.Channel.Outbox.Settle.{
  Limits, Answer, settle_outbox_success, settle_outbox_failure, recover_row,
}
use chat_bot_ceiba.Channel.Outbox.Claim.{claim_due_outbox_batch}
use chat_bot_ceiba.Channel.Outbox.Life.{RowOk}
use chat_bot_ceiba.Channel.Outbox.Moves.{
  Changes, same, moved, Changes-settled, decide-Changes, reject_media_admission-Changes,
  settle_outbox_success-Changes, settle_outbox_failure-Changes, recover_row-Changes,
}
use chat_bot_ceiba.Channel.Outbox.Claims.{claim_due_outbox_batch-Changes}

pub record Sound (l : Limits) (rs : List OutboxRow) : Type 0 where
  pub ids : Unique outbox_key rs
  pub rows : All (RowOk l) rs

pub Changes-Sound :
    (l : Limits) (rs ts : List OutboxRow) → Changes l rs ts → Sound l rs → Sound l ts
Changes-Sound l rs _ same v = v
Changes-Sound l rs ts (moved k r r' here m rest) v = Changes-Sound l _ ts rest (record {
  ids = put-Unique outbox_key r' rs v.ids;
  rows =
      All-put outbox_key (RowOk l) r' rs (m.kept (All-get outbox_key (RowOk l) k r rs v.rows here))
        v.rows;
})

-- A row as the rest of the program adds it.
pub record IsNew (r : OutboxRow) : Type 0 where
  pub waiting : is_pending r.status ≡ true
  pub untried : r.attempts ≡ 0
  pub unowned : r.claim_token ≡ none
  pub unclaimed : r.claimed_at ≡ none
  pub unsent : r.sent_at ≡ none
  pub uncalled : r.send_admission ≡ none

-- One transaction of any worker, current or late; a message that is enqueued; or a write of another part of the
-- program, which leaves the rows of the outbox.
pub data Step (l : Limits) (s : Deliveries) : Deliveries → Type 0 where
  claims :
      (busy : ℕ → Bool) (token : ℕ → ℕ) (now n : ℕ)
      → Step l s (claim_due_outbox_batch busy token now n s).1
  decides :
      (k token : ℕ) (admit : Bool) (uuid now : ℕ) → Step l s (decide k token admit uuid now s).1
  rejects : (k token : ℕ) → Step l s (reject_media_admission k token s).1
  succeeds :
      (k token : ℕ) (a : Answer) (missing : String) (new_id : ℕ)
      → Step l s (settle_outbox_success k token a missing new_id l s).1
  fails :
      (k token : ℕ) (error : String) (now : ℕ) (permanent : Bool)
      → Step l s (settle_outbox_failure k token error now permanent l s).1
  recovers :
      (busy : Bool) (now stale_before k : ℕ) → Step l s (recover_row busy now stale_before l k s).1
  enqueues :
      (r : OutboxRow)
      → IsNew r
      → get outbox_key r.outbox_id s.rows ≡ none
      → Step l s (record s { rows = s.rows ++ r ∷ [] })
  elsewhere : (t : Deliveries) → t.rows ≡ s.rows → Step l s t

pub data Reach (l : Limits) (s : Deliveries) : Deliveries → Type 0 where
  start : Reach l s s
  next : {t u : Deliveries} → Reach l s t → Step l t u → Reach l s u

abbrev pub Effect : Limits → List OutboxRow → List OutboxRow → Type 0
Effect l rs ts =
    Changes l rs ts
    ⊎ ((r : OutboxRow) × IsNew r × (get outbox_key r.outbox_id rs ≡ none) × (ts ≡ rs ++ r ∷ []))

pub Step-Effect :
    {l : Limits} {s t : Deliveries} → Step l s t → Sound l s.rows → Effect l s.rows t.rows
Step-Effect {l = l} {s = s} (claims busy token now n) v =
    inl (claim_due_outbox_batch-Changes l busy token now n s v.ids v.rows)
Step-Effect {l = l} {s = s} (decides k token admit uuid now) v =
    inl (decide-Changes l k token admit uuid now s)
Step-Effect {l = l} {s = s} (rejects k token) v = inl (reject_media_admission-Changes l k token s)
Step-Effect {l = l} {s = s} (succeeds k token a missing new_id) v =
    inl (settle_outbox_success-Changes l k token a missing new_id s)
Step-Effect {l = l} {s = s} (fails k token error now permanent) v =
    inl (settle_outbox_failure-Changes l k token error now permanent s)
Step-Effect {l = l} {s = s} (recovers busy now stale_before k) v =
    inl (recover_row-Changes l busy now stale_before k s)
Step-Effect {l = l} {s = s} (enqueues r new fresh) v = inr (r, new, fresh, refl)
Step-Effect {l = l} {s = s} (elsewhere t e) v = inl (rw e same)

IsNew-RowOk : (l : Limits) (r : OutboxRow) → 1 ≤ l.max_attempts → IsNew r → RowOk l r
IsNew-RowOk l r some_attempts new = record {
  owner = ground (arith, new.unowned, new.waiting);
  since = ground (arith, new.unclaimed, new.waiting);
  in_flight = λ e. ground (arith, new.uncalled);
  no_next = λ e. ground (arith, new.waiting);
  sent_when = ground (arith, new.unsent, new.waiting);
  certain = λ e. ground (arith, new.waiting);
  attempts = ground (arith, new.untried);
  left = λ e. ground (arith, new.untried);
}

pub Effect-Sound :
    (l : Limits) (rs ts : List OutboxRow)
    → 1 ≤ l.max_attempts
    → Effect l rs ts
    → Sound l rs
    → Sound l ts
Effect-Sound l rs ts some_attempts (inl ch) v = Changes-Sound l rs ts ch v
Effect-Sound l rs ts some_attempts (inr (r, new, fresh, e)) v = rw e (record {
  ids = snoc-Unique outbox_key r rs v.ids fresh;
  rows = All-snoc (RowOk l) rs r v.rows (IsNew-RowOk l r some_attempts new);
})

-- From a sound table, and with at least one attempt allowed, whatever transactions run, in whatever order and with
-- whatever claims, current or stale, the outbox stays sound: unique ids; a claim exactly on the rows that are
-- SENDING; a call in flight only there; attempts within the limit and one left on every open row; no next attempt on
-- a settled row; a time of sending exactly on the SENT ones; and no row SUPPRESSED whose call has an unknown result.
pub Reach-Sound :
    (l : Limits) (s t : Deliveries)
    → Reach l s t
    → 1 ≤ l.max_attempts
    → Sound l s.rows
    → Sound l t.rows
Reach-Sound l s _ start some_attempts v = v
Reach-Sound l s t (next {t = m} r step) some_attempts v =
    let before = Reach-Sound l s m r some_attempts v in
    Effect-Sound l m.rows t.rows some_attempts (Step-Effect step before) before

-- A row that is SENT, FAILED, SUPPRESSED or in REVIEW is the same in every state that the transactions reach from a
-- sound table, with at least one attempt allowed.
pub settled_forever :
    (l : Limits) (s t : Deliveries) (k : ℕ) (r : OutboxRow)
    → Reach l s t
    → 1 ≤ l.max_attempts
    → Sound l s.rows
    → get outbox_key k s.rows ≡ some r
    → is_settled r.status ≡ true
    → get outbox_key k t.rows ≡ some r
settled_forever l s _ k r start some_attempts v g done = g
settled_forever l s t k r (next {t = m} before step) some_attempts v g done =
    let here = settled_forever l s m k r before some_attempts v g done in
    elim (Step-Effect step (Reach-Sound l s m before some_attempts v)) [
      | inl ch ↦ Changes-settled l m.rows t.rows k r ch here done
      | inr (x, new, fresh, e) ↦ rw e (get-snoc outbox_key k x r m.rows here)
    ]
