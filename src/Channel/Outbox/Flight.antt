-- ===== src/Channel/Outbox/Flight.antt =====
-- A call in flight, while other transactions run.
use chat_bot_ceiba.Common.{
  ℕ, ◌≤◌, ◌≡◌, ◌⊎◌, refl, sym, ap, ◌∙◌, subst, inl, inr, Bool, true, false, ◌&&◌, none, some,
  String, List, [], ◌∷◌, ◌++◌, arith, ◌==◌, ==_iff, Bool-cases, Option-cases, All-weaken,
}
use chat_bot_ceiba.Rows.Table.{get, get-snoc, All-get}
use chat_bot_ceiba.Channel.Outbox.Row.{OutboxRow, Deliveries, outbox_key, is_sending}
use chat_bot_ceiba.Channel.Outbox.Admission.{
  admitted_now, discarded, lock_delivery_row, owns, decide, reject_media_admission,
}
use chat_bot_ceiba.Channel.Outbox.Settle.{
  Limits, Answer, SettlementOutcome, settle_outbox_success, settle_outbox_failure, is_stale,
  recover_row,
}
use chat_bot_ceiba.Channel.Outbox.Claim.{claim_due_outbox_batch, is_due}
use chat_bot_ceiba.Channel.Outbox.Life.{RowOk}
use chat_bot_ceiba.Channel.Outbox.Moves.{lock_delivery_row-get}
use chat_bot_ceiba.Channel.Outbox.Batch.{IsReady, select-Unique, take-Unique}
use chat_bot_ceiba.Channel.Outbox.Claims.{IsChosen, chosen, chosen-IsReady, claim_rows-other}
use chat_bot_ceiba.Channel.Outbox.Reach.{
  Sound, Step, claims, decides, rejects, succeeds, fails, recovers, enqueues, IsNew, Step-Effect,
  Effect-Sound,
}
use chat_bot_ceiba.Channel.Outbox.Once.{IsInFlight, decide-IsInFlight, in_flight-decide}
use chat_bot_ceiba.Channel.Outbox.Stale.{
  IsForeign, reject-foreign, failure-foreign, success-foreign,
}
use chat_bot_ceiba.Channel.Outbox.Writes.{
  Writes, decide-Writes, reject-Writes, failure-Writes, success-Writes, recover-Writes,
  Writes-other,
}

InFlight-same :
    (k : ℕ) (rs ts : List OutboxRow)
    → get outbox_key k ts ≡ get outbox_key k rs
    → IsInFlight k rs
    → IsInFlight k ts
InFlight-same k rs ts e (r, here, flying) = (r, e ∙ here, flying)

decide-keeps :
    (n k token : ℕ) (admit : Bool) (uuid now : ℕ) (s : Deliveries)
    → IsInFlight n s.rows
    → IsInFlight n (decide k token admit uuid now s).1.rows
decide-keeps n k token admit uuid now s f = elim (Bool-cases (k == n)) [
  | inl hit ↦
      let it : k ≡ n = (==_iff k n).0 hit in
      let off = in_flight-decide n token admit uuid now s f in
      subst (λ i. IsInFlight n (decide i token admit uuid now s).1.rows) (sym it)
        (subst (λ (d : _ × Deliveries). IsInFlight n d.1.rows) (sym off) f)
  | inr miss ↦
      InFlight-same n s.rows _
        (Writes-other k n s.rows _ (decide-Writes k token admit uuid now s) miss) f
]

chosen-apart :
    (l : Limits) (busy : ℕ → Bool) (now n : ℕ) (s : Deliveries) (r x : OutboxRow)
    → is_sending r.status ≡ true
    → get outbox_key n s.rows ≡ some r
    → IsChosen busy now s x
    → (x.outbox_id == n) ≡ false
unfolding is_due
chosen-apart l busy now n s r x flying here (stored, due) = elim (Bool-cases (x.outbox_id == n)) [
  | inr apart ↦ apart
  | inl hit ↦
      let it : x.outbox_id ≡ n = (==_iff x.outbox_id n).0 hit in
      let same : some x ≡ some r =
        sym stored ∙ subst (λ i. get outbox_key i s.rows ≡ some r) (sym it) here in
      let alike : x ≡ r = cc in
      let mine : is_sending x.status ≡ true =
        subst (λ (q : OutboxRow). is_sending q.status ≡ true) (sym alike) flying in
      absurd (ground arith)
]

claims-keeps :
    (l : Limits) (n : ℕ) (busy : ℕ → Bool) (token : ℕ → ℕ) (now limit : ℕ) (s : Deliveries)
    → Sound l s.rows
    → IsInFlight n s.rows
    → IsInFlight n (claim_due_outbox_batch busy token now limit s).1.rows
unfolding claim_due_outbox_batch
claims-keeps l n busy token now limit s v (r, here, flying) =
    let working = (All-get outbox_key (RowOk l) n r s.rows v.rows here).in_flight flying in
    let picked = chosen busy now limit s v.ids in
    let apart =
      claim_rows-other l token now n _ s (take-Unique limit _ (select-Unique _ s.rows v.ids))
        (All-weaken (IsChosen busy now s) (IsReady l s.rows) _
          (λ x q. chosen-IsReady l busy now s x v.rows q) picked)
        (All-weaken (IsChosen busy now s) (λ x. (x.outbox_id == n) ≡ false) _
          (λ x q. chosen-apart l busy now n s r x working here q) picked) in
    InFlight-same n s.rows _ apart (r, here, flying)

-- The stored row with the key `k` is SENDING with this token; its claim is stale.
abbrev pub is_owner : ℕ → ℕ → Deliveries → Bool
is_owner k token s = elim (get outbox_key k s.rows) [ none ↦ false | some r ↦ owns token r ]

abbrev pub has_stale_claim : ℕ → ℕ → Deliveries → Bool
has_stale_claim k stale_before s = elim (get outbox_key k s.rows) [
  | none ↦ false
  | some r ↦ is_stale stale_before r
]

-- Any transactions of the outbox, except for the message with the key `k`: a result or a refused medium that the owner
-- of its claim reports, and the recovery of its claim when that is stale.
pub data Unsettled (l : Limits) (k : ℕ) (s : Deliveries) : Deliveries → Type 0 where
  begin : Unsettled l k s s
  then_claims :
      {t : Deliveries} (busy : ℕ → Bool) (token : ℕ → ℕ) (now n : ℕ)
      → Unsettled l k s t
      → Unsettled l k s (claim_due_outbox_batch busy token now n t).1
  then_decides :
      {t : Deliveries} (i token : ℕ) (admit : Bool) (uuid now : ℕ)
      → Unsettled l k s t
      → Unsettled l k s (decide i token admit uuid now t).1
  then_rejects :
      {t : Deliveries} (i token : ℕ)
      → ((i == k) ≡ false) ⊎ (is_owner i token t ≡ false)
      → Unsettled l k s t
      → Unsettled l k s (reject_media_admission i token t).1
  then_succeeds :
      {t : Deliveries} (i token : ℕ) (a : Answer) (missing : String) (new_id : ℕ)
      → ((i == k) ≡ false) ⊎ (is_owner i token t ≡ false)
      → Unsettled l k s t
      → Unsettled l k s (settle_outbox_success i token a missing new_id l t).1
  then_fails :
      {t : Deliveries} (i token : ℕ) (error : String) (now : ℕ) (permanent : Bool)
      → ((i == k) ≡ false) ⊎ (is_owner i token t ≡ false)
      → Unsettled l k s t
      → Unsettled l k s (settle_outbox_failure i token error now permanent l t).1
  then_recovers :
      {t : Deliveries} (busy : Bool) (now stale_before i : ℕ)
      → ((i == k) ≡ false) ⊎ (has_stale_claim i stale_before t ≡ false)
      → Unsettled l k s t
      → Unsettled l k s (recover_row busy now stale_before l i t).1
  then_enqueues :
      {t : Deliveries} (r : OutboxRow)
      → IsNew r
      → get outbox_key r.outbox_id t.rows ≡ none
      → Unsettled l k s t
      → Unsettled l k s (record t { rows = t.rows ++ r ∷ [] })
  then_elsewhere :
      {t : Deliveries} (u : Deliveries) → u.rows ≡ t.rows → Unsettled l k s t → Unsettled l k s u

IsForeign-of : (k token : ℕ) (s : Deliveries) → is_owner k token s ≡ false → IsForeign k token s
IsForeign-of k token s h r here = ground arith

-- A transaction that writes another row, or nothing.
Writes-keeps :
    (n i : ℕ) (s t : Deliveries)
    → Writes i s.rows t.rows
    → ((i == n) ≡ false) ⊎ (t ≡ s)
    → IsInFlight n s.rows
    → IsInFlight n t.rows
Writes-keeps n i s t w (inl apart) f =
    InFlight-same n s.rows t.rows (Writes-other i n s.rows t.rows w apart) f
Writes-keeps n i s t w (inr same) f = subst (λ (d : Deliveries). IsInFlight n d.rows) (sym same) f

recover-fresh :
    (l : Limits) (busy : Bool) (now stale_before k : ℕ) (s : Deliveries)
    → has_stale_claim k stale_before s ≡ false
    → (recover_row busy now stale_before l k s).1 ≡ s
unfolding recover_row
recover-fresh l true now stale_before k s h = refl
recover-fresh l false now stale_before k s h = elim (Option-cases (lock_delivery_row k s)) [
  | inl missing ↦ rw (recover_row, missing) refl
  | inr ((c, r), found) ↦
      let here = lock_delivery_row-get k s c r found in
      let held : (is_sending r.status && is_stale stale_before r) ≡ false = ground arith in
      rw (recover_row, found, held) refl
]

or_same :
    (i n token : ℕ) (s t : Deliveries)
    → ((i == n) ≡ false) ⊎ (is_owner i token s ≡ false)
    → (IsForeign i token s → t ≡ s)
    → ((i == n) ≡ false) ⊎ (t ≡ s)
or_same i n token s t (inl apart) same = inl apart
or_same i n token s t (inr other) same = inr (same (IsForeign-of i token s other))

after_step :
    {l : Limits} {s t : Deliveries}
    → 1 ≤ l.max_attempts
    → Step l s t
    → Sound l s.rows
    → Sound l t.rows
after_step {l = l} {s = s} {t = t} some_attempts step v =
    Effect-Sound l s.rows t.rows some_attempts (Step-Effect step v) v

unsettled :
    (l : Limits) (k : ℕ) (s t : Deliveries)
    → Unsettled l k s t
    → 1 ≤ l.max_attempts
    → Sound l s.rows
    → IsInFlight k s.rows
    → Sound l t.rows × IsInFlight k t.rows
unsettled l k s _ begin some_attempts v f = (v, f)
unsettled l k s _ (then_claims {t = t} busy token now n q) some_attempts v f =
    let (sound, flight) = unsettled l k s t q some_attempts v f in
    (
      after_step some_attempts (claims busy token now n) sound,
      claims-keeps l k busy token now n t sound flight,
    )
unsettled l k s _ (then_decides {t = t} i token admit uuid now q) some_attempts v f =
    let (sound, flight) = unsettled l k s t q some_attempts v f in
    (
      after_step some_attempts (decides i token admit uuid now) sound,
      decide-keeps k i token admit uuid now t flight,
    )
unsettled l k s _ (then_rejects {t = t} i token other q) some_attempts v f =
    let (sound, flight) = unsettled l k s t q some_attempts v f in
    (
      after_step some_attempts (rejects i token) sound,
      Writes-keeps k i t _ (reject-Writes i token t)
          (or_same i k token t _ other
            (λ g. ap (λ (p : Bool × Deliveries). p.1) (reject-foreign i token t g)))
          flight,
    )
unsettled l k s _ (then_succeeds {t = t} i token a missing new_id other q) some_attempts v f =
    let (sound, flight) = unsettled l k s t q some_attempts v f in
    (
      after_step some_attempts (succeeds i token a missing new_id) sound,
      Writes-keeps k i t _ (success-Writes i token a missing new_id l t)
          (or_same i k token t _ other (λ g.
            ap (λ (p : SettlementOutcome × Deliveries). p.1)
              (success-foreign i token a missing new_id l t g)))
          flight,
    )
unsettled l k s _ (then_fails {t = t} i token error now permanent other q) some_attempts v f =
    let (sound, flight) = unsettled l k s t q some_attempts v f in
    (
      after_step some_attempts (fails i token error now permanent) sound,
      Writes-keeps k i t _ (failure-Writes i token error now permanent l t)
          (or_same i k token t _ other (λ g.
            ap (λ (p : SettlementOutcome × Deliveries). p.1)
              (failure-foreign i token error now permanent l t g)))
          flight,
    )
unsettled l k s _ (then_recovers {t = t} busy now stale_before i other q) some_attempts v f =
    let (sound, flight) = unsettled l k s t q some_attempts v f in
    let kept : ((i == k) ≡ false) ⊎ ((recover_row busy now stale_before l i t).1 ≡ t) = elim other [
      | inl apart ↦ inl apart
      | inr fresh ↦ inr (recover-fresh l busy now stale_before i t fresh)
    ] in
    (
      after_step some_attempts (recovers busy now stale_before i) sound,
      Writes-keeps k i t _ (recover-Writes l busy now stale_before i t) kept flight,
    )
unsettled l k s _ (then_enqueues {t = t} r new fresh q) some_attempts v f =
    let (sound, (x, here, flying)) = unsettled l k s t q some_attempts v f in
    (
      after_step {s = t} some_attempts (enqueues r new fresh) sound,
      (x, get-snoc outbox_key k r x t.rows here, flying),
    )
unsettled l k s _ (then_elsewhere {t = t} u e q) some_attempts v f =
    let (sound, flight) = unsettled l k s t q some_attempts v f in
    (rw e sound, InFlight-same k t.rows u.rows (ap (get outbox_key k) e) flight)

-- From a sound table, with at least one attempt allowed: once a call for a message is permitted, every further check
-- or admission of that message, by any worker and with any token, is DISCARDED and writes nothing, until the flight of
-- that message ends. It ends only with a result or a refused medium that the owner of the message's claim reports, or
-- with the recovery of that claim when it has become stale. Everything else may run before: acquisitions, checks and
-- admissions of any message, results, refused media and recoveries of other messages, those of this one with another
-- token or before its claim is stale, new messages, and writes of other tables.
pub one_call :
    (l : Limits) (k token : ℕ) (admit : Bool) (uuid now : ℕ) (s t : Deliveries) (token' : ℕ)
    (admit' : Bool) (uuid' now' : ℕ)
    → 1 ≤ l.max_attempts
    → Sound l s.rows
    → (decide k token admit uuid now s).0 ≡ admitted_now
    → Unsettled l k (decide k token admit uuid now s).1 t
    → decide k token' admit' uuid' now' t ≡ (discarded, t)
one_call l k token admit uuid now s t token' admit' uuid' now' some_attempts v h q =
    in_flight-decide k token' admit' uuid' now' t
      (unsettled l k _ t q some_attempts
        (after_step some_attempts (decides k token admit uuid now) v)
        (decide-IsInFlight k token admit uuid now s h)).1
