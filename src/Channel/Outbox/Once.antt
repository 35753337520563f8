-- ===== src/Channel/Outbox/Once.antt =====
-- The permission for a call of the provider: what it rests on, and that there is one at a time for a message.
use chat_bot_ceiba.Common.{
  ℕ, ◌≡◌, refl, sym, ap, ◌∙◌, subst, inl, inr, Bool, true, false, not, ◌||◌, some, List, arith,
  ◌==◌, ==_iff, Bool-cases, Option-cases,
}
use chat_bot_ceiba.Rows.Table.{get, get-put, key-get}
use chat_bot_ceiba.Conversation.{Conversation}
use chat_bot_ceiba.Channel.Outbox.Row.{OutboxRow, Deliveries, outbox_key, phase_is_admitted}
use chat_bot_ceiba.Channel.Outbox.Eligibility.{Ruling, eligible, stopped, is_eligible, eligibility}
use chat_bot_ceiba.Channel.Outbox.Admission.{
  admitted_now, discarded, lock_delivery_row, put_row, owns, ruled, decide, new_admission,
}
use chat_bot_ceiba.Channel.Outbox.Life.{eligibility-row}
use chat_bot_ceiba.Channel.Outbox.Moves.{lock_delivery_row-get}

-- The row that an admission leaves.
abbrev pub admitted_row : OutboxRow → ℕ → ℕ → ℕ → OutboxRow
admitted_row r uuid token now = record r { send_admission = some (new_admission uuid token now) }

ruled-admits :
    (v : Ruling) (r : OutboxRow) (token : ℕ) (admit : Bool) (uuid now : ℕ) (s : Deliveries)
    → (ruled v r token admit uuid now s).0 ≡ admitted_now
    → (is_eligible v ≡ true)
      × ((ruled v r token admit uuid now s).1 ≡ put_row (admitted_row r uuid token now) s)
unfolding ruled
ruled-admits (stopped stop reason) r token admit uuid now s h = absurd (cc)
ruled-admits (eligible reason) r token true uuid now s h = (refl, refl)
ruled-admits (eligible reason) r token false uuid now s h = absurd (cc)

-- A call is permitted only to the worker whose token the SENDING row carries, with no other call in flight, and
-- only if the message is eligible by its row, its conversation and the rows that it names at that moment; the row
-- then carries the admission.
pub decide-admits :
    (k token : ℕ) (admit : Bool) (uuid now : ℕ) (s : Deliveries)
    → (decide k token admit uuid now s).0 ≡ admitted_now
    → (c : Conversation) × (r : OutboxRow) × (lock_delivery_row k s ≡ some (c, r))
      × (owns token r ≡ true)
      × (phase_is_admitted r.send_admission ≡ false)
      × (is_eligible (eligibility s c r).0 ≡ true)
      × ((decide k token admit uuid now s).1
          ≡ put_row (admitted_row (eligibility s c r).1 uuid token now) s)
unfolding decide
decide-admits k token admit uuid now s h = elim (Option-cases (lock_delivery_row k s)) [
  | inl missing ↦ let no_row : discarded ≡ admitted_now = rw (decide, missing) at h in absurd (cc)
  | inr ((c, r), found) ↦
      elim (Bool-cases (not (owns token r) || phase_is_admitted r.send_admission)) [
        | inl other ↦
            let no_row : discarded ≡ admitted_now = rw (decide, found, other) at h in absurd (cc)
        | inr mine ↦
            let v = (eligibility s c r).0 in
            let r1 = (eligibility s c r).1 in
            let ruling : (ruled v r1 token admit uuid now s).0 ≡ admitted_now =
              rw (decide, found, mine) at h in
            let (passed, wrote) = ruled-admits v r1 token admit uuid now s ruling in
            (c, r, found, ground arith, ground arith, passed, rw (decide, found, mine) wrote)
      ]
]

abbrev pub IsInFlight : ℕ → List OutboxRow → Type 0
IsInFlight k rs =
    (r : OutboxRow) × (get outbox_key k rs ≡ some r) × (phase_is_admitted r.send_admission ≡ true)

pub decide-IsInFlight :
    (k token : ℕ) (admit : Bool) (uuid now : ℕ) (s : Deliveries)
    → (decide k token admit uuid now s).0 ≡ admitted_now
    → IsInFlight k (decide k token admit uuid now s).1.rows
decide-IsInFlight k token admit uuid now s h =
    let (c, r, found, mine, idle, passed, wrote) = decide-admits k token admit uuid now s h in
    let r1 = (eligibility s c r).1 in
    let ident : r1.outbox_id ≡ r.outbox_id =
      ap (λ (q : OutboxRow). q.outbox_id) (eligibility-row s c r) in
    let here = lock_delivery_row-get k s c r found in
    let key : r1.outbox_id ≡ k = ident ∙ key-get outbox_key k r s.rows here in
    let stored : get outbox_key r1.outbox_id s.rows ≡ some r =
      subst (λ n. get outbox_key n s.rows ≡ some r) (sym key) here in
    let written = get-put outbox_key k (admitted_row r1 uuid token now) r s.rows stored in
    let hit : (r1.outbox_id == k) ≡ true = (==_iff r1.outbox_id k).1 key in
    (admitted_row r1 uuid token now, rw (wrote, written, hit) refl, refl)

-- With a call in flight no one else is permitted another.
pub in_flight-decide :
    (k token : ℕ) (admit : Bool) (uuid now : ℕ) (s : Deliveries)
    → IsInFlight k s.rows
    → decide k token admit uuid now s ≡ (discarded, s)
unfolding decide
in_flight-decide k token admit uuid now s (r, here, flying) =
    elim (Option-cases (lock_delivery_row k s)) [
      | inl missing ↦ rw (decide, missing) refl
      | inr ((c, q), found) ↦
          let same : some q ≡ some r = sym (lock_delivery_row-get k s c q found) ∙ here in
          let busy : (not (owns token q) || phase_is_admitted q.send_admission) ≡ true =
            ground arith in
          rw (decide, found, busy) refl
    ]
