-- ===== src/Channel/Outbox/Claims.antt =====
-- The claims that the acquisition of a batch hands out.
use chat_bot_ceiba.Common.{
  ℕ, ◌≡◌, refl, sym, ◌∙◌, subst, inl, inr, Bool, true, false, not, ◌&&◌, Option, none, some, List,
  [], ◌∷◌, arith, ◌==◌, ==_refl, All, All-weaken, select,
}
use chat_bot_ceiba.Rows.Table.{get, put, get-put, Unique, All-get}
use chat_bot_ceiba.Channel.Outbox.Row.{OutboxRow, Deliveries, outbox_key}
use chat_bot_ceiba.Channel.Outbox.Settle.{Limits}
use chat_bot_ceiba.Channel.Outbox.Claim.{
  OutboxClaim, Dependency-cases, dependency_blocks_claim, take, sending_row, claim_of, claim_row,
  cons_some, claim_rows, claim_due_outbox_batch, is_due,
}
use chat_bot_ceiba.Channel.Outbox.Life.{RowOk}
use chat_bot_ceiba.Channel.Outbox.Moves.{Changes, Changes-settled}
use chat_bot_ceiba.Channel.Outbox.Dependency.{FollowsSent, dependency-free}
use chat_bot_ceiba.Channel.Outbox.Batch.{
  IsReady, IsStored, claim_row-other, rest-IsReady, claim_rows-Changes, All-select, All-take,
  select-Unique, take-Unique, Unique-IsStored,
}

-- A claim is the snapshot of a row that satisfies `Q`, and in the table that row is SENDING with the claim's token;
-- what it follows was SENT.
abbrev pub ClaimFits : (OutboxRow → Type 0) → ℕ → Deliveries → OutboxClaim → Type 0
ClaimFits Q now t c =
    (r : OutboxRow) × Q r
    × (c ≡ claim_of r c.claim_token)
    × (get outbox_key c.outbox_id t.rows ≡ some (sending_row r c.claim_token now))
    × FollowsSent t r

pub claim_rows-other :
    (l : Limits) (token : ℕ → ℕ) (now k : ℕ) (rs : List OutboxRow) (s : Deliveries)
    → Unique outbox_key rs
    → All (IsReady l s.rows) rs
    → All (λ x. (x.outbox_id == k) ≡ false) rs
    → get outbox_key k (claim_rows token now rs s).1.rows ≡ get outbox_key k s.rows
unfolding claim_rows
claim_rows-other l token now k [] s u h apart = refl
claim_rows-other l token now k (r ∷ rs) s u h apart =
    claim_rows-other l token now k rs _ u.1
      (rest-IsReady l (token r.outbox_id) now r rs s h.0 u.0 h.1) apart.1
    ∙ claim_row-other l k (token r.outbox_id) now r s h.0 apart.0

FollowsSent-later :
    (l : Limits) (s t : Deliveries) (r : OutboxRow)
    → Changes l s.rows t.rows
    → FollowsSent s r
    → FollowsSent t r
FollowsSent-later l s t r ch (inl nothing) = inl nothing
FollowsSent-later l s t r ch (inr (n, p, after, here, fits, done)) =
    inr (n, p, after, Changes-settled l s.rows t.rows n p ch here (ground arith), fits, done)

All-cons_some :
    (P : OutboxClaim → Type 0) (o : Option OutboxClaim) (cs : List OutboxClaim)
    → ((c : OutboxClaim) → o ≡ some c → P c)
    → All P cs
    → All P (cons_some o cs)
All-cons_some P none cs f h = h
All-cons_some P (some c) cs f h = (f c refl, h)

claim_row-claims :
    (token now : ℕ) (r : OutboxRow) (s : Deliveries) (c : OutboxClaim)
    → (claim_row token now r s).0 ≡ some c
    → (c ≡ claim_of r token)
      × ((claim_row token now r s).1.rows ≡ put outbox_key (sending_row r token now) s.rows)
      × FollowsSent s r
unfolding claim_row
claim_row-claims token now r s c h = elim (Dependency-cases (dependency_blocks_claim s r now)) [
  | inl go ↦
      let it : some (claim_of r token) ≡ some c = rw (claim_row, go) at h in
      (ground arith, rw (claim_row, go) refl, dependency-free s r now go)
  | inr (inl stay) ↦ let clash : none ≡ some c = rw (claim_row, stay) at h in absurd (cc)
  | inr (inr (r', e)) ↦ let clash : none ≡ some c = rw (claim_row, e) at h in absurd (cc)
]

claim_rows-fits :
    (l : Limits) (Q : OutboxRow → Type 0) (token : ℕ → ℕ) (now : ℕ) (rs : List OutboxRow)
    (s : Deliveries)
    → Unique outbox_key rs
    → All (IsReady l s.rows) rs
    → All Q rs
    → All (ClaimFits Q now (claim_rows token now rs s).1) (claim_rows token now rs s).0
unfolding claim_rows
claim_rows-fits l Q token now [] s u h q = tt
claim_rows-fits l Q token now (r ∷ rs) s u h q =
    let m = (claim_row (token r.outbox_id) now r s).1 in
    let t = (claim_rows token now rs m).1 in
    let ready = rest-IsReady l (token r.outbox_id) now r rs s h.0 u.0 h.1 in
    All-cons_some (ClaimFits Q now t) _ _
      (λ c e.
        let (it, wrote, follows) = claim_row-claims (token r.outbox_id) now r s c e in
        let put_here =
          get-put outbox_key r.outbox_id (sending_row r (token r.outbox_id) now) r s.rows h.0.0 in
        let at_m : get outbox_key r.outbox_id m.rows
            ≡ some (sending_row r (token r.outbox_id) now) =
          rw (wrote, put_here, ==_refl r.outbox_id) refl in
        subst (ClaimFits Q now t) (sym it) (
          r,
          q.0,
          refl,
          claim_rows-other l token now r.outbox_id rs m u.1 ready u.0 ∙ at_m,
          FollowsSent-later l s t r (claim_rows-Changes l token now (r ∷ rs) s u h) follows,
        ))
      (claim_rows-fits l Q token now rs m u.1 ready q.1)

-- A row of the table that the query may return.
abbrev pub IsChosen : (ℕ → Bool) → ℕ → Deliveries → OutboxRow → Type 0
IsChosen busy now s r = IsStored s.rows r × ((is_due s now r && not (busy r.outbox_id)) ≡ true)

pub chosen :
    (busy : ℕ → Bool) (now n : ℕ) (s : Deliveries)
    → Unique outbox_key s.rows
    → All
        (IsChosen busy now s)
        (take n (select (λ (r : OutboxRow). is_due s now r && not (busy r.outbox_id)) s.rows))
chosen busy now n s u =
    All-take (IsChosen busy now s) n _
      (All-select (IsStored s.rows) _ s.rows (Unique-IsStored s.rows u))

pub chosen-IsReady :
    (l : Limits) (busy : ℕ → Bool) (now : ℕ) (s : Deliveries) (r : OutboxRow)
    → All (RowOk l) s.rows
    → IsChosen busy now s r
    → IsReady l s.rows r
unfolding is_due
chosen-IsReady l busy now s r oks (here, due) =
    (here, ground arith, All-get outbox_key (RowOk l) r.outbox_id r s.rows oks here)

pub claim_due_outbox_batch-Changes :
    (l : Limits) (busy : ℕ → Bool) (token : ℕ → ℕ) (now n : ℕ) (s : Deliveries)
    → Unique outbox_key s.rows
    → All (RowOk l) s.rows
    → Changes l s.rows (claim_due_outbox_batch busy token now n s).1.rows
unfolding claim_due_outbox_batch
claim_due_outbox_batch-Changes l busy token now n s u oks =
    claim_rows-Changes l token now _ s (take-Unique n _ (select-Unique _ s.rows u)) (
      All-weaken (IsChosen busy now s) (IsReady l s.rows) _
        (λ r q. chosen-IsReady l busy now s r oks q) (chosen busy now n s u))

-- In a well formed table, each claim of a batch is the snapshot of a stored row that was due and not locked
-- elsewhere; afterwards that row is SENDING with the claim's token; and a document that follows a text is claimed
-- only if the text, of the same conversation and message, is SENT.
pub claim_due_outbox_batch-fits :
    (l : Limits) (busy : ℕ → Bool) (token : ℕ → ℕ) (now n : ℕ) (s : Deliveries)
    → Unique outbox_key s.rows
    → All (RowOk l) s.rows
    → All
        (ClaimFits (IsChosen busy now s) now (claim_due_outbox_batch busy token now n s).1)
        (claim_due_outbox_batch busy token now n s).0
unfolding claim_due_outbox_batch
claim_due_outbox_batch-fits l busy token now n s u oks =
    claim_rows-fits l (IsChosen busy now s) token now _ s
      (take-Unique n _ (select-Unique _ s.rows u))
      (All-weaken (IsChosen busy now s) (IsReady l s.rows) _
        (λ r q. chosen-IsReady l busy now s r oks q) (chosen busy now n s u))
      (chosen busy now n s u)
