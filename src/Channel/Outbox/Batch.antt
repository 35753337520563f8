-- ===== src/Channel/Outbox/Batch.antt =====
-- The acquisition of a batch: which rows its claims are of, and what it does to the table.
use chat_bot_ceiba.Common.{
  ℕ, zero, suc, ◌≡◌, ◌⊎◌, refl, sym, ◌∙◌, subst, inl, inr, Bool, true, false, some, List, [], ◌∷◌,
  arith, ◌==◌, ==_refl, Bool-cases, All, All-weaken, select,
}
use chat_bot_ceiba.Rows.Table.{get, put, get-put, Unique}
use chat_bot_ceiba.Channel.Outbox.Row.{
  OutboxRow, Deliveries, outbox_key, is_pending, phase_is_admitted,
}
use chat_bot_ceiba.Channel.Outbox.Settle.{Limits}
use chat_bot_ceiba.Channel.Outbox.Claim.{
  Dependency-cases, dependency_blocks_claim, take, sending_row, claim_row, claim_rows,
}
use chat_bot_ceiba.Channel.Outbox.Life.{RowOk, RowMove, sending_row-Move}
use chat_bot_ceiba.Channel.Outbox.Dependency.{dependency-Move}
use chat_bot_ceiba.Channel.Outbox.Moves.{Changes, same, one_move, Changes-trans}

-- Chosen rows are rows of the table, each once.
module _ {κ} (P : OutboxRow → Type κ) where
  pub All-select :
      (p : OutboxRow → Bool) (rs : List OutboxRow)
      → All P rs
      → All (λ r. P r × (p r ≡ true)) (select p rs)
  All-select p [] h = tt
  All-select p (r ∷ rs) h = elim (Bool-cases (p r)) [
    | inl hit ↦ rw hit ((h.0, hit), All-select p rs h.1)
    | inr miss ↦ rw miss (All-select p rs h.1)
  ]

  pub All-take : (n : ℕ) (rs : List OutboxRow) → All P rs → All P (take n rs)
  All-take zero rs h = tt
  All-take (suc n) [] h = tt
  All-take (suc n) (r ∷ rs) h = (h.0, All-take n rs h.1)

select-All :
    (P : OutboxRow → Type 0) (p : OutboxRow → Bool) (rs : List OutboxRow)
    → All P rs
    → All P (select p rs)
select-All P p rs h = All-weaken _ P (select p rs) (λ r q. q.0) (All-select P p rs h)

pub select-Unique :
    (p : OutboxRow → Bool) (rs : List OutboxRow)
    → Unique outbox_key rs
    → Unique outbox_key (select p rs)
select-Unique p [] u = tt
select-Unique p (r ∷ rs) u = elim (Bool-cases (p r)) [
  | inl hit ↦ rw hit (select-All _ p rs u.0, select-Unique p rs u.1)
  | inr miss ↦ rw miss (select-Unique p rs u.1)
]

pub take-Unique :
    (n : ℕ) (rs : List OutboxRow) → Unique outbox_key rs → Unique outbox_key (take n rs)
take-Unique zero rs u = tt
take-Unique (suc n) [] u = tt
take-Unique (suc n) (r ∷ rs) u = (All-take _ n rs u.0, take-Unique n rs u.1)

abbrev pub IsStored : List OutboxRow → OutboxRow → Type 0
IsStored rows r = get outbox_key r.outbox_id rows ≡ some r

pub Unique-IsStored : (rs : List OutboxRow) → Unique outbox_key rs → All (IsStored rs) rs
unfolding get
Unique-IsStored [] u = tt
Unique-IsStored (r ∷ rs) u = (
  rw (==_refl r.outbox_id) refl,
  All-weaken (λ x. ((x.outbox_id == r.outbox_id) ≡ false) × IsStored rs x) (IsStored (r ∷ rs)) rs
      (λ x q. ground (arith, q.0, q.1)) (All-pair _ _ rs u.0 (Unique-IsStored rs u.1)),
)
  where
    All-pair :
        (P Q : OutboxRow → Type 0) (xs : List OutboxRow)
        → All P xs
        → All Q xs
        → All (λ x. P x × Q x) xs
    All-pair P Q [] a b = tt
    All-pair P Q (x ∷ xs) a b = ((a.0, b.0), All-pair P Q xs a.1 b.1)

-- What is true of a row that the loop comes to.
abbrev pub IsReady : Limits → List OutboxRow → OutboxRow → Type 0
IsReady l rows r = IsStored rows r × (is_pending r.status ≡ true) × RowOk l r

ready-idle :
    (l : Limits) (rows : List OutboxRow) (r : OutboxRow)
    → IsReady l rows r
    → phase_is_admitted r.send_admission ≡ false
ready-idle l rows r (here, waiting, ok) = elim (Bool-cases (phase_is_admitted r.send_admission)) [
  | inl flying ↦ let busy = ok.in_flight flying in ground arith
  | inr idle ↦ idle
]

-- The loop's body leaves the table, or moves its own row.
claim_row-move :
    (l : Limits) (token now : ℕ) (r : OutboxRow) (s : Deliveries)
    → IsReady l s.rows r
    → ((claim_row token now r s).1.rows ≡ s.rows)
      ⊎ ((r' : OutboxRow) × RowMove l r r'
          × ((claim_row token now r s).1.rows ≡ put outbox_key r' s.rows))
unfolding claim_row
claim_row-move l token now r s ready = elim (Dependency-cases (dependency_blocks_claim s r now)) [
  | inl go ↦
      inr (sending_row r token now, sending_row-Move l r token now ready.1, rw (claim_row, go) refl)
  | inr (inl stay) ↦ inl (rw (claim_row, stay) refl)
  | inr (inr (r', e)) ↦ inr (
    r',
    dependency-Move l s r r' now e ready.1 (ready-idle l s.rows r ready),
    rw (claim_row, e) refl,
  )
]

pub claim_row-Changes :
    (l : Limits) (token now : ℕ) (r : OutboxRow) (s : Deliveries)
    → IsReady l s.rows r
    → Changes l s.rows (claim_row token now r s).1.rows
claim_row-Changes l token now r s ready = elim (claim_row-move l token now r s ready) [
  | inl e ↦ rw e same
  | inr (r', m, e) ↦ rw e (one_move l r.outbox_id r r' s.rows ready.0 m)
]

-- The body leaves the other rows.
pub claim_row-other :
    (l : Limits) (k token now : ℕ) (r : OutboxRow) (s : Deliveries)
    → IsReady l s.rows r
    → (r.outbox_id == k) ≡ false
    → get outbox_key k (claim_row token now r s).1.rows ≡ get outbox_key k s.rows
claim_row-other l k token now r s ready other = elim (claim_row-move l token now r s ready) [
  | inl e ↦ rw e refl
  | inr (r', m, e) ↦
      let here : get outbox_key r'.outbox_id s.rows ≡ some r =
        subst (λ n. get outbox_key n s.rows ≡ some r) (sym m.ident) ready.0 in
      let written = get-put outbox_key k r' r s.rows here in
      let miss : (r'.outbox_id == k) ≡ false = subst (λ n. (n == k) ≡ false) (sym m.ident) other in
      rw (e, written, miss) refl
]

pub rest-IsReady :
    (l : Limits) (token now : ℕ) (r : OutboxRow) (rs : List OutboxRow) (s : Deliveries)
    → IsReady l s.rows r
    → All (λ x. (x.outbox_id == r.outbox_id) ≡ false) rs
    → All (IsReady l s.rows) rs
    → All (IsReady l (claim_row token now r s).1.rows) rs
rest-IsReady l token now r [] s ready apart h = tt
rest-IsReady l token now r (x ∷ rs) s ready apart h = (
  (
    claim_row-other l x.outbox_id token now r s ready (ground (arith, apart.0)) ∙ h.0.0,
    h.0.1,
    h.0.2,
  ),
  rest-IsReady l token now r rs s ready apart.1 h.1,
)

pub claim_rows-Changes :
    (l : Limits) (token : ℕ → ℕ) (now : ℕ) (rs : List OutboxRow) (s : Deliveries)
    → Unique outbox_key rs
    → All (IsReady l s.rows) rs
    → Changes l s.rows (claim_rows token now rs s).1.rows
unfolding claim_rows
claim_rows-Changes l token now [] s u h = same
claim_rows-Changes l token now (r ∷ rs) s u h =
    Changes-trans (claim_row-Changes l (token r.outbox_id) now r s h.0) (
      claim_rows-Changes l token now rs _ u.1
        (rest-IsReady l (token r.outbox_id) now r rs s h.0 u.0 h.1))
