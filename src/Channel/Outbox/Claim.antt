-- ===== src/Channel/Outbox/Claim.antt =====
-- app/channel/worker.py: the acquisition of due rows. The rows of the table stand in the order of their creation,
-- which is the query's; `busy` are the rows that other transactions have locked, which the query skips.
use chat_bot_ceiba.Common.{
  ◌≡◌, ◌⊎◌, refl, inl, inr, ℕ, zero, suc, Bool, true, false, not, ◌&&◌, ◌||◌, Option, none, some,
  List, [], ◌∷◌, String, ltb, leb, ◌==◌, or_else, if◌then◌else◌, select,
}
use chat_bot_ceiba.Rows.Json.{Json, integer}
use chat_bot_ceiba.Rows.Table.{get}
use chat_bot_ceiba.Channel.Outbox.Row.{
  OutboxRow, OutboxStatus, pending, sending, sent, failed, suppressed, review, MessageKind, Payload,
  object, not_object, Deliveries, outbox_key, is_text_kind, is_pending, is_settled, is_sent,
}
use chat_bot_ceiba.Channel.Outbox.Eligibility.{suppress, to_review}
use chat_bot_ceiba.Channel.Outbox.Admission.{stop_delivery, put_row}

pub record OutboxClaim : Type 0 where
  pub outbox_id : ℕ
  pub claim_token : ℕ
  pub recipient_phone_number : String
  pub message_kind : MessageKind
  pub payload : Payload
  pub catalog_asset_id : Option ℕ

-- `context["after_outbox_id"]` where the context is an object that has the key.
abbrev pub after_of : OutboxRow → Option Json
after_of r = elim r.delivery_context [
  | some (object x) ↦ x.after_outbox_id
  | some not_object ↦ none
  | none ↦ none
]

-- The text that a document follows: same conversation and same inbound message.
abbrev pub is_preceding : OutboxRow → OutboxRow → Bool
is_preceding r p =
    is_text_kind p.message_kind
    && p.conversation_id == r.conversation_id
    && p.message_id == r.message_id

-- The row waits, is free to be sent, or is retired as it is given.
pub data Dependency : Type 0 where
  free waits : Dependency
  retires : OutboxRow → Dependency

pub Dependency-cases :
    (d : Dependency) → (d ≡ free) ⊎ ((d ≡ waits) ⊎ ((r : OutboxRow) × (d ≡ retires r)))
Dependency-cases free = inl refl
Dependency-cases waits = inr (inl refl)
Dependency-cases (retires r) = inr (inr (r, refl))

-- By the status and the reason of the text before.
unfoldable pub after_predecessor : OutboxRow → OutboxStatus → Option String → ℕ → Dependency
unfolding stop_delivery
after_predecessor r sent reason now = free
after_predecessor r pending reason now = waits
after_predecessor r sending reason now = waits
after_predecessor r suppressed reason now =
    retires (stop_delivery r suppress (or_else reason "PRECEDING_TEXT_SUPPRESSED") now)
after_predecessor r failed reason now =
    retires (stop_delivery r suppress "PRECEDING_TEXT_FAILED" now)
after_predecessor r review reason now =
    retires (stop_delivery r to_review "PRECEDING_TEXT_REVIEW" now)

-- type(predecessor_id) is int and 0 < predecessor_id <= 2147483647
abbrev pub predecessor_id : Json → Option ℕ
predecessor_id (integer n) = if ltb 0 n && leb n 2147483647 then some n else none
predecessor_id _ = none

unfoldable pub dependency_blocks_claim : Deliveries → OutboxRow → ℕ → Dependency
unfolding after_predecessor
dependency_blocks_claim s r now = elim (after_of r) [
  | none ↦ free
  | some v ↦
      let unproven = retires (stop_delivery r to_review "PRECEDING_TEXT_UNPROVEN" now) in
      elim (if is_text_kind r.message_kind then none else predecessor_id v) [
        | none ↦ unproven
        | some k ↦ elim (get outbox_key k s.rows) [
          | none ↦ unproven
          | some p ↦
              if is_preceding r p
              then after_predecessor r p.status p.delivery_reason now
              else unproven
        ]
      ]
]

-- The key that the query casts: a JSON number of one to ten digits that does not begin with 0.
abbrev pub dependency_id : OutboxRow → Option ℕ
dependency_id r = elim (after_of r) [
  | some (integer n) ↦ if ltb 0 n && ltb n 10000000000 then some n else none
  | _ ↦ none
]

abbrev pub preceding_text : Deliveries → OutboxRow → Option OutboxRow
preceding_text s r = elim (dependency_id r) [
  | none ↦ none
  | some k ↦ elim (get outbox_key k s.rows) [
    | none ↦ none
    | some p ↦ if is_preceding r p then some p else none
  ]
]

abbrev pub text_blocked : Option OutboxRow → Bool
text_blocked none = false
text_blocked (some p) = is_settled p.status && not (is_sent p.status)

-- `text_resolved`, or no preceding text
abbrev pub not_waiting : Option OutboxRow → Bool
not_waiting none = true
not_waiting (some p) = is_settled p.status

abbrev pub time_come : Option ℕ → ℕ → Bool
time_come none now = true
time_come (some t) now = leb t now

-- The WHERE clause.
unfoldable pub is_due : Deliveries → ℕ → OutboxRow → Bool
is_due s now r =
    is_pending r.status
    && (time_come r.next_attempt_at now || text_blocked (preceding_text s r))
    && not_waiting (preceding_text s r)

abbrev pub take {ℓ} : {A : Type ℓ} → ℕ → List A → List A
take zero xs = []
take (suc n) [] = []
take (suc n) (x ∷ xs) = x ∷ take n xs

abbrev pub sending_row : OutboxRow → ℕ → ℕ → OutboxRow
sending_row r token now = record r {
  status = sending;
  claimed_at = some now;
  claim_token = some token;
}

abbrev pub claim_of : OutboxRow → ℕ → OutboxClaim
claim_of r token = record {
  outbox_id = r.outbox_id;
  claim_token = token;
  recipient_phone_number = r.recipient_phone_number;
  message_kind = r.message_kind;
  payload = r.payload;
  catalog_asset_id = r.catalog_asset_id;
}

-- The body of the loop.
unfoldable pub claim_row : ℕ → ℕ → OutboxRow → Deliveries → Option OutboxClaim × Deliveries
unfolding dependency_blocks_claim
claim_row token now r s = elim (dependency_blocks_claim s r now) [
  | free ↦ (some (claim_of r token), put_row (sending_row r token now) s)
  | waits ↦ (none, s)
  | retires r' ↦ (none, put_row r' s)
]

abbrev pub cons_some {ℓ} : {A : Type ℓ} → Option A → List A → List A
cons_some none xs = xs
cons_some (some x) xs = x ∷ xs

-- `token` gives the UUID that is drawn for a row.
unfoldable pub claim_rows :
    (ℕ → ℕ) → ℕ → List OutboxRow → Deliveries → List OutboxClaim × Deliveries
unfolding claim_row
claim_rows token now [] s = ([], s)
claim_rows token now (r ∷ rs) s =
    let one = claim_row (token r.outbox_id) now r s in
    let rest = claim_rows token now rs one.1 in (cons_some one.0 rest.0, rest.1)

unfoldable pub claim_due_outbox_batch :
    (ℕ → Bool) → (ℕ → ℕ) → ℕ → ℕ → Deliveries → List OutboxClaim × Deliveries
unfolding claim_rows is_due
claim_due_outbox_batch busy token now batch_size s =
    claim_rows token now
      (take batch_size
        (select (λ (r : OutboxRow). is_due s now r && not (busy r.outbox_id)) s.rows))
      s
