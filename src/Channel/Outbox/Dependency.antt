-- ===== src/Channel/Outbox/Dependency.antt =====
-- What the decision about a row that follows another one makes of it.
use chat_bot_ceiba.Common.{
  or_else, ℕ, ◌≡◌, ◌⊎◌, refl, sym, ◌∙◌, subst, inl, inr, Bool, true, false, Option, none, some,
  arith, Bool-cases, Option-cases, String, if◌then◌else◌,
}
use chat_bot_ceiba.Rows.Json.{Json, integer}
use chat_bot_ceiba.Rows.Table.{get}
use chat_bot_ceiba.Channel.Outbox.Row.{
  OutboxRow, OutboxStatus, Deliveries, outbox_key, is_pending, is_sent, is_text_kind,
  phase_is_admitted,
}
use chat_bot_ceiba.Channel.Outbox.Eligibility.{Stop, suppress, to_review}
use chat_bot_ceiba.Channel.Outbox.Admission.{stop_delivery}
use chat_bot_ceiba.Channel.Outbox.Settle.{Limits}
use chat_bot_ceiba.Channel.Outbox.Claim.{
  free, retires, after_of, is_preceding, predecessor_id, after_predecessor, dependency_blocks_claim,
}
use chat_bot_ceiba.Channel.Outbox.Life.{RowMove, pending_open, stop_delivery-Move}

-- A row that is free follows nothing, or a text of the same conversation and message that was SENT.
abbrev pub FollowsSent : Deliveries → OutboxRow → Type 0
FollowsSent s r =
    (after_of r ≡ none)
    ⊎ ((n : ℕ) × (p : OutboxRow) × (after_of r ≡ some (integer n))
        × (get outbox_key n s.rows ≡ some p)
        × (is_preceding r p ≡ true)
        × (is_sent p.status ≡ true))

-- A predecessor that is read, and what the decision makes of it.
abbrev HasText : Deliveries → OutboxRow → Json → Type 0
HasText s r v =
    (n : ℕ) × (p : OutboxRow) × (v ≡ integer n)
    × (get outbox_key n s.rows ≡ some p)
    × (is_preceding r p ≡ true)

predecessor_id-integer : (v : Json) (n : ℕ) → predecessor_id v ≡ some n → v ≡ integer n
predecessor_id-integer (integer m) n h = ground arith
predecessor_id-integer (Json.negative_integer m) n h = cc
predecessor_id-integer (Json.text t) n h = cc
predecessor_id-integer Json.other_value n h = cc

text_only : (b : Bool) (o : Option ℕ) (n : ℕ) → (if b then none else o) ≡ some n → o ≡ some n
text_only true o n h = cc
text_only false o n h = h

-- The three ways of the decision.
dependency-cases :
    (s : Deliveries) (r : OutboxRow) (now : ℕ)
    → ((after_of r ≡ none) × (dependency_blocks_claim s r now ≡ free))
      ⊎ (dependency_blocks_claim s r now
          ≡ retires (stop_delivery r to_review "PRECEDING_TEXT_UNPROVEN" now))
      ⊎ ((v : Json) × (after_of r ≡ some v)
          × ((n : ℕ) × (p : OutboxRow) × (v ≡ integer n)
              × (get outbox_key n s.rows ≡ some p)
              × (is_preceding r p ≡ true)
              × (dependency_blocks_claim s r now
                  ≡ after_predecessor r p.status p.delivery_reason now)))
unfolding dependency_blocks_claim
dependency-cases s r now = elim (Option-cases (after_of r)) [
  | inl nothing ↦ inl (nothing, rw (dependency_blocks_claim, nothing) refl)
  | inr (v, after) ↦
      elim (Option-cases (if is_text_kind r.message_kind then none else predecessor_id v)) [
        | inl unread ↦ inr (inl (rw (dependency_blocks_claim, after, unread) refl))
        | inr (n, read) ↦ elim (Option-cases (get outbox_key n s.rows)) [
          | inl gone ↦ inr (inl (rw (dependency_blocks_claim, after, read, gone) refl))
          | inr (p, here) ↦ elim (Bool-cases (is_preceding r p)) [
            | inl fits ↦ inr (
                inr (
                  v,
                  after,
                  (
                    n,
                    p,
                    predecessor_id-integer v n (text_only _ _ n read),
                    here,
                    fits,
                    rw (dependency_blocks_claim, after, read, here, fits) refl,
                  ),
                ))
            | inr other ↦ inr (inl (rw (dependency_blocks_claim, after, read, here, other) refl))
          ]
        ]
      ]
]

after_predecessor-free :
    (r : OutboxRow) (t : OutboxStatus) (reason : Option String) (now : ℕ)
    → after_predecessor r t reason now ≡ free
    → is_sent t ≡ true
unfolding after_predecessor
after_predecessor-free r t reason now h = ground arith

pub dependency-free :
    (s : Deliveries) (r : OutboxRow) (now : ℕ)
    → dependency_blocks_claim s r now ≡ free
    → FollowsSent s r
dependency-free s r now h = elim (dependency-cases s r now) [
  | inl (nothing, e) ↦ inl nothing
  | inr (inl e) ↦ let clash : retires _ ≡ free = sym e ∙ h in cc
  | inr (inr (v, after, (n, p, is_n, here, fits, e))) ↦ inr (
    n,
    p,
    rw (← is_n) after,
    here,
    fits,
    after_predecessor-free r p.status p.delivery_reason now (sym e ∙ h),
  )
]

-- A row that is retired.
retired :
    (l : Limits) (r r' : OutboxRow) (stop : Stop) (reason : String) (now : ℕ)
    → retires (stop_delivery r stop reason now) ≡ retires r'
    → is_pending r.status ≡ true
    → phase_is_admitted r.send_admission ≡ false
    → RowMove l r r'
retired l r r' stop reason now e waiting idle =
    let it : stop_delivery r stop reason now ≡ r' = cc in
    subst (RowMove l r) it (stop_delivery-Move l r stop reason now (pending_open r waiting) idle)

after_predecessor-Move :
    (l : Limits) (r r' : OutboxRow) (t : OutboxStatus) (reason : Option String) (now : ℕ)
    → after_predecessor r t reason now ≡ retires r'
    → is_pending r.status ≡ true
    → phase_is_admitted r.send_admission ≡ false
    → RowMove l r r'
unfolding after_predecessor
after_predecessor-Move l r r' OutboxStatus.sent reason now h waiting idle = absurd (cc)
after_predecessor-Move l r r' OutboxStatus.pending reason now h waiting idle = absurd (cc)
after_predecessor-Move l r r' OutboxStatus.sending reason now h waiting idle = absurd (cc)
after_predecessor-Move l r r' OutboxStatus.suppressed reason now h waiting idle =
    retired l r r' suppress (or_else reason "PRECEDING_TEXT_SUPPRESSED") now h waiting idle
after_predecessor-Move l r r' OutboxStatus.failed reason now h waiting idle =
    retired l r r' suppress "PRECEDING_TEXT_FAILED" now h waiting idle
after_predecessor-Move l r r' OutboxStatus.review reason now h waiting idle =
    retired l r r' to_review "PRECEDING_TEXT_REVIEW" now h waiting idle

pub dependency-Move :
    (l : Limits) (s : Deliveries) (r r' : OutboxRow) (now : ℕ)
    → dependency_blocks_claim s r now ≡ retires r'
    → is_pending r.status ≡ true
    → phase_is_admitted r.send_admission ≡ false
    → RowMove l r r'
dependency-Move l s r r' now h waiting idle = elim (dependency-cases s r now) [
  | inl (nothing, e) ↦ let clash : free ≡ retires r' = sym e ∙ h in absurd (cc)
  | inr (inl e) ↦ retired l r r' to_review "PRECEDING_TEXT_UNPROVEN" now (sym e ∙ h) waiting idle
  | inr (inr (v, after, (n, p, is_n, here, fits, e))) ↦
      after_predecessor-Move l r r' p.status p.delivery_reason now (sym e ∙ h) waiting idle
]
