-- ===== src/Channel/Outbox/Life.antt =====
-- The life of one row of the outbox: what is true of it between transactions, and the moves that a transaction
-- may make with it.
use chat_bot_ceiba.Common.{
  ℕ, ◌≤◌, ◌<◌, ◌≡◌, refl, subst, Bool, true, false, Option, none, String, arith, is_some,
}
use chat_bot_ceiba.Conversation.{Conversation}
use chat_bot_ceiba.Channel.Outbox.Row.{
  OutboxRow, StoredContext, Deliveries, Admission, is_pending, is_sending, is_sent, is_suppressed,
  is_settled, phase_is_admitted, is_uncertain,
}
use chat_bot_ceiba.Channel.Outbox.Eligibility.{Stop, eligibility}
use chat_bot_ceiba.Channel.Outbox.Admission.{stop_delivery, owns}
use chat_bot_ceiba.Channel.Outbox.Settle.{Limits, failed_stopped, failed_row, forget_call, sent_row}
use chat_bot_ceiba.Channel.Outbox.Claim.{sending_row}

-- A token exactly while the row is SENDING; an admitted call only then; a planned attempt only before the end; a time
-- of sending exactly when it is SENT; no SUPPRESSED row with a call of unknown result; attempts within the limit,
-- and one left as long as the row is open.
pub record RowOk (l : Limits) (r : OutboxRow) : Type 0 where
  pub owner : is_some r.claim_token ≡ is_sending r.status
  pub since : is_some r.claimed_at ≡ is_sending r.status
  pub in_flight : phase_is_admitted r.send_admission ≡ true → is_sending r.status ≡ true
  pub no_next : is_settled r.status ≡ true → r.next_attempt_at ≡ none
  pub sent_when : is_some r.sent_at ≡ is_sent r.status
  pub certain : is_suppressed r.status ≡ true → is_uncertain r.send_admission ≡ false
  pub attempts : r.attempts ≤ l.max_attempts
  pub left : is_settled r.status ≡ false → r.attempts < l.max_attempts

-- The move of an open row.
pub record RowMove (l : Limits) (r r' : OutboxRow) : Type 0 where
  pub was_open : is_settled r.status ≡ false
  pub ident : r'.outbox_id ≡ r.outbox_id
  pub conversation : r'.conversation_id ≡ r.conversation_id
  pub message : r'.message_id ≡ r.message_id
  pub kind : r'.message_kind ≡ r.message_kind
  pub kept : RowOk l r → RowOk l r'

pub sending_open : (r : OutboxRow) → is_sending r.status ≡ true → is_settled r.status ≡ false
sending_open r h = ground arith

pub pending_open : (r : OutboxRow) → is_pending r.status ≡ true → is_settled r.status ≡ false
pending_open r h = ground arith

pub owns_sending : (token : ℕ) (r : OutboxRow) → owns token r ≡ true → is_sending r.status ≡ true
owns_sending token r h = ground arith

pub sending_row-Move :
    (l : Limits) (r : OutboxRow) (token now : ℕ)
    → is_pending r.status ≡ true
    → RowMove l r (sending_row r token now)
sending_row-Move l r token now h = record {
  was_open = pending_open r h;
  ident = refl;
  conversation = refl;
  message = refl;
  kind = refl;
  kept = λ ok. record {
    owner = refl;
    since = refl;
    in_flight = λ e. refl;
    no_next = λ e. ground arith;
    sent_when = ground (arith, ok.sent_when);
    certain = λ e. ground arith;
    attempts = ok.attempts;
    left = λ e. ok.left (pending_open r h);
  };
}

-- The retirement of a row with no call in flight.
pub stop_delivery-Move :
    (l : Limits) (r : OutboxRow) (stop : Stop) (reason : String) (now : ℕ)
    → is_settled r.status ≡ false
    → phase_is_admitted r.send_admission ≡ false
    → RowMove l r (stop_delivery r stop reason now)
unfolding stop_delivery
stop_delivery-Move l r stop reason now open_yet idle = record {
  was_open = open_yet;
  ident = refl;
  conversation = refl;
  message = refl;
  kind = refl;
  kept = λ ok. record {
    owner = ground arith;
    since = ground arith;
    in_flight = λ e. ground arith;
    no_next = λ e. refl;
    sent_when = ground (arith, ok.sent_when);
    certain = λ e. ground arith;
    attempts = ok.attempts;
    left = λ e. ok.left open_yet;
  };
}

pub failed_stopped-Move :
    (l : Limits) (r : OutboxRow) (stop : Stop) (reason error : String) (now : ℕ)
    → is_settled r.status ≡ false
    → RowMove l r (failed_stopped (stop_delivery r stop reason now) error)
unfolding stop_delivery failed_stopped forget_call
failed_stopped-Move l r stop reason error now open_yet = record {
  was_open = open_yet;
  ident = ground arith;
  conversation = ground arith;
  message = ground arith;
  kind = ground arith;
  kept = λ ok. record {
    owner = ground arith;
    since = ground arith;
    in_flight = λ e. ground arith;
    no_next = λ e. ground arith;
    sent_when = ground (arith, ok.sent_when);
    certain = λ e. ground arith;
    attempts = ground (arith, ok.left open_yet, ok.attempts);
    left = λ e. ground arith;
  };
}

pub failed_row-Move :
    (l : Limits) (r : OutboxRow) (error : String) (now : ℕ) (permanent : Bool)
    → is_settled r.status ≡ false
    → RowMove l r (failed_row r error now permanent l)
unfolding failed_row forget_call
failed_row-Move l r error now permanent open_yet = record {
  was_open = open_yet;
  ident = refl;
  conversation = refl;
  message = refl;
  kind = refl;
  kept = λ ok. record {
    owner = ground arith;
    since = ground arith;
    in_flight = λ e. ground arith;
    no_next = λ e. ground arith;
    sent_when = ground (arith, ok.sent_when);
    certain = λ e. ground arith;
    attempts = ground (arith, ok.left open_yet);
    left = λ e. ground arith;
  };
}

pub sent_row-Move :
    (l : Limits) (r : OutboxRow) (sent_at : ℕ)
    → is_settled r.status ≡ false
    → RowMove l r (sent_row r sent_at)
unfolding sent_row
sent_row-Move l r sent_at open_yet = record {
  was_open = open_yet;
  ident = refl;
  conversation = refl;
  message = refl;
  kind = refl;
  kept = λ ok. record {
    owner = refl;
    since = refl;
    in_flight = λ e. ground arith;
    no_next = λ e. refl;
    sent_when = refl;
    certain = λ e. ground arith;
    attempts = ok.attempts;
    left = λ e. ground arith;
  };
}

-- A change of the admission of a row that is SENDING.
pub admission-Move :
    (l : Limits) (r : OutboxRow) (a : Option Admission)
    → is_sending r.status ≡ true
    → RowMove l r (record r { send_admission = a })
admission-Move l r a h = record {
  was_open = sending_open r h;
  ident = refl;
  conversation = refl;
  message = refl;
  kind = refl;
  kept = λ ok. record {
    owner = ok.owner;
    since = ok.since;
    in_flight = λ e. h;
    no_next = ok.no_next;
    sent_when = ok.sent_when;
    certain = λ e. ground arith;
    attempts = ok.attempts;
    left = ok.left;
  };
}

pub self-Move : (l : Limits) (r : OutboxRow) → is_settled r.status ≡ false → RowMove l r r
self-Move l r open_yet = record {
  was_open = open_yet;
  ident = refl;
  conversation = refl;
  message = refl;
  kind = refl;
  kept = λ ok. ok;
}

-- `eligibility` gives a row at most a context.
pub eligibility-row :
    (s : Deliveries) (c : Conversation) (r : OutboxRow)
    → (eligibility s c r).1 ≡ record r { delivery_context = (eligibility s c r).1.delivery_context }
unfolding eligibility
eligibility-row s c r = ground arith

-- A move of the row with its new context is a move of the row.
context-Move :
    (l : Limits) (r r' : OutboxRow) (x : Option StoredContext)
    → RowMove l (record r { delivery_context = x }) r'
    → RowMove l r r'
context-Move l r r' x m = record {
  was_open = m.was_open;
  ident = m.ident;
  conversation = m.conversation;
  message = m.message;
  kind = m.kind;
  kept = λ ok. m.kept (record {
    owner = ok.owner;
    since = ok.since;
    in_flight = ok.in_flight;
    no_next = ok.no_next;
    sent_when = ok.sent_when;
    certain = ok.certain;
    attempts = ok.attempts;
    left = ok.left;
  });
}

pub eligibility-Move :
    (l : Limits) (s : Deliveries) (c : Conversation) (r r' : OutboxRow)
    → RowMove l (eligibility s c r).1 r'
    → RowMove l r r'
eligibility-Move l s c r r' m =
    context-Move l r r' (eligibility s c r).1.delivery_context
      (subst (λ (q : OutboxRow). RowMove l q r') (eligibility-row s c r) m)
