-- ===== src/Tests/Outbox.antt =====
-- Runs of the outbox: claims, decisions and what is eligible.
use chat_bot_ceiba.Common.{
  ℕ, ◌≡◌, ◌↔◌, refl, true, false, none, some, List, [], ◌∷◌, arith, All, ok, text_ne,
}
use chat_bot_ceiba.Rows.Table.{get, put}
use chat_bot_ceiba.Rows.Audit.{AuditEvent}
use chat_bot_ceiba.Rows.Handoff.{Handoff, HandoffStatus, handoff_key, is_pending}
use chat_bot_ceiba.Conversation.{
  Conversation, bot_active, same_state, is_paused, waiting_for_human, transition_conversation,
  set_state,
}
use chat_bot_ceiba.Conversation.Reach.{Move, run}
use chat_bot_ceiba.Channel.Outbox.Row.{OutboxRow, DeliveryContext, object, Deliveries, outbox_key}
use chat_bot_ceiba.Channel.Outbox.Eligibility.{is_eligible, eligibility}
use chat_bot_ceiba.Channel.Outbox.Admission.{Decision, admitted_now, decide}
use chat_bot_ceiba.Channel.Outbox.Claim.{OutboxClaim, claim_due_outbox_batch}
use chat_bot_ceiba.Channel.Outbox.Life.{RowOk}
use chat_bot_ceiba.Channel.Outbox.Claims.{ClaimFits, IsChosen, claim_due_outbox_batch-fits}
use chat_bot_ceiba.Channel.Outbox.Reach.{
  Sound, claims, decides, Reach, start, next, Reach-Sound, settled_forever,
}
use chat_bot_ceiba.Channel.Outbox.Period.{
  IsCurrent, IsAwaited, auto_eligible_iff, notice_eligible_iff, revoked_by_pause,
}
use chat_bot_ceiba.Channel.Outbox.Flight.{begin, then_claims, one_call}
use chat_bot_ceiba.Tests.Data.{returned}
use chat_bot_ceiba.Channel.Outbox.Context.{
  automatic_context, template, automatic_context_iff, handoff_context, handoff_context_iff,
}
use chat_bot_ceiba.Tests.Messages.{
  talk, waiting_talk, limits, automatic, notice, greeting, sent_greeting, catalog, two_rows,
  after_text, nobody, token,
}

open_row-Ok : (r : OutboxRow) → r ≡ greeting → RowOk limits r
open_row-Ok r e = rw e (record {
  owner = refl;
  since = refl;
  in_flight = λ h. ground arith;
  no_next = λ h. refl;
  sent_when = refl;
  certain = λ h. refl;
  attempts = omega arith;
  left = λ h. omega arith;
})

catalog-Ok : RowOk limits catalog
catalog-Ok = record {
  owner = refl;
  since = refl;
  in_flight = λ h. ground arith;
  no_next = λ h. refl;
  sent_when = refl;
  certain = λ h. refl;
  attempts = omega arith;
  left = λ h. omega arith;
}

sent_greeting-Ok : RowOk limits sent_greeting
sent_greeting-Ok = record {
  owner = refl;
  since = refl;
  in_flight = λ h. ground arith;
  no_next = λ h. refl;
  sent_when = refl;
  certain = λ h. refl;
  attempts = omega arith;
  left = λ h. omega arith;
}

two_rows-Sound : Sound limits two_rows.rows
two_rows-Sound = record {
  ids = ((refl, tt), (tt, tt));
  rows = (open_row-Ok greeting refl, (catalog-Ok, tt));
}

after_text-Sound : Sound limits after_text.rows
after_text-Sound = record {
  ids = ((refl, tt), (tt, tt));
  rows = (sent_greeting-Ok, (catalog-Ok, tt));
}

abbrev claimed : List OutboxClaim × Deliveries
claimed = claim_due_outbox_batch nobody token 1000 10 two_rows

abbrev granted : Decision × Deliveries
granted = decide 1 91 true 55 1001 claimed.1

one_grant : Reach limits two_rows granted.1
one_grant = next (next start (claims nobody token 1000 10)) (decides 1 91 true 55 1001)

Reach-Sound_example : Sound limits granted.1.rows
Reach-Sound_example = Reach-Sound limits two_rows granted.1 one_grant (omega arith) two_rows-Sound

settled_forever_example :
    get outbox_key 1 (claim_due_outbox_batch nobody token 1000 10 after_text).1.rows
    ≡ some sent_greeting
unfolding get
settled_forever_example =
    settled_forever limits after_text (claim_due_outbox_batch nobody token 1000 10 after_text).1 1
      sent_greeting (next start (claims nobody token 1000 10)) (omega arith) after_text-Sound refl
      refl

abbrev claimed_ids : List OutboxClaim → List ℕ
claimed_ids [] = []
claimed_ids (c ∷ cs) = c.outbox_id ∷ claimed_ids cs

-- The text alone is claimed first; the document only when the text was sent.
document_waits : claimed_ids claimed.0 ≡ 1 ∷ []
unfolding claim_due_outbox_batch get
document_waits = refl

document_goes : claimed_ids (claim_due_outbox_batch nobody token 1000 10 after_text).0 ≡ 2 ∷ []
unfolding claim_due_outbox_batch get
document_goes = refl

claim_due_outbox_batch-fits_example :
    All
      (ClaimFits
        (IsChosen nobody 1000 after_text)
        1000
        (claim_due_outbox_batch nobody token 1000 10 after_text).1)
      (claim_due_outbox_batch nobody token 1000 10 after_text).0
claim_due_outbox_batch-fits_example =
    claim_due_outbox_batch-fits limits nobody token 1000 10 after_text after_text-Sound.ids
      after_text-Sound.rows

claimed-Sound : Sound limits claimed.1.rows
claimed-Sound =
    Reach-Sound limits two_rows claimed.1 (next start (claims nobody token 1000 10)) (omega arith)
      two_rows-Sound

first_grant : granted.0 ≡ admitted_now
unfolding claim_due_outbox_batch get decide eligibility put
first_grant = refl

one_call_example :
    decide 1 91 true 77 1003 (claim_due_outbox_batch nobody token 1002 10 granted.1).1
    ≡ (Decision.discarded, (claim_due_outbox_batch nobody token 1002 10 granted.1).1)
one_call_example =
    one_call limits 1 91 true 55 1001 claimed.1
      (claim_due_outbox_batch nobody token 1002 10 granted.1).1 91 true 77 1003 (omega arith)
      claimed-Sound first_grant (then_claims nobody token 1002 10 begin)

auto_eligible_iff_example :
    (is_eligible (eligibility two_rows talk greeting).0 ≡ true) ↔ IsCurrent talk (automatic none)
auto_eligible_iff_example = auto_eligible_iff two_rows talk greeting (automatic none) refl refl

abbrev greeting_context : DeliveryContext
greeting_context = automatic_context talk template

abbrev issued_greeting : OutboxRow
issued_greeting = record greeting { delivery_context = some (object greeting_context) }

automatic_context_iff_example :
    (is_eligible (eligibility two_rows talk issued_greeting).0 ≡ true) ↔ (
      (talk.automation_epoch ≡ talk.automation_epoch)
      × (talk.bot_enabled ≡ true)
      × (is_paused talk.state ≡ false))
automatic_context_iff_example =
    automatic_context_iff two_rows talk talk issued_greeting template refl

abbrev transfer : OutboxRow
transfer = record greeting { delivery_context = some (object notice) }

abbrev open_case : Handoff
open_case = record {
  handoff_id = 4;
  conversation_id = 1;
  status = HandoffStatus.pending;
  reason = "CUSTOMER_REQUEST";
  priority = "NORMAL";
  assigned_to = none;
  assigned_agent_id = none;
  taken_at = none;
  resolved_at = none;
}

abbrev one_case : Deliveries
one_case = record two_rows { cases = open_case ∷ [] }

handoff_context_iff_example :
    (is_eligible (eligibility one_case waiting_talk transfer).0 ≡ true) ↔ (
      (now : Handoff) × (get handoff_key 4 one_case.cases ≡ some now)
      × (now.conversation_id ≡ 1)
      × (is_pending now.status ≡ true)
      × (same_state waiting_talk.state waiting_for_human ≡ true)
      × (waiting_talk.automation_epoch ≡ waiting_talk.automation_epoch))
handoff_context_iff_example =
    handoff_context_iff one_case waiting_talk waiting_talk transfer open_case notice
      (unfold handoff_context in refl) refl

notice_eligible_iff_example :
    (is_eligible (eligibility one_case waiting_talk transfer).0 ≡ true)
    ↔ IsAwaited one_case waiting_talk notice
notice_eligible_iff_example = notice_eligible_iff one_case waiting_talk transfer notice refl refl

abbrev pause_and_back : List Move
pause_and_back =
    (waiting_for_human, "SYSTEM", none, "91c0") ∷ (bot_active, "asesor", none, "d27f") ∷ []

abbrev back : Conversation × List AuditEvent
back = returned (talk, []) (run pause_and_back talk [])

back_runs : run pause_and_back talk [] ≡ ok (back.0, back.1)
unfolding transition_conversation set_state
back_runs = refl

revoked_by_pause_example : is_eligible (eligibility two_rows back.0 greeting).0 ≡ false
revoked_by_pause_example =
    revoked_by_pause two_rows talk back.0 pause_and_back [] back.1 greeting (automatic none) refl
      refl (text_ne _ _ refl, (text_ne _ _ refl, tt)) back_runs refl refl refl
