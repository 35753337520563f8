-- ===== src/Tests/Sends.antt =====
-- Runs of the worker over a claim of the outbox.
use chat_bot_ceiba.Common.{
  ℕ, ◌≤◌, ◌≡◌, ◌⊎◌, refl, Bool, false, Option, none, [], ◌∷◌, String, arith, length,
}
use chat_bot_ceiba.Rows.Table.{get}
use chat_bot_ceiba.Channel.Outbox.Row.{Deliveries}
use chat_bot_ceiba.Channel.Outbox.Eligibility.{eligibility}
use chat_bot_ceiba.Channel.Outbox.Admission.{lock_delivery_row, decide, check_outbox}
use chat_bot_ceiba.Channel.Outbox.Settle.{
  Answer, applied, discarded, settle_outbox_success, settle_outbox_failure,
}
use chat_bot_ceiba.Channel.Outbox.Admission.{reject_media_admission}
use chat_bot_ceiba.Channel.Outbox.Claim.{OutboxClaim, claim_due_outbox_batch, claim_of, sending_row}
use chat_bot_ceiba.Channel.Outbox.Process.{
  SendResult, answered, MediaResult, resolved, Call, send_text, Run, Attempt, Processed,
  process_claimed_outbox_item,
}
use chat_bot_ceiba.Channel.Outbox.Settles.{IsReleased}
use chat_bot_ceiba.Channel.Outbox.Finish.{process_claimed_outbox_item-ends}
use chat_bot_ceiba.Channel.Outbox.Round.{World, process_outbox_once}
use chat_bot_ceiba.Channel.Outbox.Permits.{IsPermitted, process_claimed_outbox_item-IsPermitted}
use chat_bot_ceiba.Channel.Outbox.Settle.{recover_stale_sending_outbox}
use chat_bot_ceiba.Channel.Outbox.Stale.{foreign_claim_discarded}
use chat_bot_ceiba.Tests.Messages.{talk, limits, greeting, catalog, office, two_rows, nobody, token}

abbrev attempt : Attempt
attempt = record { uuid = 55; decided_at = 1001; sent_at = 1002 }

abbrev job : Run
job = record {
  limits = limits;
  first = attempt;
  second = record { uuid = 56; decided_at = 1005; sent_at = 1006 };
  checked_at = 1000;
  rechecked_at = 1004;
  failed_at = 1007;
  new_message_id = 80;
  no_body = "Outbox 1 does not contain text.body";
  no_caption = "Outbox 1 does not contain document.caption";
  no_asset = "Outbox 1 does not reference a catalog asset";
  no_input = "Input message 21 does not exist";
}

abbrev provider : ℕ → Call → SendResult
provider n call = answered "wamid.2"

abbrev media : MediaResult
media = resolved "m1" "catalogo.pdf"

abbrev held : Deliveries
held = office (sending_row greeting 91 1000 ∷ catalog ∷ [])

abbrev greeting_claim : OutboxClaim
greeting_claim = claim_of greeting 91

abbrev done : Processed
done = process_claimed_outbox_item provider none media media job greeting_claim held

process_claimed_outbox_item-ends_example :
    (done.outcome ≡ applied) × IsReleased 1 done.store × (length done.calls ≤ 2)
unfolding lock_delivery_row get
process_claimed_outbox_item-ends_example =
    process_claimed_outbox_item-ends provider none media media job greeting_claim held
      (talk, sending_row greeting 91 1000, refl, refl, refl)

-- The greeting goes out, and its row is SENT.
greeting_goes : done.calls ≡ send_text "573001112233" "Hola" ∷ []
unfolding process_claimed_outbox_item decide eligibility settle_outbox_success get
greeting_goes = refl

abbrev world : World
world = record {
  send = λ c. provider;
  invalidated = λ c. none;
  media = λ c. media;
  again = λ c. media;
  run = λ c. job;
}

abbrev round : ℕ × Deliveries
round = process_outbox_once world nobody nobody token 1000 10 limits two_rows

-- One row is claimed; the document waits for it.
one_claimed : round.0 ≡ 1
unfolding process_outbox_once recover_stale_sending_outbox claim_due_outbox_batch get
one_claimed = refl

process_claimed_outbox_item-IsPermitted_example :
    (u : Deliveries) × ((u ≡ held) ⊎ (u ≡ (check_outbox 1 91 job.checked_at held).1))
    × IsPermitted job greeting_claim done.calls u
process_claimed_outbox_item-IsPermitted_example =
    process_claimed_outbox_item-IsPermitted provider none media media job greeting_claim held

abbrev late_claim : OutboxClaim
late_claim = claim_of greeting 17

foreign_claim_discarded_example :
    ((a : Answer) (missing : String) (new_id : ℕ)
      → settle_outbox_success 1 17 a missing new_id limits held ≡ (discarded, held))
    × ((error : String) (now : ℕ) (permanent : Bool)
        → settle_outbox_failure 1 17 error now permanent limits held ≡ (discarded, held))
    × (reject_media_admission 1 17 held ≡ (false, held))
    × ((send : ℕ → Call → SendResult) (invalidated : Option String) (m again : MediaResult)
          (r : Run)
        → process_claimed_outbox_item send invalidated m again r late_claim held
          ≡ record { outcome = discarded; calls = []; store = held })
unfolding get
foreign_claim_discarded_example =
    foreign_claim_discarded late_claim held limits (λ r e. ground arith)
