-- ===== src/Channel/Outbox/Round.antt =====
-- app/channel/worker.py: one round of the worker, and that it only makes the steps of the outbox.
use chat_bot_ceiba.Common.{ℕ, Bool, Option, List, [], ◌∷◌, String, length}
use chat_bot_ceiba.Channel.Outbox.Row.{Deliveries}
use chat_bot_ceiba.Channel.Outbox.Settle.{
  Limits, recover_rows, recover_stale_sending_outbox, stale_ids, stale_point,
}
use chat_bot_ceiba.Channel.Outbox.Claim.{OutboxClaim, claim_due_outbox_batch}
use chat_bot_ceiba.Channel.Outbox.Process.{
  SendResult, MediaResult, Call, Run, process_claimed_outbox_item,
}
use chat_bot_ceiba.Channel.Outbox.Reach.{Reach, start, next, claims, recovers}
use chat_bot_ceiba.Channel.Outbox.Steps.{process_claimed_outbox_item-Reach}

-- What the world outside gives while a claim is processed.
pub record World : Type 0 where
  pub send : OutboxClaim → ℕ → Call → SendResult
  pub invalidated : OutboxClaim → Option String
  pub media : OutboxClaim → MediaResult
  pub again : OutboxClaim → MediaResult
  pub run : OutboxClaim → Run

unfoldable pub process_all : World → Limits → List OutboxClaim → Deliveries → Deliveries
process_all w l [] s = s
process_all w l (c ∷ cs) s =
    let done =
      process_claimed_outbox_item (w.send c) (w.invalidated c) (w.media c) (w.again c)
        (record (w.run c) { limits = l }) c s in
    process_all w l cs done.store

-- `process_outbox_once`: the number of claims, and the tables. The rows that are locked are those of the recovery and
-- those of the batch.
unfoldable pub process_outbox_once :
    World → (ℕ → Bool) → (ℕ → Bool) → (ℕ → ℕ) → ℕ → ℕ → Limits → Deliveries → ℕ × Deliveries
unfolding process_all
process_outbox_once w busy busy' token now batch_size l s =
    let t = (recover_stale_sending_outbox busy now l s).1 in
    let (batch, u) = claim_due_outbox_batch busy' token now batch_size t in
    (length batch, process_all w l batch u)

process_all-Reach :
    (w : World) (l : Limits) (cs : List OutboxClaim) (o s : Deliveries)
    → Reach l o s
    → Reach l o (process_all w l cs s)
unfolding process_all
process_all-Reach w l [] o s r = r
process_all-Reach w l (c ∷ cs) o s r = process_all-Reach w l cs o _ (
    process_claimed_outbox_item-Reach (record (w.run c) { limits = l }) c o (w.send c)
      (w.invalidated c) (w.media c) (w.again c) s r)

recover_rows-Reach :
    (busy : ℕ → Bool) (now : ℕ) (l : Limits) (ks : List ℕ) (o s : Deliveries)
    → Reach l o s
    → Reach l o (recover_rows busy now l ks s).1
unfolding recover_rows
recover_rows-Reach busy now l [] o s r = r
recover_rows-Reach busy now l (k ∷ ks) o s r =
    recover_rows-Reach busy now l ks o _ (next r (recovers (busy k) now (stale_point l now) k))

-- Whatever the world answers and whatever rows are locked, a round of the worker (the recovery of stale rows, the claim
-- of a batch and the processing of each claim) is a sequence of steps of the outbox.
process_outbox_once-Reach :
    (w : World) (busy busy' : ℕ → Bool) (token : ℕ → ℕ) (now batch_size : ℕ) (l : Limits)
    (s : Deliveries)
    → Reach l s (process_outbox_once w busy busy' token now batch_size l s).1
unfolding process_outbox_once recover_stale_sending_outbox
process_outbox_once-Reach w busy busy' token now batch_size l s =
    process_all-Reach w l
      (claim_due_outbox_batch busy' token now batch_size
        (recover_stale_sending_outbox busy now l s).1).0
      s _
      (next (recover_rows-Reach busy now l (stale_ids (stale_point l now) s.rows) s s start)
        (claims busy' token now batch_size))
