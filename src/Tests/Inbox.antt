-- ===== src/Tests/Inbox.antt =====
-- Runs of the inbox.
use chat_bot_ceiba.Common.{
  ℕ, ◌≡◌, refl, Bool, true, false, not, ◌&&◌, Option, none, some, List, [], ◌∷◌, ◌++◌, arith, ◌==◌,
  is_some, All, or_else,
}
use chat_bot_ceiba.Rows.Table.{get, put}
use chat_bot_ceiba.Conversation.{Conversation, bot_active}
use chat_bot_ceiba.Channel.Inbox.{
  InboxJob, Inbox, InboxClaim, completed, external, processing, discarded, routed_passively,
  job_key, new_job, is_pending, is_completed, silent_reason, lock_context, first_unfinished,
  claim_inbox, settle_inbox_failure, recover_job, apply_turn, prepare_external,
  record_external_result, release_cancelled,
}
use chat_bot_ceiba.Channel.Inbox.Order.{JobOk}
use chat_bot_ceiba.Channel.Inbox.Reach.{Jobs, Reach, start, next, claims, recovers, Reach-Jobs}
use chat_bot_ceiba.Channel.Inbox.Safe.{
  one_worker, completed_forever, external_call_never_replayed, claim_inbox-first,
  stale_claim_discarded,
}
use chat_bot_ceiba.Tests.Data.{settings}

abbrev talk : Conversation
talk = record {
  conversation_id = 1;
  customer_id = 7;
  state = bot_active;
  bot_enabled = true;
  automation_epoch = "5b8e";
  assigned_agent_id = none;
  pending_action = none;
  context = 40;
}

abbrev digest : Conversation → ℕ
digest c = c.context

abbrev unlocked : ℕ → Bool
unlocked k = false

abbrev office : List InboxJob → Inbox
office jobs = record {
  settings = settings;
  jobs = jobs;
  conversations = talk ∷ [];
  customers = 7 ∷ [];
}

abbrev two_jobs : Inbox
two_jobs = office (new_job 1 21 1 ∷ new_job 2 22 1 ∷ [])

new_job-Ok : (k message conversation : ℕ) → JobOk settings (new_job k message conversation)
new_job-Ok k message conversation = record {
  owner = refl;
  since = refl;
  called = refl;
  uncalled = refl;
  attempts = omega arith;
  done = refl;
}

two_jobs-Jobs : Jobs settings two_jobs.jobs
two_jobs-Jobs = record {
  ids = ((refl, tt), (tt, tt));
  rows = (new_job-Ok 1 21 1, (new_job-Ok 2 22 1, tt));
  order = ((refl, tt), (tt, tt));
}

abbrev claimed : Option InboxClaim × Inbox
claimed = claim_inbox digest unlocked 1000 none 99 1 two_jobs

one_claim : Reach digest two_jobs claimed.1
one_claim = next start (claims unlocked 1000 none 99 1)

Reach-Jobs_example : Jobs claimed.1.settings claimed.1.jobs
Reach-Jobs_example = Reach-Jobs digest two_jobs claimed.1 one_claim (omega arith) two_jobs-Jobs

abbrev worked : InboxJob
worked = record (new_job 1 21 1) {
  status = processing;
  claim_token = some 99;
  claimed_at = some 1000;
}

worked_stored : get job_key 1 claimed.1.jobs ≡ some worked
unfolding get put claim_inbox lock_context first_unfinished
worked_stored = refl

one_worker_example : worked ≡ worked
one_worker_example =
    one_worker digest two_jobs claimed.1 worked worked one_claim (omega arith) two_jobs-Jobs
      worked_stored worked_stored refl refl refl

abbrev finished : InboxJob
finished = record (new_job 1 21 1) { status = completed; completed_at = some 900 }

abbrev half_done : Inbox
half_done = office (finished ∷ new_job 2 22 1 ∷ [])

half_done-Jobs : Jobs settings half_done.jobs
half_done-Jobs = record {
  ids = ((refl, tt), (tt, tt));
  rows = (
    record {
      owner = refl;
      since = refl;
      called = refl;
      uncalled = refl;
      attempts = omega arith;
      done = refl;
    },
    (new_job-Ok 2 22 1, tt),
  );
  order = ((refl, tt), (tt, tt));
}

finished_stored : get job_key 1 half_done.jobs ≡ some finished
unfolding get
finished_stored = refl

completed_forever_example :
    get job_key 1 (claim_inbox digest unlocked 1000 none 99 1 half_done).1.jobs ≡ some finished
completed_forever_example =
    completed_forever digest half_done (claim_inbox digest unlocked 1000 none 99 1 half_done).1 1
      finished (next start (claims unlocked 1000 none 99 1)) (omega arith) half_done-Jobs
      finished_stored refl

abbrev called : InboxJob
called = record worked { status = external; external_operation = some "book" }

abbrev calling : Inbox
calling = office (called ∷ new_job 2 22 1 ∷ [])

calling-Jobs : Jobs settings calling.jobs
calling-Jobs = record {
  ids = ((refl, tt), (tt, tt));
  rows = (
    record {
      owner = refl;
      since = refl;
      called = refl;
      uncalled = refl;
      attempts = omega arith;
      done = refl;
    },
    (new_job-Ok 2 22 1, tt),
  );
  order = ((refl, tt), (tt, tt));
}

called_stored : get job_key 1 calling.jobs ≡ some called
unfolding get
called_stored = refl

external_call_never_replayed_example :
    (j' : InboxJob) × (get job_key 1 (recover_job unlocked 9000 5000 1 1 calling).jobs ≡ some j')
    × (is_some j'.external_operation ≡ true)
    × (is_pending j'.status ≡ false)
external_call_never_replayed_example =
    external_call_never_replayed digest calling (recover_job unlocked 9000 5000 1 1 calling) 1
      called (next start (recovers unlocked 9000 5000 1 1)) (omega arith) calling-Jobs called_stored
      refl

abbrev no_claim : InboxClaim
no_claim = record {
  job_id = 1;
  message_id = 21;
  conversation_id = 1;
  claim_token = 98;
  context_fingerprint = 40;
  silent = false;
}

abbrev first_claim : InboxClaim
first_claim = or_else claimed.0 no_claim

claim_runs : claim_inbox digest unlocked 1000 none 99 1 two_jobs ≡ (some first_claim, claimed.1)
unfolding get put claim_inbox lock_context first_unfinished silent_reason
claim_runs = refl

claim_inbox-first_example :
    (j : InboxJob) × (xs : List InboxJob) × (ys : List InboxJob) × (two_jobs.jobs ≡ xs ++ j ∷ ys)
    × All (λ q. (q.conversation_id == 1 && not (is_completed q.status)) ≡ false) xs
    × (j.conversation_id ≡ 1)
    × (is_pending j.status ≡ true)
    × (first_claim.job_id ≡ j.job_id)
    × (first_claim.claim_token ≡ 99)
    × (claimed.1.jobs
        ≡ put job_key
            (record j { status = processing; claim_token = some 99; claimed_at = some 1000 })
            two_jobs.jobs)
claim_inbox-first_example =
    claim_inbox-first digest unlocked 1000 none 99 1 two_jobs first_claim claimed.1 claim_runs

stale_claim_discarded_example :
    (apply_turn digest no_claim true (routed_passively talk) 1001 calling ≡ (discarded, calling))
    × (settle_inbox_failure no_claim "book" 1001 calling ≡ (discarded, calling))
    × (prepare_external digest no_claim true "book" 1001 calling ≡ (false, calling))
    × (record_external_result no_claim "book" calling ≡ (false, calling))
    × (release_cancelled no_claim calling ≡ calling)
stale_claim_discarded_example =
    stale_claim_discarded digest no_claim true true (routed_passively talk) "book" 1001 calling
      called called_stored refl
