-- ===== src/Channel/Inbox/Owner.antt =====
-- What each transaction does to the table of jobs.
use chat_bot_ceiba.Common.{
  ℕ, ◌≡◌, refl, sym, subst, inl, inr, true, false, ◌&&◌, Option, some, List, String, arith, is_some,
  Bool-cases, Option-cases,
}
use chat_bot_ceiba.Rows.Settings.{Settings}
use chat_bot_ceiba.Rows.Table.{get, put, key-get}
use chat_bot_ceiba.Conversation.{Conversation}
use chat_bot_ceiba.Channel.Inbox.{
  JobStatus, external, Reason, Completion, InboxJob, Inbox, InboxClaim, job_key, is_pending,
  is_completed, is_live, first_unfinished, claimed_row, owns, owned, lock_context, nothing_locked,
  retire, fail_locked, completed_row,
}
use chat_bot_ceiba.Channel.Inbox.Order.{JobOk}

-- A job that is worked on and its new row.
pub record LiveMove (s : Settings) (j j' : InboxJob) : Type 0 where
  pub was_live : is_live j.status ≡ true
  pub ident : j'.job_id ≡ j.job_id
  pub conversation : j'.conversation_id ≡ j.conversation_id
  pub called : is_some j.external_operation ≡ true → is_some j'.external_operation ≡ true
  pub kept : JobOk s j → JobOk s j'

-- A transaction leaves the table alone, claims the first unfinished job of a conversation, or moves a job that
-- is worked on.
pub data Change (s : Settings) (js js' : List InboxJob) : Type 0 where
  same_jobs : js' ≡ js → Change s js js'
  job_claimed :
      (k : ℕ) (j : InboxJob) (token now : ℕ)
      → first_unfinished k js ≡ some j
      → is_pending j.status ≡ true
      → js' ≡ put job_key (claimed_row j token now) js
      → Change s js js'
  live_moved :
      (j j' : InboxJob)
      → get job_key j'.job_id js ≡ some j
      → LiveMove s j j'
      → js' ≡ put job_key j' js
      → Change s js js'

pub owned-live :
    (claim : InboxClaim) (s : Inbox) (j : InboxJob) (c : Conversation)
    → owned claim s ≡ some (j, c)
    → (get job_key j.job_id s.jobs ≡ some j) × (owns claim j ≡ true)
unfolding owned
owned-live claim s j c h =
    elim (Option-cases (lock_context nothing_locked claim.conversation_id s)) [
      | inl gone ↦ ground arith
      | inr (d, there) ↦ elim (Option-cases (get job_key claim.job_id s.jobs)) [
        | inl gone ↦ ground arith
        | inr (i, found) ↦ elim (Bool-cases (owns claim i)) [
          | inr lost ↦ ground arith
          | inl mine ↦
              let it : i ≡ j = ground arith in
              let key = key-get job_key claim.job_id i s.jobs found in
              rw (← it) (subst (λ k. get job_key k s.jobs ≡ some i) (sym key) found, mine)
        ]
      ]
    ]

pub retire-LiveMove :
    (s : Settings) (j : InboxJob) (status : JobStatus) (reason : Option Reason)
    → is_live j.status ≡ true
    → is_live status ≡ false
    → is_completed status ≡ false
    → (is_pending status && is_some j.external_operation) ≡ false
    → LiveMove s j (retire j status reason)
retire-LiveMove s j status reason live idle unfinished free = record {
  was_live = live;
  ident = refl;
  conversation = refl;
  called = λ h. h;
  kept = λ ok. record {
    owner = sym idle;
    since = sym idle;
    called = ground arith;
    uncalled = free;
    attempts = ground (arith, ok.attempts);
    done = ground (arith, ok.done);
  };
}

pub fail_locked-LiveMove :
    (s : Settings) (j : InboxJob) (reason : Reason) (now : ℕ)
    → is_live j.status ≡ true
    → LiveMove s j (fail_locked j reason now s)
unfolding fail_locked
fail_locked-LiveMove s j reason now live = record {
  was_live = live;
  ident = ground arith;
  conversation = ground arith;
  called = λ h. ground arith;
  kept = λ ok. record {
    owner = ground arith;
    since = ground arith;
    called = ground arith;
    uncalled = ground arith;
    attempts = ground (arith, ok.attempts);
    done = ground (arith, ok.done);
  };
}

pub completed_row-LiveMove :
    (s : Settings) (j : InboxJob) (now : ℕ) (why : Completion)
    → is_live j.status ≡ true
    → LiveMove s j (completed_row j now why)
completed_row-LiveMove s j now why live = record {
  was_live = live;
  ident = refl;
  conversation = refl;
  called = λ h. h;
  kept = λ ok. record {
    owner = refl;
    since = refl;
    called = refl;
    uncalled = refl;
    attempts = ground (arith, ok.attempts);
    done = refl;
  };
}

pub external-LiveMove :
    (s : Settings) (j : InboxJob) (name : String)
    → is_live j.status ≡ true
    → LiveMove s j (record j { status = external; external_operation = some name })
external-LiveMove s j name live = record {
  was_live = live;
  ident = refl;
  conversation = refl;
  called = λ h. refl;
  kept = λ ok. record {
    owner = ground (arith, ok.owner);
    since = ground (arith, ok.since);
    called = refl;
    uncalled = refl;
    attempts = ground (arith, ok.attempts);
    done = ground (arith, ok.done);
  };
}
