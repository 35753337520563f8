-- ===== src/Channel/Inbox/Reach.antt =====
-- The invariant of the table of jobs under any interleaving of the transactions of the inbox.
use chat_bot_ceiba.Common.{
  ℕ, ◌≤◌, ◌≡◌, refl, ◌∙◌, ◌⊎◌, inl, inr, Bool, true, Option, none, List, [], ◌∷◌, ◌++◌, String,
  arith, All, All-snoc,
}
use chat_bot_ceiba.Rows.Settings.{Settings}
use chat_bot_ceiba.Rows.Table.{get, Unique, put-Unique, All-put, All-get, snoc-Unique}
use chat_bot_ceiba.Conversation.{Conversation}
use chat_bot_ceiba.Channel.Inbox.{
  InboxJob, Inbox, InboxClaim, Routing, job_key, is_pending, claimed_row, new_job, add_job,
  settle_inbox_failure, recover_job, claim_inbox, run_turn, apply_turn, prepare_external,
  record_external_result, release_cancelled,
}
use chat_bot_ceiba.Channel.Inbox.Order.{
  JobOk, WaitsFor, Ordered, Ordered-live, Ordered-first, first_unfinished-get,
}
use chat_bot_ceiba.Channel.Inbox.Owner.{Change, same_jobs, job_claimed, live_moved}
use chat_bot_ceiba.Channel.Inbox.Moves.{
  settle_inbox_failure-Change, recover_job-Change, claim_inbox-Change, apply_turn-Change,
  prepare_external-Change, record_external_result-Change, release_cancelled-Change,
}

pub record Jobs (s : Settings) (js : List InboxJob) : Type 0 where
  pub ids : Unique job_key js
  pub rows : All (JobOk s) js
  pub order : Ordered js

claimed_row-JobOk :
    (s : Settings) (j : InboxJob) (token now : ℕ)
    → is_pending j.status ≡ true
    → JobOk s j
    → JobOk s (claimed_row j token now)
claimed_row-JobOk s j token now open_yet ok = record {
  owner = refl;
  since = refl;
  called = refl;
  uncalled = refl;
  attempts = ground (arith, ok.attempts);
  done = ground (arith, ok.done);
}

pub Change-Jobs : (s : Settings) (js js' : List InboxJob) → Change s js js' → Jobs s js → Jobs s js'
Change-Jobs s js js' (same_jobs e) v = rw e v
Change-Jobs s js js' (job_claimed k j token now first open_yet e) v =
    let there = first_unfinished-get k j js v.ids first in
    rw e (record {
      ids = put-Unique job_key (claimed_row j token now) js v.ids;
      rows =
          All-put job_key (JobOk s) (claimed_row j token now) js
            (claimed_row-JobOk s j token now open_yet
              (All-get job_key (JobOk s) j.job_id j js v.rows there))
            v.rows;
      order = Ordered-first k j (claimed_row j token now) js first v.ids refl refl v.order;
    })
Change-Jobs s js js' (live_moved j j' there m e) v = rw e (record {
  ids = put-Unique job_key j' js v.ids;
  rows =
      All-put job_key (JobOk s) j' js (m.kept (All-get job_key (JobOk s) _ j js v.rows there))
        v.rows;
  order = Ordered-live j j' js there m.was_live m.conversation v.order;
})

-- One transaction by any worker, with any claim, and the arrival of a message.
pub data Step (digest : Conversation → ℕ) (s : Inbox) : Inbox → Type 0 where
  claims :
      (locked : ℕ → Bool) (now : ℕ) (message_ids : Option (List ℕ)) (token k : ℕ)
      → Step digest s (claim_inbox digest locked now message_ids token k s).1
  fails :
      (claim : InboxClaim) (error : String) (now : ℕ)
      → Step digest s (settle_inbox_failure claim error now s).1
  recovers :
      (locked : ℕ → Bool) (now cutoff k conversation : ℕ)
      → Step digest s (recover_job locked now cutoff k conversation s)
  applies :
      (claim : InboxClaim) (has_turn : Bool) (routing : Routing) (now : ℕ)
      → Step digest s (apply_turn digest claim has_turn routing now s).1
  prepares :
      (claim : InboxClaim) (mutating : Bool) (name : String) (now : ℕ)
      → Step digest s (prepare_external digest claim mutating name now s).1
  records :
      (claim : InboxClaim) (value : String) → Step digest s (record_external_result claim value s).1
  releases : (claim : InboxClaim) → Step digest s (release_cancelled claim s)
  accepts :
      (k message conversation : ℕ)
      → get job_key k s.jobs ≡ none
      → Step digest s (add_job (new_job k message conversation) s)

pub data Reach (digest : Conversation → ℕ) (s : Inbox) : Inbox → Type 0 where
  start : Reach digest s s
  next : {t u : Inbox} → Reach digest s t → Step digest t u → Reach digest s u

Step-settings :
    {digest : Conversation → ℕ} {s t : Inbox} → Step digest s t → t.settings ≡ s.settings
unfolding claim_inbox settle_inbox_failure recover_job apply_turn run_turn prepare_external
    record_external_result release_cancelled
Step-settings {digest = digest} {s = s} (claims locked now message_ids token k) = ground arith
Step-settings {digest = digest} {s = s} (fails claim error now) = ground arith
Step-settings {digest = digest} {s = s} (recovers locked now cutoff k conversation) = ground arith
Step-settings {digest = digest} {s = s} (applies claim has_turn routing now) = ground arith
Step-settings {digest = digest} {s = s} (prepares claim mutating name now) = ground arith
Step-settings {digest = digest} {s = s} (records claim value) = ground arith
Step-settings {digest = digest} {s = s} (releases claim) = ground arith
Step-settings {digest = digest} {s = s} (accepts k message conversation fresh) = refl

-- The transactions other than an arrival are changes of the table.
pub Step-Change :
    {digest : Conversation → ℕ} {s t : Inbox}
    → Step digest s t
    → Change s.settings s.jobs t.jobs
      ⊎ ((k : ℕ) × (message : ℕ) × (conversation : ℕ) × (get job_key k s.jobs ≡ none)
          × (t.jobs ≡ s.jobs ++ new_job k message conversation ∷ []))
Step-Change {s = s} (claims locked now message_ids token k) =
    inl (claim_inbox-Change _ locked now message_ids token k s)
Step-Change {s = s} (fails claim error now) = inl (settle_inbox_failure-Change claim error now s)
Step-Change {s = s} (recovers locked now cutoff k conversation) =
    inl (recover_job-Change locked now cutoff k conversation s)
Step-Change {s = s} (applies claim has_turn routing now) =
    inl (apply_turn-Change _ claim has_turn routing now s)
Step-Change {s = s} (prepares claim mutating name now) =
    inl (prepare_external-Change _ claim mutating name now s)
Step-Change {s = s} (records claim value) = inl (record_external_result-Change claim value s)
Step-Change {s = s} (releases claim) = inl (release_cancelled-Change claim s)
Step-Change (accepts k message conversation fresh) = inr (k, message, conversation, fresh, refl)

Ordered-snoc :
    (j : InboxJob) (js : List InboxJob)
    → is_pending j.status ≡ true
    → Ordered js
    → Ordered (js ++ j ∷ [])
Ordered-snoc j [] open_yet h = (tt, tt)
Ordered-snoc j (x ∷ xs) open_yet h =
    (All-snoc (WaitsFor x) xs j h.0 (ground arith), Ordered-snoc j xs open_yet h.1)

new_job-Jobs :
    (s : Settings) (js : List InboxJob) (k message conversation : ℕ)
    → 1 ≤ s.inbox_max_attempts
    → get job_key k js ≡ none
    → Jobs s js
    → Jobs s (js ++ new_job k message conversation ∷ [])
new_job-Jobs s js k message conversation some_attempts fresh v = record {
  ids = snoc-Unique job_key (new_job k message conversation) js v.ids fresh;
  rows = All-snoc (JobOk s) js (new_job k message conversation) v.rows (record {
    owner = refl;
    since = refl;
    called = refl;
    uncalled = refl;
    attempts = omega arith;
    done = refl;
  });
  order = Ordered-snoc (new_job k message conversation) js refl v.order;
}

Step-Jobs :
    {digest : Conversation → ℕ} {s t : Inbox}
    → Step digest s t
    → 1 ≤ s.settings.inbox_max_attempts
    → Jobs s.settings s.jobs
    → Jobs t.settings t.jobs
Step-Jobs {s = s} {t = t} step some_attempts v = rw (Step-settings step) (elim (Step-Change step) [
  | inl change ↦ Change-Jobs s.settings s.jobs t.jobs change v
  | inr (k, message, conversation, fresh, e) ↦
      rw e (new_job-Jobs s.settings s.jobs k message conversation some_attempts fresh v)
])

pub Reach-settings :
    {digest : Conversation → ℕ} {s t : Inbox} → Reach digest s t → t.settings ≡ s.settings
Reach-settings start = refl
Reach-settings (next r step) = Step-settings step ∙ Reach-settings r

-- From a well formed table, and with at least one attempt allowed, whatever transactions run, in
-- whatever order and with whatever claims, current or stale, the table of jobs stays well formed:
-- unique ids, an owner exactly on the jobs that are worked on, attempts within the limit, and within
-- each conversation no job that is started before the earlier ones are completed.
pub Reach-Jobs :
    (digest : Conversation → ℕ) (s t : Inbox)
    → Reach digest s t
    → 1 ≤ s.settings.inbox_max_attempts
    → Jobs s.settings s.jobs
    → Jobs t.settings t.jobs
Reach-Jobs digest s _ start some_attempts v = v
Reach-Jobs digest s t (next {t = m} r step) some_attempts v =
    Step-Jobs step (rw (Reach-settings r) some_attempts) (Reach-Jobs digest s m r some_attempts v)
