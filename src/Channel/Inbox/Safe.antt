-- ===== src/Channel/Inbox/Safe.antt =====
-- What the inbox promises of a conversation and of one job.
use chat_bot_ceiba.Common.{
  ℕ, ◌≤◌, ◌≡◌, refl, sym, ap, ◌∙◌, inl, inr, Bool, true, false, not, ◌&&◌, Option, none, some, List,
  [], ◌∷◌, ◌++◌, String, arith, ◌==◌, opt_eq, is_some, All, Bool-cases, Option-cases,
}
use chat_bot_ceiba.Rows.Settings.{Settings}
use chat_bot_ceiba.Rows.Table.{get, put, get-put, All-get, get-snoc}
use chat_bot_ceiba.Conversation.{Conversation}
use chat_bot_ceiba.Channel.Inbox.{
  InboxJob, Inbox, InboxClaim, Routing, discarded, job_key, is_pending, is_completed, is_live,
  processing, first_unfinished, claimed_row, is_due, lock_context, owned, settle_inbox_failure,
  claim_inbox, apply_turn, prepare_external, record_external_result, release_cancelled,
}
use chat_bot_ceiba.Channel.Inbox.Order.{
  JobOk, WaitsFor, Ordered, first_unfinished-get, first_unfinished-fits,
}
use chat_bot_ceiba.Channel.Inbox.Owner.{Change, same_jobs, job_claimed, live_moved}
use chat_bot_ceiba.Channel.Inbox.Reach.{Jobs, Reach, start, next, Step-Change, Reach-Jobs}

Ordered-same :
    (js : List InboxJob) (a b : InboxJob)
    → Ordered js
    → get job_key a.job_id js ≡ some a
    → get job_key b.job_id js ≡ some b
    → is_live a.status ≡ true
    → is_live b.status ≡ true
    → a.conversation_id ≡ b.conversation_id
    → a ≡ b
unfolding get
Ordered-same [] a b o ga gb la lb same = cc
Ordered-same (x ∷ xs) a b o ga gb la lb same = elim (Bool-cases (x.job_id == a.job_id)) [
  | inl first_a ↦
      let xa : x ≡ a = ground arith in
      elim (Bool-cases (x.job_id == b.job_id)) [
        | inl first_b ↦ let xb : x ≡ b = ground arith in sym xa ∙ xb
        | inr later_b ↦
            let waits = All-get job_key (WaitsFor x) b.job_id b xs o.0 (ground arith) in
            ground arith
      ]
  | inr later_a ↦ elim (Bool-cases (x.job_id == b.job_id)) [
    | inl first_b ↦
        let xb : x ≡ b = ground arith in
        let waits = All-get job_key (WaitsFor x) a.job_id a xs o.0 (ground arith) in ground arith
    | inr later_b ↦ Ordered-same xs a b o.1 (ground arith) (ground arith) la lb same
  ]
]

-- At every state that the transactions reach from a well formed table, with at least one attempt
-- allowed, two stored jobs of one conversation that are both worked on are the same job.
pub one_worker :
    (digest : Conversation → ℕ) (s t : Inbox) (a b : InboxJob)
    → Reach digest s t
    → 1 ≤ s.settings.inbox_max_attempts
    → Jobs s.settings s.jobs
    → get job_key a.job_id t.jobs ≡ some a
    → get job_key b.job_id t.jobs ≡ some b
    → is_live a.status ≡ true
    → is_live b.status ≡ true
    → a.conversation_id ≡ b.conversation_id
    → a ≡ b
one_worker digest s t a b r some_attempts v ga gb la lb same =
    Ordered-same t.jobs a b (Reach-Jobs digest s t r some_attempts v).order ga gb la lb same

-- A row that is neither the claimed one nor worked on stands as it is.
Change-completed :
    (s : Settings) (js js' : List InboxJob) (k : ℕ) (j : InboxJob)
    → Jobs s js
    → Change s js js'
    → get job_key k js ≡ some j
    → is_completed j.status ≡ true
    → get job_key k js' ≡ some j
Change-completed s js js' k j v (same_jobs e) g done = rw e g
Change-completed s js js' k j v (job_claimed c i token now first open_yet e) g done =
    let there = first_unfinished-get c i js v.ids first in
    let written = get-put job_key k (claimed_row i token now) i js there in
    elim (Bool-cases (i.job_id == k)) [
      | inl hit ↦
          let it : i.job_id ≡ k = ground arith in
          let same : some i ≡ some j = sym there ∙ rw it g in ground arith
      | inr miss ↦ rw (e, written, miss) g
    ]
Change-completed s js js' k j v (live_moved i i' there m e) g done =
    let written = get-put job_key k i' i js there in
    elim (Bool-cases (i'.job_id == k)) [
      | inl hit ↦
          let it : i'.job_id ≡ k = ground arith in
          let same : some i ≡ some j = sym there ∙ rw it g in let live = m.was_live in ground arith
      | inr miss ↦ rw (e, written, miss) g
    ]

-- The row of a completed job is the same in every state that the transactions reach from a well
-- formed table, with at least one attempt allowed, whatever claims are still around.
pub completed_forever :
    (digest : Conversation → ℕ) (s t : Inbox) (k : ℕ) (j : InboxJob)
    → Reach digest s t
    → 1 ≤ s.settings.inbox_max_attempts
    → Jobs s.settings s.jobs
    → get job_key k s.jobs ≡ some j
    → is_completed j.status ≡ true
    → get job_key k t.jobs ≡ some j
completed_forever digest s _ k j start some_attempts v g done = g
completed_forever digest s t k j (next {t = m} r step) some_attempts v g done =
    let before = completed_forever digest s m k j r some_attempts v g done in
    elim (Step-Change step) [
      | inl change ↦
          Change-completed m.settings m.jobs t.jobs k j (Reach-Jobs digest s m r some_attempts v)
            change before done
      | inr (n, message, conversation, fresh, e) ↦ rw e (get-snoc job_key k _ j m.jobs before)
    ]

-- An external call that was recorded stays recorded.
abbrev HasCalled : ℕ → List InboxJob → Type 0
HasCalled k js =
    (j : InboxJob) × (get job_key k js ≡ some j) × (is_some j.external_operation ≡ true)

Change-HasCalled :
    (s : Settings) (js js' : List InboxJob) (k : ℕ)
    → Jobs s js
    → Change s js js'
    → HasCalled k js
    → HasCalled k js'
Change-HasCalled s js js' k v (same_jobs e) h = rw e h
Change-HasCalled s js js' k v (job_claimed c i token now first open_yet e) (j, g, called) =
    let there = first_unfinished-get c i js v.ids first in
    let written = get-put job_key k (claimed_row i token now) i js there in
    elim (Bool-cases (i.job_id == k)) [
      | inl hit ↦
          let it : i.job_id ≡ k = ground arith in
          let same : some i ≡ some j = sym there ∙ rw it g in
          (claimed_row i token now, rw (e, written, hit) refl, ground arith)
      | inr miss ↦ (j, rw (e, written, miss) g, called)
    ]
Change-HasCalled s js js' k v (live_moved i i' there m e) (j, g, called) =
    let written = get-put job_key k i' i js there in
    elim (Bool-cases (i'.job_id == k)) [
      | inl hit ↦
          let it : i'.job_id ≡ k = ground arith in
          let same : some i ≡ some j = sym there ∙ rw it g in
          (i', rw (e, written, hit) refl, m.called (ground arith))
      | inr miss ↦ (j, rw (e, written, miss) g, called)
    ]

Reach-HasCalled :
    (digest : Conversation → ℕ) (s t : Inbox) (k : ℕ)
    → Reach digest s t
    → 1 ≤ s.settings.inbox_max_attempts
    → Jobs s.settings s.jobs
    → HasCalled k s.jobs
    → HasCalled k t.jobs
Reach-HasCalled digest s _ k start some_attempts v h = h
Reach-HasCalled digest s t k (next {t = m} r step) some_attempts v h =
    let (j, g, called) = Reach-HasCalled digest s m k r some_attempts v h in
    elim (Step-Change step) [
      | inl change ↦
          Change-HasCalled m.settings m.jobs t.jobs k (Reach-Jobs digest s m r some_attempts v)
            change ((j, g, called))
      | inr (n, message, conversation, fresh, e) ↦
          (j, rw e (get-snoc job_key k _ j m.jobs g), called)
    ]

-- In every state that the transactions reach from a well formed table, with at least one attempt
-- allowed, a job that had an external call recorded still has one recorded and is not pending, the
-- only status from which a job is claimed.
pub external_call_never_replayed :
    (digest : Conversation → ℕ) (s t : Inbox) (k : ℕ) (j : InboxJob)
    → Reach digest s t
    → 1 ≤ s.settings.inbox_max_attempts
    → Jobs s.settings s.jobs
    → get job_key k s.jobs ≡ some j
    → is_some j.external_operation ≡ true
    → (j' : InboxJob) × (get job_key k t.jobs ≡ some j')
      × (is_some j'.external_operation ≡ true)
      × (is_pending j'.status ≡ false)
external_call_never_replayed digest s t k j r some_attempts v g called =
    let (j', g', called') = Reach-HasCalled digest s t k r some_attempts v (j, g, called) in
    let ok =
      All-get job_key (JobOk t.settings) k j' t.jobs (Reach-Jobs digest s t r some_attempts v).rows
        g' in
    let free = ok.uncalled in (j', g', called', ground arith)

first_unfinished-split :
    (k : ℕ) (j : InboxJob) (js : List InboxJob)
    → first_unfinished k js ≡ some j
    → (xs : List InboxJob) × (ys : List InboxJob) × (js ≡ xs ++ j ∷ ys)
      × All (λ q. (q.conversation_id == k && not (is_completed q.status)) ≡ false) xs
unfolding first_unfinished
first_unfinished-split k j [] f = cc
first_unfinished-split k j (x ∷ js) f =
    elim (Bool-cases (x.conversation_id == k && not (is_completed x.status))) [
      | inl hit ↦ let it : x ≡ j = ground arith in ([], js, ap (λ (i : InboxJob). i ∷ js) it, tt)
      | inr miss ↦
          let (xs, ys, e, all) = first_unfinished-split k j js (ground arith) in
          (x ∷ xs, ys, ap (λ (t : List InboxJob). x ∷ t) e, (miss, all))
    ]

-- A claim is made only of a pending job before which, in the order of the ids, every job of the conversation
-- is completed; the job then has the claim's token, and the other rows are as they were.
pub claim_inbox-first :
    (digest : Conversation → ℕ) (locked : ℕ → Bool) (now : ℕ) (message_ids : Option (List ℕ))
    (token k : ℕ) (s : Inbox) (claim : InboxClaim) (t : Inbox)
    → claim_inbox digest locked now message_ids token k s ≡ (some claim, t)
    → (j : InboxJob) × (xs : List InboxJob) × (ys : List InboxJob) × (s.jobs ≡ xs ++ j ∷ ys)
      × All (λ q. (q.conversation_id == k && not (is_completed q.status)) ≡ false) xs
      × (j.conversation_id ≡ k)
      × (is_pending j.status ≡ true)
      × (claim.job_id ≡ j.job_id)
      × (claim.claim_token ≡ token)
      × (t.jobs
          ≡ put job_key
              (record j { status = processing; claim_token = some token; claimed_at = some now })
              s.jobs)
unfolding claim_inbox
claim_inbox-first digest locked now message_ids token k s claim t h =
    elim (Option-cases (lock_context locked k s)) [
      | inl gone ↦ ground arith
      | inr (c, free) ↦ elim (Option-cases (first_unfinished k s.jobs)) [
        | inl gone ↦ ground arith
        | inr (j, found) ↦ elim (Bool-cases (is_due now message_ids j)) [
          | inr later ↦ ground arith
          | inl due ↦
              let (xs, ys, e, all) = first_unfinished-split k j s.jobs found in
              (
                j,
                xs,
                ys,
                e,
                all,
                (first_unfinished-fits k j s.jobs found).0,
                ground arith,
                ground arith,
                ground arith,
                ground arith,
              )
        ]
      ]
    ]

stale-unowned :
    (claim : InboxClaim) (s : Inbox) (j : InboxJob)
    → get job_key claim.job_id s.jobs ≡ some j
    → opt_eq j.claim_token claim.claim_token ≡ false
    → owned claim s ≡ none
unfolding owned
stale-unowned claim s j g other = ground arith

-- A claim whose token is no longer the job's changes nothing: its result, its failure, its external call, the
-- result of that call and its release are all discarded.
pub stale_claim_discarded :
    (digest : Conversation → ℕ) (claim : InboxClaim) (has_turn mutating : Bool) (routing : Routing)
    (name : String) (now : ℕ) (s : Inbox) (j : InboxJob)
    → get job_key claim.job_id s.jobs ≡ some j
    → opt_eq j.claim_token claim.claim_token ≡ false
    → (apply_turn digest claim has_turn routing now s ≡ (discarded, s))
      × (settle_inbox_failure claim name now s ≡ (discarded, s))
      × (prepare_external digest claim mutating name now s ≡ (false, s))
      × (record_external_result claim name s ≡ (false, s))
      × (release_cancelled claim s ≡ s)
unfolding apply_turn settle_inbox_failure prepare_external record_external_result release_cancelled
stale_claim_discarded digest claim has_turn mutating routing name now s j g other =
    let lost = stale-unowned claim s j g other in
    (ground arith, ground arith, ground arith, ground arith, ground arith)
