-- ===== src/Channel/Inbox/Order.antt =====
-- The jobs of one conversation go in the order of their ids, and the rows of the table are well formed.
use chat_bot_ceiba.Common.{
  ℕ, ◌+◌, ◌≤◌, ◌≡◌, ap, inl, inr, Bool, true, false, not, ◌&&◌, ◌||◌, some, List, [], ◌∷◌, arith,
  ◌==◌, is_some, if◌then◌else◌, All, Bool-cases,
}
use chat_bot_ceiba.Rows.Settings.{Settings}
use chat_bot_ceiba.Rows.Table.{get, put, Unique, All-put, All-get}
use chat_bot_ceiba.Channel.Inbox.{
  JobStatus, external, InboxJob, job_key, is_pending, is_completed, is_live, first_unfinished,
}

abbrev pub is_external : JobStatus → Bool
is_external external = true
is_external _ = false

-- A job has an owner exactly while it is worked on, an external call recorded whenever it waits for one
-- and never when it may be claimed, attempts left while it is open, and a time of completion exactly when
-- it is completed.
pub record JobOk (s : Settings) (j : InboxJob) : Type 0 where
  pub owner : is_some j.claim_token ≡ is_live j.status
  pub since : is_some j.claimed_at ≡ is_live j.status
  pub called : (is_external j.status && not (is_some j.external_operation)) ≡ false
  pub uncalled : (is_pending j.status && is_some j.external_operation) ≡ false
  pub attempts :
      j.attempts + (if is_pending j.status || is_live j.status then 1 else 0) ≤ s.inbox_max_attempts
  pub done : is_some j.completed_at ≡ is_completed j.status

-- A later job of the conversation has not been started, unless the earlier one is completed.
abbrev pub WaitsFor : InboxJob → InboxJob → Type 0
WaitsFor x q =
    (x.conversation_id == q.conversation_id
      && (not (is_completed x.status) && not (is_pending q.status)))
    ≡ false

abbrev pub Ordered : List InboxJob → Type 0
Ordered [] = Unit
Ordered (x ∷ xs) = All (WaitsFor x) xs × Ordered xs

-- A job that is worked on may move to any status.
pub Ordered-live :
    (j j' : InboxJob) (js : List InboxJob)
    → get job_key j'.job_id js ≡ some j
    → is_live j.status ≡ true
    → j'.conversation_id ≡ j.conversation_id
    → Ordered js
    → Ordered (put job_key j' js)
unfolding get put
Ordered-live j j' [] g live same h = tt
Ordered-live j j' (x ∷ xs) g live same h = elim (Bool-cases (x.job_id == j'.job_id)) [
  | inl hit ↦ let it : x ≡ j = ground arith in rw hit (moved xs (rw (← it) h.0), h.1)
  | inr miss ↦
      let rest : get job_key j'.job_id xs ≡ some j = ground arith in
      let before = All-get job_key (WaitsFor x) j'.job_id j xs h.0 rest in
      rw miss (
        All-put job_key (WaitsFor x) j' xs (ground arith) h.0,
        Ordered-live j j' xs rest live same h.1,
      )
]
  where
    moved : (xs : List InboxJob) → All (WaitsFor j) xs → All (WaitsFor j') xs
    moved [] k = tt
    moved (q ∷ xs) k = (ground arith, moved xs k.1)

All-first :
    (P : InboxJob → Type 0) (k : ℕ) (j : InboxJob) (js : List InboxJob)
    → first_unfinished k js ≡ some j
    → All P js
    → P j
unfolding first_unfinished
All-first P k j [] f h = cc
All-first P k j (x ∷ xs) f h = ground (arith, All-first P k j xs)

pub first_unfinished-fits :
    (k : ℕ) (j : InboxJob) (js : List InboxJob)
    → first_unfinished k js ≡ some j
    → (j.conversation_id ≡ k) × (is_completed j.status ≡ false)
unfolding first_unfinished
first_unfinished-fits k j [] f = cc
first_unfinished-fits k j (x ∷ xs) f =
    elim (Bool-cases (x.conversation_id == k && not (is_completed x.status))) [
      | inl hit ↦ ground arith
      | inr miss ↦ first_unfinished-fits k j xs (ground arith)
    ]

-- The first job of its conversation that is not completed may be started.
pub Ordered-first :
    (k : ℕ) (j j' : InboxJob) (js : List InboxJob)
    → first_unfinished k js ≡ some j
    → Unique job_key js
    → j'.job_id ≡ j.job_id
    → j'.conversation_id ≡ j.conversation_id
    → Ordered js
    → Ordered (put job_key j' js)
unfolding first_unfinished put
Ordered-first k j j' [] f u key same h = tt
Ordered-first k j j' (x ∷ xs) f u key same h =
    elim (Bool-cases (x.conversation_id == k && not (is_completed x.status))) [
      | inl hit ↦
          let it : x ≡ j = ground arith in
          let mine : (x.job_id == j'.job_id) ≡ true = ground arith in
          rw mine (moved (ground arith) xs (rw (← it) h.0), h.1)
      | inr miss ↦
          let rest : first_unfinished k xs ≡ some j = ground arith in
          let fits = first_unfinished-fits k j xs rest in
          let other : (x.job_id == j'.job_id) ≡ false =
            ground (arith, All-first (λ y. (y.job_id == x.job_id) ≡ false) k j xs rest u.0) in
          rw other (
            All-put job_key (WaitsFor x) j' xs (ground arith) h.0,
            Ordered-first k j j' xs rest u.1 key same h.1,
          )
    ]
  where
    moved :
        is_completed j.status ≡ false
        → (xs : List InboxJob) → All (WaitsFor j) xs
        → All (WaitsFor j') xs
    moved open_yet [] k = tt
    moved open_yet (q ∷ xs) k = (ground arith, moved open_yet xs k.1)

pub first_unfinished-get :
    (k : ℕ) (j : InboxJob) (js : List InboxJob)
    → Unique job_key js
    → first_unfinished k js ≡ some j
    → get job_key j.job_id js ≡ some j
unfolding first_unfinished get
first_unfinished-get k j [] u f = cc
first_unfinished-get k j (x ∷ xs) u f =
    elim (Bool-cases (x.conversation_id == k && not (is_completed x.status))) [
      | inl hit ↦
          let it : x ≡ j = ground arith in
          let mine : (x.job_id == j.job_id) ≡ true = ground arith in rw mine (ap some it)
      | inr miss ↦
          let rest : first_unfinished k xs ≡ some j = ground arith in
          let other : (x.job_id == j.job_id) ≡ false =
            ground (arith, All-first (λ y. (y.job_id == x.job_id) ≡ false) k j xs rest u.0) in
          rw other (first_unfinished-get k j xs u.1 rest)
    ]
