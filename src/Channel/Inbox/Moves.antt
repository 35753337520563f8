-- ===== src/Channel/Inbox/Moves.antt =====
-- Each transaction of the inbox as a change of the table of jobs.
use chat_bot_ceiba.Common.{
  ℕ, ◌≡◌, refl, sym, subst, inl, inr, Bool, true, not, ◌&&◌, Option, some, List, String, arith,
  ◌==◌, is_some, Bool-cases, Option-cases,
}
use chat_bot_ceiba.Rows.Settings.{Settings}
use chat_bot_ceiba.Rows.Table.{get, put, key-get}
use chat_bot_ceiba.Conversation.{Conversation}
use chat_bot_ceiba.Channel.Inbox.{
  review, pending, InboxJob, Inbox, InboxClaim, Routing, routed_passively, answered, deferred_call,
  routing_raised, claim_expired, context_changed_reclassify, raised, job_key, is_live,
  first_unfinished, owned, lock_context, fail_locked, settle_inbox_failure, is_stale, recover_job,
  is_due, claim_inbox, run_turn, apply_turn, prepare_external, record_external_result,
  release_cancelled, silent_reason,
}
use chat_bot_ceiba.Channel.Inbox.Owner.{
  LiveMove, Change, same_jobs, job_claimed, live_moved, owned-live, retire-LiveMove,
  fail_locked-LiveMove, completed_row-LiveMove, external-LiveMove,
}

pub live_put :
    (s : Inbox) (j j' : InboxJob)
    → get job_key j.job_id s.jobs ≡ some j
    → LiveMove s.settings j j'
    → Change s.settings s.jobs (put job_key j' s.jobs)
live_put s j j' found m =
    live_moved j j' (subst (λ k. get job_key k s.jobs ≡ some j) (sym m.ident) found) m refl

pub owned-put :
    (claim : InboxClaim) (s : Inbox) (j : InboxJob) (c : Conversation) (j' : InboxJob)
    → owned claim s ≡ some (j, c)
    → (is_live j.status ≡ true → LiveMove s.settings j j')
    → Change s.settings s.jobs (put job_key j' s.jobs)
owned-put claim s j c j' o m =
    let mine = owned-live claim s j c o in live_put s j j' mine.0 (m (ground arith))

pub settle_inbox_failure-Change :
    (claim : InboxClaim) (error : String) (now : ℕ) (s : Inbox)
    → Change s.settings s.jobs (settle_inbox_failure claim error now s).1.jobs
unfolding settle_inbox_failure
settle_inbox_failure-Change claim error now s = elim (Option-cases (owned claim s)) [
  | inl lost ↦ rw (settle_inbox_failure, lost) (same_jobs refl)
  | inr ((j, c), o) ↦
      rw (settle_inbox_failure, o)
        (owned-put claim s j c (fail_locked j (raised error) now s.settings) o
          (fail_locked-LiveMove s.settings j (raised error) now))
]

pub recover_job-Change :
    (locked : ℕ → Bool) (now cutoff k conversation : ℕ) (s : Inbox)
    → Change s.settings s.jobs (recover_job locked now cutoff k conversation s).jobs
unfolding recover_job
recover_job-Change locked now cutoff k conversation s =
    elim (Option-cases (lock_context locked conversation s)) [
      | inl gone ↦ rw (recover_job, gone) (same_jobs refl)
      | inr (c, free) ↦ elim (Option-cases (get job_key k s.jobs)) [
        | inl gone ↦ rw (recover_job, free, gone) (same_jobs refl)
        | inr (j, found) ↦ elim (Bool-cases (is_stale cutoff j)) [
          | inr fresh ↦ rw (recover_job, free, found, fresh) (same_jobs refl)
          | inl stale ↦
              let key = key-get job_key k j s.jobs found in
              let there : get job_key j.job_id s.jobs ≡ some j =
                subst (λ i. get job_key i s.jobs ≡ some j) (sym key) found in
              rw (recover_job, free, found, stale)
                (live_put s j (fail_locked j claim_expired now s.settings) there
                  (fail_locked-LiveMove s.settings j claim_expired now (ground arith)))
        ]
      ]
    ]

pub claim_inbox-Change :
    (digest : Conversation → ℕ) (locked : ℕ → Bool) (now : ℕ) (message_ids : Option (List ℕ))
    (token k : ℕ) (s : Inbox)
    → Change s.settings s.jobs (claim_inbox digest locked now message_ids token k s).1.jobs
unfolding claim_inbox
claim_inbox-Change digest locked now message_ids token k s =
    elim (Option-cases (lock_context locked k s)) [
      | inl gone ↦ rw (claim_inbox, gone) (same_jobs refl)
      | inr (c, free) ↦ elim (Option-cases (first_unfinished k s.jobs)) [
        | inl gone ↦ rw (claim_inbox, free, gone) (same_jobs refl)
        | inr (j, found) ↦ elim (Bool-cases (is_due now message_ids j)) [
          | inr later ↦ rw (claim_inbox, free, found, later) (same_jobs refl)
          | inl due ↦
              rw (claim_inbox, free, found, due)
                (job_claimed k j token now found (ground arith) refl)
        ]
      ]
    ]

run_turn-Change :
    (claim : InboxClaim) (j : InboxJob) (c : Conversation) (silent has_turn : Bool)
    (routing : Routing) (now : ℕ) (s : Inbox)
    → owned claim s ≡ some (j, c)
    → Change s.settings s.jobs (run_turn j silent has_turn routing now s).1.jobs
unfolding run_turn
run_turn-Change claim j c silent has_turn (routed_passively d) now s o =
    owned-put claim s j c _ o (completed_row-LiveMove s.settings j now _)
run_turn-Change claim j c silent has_turn (answered d) now s o =
    elim (Bool-cases (not has_turn && not silent)) [
      | inl lacks ↦ rw lacks (same_jobs refl)
      | inr has ↦ rw has (owned-put claim s j c _ o (completed_row-LiveMove s.settings j now _))
    ]
run_turn-Change claim j c silent has_turn (deferred_call mutating name) now s o =
    elim (Bool-cases (not has_turn && not silent)) [
      | inl lacks ↦ rw lacks (same_jobs refl)
      | inr has ↦ rw has (same_jobs refl)
    ]
run_turn-Change claim j c silent has_turn (routing_raised error) now s o = same_jobs refl

pub apply_turn-Change :
    (digest : Conversation → ℕ) (claim : InboxClaim) (has_turn : Bool) (routing : Routing) (now : ℕ)
    (s : Inbox)
    → Change s.settings s.jobs (apply_turn digest claim has_turn routing now s).1.jobs
unfolding apply_turn
apply_turn-Change digest claim has_turn routing now s = elim (Option-cases (owned claim s)) [
  | inl lost ↦ rw (apply_turn, lost) (same_jobs refl)
  | inr ((j, c), o) ↦
      let changed = not (digest c == claim.context_fingerprint) in
      elim (Bool-cases (changed && is_some j.external_operation)) [
        | inl uncertain ↦
            rw (apply_turn, o, uncertain)
              (owned-put claim s j c _ o
                (λ live. retire-LiveMove s.settings j review _ live refl refl refl))
        | inr known ↦ elim (Bool-cases (changed && not (silent_reason c))) [
          | inl again ↦
              rw (apply_turn, o, known, again)
                (owned-put claim s j c _ o
                  (fail_locked-LiveMove s.settings j context_changed_reclassify now))
          | inr same ↦
              rw (apply_turn, o, known, same)
                (run_turn-Change claim j c (silent_reason c) has_turn routing now s o)
        ]
      ]
]

pub prepare_external-Change :
    (digest : Conversation → ℕ) (claim : InboxClaim) (mutating : Bool) (name : String) (now : ℕ)
    (s : Inbox)
    → Change s.settings s.jobs (prepare_external digest claim mutating name now s).1.jobs
unfolding prepare_external
prepare_external-Change digest claim mutating name now s = elim (Option-cases (owned claim s)) [
  | inl lost ↦ rw (prepare_external, lost) (same_jobs refl)
  | inr ((j, c), o) ↦ elim (Bool-cases (digest c == claim.context_fingerprint)) [
    | inr changed ↦
        rw (prepare_external, o, changed)
          (owned-put claim s j c _ o
            (fail_locked-LiveMove s.settings j context_changed_reclassify now))
    | inl same ↦ elim (Bool-cases mutating) [
      | inr reads ↦ rw (prepare_external, o, same, reads) (same_jobs refl)
      | inl writes ↦
          rw (prepare_external, o, same, writes)
            (owned-put claim s j c _ o (external-LiveMove s.settings j name))
    ]
  ]
]

result-LiveMove :
    (s : Settings) (j : InboxJob) (value : String)
    → is_live j.status ≡ true
    → LiveMove s j (record j { external_result = some value })
result-LiveMove s j value live = record {
  was_live = live;
  ident = refl;
  conversation = refl;
  called = λ h. h;
  kept = λ ok. record {
    owner = ok.owner;
    since = ok.since;
    called = ok.called;
    uncalled = ok.uncalled;
    attempts = ok.attempts;
    done = ok.done;
  };
}

pub record_external_result-Change :
    (claim : InboxClaim) (value : String) (s : Inbox)
    → Change s.settings s.jobs (record_external_result claim value s).1.jobs
unfolding record_external_result
record_external_result-Change claim value s = elim (Option-cases (owned claim s)) [
  | inl lost ↦ rw (record_external_result, lost) (same_jobs refl)
  | inr ((j, c), o) ↦
      rw (record_external_result, o)
        (owned-put claim s j c _ o (result-LiveMove s.settings j value))
]

pub release_cancelled-Change :
    (claim : InboxClaim) (s : Inbox) → Change s.settings s.jobs (release_cancelled claim s).jobs
unfolding release_cancelled
release_cancelled-Change claim s = elim (Option-cases (owned claim s)) [
  | inl lost ↦ rw (release_cancelled, lost) (same_jobs refl)
  | inr ((j, c), o) ↦ elim (Bool-cases (is_some j.external_operation)) [
    | inl called ↦
        rw (release_cancelled, o, called)
          (owned-put claim s j c _ o
            (λ live. retire-LiveMove s.settings j review _ live refl refl refl))
    | inr uncalled ↦
        rw (release_cancelled, o, uncalled)
          (owned-put claim s j c _ o
            (λ live. retire-LiveMove s.settings j pending _ live refl refl (ground arith)))
  ]
]
