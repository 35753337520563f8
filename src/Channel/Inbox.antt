-- ===== src/Channel/Inbox.antt =====
-- app/channel/inbox.py: the durable processing of inbound messages, one job per message. Each function below
-- is one transaction. What a transaction calls outside this module comes in as an argument: the digest that
-- hashes a conversation's row with its context, the rows that other transactions have locked, and what the
-- routing and the orchestrator made of the turn.
pub mod Order
pub mod Owner
pub mod Moves
pub mod Reach
pub mod Safe
use chat_bot_ceiba.Common.{
  ℕ, ◌+◌, ◌*◌, ◌^◌, min, Bool, true, false, not, ◌&&◌, ◌||◌, Option, none, some, List, [], ◌∷◌,
  ◌++◌, String, ltb, leb, ◌==◌, opt_eq, is_some, if◌then◌else◌, contains, any_of, find_first, map,
  select,
}
use chat_bot_ceiba.Rows.Settings.{Settings, second}
use chat_bot_ceiba.Rows.Table.{get, put}
use chat_bot_ceiba.Conversation.{
  ConversationState, Conversation, human_active, waiting_for_human, closed,
}

pub data JobStatus : Type 0 where
  pending processing external completed failed review : JobStatus

-- What `last_error` and `completion_reason` say.
pub data Reason : Type 0 where
  external_outcome_uncertain claim_expired context_changed_reclassify : Reason
  context_changed_after_external cancelled : Reason
  raised : String → Reason

pub data Completion : Type 0 where
  silent_non_text routed_non_text silent_turn orchestrated : Completion

pub record InboxJob : Type 0 where
  pub job_id : ℕ
  pub message_id : ℕ
  pub conversation_id : ℕ
  pub status : JobStatus
  pub attempts : ℕ
  pub claim_token : Option ℕ
  pub claimed_at : Option ℕ
  pub next_attempt_at : Option ℕ
  pub completed_at : Option ℕ
  pub last_error : Option Reason
  pub completion_reason : Option Completion
  pub external_operation : Option String
  pub external_result : Option String

-- The jobs in the order of their ids.
pub record Inbox : Type 0 where
  pub settings : Settings
  pub jobs : List InboxJob
  pub conversations : List Conversation
  pub customers : List ℕ

pub record InboxClaim : Type 0 where
  pub job_id : ℕ
  pub message_id : ℕ
  pub conversation_id : ℕ
  pub claim_token : ℕ
  pub context_fingerprint : ℕ
  pub silent : Bool

abbrev pub job_key : InboxJob → ℕ
job_key j = j.job_id

abbrev pub conversation_key : Conversation → ℕ
conversation_key c = c.conversation_id

abbrev pub is_pending : JobStatus → Bool
is_pending pending = true
is_pending _ = false

abbrev pub is_completed : JobStatus → Bool
is_completed completed = true
is_completed _ = false

-- `status in {"PROCESSING", "EXTERNAL"}`
abbrev pub is_live : JobStatus → Bool
is_live processing = true
is_live external = true
is_live _ = false

abbrev pub put_job : InboxJob → Inbox → Inbox
put_job j s = record s { jobs = put job_key j s.jobs }

-- `silent_reason(…) is not None`
unfoldable pub silent_reason : Conversation → Bool
silent_reason c = elim c.state [
  | human_active ↦ true
  | waiting_for_human ↦ true
  | closed ↦ true
  | _ ↦ not c.bot_enabled
]

-- The conversation whose row and whose customer's row exist and are free.
unfoldable pub lock_context : (ℕ → Bool) → ℕ → Inbox → Option Conversation
lock_context locked k s = elim (get conversation_key k s.conversations) [
  | none ↦ none
  | some c ↦ if contains c.customer_id s.customers && not (locked k) then some c else none
]

abbrev nothing_locked : ℕ → Bool
nothing_locked k = false

abbrev pub owns : InboxClaim → InboxJob → Bool
owns claim j =
    j.message_id == claim.message_id && (is_live j.status && opt_eq j.claim_token claim.claim_token)

-- The job of a claim that is still the current owner's, with its conversation.
unfoldable pub owned : InboxClaim → Inbox → Option (InboxJob × Conversation)
owned claim s = elim (lock_context nothing_locked claim.conversation_id s) [
  | none ↦ none
  | some c ↦ elim (get job_key claim.job_id s.jobs) [
    | none ↦ none
    | some j ↦ if owns claim j then some (j, c) else none
  ]
]

abbrev pub retire : InboxJob → JobStatus → Option Reason → InboxJob
retire j status reason = record j {
  status = status;
  claim_token = none;
  claimed_at = none;
  next_attempt_at = none;
  last_error = reason;
}

abbrev pub count_attempt : InboxJob → InboxJob
count_attempt j = record j { attempts = j.attempts + 1 }

abbrev pub fail_counted : InboxJob → Reason → ℕ → Settings → InboxJob
fail_counted j reason now settings =
    if is_some j.external_operation
    then retire j review (some external_outcome_uncertain)
    else if leb settings.inbox_max_attempts j.attempts
    then retire j failed (some reason)
    else record (retire j pending (some reason)) {
      next_attempt_at =
          some (now + min (2 ^ j.attempts) settings.inbox_max_backoff_seconds * second);
    }

unfoldable pub fail_locked : InboxJob → Reason → ℕ → Settings → InboxJob
fail_locked j reason now settings = fail_counted (count_attempt j) reason now settings

-- What the caller learns of a transaction.
pub data Outcome : Type 0 where
  discarded reviewed retried completed_turn failed_turn : Outcome
  deferred : Bool → String → Outcome
  raised_error : String → Outcome

unfoldable pub settle_inbox_failure : InboxClaim → String → ℕ → Inbox → Outcome × Inbox
settle_inbox_failure claim error now s = elim (owned claim s) [
  | none ↦ (discarded, s)
  | some (j, c) ↦ (failed_turn, put_job (fail_locked j (raised error) now s.settings) s)
]

-- `claimed_at < cutoff`, which SQL does not hold of a NULL.
abbrev pub is_stale : ℕ → InboxJob → Bool
is_stale cutoff j = is_live j.status && (elim j.claimed_at [ none ↦ false | some t ↦ ltb t cutoff ])

-- The body of the loop of `recover_stale_inbox`, one transaction for one candidate.
unfoldable pub recover_job : (ℕ → Bool) → ℕ → ℕ → ℕ → ℕ → Inbox → Inbox
recover_job locked now cutoff k conversation s = elim (lock_context locked conversation s) [
  | none ↦ s
  | some c ↦ elim (get job_key k s.jobs) [
    | none ↦ s
    | some j ↦
        if is_stale cutoff j then put_job (fail_locked j claim_expired now s.settings) s else s
  ]
]

-- The first job of the conversation that is not completed.
unfoldable pub first_unfinished : ℕ → List InboxJob → Option InboxJob
first_unfinished k js =
    find_first (λ (j : InboxJob). j.conversation_id == k && not (is_completed j.status)) js

abbrev pub is_due : ℕ → Option (List ℕ) → InboxJob → Bool
is_due now message_ids j =
    is_pending j.status
    && ((elim j.next_attempt_at [ none ↦ true | some t ↦ leb t now ])
        && (elim message_ids [ none ↦ true | some ids ↦ contains j.message_id ids ]))

abbrev pub claimed_row : InboxJob → ℕ → ℕ → InboxJob
claimed_row j token now = record j {
  status = processing;
  claim_token = some token;
  claimed_at = some now;
}

-- The body of the loop of `claim_inbox_batch`, one transaction for one conversation.
unfoldable pub claim_inbox :
    (Conversation → ℕ)
    → (ℕ → Bool)
    → ℕ
    → Option (List ℕ)
    → ℕ
    → ℕ
    → Inbox
    → Option InboxClaim × Inbox
claim_inbox digest locked now message_ids token k s = elim (lock_context locked k s) [
  | none ↦ (none, s)
  | some c ↦ elim (first_unfinished k s.jobs) [
    | none ↦ (none, s)
    | some j ↦
        if is_due now message_ids j
        then (
          some (record {
            job_id = j.job_id;
            message_id = j.message_id;
            conversation_id = k;
            claim_token = token;
            context_fingerprint = digest c;
            silent = silent_reason c;
          }),
          put_job (claimed_row j token now) s,
        )
        else (none, s)
  ]
]

-- What the routing of the turn did, with the conversation's row as the orchestrator left it.
pub data Routing : Type 0 where
  routed_passively : Conversation → Routing
  answered : Conversation → Routing
  deferred_call : Bool → String → Routing
  routing_raised : String → Routing

abbrev pub completed_row : InboxJob → ℕ → Completion → InboxJob
completed_row j now why = record (retire j completed none) {
  completed_at = some now;
  completion_reason = some why;
}

abbrev pub put_conversation : Conversation → Inbox → Inbox
put_conversation c s = record s { conversations = put conversation_key c s.conversations }

-- The turn itself, once the job is owned and the context is as it was claimed.
unfoldable pub run_turn : InboxJob → Bool → Bool → Routing → ℕ → Inbox → Outcome × Inbox
run_turn j silent has_turn routing now s = elim routing [
  | routed_passively c ↦ (
    completed_turn,
    put_job (completed_row j now (if silent then silent_non_text else routed_non_text))
        (put_conversation c s),
  )
  | answered c ↦
      if not has_turn && not silent then (raised_error "Missing classified turn", s) else (
        completed_turn,
        put_job (completed_row j now (if silent then silent_turn else orchestrated))
            (put_conversation c s),
      )
  | deferred_call mutating name ↦
      if not has_turn && not silent
      then (raised_error "Missing classified turn", s)
      else (deferred mutating name, s)
  | routing_raised error ↦ (raised_error error, s)
]

unfoldable pub apply_turn :
    (Conversation → ℕ) → InboxClaim → Bool → Routing → ℕ → Inbox → Outcome × Inbox
apply_turn digest claim has_turn routing now s = elim (owned claim s) [
  | none ↦ (discarded, s)
  | some (j, c) ↦
      let silent = silent_reason c in
      let changed = not (digest c == claim.context_fingerprint) in
      if changed && is_some j.external_operation
      then (reviewed, put_job (retire j review (some context_changed_after_external)) s)
      else if changed && not silent
      then (retried, put_job (fail_locked j context_changed_reclassify now s.settings) s)
      else run_turn j silent has_turn routing now s
]

unfoldable pub prepare_external :
    (Conversation → ℕ) → InboxClaim → Bool → String → ℕ → Inbox → Bool × Inbox
prepare_external digest claim mutating name now s = elim (owned claim s) [
  | none ↦ (false, s)
  | some (j, c) ↦
      if not (digest c == claim.context_fingerprint)
      then (false, put_job (fail_locked j context_changed_reclassify now s.settings) s)
      else if mutating
      then (true, put_job (record j { status = external; external_operation = some name }) s)
      else (true, s)
]

unfoldable pub record_external_result : InboxClaim → String → Inbox → Bool × Inbox
record_external_result claim value s = elim (owned claim s) [
  | none ↦ (false, s)
  | some (j, c) ↦ (true, put_job (record j { external_result = some value }) s)
]

-- The handler of `CancelledError`.
unfoldable pub release_cancelled : InboxClaim → Inbox → Inbox
release_cancelled claim s = elim (owned claim s) [
  | none ↦ s
  | some (j, c) ↦
      put_job
        (if is_some j.external_operation
          then retire j review (some external_outcome_uncertain)
          else retire j pending (some cancelled))
        s
]

-- The job of a new message, which `persist_inbound_in_session` of app/channel/inbound.py adds with the next id.
abbrev pub new_job : ℕ → ℕ → ℕ → InboxJob
new_job k message conversation = record {
  job_id = k;
  message_id = message;
  conversation_id = conversation;
  status = pending;
  attempts = 0;
  claim_token = none;
  claimed_at = none;
  next_attempt_at = none;
  completed_at = none;
  last_error = none;
  completion_reason = none;
  external_operation = none;
  external_result = none;
}

abbrev pub add_job : InboxJob → Inbox → Inbox
add_job j s = record s { jobs = s.jobs ++ j ∷ [] }
