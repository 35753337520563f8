-- ===== src/Notifications/Queue.antt =====
-- app/notifications/queue.py and the provider's callbacks of statuses.py: the rows of a scheduled queue of
-- notifications, from the claim to the delivery. The caller's query, its `audit` and the tokens that `uuid4()`
-- draws come in as arguments; a call of `audit` is recorded with its arguments.
pub mod Life
mod Loop
pub mod Care
use Prim.Native.String.{◌++◌ as cat}
use chat_bot_ceiba.Common.{
  ℕ, ◌+◌, ◌-◌, ◌*◌, ◌^◌, min, Bool, true, false, not, ◌&&◌, ◌||◌, Option, none, some, List, [], ◌∷◌,
  ◌++◌, String, take_chars, ltb, leb, ◌==◌, opt_eq, is_some, if◌then◌else◌,
}
use chat_bot_ceiba.Rows.Settings.{Settings, second, hour}
use chat_bot_ceiba.Rows.Table.{get, put}

pub data NoticeStatus : Type 0 where
  pending sending sent delivered was_read failed deferred expired : NoticeStatus

pub data MessageKind : Type 0 where
  text_message template_message : MessageKind

pub record NotificationRow : Type 0 where
  pub notice_id : ℕ
  pub status : NoticeStatus
  pub attempts : ℕ
  pub next_attempt_at : ℕ
  pub claim_token : Option ℕ
  pub claimed_at : Option ℕ
  pub last_error : Option String
  pub last_error_code : Option ℕ
  pub message_kind : Option MessageKind
  pub created_at : ℕ
  pub updated_at : ℕ

-- An exception: its text, the code of an `OutboundSendError`, and whether it may be tried again.
pub record SendError : Type 0 where
  pub message : String
  pub code : Option ℕ
  pub permanent : Bool

-- A call of `audit`: the action without its prefix, the row as it is then, the status before.
pub record NoticeAudit : Type 0 where
  pub action : String
  pub row : NotificationRow
  pub old_status : NoticeStatus

pub record Queue : Type 0 where
  pub settings : Settings
  pub rows : List NotificationRow
  pub trail : List NoticeAudit

abbrev pub notice_key : NotificationRow → ℕ
notice_key r = r.notice_id

abbrev pub status_text : NoticeStatus → String
status_text pending = "PENDING"
status_text sending = "SENDING"
status_text sent = "SENT"
status_text delivered = "DELIVERED"
status_text was_read = "READ"
status_text failed = "FAILED"
status_text deferred = "DEFERRED"
status_text expired = "EXPIRED"

abbrev pub is_sending : NoticeStatus → Bool
is_sending sending = true
is_sending _ = false

abbrev pub is_pending : NoticeStatus → Bool
is_pending pending = true
is_pending _ = false

abbrev pub is_deferred : NoticeStatus → Bool
is_deferred deferred = true
is_deferred _ = false

abbrev pub put_row : NotificationRow → Queue → Queue
put_row r q = record q { rows = put notice_key r q.rows }

abbrev pub audit : String → NotificationRow → NoticeStatus → Queue → Queue
audit action r old q = record q {
  trail = q.trail ++ record { action = action; row = r; old_status = old } ∷ [];
}

abbrev pub retire : NotificationRow → NoticeStatus → ℕ → NotificationRow
retire r state now = record r {
  status = state;
  claim_token = none;
  claimed_at = none;
  updated_at = now;
}

-- `backoff_seconds` of app/channel/worker.py
abbrev pub backoff_seconds : ℕ → ℕ → ℕ
backoff_seconds attempts limit = min (2 ^ attempts) limit

abbrev pub failed_status : SendError → ℕ → Settings → NoticeStatus
failed_status error attempts s =
    if error.permanent || leb s.staff_outbox_max_attempts attempts then failed else pending

unfoldable pub failed_row : NotificationRow → SendError → Settings → ℕ → NotificationRow
failed_row r error s now =
    let tried = record r {
      attempts = r.attempts + 1;
      last_error = some (take_chars 4000 error.message);
      last_error_code = error.code;
    } in
    record (retire tried (failed_status error (r.attempts + 1) s) now) {
      next_attempt_at =
          now + backoff_seconds (r.attempts + 1) s.outbox_max_backoff_seconds * second;
    }

-- `fail`
unfoldable pub fail : NotificationRow → SendError → ℕ → Queue → Queue
fail r error now q =
    let r' = failed_row r error q.settings now in audit "FAILED" r' r.status (put_row r' q)

abbrev pub sending_row : NotificationRow → ℕ → ℕ → NotificationRow
sending_row r token now = record r {
  status = sending;
  claim_token = some token;
  claimed_at = some now;
}

-- The loop of `claim_batch` over the rows that the query has locked.
unfoldable pub claim_batch :
    (NotificationRow → Bool)
    → (ℕ → ℕ)
    → ℕ
    → List NotificationRow
    → Queue
    → List NotificationRow × Queue
claim_batch admissible token now [] q = ([], q)
claim_batch admissible token now (r ∷ rs) q =
    let expires =
      audit "EXPIRED" (retire r expired now) pending (put_row (retire r expired now) q) in
    let claim = sending_row r (token r.notice_id) now in
    let skipped = claim_batch admissible token now rs expires in
    let claimed = claim_batch admissible token now rs (put_row claim q) in
    if admissible r then (claim ∷ claimed.0, claimed.1) else skipped

-- The WHERE clause of `maintain_queue`.
abbrev pub needs_care : ℕ → ℕ → NotificationRow → Bool
needs_care stale cutoff r =
    (is_deferred r.status && ltb r.created_at cutoff)
    || (is_sending r.status
        && (elim r.claimed_at [ none ↦ ltb r.created_at stale | some t ↦ ltb t stale ]))

abbrev pub stuck : SendError
stuck = record { message = "Envío atascado recuperado"; code = none; permanent = false }

abbrev pub tend : NotificationRow → ℕ → Queue → Queue
tend r now q =
    if is_deferred r.status
    then audit "EXPIRED" (retire r expired now) deferred (put_row (retire r expired now) q)
    else fail r stuck now q

abbrev pub stale_before : Settings → ℕ → ℕ
stale_before s now = now - s.outbox_sending_timeout_seconds * second

abbrev pub deferred_before : Settings → ℕ → ℕ
deferred_before s now = now - s.staff_deferred_max_age_hours * hour

-- The loop of `maintain_queue`, over the rows in the order of their ids. `SKIP LOCKED`: `busy` says which rows another
-- transaction holds.
unfoldable pub maintain_rows : (ℕ → Bool) → List NotificationRow → ℕ → Queue → Queue
maintain_rows busy [] now q = q
maintain_rows busy (r ∷ rs) now q =
    let due = needs_care (stale_before q.settings now) (deferred_before q.settings now) r in
    maintain_rows busy rs now (if due && not (busy r.notice_id) then tend r now q else q)

abbrev pub maintain_queue : (ℕ → Bool) → ℕ → Queue → Queue
maintain_queue busy now q = maintain_rows busy q.rows now q

abbrev pub owns : ℕ → NotificationRow → Bool
owns token r = is_sending r.status && opt_eq r.claim_token token

-- `update` is the caller's: it writes the columns of the provider.
unfoldable pub settle_claim :
    ℕ
    → ℕ
    → ℕ
    → NoticeStatus
    → Option SendError
    → (NotificationRow → NotificationRow)
    → Queue
    → Queue
settle_claim k token now state error update q = elim (get notice_key k q.rows) [
  | none ↦ q
  | some r ↦
      if owns token r
      then (elim error [
        | some e ↦ fail r e now q
        | none ↦
            let r' = update (retire r state now) in
            audit (status_text state) r' sending (put_row r' q)
      ])
      else q
]

-- A callback of the provider.
pub data ProviderStatus : Type 0 where
  delivered_status read_status : ProviderStatus
  failed_callback : Option ℕ → String → ProviderStatus
  other_status : ProviderStatus

-- `rank.get(status, -1)`, one higher.
abbrev pub rank : NoticeStatus → ℕ
rank sent = 1
rank delivered = 2
rank was_read = 3
rank _ = 0

abbrev pub window_failure : Option ℕ → Option MessageKind → Bool
window_failure code none = false
window_failure code (some template_message) = false
window_failure code (some text_message) = opt_eq code 131047

abbrev pub undelivered : NotificationRow → Option ℕ → String → NoticeStatus → ℕ → NotificationRow
undelivered r code message retry now =
    let told = record r {
      last_error = some (take_chars 4000 message);
      last_error_code = code;
      claim_token = none;
      claimed_at = none;
    } in
    if window_failure code r.message_kind
    then record told { status = retry; next_attempt_at = now }
    else record told { status = failed }

-- The row after the callback, before `updated_at`.
unfoldable pub provider_row : ProviderStatus → NoticeStatus → ℕ → NotificationRow → NotificationRow
provider_row delivered_status retry now r =
    if ltb (rank r.status) 2 then record r { status = delivered } else r
provider_row read_status retry now r =
    if ltb (rank r.status) 3 then record r { status = was_read } else r
provider_row (failed_callback code message) retry now r =
    if leb 2 (rank r.status) then r else undelivered r code message retry now
provider_row other_status retry now r = r
