-- ===== src/Notifications/Queue/Loop.antt =====
-- The loop of the maintenance of the queue, row by row.
use chat_bot_ceiba.Common.{
  ℕ, ◌≡◌, refl, sym, ap, subst, ◌∙◌, inl, inr, Bool, false, not, ◌&&◌, Option, none, some, List, [],
  ◌∷◌, arith, ◌==◌, ==_iff, if◌then◌else◌, All, Bool-cases,
}
use chat_bot_ceiba.Rows.Settings.{Settings}
use chat_bot_ceiba.Rows.Table.{get, put, get-put, Unique}
use chat_bot_ceiba.Notifications.Queue.{
  NotificationRow, Queue, notice_key, needs_care, tend, stuck, fail, failed_row, retire, expired,
  is_deferred, maintain_rows, stale_before, deferred_before,
}

-- The row that the care of `r` leaves.
abbrev tended : NotificationRow → ℕ → Settings → NotificationRow
tended r now s = if is_deferred r.status then retire r expired now else failed_row r stuck s now

abbrev pub is_due : (ℕ → Bool) → ℕ → Settings → NotificationRow → Bool
is_due busy now s r =
    needs_care (stale_before s now) (deferred_before s now) r && not (busy r.notice_id)

abbrev pub after_care : (ℕ → Bool) → ℕ → Settings → NotificationRow → NotificationRow
after_care busy now s r = if is_due busy now s r then tended r now s else r

tended-ident :
    (r : NotificationRow) (now : ℕ) (s : Settings) → (tended r now s).notice_id ≡ r.notice_id
unfolding failed_row
tended-ident r now s = ground arith

tend-rows :
    (r : NotificationRow) (now : ℕ) (q : Queue)
    → ((tend r now q).rows ≡ put notice_key (tended r now q.settings) q.rows)
      × ((tend r now q).settings ≡ q.settings)
unfolding fail
tend-rows r now q = elim (Bool-cases (is_deferred r.status)) [
  | inl old ↦ rw old (refl, refl)
  | inr other ↦ rw other (refl, refl)
]

abbrev stepped : (ℕ → Bool) → ℕ → NotificationRow → Queue → Queue
stepped busy now r q = if is_due busy now q.settings r then tend r now q else q

-- One turn of the loop writes its row, and no other.
step-get :
    (busy : ℕ → Bool) (now n : ℕ) (r : NotificationRow) (q : Queue)
    → get notice_key r.notice_id q.rows ≡ some r
    → ((stepped busy now r q).settings ≡ q.settings)
      × (get notice_key n (stepped busy now r q).rows ≡ (
          if r.notice_id == n
          then some (after_care busy now q.settings r)
          else get notice_key n q.rows))
step-get busy now n r q here = elim (Bool-cases (is_due busy now q.settings r)) [
  | inl due ↦
      let t = tend-rows r now q in
      let r' = tended r now q.settings in
      let ident = tended-ident r now q.settings in
      let stored : get notice_key r'.notice_id q.rows ≡ some r =
        subst (λ i. get notice_key i q.rows ≡ some r) (sym ident) here in
      let written : get notice_key n (tend r now q).rows
          ≡ (if r.notice_id == n then some r' else get notice_key n q.rows) =
        ap (get notice_key n) t.0
        ∙ get-put notice_key n r' r q.rows stored
        ∙ ap (λ i. if i == n then some r' else get notice_key n q.rows) ident in
      rw (due) (t.1, written)
  | inr fine ↦ elim (Bool-cases (r.notice_id == n)) [
    | inl hit ↦
        let it : r.notice_id ≡ n = (==_iff r.notice_id n).0 hit in
        rw (fine, hit) (refl, subst (λ i. get notice_key i q.rows ≡ some r) it here)
    | inr miss ↦ rw (fine, miss) (refl, refl)
  ]
]

Present-later :
    (busy : ℕ → Bool) (now : ℕ) (r : NotificationRow) (q : Queue) (rs : List NotificationRow)
    → get notice_key r.notice_id q.rows ≡ some r
    → All (λ x. (x.notice_id == r.notice_id) ≡ false) rs
    → All (λ x. get notice_key x.notice_id q.rows ≡ some x) rs
    → All (λ x. get notice_key x.notice_id (stepped busy now r q).rows ≡ some x) rs
Present-later busy now r q [] here other h = tt
Present-later busy now r q (x ∷ rs) here other h =
    let miss : (r.notice_id == x.notice_id) ≡ false = ground arith in
    let written = (step-get busy now x.notice_id r q here).1 in
    (written ∙ (let stored = h.0 in rw miss stored), Present-later busy now r q rs here other.1 h.1)

get-absent :
    (k : ℕ) (rs : List NotificationRow)
    → All (λ x. (x.notice_id == k) ≡ false) rs
    → get notice_key k rs ≡ none
unfolding get
get-absent k [] h = refl
get-absent k (x ∷ rs) h = let one = h.0 in rw one (get-absent k rs h.1)

-- The row that the loop leaves under a key: the one it cared for, or the one that was there.
abbrev pub left_of :
    (ℕ → Bool)
    → ℕ
    → Settings
    → Option NotificationRow
    → Option NotificationRow
    → Option NotificationRow
left_of busy now s none old = old
left_of busy now s (some r) old = some (after_care busy now s r)

pub maintain_rows-get :
    (busy : ℕ → Bool) (now k : ℕ) (s : Settings) (rs : List NotificationRow) (q : Queue)
    → q.settings ≡ s
    → Unique notice_key rs
    → All (λ x. get notice_key x.notice_id q.rows ≡ some x) rs
    → get notice_key k (maintain_rows busy rs now q).rows
      ≡ left_of busy now s (get notice_key k rs) (get notice_key k q.rows)
unfolding maintain_rows get
maintain_rows-get busy now k s [] q same u h = refl
maintain_rows-get busy now k s (r ∷ rs) q same u h =
    let (kept, written) = step-get busy now k r q h.0 in
    let later = Present-later busy now r q rs h.0 u.0 h.1 in
    let rest = maintain_rows-get busy now k s rs (stepped busy now r q) (kept ∙ same) u.1 later in
    elim (Bool-cases (r.notice_id == k)) [
      | inl hit ↦
          let it : r.notice_id ≡ k = (==_iff r.notice_id k).0 hit in
          let gone : get notice_key k rs ≡ none =
            get-absent k rs
              (subst (λ i. All (λ (x : NotificationRow). (x.notice_id == i) ≡ false) rs) it u.0) in
          let done : get notice_key k (stepped busy now r q).rows ≡ some (after_care busy now s r) =
            written ∙ rw hit (ap (λ t. some (after_care busy now t r)) same) in
          rest
          ∙ ap (λ o. left_of busy now s o (get notice_key k (stepped busy now r q).rows)) gone
          ∙ done
          ∙ rw hit refl
      | inr miss ↦
          let still : get notice_key k (stepped busy now r q).rows ≡ get notice_key k q.rows =
            written ∙ rw miss refl in
          rest ∙ ap (λ o. left_of busy now s (get notice_key k rs) o) still ∙ rw miss refl
    ]

Present-cons :
    (x : NotificationRow) (todo xs : List NotificationRow)
    → All (λ y. (y.notice_id == x.notice_id) ≡ false) xs
    → All (λ y. get notice_key y.notice_id todo ≡ some y) xs
    → All (λ y. get notice_key y.notice_id (x ∷ todo) ≡ some y) xs
unfolding get
Present-cons x todo [] other h = tt
Present-cons x todo (y ∷ xs) other h = (ground arith, Present-cons x todo xs other.1 h.1)

pub Unique-Present :
    (xs : List NotificationRow)
    → Unique notice_key xs
    → All (λ y. get notice_key y.notice_id xs ≡ some y) xs
unfolding get
Unique-Present [] u = tt
Unique-Present (x ∷ xs) u = (ground arith, Present-cons x xs xs u.0 (Unique-Present xs u.1))
