-- ===== src/Notifications/Staff/Once.antt =====
-- A notice is stored once for each advisor and source, and its enqueueing touches no booking row.
use chat_bot_ceiba.Common.{
  ℕ, ◌≡◌, refl, ◌∙◌, ◌⊎◌, inl, inr, Bool, true, false, not, ◌&&◌, List, [], ◌∷◌, ◌++◌, ok, arith,
  ◌==◌, any_of, is_empty, All, Result-cases, Bool-cases,
}
use chat_bot_ceiba.Rows.Reservation.{Reservation}
use chat_bot_ceiba.Reservation.Store.{Store, EventKind, SourceEntity, StaffParams, StaffNotice}
use chat_bot_ceiba.Notifications.Staff.{
  same_kind, same_entity, same_source, enqueue_staff_notification, recipients_for, enqueue_each,
  notice_params, expected_amount, enqueue_for_reservation,
}

-- All but the outbox and the trail.
pub record SameRows (s t : Store) : Type 0 where
  pub settings : t.settings ≡ s.settings
  pub now : t.now ≡ s.now
  pub plan : t.plan ≡ s.plan
  pub reservations : t.reservations ≡ s.reservations
  pub evidences : t.evidences ≡ s.evidences
  pub recipients : t.recipients ≡ s.recipients

SameRows-refl : (s : Store) → SameRows s s
SameRows-refl s = ground arith

SameRows-trans : {s t u : Store} → SameRows s t → SameRows t u → SameRows s u
SameRows-trans a b = record {
  settings = b.settings ∙ a.settings;
  now = b.now ∙ a.now;
  plan = b.plan ∙ a.plan;
  reservations = b.reservations ∙ a.reservations;
  evidences = b.evidences ∙ a.evidences;
  recipients = b.recipients ∙ a.recipients;
}

enqueue_staff_notification-SameRows :
    (n : StaffNotice) (s : Store) → SameRows s (enqueue_staff_notification n s)
unfolding enqueue_staff_notification
enqueue_staff_notification-SameRows n s =
    elim (Bool-cases (any_of (same_source n) s.staff_outbox)) [
      | inl e ↦ rw e (SameRows-refl s)
      | inr e ↦ rw e (record {
        settings = refl;
        now = refl;
        plan = refl;
        reservations = refl;
        evidences = refl;
        recipients = refl;
      })
    ]

enqueue_each-SameRows :
    (k : EventKind) (e : SourceEntity) (i : ℕ) (p : StaffParams) (ids : List ℕ) (s : Store)
    → SameRows s (enqueue_each k e i p ids s)
unfolding enqueue_each
enqueue_each-SameRows k e i p [] s = SameRows-refl s
enqueue_each-SameRows k e i p (j ∷ js) s =
    SameRows-trans (enqueue_staff_notification-SameRows _ s) (enqueue_each-SameRows k e i p js _)

-- A call that returns has added nothing, or one notice for each recipient in turn.
enqueue_for_reservation-cases :
    (r : Reservation) (k : EventKind) (e : SourceEntity) (i : ℕ) (s t : Store)
    → enqueue_for_reservation r k e i s ≡ ok t
    → (t ≡ s) ⊎ ((p : StaffParams) × (t ≡ enqueue_each k e i p (recipients_for k e i s) s))
unfolding enqueue_for_reservation
enqueue_for_reservation-cases r k e i s t h = elim (Result-cases (expected_amount s r)) [
  | inl (x, refused) ↦ inl (ground arith)
  | inr (amount, known) ↦
      elim (Bool-cases
        (s.settings.staff_notifications_enabled && not (is_empty (recipients_for k e i s)))) [
          | inl on ↦ inr (notice_params r amount, ground arith)
          | inr off ↦ inl (ground arith)
        ]
]

pub enqueue_for_reservation-SameRows :
    (r : Reservation) (k : EventKind) (e : SourceEntity) (i : ℕ) (s t : Store)
    → enqueue_for_reservation r k e i s ≡ ok t
    → SameRows s t
enqueue_for_reservation-SameRows r k e i s t h =
    elim (enqueue_for_reservation-cases r k e i s t h) [
      | inl same ↦ rw same (SameRows-refl s)
      | inr (p, each) ↦ rw each (enqueue_each-SameRows k e i p (recipients_for k e i s) s)
    ]

-- No two rows of the outbox have the same source.
abbrev pub Distinct : List StaffNotice → Type 0
Distinct [] = Unit
Distinct (n ∷ ns) = All (λ m. same_source m n ≡ false) ns × Distinct ns

All-snoc :
    (n x : StaffNotice) (ns : List StaffNotice)
    → All (λ m. same_source m n ≡ false) ns
    → same_source x n ≡ false
    → All (λ m. same_source m n ≡ false) (ns ++ x ∷ [])
All-snoc n x [] h e = (e, tt)
All-snoc n x (m ∷ ns) h e = (h.0, All-snoc n x ns h.1 e)

Distinct-snoc :
    (x : StaffNotice) (ns : List StaffNotice)
    → any_of (same_source x) ns ≡ false
    → Distinct ns
    → Distinct (ns ++ x ∷ [])
Distinct-snoc x [] h d = (tt, tt)
Distinct-snoc x (n ∷ ns) h d =
    (All-snoc n x ns d.0 (ground arith), Distinct-snoc x ns (ground arith) d.1)

enqueue_staff_notification-Distinct :
    (n : StaffNotice) (s : Store)
    → Distinct s.staff_outbox
    → Distinct (enqueue_staff_notification n s).staff_outbox
unfolding enqueue_staff_notification
enqueue_staff_notification-Distinct n s d =
    elim (Bool-cases (any_of (same_source n) s.staff_outbox)) [
      | inl e ↦ rw e d
      | inr e ↦ rw e (Distinct-snoc n s.staff_outbox e d)
    ]

abbrev notice : EventKind → SourceEntity → ℕ → StaffParams → ℕ → StaffNotice
notice k e sid p i = record {
  recipient_id = i;
  event_kind = k;
  source_entity = e;
  source_id = sid;
  params = p;
}

-- The recipient has a notice of this kind about this source.
abbrev pub told : EventKind → SourceEntity → ℕ → Store → ℕ → Bool
told k e sid s i =
    any_of
      (λ n.
        i == n.recipient_id
        && (same_kind k n.event_kind && (same_entity e n.source_entity && sid == n.source_id)))
      s.staff_outbox

module _ (k : EventKind) (e : SourceEntity) (sid : ℕ) (p : StaffParams) where
  -- Whoever has been told is not told again.
  enqueue_each-told :
      (ids : List ℕ) (s : Store)
      → All (λ i. told k e sid s i ≡ true) ids
      → enqueue_each k e sid p ids s ≡ s
  unfolding enqueue_each enqueue_staff_notification
  enqueue_each-told [] s h = refl
  enqueue_each-told (j ∷ js) s h = rw h.0 (enqueue_each-told js s h.1)

  enqueue_each-Distinct :
      (ids : List ℕ) (s : Store)
      → Distinct s.staff_outbox
      → Distinct (enqueue_each k e sid p ids s).staff_outbox
  unfolding enqueue_each
  enqueue_each-Distinct [] s d = d
  enqueue_each-Distinct (j ∷ js) s d =
      enqueue_each-Distinct js _ (enqueue_staff_notification-Distinct (notice k e sid p j) s d)

-- A call that returns keeps the outbox free of repeated sources and leaves every booking row alone.
pub enqueue_for_reservation_once :
    (r : Reservation) (k : EventKind) (e : SourceEntity) (i : ℕ) (s t : Store)
    → Distinct s.staff_outbox
    → enqueue_for_reservation r k e i s ≡ ok t
    → Distinct t.staff_outbox × SameRows s t
enqueue_for_reservation_once r k e i s t d h = (
  elim (enqueue_for_reservation-cases r k e i s t h) [
    | inl same ↦ rw same d
    | inr (p, each) ↦ rw each (enqueue_each-Distinct k e i p (recipients_for k e i s) s d)
  ],
  enqueue_for_reservation-SameRows r k e i s t h,
)
