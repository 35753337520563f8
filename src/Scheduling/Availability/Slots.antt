-- ===== src/Scheduling/Availability/Slots.antt =====
-- Which times of a day are offered, said without the order of the tests.
use chat_bot_ceiba.Common.{
  ℕ, ◌+◌, ◌≤◌, ◌≡◌, ◌↔◌, ◌≢◌, refl, sym, ap, subst, ◌∙◌, inl, inr, Bool, true, false, ◌&&◌, Option,
  some, List, [], ◌∷◌, map, String, arith, ◌==◌, ==_iff, contains, any_of, select, Bool-cases,
  Option-cases,
}
use chat_bot_ceiba.Rows.Settings.{weekday}
use chat_bot_ceiba.Scheduling.Availability.{
  VisitSlot, AvailabilityResult, BusyInterval, VisitTables, visit_start_times, minimum_notice_days,
  visit_slot, deterministic_visit_slots, busy_intersects_slot, active_times, is_free,
  validate_visit_date, answer, available_slots,
}

abbrev pub offers : AvailabilityResult → ℕ → Bool
offers r t = any_of (λ (s : VisitSlot). s.start_time == t) r.slots

-- Three days ahead or more, from Tuesday to Saturday, on a day that is neither a holiday nor blocked.
pub record IsVisitDay (v : VisitTables) (visit_date today : ℕ) : Type 0 where
  pub notice : today + minimum_notice_days ≤ visit_date
  pub not_monday : weekday visit_date ≢ 0
  pub not_sunday : weekday visit_date ≢ 6
  pub working : contains visit_date v.holidays ≡ false
  pub unblocked : contains visit_date v.blocked_dates ≡ false

contains-select : (d : ℕ) (ds : List ℕ) → contains d (select (λ x. x == d) ds) ≡ contains d ds
contains-select d [] = refl
contains-select d (x ∷ xs) = elim (Bool-cases (x == d)) [
  | inl hit ↦ rw hit (rw hit refl)
  | inr miss ↦ rw miss (contains-select d xs)
]

select-any_of :
    (p : ℕ → Bool) (t : ℕ) (ts : List ℕ)
    → any_of
        (λ (s : VisitSlot). s.start_time == t)
        (select (λ (s : VisitSlot). p s.start_time) (map visit_slot ts))
      ≡ (contains t ts && p t)
select-any_of p t [] = refl
select-any_of p t (x ∷ xs) =
    let rest = select-any_of p t xs in
    elim (Bool-cases (p x)) [
      | inl free ↦ elim (Bool-cases (x == t)) [
        | inl same ↦
            let it : p t ≡ true = ap p (sym ((==_iff x t).0 same)) ∙ free in
            rw (free, it, same) refl
        | inr other ↦ rw (free, other) rest
      ]
      | inr taken ↦ elim (Bool-cases (x == t)) [
        | inl same ↦
            let it : p t ≡ false = ap p (sym ((==_iff x t).0 same)) ∙ taken in
            rw (taken, same, it) (rw it at rest ∙ ground arith)
        | inr other ↦ rw (taken, other) rest
      ]
    ]

validate_visit_date-accepted :
    (v : VisitTables) (visit_date today : ℕ)
    → ((validate_visit_date visit_date today
          (select (λ d. d == visit_date) v.holidays)
          (select (λ d. d == visit_date) v.blocked_dates)).accepted
        ≡ true)
      ↔ IsVisitDay v visit_date today
unfolding validate_visit_date
validate_visit_date-accepted v visit_date today =
    let h = contains-select visit_date v.holidays in
    let b = contains-select visit_date v.blocked_dates in
    rw (h, b)
      (
        (λ e. record {
          notice = ground arith;
          not_monday = λ m. ground arith;
          not_sunday = λ m. ground arith;
          working = ground arith;
          unblocked = ground arith;
        }),
        λ w. ground (arith, w.notice, w.not_monday, w.not_sunday, w.working, w.unblocked),
      )

offers-answer :
    (t d : ℕ) (xs : List VisitSlot)
    → offers (answer d xs) t ≡ any_of (λ (s : VisitSlot). s.start_time == t) xs
offers-answer t d [] = refl
offers-answer t d (x ∷ xs) = refl

-- A time of a day is offered for a visit exactly when the day is three days ahead or more, from Tuesday to Saturday and
-- neither a holiday nor blocked, the calendar answers, the time is one of the four of a visit, no active appointment of
-- that day starts at it, and no busy interval of the calendar overlaps the visit.
pub available_slots_iff :
    (get_busy_intervals : ℕ → List String → Option (List BusyInterval)) (ids : List String)
    (v : VisitTables) (visit_date today t : ℕ)
    → (offers (available_slots get_busy_intervals ids v visit_date today) t ≡ true) ↔ (
        IsVisitDay v visit_date today
        × (busy : List BusyInterval) × (get_busy_intervals visit_date ids ≡ some busy)
        × (contains t visit_start_times ≡ true)
        × (contains t (active_times v visit_date) ≡ false)
        × (any_of (λ b. busy_intersects_slot b visit_date t) busy ≡ false))
unfolding available_slots
available_slots_iff get_busy_intervals ids v visit_date today t =
    let (allowed, may) = validate_visit_date-accepted v visit_date today in
    let decision =
      validate_visit_date visit_date today (select (λ d. d == visit_date) v.holidays)
        (select (λ d. d == visit_date) v.blocked_dates) in
    elim (Bool-cases decision.accepted) [
      | inr shut ↦
          rw (available_slots, shut)
            (
              λ e. let it : false ≡ true = e in absurd (ground arith),
              λ w. let it : true ≡ false = sym (may w.0) ∙ shut in absurd (ground arith),
            )
      | inl open_day ↦ elim (Option-cases (get_busy_intervals visit_date ids)) [
        | inl silent ↦
            rw (available_slots, open_day, silent)
              (
                λ e. let it : false ≡ true = e in absurd (ground arith),
                λ w. let it = w.2 in absurd cc,
              )
        | inr (busy, told) ↦
            let shown =
              offers-answer t visit_date (
                select
                  (λ (s : VisitSlot).
                    is_free (active_times v visit_date) busy visit_date s.start_time)
                  deterministic_visit_slots)
              ∙ select-any_of (is_free (active_times v visit_date) busy visit_date) t
                  visit_start_times in
            rw (available_slots, open_day, told, shown)
              (
                λ e. (allowed open_day, busy, refl, ground arith, ground arith, ground arith),
                λ (w, other, same, starts, no_visit, no_event).
                    let it : busy ≡ other = cc in
                    (subst
                      (λ bs.
                        (contains t visit_start_times
                          && is_free (active_times v visit_date) bs visit_date t)
                        ≡ true)
                      (sym it) (rw (starts, no_visit, no_event) refl)),
              )
      ]
    ]
