-- ===== src/Orchestrator/SlotFilling/Order.antt =====
-- The three views of the missing data agree.
use chat_bot_ceiba.Common.{
  ◌≡◌, refl, Bool, true, false, not, ◌&&◌, ◌||◌, Option, none, some, List, [], ◌∷◌, String, text_eq,
  any_of, if◌then◌else◌,
}
use chat_bot_ceiba.Orchestrator.SlotFilling.{
  CaptureProgress, has_event_type, has_guest_count, needs_budget, is_named, append_if,
  select_next_question, pending_fields_for, minimum_quote_data_complete,
}

-- The question that asks for a field.
abbrev pub question_for : String → String
question_for field =
    if text_eq field "event_type"
    then "COLLECT_EVENT_TYPE"
    else if text_eq field "guest_count"
    then "COLLECT_GUEST_COUNT"
    else if text_eq field "event_date"
    then "COLLECT_EVENT_DATE"
    else if text_eq field "full_name"
    then "COLLECT_CUSTOMER_NAME"
    else if text_eq field "estimated_budget"
    then "COLLECT_BUDGET"
    else "COLLECT_SERVICES"

abbrev pub first_question : List String → Option String
first_question [] = none
first_question (field ∷ fields) = some (question_for field)

-- The data that a quote cannot do without.
abbrev pub is_needed : String → Bool
is_needed field =
    text_eq field "event_type"
    || text_eq field "guest_count"
    || text_eq field "event_date"
    || text_eq field "full_name"

abbrev fields : Bool → Bool → Bool → Bool → Bool → Bool → Bool → List String
fields a b c d e g h = append_if (not a) "event_type" (
    append_if (not b) "guest_count" (
      append_if (not c) "event_date" (
        append_if (not d || e) "full_name"
          (append_if g "estimated_budget" (append_if (not h) "requested_services" [])))))

-- All the combinations of the seven tests.
agreed :
    (a b c d e g h : Bool)
    → ((if not a
          then some "COLLECT_EVENT_TYPE"
          else if not b
          then some "COLLECT_GUEST_COUNT"
          else if not c
          then some "COLLECT_EVENT_DATE"
          else if not d || e
          then some "COLLECT_CUSTOMER_NAME"
          else if g
          then some "COLLECT_BUDGET"
          else if not h
          then some "COLLECT_SERVICES"
          else none)
        ≡ first_question (fields a b c d e g h))
      × ((a && b && c && d && not e) ≡ not (any_of is_needed (fields a b c d e g h)))
agreed false b c d e g h = (refl, refl)
agreed true false c d e g h = (refl, refl)
agreed true true false d e g h = (refl, refl)
agreed true true true false e g h = (refl, refl)
agreed true true true true true g h = (refl, refl)
agreed true true true true false true true = (refl, refl)
agreed true true true true false true false = (refl, refl)
agreed true true true true false false true = (refl, refl)
agreed true true true true false false false = (refl, refl)

-- Whatever the event types are normalized to: the next question asks for the first field that is still missing, and
-- nothing is asked exactly when no field is; the data for a quote are complete exactly when none of the event's
-- type, number of guests, date and name is among the missing fields.
pub select_next_question-first :
    (normalize_event_type : Option String → Option String) (p : CaptureProgress)
    → (select_next_question normalize_event_type p
        ≡ first_question (pending_fields_for normalize_event_type p))
      × (minimum_quote_data_complete normalize_event_type p
          ≡ not (any_of is_needed (pending_fields_for normalize_event_type p)))
unfolding select_next_question pending_fields_for minimum_quote_data_complete
select_next_question-first normalize_event_type p =
    agreed (has_event_type normalize_event_type p) (has_guest_count p) p.date_resolved
      (is_named p.full_name) p.full_name_needs_confirmation (needs_budget p) p.services_requested
