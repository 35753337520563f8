-- ===== src/Orchestrator/SlotFilling.antt =====
-- app/orchestrator/slot_filling.py: which data of an event are still missing, and the question that asks for the next.
-- `normalize_event_type` of app/event/event_type.py is an argument.
pub mod Order
use chat_bot_ceiba.Common.{
  ℕ, Bool, true, false, not, ◌&&◌, ◌||◌, Option, none, some, List, [], ◌∷◌, String, is_some,
  text_eq, any_of, is_empty_text, if◌then◌else◌,
}

-- `FIXED_PRICE_EVENT_TYPES` of app/conversation/catalog_event_type.py
abbrev pub fixed_price_event_types : List String
fixed_price_event_types = "ROMANTIC_DINNER" ∷ "PROPOSAL" ∷ []

pub record CaptureProgress : Type 0 where
  pub event_type : Option String
  pub guest_count : Option ℕ
  pub guest_count_min : Option ℕ
  pub guest_count_max : Option ℕ
  pub date_resolved : Bool
  pub full_name : Option String
  pub full_name_needs_confirmation : Bool
  pub budget_data_status : String
  pub services_requested : Bool

abbrev pub has_guest_count : CaptureProgress → Bool
has_guest_count p =
    is_some p.guest_count || (is_some p.guest_count_min && is_some p.guest_count_max)

abbrev pub has_event_type : (Option String → Option String) → CaptureProgress → Bool
has_event_type normalize_event_type p = is_some (normalize_event_type p.event_type)

abbrev pub is_fixed_price : Option String → Bool
is_fixed_price none = false
is_fixed_price (some t) = any_of (text_eq t) fixed_price_event_types

abbrev pub needs_budget : CaptureProgress → Bool
needs_budget p =
    not (is_fixed_price p.event_type)
    && (text_eq p.budget_data_status "NOT_ASKED" || text_eq p.budget_data_status "ASKED_PENDING")

-- The truth value of a name.
abbrev pub is_named : Option String → Bool
is_named none = false
is_named (some n) = not (is_empty_text n)

unfoldable pub select_next_question :
    (Option String → Option String) → CaptureProgress → Option String
select_next_question normalize_event_type p =
    if not (has_event_type normalize_event_type p)
    then some "COLLECT_EVENT_TYPE"
    else if not (has_guest_count p)
    then some "COLLECT_GUEST_COUNT"
    else if not p.date_resolved
    then some "COLLECT_EVENT_DATE"
    else if not (is_named p.full_name) || p.full_name_needs_confirmation
    then some "COLLECT_CUSTOMER_NAME"
    else if needs_budget p
    then some "COLLECT_BUDGET"
    else if not p.services_requested
    then some "COLLECT_SERVICES"
    else none

-- One `if … : pending.append(…)`, before the rest.
abbrev pub append_if : Bool → String → List String → List String
append_if missing field rest = if missing then field ∷ rest else rest

unfoldable pub pending_fields_for : (Option String → Option String) → CaptureProgress → List String
pending_fields_for normalize_event_type p =
    append_if (not (has_event_type normalize_event_type p)) "event_type" (
      append_if (not (has_guest_count p)) "guest_count" (
        append_if (not p.date_resolved) "event_date" (
          append_if (not (is_named p.full_name) || p.full_name_needs_confirmation) "full_name" (
            append_if (needs_budget p) "estimated_budget"
              (append_if (not p.services_requested) "requested_services" [])))))

unfoldable pub minimum_quote_data_complete :
    (Option String → Option String) → CaptureProgress → Bool
minimum_quote_data_complete normalize_event_type p =
    has_event_type normalize_event_type p
    && has_guest_count p
    && p.date_resolved
    && is_named p.full_name
    && not p.full_name_needs_confirmation
