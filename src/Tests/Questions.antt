-- ===== src/Tests/Questions.antt =====
-- A capture of which the budget is missing.
use chat_bot_ceiba.Common.{◌≡◌, refl, true, false, not, Option, none, some, String, any_of}
use chat_bot_ceiba.Orchestrator.SlotFilling.{
  CaptureProgress, select_next_question, pending_fields_for, minimum_quote_data_complete,
}
use chat_bot_ceiba.Orchestrator.SlotFilling.Order.{
  first_question, is_needed, select_next_question-first,
}

abbrev capture : CaptureProgress
capture = record {
  event_type = some "WEDDING";
  guest_count = none;
  guest_count_min = some 80;
  guest_count_max = some 100;
  date_resolved = true;
  full_name = some "Laura";
  full_name_needs_confirmation = false;
  budget_data_status = "NOT_ASKED";
  services_requested = false;
}

abbrev as_given : Option String → Option String
as_given t = t

asks_budget : select_next_question as_given capture ≡ some "COLLECT_BUDGET"
unfolding select_next_question
asks_budget = refl

select_next_question-first_example :
    (select_next_question as_given capture ≡ first_question (pending_fields_for as_given capture))
    × (minimum_quote_data_complete as_given capture
        ≡ not (any_of is_needed (pending_fields_for as_given capture)))
select_next_question-first_example = select_next_question-first as_given capture
