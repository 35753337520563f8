-- ===== src/Conversation/Reach.antt =====
-- What a sequence of transitions of one conversation can do.
use chat_bot_ceiba.Common.{
  some, ℕ, ◌≤◌, ◌≡◌, ◌⊎◌, refl, ap, ◌∙◌, inl, inr, Bool, true, false, not, Option, List, [], ◌∷◌,
  String, Result, ok, arith, ◌≢◌, All, subst, sym, Bool-cases, ◌++◌, length, any_of, ◌>>=◌,
  raise_if-eq-ok, >>=-eq-ok,
}
use mathlib.Core.List.{append-nil, append_assoc}
use chat_bot_ceiba.Rows.Audit.{AuditEvent, AuditValue}
use chat_bot_ceiba.Conversation.{
  ConversationState, Conversation, StateError, allowed_transitions, same_state,
  transition_conversation, state_transition, set_state, is_paused, state_text, transition_reason,
  new, closed, resolved, human_active, returned_to_bot, bot_active, waiting_for_human,
  appointment_confirmed, appointment_pending_confirmation, answering_information,
  collecting_event_data, waiting_for_appointment_date, waiting_for_appointment_selection,
  quote_request_ready,
}

-- The calls of one conversation's life, each with its target, actor, reason and the epoch that is drawn.
abbrev pub Move : Type 0
Move = ConversationState × String × Option String × String

abbrev pub run :
    List Move → Conversation → List AuditEvent → Result StateError (Conversation × List AuditEvent)
run [] c log = ok (c, log)
run ((target, actor, reason, epoch) ∷ ms) c log =
    transition_conversation c target actor reason epoch log >>= λ m. run ms m.0 m.1

abbrev pub is_new : ConversationState → Bool
is_new new = true
is_new _ = false

-- No set of targets has NEW.
new_is_no_target : (s : ConversationState) → any_of (same_state new) (allowed_transitions s) ≡ false
new_is_no_target new = refl
new_is_no_target bot_active = refl
new_is_no_target answering_information = refl
new_is_no_target collecting_event_data = refl
new_is_no_target quote_request_ready = refl
new_is_no_target waiting_for_appointment_date = refl
new_is_no_target waiting_for_appointment_selection = refl
new_is_no_target appointment_pending_confirmation = refl
new_is_no_target appointment_confirmed = refl
new_is_no_target waiting_for_human = refl
new_is_no_target human_active = refl
new_is_no_target returned_to_bot = refl
new_is_no_target resolved = refl
new_is_no_target closed = refl

target_not_new :
    (s t : ConversationState)
    → any_of (same_state t) (allowed_transitions s) ≡ true
    → is_new t ≡ false
target_not_new s new h = ground (arith, new_is_no_target s)
target_not_new s bot_active h = refl
target_not_new s answering_information h = refl
target_not_new s collecting_event_data h = refl
target_not_new s quote_request_ready h = refl
target_not_new s waiting_for_appointment_date h = refl
target_not_new s waiting_for_appointment_selection h = refl
target_not_new s appointment_pending_confirmation h = refl
target_not_new s appointment_confirmed h = refl
target_not_new s waiting_for_human h = refl
target_not_new s human_active h = refl
target_not_new s returned_to_bot h = refl
target_not_new s resolved h = refl
target_not_new s closed h = refl

pub transition-ok :
    (c : Conversation) (target : ConversationState) (actor : String) (reason : Option String)
    (epoch : String) (log : List AuditEvent) (c' : Conversation) (log' : List AuditEvent)
    → transition_conversation c target actor reason epoch log ≡ ok (c', log')
    → (c' ≡ set_state target epoch c)
      × (log' ≡ log ++ state_transition c target actor reason ∷ [])
      × (is_new target ≡ false)
unfolding transition_conversation
transition-ok c target actor reason epoch log c' log' h =
    let (fits, rest) =
      raise_if-eq-ok (not (any_of (same_state target) (allowed_transitions c.state))) _ _ h in
    (ground arith, ground arith, target_not_new c.state target (ground arith))

run-not_new :
    (ms : List Move) (c : Conversation) (log : List AuditEvent) (c' : Conversation)
    (log' : List AuditEvent)
    → is_new c.state ≡ false
    → run ms c log ≡ ok (c', log')
    → is_new c'.state ≡ false
unfolding set_state
run-not_new [] c log c' log' old h = ground arith
run-not_new ((target, actor, reason, epoch) ∷ ms) c log c' log' old h =
    let (m, done, rest) = >>=-eq-ok (transition_conversation c target actor reason epoch log) _ h in
    let one = transition-ok c target actor reason epoch log m.0 m.1 done in
    let state : m.0.state ≡ target = ap (λ (d : Conversation). d.state) one.0 in
    run-not_new ms m.0 m.1 c' log' (rw state one.2) rest

-- The state after the moves, and the events that they leave, with the states before and after each.
abbrev pub last_state : ConversationState → List Move → ConversationState
last_state old [] = old
last_state old ((target, actor, reason, epoch) ∷ ms) = last_state target ms

abbrev pub move_event :
    ℕ → ConversationState → ConversationState → String → Option String → AuditEvent
move_event k old target actor reason = record {
  actor = actor;
  action = "CONVERSATION_STATE_TRANSITION";
  entity = "conversation";
  old_value =
      some
        (("conversation_id", AuditValue.num k) ∷ ("state", AuditValue.text (state_text old)) ∷ []);
  new_value =
      some (
        ("conversation_id", AuditValue.num k)
        ∷ ("state", AuditValue.text (state_text target))
        ∷ []);
  reason = transition_reason reason old target;
}

abbrev pub events : ℕ → ConversationState → List Move → List AuditEvent
events k old [] = []
events k old ((target, actor, reason, epoch) ∷ ms) =
    move_event k old target actor reason ∷ events k target ms

-- After any sequence of transitions that is accepted, the conversation is in the last target, or where it was if there
-- was none; of the rest only the automation epoch may have changed; the trail has grown by exactly one event for each
-- transition, in their order, with its actor, its reason and the states before and after it; and the conversation is
-- not NEW if there was a transition at all.
pub run-keeps :
    (ms : List Move) (c : Conversation) (log : List AuditEvent) (c' : Conversation)
    (log' : List AuditEvent)
    → run ms c log ≡ ok (c', log')
    → (c' ≡ record c { state = last_state c.state ms; automation_epoch = c'.automation_epoch })
      × (log' ≡ log ++ events c.conversation_id c.state ms)
      × ((ms ≡ []) ⊎ (is_new c'.state ≡ false))
unfolding set_state
run-keeps [] c log c' log' h =
    let same : c ≡ c' = ground arith in
    let logs : log ≡ log' = ground arith in
    (
      subst (λ (d : Conversation). d ≡ record c { automation_epoch = d.automation_epoch }) same
          refl,
      sym logs ∙ sym (append-nil log),
      inl refl,
    )
run-keeps ((target, actor, reason, epoch) ∷ ms) c log c' log' h =
    let (m, done, rest) = >>=-eq-ok (transition_conversation c target actor reason epoch log) _ h in
    let one = transition-ok c target actor reason epoch log m.0 m.1 done in
    let (same, grown, left) = run-keeps ms m.0 m.1 c' log' rest in
    let state : m.0.state ≡ target = ap (λ (d : Conversation). d.state) one.0 in
    let ident : m.0.conversation_id ≡ c.conversation_id =
      ap (λ (d : Conversation). d.conversation_id) one.0 in
    let event = move_event c.conversation_id c.state target actor reason in
    (
      same
          ∙ ap
              (λ (d : Conversation). record d {
                state = last_state d.state ms;
                automation_epoch = c'.automation_epoch;
              })
              one.0,
      grown
          ∙ ap (λ k. m.1 ++ events k m.0.state ms) ident
          ∙ ap (λ t. m.1 ++ events c.conversation_id t ms) state
          ∙ ap (λ (l : List AuditEvent). l ++ events c.conversation_id target ms) one.1
          ∙ append_assoc log (event ∷ []) (events c.conversation_id target ms),
      inr (run-not_new ms m.0 m.1 c' log' (rw state one.2) rest),
    )

-- A move to a paused state, and moves whose drawn epochs differ from a given one.
abbrev pub pauses : Move → Bool
pauses (target, actor, reason, epoch) = is_paused target

abbrev pub IsFresh : String → Move → Type 0
IsFresh old (target, actor, reason, epoch) = epoch ≢ old

same_state_paused : (a b : ConversationState) → same_state a b ≡ true → is_paused a ≡ is_paused b
same_state_paused a b h = ground arith

set_state-other_epoch :
    (old epoch : String) (target : ConversationState) (c : Conversation)
    → c.automation_epoch ≢ old
    → epoch ≢ old
    → (set_state target epoch c).automation_epoch ≢ old
unfolding set_state
set_state-other_epoch old epoch target c other fresh = ground arith

set_state-pauses :
    (old epoch : String) (target : ConversationState) (c : Conversation)
    → is_paused c.state ≡ false
    → is_paused target ≡ true
    → (set_state target epoch c).automation_epoch ≡ epoch
unfolding set_state
set_state-pauses old epoch target c active pause = ground (arith, same_state_paused target c.state)

set_state-active :
    (epoch : String) (target : ConversationState) (c : Conversation)
    → is_paused c.state ≡ false
    → is_paused target ≡ false
    → (set_state target epoch c).automation_epoch ≡ c.automation_epoch
unfolding set_state
set_state-active epoch target c active still = ground arith

run-other_epoch :
    (old : String) (ms : List Move) (c : Conversation) (log : List AuditEvent) (c' : Conversation)
    (log' : List AuditEvent)
    → c.automation_epoch ≢ old
    → All (IsFresh old) ms
    → run ms c log ≡ ok (c', log')
    → c'.automation_epoch ≢ old
run-other_epoch old [] c log c' log' other fresh h =
    let same : c ≡ c' = ground arith in
    subst (λ (d : Conversation). d.automation_epoch ≢ old) same other
run-other_epoch old ((target, actor, reason, epoch) ∷ ms) c log c' log' other fresh h =
    let (m, done, rest) = >>=-eq-ok (transition_conversation c target actor reason epoch log) _ h in
    let one = transition-ok c target actor reason epoch log m.0 m.1 done in
    let still =
      subst (λ (d : Conversation). d.automation_epoch ≢ old) (sym one.0)
        (set_state-other_epoch old epoch target c other fresh.0) in
    run-other_epoch old ms m.0 m.1 c' log' still fresh.1 rest

run_revokes_from :
    (old : String) (ms : List Move) (c : Conversation) (log : List AuditEvent) (c' : Conversation)
    (log' : List AuditEvent)
    → is_paused c.state ≡ false
    → any_of pauses ms ≡ true
    → All (IsFresh old) ms
    → run ms c log ≡ ok (c', log')
    → c'.automation_epoch ≢ old
unfolding set_state
run_revokes_from old [] c log c' log' active pause fresh h = cc
run_revokes_from old ((target, actor, reason, epoch) ∷ ms) c log c' log' active pause fresh h =
    let (m, done, rest) = >>=-eq-ok (transition_conversation c target actor reason epoch log) _ h in
    let one = transition-ok c target actor reason epoch log m.0 m.1 done in
    elim (Bool-cases (is_paused target)) [
      | inl now ↦
          let drawn = set_state-pauses old epoch target c active now in
          run-other_epoch old ms m.0 m.1 c' log'
            (subst (λ (d : Conversation). d.automation_epoch ≢ old) (sym one.0)
              (subst (λ t. t ≢ old) (sym drawn) fresh.0))
            fresh.1 rest
      | inr later ↦
          run_revokes_from old ms m.0 m.1 c' log'
            (subst (λ (d : Conversation). is_paused d.state ≡ false) (sym one.0) later)
            (ground arith) fresh.1 rest
    ]

-- Once a conversation that was not paused has entered a paused state, no sequence of transitions gives it back
-- its automation epoch, if each epoch that is drawn differs from it.
pub run-revokes :
    (ms : List Move) (c : Conversation) (log : List AuditEvent) (c' : Conversation)
    (log' : List AuditEvent)
    → is_paused c.state ≡ false
    → any_of pauses ms ≡ true
    → All (IsFresh c.automation_epoch) ms
    → run ms c log ≡ ok (c', log')
    → c'.automation_epoch ≢ c.automation_epoch
run-revokes ms c log c' log' active pause fresh h =
    run_revokes_from c.automation_epoch ms c log c' log' active pause fresh h

-- From every state, BOT_ACTIVE can be reached by at most two transitions, whoever makes them, for whatever
-- reason and whatever epochs are drawn.
pub run-bot_active :
    (c : Conversation) (actor : String) (reason : Option String) (epoch : String)
    (log : List AuditEvent)
    → (ms : List Move) × (c' : Conversation) × (log' : List AuditEvent) × (length ms ≤ 2)
      × (run ms c log ≡ ok (c', log'))
      × (c'.state ≡ bot_active)
unfolding transition_conversation set_state
run-bot_active c actor reason epoch log = go c.state
  where
    go :
        (s : ConversationState)
        → (ms : List Move) × (c' : Conversation) × (log' : List AuditEvent) × (length ms ≤ 2)
          × (run ms (record c { state = s }) log ≡ ok (c', log'))
          × (c'.state ≡ bot_active)
    go new = ((bot_active, actor, reason, epoch) ∷ [], _, _, omega arith, refl, refl)
    go bot_active = ([], _, log, omega arith, refl, refl)
    go answering_information =
        ((bot_active, actor, reason, epoch) ∷ [], _, _, omega arith, refl, refl)
    go collecting_event_data =
        ((bot_active, actor, reason, epoch) ∷ [], _, _, omega arith, refl, refl)
    go quote_request_ready =
        ((bot_active, actor, reason, epoch) ∷ [], _, _, omega arith, refl, refl)
    go waiting_for_appointment_date =
        ((bot_active, actor, reason, epoch) ∷ [], _, _, omega arith, refl, refl)
    go waiting_for_appointment_selection =
        ((bot_active, actor, reason, epoch) ∷ [], _, _, omega arith, refl, refl)
    go appointment_pending_confirmation =
        ((bot_active, actor, reason, epoch) ∷ [], _, _, omega arith, refl, refl)
    go appointment_confirmed =
        ((bot_active, actor, reason, epoch) ∷ [], _, _, omega arith, refl, refl)
    go waiting_for_human = ((bot_active, actor, reason, epoch) ∷ [], _, _, omega arith, refl, refl)
    go human_active = (
      (returned_to_bot, actor, reason, epoch) ∷ (bot_active, actor, reason, epoch) ∷ [],
      _,
      _,
      omega arith,
      refl,
      refl,
    )
    go returned_to_bot = ((bot_active, actor, reason, epoch) ∷ [], _, _, omega arith, refl, refl)
    go resolved = ((bot_active, actor, reason, epoch) ∷ [], _, _, omega arith, refl, refl)
    go closed = ((bot_active, actor, reason, epoch) ∷ [], _, _, omega arith, refl, refl)
