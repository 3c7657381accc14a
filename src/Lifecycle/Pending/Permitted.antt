-- ===== src/Lifecycle/Pending/Permitted.antt =====
-- The actions of src/awr/lifecycle/pending.py against the table of src/awr/lifecycle/transitions.py.
use agent_work_relay.Prelude.{
  String, Bool, true, false, ◌&&◌, ◌||◌, ◌≡◌, refl, Option, none, some, List, [], ◌∷◌, ◌==◌, concat,
  if◌then◌else◌,
}
use agent_work_relay.Contracts.{WorkStatus, complete}
use agent_work_relay.Lifecycle.Events
use agent_work_relay.Lifecycle.Events.{
  LifecycleEvent, is_response_event, is_decision_event, is_broker_event, event_is, review_completed,
  question_answer,
}
use agent_work_relay.Lifecycle.Transitions.{allowed_events}
use agent_work_relay.Lifecycle.Transitions.Graph.{has_event}
use agent_work_relay.Lifecycle.Pending.{Action, pending_actions, event_value, event_from_value}

-- The event that an action names: a decision without the prefix of its value.
abbrev event_of : Action → Option LifecycleEvent
event_of a =
    event_from_value (if a.kind == "decision" then concat "decision." a.action else a.action)

abbrev is_of_kind : String → LifecycleEvent → Bool
is_of_kind kind e =
    (kind == "response" && is_response_event e)
    || (kind == "decision" && is_decision_event e)
    || (kind == "broker_event" && is_broker_event e)

abbrev is_possible : WorkStatus → Action → Option LifecycleEvent → Bool
is_possible s a none = false
is_possible s a (some e) = is_of_kind a.kind e && has_event e (allowed_events s)

abbrev pub all_possible : WorkStatus → List Action → Bool
all_possible s [] = true
all_possible s (a ∷ rest) = is_possible s a (event_of a) && all_possible s rest

-- The text of an event reads back as that event.
pub event_from_value-event_value : (e : LifecycleEvent) → event_from_value (event_value e) ≡ some e
unfolding event_from_value event_value
event_from_value-event_value Events.plan_completed = refl
event_from_value-event_value _ = refl

-- Each action that is offered in a state names an event of the kind that it says, and the table allows
-- that event in that state.
pub pending_actions-allowed : (s : WorkStatus) → all_possible s (pending_actions s) ≡ true
unfolding pending_actions allowed_events event_from_value
pending_actions-allowed complete = refl
pending_actions-allowed _ = refl
