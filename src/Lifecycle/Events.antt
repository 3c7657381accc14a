-- ===== src/Lifecycle/Events.antt =====
-- src/awr/lifecycle/events.py
use agent_work_relay.Prelude.{ℕ, Bool, true, false, nat_eq}

pub data LifecycleEvent : Type 0 where
  plan_completed plan_approval_requested approve_plan reject_plan : LifecycleEvent
  plan_execute execution_acknowledged execution_progress execution_completed : LifecycleEvent
  execution_failed completion_review review_completed accept_completion : LifecycleEvent
  request_revision implementation_refine question_blocked question_answer : LifecycleEvent
  cancel : LifecycleEvent

-- The place of an event in the enumeration.
abbrev pub rank : LifecycleEvent → ℕ
rank plan_completed = 0
rank plan_approval_requested = 1
rank approve_plan = 2
rank reject_plan = 3
rank plan_execute = 4
rank execution_acknowledged = 5
rank execution_progress = 6
rank execution_completed = 7
rank execution_failed = 8
rank completion_review = 9
rank review_completed = 10
rank accept_completion = 11
rank request_revision = 12
rank implementation_refine = 13
rank question_blocked = 14
rank question_answer = 15
rank cancel = 16

-- `a is b`
abbrev pub event_is : LifecycleEvent → LifecycleEvent → Bool
event_is a b = nat_eq (rank a) (rank b)

-- `event in RESPONSE_EVENTS`
abbrev pub is_response_event : LifecycleEvent → Bool
is_response_event plan_completed = true
is_response_event question_blocked = true
is_response_event execution_acknowledged = true
is_response_event execution_progress = true
is_response_event execution_completed = true
is_response_event execution_failed = true
is_response_event review_completed = true
is_response_event _ = false

-- `event in DECISION_EVENTS`
abbrev pub is_decision_event : LifecycleEvent → Bool
is_decision_event approve_plan = true
is_decision_event reject_plan = true
is_decision_event accept_completion = true
is_decision_event request_revision = true
is_decision_event cancel = true
is_decision_event _ = false

-- `event in BROKER_EVENTS`
abbrev pub is_broker_event : LifecycleEvent → Bool
is_broker_event plan_approval_requested = true
is_broker_event plan_execute = true
is_broker_event completion_review = true
is_broker_event implementation_refine = true
is_broker_event question_answer = true
is_broker_event _ = false
