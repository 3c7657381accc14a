-- ===== src/Lifecycle/Examples.antt =====
-- A work order that is planned, approved, dispatched and acknowledged, step by step, and the theorems of
-- the lifecycle at its states.
mod Runs
mod Approvals
use mathlib.Core.List.{Memᴰ}
use agent_work_relay.Prelude.{
  String, Bool, ap, ◌==◌, ◌≡◌, ◌≢◌, inl, refl, true, false, ◌+◌, Option, none, some, [], ◌∷◌, ok,
  is_ok, value_or, or_else, contains, remove_prefix, is_blank,
}
use agent_work_relay.Host.{Host, end, get, value_truthy, to_text}
use agent_work_relay.Contracts.{ready_for_execution, executing, complete, waiting_for_human_review}
use agent_work_relay.Lifecycle.Errors.{Outcome}
use agent_work_relay.Lifecycle.Events
use agent_work_relay.Lifecycle.Events.{LifecycleEvent}
use agent_work_relay.Lifecycle.Responses.{
  ResponseType, ResponsePacket, plan_completed, execution_acknowledged,
}
use agent_work_relay.Lifecycle.Transitions.{next_state, allowed_events}
use agent_work_relay.Lifecycle.Transitions.Graph.{
  has_event, allowed_events-next_state, next_state-complete,
}
use agent_work_relay.Lifecycle.Decisions.{
  StoredDecision, approve_plan, plan, decision_is_expired, is_approval_of, matches, matching,
  last_match, matching_plan_approval,
}
use agent_work_relay.Lifecycle.Approval.{
  Approves, matching_plan_approval_sound, matching_plan_approval_complete,
}
use agent_work_relay.Lifecycle.Pending.{pending_actions, event_value, event_from_value}
use agent_work_relay.Lifecycle.Pending.Permitted.{
  all_possible, event_from_value-event_value, pending_actions-allowed,
}
use agent_work_relay.Lifecycle.Kernel.Guards.{
  TransitionResult, assert_actor, assert_decision_principal, assert_version,
}
use agent_work_relay.Lifecycle.Kernel.Response.{
  response_event, response_target, response_effect, apply_response,
}
use agent_work_relay.Lifecycle.Kernel.Broker.{require_approval, broker_checks, apply_broker_event}
use agent_work_relay.Lifecycle.Kernel.Decision.{approval_checks, apply_decision}
use agent_work_relay.Lifecycle.Kernel.Authority.{
  HasApproval, dispatch-HasApproval, acknowledgement-HasApproval,
}
use agent_work_relay.Lifecycle.Trace.{
  State, Step, Reach, respond, broker, decide, here, next, initial, after, decision_event,
}
use agent_work_relay.Lifecycle.Trace.Safety.{IsConsistent, Reach-IsConsistent}
use agent_work_relay.Lifecycle.Trace.Progress.{
  Reach-Advances, stale_version-refused, steps, terminal-no_Step,
}
use agent_work_relay.Lifecycle.Trace.Authority.{
  IsAuthorized, Reach-IsAuthorized, executor-never_decides,
}
use agent_work_relay.Lifecycle.Kernel.Frame.{SameIdentity}

abbrev host : Host
host = record {
  from_iso = λ _. none;
  now = 100;
  repr = λ _. "?";
  sha256 = λ s. s;
  canonical_json = λ _. "{}";
  to_int = λ v. some v;
}

abbrev start : State
start = initial "w" "ann" "bot" "in"

abbrev no_result : State → TransitionResult
no_result a = record { status = a.status; snapshot = a.snapshot; event = Events.cancel }

abbrev packet_of : ResponseType → String → String → Option String → Option String → ResponsePacket
packet_of t parent id run digest = record {
  schema = "awr.response/v1";
  response_type = t;
  work_order_id = "w";
  in_reply_to = parent;
  idempotency_key = "k";
  source_input_sha256 = "in";
  created_at = "now";
  authority = "report_only";
  payload = end;
  evidence_refs = [];
  message_id = some id;
  correlation_id = none;
  executor_run_id = run;
  actor = none;
  content_sha256 = digest;
}

abbrev planned_packet : ResponsePacket
planned_packet = packet_of plan_completed "w" "p" none (some "sha256:d")

abbrev approval : StoredDecision
approval = record {
  decision_id = "x";
  decision_type = approve_plan;
  work_order_id = "w";
  actor = "ann";
  target_kind = plan;
  target_id = "p";
  target_sha256 = "d";
  permitted_action = "execute";
  scope = "plan";
  created_at = "";
  idempotency_key = "k";
  rationale = "fine";
  expires_at = none;
}

abbrev acknowledged_packet : ResponsePacket
acknowledged_packet = packet_of execution_acknowledged "m2" "a" (some "run") none

abbrev respond_in : State → ResponsePacket → String → Outcome TransitionResult
respond_in a packet actor = apply_response host a.status a.snapshot packet actor a.decisions none

abbrev broker_in : State → LifecycleEvent → String → Outcome TransitionResult
broker_in a event message_id =
    apply_broker_event host a.status a.snapshot event "broker:awr" message_id a.decisions none none
      none

abbrev decide_in : State → StoredDecision → LifecycleEvent → Outcome TransitionResult
decide_in a d event = apply_decision host a.status a.snapshot event d none

abbrev result_in : State → Outcome TransitionResult → TransitionResult
result_in a o = value_or (no_result a) o

abbrev planned : State
planned = after (result_in start (respond_in start planned_packet "bot")) []

abbrev requested : State
requested = after (result_in planned (broker_in planned Events.plan_approval_requested "m1")) []

abbrev approved : State
approved =
    after (result_in requested (decide_in requested approval Events.approve_plan)) (approval ∷ [])

abbrev dispatched : State
dispatched =
    after (result_in approved (broker_in approved Events.plan_execute "m2")) (approval ∷ [])

abbrev acknowledged : State
acknowledged =
    after (result_in dispatched (respond_in dispatched acknowledged_packet "bot")) (approval ∷ [])

planned-Step : Step start planned
unfolding initial apply_response assert_actor assert_version contains response_event response_target
    response_effect next_state get value_truthy to_text
planned-Step = respond host planned_packet "bot" none _ refl

requested-Step : Step planned requested
unfolding initial apply_response apply_broker_event assert_actor assert_version contains
    response_event response_target response_effect next_state get value_truthy to_text broker_checks
requested-Step =
    broker host Events.plan_approval_requested "broker:awr" "m1" none none none _ refl refl

approved-Step : Step requested approved
unfolding initial apply_response apply_broker_event apply_decision assert_actor assert_version
    assert_decision_principal contains response_event response_target response_effect next_state get
    value_truthy to_text broker_checks decision_event decision_is_expired is_blank approval_checks
    remove_prefix
approved-Step = decide host approval Events.approve_plan none _ refl refl

dispatched_accepted :
    broker_in approved Events.plan_execute "m2"
    ≡ ok (result_in approved (broker_in approved Events.plan_execute "m2"))
unfolding initial apply_response apply_broker_event apply_decision assert_actor assert_version
    assert_decision_principal contains response_event response_target response_effect next_state get
    value_truthy to_text broker_checks decision_event decision_is_expired is_blank approval_checks
    remove_prefix require_approval matching_plan_approval matching matches last_match
dispatched_accepted = refl

dispatched-Step : Step approved dispatched
dispatched-Step =
    broker host Events.plan_execute "broker:awr" "m2" none none none _ refl dispatched_accepted

acknowledged_accepted :
    respond_in dispatched acknowledged_packet "bot"
    ≡ ok (result_in dispatched (respond_in dispatched acknowledged_packet "bot"))
unfolding initial apply_response apply_broker_event apply_decision assert_actor assert_version
    assert_decision_principal contains response_event response_target response_effect next_state get
    value_truthy to_text broker_checks decision_event decision_is_expired is_blank approval_checks
    remove_prefix require_approval matching_plan_approval matching matches last_match
acknowledged_accepted = refl

acknowledged-Step : Step dispatched acknowledged
acknowledged-Step = respond host acknowledged_packet "bot" none _ acknowledged_accepted

run_of_steps : Reach start acknowledged
run_of_steps =
    next (next (next (next (next here planned-Step) requested-Step) approved-Step) dispatched-Step)
      acknowledged-Step
