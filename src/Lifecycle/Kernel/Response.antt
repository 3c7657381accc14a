-- ===== src/Lifecycle/Kernel/Response.antt =====
-- src/awr/lifecycle/kernel.py: `apply_response` and `_response_target`.
use agent_work_relay.Prelude.{
  ℕ, String, Bool, true, not, ◌&&◌, Option, none, some, List, ◌∷◌, ◌==◌, ok, err, ◌>>=◌, ◌>>◌,
  require, reject, truthy, or_else, option_eq, if◌then◌else◌,
}
use agent_work_relay.Host.{Host, get, value_truthy, value_eq, to_text}
use agent_work_relay.Contracts.{WorkStatus, terminal}
use agent_work_relay.Lifecycle.Errors.{Outcome, transition_error, authority_error, lineage_error}
use agent_work_relay.Lifecycle.Events
use agent_work_relay.Lifecycle.Events.{LifecycleEvent}
use agent_work_relay.Lifecycle.Transitions.{next_state, review_outcome}
use agent_work_relay.Lifecycle.Responses.{
  ResponseType, ResponsePacket, receipt_accepted, plan_completed, question_blocked,
  execution_acknowledged, execution_progress, execution_completed, execution_failed,
  review_completed,
}
use agent_work_relay.Lifecycle.Decisions.{StoredDecision, matching_plan_approval}
use agent_work_relay.Lifecycle.Kernel.Snapshot.{LifecycleSnapshot}
use agent_work_relay.Lifecycle.Kernel.Guards.{
  TransitionResult, assert_actor, assert_version, advance,
}

-- `_RESPONSE_EVENT.get(packet.response_type)`, with the error for a type that has no event
unfoldable pub response_event : ResponseType → Outcome LifecycleEvent
response_event receipt_accepted = err transition_error
response_event plan_completed = ok Events.plan_completed
response_event question_blocked = ok Events.question_blocked
response_event execution_acknowledged = ok Events.execution_acknowledged
response_event execution_progress = ok Events.execution_progress
response_event execution_completed = ok Events.execution_completed
response_event execution_failed = ok Events.execution_failed
response_event review_completed = ok Events.review_completed

abbrev or_unknown_outcome : Option WorkStatus → Outcome WorkStatus
or_unknown_outcome none = err transition_error
or_unknown_outcome (some s) = ok s

target_of_event : Host → WorkStatus → LifecycleEvent → ResponsePacket → Outcome WorkStatus
target_of_event h status Events.review_completed packet = do
  checked ← next_state status Events.review_completed
  or_unknown_outcome (review_outcome (to_text h (get packet.payload "outcome")))
target_of_event h status event packet = next_state status event

unfoldable pub response_target :
    Host → WorkStatus → LifecycleEvent → ResponsePacket → Outcome WorkStatus
unfolding target_of_event
response_target h status event packet = do
  reject (terminal status) transition_error
  target_of_event h status event packet

-- `str(o)`
abbrev text_or_none : Option String → String
text_or_none none = "None"
text_or_none (some s) = s

-- `str(packet.payload.get("plan_id") or packet.message_id or packet.content_sha256)`
abbrev reported_plan_id : Host → ResponsePacket → String
reported_plan_id h packet =
    let given = get packet.payload "plan_id" in
    if value_truthy given
    then to_text h given
    else or_else packet.message_id (text_or_none packet.content_sha256)

-- `packet.executor_run_id or packet.payload.get("executor_run_id")` equals the bound run
abbrev is_bound_run : ResponsePacket → Option String → Bool
is_bound_run packet bound =
    if truthy packet.executor_run_id
    then option_eq packet.executor_run_id bound
    else value_eq (get packet.payload "executor_run_id") bound

abbrev run_checks : LifecycleSnapshot → ResponsePacket → Outcome LifecycleSnapshot
run_checks s packet = do
  require s.execution_acknowledged lineage_error
  require (is_bound_run packet s.bound_run_id) lineage_error
  ok s

-- What a response of each type checks and writes besides the common part.
unfoldable pub response_effect :
    Host
    → WorkStatus
    → LifecycleSnapshot
    → ResponsePacket
    → String
    → List StoredDecision
    → ResponseType
    → Outcome LifecycleSnapshot
response_effect h status s packet actor decisions receipt_accepted = ok s
response_effect h status s packet actor decisions plan_completed =
    ok
      (record s { plan_id = some (reported_plan_id h packet); plan_sha256 = packet.content_sha256 })
response_effect h status s packet actor decisions execution_acknowledged = do
  approval ← matching_plan_approval h decisions (or_else s.plan_id "") (or_else s.plan_sha256 "")
  let run = or_else packet.executor_run_id (to_text h (get packet.payload "executor_run_id"))
  let agent = or_else packet.actor actor
  ok (record s {
    execution_acknowledged = true;
    bound_run_id = some run;
    bound_agent_id = some agent;
    executor_principals = agent ∷ s.executor_principals;
  })
response_effect h status s packet actor decisions execution_progress = run_checks s packet
response_effect h status s packet actor decisions execution_completed = run_checks s packet
response_effect h status s packet actor decisions execution_failed = run_checks s packet
response_effect h status s packet actor decisions question_blocked =
    ok (record s { blocked_from = some status })
response_effect h status s packet actor decisions review_completed =
    ok (record s { latest_review_outcome = some (to_text h (get packet.payload "outcome")) })

unfoldable pub apply_response :
    Host
    → WorkStatus
    → LifecycleSnapshot
    → ResponsePacket
    → String
    → List StoredDecision
    → Option ℕ
    → Outcome TransitionResult
apply_response h status s packet actor decisions expected_version = do
  assert_actor actor s
  assert_version s expected_version
  require (packet.work_order_id == s.work_order_id) lineage_error
  require (packet.in_reply_to == s.current_parent_id) lineage_error
  require (packet.source_input_sha256 == s.source_input_sha256) lineage_error
  reject (truthy packet.actor && not (option_eq packet.actor (some actor))) authority_error
  event ← response_event packet.response_type
  target ← response_target h status event packet
  updated ← response_effect h status s packet actor decisions packet.response_type
  let parent = or_else packet.message_id (or_else packet.content_sha256 s.current_parent_id)
  ok (record { status = target; snapshot = advance s updated parent; event = event })
