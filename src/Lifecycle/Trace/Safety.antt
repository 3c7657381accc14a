-- ===== src/Lifecycle/Trace/Safety.antt =====
-- What holds of every work order that src/awr/lifecycle/kernel.py can reach.
use agent_work_relay.Prelude.{
  ℕ, ◌+◌, String, ◌≡◌, ◌≢◌, ◌⊎◌, Bool, true, false, sym, subst, Option, none, some, List, ok, arith,
}
use agent_work_relay.Host.{Host}
use agent_work_relay.Contracts.{
  WorkStatus, planning, executing, completion_ready, planner_reviewing, revision_required,
  waiting_for_human_review, waiting_for_input, complete, failed, cancelled,
}
use agent_work_relay.Lifecycle.Events.{
  LifecycleEvent, question_answer, cancel, is_decision_event, is_broker_event,
}
use agent_work_relay.Lifecycle.Responses.{ResponseType, ResponsePacket, plan_completed}
use agent_work_relay.Lifecycle.Transitions.{next_state, review_outcome}
use agent_work_relay.Lifecycle.Decisions.{StoredDecision}
use agent_work_relay.Lifecycle.Kernel.Snapshot.{LifecycleSnapshot}
use agent_work_relay.Lifecycle.Kernel.Guards.{TransitionResult}
use agent_work_relay.Lifecycle.Kernel.Response.{
  response_effect, response_event, response_target, apply_response,
}
use agent_work_relay.Lifecycle.Kernel.Broker.{broker_result}
use agent_work_relay.Lifecycle.Kernel.Inversion.{
  apply_response_inv, apply_broker_event_inv, apply_decision_inv,
}
use agent_work_relay.Lifecycle.Trace.{
  State, Step, Reach, respond, broker, decide, here, next, initial,
}

-- The states that only an acknowledged execution leads to.
abbrev pub past_acknowledgement : WorkStatus → Bool
past_acknowledgement executing = true
past_acknowledgement completion_ready = true
past_acknowledgement planner_reviewing = true
past_acknowledgement waiting_for_human_review = true
past_acknowledgement revision_required = true
past_acknowledgement complete = true
past_acknowledgement failed = true
past_acknowledgement _ = false

-- What a snapshot shows in each state.
pub record IsConsistent (status : WorkStatus) (s : LifecycleSnapshot) : Type 0 where
  pub acknowledged : past_acknowledgement status ≡ true → s.execution_acknowledged ≡ true
  pub bound : s.execution_acknowledged ≡ true → s.bound_run_id ≢ none
  pub origin :
      status ≡ waiting_for_input
      → (s.blocked_from ≡ some planning)
        ⊎ (s.blocked_from ≡ some executing) × (s.execution_acknowledged ≡ true)
  pub blocked : s.blocked_from ≢ none → (status ≡ waiting_for_input) ⊎ (status ≡ cancelled)

module _ (h : Host) (status : WorkStatus) (s : LifecycleSnapshot) (packet : ResponsePacket)
    (actor : String) (decisions : List StoredDecision) where
  effect-IsConsistent :
      (t : ResponseType) (event : LifecycleEvent) (target : WorkStatus) (u : LifecycleSnapshot)
      → response_event t ≡ ok event
      → response_target h status event packet ≡ ok target
      → response_effect h status s packet actor decisions t ≡ ok u
      → IsConsistent status s
      → IsConsistent target u
  unfolding response_effect response_event response_target next_state review_outcome
  effect-IsConsistent plan_completed event target u ev tg ef c = ground arith
  effect-IsConsistent _ event target u ev tg ef c = ground arith

pub response-IsConsistent :
    (h : Host) (status : WorkStatus) (s : LifecycleSnapshot) (packet : ResponsePacket)
    (actor : String) (decisions : List StoredDecision) (expected : Option ℕ) (r : TransitionResult)
    → apply_response h status s packet actor decisions expected ≡ ok r
    → IsConsistent status s
    → IsConsistent r.status r.snapshot
response-IsConsistent h status s packet actor decisions expected r e c =
    let a = apply_response_inv h status s packet actor decisions expected r e in
    let k =
      effect-IsConsistent h status s packet actor decisions packet.response_type r.event r.status
        a.written a.its_event a.its_target a.its_effect c in
    ground arith

broker_result-IsConsistent :
    (status : WorkStatus) (s : LifecycleSnapshot) (message_id : String) (event : LifecycleEvent)
    (r : TransitionResult)
    → is_broker_event event ≡ true
    → broker_result status s message_id event ≡ ok r
    → IsConsistent status s
    → IsConsistent r.status r.snapshot
unfolding broker_result next_state
broker_result-IsConsistent status s message_id question_answer r b e c = ground arith
broker_result-IsConsistent status s message_id _ r b e c = ground arith

decision-IsConsistent :
    (status target : WorkStatus) (s : LifecycleSnapshot) (event : LifecycleEvent)
    → is_decision_event event ≡ true
    → next_state status event ≡ ok target
    → IsConsistent status s
    → IsConsistent target (record s { version = s.version + 1 })
unfolding next_state
decision-IsConsistent status target s cancel d e c = ground arith
decision-IsConsistent status target s _ d e c = ground arith

pub Step-IsConsistent :
    {a b : State} → Step a b → IsConsistent a.status a.snapshot → IsConsistent b.status b.snapshot
Step-IsConsistent {a} (respond h packet actor expected r e) c =
    response-IsConsistent h a.status a.snapshot packet actor a.decisions expected r e c
Step-IsConsistent {a} (broker h event actor message_id expected plan_id plan_sha256 r b e) c =
    let inv =
      apply_broker_event_inv h a.status a.snapshot event actor message_id a.decisions expected
        plan_id plan_sha256 r e in
    broker_result-IsConsistent a.status a.snapshot message_id event r b inv.its_result c
Step-IsConsistent {a} (decide h d event expected r k e) c =
    let inv = apply_decision_inv h a.status a.snapshot event d expected r e in
    let next =
      decision-IsConsistent a.status r.status a.snapshot event inv.decides inv.its_target c in
    subst (IsConsistent r.status) (sym inv.its_snapshot) next

-- In every reachable state: past the acknowledgement of an execution the snapshot records it and
-- binds a provider run; a work order that waits for input remembers that it came from planning or
-- from an acknowledged execution; and an origin is remembered only while it waits, or once it has
-- been cancelled.
pub Reach-IsConsistent :
    (work_order_id sender recipient source_sha256 : String) {b : State}
    → Reach (initial work_order_id sender recipient source_sha256) b
    → IsConsistent b.status b.snapshot
unfolding initial
Reach-IsConsistent work_order_id sender recipient source_sha256 here = ground arith
Reach-IsConsistent work_order_id sender recipient source_sha256 (next r st) =
    Step-IsConsistent st (Reach-IsConsistent work_order_id sender recipient source_sha256 r)
