-- ===== src/Lifecycle/Trace/Authority.antt =====
-- Which decisions stand behind the states that src/awr/lifecycle/kernel.py reaches, and who can make
-- them.
use agent_work_relay.Prelude.{
  ℕ, String, ◌≡◌, refl, ◌⊎◌, Bool, true, false, ◌||◌, Option, some, List, [], ◌∷◌, ◌++◌, ok, arith,
  is_ok, contains, contains-cons_mono, or_else,
}
use agent_work_relay.Host.{Host}
use agent_work_relay.Contracts.{
  WorkStatus, planning, ready_for_execution, execution_dispatched, executing, completion_ready,
  planner_reviewing, revision_required, waiting_for_human_review, waiting_for_input, complete,
  failed,
}
use agent_work_relay.Lifecycle.Events
use agent_work_relay.Lifecycle.Events.{LifecycleEvent, is_broker_event}
use agent_work_relay.Lifecycle.Responses.{
  ResponseType, ResponsePacket, plan_completed, execution_acknowledged,
}
use agent_work_relay.Lifecycle.Transitions.{next_state, review_outcome}
use agent_work_relay.Lifecycle.Decisions.{
  DecisionType, StoredDecision, approve_plan, accept_completion, is_approve_plan,
}
use agent_work_relay.Lifecycle.Kernel.Snapshot.{LifecycleSnapshot}
use agent_work_relay.Lifecycle.Kernel.Guards.{TransitionResult, assert_decision_principal}
use agent_work_relay.Lifecycle.Kernel.Response.{response_target, response_event, response_effect}
use agent_work_relay.Lifecycle.Kernel.Broker.{broker_result}
use agent_work_relay.Lifecycle.Kernel.Decision.{apply_decision}
use agent_work_relay.Lifecycle.Kernel.Inversion.{
  apply_response_inv, apply_broker_event_inv, apply_decision_inv,
}
use agent_work_relay.Lifecycle.Trace.{
  State, Step, Reach, respond, broker, decide, here, next, initial, decision_event, after,
}

is_executor_after_effect :
    (h : Host) (status : WorkStatus) (s : LifecycleSnapshot) (packet : ResponsePacket)
    (actor x : String) (decisions : List StoredDecision) (t : ResponseType) (u : LifecycleSnapshot)
    → response_effect h status s packet actor decisions t ≡ ok u
    → contains x s.executor_principals ≡ true
    → contains x u.executor_principals ≡ true
unfolding response_effect
is_executor_after_effect h status s packet actor x decisions execution_acknowledged u e m =
    ground (arith, contains-cons_mono x (or_else packet.actor actor) s.executor_principals m)
is_executor_after_effect h status s packet actor x decisions _ u e m = ground arith

Step-executors :
    {a b : State} (x : String)
    → Step a b
    → contains x a.snapshot.executor_principals ≡ true
    → contains x b.snapshot.executor_principals ≡ true
unfolding broker_result
Step-executors {a} x (respond h packet actor expected r e) m =
    let inv = apply_response_inv h a.status a.snapshot packet actor a.decisions expected r e in
    let k =
      is_executor_after_effect h a.status a.snapshot packet actor x a.decisions packet.response_type
        inv.written inv.its_effect m in
    ground arith
Step-executors {a} x (broker h event actor message_id expected plan_id plan_sha256 r b e) m =
    ground (
      arith,
      apply_broker_event_inv h a.status a.snapshot event actor message_id a.decisions expected
          plan_id plan_sha256 r e,
    )
Step-executors {a} x (decide h d event expected r k e) m =
    ground (arith, apply_decision_inv h a.status a.snapshot event d expected r e)

Reach-executors :
    {a b : State} (x : String)
    → Reach a b
    → contains x a.snapshot.executor_principals ≡ true
    → contains x b.snapshot.executor_principals ≡ true
Reach-executors x here m = m
Reach-executors x (next r st) m = Step-executors x st (Reach-executors x r m)

-- Once somebody counts as an executor of a work order, no later decision of theirs is accepted,
-- whatever happens in between.
pub executor-never_decides :
    {a b : State} (x : String)
    → Reach a b
    → contains x a.snapshot.executor_principals ≡ true
    → (h : Host) (event : LifecycleEvent) (d : StoredDecision) (expected : Option ℕ) → d.actor ≡ x
    → is_ok (apply_decision h b.status b.snapshot event d expected) ≡ false
unfolding apply_decision assert_decision_principal
executor-never_decides {a} {b} x r m h event d expected same =
    let k = Reach-executors x r m in ground arith

-- `decision_type` is among the types of the stored decisions
unfoldable pub is_accept_completion : DecisionType → Bool
is_accept_completion accept_completion = true
is_accept_completion _ = false

abbrev pub any_type : (DecisionType → Bool) → List StoredDecision → Bool
any_type p [] = false
any_type p (d ∷ ds) = p d.decision_type || any_type p ds

any_type-append :
    (p : DecisionType → Bool) (ds : List StoredDecision) (d : StoredDecision)
    → any_type p (ds ++ d ∷ []) ≡ (any_type p ds || p d.decision_type)
any_type-append p [] d = ground arith
any_type-append p (x ∷ ds) d = ground (arith, any_type-append p ds d)

-- The states that only an approved plan leads to.
abbrev pub past_approval : WorkStatus → Bool
past_approval ready_for_execution = true
past_approval execution_dispatched = true
past_approval executing = true
past_approval completion_ready = true
past_approval planner_reviewing = true
past_approval revision_required = true
past_approval waiting_for_human_review = true
past_approval complete = true
past_approval failed = true
past_approval _ = false

-- Which decisions stand in the store, by the state of the work order.
pub record IsAuthorized (a : State) : Type 0 where
  pub approved : past_approval a.status ≡ true → any_type is_approve_plan a.decisions ≡ true
  pub resumable :
      a.status ≡ waiting_for_input
      → (a.snapshot.blocked_from ≡ some planning)
        ⊎ (a.snapshot.blocked_from ≡ some executing) × (any_type is_approve_plan a.decisions ≡ true)
  pub accepted : a.status ≡ complete → any_type is_accept_completion a.decisions ≡ true

effect-IsAuthorized :
    (h : Host) (a : State) (packet : ResponsePacket) (actor : String) (t : ResponseType)
    (event : LifecycleEvent) (target : WorkStatus) (u : LifecycleSnapshot)
    → response_event t ≡ ok event
    → response_target h a.status event packet ≡ ok target
    → response_effect h a.status a.snapshot packet actor a.decisions t ≡ ok u
    → IsAuthorized a
    → IsAuthorized (record { status = target; snapshot = u; decisions = a.decisions })
unfolding response_effect response_event response_target next_state review_outcome
effect-IsAuthorized h a packet actor plan_completed event target u ev tg ef c = ground arith
effect-IsAuthorized h a packet actor _ event target u ev tg ef c = ground arith

broker_result-IsAuthorized :
    (a : State) (message_id : String) (event : LifecycleEvent) (r : TransitionResult)
    → is_broker_event event ≡ true
    → broker_result a.status a.snapshot message_id event ≡ ok r
    → IsAuthorized a
    → IsAuthorized (after r a.decisions)
unfolding broker_result next_state
broker_result-IsAuthorized a message_id Events.question_answer r b e c = ground arith
broker_result-IsAuthorized a message_id _ r b e c = ground arith

decision-IsAuthorized :
    (a : State) (t : DecisionType) (d : StoredDecision) (event : LifecycleEvent)
    (target : WorkStatus)
    → d.decision_type ≡ t
    → decision_event t ≡ some event
    → next_state a.status event ≡ ok target
    → IsAuthorized a
    → IsAuthorized
        (record { status = target; snapshot = a.snapshot; decisions = a.decisions ++ d ∷ [] })
unfolding next_state decision_event is_accept_completion
decision-IsAuthorized a approve_plan d event target same k e c = ground (
  arith,
  any_type-append is_approve_plan a.decisions d,
  any_type-append is_accept_completion a.decisions d,
)
decision-IsAuthorized a _ d event target same k e c = ground (
  arith,
  any_type-append is_approve_plan a.decisions d,
  any_type-append is_accept_completion a.decisions d,
)

pub Step-IsAuthorized : {a b : State} → Step a b → IsAuthorized a → IsAuthorized b
Step-IsAuthorized {a} (respond h packet actor expected r e) c =
    let inv = apply_response_inv h a.status a.snapshot packet actor a.decisions expected r e in
    let k =
      effect-IsAuthorized h a packet actor packet.response_type r.event r.status inv.written
        inv.its_event inv.its_target inv.its_effect c in
    record {
      approved = k.approved;
      resumable = rw inv.its_snapshot k.resumable;
      accepted = k.accepted;
    }
Step-IsAuthorized {a} (broker h event actor message_id expected plan_id plan_sha256 r b e) c =
    broker_result-IsAuthorized a message_id event r b
      (apply_broker_event_inv h a.status a.snapshot event actor message_id a.decisions expected
        plan_id plan_sha256 r e).its_result
      c
Step-IsAuthorized {a} (decide h d event expected r k e) c =
    let inv = apply_decision_inv h a.status a.snapshot event d expected r e in
    let n = decision-IsAuthorized a d.decision_type d event r.status refl k inv.its_target c in
    record {
      approved = n.approved;
      resumable = rw inv.its_snapshot n.resumable;
      accepted = n.accepted;
    }

-- In every reachable state: what is ready for execution, dispatched, executing or further on,
-- failed included, has a stored decision that approves a plan; what waits for input and came from
-- executing has one too; and what is complete has a stored decision that accepts the completion.
pub Reach-IsAuthorized :
    (work_order_id sender recipient source_sha256 : String) {b : State}
    → Reach (initial work_order_id sender recipient source_sha256) b
    → IsAuthorized b
unfolding initial
Reach-IsAuthorized work_order_id sender recipient source_sha256 here = ground arith
Reach-IsAuthorized work_order_id sender recipient source_sha256 (next r st) =
    Step-IsAuthorized st (Reach-IsAuthorized work_order_id sender recipient source_sha256 r)
