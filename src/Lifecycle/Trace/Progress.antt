-- ===== src/Lifecycle/Trace/Progress.antt =====
-- How the version of a work order moves, and where its life ends (src/awr/lifecycle/kernel.py).
use agent_work_relay.Prelude.{ℕ, suc, ◌+◌, String, ◌≡◌, true, false, Option, some, arith, is_ok}
use agent_work_relay.Host.{Host}
use agent_work_relay.Contracts.{WorkStatus, terminal}
use agent_work_relay.Lifecycle.Events.{LifecycleEvent, question_answer}
use agent_work_relay.Lifecycle.Responses.{ResponsePacket}
use agent_work_relay.Lifecycle.Transitions.Graph.{next_state-terminal}
use agent_work_relay.Lifecycle.Decisions.{StoredDecision}
use agent_work_relay.Lifecycle.Kernel.Snapshot.{LifecycleSnapshot}
use agent_work_relay.Lifecycle.Kernel.Guards.{assert_version}
use agent_work_relay.Lifecycle.Kernel.Response.{response_target, apply_response}
use agent_work_relay.Lifecycle.Kernel.Broker.{broker_result, apply_broker_event}
use agent_work_relay.Lifecycle.Kernel.Decision.{apply_decision}
use agent_work_relay.Lifecycle.Kernel.Inversion.{
  apply_response_inv, apply_broker_event_inv, apply_decision_inv,
}
use agent_work_relay.Lifecycle.Kernel.Frame.{
  SameIdentity, Advances, apply_response-Advances, apply_broker_event-Advances,
  apply_decision-Advances,
}
use agent_work_relay.Lifecycle.Trace.{State, Step, Reach, respond, broker, decide, here, next}

pub Step-Advances : {a b : State} → Step a b → Advances a.snapshot b.snapshot
Step-Advances {a} (respond h packet actor expected r e) =
    apply_response-Advances h a.status a.snapshot packet actor a.decisions expected e
Step-Advances {a} (broker h event actor message_id expected plan_id plan_sha256 r b e) =
    apply_broker_event-Advances h a.status a.snapshot event actor message_id a.decisions expected
      plan_id plan_sha256 e
Step-Advances {a} (decide h d event expected r k e) =
    apply_decision-Advances h a.status a.snapshot event d expected e

pub steps : {a b : State} → Reach a b → ℕ
steps here = 0
steps (next r st) = suc (steps r)

-- Along every run the version grows by exactly one for each accepted step, and the work order, the
-- digest of its input, its participants and its decision principals stay what they were.
pub Reach-Advances :
    {a b : State} (r : Reach a b)
    → SameIdentity a.snapshot b.snapshot × (b.snapshot.version ≡ a.snapshot.version + steps r)
unfolding steps
Reach-Advances here = ground arith
Reach-Advances (next r st) = ground (arith, Reach-Advances r, Step-Advances st)

-- Who has read the version before an accepted step, and acts on it after that step and any further
-- ones, is refused, whether by a response, by a broker event or by a decision.
pub stale_version-refused :
    {a b c : State} (st : Step a b) (r : Reach b c) (h : Host) (packet : ResponsePacket)
    (actor message_id : String) (event : LifecycleEvent) (plan_id plan_sha256 : Option String)
    (d : StoredDecision)
    → (is_ok
          (apply_response h c.status c.snapshot packet actor c.decisions (some a.snapshot.version))
        ≡ false)
      × (is_ok (
            apply_broker_event h c.status c.snapshot event actor message_id c.decisions
              (some a.snapshot.version)
              plan_id
              plan_sha256)
          ≡ false)
      × (is_ok (apply_decision h c.status c.snapshot event d (some a.snapshot.version)) ≡ false)
unfolding apply_response apply_broker_event apply_decision assert_version
stale_version-refused {a} {b} {c} st r h packet actor message_id event plan_id plan_sha256 d =
    let first = (Step-Advances st).version in
    let later : c.snapshot.version ≡ b.snapshot.version + steps r = (Reach-Advances r).1 in
    (ground arith, ground arith, ground arith)

broker_result-terminal :
    (status : WorkStatus) (s : LifecycleSnapshot) (message_id : String) (event : LifecycleEvent)
    → terminal status ≡ true
    → is_ok (broker_result status s message_id event) ≡ false
unfolding broker_result
broker_result-terminal status s message_id question_answer t =
    ground (arith, next_state-terminal status question_answer t)
broker_result-terminal status s message_id event t =
    ground (arith, next_state-terminal status event t)

-- No accepted step leaves a completed, failed or cancelled work order.
pub terminal-no_Step : {a b : State} → terminal a.status ≡ true → ¬ Step a b
unfolding response_target
terminal-no_Step {a} t (respond h packet actor expected r e) =
    ground (arith, apply_response_inv h a.status a.snapshot packet actor a.decisions expected r e)
terminal-no_Step {a} t (broker h event actor message_id expected plan_id plan_sha256 r b e) =
    ground (
      arith,
      broker_result-terminal a.status a.snapshot message_id event t,
      apply_broker_event_inv h a.status a.snapshot event actor message_id a.decisions expected
          plan_id plan_sha256 r e,
    )
terminal-no_Step {a} t (decide h d event expected r k e) = ground (
  arith,
  next_state-terminal a.status event t,
  apply_decision_inv h a.status a.snapshot event d expected r e,
)
