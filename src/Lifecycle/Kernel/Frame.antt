-- ===== src/Lifecycle/Kernel/Frame.antt =====
-- What every accepted step of src/awr/lifecycle/kernel.py does to the version and to the identity of
-- a work order.
use agent_work_relay.Prelude.{ℕ, ◌+◌, String, ◌≡◌, Option, List, ok, arith}
use agent_work_relay.Host.{Host}
use agent_work_relay.Contracts.{WorkStatus}
use agent_work_relay.Lifecycle.Events.{LifecycleEvent}
use agent_work_relay.Lifecycle.Responses.{ResponseType, ResponsePacket}
use agent_work_relay.Lifecycle.Decisions.{StoredDecision}
use agent_work_relay.Lifecycle.Kernel.Snapshot.{LifecycleSnapshot}
use agent_work_relay.Lifecycle.Kernel.Guards.{TransitionResult}
use agent_work_relay.Lifecycle.Kernel.Response.{response_effect, apply_response}
use agent_work_relay.Lifecycle.Kernel.Broker.{apply_broker_event}
use agent_work_relay.Lifecycle.Kernel.Decision.{apply_decision}

-- What a step never changes.
pub record SameIdentity (s t : LifecycleSnapshot) : Type 0 where
  pub work_order : t.work_order_id ≡ s.work_order_id
  pub source : t.source_input_sha256 ≡ s.source_input_sha256
  pub participants : t.participants ≡ s.participants
  pub deciders : t.decision_principals ≡ s.decision_principals

pub record Advances (s t : LifecycleSnapshot) : Type 0 where
  pub identity : SameIdentity s t
  pub version : t.version ≡ s.version + 1

effect-SameIdentity :
    (h : Host) (status : WorkStatus) (s : LifecycleSnapshot) (packet : ResponsePacket)
    (actor : String) (decisions : List StoredDecision) (t : ResponseType) (u : LifecycleSnapshot)
    → response_effect h status s packet actor decisions t ≡ ok u
    → SameIdentity s u
unfolding response_effect
effect-SameIdentity h status s packet actor decisions t u e = ground arith

pub apply_response-Advances :
    (h : Host) (status : WorkStatus) (s : LifecycleSnapshot) (packet : ResponsePacket)
    (actor : String) (decisions : List StoredDecision) (expected : Option ℕ) {r : TransitionResult}
    → apply_response h status s packet actor decisions expected ≡ ok r
    → Advances s r.snapshot
unfolding apply_response
apply_response-Advances h status s packet actor decisions expected e =
    grind (arith, effect-SameIdentity)

pub apply_broker_event-Advances :
    (h : Host) (status : WorkStatus) (s : LifecycleSnapshot) (event : LifecycleEvent)
    (actor message_id : String) (decisions : List StoredDecision) (expected : Option ℕ)
    (plan_id plan_sha256 : Option String) {r : TransitionResult}
    → apply_broker_event h status s event actor message_id decisions expected plan_id plan_sha256
      ≡ ok r
    → Advances s r.snapshot
unfolding apply_broker_event
apply_broker_event-Advances h status s event actor message_id decisions expected plan_id plan_sha256
      e =
    ground arith

pub apply_decision-Advances :
    (h : Host) (status : WorkStatus) (s : LifecycleSnapshot) (event : LifecycleEvent)
    (d : StoredDecision) (expected : Option ℕ) {r : TransitionResult}
    → apply_decision h status s event d expected ≡ ok r
    → Advances s r.snapshot
unfolding apply_decision
apply_decision-Advances h status s event d expected e = ground arith
