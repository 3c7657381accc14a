-- ===== src/Lifecycle/Trace.antt =====
-- The life of a work order as the kernel of src/awr/lifecycle/kernel.py runs it: accepted responses,
-- broker events and recorded decisions, in any order, each at its own time.
pub mod Safety
pub mod Progress
pub mod Authority
use agent_work_relay.Prelude.{ℕ, String, true, ◌≡◌, Option, none, some, List, [], ◌∷◌, ◌++◌, ok}
use agent_work_relay.Host.{Host}
use agent_work_relay.Contracts.{WorkStatus, planning}
use agent_work_relay.Lifecycle.Events
use agent_work_relay.Lifecycle.Events.{LifecycleEvent, is_broker_event}
use agent_work_relay.Lifecycle.Responses.{ResponsePacket}
use agent_work_relay.Lifecycle.Decisions.{
  DecisionType, StoredDecision, approve_plan, reject_plan, accept_completion, request_revision,
  cancel,
}
use agent_work_relay.Lifecycle.Kernel.Snapshot.{LifecycleSnapshot, derive_snapshot}
use agent_work_relay.Lifecycle.Kernel.Guards.{TransitionResult}
use agent_work_relay.Lifecycle.Kernel.Response.{apply_response}
use agent_work_relay.Lifecycle.Kernel.Broker.{apply_broker_event}
use agent_work_relay.Lifecycle.Kernel.Decision.{apply_decision}

pub record State : Type 0 where
  pub status : WorkStatus
  pub snapshot : LifecycleSnapshot
  pub decisions : List StoredDecision

-- The dictionary of `BrokerService.record_decision`; the other types are refused there.
unfoldable pub decision_event : DecisionType → Option LifecycleEvent
decision_event approve_plan = some Events.approve_plan
decision_event reject_plan = some Events.reject_plan
decision_event accept_completion = some Events.accept_completion
decision_event request_revision = some Events.request_revision
decision_event cancel = some Events.cancel
decision_event _ = none

abbrev pub after : TransitionResult → List StoredDecision → State
after r decisions = record { status = r.status; snapshot = r.snapshot; decisions = decisions }

-- The service passes only broker events to `apply_broker_event`, which does not test that itself.
pub data Step (a : State) : State → Type 0 where
  respond :
      (h : Host) (packet : ResponsePacket) (actor : String) (expected : Option ℕ)
      (r : TransitionResult)
      → apply_response h a.status a.snapshot packet actor a.decisions expected ≡ ok r
      → Step a (after r a.decisions)
  broker :
      (h : Host) (event : LifecycleEvent) (actor message_id : String) (expected : Option ℕ)
      (plan_id plan_sha256 : Option String) (r : TransitionResult)
      → is_broker_event event ≡ true
      → apply_broker_event h a.status a.snapshot event actor message_id a.decisions expected plan_id
          plan_sha256
        ≡ ok r
      → Step a (after r a.decisions)
  decide :
      (h : Host) (d : StoredDecision) (event : LifecycleEvent) (expected : Option ℕ)
      (r : TransitionResult)
      → decision_event d.decision_type ≡ some event
      → apply_decision h a.status a.snapshot event d expected ≡ ok r
      → Step a (after r (a.decisions ++ d ∷ []))

pub data Reach (a : State) : State → Type 0 where
  here : Reach a a
  next : {b c : State} → Reach a b → Step b c → Reach a c

-- A work order that has just been acknowledged by its planner.
unfoldable pub initial : String → String → String → String → State
unfolding derive_snapshot
initial work_order_id sender recipient source_sha256 = record {
  status = planning;
  snapshot = derive_snapshot work_order_id sender recipient source_sha256;
  decisions = [];
}
