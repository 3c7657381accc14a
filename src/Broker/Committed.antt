-- ===== src/Broker/Committed.antt =====
-- The principals in the snapshots of src/awr/lifecycle/kernel.py, and the views that a committed
-- transaction of src/awr/service.py leaves.
use agent_work_relay.Prelude.{
  ℕ, String, ◌≡◌, ◌≢◌, inl, inr, refl, true, Option, some, List, ok, arith, option_cases,
}
use agent_work_relay.Host.{Host}
use agent_work_relay.Contracts.{WorkStatus, WorkOrder}
use agent_work_relay.Lifecycle.Events.{LifecycleEvent}
use agent_work_relay.Lifecycle.Decisions.{StoredDecision}
use agent_work_relay.Lifecycle.Responses.{ResponsePacket, ResponseType}
use agent_work_relay.Lifecycle.Kernel.Snapshot.{LifecycleSnapshot}
use agent_work_relay.Lifecycle.Kernel.Guards.{TransitionResult}
use agent_work_relay.Lifecycle.Kernel.Response.{response_effect, apply_response}
use agent_work_relay.Lifecycle.Kernel.Broker.{apply_broker_event}
use agent_work_relay.Lifecycle.Kernel.Decision.{apply_decision}
use agent_work_relay.Lifecycle.Kernel.Inversion.{apply_response_inv}
use agent_work_relay.Broker.Records.{Db}
use agent_work_relay.Broker.Store.{find_order, find_snapshot}
use agent_work_relay.Broker.Decisions.{list_decisions, read_decisions}
use agent_work_relay.Broker.Service.{snapshot_from_session}
use agent_work_relay.Broker.View.{
  view, find_order-id, find_order-set_status, find_order-set_other, find_snapshot-put,
  find_snapshot-put_other, is_filled, stored_or_derived-same,
}
use agent_work_relay.Broker.Commits.{Commits}

effect-is_filled :
    (h : Host) (status : WorkStatus) (s : LifecycleSnapshot) (packet : ResponsePacket)
    (actor : String) (decisions : List StoredDecision) (t : ResponseType) (u : LifecycleSnapshot)
    → is_filled s ≡ true
    → response_effect h status s packet actor decisions t ≡ ok u
    → is_filled u ≡ true
unfolding response_effect
effect-is_filled h status s packet actor decisions t u filled e = ground arith

pub response-is_filled :
    (h : Host) (status : WorkStatus) (s : LifecycleSnapshot) (packet : ResponsePacket)
    (actor : String) (decisions : List StoredDecision) (expected : Option ℕ) (r : TransitionResult)
    → is_filled s ≡ true
    → apply_response h status s packet actor decisions expected ≡ ok r
    → is_filled r.snapshot ≡ true
response-is_filled h status s packet actor decisions expected r filled e =
    let inv = apply_response_inv h status s packet actor decisions expected r e in
    let kept = effect-is_filled h status s packet actor decisions _ _ filled inv.its_effect in
    rw inv.its_snapshot kept

pub broker-is_filled :
    (h : Host) (status : WorkStatus) (s : LifecycleSnapshot) (event : LifecycleEvent)
    (actor message_id : String) (decisions : List StoredDecision) (expected : Option ℕ)
    (plan_id plan_sha256 : Option String) (r : TransitionResult)
    → is_filled s ≡ true
    → apply_broker_event h status s event actor message_id decisions expected plan_id plan_sha256
      ≡ ok r
    → is_filled r.snapshot ≡ true
unfolding apply_broker_event
broker-is_filled h status s event actor message_id decisions expected plan_id plan_sha256 r filled
      e =
    ground arith

pub decision-is_filled :
    (h : Host) (status : WorkStatus) (s : LifecycleSnapshot) (event : LifecycleEvent)
    (d : StoredDecision) (expected : Option ℕ) (r : TransitionResult)
    → is_filled s ≡ true
    → apply_decision h status s event d expected ≡ ok r
    → is_filled r.snapshot ≡ true
unfolding apply_decision
decision-is_filled h status s event d expected r filled e = ground arith

-- A committed step leaves the work order in the state that was written.
pub Commits-view :
    (id : String) (status : WorkStatus) (s : LifecycleSnapshot) (db db' : Db) {o : WorkOrder}
    → Commits id status s db db'
    → is_filled s ≡ true
    → find_order id db.orders ≡ some o
    → view id db'
      ≡ some (record {
        status = status;
        snapshot = s;
        decisions = read_decisions (list_decisions id db');
      })
unfolding view snapshot_from_session
Commits-view id status s db db' {o} written filled found =
    let named = find_order-id id db.orders found in
    let here : find_order id db'.orders ≡ some (record o { status = status }) =
      rw written.orders (find_order-set_status id status db.orders found) in
    let snapshot : find_snapshot o.work_order_id db'.snapshots ≡ some s =
      rw (named, written.snapshots) (find_snapshot-put id s db.snapshots) in
    rw (here, snapshot, stored_or_derived-same (record o { status = status }) s filled, named) refl

-- A committed step leaves every other work order as it was.
pub Commits-view_other :
    (id other : String) (status : WorkStatus) (s : LifecycleSnapshot) (db db' : Db)
    → Commits id status s db db'
    → other ≢ id
    → list_decisions other db' ≡ list_decisions other db
    → view other db' ≡ view other db
unfolding view snapshot_from_session
Commits-view_other id other status s db db' written n same_decisions =
    let here : find_order other db'.orders ≡ find_order other db.orders =
      rw written.orders (find_order-set_other id other status db.orders n) in
    elim (option_cases (find_order other db.orders)) [
      | inl none_there ↦ rw (here, none_there) refl
      | inr found ↦
          let (o, there) = found in
          let named = find_order-id other db.orders there in
          let snapshot : find_snapshot other db'.snapshots ≡ find_snapshot other db.snapshots =
            rw written.snapshots (find_snapshot-put_other id other s db.snapshots n) in
          rw (here, there, named, snapshot, same_decisions) refl
    ]
