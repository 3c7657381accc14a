-- ===== src/Broker/Refinement/Intents.antt =====
-- `_commit_execution_intent` of src/awr/service.py against the lifecycle of one work order.
use agent_work_relay.Prelude.{
  ℕ, ◌+◌, String, ◌≡◌, inl, inr, refl, ap, sym, subst, true, ◌&&◌, Option, none, some, ok,
  bind-eq-ok, require-eq-ok, reject-eq-ok, ok-injective, truthy, or_else, or_option, concat,
  Bool-cases, ◌∷◌, [], ◌++◌,
}
use agent_work_relay.Host.{Fields}
use agent_work_relay.Contracts.{WorkOrder, execution_dispatched, status_is}
use agent_work_relay.Lifecycle.Events.{LifecycleEvent, is_broker_event}
use agent_work_relay.Lifecycle.Decisions.{StoredDecision, matching_plan_approval}
use agent_work_relay.Lifecycle.Kernel.Guards.{TransitionResult}
use agent_work_relay.Lifecycle.Kernel.Broker.{apply_broker_event}
use agent_work_relay.Lifecycle.Trace.{broker}
use agent_work_relay.Broker.Records.{validation_error, integrity_error, DispatchRow, Db, Call}
use agent_work_relay.Broker.Store.{find_order, list_ledger, latest_from}
use agent_work_relay.Broker.Decisions.{list_decisions, read_decisions}
use agent_work_relay.Broker.Service.{
  lifted, resolve_actor, require_work_order, snapshot_from_session,
}
use agent_work_relay.Broker.Events.{bare_or_none, commit_event}
use agent_work_relay.Broker.Dispatches.{list_dispatches, any_dispatch_clash, put_execution_dispatch}
use agent_work_relay.Broker.Plans.{plan_text}
use agent_work_relay.Broker.Intents.{
  has_artifacts, pending_dispatch, duplicate_of, Intent, agent_of, intent_payload, intent_receipt,
  dispatch_row, commit_intent, last_attempt, or_sha256, new_intent, intent_once,
  commit_execution_intent,
}
use agent_work_relay.Broker.View.{find_order-id, snapshot_from_session-is_filled}
use agent_work_relay.Broker.Commits.{Commits, commit_event-Commits}
use agent_work_relay.Broker.Committed.{broker-is_filled}
use agent_work_relay.Broker.Submitted.{lifted-eq-ok, require_work_order_found}
use agent_work_relay.Broker.Refinement.{Moves, unmoved, kept, Commits-Moves, list_decisions_same}

pub put_execution_dispatch_eq :
    (row : DispatchRow) (db : Db) {db' : Db}
    → put_execution_dispatch row db ≡ ok db'
    → record db { dispatches = db.dispatches ++ row ∷ [] } ≡ db'
unfolding put_execution_dispatch
put_execution_dispatch_eq row db e =
    let (_, e1) = reject-eq-ok (any_dispatch_clash row db.dispatches) integrity_error _ e in
    ok-injective e1

-- The writes of an intent: those of its event, and a dispatch.
pub commit_intent-Commits :
    (c : Call) (o : WorkOrder) (actor : String) (event : LifecycleEvent) (i : Intent)
    (approval : StoredDecision) (content : String) (r : TransitionResult) (db : Db)
    {done : Fields × Db}
    → commit_intent c o actor event i approval content r db ≡ ok done
    → Commits o.work_order_id r.status r.snapshot db done.1 × (done.1.decisions ≡ db.decisions)
unfolding commit_intent
commit_intent-Commits c o actor event i approval content r db e =
    let id = o.work_order_id in
    let agent = agent_of c.host (latest_from (list_ledger id db) "executor.acknowledged") in
    let payload = intent_payload i.message_id i.attempt in
    let (written, a, e1) = bind-eq-ok (commit_event c id actor payload r db) _ e in
    let receipt = intent_receipt id event i.message_id i.attempt r written.0 in
    let row = dispatch_row c o i approval content agent receipt in
    let (db2, b, e2) = bind-eq-ok (put_execution_dispatch row written.1) _ e1 in
    let (commits, unchanged) = commit_event-Commits c id actor payload r db a in
    let put = put_execution_dispatch_eq row written.1 b in
    let same = ok-injective e2 in
    (
      record {
        orders = cc (put, same, commits.orders);
        snapshots = cc (put, same, commits.snapshots);
        entry = commits.entry;
        ledger = cc (put, same, commits.ledger);
      },
      cc (put, same, unchanged),
    )

new_intent-Moves :
    (c : Call) (executor : String) (o : WorkOrder) (actor : String) (event : LifecycleEvent)
    (plan_id plan_sha256 : Option String) (expected : Option ℕ) (db : Db) {done : Fields × Db}
    → find_order o.work_order_id db.orders ≡ some o
    → is_broker_event event ≡ true
    → new_intent c executor o actor event plan_id plan_sha256 expected db ≡ ok done
    → Moves o.work_order_id db done.1
unfolding new_intent
new_intent-Moves c executor o actor event plan_id plan_sha256 expected db {done} found known e =
    let id = o.work_order_id in
    let s = snapshot_from_session o db in
    let decisions = read_decisions (list_decisions id db) in
    let resolved_id = or_option plan_id s.plan_id in
    let resolved_sha256 = or_sha256 (bare_or_none plan_sha256) s.plan_sha256 in
    let i : Intent = record {
      executor = executor;
      plan_id = or_else resolved_id "";
      plan_sha256 = or_else resolved_sha256 "";
      attempt = last_attempt (list_dispatches id db) + 1;
      message_id = concat "EXD-" c.uuid;
    } in
    let (_, e1) =
      require-eq-ok (truthy resolved_id && truthy resolved_sha256) validation_error _ e in
    let stepped =
      apply_broker_event c.host o.status s event actor i.message_id decisions expected
        (some i.plan_id) (some i.plan_sha256) in
    let (r, a, e2) = bind-eq-ok (lifted stepped) _ e1 in
    let by_kernel = lifted-eq-ok stepped a in
    let (approval, _, e3) =
      bind-eq-ok
        (lifted (
          matching_plan_approval c.host decisions (or_else r.snapshot.plan_id i.plan_id)
            (or_else r.snapshot.plan_sha256 i.plan_sha256)))
        _ e2 in
    let (content, _, e4) = bind-eq-ok (plan_text c.host o db) _ e3 in
    let (commits, same) = commit_intent-Commits c o actor event i approval content r db e4 in
    let filled =
      broker-is_filled c.host o.status s event actor i.message_id decisions expected
        (some i.plan_id) (some i.plan_sha256) r (snapshot_from_session-is_filled o db) by_kernel in
    Commits-Moves id r r.snapshot db done.1 o decisions commits found filled refl
      (rw (list_decisions_same id db done.1 same) refl)
      (broker c.host event actor i.message_id expected (some i.plan_id) (some i.plan_sha256) r known
        by_kernel)
      (kept same)

-- An accepted intent to execute or to refine moves its work order by a step of the kernel, or, where
-- a dispatch is already under way, leaves its view as it was.
pub commit_execution_intent-Moves :
    (c : Call) (executor id : String) (event : LifecycleEvent)
    (actor plan_id plan_sha256 : Option String) (expected : Option ℕ) (db : Db) {done : Fields × Db}
    → is_broker_event event ≡ true
    → commit_execution_intent c executor id event actor plan_id plan_sha256 expected db ≡ ok done
    → Moves id db done.1
unfolding commit_execution_intent intent_once
commit_execution_intent-Moves c executor id event actor plan_id plan_sha256 expected db {done} known
      e =
    let (sender, _, e1) = bind-eq-ok (resolve_actor c actor) _ e in
    let (o, a, e2) = bind-eq-ok (require_work_order id db) _ e1 in
    let (artifacts, _, e3) = bind-eq-ok (has_artifacts sender o db) _ e2 in
    let (_, e4) = reject-eq-ok artifacts validation_error _ e3 in
    let found = require_work_order_found id db a in
    let named = find_order-id id db.orders found in
    subst (λ x. Moves x db done.1) named
      (once sender o (rw named found) (pending_dispatch (list_dispatches o.work_order_id db)) e4)
  where
    once :
        (sender : String) (o : WorkOrder)
        → find_order o.work_order_id db.orders ≡ some o
        → (row : Option DispatchRow)
        → intent_once c executor o sender event plan_id plan_sha256 expected row db ≡ ok done
        → Moves o.work_order_id db done.1
    once sender o found none e =
        new_intent-Moves c executor o sender event plan_id plan_sha256 expected db found known e
    once sender o found (some row) e = elim (Bool-cases (status_is o.status execution_dispatched)) [
      | inl p ↦
          let same : (duplicate_of o row, db) ≡ done = ok-injective (rw p at e) in
          unmoved (ap (λ x. x.1) (sym same))
      | inr p ↦
          new_intent-Moves c executor o sender event plan_id plan_sha256 expected db found known
            (rw p at e)
    ]
