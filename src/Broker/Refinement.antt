-- ===== src/Broker/Refinement.antt =====
-- The operations of src/awr/service.py against the lifecycle of one work order: each moves the status,
-- the snapshot and the decisions by a step of the kernel, or writes nothing.
pub mod Decisions
pub mod Intents
use agent_work_relay.Prelude.{
  ℕ, String, ◌≡◌, ◌≢◌, ◌⊎◌, inl, inr, refl, ap, sym, ◌∙◌, subst, Bool, true, false, ◌==◌, Option,
  none, some, List, [], ◌∷◌, ◌++◌, ok, arith, or_else, bind-eq-ok, require-eq-ok, reject-eq-ok,
  ok-injective, eq_iff, option_cases, find, concat, bare_digest,
}
use agent_work_relay.Host.{Host, Fields, field, str, end}
use agent_work_relay.Contracts.{WorkStatus, WorkOrder}
use agent_work_relay.Lifecycle.Events.{LifecycleEvent, is_broker_event}
use agent_work_relay.Lifecycle.Decisions.{StoredDecision}
use agent_work_relay.Lifecycle.Responses.{ResponsePacket}
use agent_work_relay.Lifecycle.Kernel.Snapshot.{LifecycleSnapshot}
use agent_work_relay.Lifecycle.Kernel.Guards.{TransitionResult}
use agent_work_relay.Lifecycle.Kernel.Response.{apply_response}
use agent_work_relay.Lifecycle.Kernel.Broker.{apply_broker_event}
use agent_work_relay.Lifecycle.Kernel.Decision.{apply_decision}
use agent_work_relay.Lifecycle.Kernel.Inversion.{apply_response_inv}
use agent_work_relay.Lifecycle.Trace.{State, Step, respond, broker, decide, after, decision_event}
use agent_work_relay.Artifacts.Tables.{Tables}
use agent_work_relay.Responses.Packet.{response_authority}
use agent_work_relay.Responses.Payload.{type_value}
use agent_work_relay.Broker.Records.{Outcome, validation_error, DecisionRow, ResponseRow, Db, Call}
use agent_work_relay.Broker.Store.{find_order, get_response}
use agent_work_relay.Broker.Decisions.{list_decisions, read_decisions, read_decision}
use agent_work_relay.Broker.Service.{
  lifted, resolve_actor, require_work_order, snapshot_from_session, validate_evidence,
  digest_or_fingerprint, replay_response, commit_response, respond_once, submit_packet, or_raise,
}
use agent_work_relay.Broker.Decide.{
  DecisionRequest, has_key_of, commit_decision, decide_once, record_stored, record_decision,
}
use agent_work_relay.Broker.Events.{bare_or_none, commit_event, apply_broker}
use agent_work_relay.Broker.View.{
  state_of, view, find_order-id, snapshot_from_session-is_filled, is_filled, none_later,
  list_decisions-append,
}
use agent_work_relay.Broker.Commits.{
  Commits, commit_response-Commits, commit_decision-Commits, commit_event-Commits,
}
use agent_work_relay.Broker.Submitted.{
  require_work_order_found, or_raise-eq-ok, submit_packet_inv, respond_once_cases,
  replay_response-unchanged, lifted-eq-ok, taken_by,
}
use agent_work_relay.Broker.Committed.{
  response-is_filled, broker-is_filled, decision-is_filled, Commits-view, Commits-view_other,
}

-- The decisions stay, or there is one more of the work order.
pub data Grows (id : String) (db db' : Db) : Type 0 where
  kept : db'.decisions ≡ db.decisions → Grows id db db'
  one_more :
      (row : DecisionRow)
      → row.decision.work_order_id ≡ id
      → db'.decisions ≡ db.decisions ++ row ∷ []
      → Grows id db db'

-- Nothing is written, or the writes for one work order move its view by one step of its life.
pub data Moves (id : String) (db db' : Db) : Type 0 where
  unmoved : db' ≡ db → Moves id db db'
  moved :
      (a b : State) (status : WorkStatus) (s : LifecycleSnapshot)
      → view id db ≡ some a
      → view id db' ≡ some b
      → Step a b
      → Commits id status s db db'
      → Grows id db db'
      → Moves id db db'

view_found :
    (id : String) (db : Db) {o : WorkOrder}
    → find_order id db.orders ≡ some o
    → view id db ≡ some (state_of o db)
unfolding view
view_found id db found = rw found refl

pub list_decisions_same :
    (id : String) (db db' : Db)
    → db'.decisions ≡ db.decisions
    → list_decisions id db' ≡ list_decisions id db
unfolding list_decisions
list_decisions_same id db db' e = rw e refl

-- A committed step of the kernel is a move.
pub Commits-Moves :
    (id : String) (r : TransitionResult) (written : LifecycleSnapshot) (db db' : Db) (o : WorkOrder)
    (decisions : List StoredDecision)
    → Commits id r.status written db db'
    → find_order id db.orders ≡ some o
    → is_filled r.snapshot ≡ true
    → written ≡ r.snapshot
    → read_decisions (list_decisions id db') ≡ decisions
    → Step (state_of o db) (after r decisions)
    → Grows id db db'
    → Moves id db db'
Commits-Moves id r written db db' o decisions commits found filled same listed step grows =
    let there = Commits-view id r.status written db db' commits (rw same filled) found in
    moved (state_of o db) (after r decisions) r.status written (view_found id db found)
      (rw there (rw (same, listed) refl)) step commits grows

pub parent_is :
    (h : Host) (status : WorkStatus) (s : LifecycleSnapshot) (p : ResponsePacket) (actor : String)
    (decisions : List StoredDecision) (expected : Option ℕ) (r : TransitionResult) (digest : String)
    → p.content_sha256 ≡ some digest
    → digest ≢ ""
    → apply_response h status s p actor decisions expected ≡ ok r
    → record r.snapshot { current_parent_id = or_else p.message_id digest } ≡ r.snapshot
parent_is h status s p actor decisions expected r digest content given e =
    let inv = apply_response_inv h status s p actor decisions expected r e in
    let parent : or_else p.message_id digest ≡ r.snapshot.current_parent_id =
      rw (inv.its_snapshot, content) (ground (arith, eq_iff digest "")) in
    rw parent refl

pub digest_is :
    (c : Call) (p : ResponsePacket) (content : String) {digest : String}
    → p.content_sha256 ≡ some content
    → content ≢ ""
    → digest_or_fingerprint c.host p ≡ ok digest
    → digest ≡ content
unfolding digest_or_fingerprint
digest_is c p content has given e = ground (arith, eq_iff content "")

-- An accepted response whose digest is set moves its work order by a step of the kernel, or, as a
-- repeated one, leaves its view as it was.
pub submit_packet-Moves :
    (c : Call) (tables : Option Tables) (p : ResponsePacket) (actor : Option String)
    (expected : Option ℕ) (db : Db) (content : String) {done : Fields × Db}
    → p.content_sha256 ≡ some content
    → content ≢ ""
    → submit_packet c tables p actor expected db ≡ ok done
    → Moves p.work_order_id db done.1
submit_packet-Moves c tables p actor expected db content {done} has given e =
    let inv = submit_packet_inv c tables p actor expected db done e in
    let o = inv.order in
    let named = find_order-id p.work_order_id db.orders inv.found in
    let same_digest = digest_is c p content has given inv.its_digest in
    elim (respond_once_cases c o p inv.sender inv.digest expected (taken_by o inv.sender p db) db
      inv.outcome) [
        | inl replayed ↦
            let (row, _, again) = replayed in
            unmoved (replay_response-unchanged c o p _ _ row db again)
        | inr stepped ↦
            let (r, _, by_kernel, written) = stepped in
            let (commits, same, _) =
              commit_response-Commits c p inv.sender inv.digest r db written in
            let s = snapshot_from_session o db in
            let decisions = read_decisions (list_decisions o.work_order_id db) in
            let filled =
              response-is_filled c.host o.status s p inv.sender decisions expected r
                (snapshot_from_session-is_filled o db) by_kernel in
            let parent =
              parent_is c.host o.status s p inv.sender decisions expected r inv.digest
                (rw same_digest has) (rw same_digest given) by_kernel in
            Commits-Moves p.work_order_id r _ db done.1 o decisions commits inv.found filled parent
              (rw (list_decisions_same p.work_order_id db done.1 same, named) refl)
              (respond c.host p inv.sender expected r by_kernel) (kept same)
      ]

-- An accepted event moves its work order by a step of the kernel.
pub apply_broker-Moves :
    (c : Call) (id : String) (event : LifecycleEvent) (actor : Option String) (message_id : String)
    (plan_id plan_sha256 : Option String) (expected : Option ℕ) (db : Db) {done : Fields × Db}
    → is_broker_event event ≡ true
    → apply_broker c id event actor message_id plan_id plan_sha256 expected db ≡ ok done
    → Moves id db done.1
unfolding apply_broker
apply_broker-Moves c id event actor message_id plan_id plan_sha256 expected db {done} known e =
    let (sender, _, e1) = bind-eq-ok (resolve_actor c actor) _ e in
    let (o, a, e2) = bind-eq-ok (require_work_order id db) _ e1 in
    let found = require_work_order_found id db a in
    let named = find_order-id id db.orders found in
    let s = snapshot_from_session o db in
    let decisions = read_decisions (list_decisions id db) in
    let stepped =
      apply_broker_event c.host o.status s event sender message_id decisions expected plan_id
        (bare_or_none plan_sha256) in
    let (r, b, e3) = bind-eq-ok (lifted stepped) _ e2 in
    let by_kernel = lifted-eq-ok stepped b in
    let payload = field "message_id" (str message_id) end in
    let (written, w, e4) = bind-eq-ok (commit_event c id sender payload r db) _ e3 in
    let (commits, same) = commit_event-Commits c id sender payload r db w in
    let filled =
      broker-is_filled c.host o.status s event sender message_id decisions expected plan_id
        (bare_or_none plan_sha256) r (snapshot_from_session-is_filled o db) by_kernel in
    let moves =
      Commits-Moves id r r.snapshot db written.1 o decisions commits found filled refl
        (rw (list_decisions_same id db written.1 same) refl)
        (subst (λ ds. Step (state_of o db) (after r ds)) (rw named refl)
          (broker c.host event sender message_id expected plan_id (bare_or_none plan_sha256) r known
            (rw named by_kernel)))
        (kept same) in
    subst (λ x. Moves id db x) (ap (λ x. x.1) (ok-injective e4)) moves
