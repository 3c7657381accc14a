-- ===== src/Broker/Calls.antt =====
-- The calls of src/awr/service.py on work orders that are there, in any order, and what holds along them.
use agent_work_relay.Prelude.{
  ℕ, String, ◌≡◌, ◌≢◌, ◌⊎◌, inl, inr, sym, ◌∙◌, subst, true, Option, some, ok,
}
use agent_work_relay.Host.{Fields}
use agent_work_relay.Contracts.{failed}
use agent_work_relay.Lifecycle.Events.{LifecycleEvent, is_broker_event}
use agent_work_relay.Lifecycle.Responses.{ResponsePacket}
use agent_work_relay.Lifecycle.Trace.{State, here, initial}
use agent_work_relay.Lifecycle.Trace.Authority.{IsAuthorized, Reach-IsAuthorized}
use agent_work_relay.Artifacts.Tables.{Tables}
use agent_work_relay.Broker.Records.{Db, Call}
use agent_work_relay.Broker.Decisions.{list_decisions}
use agent_work_relay.Broker.Service.{submit_packet}
use agent_work_relay.Broker.Decide.{DecisionRequest, record_decision}
use agent_work_relay.Broker.Events.{apply_broker}
use agent_work_relay.Broker.Intents.{commit_execution_intent}
use agent_work_relay.Broker.Plans.{PlanPacket}
use agent_work_relay.Broker.Planning.{PlanningExecutor, Refreshed, refresh_planning}
use agent_work_relay.Broker.Readers.{get_plan}
use agent_work_relay.Broker.Polls.{Polls}
use agent_work_relay.Broker.Polls.Refresh.{refresh_planning-Polls}
use agent_work_relay.Broker.Polls.Views.{get_plan-Polls}
use agent_work_relay.Broker.Life.{
  born, Follows, some_injective, Moves-Follows, Polls-Follows, IsBacked, Life-IsBacked,
}
use agent_work_relay.Broker.View.{view, none_later}
use agent_work_relay.Broker.Refinement.{Moves, submit_packet-Moves, apply_broker-Moves}
use agent_work_relay.Broker.Refinement.Decisions.{record_decision-Moves}
use agent_work_relay.Broker.Refinement.Intents.{commit_execution_intent-Moves}

-- An accepted call on work orders that are there: a response packet, a decision, a broker event, a
-- dispatch or refinement, a poll of a planning run, or the reading of a plan. A decision is recorded
-- at a time that no stored decision of the work order is later than, and its expiry is not the empty
-- text; a packet carries its digest.
pub data Called (db : Db) : Db → Type 0 where
  submitted :
      (c : Call) (tables : Option Tables) (p : ResponsePacket) (actor : Option String)
      (expected : Option ℕ) (content : String) (done : Fields × Db)
      → p.content_sha256 ≡ some content
      → content ≢ ""
      → submit_packet c tables p actor expected db ≡ ok done
      → Called db done.1
  decided :
      (c : Call) (q : DecisionRequest) (done : Fields × Db)
      → none_later c.now_text (list_decisions q.work_order_id db) ≡ true
      → q.expires_at ≢ some ""
      → record_decision c q db ≡ ok done
      → Called db done.1
  applied :
      (c : Call) (id : String) (event : LifecycleEvent) (actor : Option String)
      (message_id : String) (plan_id plan_sha256 : Option String) (expected : Option ℕ)
      (done : Fields × Db)
      → is_broker_event event ≡ true
      → apply_broker c id event actor message_id plan_id plan_sha256 expected db ≡ ok done
      → Called db done.1
  intended :
      (c : Call) (executor id : String) (event : LifecycleEvent)
      (actor plan_id plan_sha256 : Option String) (expected : Option ℕ) (done : Fields × Db)
      → is_broker_event event ≡ true
      → commit_execution_intent c executor id event actor plan_id plan_sha256 expected db ≡ ok done
      → Called db done.1
  polled :
      (c : Call) (x : PlanningExecutor) (id : String) (done : Refreshed × Db)
      → refresh_planning c x id db ≡ ok done
      → Called db done.1
  shown :
      (c : Call) (id : String) (actor : Option String) (done : PlanPacket × Db)
      → get_plan c id actor db ≡ ok done
      → Called db done.1

pub data Calls (db : Db) : Db → Type 0 where
  start : Calls db db
  then_call : {db1 db2 : Db} → Calls db db1 → Called db1 db2 → Calls db db2

Called-Moves : {db db' : Db} → Called db db' → (id : String) × (Moves id db db' ⊎ Polls id db db')
Called-Moves (submitted c tables p actor expected content done has given e) =
    (p.work_order_id, inl (submit_packet-Moves c tables p actor expected _ content has given e))
Called-Moves (decided c q done latest given e) =
    (q.work_order_id, inl (record_decision-Moves c q _ latest given e))
Called-Moves (applied c id event actor message_id plan_id plan_sha256 expected done known e) = (
  id,
  inl (apply_broker-Moves c id event actor message_id plan_id plan_sha256 expected _ known e),
)
Called-Moves (intended c executor id event actor plan_id plan_sha256 expected done known e) = (
  id,
  inl (
      commit_execution_intent-Moves c executor id event actor plan_id plan_sha256 expected _ known
        e),
)
Called-Moves (polled c x id done e) = (id, inr (refresh_planning-Polls c x id _ e))
Called-Moves (shown c id actor done e) = (id, inr (get_plan-Polls c id actor _ e))

-- Through any sequence of accepted calls of the kinds below, on any work orders, each work order
-- goes through its own life: its state after the calls is one that the steps of the kernel lead to
-- from its state before them, with polls between them that write PLAN_READY or FAILED and leave the
-- snapshot and the decisions as they are. The kinds are response packets with their digests,
-- decisions at a time that no stored one of the work order is later than and with no empty text as
-- their expiry, broker events, dispatches and refinements, polls of a planning run, and readings of
-- a plan; submissions are not among them.
pub Calls-Follows :
    (id : String) {db db' : Db} (a : State) → view id db ≡ some a → Calls db db' → Follows a id db'
Calls-Follows id a seen start = (a, seen, born)
Calls-Follows id a seen (then_call calls call) =
    let before = Calls-Follows id a seen calls in
    let (mine, change) = Called-Moves call in
    elim change [
      | inl moves ↦ Moves-Follows a mine id _ _ before moves
      | inr polled_so ↦ Polls-Follows a mine id _ _ before polled_so
    ]

-- Through any sequence of accepted calls of the kinds below from tables in which a work order is
-- planned and has no step behind it: what is ready for execution, dispatched, executing or further
-- on has a stored decision that approves a plan; what waits for input and came from executing has
-- one too; and what is complete has a stored decision that accepts the completion. FAILED is left
-- out, since a failed planning run leads to it too. The kinds are response packets with their
-- digests, decisions at a time that no stored one of the work order is later than and with no empty
-- text as their expiry, broker events, dispatches and refinements, polls of a planning run, and
-- readings of a plan; submissions are not among them.
pub Calls-IsAuthorized :
    (id sender recipient source_sha256 : String) {db db' : Db} {b : State}
    → view id db ≡ some (initial id sender recipient source_sha256)
    → Calls db db'
    → view id db' ≡ some b
    → IsAuthorized b ⊎ (b.status ≡ failed)
Calls-IsAuthorized id sender recipient source_sha256 seen calls seen_now =
    let (after, there, life) = Calls-Follows id _ seen calls in
    let first = Reach-IsAuthorized id sender recipient source_sha256 here in
    subst IsBacked (some_injective (sym there ∙ seen_now)) (Life-IsBacked first life)
