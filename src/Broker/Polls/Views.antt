-- ===== src/Broker/Polls/Views.antt =====
-- A work order before and after a poll, as the lifecycle sees it.
use agent_work_relay.Prelude.{
  String, ◌≡◌, ◌≢◌, ◌⊎◌, inl, inr, refl, ap, ◌∙◌, subst, Option, none, some, ok, option_cases,
  bind-eq-ok, ok-injective, arith,
}
use agent_work_relay.Contracts.{WorkStatus, WorkOrder, plan_ready, failed}
use agent_work_relay.Lifecycle.Kernel.Snapshot.{derive_snapshot}
use agent_work_relay.Lifecycle.Trace.{State}
use agent_work_relay.Broker.Records.{Db, Call}
use agent_work_relay.Broker.Store.{find_order}
use agent_work_relay.Broker.Decisions.{list_decisions}
use agent_work_relay.Broker.Service.{
  require_work_order, resolve_actor, stored_or_derived, snapshot_from_session,
}
use agent_work_relay.Broker.Intents.{authorize_reader}
use agent_work_relay.Broker.Submitted.{require_work_order_found}
use agent_work_relay.Broker.Plans.{PlanPacket, plan_from_ledger}
use agent_work_relay.Broker.Planning.{commit_existing_plan}
use agent_work_relay.Broker.Readers.{authorize_projection, plan_or, get_plan}
use agent_work_relay.Broker.View.{
  state_of, view, find_order-id, find_order-set_status, find_order-set_other,
}
use agent_work_relay.Broker.Polls.{Polls, same_status, new_status, idle, commit_existing_plan-Polls}

-- The status is PLAN_READY or FAILED now, and the snapshot and the decisions are as they were.
abbrev pub IsPolled : State → State → Type 0
IsPolled a b =
    ((b.status ≡ plan_ready) ⊎ (b.status ≡ failed))
    × (b.snapshot ≡ a.snapshot)
    × (b.decisions ≡ a.decisions)

same_state :
    (o : WorkOrder) (status : WorkStatus) (db db' : Db)
    → db'.snapshots ≡ db.snapshots
    → db'.decisions ≡ db.decisions
    → state_of (record o { status = status }) db' ≡ record (state_of o db) { status = status }
unfolding snapshot_from_session stored_or_derived derive_snapshot list_decisions
same_state o status db db' snapshots decisions = rw (snapshots, decisions) refl

view_same :
    (id : String) (db db' : Db)
    → db'.snapshots ≡ db.snapshots
    → db'.decisions ≡ db.decisions
    → find_order id db'.orders ≡ find_order id db.orders
    → view id db' ≡ view id db
unfolding view
view_same id db db' snapshots decisions orders = elim (option_cases (find_order id db.orders)) [
  | inl none_there ↦ rw (orders, none_there) refl
  | inr there ↦
      let (o, found) = there in
      rw (orders, found) (ap some (same_state o o.status db db' snapshots decisions))
]

pub Polls-view_other :
    (id other : String) (db db' : Db)
    → Polls id db db'
    → other ≢ id
    → view other db' ≡ view other db
Polls-view_other id other db db' (same_status a b c) n =
    view_same other db db' b c (ap (find_order other) a)
Polls-view_other id other db db' (new_status status _ a b c) n =
    view_same other db db' b c
      (ap (find_order other) a ∙ find_order-set_other id other status db.orders n)

some_state : {a b : State} → ◌≡◌ {A = Option State} (some a) (some b) → a ≡ b
some_state e = cc

plan_or_keeps :
    (found : Option PlanPacket) (db : Db) {done : PlanPacket × Db}
    → plan_or found db ≡ ok done
    → db ≡ done.1
plan_or_keeps none db e = ground arith
plan_or_keeps (some p) db e = ap (λ x. x.1) (ok-injective e)

pub Polls-view :
    (id : String) (db db' : Db) {a : State}
    → Polls id db db'
    → view id db ≡ some a
    → (view id db' ≡ some a) ⊎ (b : State) × (view id db' ≡ some b) × IsPolled a b
unfolding view
Polls-view id db db' (same_status a b c) seen =
    inl (view_same id db db' b c (ap (find_order id) a) ∙ seen)
Polls-view id db db' {a = was} (new_status status known a b c) seen =
    elim (option_cases (find_order id db.orders)) [
      | inl none_there ↦
          let unseen : ◌≡◌ {A = Option State} none (some was) = rw none_there at seen in cc
      | inr there ↦
          let (o, found) = there in
          let before : ◌≡◌ {A = Option State} (some (state_of o db)) (some was) =
            rw found at seen in
          let state = state_of (record o { status = status }) db' in
          let now : find_order id db'.orders ≡ some (record o { status = status }) =
            rw a (find_order-set_status id status db.orders found) in
          let same = same_state o status db db' b c in
          let from = some_state before in
          inr (
            state,
            rw now refl,
            (
              known,
              ap (λ x. x.snapshot) same ∙ ap (λ x. x.snapshot) from,
              ap (λ x. x.decisions) same ∙ ap (λ x. x.decisions) from,
            ),
          )
    ]

authorize_projection_found :
    (c : Call) (id : String) (actor : Option String) (db : Db) {o : WorkOrder}
    → authorize_projection c id actor db ≡ ok o
    → find_order id db.orders ≡ some o
unfolding authorize_projection
authorize_projection_found c id none db e = require_work_order_found id db e
authorize_projection_found c id (some actor) db e =
    let (o, a, e1) = bind-eq-ok (require_work_order id db) _ e in
    let (reader, _, e2) = bind-eq-ok (resolve_actor c (some actor)) _ e1 in
    let (_, _, e3) = bind-eq-ok (authorize_reader reader o (snapshot_from_session o db)) _ e2 in
    require_work_order_found id db a ∙ ap some (ok-injective e3)

-- A reader that is shown a plan may make it available first.
pub get_plan-Polls :
    (c : Call) (id : String) (actor : Option String) (db : Db) {done : PlanPacket × Db}
    → get_plan c id actor db ≡ ok done
    → Polls id db done.1
unfolding get_plan
get_plan-Polls c id actor db {done} e =
    let (o, a, e1) = bind-eq-ok (authorize_projection c id actor db) _ e in
    let (existing, _, e2) = bind-eq-ok (plan_from_ledger c.host id db) _ e1 in
    let named = find_order-id id db.orders (authorize_projection_found c id actor db a) in
    elim (option_cases existing) [
      | inr there ↦
          let (p, is) = there in
          let same : ok (p, db) ≡ ok done = rw is at e2 in
          idle id db done.1 (ap (λ x. x.1) (ok-injective same))
      | inl none_there ↦
          let (committed, b, e3) =
            bind-eq-ok (commit_existing_plan c o db) _ (rw none_there at e2) in
          let kept = plan_or_keeps committed.0 committed.1 e3 in
          subst (λ i. Polls i db done.1) named
            (subst (λ x. Polls o.work_order_id db x) kept (commit_existing_plan-Polls c o db b))
    ]
