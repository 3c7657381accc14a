-- ===== src/Broker/Polls.antt =====
-- What src/awr/service.py writes into a work order outside the kernel: `refresh_planning`.
pub mod Refresh
pub mod Views
use agent_work_relay.Prelude.{
  String, ◌≡◌, ◌⊎◌, inl, inr, refl, ap, sym, ◌∙◌, subst, Bool, true, false, not, ◌==◌, Option, none,
  some, List, [], ◌∷◌, ok, arith, Bool-cases, option_cases, bind-eq-ok, ok-injective, if◌then◌else◌,
}
use agent_work_relay.Host.{str, int, Fields, end, field}
use agent_work_relay.Contracts.{
  WorkStatus, WorkOrder, LedgerEntry, plan_ready, failed, status_is, run_terminal,
}
use agent_work_relay.Broker.Records.{Outcome, Db, Call, validation_error, executor_error}
use agent_work_relay.Broker.Store.{
  set_status, update_status, append_ledger, list_ledger, latest_from, find_order,
}
use agent_work_relay.Broker.Service.{or_raise, require_work_order}
use agent_work_relay.Broker.Submitted.{require_work_order_found}
use agent_work_relay.Broker.Plans.{
  PlanPacket, text_at, plan_packet, plan_from_entries, plan_from_ledger,
}
use agent_work_relay.Broker.Planning.{
  PlanningExecutor, PlanningRunResult, Refreshed, plan_id_of, plan_payload, result_of, if_recorded,
  run_payload, commit_received, commit_unless, commit_existing_plan, unless_planned, entry_unless,
  wait_for_run, fail_once, fail_run, receive_plan, record_run, poll_run, refresh_planning,
}
use agent_work_relay.Broker.Commits.{update_status_eq, append_ledger_eq}
use agent_work_relay.Broker.View.{find_order-id}

-- The snapshots and the decisions stay, and so do the work orders, except that the one of the ID may be
-- PLAN_READY or FAILED now.
pub data Polls (id : String) (db db' : Db) : Type 0 where
  same_status :
      db'.orders ≡ db.orders
      → db'.snapshots ≡ db.snapshots
      → db'.decisions ≡ db.decisions
      → Polls id db db'
  new_status :
      (status : WorkStatus)
      → (status ≡ plan_ready) ⊎ (status ≡ failed)
      → db'.orders ≡ set_status id status db.orders
      → db'.snapshots ≡ db.snapshots
      → db'.decisions ≡ db.decisions
      → Polls id db db'

set_status_twice :
    (id : String) (s t : WorkStatus) (os : List WorkOrder)
    → set_status id t (set_status id s os) ≡ set_status id t os
unfolding set_status
set_status_twice id s t [] = refl
set_status_twice id s t (o ∷ rest) = ground (arith, set_status_twice id s t rest)

pub Polls-then :
    (id : String) (db db1 db2 : Db) → Polls id db db1 → Polls id db1 db2 → Polls id db db2
Polls-then id db db1 db2 (same_status a b c) (same_status d e f) =
    same_status (d ∙ a) (e ∙ b) (f ∙ c)
Polls-then id db db1 db2 (same_status a b c) (new_status t known d e f) =
    new_status t known (d ∙ ap (set_status id t) a) (e ∙ b) (f ∙ c)
Polls-then id db db1 db2 (new_status s known a b c) (same_status d e f) =
    new_status s known (d ∙ a) (e ∙ b) (f ∙ c)
Polls-then id db db1 db2 (new_status s _ a b c) (new_status t known d e f) =
    new_status t known (d ∙ ap (set_status id t) a ∙ set_status_twice id s t db.orders) (e ∙ b)
      (f ∙ c)

pub append_ledger-Polls :
    (c : Call) (order id event actor counterparty : String) (payload : Fields) (db : Db)
    {r : LedgerEntry × Db}
    → append_ledger c id event actor counterparty payload db ≡ ok r
    → Polls order db r.1
append_ledger-Polls c order id event actor counterparty payload db e =
    let written = append_ledger_eq c id event actor counterparty payload db e in
    same_status (ap (λ x. x.orders) (sym written)) (ap (λ x. x.snapshots) (sym written))
      (ap (λ x. x.decisions) (sym written))

pub update_status-Polls :
    (id : String) (status : WorkStatus) (db : Db) {db' : Db}
    → (status ≡ plan_ready) ⊎ (status ≡ failed)
    → update_status id status db ≡ ok db'
    → Polls id db db'
update_status-Polls id status db known e =
    let written = update_status_eq id status db e in
    new_status status known (ap (λ x. x.orders) (sym written)) (ap (λ x. x.snapshots) (sym written))
      (ap (λ x. x.decisions) (sym written))

pub idle : (id : String) (db db' : Db) → db ≡ db' → Polls id db db'
idle id db db' same =
    same_status (ap (λ x. x.orders) (sym same)) (ap (λ x. x.snapshots) (sym same))
      (ap (λ x. x.decisions) (sym same))

make_ready :
    (o : WorkOrder) (db : Db) {db' : Db}
    → (if status_is o.status plan_ready then ok db else update_status o.work_order_id plan_ready db)
      ≡ ok db'
    → Polls o.work_order_id db db'
make_ready o db {db'} e = elim (Bool-cases (status_is o.status plan_ready)) [
  | inl ready ↦ idle o.work_order_id db db' (ok-injective (rw ready at e))
  | inr other ↦ update_status-Polls o.work_order_id plan_ready db (inl refl) (rw other at e)
]

commit_received-Polls :
    (c : Call) (o : WorkOrder) (found : Option LedgerEntry) (db : Db)
    {done : Option PlanPacket × Db}
    → commit_received c o found db ≡ ok done
    → Polls o.work_order_id db done.1
unfolding commit_received
commit_received-Polls c o none db {done} e =
    idle o.work_order_id db done.1 (ap (λ x. x.1) (ok-injective e))
commit_received-Polls c o (some received) db {done} e =
    let id = o.work_order_id in
    let (db1, a, e1) =
      bind-eq-ok (if status_is o.status plan_ready then ok db else update_status id plan_ready db) _
        e in
    let (plan_id, _, e2) = bind-eq-ok (text_at c.host received.payload "plan_id") _ e1 in
    let (digest, _, e3) = bind-eq-ok (text_at c.host received.payload "content_sha256") _ e2 in
    let payload = field "plan_id" (str plan_id) (
      field "content_sha256" (str digest)
        (field "received_sequence" (int received.sequence) end)) in
    let (available, b, e4) =
      bind-eq-ok (append_ledger c id "plan.available" "broker:awr" o.sender payload db1) _ e3 in
    let (packet, _, e5) = bind-eq-ok (plan_packet c.host id received available.0) _ e4 in
    Polls-then id db db1 done.1 (make_ready o db a) (
      subst (λ x. Polls id db1 x.1) (ok-injective e5)
        (append_ledger-Polls c id id "plan.available" "broker:awr" o.sender payload db1 b))

commit_unless-Polls :
    (c : Call) (o : WorkOrder) (complete : Option PlanPacket) (db : Db)
    {done : Option PlanPacket × Db}
    → commit_unless c o complete db ≡ ok done
    → Polls o.work_order_id db done.1
unfolding commit_unless
commit_unless-Polls c o (some p) db {done} e =
    idle o.work_order_id db done.1 (ap (λ x. x.1) (ok-injective e))
commit_unless-Polls c o none db e =
    commit_received-Polls c o (latest_from (list_ledger o.work_order_id db) "plan.received") db e

pub commit_existing_plan-Polls :
    (c : Call) (o : WorkOrder) (db : Db) {done : Option PlanPacket × Db}
    → commit_existing_plan c o db ≡ ok done
    → Polls o.work_order_id db done.1
unfolding commit_existing_plan
commit_existing_plan-Polls c o db e =
    let id = o.work_order_id in
    let (complete, _, e1) = bind-eq-ok (plan_from_entries c.host id (list_ledger id db)) _ e in
    commit_unless-Polls c o complete db e1
