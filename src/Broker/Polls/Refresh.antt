-- ===== src/Broker/Polls/Refresh.antt =====
-- A poll of a planning run (src/awr/service.py, `refresh_planning`), branch by branch.
use agent_work_relay.Prelude.{
  String, ◌≡◌, inl, inr, refl, ap, subst, not, Option, none, some, ok, Bool-cases, option_cases,
  bind-eq-ok, ok-injective,
}
use agent_work_relay.Host.{str, int, Fields, end, field}
use agent_work_relay.Contracts.{WorkOrder, LedgerEntry, plan_ready, failed, run_terminal}
use agent_work_relay.Broker.Records.{Outcome, Db, Call, validation_error, executor_error}
use agent_work_relay.Broker.Store.{update_status, append_ledger, list_ledger, latest_from}
use agent_work_relay.Broker.Service.{or_raise, require_work_order}
use agent_work_relay.Broker.Submitted.{require_work_order_found}
use agent_work_relay.Broker.Plans.{text_at, plan_packet, plan_from_ledger}
use agent_work_relay.Broker.Planning.{
  PlanningExecutor, PlanningRunResult, Refreshed, planned, plan_id_of, plan_payload, result_of,
  if_recorded, run_payload, commit_existing_plan, unless_planned, entry_unless, wait_for_run,
  fail_once, fail_run, receive_plan, record_run, poll_run, refresh_planning,
}
use agent_work_relay.Broker.View.{find_order-id}
use agent_work_relay.Broker.Polls.{
  Polls, Polls-then, idle, append_ledger-Polls, update_status-Polls, commit_existing_plan-Polls,
}

entry_unless-Polls :
    (c : Call) (o : WorkOrder) (event actor : String) (payload : Fields)
    (found : Option LedgerEntry) (db : Db) {r : LedgerEntry × Db}
    → entry_unless c o event actor payload found db ≡ ok r
    → Polls o.work_order_id db r.1
unfolding entry_unless
entry_unless-Polls c o event actor payload (some x) db {r} e =
    idle o.work_order_id db r.1 (ap (λ x. x.1) (ok-injective e))
entry_unless-Polls c o event actor payload none db e =
    append_ledger-Polls c o.work_order_id o.work_order_id event actor "broker:awr" payload db e

fail_once-Polls :
    (c : Call) (o : WorkOrder) (event actor : String) (payload : Fields)
    (found : Option LedgerEntry) (db : Db) {r : LedgerEntry × Db}
    → fail_once c o event actor payload found db ≡ ok r
    → Polls o.work_order_id db r.1
unfolding fail_once
fail_once-Polls c o event actor payload (some x) db {r} e =
    idle o.work_order_id db r.1 (ap (λ x. x.1) (ok-injective e))
fail_once-Polls c o event actor payload none db {r} e =
    let id = o.work_order_id in
    let (db1, a, e1) = bind-eq-ok (update_status id failed db) _ e in
    Polls-then id db db1 r.1 (update_status-Polls id failed db (inr refl) a)
      (append_ledger-Polls c id id event actor "broker:awr" payload db1 e1)

wait_for_run-Polls :
    (c : Call) (o : WorkOrder) (agent_id run_id : String) (run : PlanningRunResult) (db : Db)
    {done : Refreshed × Db}
    → wait_for_run c o agent_id run_id run db ≡ ok done
    → Polls o.work_order_id db done.1
unfolding wait_for_run
wait_for_run-Polls c o agent_id run_id run db e =
    let id = o.work_order_id in
    let found = if_recorded run.status (latest_from (list_ledger id db) "executor.status") in
    let payload = run_payload agent_id run_id run.status in
    let (r, a, e1) =
      bind-eq-ok (entry_unless c o "executor.status" run.executor payload found db) _ e in
    subst (λ x. Polls id db x.1) (ok-injective e1)
      (entry_unless-Polls c o "executor.status" run.executor payload found db a)

fail_run-Polls :
    (c : Call) (o : WorkOrder) (agent_id run_id : String) (run : PlanningRunResult) (db : Db)
    {done : Refreshed × Db}
    → fail_run c o agent_id run_id run db ≡ ok done
    → Polls o.work_order_id db done.1
unfolding fail_run
fail_run-Polls c o agent_id run_id run db e =
    let id = o.work_order_id in
    let found = latest_from (list_ledger id db) "executor.failed" in
    let payload = run_payload agent_id run_id run.status in
    let (r, a, e1) =
      bind-eq-ok (fail_once c o "executor.failed" run.executor payload found db) _ e in
    subst (λ x. Polls id db x.1) (ok-injective e1)
      (fail_once-Polls c o "executor.failed" run.executor payload found db a)

receive_plan-Polls :
    (c : Call) (o : WorkOrder) (agent_id run_id : String) (run : PlanningRunResult)
    (result : String) (db : Db) {done : Refreshed × Db}
    → receive_plan c o agent_id run_id run result db ≡ ok done
    → Polls o.work_order_id db done.1
unfolding receive_plan
receive_plan-Polls c o agent_id run_id run result db {done} e =
    let id = o.work_order_id in
    let h = c.host in
    let (received, a1, e1) =
      bind-eq-ok
        (append_ledger c id "plan.received" run.executor "broker:awr"
          (plan_payload h agent_id run_id run result) db)
        _ e in
    let (db2, a2, e2) = bind-eq-ok (update_status id plan_ready received.1) _ e1 in
    let payload = field "plan_id" (str (plan_id_of h result)) (
      field "content_sha256" (str (h.sha256 result))
        (field "received_sequence" (int received.0.sequence) end)) in
    let (available, a3, e3) =
      bind-eq-ok (append_ledger c id "plan.available" "broker:awr" o.sender payload db2) _ e2 in
    let (packet, _, e4) = bind-eq-ok (plan_packet h id received.0 available.0) _ e3 in
    let first =
      append_ledger-Polls c id id "plan.received" run.executor "broker:awr"
        (plan_payload h agent_id run_id run result) db a1 in
    let second = update_status-Polls id plan_ready received.1 (inl refl) a2 in
    let third = append_ledger-Polls c id id "plan.available" "broker:awr" o.sender payload db2 a3 in
    subst (λ x. Polls id db x.1) (ok-injective e4)
      (Polls-then id db db2 available.1 (Polls-then id db received.1 db2 first second) third)

record_run-Polls :
    (c : Call) (o : WorkOrder) (agent_id run_id : String) (run : PlanningRunResult) (db : Db)
    {done : Refreshed × Db}
    → record_run c o agent_id run_id run db ≡ ok done
    → Polls o.work_order_id db done.1
unfolding record_run
record_run-Polls c o agent_id run_id run db e = elim (Bool-cases (not (run_terminal run.status))) [
  | inl waits ↦ wait_for_run-Polls c o agent_id run_id run db (rw waits at e)
  | inr ended ↦ elim (option_cases (result_of run)) [
    | inl none_there ↦ fail_run-Polls c o agent_id run_id run db (rw (ended, none_there) at e)
    | inr there ↦
        let (result, is) = there in
        receive_plan-Polls c o agent_id run_id run result db (rw (ended, is) at e)
  ]
]

unless_planned-Polls :
    (c : Call) (o : WorkOrder) (step : Db → Outcome (Refreshed × Db)) (db : Db)
    {done : Refreshed × Db}
    → ((before : Db) (after : Refreshed × Db)
        → step before ≡ ok after
        → Polls o.work_order_id before after.1)
    → unless_planned c o step db ≡ ok done
    → Polls o.work_order_id db done.1
unfolding unless_planned
unless_planned-Polls c o step db {done} each e =
    let id = o.work_order_id in
    let (committed, a, e1) = bind-eq-ok (commit_existing_plan c o db) _ e in
    let first = commit_existing_plan-Polls c o db a in
    elim (option_cases committed.0) [
      | inr there ↦
          let (p, is) = there in
          let same : ok (planned p, committed.1) ≡ ok done = rw is at e1 in
          subst (λ x. Polls id db x.1) (ok-injective same) first
      | inl none_there ↦
          Polls-then id db committed.1 done.1 first (each committed.1 done (rw none_there at e1))
    ]

poll_run-Polls :
    (c : Call) (x : PlanningExecutor) (o : WorkOrder) (db : Db) {done : Refreshed × Db}
    → poll_run c x o db ≡ ok done
    → Polls o.work_order_id db done.1
unfolding poll_run
poll_run-Polls c x o db e =
    let (row, _, e1) =
      bind-eq-ok
        (or_raise (latest_from (list_ledger o.work_order_id db) "executor.acknowledged")
          validation_error)
        _ e in
    let (agent_id, _, e2) = bind-eq-ok (text_at c.host row.payload "executor_agent_id") _ e1 in
    let (run_id, _, e3) = bind-eq-ok (text_at c.host row.payload "executor_run_id") _ e2 in
    let (run, _, e4) =
      bind-eq-ok (or_raise (x.get_planning_run agent_id run_id) executor_error) _ e3 in
    unless_planned-Polls c o (record_run c o agent_id run_id run) db
      (λ before after is. record_run-Polls c o agent_id run_id run before is) e4

-- A refresh of the planning of a work order leaves the snapshots, the decisions and every other work
-- order as they are, and its own work order but for the status, which may be PLAN_READY or FAILED
-- now.
pub refresh_planning-Polls :
    (c : Call) (x : PlanningExecutor) (id : String) (db : Db) {done : Refreshed × Db}
    → refresh_planning c x id db ≡ ok done
    → Polls id db done.1
unfolding refresh_planning
refresh_planning-Polls c x id db {done} e =
    let (o, a, e1) = bind-eq-ok (require_work_order id db) _ e in
    let (existing, _, e2) = bind-eq-ok (plan_from_ledger c.host id db) _ e1 in
    let named = find_order-id id db.orders (require_work_order_found id db a) in
    elim (option_cases existing) [
      | inr there ↦
          let (p, is) = there in
          let same : ok (planned p, db) ≡ ok done = rw is at e2 in
          idle id db done.1 (ap (λ x. x.1) (ok-injective same))
      | inl none_there ↦
          subst (λ i. Polls i db done.1) named
            (unless_planned-Polls c o (poll_run c x o) db
              (λ before after is. poll_run-Polls c x o before is) (rw none_there at e2))
    ]
