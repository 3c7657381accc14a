-- ===== src/Broker/Routing.antt =====
-- src/awr/service.py: `_ensure_routed`, `_route_and_dispatch`, and what `submit_prompt_for_planning`
-- does from its candidate on. An error stands beside the tables that the earlier transactions left.
use agent_work_relay.Prelude.{
  ℕ, String, Bool, true, false, not, ◌&&◌, ◌||◌, ◌==◌, Option, none, some, ok, err, ◌>>=◌, require,
  option_eq, if◌then◌else◌,
}
use agent_work_relay.Host.{Fields, str, int, end, field, text_value}
use agent_work_relay.Contracts.{
  WorkStatus, WorkOrder, LedgerEntry, accepted, routed, planning, failed, status_is,
}
use agent_work_relay.Broker.Records.{
  Outcome, ServiceError, validation_error, key_error, executor_error, Db, Call,
}
use agent_work_relay.Broker.Store.{
  update_status, append_ledger, list_ledger, latest_from, create_work_order,
}
use agent_work_relay.Broker.Service.{or_raise, require_work_order}
use agent_work_relay.Broker.Plans.{text_at}
use agent_work_relay.Broker.Planning.{
  PlanningDispatch, ExecutorAcknowledgement, Answer, answered, raised, PlanningExecutor,
  SubmissionReceipt, fail_once,
}

-- The result of several transactions, and the tables after them.
abbrev pub Done : Type 0 → Type 0
Done A = Outcome A × Db

-- A transaction: an error leaves the tables as they were.
abbrev pub transaction : {A : Type 0} → (Db → Outcome (A × Db)) → Db → Done A
transaction step db = elim (step db) [ ok r ↦ (ok r.0, r.1) | err e ↦ (err e, db) ]

abbrev pub and_then : {A B : Type 0} → Done A → (A → Db → Done B) → Done B
and_then done next = elim done.0 [ ok a ↦ next a done.1 | err e ↦ (err e, done.1) ]

abbrev is_unrouted : WorkStatus → Bool
is_unrouted status = status_is status accepted || status_is status failed

routed_again : WorkOrder → LedgerEntry → Db → Outcome (LedgerEntry × Db)
routed_again o existing db =
    if is_unrouted o.status
    then (do db1 ← update_status o.work_order_id routed db; ok (existing, db1))
    else ok (existing, db)

route_first : Call → String → WorkOrder → Db → Outcome (LedgerEntry × Db)
route_first c executor o db = do
  e ←
      append_ledger c o.work_order_id "work_order.routed" "broker:awr" o.recipient
        (field "mode" (str "PLAN_ONLY") (
          field "executor" (str executor) (
            field "repository_url" (str o.repository_url) (field "base_ref" (str o.base_ref) end))))
        db
  db2 ← update_status o.work_order_id routed e.1
  ok (e.0, db2)

unfoldable pub route_unless :
    Call → String → WorkOrder → Option LedgerEntry → Db → Outcome (LedgerEntry × Db)
unfolding routed_again route_first
route_unless c executor o (some existing) db = routed_again o existing db
route_unless c executor o none db = route_first c executor o db

-- `_ensure_routed`
unfoldable pub ensure_routed : Call → String → WorkOrder → Db → Outcome (LedgerEntry × Db)
ensure_routed c executor o db =
    route_unless c executor o (latest_from (list_ledger o.work_order_id db) "work_order.routed") db

-- `_parent_agent_id`
unfoldable pub parent_agent_id : Call → Option WorkOrder → Db → Outcome (Option String)
parent_agent_id c none db = ok none
parent_agent_id c (some parent) db = do
  e ←
      or_raise (latest_from (list_ledger parent.work_order_id db) "executor.acknowledged")
        validation_error
  agent ← text_at c.host e.payload "executor_agent_id"
  ok (some agent)

unfoldable pub planning_dispatch : WorkOrder → String → Option String → PlanningDispatch
planning_dispatch o wrapped agent = record {
  work_order_id = o.work_order_id;
  recipient = o.recipient;
  mode = "PLAN_ONLY";
  repository_url = o.repository_url;
  base_ref = o.base_ref;
  existing_agent_id = agent;
  wrapped_markdown = wrapped;
  content_sha256 = o.content_sha256;
  wrapper_id = o.wrapper_id;
  wrapper_version = o.wrapper_version;
  wrapper_sha256 = o.wrapper_sha256;
}

-- The status of the work order as a transaction reads it.
abbrev pub receipt_of :
    String → WorkOrder → WorkStatus → Bool → String → LedgerEntry → SubmissionReceipt
receipt_of receipt_type o status duplicate run_id e = record {
  receipt_type = receipt_type;
  work_order_id = o.work_order_id;
  content_sha256 = o.content_sha256;
  status = status;
  duplicate = duplicate;
  executor_run_id = some run_id;
  ledger_sequence = e.sequence;
  bundle_sha256 = o.bundle_sha256;
}

-- The `except` clause: the work order fails unless its executor has acknowledged it; then the error
-- is raised again.
unfoldable pub fail_submission :
    Call → String → WorkOrder → String → String → ServiceError → Db → Done SubmissionReceipt
fail_submission c executor o error_type message e db =
    let marked =
      transaction
        (λ t. elim (latest_from (list_ledger o.work_order_id t) "executor.acknowledged") [
          | some a ↦ ok (tt, t)
          | none ↦ do
            r ←
                fail_once c o "executor.failed" executor
                  (field "error_type" (str error_type) (field "message" (str message) end)) none t
            ok (tt, r.1)
        ])
        db in
    and_then marked (λ _ t. (err e, t))

unfoldable pub refuse_submission :
    Call → WorkOrder → ExecutorAcknowledgement → Db → Outcome (SubmissionReceipt × Db)
refuse_submission c o a db = do
  e ←
      fail_once c o "executor.rejected" a.executor (field "message" (str a.message) end)
        (latest_from (list_ledger o.work_order_id db) "executor.rejected") db
  ok (receipt_of "executor.rejected" o failed false a.executor_run_id e.0, e.1)

abbrev acknowledgement_payload : ExecutorAcknowledgement → LedgerEntry → Fields
acknowledgement_payload a routing = field "executor_agent_id" (str a.executor_agent_id) (
    field "executor_run_id" (str a.executor_run_id) (
      field "executor_url" (text_value a.executor_url)
        (field "message" (str a.message) (field "routed_sequence" (int routing.sequence) end))))

unfoldable pub acknowledge_unless :
    Call
    → WorkOrder
    → ExecutorAcknowledgement
    → LedgerEntry
    → Option LedgerEntry
    → Db
    → Outcome (SubmissionReceipt × Db)
acknowledge_unless c o a routing (some e) db = do
  current ← require_work_order o.work_order_id db
  run_id ← text_at c.host e.payload "executor_run_id"
  ok (receipt_of "executor.acknowledged" o current.status true run_id e, db)
acknowledge_unless c o a routing none db = do
  db1 ← update_status o.work_order_id planning db
  e ←
      append_ledger c o.work_order_id "executor.acknowledged" a.executor "broker:awr"
        (acknowledgement_payload a routing) db1
  ok (receipt_of "executor.acknowledged" o planning false a.executor_run_id e.0, e.1)

unfoldable pub after_answer :
    Call → String → WorkOrder → LedgerEntry → Answer → Db → Done SubmissionReceipt
after_answer c executor o routing (raised error_type message) db =
    fail_submission c executor o error_type message executor_error db
after_answer c executor o routing (answered a) db =
    if not a.accepted
    then transaction (refuse_submission c o a) db
    else transaction
        (λ t.
          acknowledge_unless c o a routing
            (latest_from (list_ledger o.work_order_id t) "executor.acknowledged") t)
        db

-- `type(exc).__name__` and `str(exc)` of what `_parent_agent_id` raises
abbrev error_name : ServiceError → String
error_name key_error = "KeyError"
error_name e = "WorkOrderValidationError"

abbrev error_text : ServiceError → String
error_text key_error = "'executor_agent_id'"
error_text e = "The parent work order has no durable executor session to refine."

-- `_route_and_dispatch`. That the parent has no agent is an error inside the `try`, too.
unfoldable pub route_and_dispatch :
    Call → PlanningExecutor → WorkOrder → String → Option WorkOrder → Db → Done SubmissionReceipt
route_and_dispatch c x o wrapped parent db =
    and_then (transaction (ensure_routed c x.name o) db) (λ routing t.
      elim (parent_agent_id c parent t) [
        | err e ↦ fail_submission c x.name o (error_name e) (error_text e) e t
        | ok agent ↦
            after_answer c x.name o routing
              (x.submit_for_planning (planning_dispatch o wrapped agent)) t
      ])

-- `_validate_replay`
unfoldable pub validate_replay : WorkOrder → WorkOrder → Outcome (Unit {0})
validate_replay o existing =
    require
      (o.sender == existing.sender
        && o.recipient == existing.recipient
        && option_eq o.parent_work_order_id existing.parent_work_order_id
        && o.repository_url == existing.repository_url
        && o.base_ref == existing.base_ref
        && o.content_sha256 == existing.content_sha256
        && option_eq o.bundle_sha256 existing.bundle_sha256)
      validation_error

duplicate_submission : Call → WorkOrder → ℕ → LedgerEntry → Outcome SubmissionReceipt
duplicate_submission c o sequence e = do
  run_id ← text_at c.host e.payload "executor_run_id"
  ok (record {
    receipt_type = "work_order.accepted";
    work_order_id = o.work_order_id;
    content_sha256 = o.content_sha256;
    status = o.status;
    duplicate = true;
    executor_run_id = some run_id;
    ledger_sequence = sequence;
    bundle_sha256 = o.bundle_sha256;
  })

-- `submit_prompt_for_planning` from its candidate on; `wrap` gives the Markdown of `wrap_prompt` for the
-- ID of a work order.
unfoldable pub submit_candidate :
    Call
    → PlanningExecutor
    → (String → String)
    → WorkOrder
    → Option WorkOrder
    → Db
    → Done SubmissionReceipt
unfolding duplicate_submission
submit_candidate c x wrap candidate parent db =
    and_then {A = WorkOrder × Bool × ℕ}
      (transaction {A = WorkOrder × Bool × ℕ}
        (λ t. do r ← create_work_order c candidate t; ok ((r.0, r.1, r.2), r.3)) db)
      (λ r t.
        if r.1
        then route_and_dispatch c x r.0 (wrap r.0.work_order_id) parent t
        else elim (validate_replay candidate r.0) [
          | err e ↦ (err e, t)
          | ok _ ↦ elim (latest_from (list_ledger r.0.work_order_id t) "executor.acknowledged") [
            | some e ↦ (duplicate_submission c r.0 r.2 e, t)
            | none ↦ route_and_dispatch c x r.0 (wrap r.0.work_order_id) parent t
          ]
        ])
