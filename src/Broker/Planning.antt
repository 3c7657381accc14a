-- ===== src/Broker/Planning.antt =====
-- src/awr/service.py: a work order on its way to a plan: routing, the planning run, and the plan.
-- A transaction that raises writes nothing, but the ones before it stay: the calls that run several
-- return the tables beside an error too.
pub mod Plans
use agent_work_relay.Prelude.{
  ℕ, String, Bool, true, false, not, ◌&&◌, ◌||◌, ◌==◌, Option, none, some, List, [], ◌∷◌, Result,
  ok, err, ◌>>=◌, ◌>>◌, require, option_eq, concat, text_take, if◌then◌else◌,
}
use agent_work_relay.Host.{
  Host, Value, null, str, int, dict, Fields, end, field, get, text_value, value_eq, to_text,
}
use agent_work_relay.Contracts.{
  WorkStatus, WorkOrder, LedgerEntry, ExecutorRunStatus, accepted, routed, planning, plan_ready,
  failed, finished, status_is, run_value, run_terminal,
}
use agent_work_relay.Broker.Records.{
  Outcome, ServiceError, validation_error, executor_error, Db, Call,
}
use agent_work_relay.Broker.Store.{
  update_status, append_ledger, list_ledger, latest_from, create_work_order,
}
use agent_work_relay.Broker.Service.{or_raise, require_work_order}
use agent_work_relay.Broker.Plans.{
  PlanPacket, text_at, plan_packet, plan_from_entries, plan_from_ledger,
}

pub record PlanningDispatch : Type 0 where
  pub work_order_id : String
  pub recipient : String
  pub mode : String
  pub repository_url : String
  pub base_ref : String
  pub existing_agent_id : Option String
  pub wrapped_markdown : String
  pub content_sha256 : String
  pub wrapper_id : String
  pub wrapper_version : String
  pub wrapper_sha256 : String

pub record ExecutorAcknowledgement : Type 0 where
  pub executor_agent_id : String
  pub executor_run_id : String
  pub executor : String
  pub executor_url : Option String
  pub accepted : Bool
  pub message : String

pub record PlanningRunResult : Type 0 where
  pub executor : String
  pub status : ExecutorRunStatus
  pub result : Option String
  pub duration_ms : Value
  pub git : Value

-- `submit_for_planning` returns, or raises an error of the named type.
pub data Answer : Type 0 where
  answered : ExecutorAcknowledgement → Answer
  raised : String → String → Answer

-- `self.executor`
pub record PlanningExecutor : Type 0 where
  pub name : String
  pub submit_for_planning : PlanningDispatch → Answer
  -- `none` where it raises
  pub get_planning_run : String → String → Option PlanningRunResult

pub record SubmissionReceipt : Type 0 where
  pub receipt_type : String
  pub work_order_id : String
  pub content_sha256 : String
  pub status : WorkStatus
  pub duplicate : Bool
  pub executor_run_id : Option String
  pub ledger_sequence : ℕ
  pub bundle_sha256 : Option String

pub record PlanningStatusReceipt : Type 0 where
  pub work_order_id : String
  pub status : WorkStatus
  pub executor_status : ExecutorRunStatus
  pub executor_agent_id : String
  pub executor_run_id : String
  pub ledger_sequence : ℕ

pub data Refreshed : Type 0 where
  planned : PlanPacket → Refreshed
  waiting : PlanningStatusReceipt → Refreshed

-- `_commit_existing_plan`, for the row of a plan that was received and not made available
unfoldable pub commit_received :
    Call → WorkOrder → Option LedgerEntry → Db → Outcome (Option PlanPacket × Db)
commit_received c o none db = ok (none, db)
commit_received c o (some received) db = do
  db1 ← if status_is o.status plan_ready then ok db else update_status o.work_order_id plan_ready db
  plan_id ← text_at c.host received.payload "plan_id"
  digest ← text_at c.host received.payload "content_sha256"
  available ←
      append_ledger c o.work_order_id "plan.available" "broker:awr" o.sender
        (field "plan_id" (str plan_id) (
          field "content_sha256" (str digest)
            (field "received_sequence" (int received.sequence) end)))
        db1
  packet ← plan_packet c.host o.work_order_id received available.0
  ok (some packet, available.1)

unfoldable pub commit_unless :
    Call → WorkOrder → Option PlanPacket → Db → Outcome (Option PlanPacket × Db)
commit_unless c o (some packet) db = ok (some packet, db)
commit_unless c o none db =
    commit_received c o (latest_from (list_ledger o.work_order_id db) "plan.received") db

unfoldable pub commit_existing_plan : Call → WorkOrder → Db → Outcome (Option PlanPacket × Db)
commit_existing_plan c o db = do
  complete ← plan_from_entries c.host o.work_order_id (list_ledger o.work_order_id db)
  commit_unless c o complete db

-- A transaction that begins with `_commit_existing_plan` and ends there if there is a plan.
unfoldable pub unless_planned :
    Call → WorkOrder → (Db → Outcome (Refreshed × Db)) → Db → Outcome (Refreshed × Db)
unless_planned c o step db = do
  committed ← commit_existing_plan c o db
  elim committed.0 [ some p ↦ ok (planned p, committed.1) | none ↦ step committed.1 ]

abbrev pub run_payload : String → String → ExecutorRunStatus → Fields
run_payload agent_id run_id status =
    field "executor_agent_id" (str agent_id)
      (field "executor_run_id" (str run_id) (field "status" (str (run_value status)) end))

abbrev status_recorded : ExecutorRunStatus → Option LedgerEntry → Bool
status_recorded status none = false
status_recorded status (some e) = value_eq (get e.payload "status") (some (run_value status))

-- The row that is there, or a new one.
unfoldable pub entry_unless :
    Call
    → WorkOrder
    → String
    → String
    → Fields
    → Option LedgerEntry
    → Db
    → Outcome (LedgerEntry × Db)
entry_unless c o event actor payload (some e) db = ok (e, db)
entry_unless c o event actor payload none db =
    append_ledger c o.work_order_id event actor "broker:awr" payload db

abbrev pub if_recorded : ExecutorRunStatus → Option LedgerEntry → Option LedgerEntry
if_recorded status e = if status_recorded status e then e else none

unfoldable pub wait_for_run :
    Call → WorkOrder → String → String → PlanningRunResult → Db → Outcome (Refreshed × Db)
wait_for_run c o agent_id run_id run db = do
  e ←
      entry_unless c o "executor.status" run.executor (run_payload agent_id run_id run.status)
        (if_recorded run.status (latest_from (list_ledger o.work_order_id db) "executor.status")) db
  ok (
    waiting (record {
      work_order_id = o.work_order_id;
      status = o.status;
      executor_status = run.status;
      executor_agent_id = agent_id;
      executor_run_id = run_id;
      ledger_sequence = e.0.sequence;
    }),
    e.1,
  )

-- The work order fails, once.
unfoldable pub fail_once :
    Call
    → WorkOrder
    → String
    → String
    → Fields
    → Option LedgerEntry
    → Db
    → Outcome (LedgerEntry × Db)
fail_once c o event actor payload (some e) db = ok (e, db)
fail_once c o event actor payload none db = do
  db1 ← update_status o.work_order_id failed db
  append_ledger c o.work_order_id event actor "broker:awr" payload db1

unfoldable pub fail_run :
    Call → WorkOrder → String → String → PlanningRunResult → Db → Outcome (Refreshed × Db)
fail_run c o agent_id run_id run db = do
  e ←
      fail_once c o "executor.failed" run.executor (run_payload agent_id run_id run.status)
        (latest_from (list_ledger o.work_order_id db) "executor.failed") db
  ok (
    waiting (record {
      work_order_id = o.work_order_id;
      status = failed;
      executor_status = run.status;
      executor_agent_id = agent_id;
      executor_run_id = run_id;
      ledger_sequence = e.0.sequence;
    }),
    e.1,
  )

abbrev pub plan_id_of : Host → String → String
plan_id_of h result = concat "PLAN-" (text_take 24 (h.sha256 result))

abbrev pub plan_payload : Host → String → String → PlanningRunResult → String → Fields
plan_payload h agent_id run_id run result = field "plan_id" (str (plan_id_of h result)) (
    field "executor_agent_id" (str agent_id) (
      field "executor_run_id" (str run_id) (
        field "content" (str result) (
          field "content_sha256" (str (h.sha256 result))
            (field "duration_ms" run.duration_ms (field "git" run.git end))))))

unfoldable pub receive_plan :
    Call → WorkOrder → String → String → PlanningRunResult → String → Db → Outcome (Refreshed × Db)
receive_plan c o agent_id run_id run result db = do
  received ←
      append_ledger c o.work_order_id "plan.received" run.executor "broker:awr"
        (plan_payload c.host agent_id run_id run result) db
  db2 ← update_status o.work_order_id plan_ready received.1
  available ←
      append_ledger c o.work_order_id "plan.available" "broker:awr" o.sender
        (field "plan_id" (str (plan_id_of c.host result)) (
          field "content_sha256" (str (c.host.sha256 result))
            (field "received_sequence" (int received.0.sequence) end)))
        db2
  packet ← plan_packet c.host o.work_order_id received.0 available.0
  ok (planned packet, available.1)

-- `run.result` of a run that is FINISHED
abbrev pub result_of : PlanningRunResult → Option String
result_of run = elim run.status [ finished ↦ run.result | _ ↦ none ]

unfoldable pub record_run :
    Call → WorkOrder → String → String → PlanningRunResult → Db → Outcome (Refreshed × Db)
record_run c o agent_id run_id run db =
    if not (run_terminal run.status)
    then wait_for_run c o agent_id run_id run db
    else elim (result_of run) [
      | none ↦ fail_run c o agent_id run_id run db
      | some result ↦ receive_plan c o agent_id run_id run result db
    ]

unfoldable pub poll_run : Call → PlanningExecutor → WorkOrder → Db → Outcome (Refreshed × Db)
poll_run c x o db = do
  acknowledged ←
      or_raise (latest_from (list_ledger o.work_order_id db) "executor.acknowledged")
        validation_error
  agent_id ← text_at c.host acknowledged.payload "executor_agent_id"
  run_id ← text_at c.host acknowledged.payload "executor_run_id"
  run ← or_raise (x.get_planning_run agent_id run_id) executor_error
  unless_planned c o (record_run c o agent_id run_id run) db

-- `refresh_planning`
unfoldable pub refresh_planning : Call → PlanningExecutor → String → Db → Outcome (Refreshed × Db)
refresh_planning c x id db = do
  o ← require_work_order id db
  existing ← plan_from_ledger c.host id db
  elim existing [ some p ↦ ok (planned p, db) | none ↦ unless_planned c o (poll_run c x o) db ]
