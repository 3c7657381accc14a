-- ===== src/Contracts.antt =====
-- src/awr/contracts.py: the states of a work order and the outcomes of an executor's run.
use agent_work_relay.Prelude.{ℕ, String, Bool, true, false, nat_eq, Option}
use agent_work_relay.Host.{Fields}

pub data WorkKind : Type 0 where
  feature refinement : WorkKind

pub data WorkStatus : Type 0 where
  accepted routed planning plan_ready waiting_for_plan_approval : WorkStatus
  ready_for_execution execution_dispatched executing completion_ready : WorkStatus
  planner_reviewing revision_required waiting_for_human_review : WorkStatus
  waiting_for_input complete failed cancelled : WorkStatus

-- The place of a status in the enumeration.
abbrev pub rank : WorkStatus → ℕ
rank accepted = 0
rank routed = 1
rank planning = 2
rank plan_ready = 3
rank waiting_for_plan_approval = 4
rank ready_for_execution = 5
rank execution_dispatched = 6
rank executing = 7
rank completion_ready = 8
rank planner_reviewing = 9
rank revision_required = 10
rank waiting_for_human_review = 11
rank waiting_for_input = 12
rank complete = 13
rank failed = 14
rank cancelled = 15

-- `a is b`
abbrev pub status_is : WorkStatus → WorkStatus → Bool
status_is a b = nat_eq (rank a) (rank b)

-- `status.value`
unfoldable pub status_value : WorkStatus → String
status_value accepted = "ACCEPTED"
status_value routed = "ROUTED"
status_value planning = "PLANNING"
status_value plan_ready = "PLAN_READY"
status_value waiting_for_plan_approval = "WAITING_FOR_PLAN_APPROVAL"
status_value ready_for_execution = "READY_FOR_EXECUTION"
status_value execution_dispatched = "EXECUTION_DISPATCHED"
status_value executing = "EXECUTING"
status_value completion_ready = "COMPLETION_READY"
status_value planner_reviewing = "PLANNER_REVIEWING"
status_value revision_required = "REVISION_REQUIRED"
status_value waiting_for_human_review = "WAITING_FOR_HUMAN_REVIEW"
status_value waiting_for_input = "WAITING_FOR_INPUT"
status_value complete = "COMPLETE"
status_value failed = "FAILED"
status_value cancelled = "CANCELLED"

abbrev pub terminal : WorkStatus → Bool
terminal complete = true
terminal failed = true
terminal cancelled = true
terminal _ = false

pub data ExecutorRunStatus : Type 0 where
  creating running finished error run_cancelled expired : ExecutorRunStatus

abbrev pub run_terminal : ExecutorRunStatus → Bool
run_terminal creating = false
run_terminal running = false
run_terminal _ = true

-- `run.status.value`
unfoldable pub run_value : ExecutorRunStatus → String
run_value creating = "CREATING"
run_value running = "RUNNING"
run_value finished = "FINISHED"
run_value error = "ERROR"
run_value run_cancelled = "CANCELLED"
run_value expired = "EXPIRED"

pub data WorkAction : Type 0 where
  plan : WorkAction

pub record Directive : Type 0 where
  pub kind : WorkKind
  pub action : WorkAction
  pub parent_work_order_id : Option String
  pub form : String

pub record WorkOrder : Type 0 where
  pub work_order_id : String
  pub idempotency_key : String
  pub sender : String
  pub recipient : String
  pub kind : WorkKind
  pub action : WorkAction
  pub parent_work_order_id : Option String
  pub repository_url : String
  pub base_ref : String
  pub markdown : String
  pub content_sha256 : String
  pub wrapper_id : String
  pub wrapper_version : String
  pub wrapper_sha256 : String
  pub status : WorkStatus
  pub created_at : String
  pub bundle_sha256 : Option String

pub record LedgerEntry : Type 0 where
  pub sequence : ℕ
  pub event_id : String
  pub work_order_id : String
  pub event_type : String
  pub actor : String
  pub counterparty : String
  pub payload : Fields
  pub created_at : String
