-- ===== src/Broker/Records.antt =====
-- The rows of the broker's tables in src/awr/storage/sqlite.py, the errors of src/awr/service.py, and
-- what a call reads from its surroundings. A column of JSON text holds the value that it encodes.
use agent_work_relay.Prelude.{ℕ, String, Option, List, Result}
use agent_work_relay.Host.{Host, Fields}
use agent_work_relay.Contracts.{WorkOrder, LedgerEntry}
use agent_work_relay.Lifecycle.Decisions.{StoredDecision}
use agent_work_relay.Lifecycle.Kernel.Snapshot.{LifecycleSnapshot}

-- WorkOrderValidationError, sqlite3.IntegrityError, KeyError, the ValueError of a time that does not
-- parse, and what an executor raises.
pub data ServiceError : Type 0 where
  validation_error integrity_error key_error value_error executor_error : ServiceError

abbrev pub Outcome : Type 0 → Type 0
Outcome A = Result ServiceError A

pub record ResponseRow : Type 0 where
  pub packet_id : String
  pub work_order_id : String
  pub response_type : String
  pub actor : String
  pub idempotency_key : String
  pub content_sha256 : String
  pub in_reply_to : String
  pub source_input_sha256 : String
  pub packet : Fields
  pub receipt : Option Fields
  pub created_at : String

pub record DecisionRow : Type 0 where
  pub decision : StoredDecision
  pub fingerprint : Option String
  pub receipt : Option Fields

pub record SnapshotRow : Type 0 where
  pub work_order_id : String
  pub snapshot : LifecycleSnapshot

pub data DispatchState : Type 0 where
  pending leased provider_accepted acknowledged reconciliation_required failed : DispatchState

pub record DispatchRow : Type 0 where
  pub dispatch_id : String
  pub work_order_id : String
  pub attempt : ℕ
  pub plan_id : String
  pub plan_sha256 : String
  pub approval_decision_id : String
  pub executor : String
  pub repository_url : String
  pub base_ref : String
  pub wrapper_id : String
  pub wrapper_version : String
  pub wrapper_sha256 : String
  pub provider_idempotency_key : String
  pub state : DispatchState
  pub attempt_count : ℕ
  pub lease_owner : Option String
  pub lease_expires_at : Option String
  pub provider_agent_id : Option String
  pub provider_run_id : Option String
  pub last_failure_code : Option String
  pub wrapped_markdown : String
  pub existing_agent_id : Option String
  pub receipt : Option Fields
  pub created_at : String
  pub updated_at : String

-- `last_sequence` is what AUTOINCREMENT counts from.
pub record Db : Type 0 where
  pub orders : List WorkOrder
  pub ledger : List LedgerEntry
  pub last_sequence : ℕ
  pub responses : List ResponseRow
  pub decisions : List DecisionRow
  pub snapshots : List SnapshotRow
  pub dispatches : List DispatchRow

pub record Call : Type 0 where
  pub host : Host
  -- `datetime.now(UTC).isoformat()`
  pub now_text : String
  -- `str(uuid4())`, for the ID that the call makes
  pub uuid : String
  -- `f"evt-{uuid4()}"`, for the ledger row of that number
  pub event_id : ℕ → String
  -- the time that the database writes into a ledger row
  pub row_time : String
  -- `current_principal().subject`
  pub principal : Option String
