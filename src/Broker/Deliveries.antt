-- ===== src/Broker/Deliveries.antt =====
-- src/awr/service.py: what the broker notes on a dispatch while a provider runs it, and the packets
-- that it makes itself.
use agent_work_relay.Prelude.{
  String, Bool, true, false, ◌&&◌, ◌==◌, Option, none, some, List, [], ◌∷◌, ok, err, ◌>>=◌, last,
  if◌then◌else◌,
}
use agent_work_relay.Host.{Value, bool, str, dict, Fields, end, field, get, value_eq, text_value}
use agent_work_relay.Contracts.{WorkOrder, status_value}
use agent_work_relay.Lifecycle.Responses.{ResponsePacket, ResponseType}
use agent_work_relay.Responses.Payload.{type_value}
use agent_work_relay.Responses.Packet.{response_schema, response_authority, parse_response_packet}
use agent_work_relay.Broker.Records.{
  Outcome, validation_error, key_error, DispatchState, provider_accepted, acknowledged,
  reconciliation_required, DispatchRow, Db, Call,
}
use agent_work_relay.Broker.Store.{find_order, is_found, list_ledger, latest_from}
use agent_work_relay.Broker.Service.{or_raise, unchecked, require_work_order, snapshot_from_session}
use agent_work_relay.Broker.Dispatches.{list_dispatches, update_execution_dispatch}

pub record ExecutionAcknowledgement : Type 0 where
  pub executor_agent_id : String
  pub executor_run_id : String
  pub executor : String
  pub accepted : Bool
  pub message : String
  pub executor_url : Option String

-- `session.get_execution_dispatch(id)`
unfoldable pub session_dispatch : String → String → List DispatchRow → Option DispatchRow
session_dispatch order id [] = none
session_dispatch order id (row ∷ rest) =
    if row.work_order_id == order && row.dispatch_id == id
    then some row
    else session_dispatch order id rest

-- `session.get_execution_dispatch(...) or dispatch`
abbrev pub current_or : DispatchRow → Db → DispatchRow
current_or row db = elim (session_dispatch row.work_order_id row.dispatch_id db.dispatches) [
  | none ↦ row
  | some r ↦ r
]

-- `lock_work_order`, for a work order that must be there
abbrev locked : String → Db → Outcome WorkOrder
locked id db = or_raise (find_order id db.orders) key_error

abbrev is_acknowledged : DispatchState → Bool
is_acknowledged acknowledged = true
is_acknowledged _ = false

unfoldable pub accepted_row : Call → ExecutionAcknowledgement → DispatchRow → DispatchRow
accepted_row c a row = record row {
  state = provider_accepted;
  provider_agent_id = some a.executor_agent_id;
  provider_run_id = some a.executor_run_id;
  updated_at = c.now_text;
}

-- A dispatch that is acknowledged stays as it is.
unfoldable pub note_acceptance :
    Call → ExecutionAcknowledgement → DispatchRow → Db → DispatchRow × Db
note_acceptance c a current db =
    if is_acknowledged current.state
    then (current, db)
    else (accepted_row c a current, update_execution_dispatch (accepted_row c a current) db)

-- `_persist_provider_acceptance`
unfoldable pub persist_provider_acceptance :
    Call → DispatchRow → ExecutionAcknowledgement → Db → Outcome (DispatchRow × Db)
persist_provider_acceptance c row a db = do
  o ← locked row.work_order_id db
  ok (note_acceptance c a (current_or row db) db)

unfoldable pub unproven_row : Call → String → DispatchRow → DispatchRow
unproven_row c code row = record row {
  state = reconciliation_required;
  last_failure_code = some code;
  updated_at = c.now_text;
  lease_owner = none;
  lease_expires_at = none;
}

-- `_mark_reconciliation`
unfoldable pub mark_reconciliation : Call → DispatchRow → String → Db → Outcome (Fields × Db)
mark_reconciliation c row code db = do
  o ← locked row.work_order_id db
  ok (
    field "receipt_type" (str "execution.reconciliation_required") (
        field "work_order_id" (str row.work_order_id) (
          field "dispatch_id" (str row.dispatch_id)
            (field "status" (str (status_value o.status)) (field "error" (str code) end)))),
    update_execution_dispatch (unproven_row c code (current_or row db)) db,
  )

-- `_latest_dispatch`
unfoldable pub latest_dispatch : String → Db → Option DispatchRow
latest_dispatch id db = last (list_dispatches id db)

-- `_remember_dispatch_receipt`
unfoldable pub remember_dispatch_receipt : Call → String → Fields → Db → Outcome (Fields × Db)
remember_dispatch_receipt c id receipt db = elim (latest_dispatch id db) [
  | none ↦ ok (receipt, db)
  | some row ↦ do
    o ← locked id db
    ok (
      receipt,
      update_execution_dispatch
          (record (current_or row db) { receipt = some receipt; updated_at = c.now_text }) db,
    )
]

-- `receipt[key] = value`
unfoldable pub set_key : String → Value → Fields → Fields
set_key key v end = field key v end
set_key key v (field k w rest) = if k == key then field k v rest else field k w (set_key key v rest)

abbrev as_repeated : String → Fields → Fields
as_repeated status receipt = set_key "duplicate" (bool true) (set_key "status" (str status) receipt)

abbrev receipt_in : Option DispatchRow → Option Fields
receipt_in none = none
receipt_in (some row) = row.receipt

-- `_replay_blocked_execution_receipt`
unfoldable pub replay_blocked_execution_receipt : String → Db → Outcome Fields
replay_blocked_execution_receipt id db = elim (receipt_in (latest_dispatch id db)) [
  | none ↦ err validation_error
  | some receipt ↦
      if value_eq (get receipt "response_type") (some "question.blocked")
      then ok (as_repeated "WAITING_FOR_INPUT" receipt)
      else err validation_error
]

-- `_terminal_execution_receipt`
unfoldable pub terminal_execution_receipt : String → Db → Outcome Fields
terminal_execution_receipt id db = do
  o ← require_work_order id db
  ok (elim (receipt_in (latest_dispatch id db)) [
    | some receipt ↦ as_repeated (status_value o.status) receipt
    | none ↦
        field "receipt_type"
          (str (
            if is_found (latest_from (list_ledger id db) "execution.completed")
            then "execution.completed"
            else "execution.refresh"))
          (field "work_order_id" (str id)
            (field "status" (str (status_value o.status)) (field "duplicate" (bool true) end)))
  ])

-- `_trusted_response`: the lineage is that of the stored snapshot.
unfoldable pub trusted_response :
    Call → WorkOrder → ResponseType → Fields → String → Option String → Db → Outcome ResponsePacket
trusted_response c o t payload key run_id db = do
  stored ← locked o.work_order_id db
  let s = snapshot_from_session o db
  unchecked (
      parse_response_packet c.host (
        dict (
          field "schema" (str response_schema) (
            field "response_type" (str (type_value t)) (
              field "work_order_id" (str o.work_order_id) (
                field "in_reply_to" (str s.current_parent_id) (
                  field "idempotency_key" (str key) (
                    field "source_input_sha256" (str s.source_input_sha256) (
                      field "created_at" (str c.now_text) (
                        field "authority" (str response_authority) (
                          field "payload" (dict payload)
                            (field "executor_run_id" (text_value run_id) end))))))))))))
