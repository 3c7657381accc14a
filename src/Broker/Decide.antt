-- ===== src/Broker/Decide.antt =====
-- src/awr/service.py: `record_decision`.
use agent_work_relay.Prelude.{
  ℕ, String, Bool, true, ◌&&◌, ◌==◌, Option, none, some, ok, ◌>>=◌, ◌>>◌, require, concat,
  bare_digest, or_else, find,
}
use agent_work_relay.Host.{Fields, end, field, str, bool, int}
use agent_work_relay.Contracts.{WorkOrder, status_value}
use agent_work_relay.Lifecycle.Decisions.{DecisionType, DecisionTargetKind, StoredDecision}
use agent_work_relay.Lifecycle.Events.{LifecycleEvent}
use agent_work_relay.Lifecycle.Pending.{event_value}
use agent_work_relay.Lifecycle.Kernel.Guards.{TransitionResult}
use agent_work_relay.Lifecycle.Kernel.Decision.{apply_decision}
use agent_work_relay.Lifecycle.Trace.{decision_event}
use agent_work_relay.Broker.Records.{Outcome, validation_error, value_error, DecisionRow, Db, Call}
use agent_work_relay.Broker.Store.{update_status, append_ledger, put_lifecycle}
use agent_work_relay.Broker.Decisions.{
  decision_value, decision_from_value, target_from_value, fingerprint_decision, decision_dict,
  require_rationale, put_decision, list_decisions,
}
use agent_work_relay.Broker.Service.{
  lifted, or_raise, resolve_actor, require_work_order, snapshot_from_session,
}

-- The keyword arguments of a call.
pub record DecisionRequest : Type 0 where
  pub decision_type : String
  pub work_order_id : String
  pub actor : Option String
  pub target_id : String
  pub target_sha256 : String
  pub idempotency_key : String
  pub permitted_action : String
  pub rationale : String
  pub scope : String
  pub target_kind : String
  pub expires_at : Option String
  pub expected_version : Option ℕ

unfoldable pub decision_receipt : StoredDecision → String → TransitionResult → ℕ → Fields
decision_receipt d fingerprint r sequence = field "receipt_type" (str "decision.recorded") (
    field "work_order_id" (str d.work_order_id) (
      field "decision_id" (str d.decision_id) (
        field "decision_type" (str (decision_value d.decision_type)) (
          field "status" (str (status_value r.status))
            (field "ledger_sequence" (int sequence) (field "fingerprint" (str fingerprint) end))))))

-- The writes for an accepted decision.
unfoldable pub commit_decision :
    Call → StoredDecision → String → TransitionResult → Db → Outcome (Fields × Db)
commit_decision c d fingerprint r db = do
  db1 ← update_status d.work_order_id r.status db
  entry ←
      append_ledger c d.work_order_id (event_value r.event) d.actor "broker:awr" (decision_dict d)
        db1
  let db2 = put_lifecycle d.work_order_id r.snapshot entry.1
  let receipt = decision_receipt d fingerprint r entry.0.sequence
  db3 ←
      put_decision (record { decision = d; fingerprint = some fingerprint; receipt = some receipt })
        db2
  ok (receipt, db3)

-- The test on a stored row in `next(...)`
abbrev pub has_key_of : StoredDecision → DecisionRow → Bool
has_key_of d row =
    row.decision.actor == d.actor
    && decision_value row.decision.decision_type == decision_value d.decision_type
    && row.decision.idempotency_key == d.idempotency_key

abbrev duplicate_receipt : WorkOrder → StoredDecision → Fields
duplicate_receipt o old = field "receipt_type" (str "decision.recorded") (
    field "work_order_id" (str o.work_order_id) (
      field "decision_id" (str old.decision_id) (
        field "decision_type" (str (decision_value old.decision_type))
          (field "status" (str (status_value o.status)) (field "duplicate" (bool true) end)))))

abbrev pub stored_fingerprint : Call → DecisionRow → String
stored_fingerprint c row = or_else row.fingerprint (fingerprint_decision c.host row.decision)

unfoldable pub decide_once :
    Call
    → WorkOrder
    → StoredDecision
    → LifecycleEvent
    → Option ℕ
    → Option DecisionRow
    → Db
    → Outcome (Fields × Db)
decide_once c o d event expected (some row) db = do
  require (stored_fingerprint c row == fingerprint_decision c.host d) validation_error
  ok (elim row.receipt [ none ↦ duplicate_receipt o row.decision | some r ↦ r ], db)
decide_once c o d event expected none db = do
  r ← lifted (apply_decision c.host o.status (snapshot_from_session o db) event d expected)
  commit_decision c d (fingerprint_decision c.host d) r db

unfoldable pub record_stored :
    Call → StoredDecision → LifecycleEvent → Option ℕ → WorkOrder → Db → Outcome (Fields × Db)
record_stored c d event expected o db =
    decide_once c o d event expected (find (has_key_of d) (list_decisions o.work_order_id db)) db

-- The decision that a call makes of its arguments.
abbrev pub decision_of :
    Call → DecisionRequest → String → DecisionType → DecisionTargetKind → String → StoredDecision
decision_of c q actor stored_type kind rationale = record {
  decision_id = concat "DEC-" c.uuid;
  decision_type = stored_type;
  work_order_id = q.work_order_id;
  actor = actor;
  target_kind = kind;
  target_id = q.target_id;
  target_sha256 = bare_digest q.target_sha256;
  permitted_action = q.permitted_action;
  scope = q.scope;
  created_at = c.now_text;
  idempotency_key = q.idempotency_key;
  rationale = rationale;
  expires_at = q.expires_at;
}

-- `record_decision`
unfoldable pub record_decision : Call → DecisionRequest → Db → Outcome (Fields × Db)
record_decision c q db = do
  resolved ← resolve_actor c q.actor
  stored_type ← or_raise (decision_from_value q.decision_type) validation_error
  event ← or_raise (decision_event stored_type) validation_error
  o ← require_work_order q.work_order_id db
  rationale ← lifted (require_rationale q.rationale)
  kind ← or_raise (target_from_value q.target_kind) value_error
  record_stored c (decision_of c q resolved stored_type kind rationale) event q.expected_version o
      db
