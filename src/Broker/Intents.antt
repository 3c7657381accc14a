-- ===== src/Broker/Intents.antt =====
-- src/awr/service.py: `_commit_execution_intent` and the operations that call it; `wrap_execution` of
-- src/awr/wrappers.py; `replay_cache_key` of src/awr/responses/cache.py.
use agent_work_relay.Prelude.{
  ℕ, ◌+◌, String, Bool, true, false, not, ◌&&◌, ◌||◌, ◌==◌, Option, none, some, List, [], ◌∷◌, ok,
  ◌>>=◌, ◌>>◌, require, reject, ltb, concat, join, truthy, contains, or_else, or_option, last, keep,
  if◌then◌else◌,
}
use agent_work_relay.Host.{
  Host, Value, Items, Fields, end, field, str, bool, int, list, dict, nil, item, get, to_text,
  value_truthy,
}
use agent_work_relay.Contracts.{
  WorkOrder, LedgerEntry, execution_dispatched, status_is, status_value,
}
use agent_work_relay.Lifecycle.Events
use agent_work_relay.Lifecycle.Events.{LifecycleEvent}
use agent_work_relay.Lifecycle.Decisions.{StoredDecision, matching_plan_approval}
use agent_work_relay.Lifecycle.Pending.{event_value}
use agent_work_relay.Lifecycle.Kernel.Snapshot.{LifecycleSnapshot}
use agent_work_relay.Lifecycle.Kernel.Guards.{TransitionResult}
use agent_work_relay.Lifecycle.Kernel.Broker.{apply_broker_event}
use agent_work_relay.Broker.Records.{Outcome, validation_error, DispatchRow, pending, Db, Call}
use agent_work_relay.Broker.Store.{list_ledger, latest_from}
use agent_work_relay.Broker.Decisions.{list_decisions, read_decisions}
use agent_work_relay.Broker.Service.{
  lifted, digest_key, resolve_actor, require_work_order, snapshot_from_session,
}
use agent_work_relay.Broker.Events.{bare_or_none, commit_event}
use agent_work_relay.Broker.Plans.{plan_text}
use agent_work_relay.Broker.Dispatches.{is_settled, list_dispatches, put_execution_dispatch}

unfoldable pub replay_cache_key : Host → List String → String
replay_cache_key h parts = digest_key h ("replay" ∷ parts)

abbrev policy : String
policy =
    "# Agent Work Relay execution envelope\n\n- Operating mode: AUTHORIZED_EXECUTION\n- Implement only the exact approved plan identified below.\n- You may inspect and edit files, run relevant tests, create a bounded work\n  branch, and commit implementation changes when the provider supports it.\n- Return a compact @response packet. Authority is always report_only.\n- Required evidence: branch name, commit SHA, changed-file summary, test\n  summary, residual risk, and blockers.\n- You may not approve your own plan, accept your own completion, merge a\n  pull request, push to main, deploy, modify cloud infrastructure, reveal\n  credentials, or perform destructive actions.\n- Those actions require a separate stored authority decision.\n"

-- `wrap_execution(...).markdown`, without references
unfoldable pub execution_markdown :
    Host → String → String → String → String → String → String → ℕ → String
execution_markdown h id plan_id plan_sha256 content repository_url base_ref attempt = join "" (
    policy
    ∷ "\nWork-order ID: "
    ∷ id
    ∷ "\nExecution attempt: "
    ∷ to_text h (int attempt)
    ∷ "\nApproved plan ID: "
    ∷ plan_id
    ∷ "\nApproved plan SHA-256: "
    ∷ plan_sha256
    ∷ "\nRepository: "
    ∷ repository_url
    ∷ "\nAuthorized base ref: "
    ∷ base_ref
    ∷ "\nWrapper: plan.execute@1.0.0\nWrapper SHA-256: "
    ∷ h.sha256 policy
    ∷ "\nRequired response schema: awr.response/v1\n\n# Approved plan\n\n"
    ∷ content
    ∷ "\n"
    ∷ [])

-- `[item for item in raw if isinstance(item, dict)]` is not empty
abbrev any_dict : Items → Bool
any_dict nil = false
any_dict (item (dict d) rest) = true
any_dict (item v rest) = any_dict rest

abbrev has_dicts : Value → Bool
has_dicts (list items) = any_dict items
has_dicts v = false

abbrev references_in : Option LedgerEntry → Bool
references_in none = false
references_in (some e) = has_dicts (get e.payload "references")

-- `_authorize_reader`
unfoldable pub authorize_reader : String → WorkOrder → LifecycleSnapshot → Outcome (Unit {0})
authorize_reader actor o s =
    require (contains actor s.participants || actor == o.sender || actor == o.recipient)
      validation_error

-- `get_work_order_artifacts(...)` is not empty, for an actor that may read the work order.
unfoldable pub has_artifacts : String → WorkOrder → Db → Outcome Bool
has_artifacts actor o db = do
  authorize_reader actor o (snapshot_from_session o db)
  ok (references_in (latest_from (list_ledger o.work_order_id db) "bundle.validated"))

-- `next((item for item in reversed(existing) if item["state"] not in {...}), None)`
unfoldable pub pending_dispatch : List DispatchRow → Option DispatchRow
pending_dispatch rows = last (keep (λ row. not (is_settled row.state)) rows)

-- `max((item["attempt"] for item in existing), default=0)`
unfoldable pub last_attempt : List DispatchRow → ℕ
last_attempt [] = 0
last_attempt (row ∷ rest) =
    let others = last_attempt rest in if ltb others row.attempt then row.attempt else others

-- `{**receipt, "duplicate": True}`
unfoldable pub as_duplicate : Fields → Fields
as_duplicate end = field "duplicate" (bool true) end
as_duplicate (field k v rest) =
    if k == "duplicate" then field k (bool true) rest else field k v (as_duplicate rest)

abbrev pending_receipt : WorkOrder → DispatchRow → Fields
pending_receipt o row = field "receipt_type" (str "plan.execute") (
    field "work_order_id" (str o.work_order_id) (
      field "status" (str (status_value o.status))
        (field "dispatch_id" (str row.dispatch_id) (field "duplicate" (bool true) end))))

abbrev pub duplicate_of : WorkOrder → DispatchRow → Fields
duplicate_of o row = elim row.receipt [ none ↦ pending_receipt o row | some r ↦ as_duplicate r ]

abbrev pub agent_of : Host → Option LedgerEntry → Option String
agent_of h none = none
agent_of h (some e) =
    if value_truthy (get e.payload "executor_agent_id")
    then some (to_text h (get e.payload "executor_agent_id"))
    else none

unfoldable pub intent_receipt : String → LifecycleEvent → String → ℕ → TransitionResult → ℕ → Fields
intent_receipt id event message_id attempt r sequence =
    field "receipt_type" (str (event_value event)) (
      field "work_order_id" (str id) (
        field "status" (str (status_value r.status)) (
          field "ledger_sequence" (int sequence) (
            field "message_id" (str message_id)
              (field "dispatch_id" (str message_id) (field "attempt" (int attempt) end))))))

abbrev pub intent_payload : String → ℕ → Fields
intent_payload message_id attempt =
    field "message_id" (str message_id)
      (field "dispatch_id" (str message_id) (field "attempt" (int attempt) end))

-- The name of the executor, a plan that the call resolved, and the number of the attempt.
pub record Intent : Type 0 where
  pub executor : String
  pub plan_id : String
  pub plan_sha256 : String
  pub attempt : ℕ
  pub message_id : String

unfoldable pub dispatch_row :
    Call → WorkOrder → Intent → StoredDecision → String → Option String → Fields → DispatchRow
dispatch_row c o i approval content agent receipt = record {
  dispatch_id = i.message_id;
  work_order_id = o.work_order_id;
  attempt = i.attempt;
  plan_id = i.plan_id;
  plan_sha256 = i.plan_sha256;
  approval_decision_id = approval.decision_id;
  executor = i.executor;
  repository_url = o.repository_url;
  base_ref = o.base_ref;
  wrapper_id = "plan.execute";
  wrapper_version = "1.0.0";
  wrapper_sha256 = c.host.sha256 policy;
  provider_idempotency_key = replay_cache_key c.host (
      o.sender
      ∷ o.recipient
      ∷ concat "plan.execute:" (to_text c.host (int i.attempt))
      ∷ o.work_order_id
      ∷ o.repository_url
      ∷ o.base_ref
      ∷ i.plan_sha256
      ∷ c.host.sha256 policy
      ∷ []);
  state = pending;
  attempt_count = 0;
  lease_owner = none;
  lease_expires_at = none;
  provider_agent_id = none;
  provider_run_id = none;
  last_failure_code = none;
  wrapped_markdown =
      execution_markdown c.host o.work_order_id i.plan_id i.plan_sha256 content o.repository_url
        o.base_ref i.attempt;
  existing_agent_id = agent;
  receipt = some receipt;
  created_at = c.now_text;
  updated_at = c.now_text;
}

-- The writes for an accepted intent.
unfoldable pub commit_intent :
    Call
    → WorkOrder
    → String
    → LifecycleEvent
    → Intent
    → StoredDecision
    → String
    → TransitionResult
    → Db
    → Outcome (Fields × Db)
commit_intent c o actor event i approval content r db = do
  let agent = agent_of c.host (latest_from (list_ledger o.work_order_id db) "executor.acknowledged")
  done ← commit_event c o.work_order_id actor (intent_payload i.message_id i.attempt) r db
  let receipt = intent_receipt o.work_order_id event i.message_id i.attempt r done.0
  db2 ← put_execution_dispatch (dispatch_row c o i approval content agent receipt) done.1
  ok (receipt, db2)

-- `plan_sha256.removeprefix("sha256:") if plan_sha256 else snapshot.plan_sha256`
abbrev pub or_sha256 : Option String → Option String → Option String
or_sha256 none stored = stored
or_sha256 (some given) stored = some given

unfoldable pub new_intent :
    Call
    → String
    → WorkOrder
    → String
    → LifecycleEvent
    → Option String
    → Option String
    → Option ℕ
    → Db
    → Outcome (Fields × Db)
new_intent c executor o actor event plan_id plan_sha256 expected db = do
  let s = snapshot_from_session o db
  let decisions = read_decisions (list_decisions o.work_order_id db)
  let resolved_id = or_option plan_id s.plan_id
  let resolved_sha256 = or_sha256 (bare_or_none plan_sha256) s.plan_sha256
  require (truthy resolved_id && truthy resolved_sha256) validation_error
  let i : Intent = record {
    executor = executor;
    plan_id = or_else resolved_id "";
    plan_sha256 = or_else resolved_sha256 "";
    attempt = last_attempt (list_dispatches o.work_order_id db) + 1;
    message_id = concat "EXD-" c.uuid;
  }
  r ← lifted (
      apply_broker_event c.host o.status s event actor i.message_id decisions expected
        (some i.plan_id) (some i.plan_sha256))
  approval ← lifted (
      matching_plan_approval c.host decisions (or_else r.snapshot.plan_id i.plan_id)
        (or_else r.snapshot.plan_sha256 i.plan_sha256))
  content ← plan_text c.host o db
  commit_intent c o actor event i approval content r db

-- A dispatch that is under way is answered for, while the work order is dispatched.
unfoldable pub intent_once :
    Call
    → String
    → WorkOrder
    → String
    → LifecycleEvent
    → Option String
    → Option String
    → Option ℕ
    → Option DispatchRow
    → Db
    → Outcome (Fields × Db)
intent_once c executor o actor event plan_id plan_sha256 expected none db =
    new_intent c executor o actor event plan_id plan_sha256 expected db
intent_once c executor o actor event plan_id plan_sha256 expected (some row) db =
    if status_is o.status execution_dispatched
    then ok (duplicate_of o row, db)
    else new_intent c executor o actor event plan_id plan_sha256 expected db

-- `_commit_execution_intent`; `executor` is `self.executor.name`.
unfoldable pub commit_execution_intent :
    Call
    → String
    → String
    → LifecycleEvent
    → Option String
    → Option String
    → Option String
    → Option ℕ
    → Db
    → Outcome (Fields × Db)
commit_execution_intent c executor id event actor plan_id plan_sha256 expected db = do
  resolved ← resolve_actor c actor
  o ← require_work_order id db
  artifacts ← has_artifacts resolved o db
  reject artifacts validation_error
  intent_once c executor o resolved event plan_id plan_sha256 expected
      (pending_dispatch (list_dispatches o.work_order_id db)) db

unfoldable pub dispatch_execution :
    Call
    → String
    → String
    → Option String
    → Option String
    → Option String
    → Option ℕ
    → Db
    → Outcome (Fields × Db)
dispatch_execution c executor id actor plan_id plan_sha256 expected db =
    commit_execution_intent c executor id Events.plan_execute actor plan_id plan_sha256 expected db

unfoldable pub refine_implementation :
    Call
    → String
    → String
    → Option String
    → Option String
    → Option String
    → Db
    → Outcome (Fields × Db)
refine_implementation c executor id actor plan_id plan_sha256 db =
    commit_execution_intent c executor id Events.implementation_refine actor plan_id plan_sha256
      none db
