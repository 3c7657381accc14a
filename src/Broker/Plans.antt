-- ===== src/Broker/Plans.antt =====
-- src/awr/service.py: the plan of a work order, as the ledger and the responses hold it.
use agent_work_relay.Prelude.{
  ℕ, String, ◌&&◌, ◌==◌, Option, none, some, List, [], ◌∷◌, ok, ◌>>=◌, ◌>>◌, require, text_ltb,
  if◌then◌else◌,
}
use agent_work_relay.Host.{
  Host, Value, bool, int, negative, str, dict, Fields, get, has_key, to_text,
}
use agent_work_relay.Contracts.{WorkOrder, LedgerEntry}
use agent_work_relay.Broker.Records.{Outcome, key_error, ResponseRow, Db}
use agent_work_relay.Broker.Store.{list_ledger, latest_from}

pub record PlanPacket : Type 0 where
  pub plan_id : String
  pub work_order_id : String
  pub executor : String
  pub executor_agent_id : String
  pub executor_run_id : String
  pub content : String
  pub content_sha256 : String
  pub duration_ms : Option Value
  pub git : Option Fields
  pub completed_at : String
  pub ledger_sequence : ℕ

-- `str(payload[key])`
unfoldable pub text_at : Host → Fields → String → Outcome String
text_at h d key = do require (has_key key d) key_error; ok (to_text h (get d key))

-- `duration if isinstance(duration, int) else None`
abbrev pub if_int : Value → Option Value
if_int (bool b) = some (bool b)
if_int (int n) = some (int n)
if_int (negative n) = some (negative n)
if_int v = none

-- `git if isinstance(git, dict) else None`
abbrev pub if_dict : Value → Option Fields
if_dict (dict d) = some d
if_dict v = none

-- `_plan_packet`
unfoldable pub plan_packet : Host → String → LedgerEntry → LedgerEntry → Outcome PlanPacket
plan_packet h id received available = do
  plan_id ← text_at h received.payload "plan_id"
  agent_id ← text_at h received.payload "executor_agent_id"
  run_id ← text_at h received.payload "executor_run_id"
  content ← text_at h received.payload "content"
  digest ← text_at h received.payload "content_sha256"
  ok (record {
    plan_id = plan_id;
    work_order_id = id;
    executor = received.actor;
    executor_agent_id = agent_id;
    executor_run_id = run_id;
    content = content;
    content_sha256 = digest;
    duration_ms = if_int (get received.payload "duration_ms");
    git = if_dict (get received.payload "git");
    completed_at = received.created_at;
    ledger_sequence = available.sequence;
  })

-- The packet of the two rows, where both are there.
unfoldable pub packet_of :
    Host → String → Option LedgerEntry → Option LedgerEntry → Outcome (Option PlanPacket)
packet_of h id (some received) (some available) = do
  packet ← plan_packet h id received available
  ok (some packet)
packet_of h id _ _ = ok none

unfoldable pub plan_from_entries : Host → String → List LedgerEntry → Outcome (Option PlanPacket)
plan_from_entries h id entries =
    packet_of h id (latest_from entries "plan.received") (latest_from entries "plan.available")

unfoldable pub plan_from_ledger : Host → String → Db → Outcome (Option PlanPacket)
plan_from_ledger h id db = plan_from_entries h id (list_ledger id db)

-- The later of two rows by `created_at`, the first of equal ones.
abbrev later_row : ResponseRow → Option ResponseRow → Option ResponseRow
later_row row none = some row
later_row row (some r) = if text_ltb row.created_at r.created_at then some r else some row

-- `get_latest_response`
unfoldable pub get_latest_response : String → String → List ResponseRow → Option ResponseRow
get_latest_response id response_type [] = none
get_latest_response id response_type (row ∷ rest) =
    let others = get_latest_response id response_type rest in
    if row.work_order_id == id && row.response_type == response_type
    then later_row row others
    else others

abbrev content_in : Value → Option String
content_in (dict payload) = elim (get payload "content") [ str s ↦ some s | _ ↦ none ]
content_in v = none

abbrev reported_content : Option ResponseRow → Option String
reported_content none = none
reported_content (some row) = content_in (get row.packet "payload")

abbrev content_or : WorkOrder → Option PlanPacket → String
content_or o none = o.markdown
content_or o (some p) = p.content

-- `_plan_text_from_session`
unfoldable pub plan_text : Host → WorkOrder → Db → Outcome String
plan_text h o db =
    elim (reported_content (get_latest_response o.work_order_id "plan.completed" db.responses)) [
      | some content ↦ ok content
      | none ↦ do p ← plan_from_ledger h o.work_order_id db; ok (content_or o p)
    ]
