-- ===== src/Broker/Examples.antt =====
-- A planned work order in the tables of the broker, the calls on it, and the theorems of the broker at
-- these tables.
mod Runs
mod Repeats
mod Rows
mod Targets
mod Shown
use agent_work_relay.Prelude.{
  String, Bool, ap, ◌==◌, ◌≡◌, ◌≢◌, refl, true, false, Option, none, some, List, [], ◌∷◌, ok,
  value_or, text_take, contains, find, keep, last, join, remove_prefix, starts_with, is_blank,
  strip, all_codes,
}
use agent_work_relay.Host.{
  Host, Fields, end, field, str, get, has_key, value_truthy, to_text, extend,
}
use agent_work_relay.Contracts.{WorkOrder, LedgerEntry, feature, plan, planning, status_value}
use agent_work_relay.Lifecycle.Responses.{ResponsePacket, plan_completed}
use agent_work_relay.Lifecycle.Transitions.{next_state}
use agent_work_relay.Lifecycle.Pending.{event_value}
use agent_work_relay.Lifecycle.Kernel.Snapshot.{derive_snapshot}
use agent_work_relay.Lifecycle.Kernel.Guards.{assert_actor, assert_version}
use agent_work_relay.Lifecycle.Kernel.Response.{
  response_event, response_target, response_effect, apply_response,
}
use agent_work_relay.Responses.Payload.{type_value}
use agent_work_relay.Responses.Packet.{packet_body}
use agent_work_relay.Broker.Records.{Outcome, Db, Call}
use agent_work_relay.Broker.Store.{
  find_order, set_status, update_status, append_ledger, any_clash, clashes, is_single,
  put_response_packet, any_response_clash, get_response, find_snapshot, put_snapshot,
}
use agent_work_relay.Broker.Decisions.{
  list_decisions, order_decisions, rows_of, read_decisions, place_decision,
}
use agent_work_relay.Broker.Service.{
  resolve_actor, require_work_order, validate_evidence, digest_or_fingerprint, respond_once,
  stored_or_derived, snapshot_from_session, commit_response, response_row, response_receipt,
  replay_response, response_idempotency_cache_key, submit_packet,
}

abbrev host : Host
host = record {
  from_iso = λ _. none;
  now = 100;
  repr = λ _. "?";
  sha256 = λ s. s;
  canonical_json = λ _. "{}";
  to_int = λ v. some v;
}

abbrev call : Call
call = record {
  host = host;
  now_text = "2026";
  uuid = "u";
  event_id = λ n. text_take n "aaaaaaaaaaaaaaaa";
  row_time = "2026";
  principal = none;
}

abbrev order : WorkOrder
order = record {
  work_order_id = "w";
  idempotency_key = "k";
  sender = "ann";
  recipient = "bot";
  kind = feature;
  action = plan;
  parent_work_order_id = none;
  repository_url = "r";
  base_ref = "main";
  markdown = "m";
  content_sha256 = "in";
  wrapper_id = "plan";
  wrapper_version = "1";
  wrapper_sha256 = "p";
  status = planning;
  created_at = "2026";
  bundle_sha256 = none;
}

abbrev db : Db
db = record {
  orders = order ∷ [];
  ledger = [];
  last_sequence = 0;
  responses = [];
  decisions = [];
  snapshots = [];
  dispatches = [];
}

abbrev packet_with : String → ResponsePacket
packet_with digest = record {
  schema = "awr.response/v1";
  response_type = plan_completed;
  work_order_id = "w";
  in_reply_to = "w";
  idempotency_key = "k";
  source_input_sha256 = "in";
  created_at = "2026";
  authority = "report_only";
  payload = end;
  evidence_refs = [];
  message_id = some "p";
  correlation_id = none;
  executor_run_id = none;
  actor = none;
  content_sha256 = some digest;
}

abbrev plan_packet : ResponsePacket
plan_packet = packet_with "d"

abbrev submit : Db → Outcome (Fields × Db)
submit t = submit_packet call none plan_packet (some "bot") none t

abbrev submitted_done : Fields × Db
submitted_done = value_or (end, db) (submit db)

submitted_ok : submit db ≡ ok submitted_done
unfolding submit_packet resolve_actor require_work_order find_order validate_evidence
    digest_or_fingerprint respond_once get_response apply_response assert_actor assert_version
    contains response_event response_target response_effect next_state get value_truthy to_text
    snapshot_from_session stored_or_derived find_snapshot derive_snapshot list_decisions rows_of
    order_decisions read_decisions commit_response update_status set_status append_ledger any_clash
    event_value status_value type_value put_response_packet any_response_clash response_row
    response_receipt response_idempotency_cache_key join remove_prefix put_snapshot packet_body
    extend text_take
submitted_ok = refl

given : ◌≢◌ {A = String} "d" ""
given e = cc (ap (λ s. s == "") e)
