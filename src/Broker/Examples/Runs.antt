-- ===== src/Broker/Examples/Runs.antt =====
-- The theorems on the moves of a work order, from the report of its plan to its approval.
use mathlib.Core.Option.{Option}
use agent_work_relay.Prelude.{
  String, true, strip, is_blank, find, ◌≡◌, ◌≢◌, ◌⊎◌, ok, value_or, refl, none, some, contains,
  text_take, join, remove_prefix,
}
use agent_work_relay.Host.{Fields, end, get, value_truthy, to_text, extend}
use agent_work_relay.Contracts.{status_value, ready_for_execution, failed}
use agent_work_relay.Lifecycle.Events.{plan_approval_requested}
use agent_work_relay.Broker.Records.{Db}
use agent_work_relay.Broker.Events.{apply_broker, commit_event}
use agent_work_relay.Broker.Decide.{
  DecisionRequest, decision_receipt, commit_decision, decide_once, record_stored, record_decision,
}
use agent_work_relay.Lifecycle.Transitions.{next_state}
use agent_work_relay.Lifecycle.Pending.{event_value}
use agent_work_relay.Lifecycle.Kernel.Snapshot.{derive_snapshot}
use agent_work_relay.Lifecycle.Kernel.Guards.{
  assert_actor, assert_version, assert_decision_principal,
}
use agent_work_relay.Lifecycle.Kernel.Broker.{apply_broker_event, broker_checks}
use agent_work_relay.Lifecycle.Kernel.Decision.{approval_checks, apply_decision}
use agent_work_relay.Lifecycle.Decisions.{decision_is_expired}
use agent_work_relay.Lifecycle.Kernel.Response.{
  response_event, response_target, response_effect, apply_response,
}
use agent_work_relay.Lifecycle.Trace.{State, initial, decision_event}
use agent_work_relay.Lifecycle.Trace.Authority.{IsAuthorized}
use agent_work_relay.Responses.Payload.{type_value}
use agent_work_relay.Responses.Packet.{packet_body}
use agent_work_relay.Broker.Store.{
  clashes, find_order, set_status, update_status, append_ledger, any_clash, put_response_packet,
  any_response_clash, get_response, find_snapshot, put_snapshot,
}
use agent_work_relay.Broker.Decisions.{
  list_decisions, order_decisions, rows_of, read_decisions, decision_value, decision_from_value,
  target_value, target_from_value, fingerprint_fields, fingerprint_decision, decision_dict,
  require_rationale, any_decision_clash, put_decision, place_decision,
}
use agent_work_relay.Broker.Service.{
  resolve_actor, require_work_order, validate_evidence, digest_or_fingerprint, respond_once,
  stored_or_derived, snapshot_from_session, commit_response, response_row, response_receipt,
  response_idempotency_cache_key, submit_packet,
}
use agent_work_relay.Broker.View.{view, none_later}
use agent_work_relay.Broker.Refinement.{Moves, submit_packet-Moves}
use agent_work_relay.Broker.Life.{Follows}
use agent_work_relay.Broker.Calls.{
  Calls, submitted, applied, decided, start, then_call, Calls-Follows, Calls-IsAuthorized,
}
use agent_work_relay.Broker.Examples.{db, call, plan_packet, submitted_done, submitted_ok, given}

submit_packet-Moves_example : Moves "w" db submitted_done.1
submit_packet-Moves_example =
    submit_packet-Moves call none plan_packet (some "bot") none db "d" refl given submitted_ok

run_of_calls : Calls db submitted_done.1
run_of_calls =
    then_call start
      (submitted call none plan_packet (some "bot") none "d" submitted_done refl given submitted_ok)

first_view : view "w" db ≡ some (initial "w" "ann" "bot" "in")
unfolding view initial find_order snapshot_from_session stored_or_derived find_snapshot
    derive_snapshot list_decisions rows_of order_decisions read_decisions
first_view = refl

no_expiry : ◌≢◌ {A = Option String} none (some "")
no_expiry e = cc

abbrev requested_done : Fields × Db
requested_done =
    value_or (end, db)
      (apply_broker call "w" plan_approval_requested (some "ann") "m" none none none
        submitted_done.1)

requested_ok :
    apply_broker call "w" plan_approval_requested (some "ann") "m" none none none submitted_done.1
    ≡ ok requested_done
unfolding submit_packet resolve_actor require_work_order find_order validate_evidence
    digest_or_fingerprint respond_once get_response apply_response assert_actor assert_version
    contains response_event response_target response_effect next_state get value_truthy to_text
    snapshot_from_session stored_or_derived find_snapshot derive_snapshot list_decisions rows_of
    order_decisions read_decisions commit_response update_status set_status append_ledger any_clash
    event_value status_value type_value put_response_packet any_response_clash response_row
    response_receipt response_idempotency_cache_key join remove_prefix put_snapshot packet_body
    extend text_take view initial apply_broker apply_broker_event broker_checks commit_event clashes
requested_ok = refl

abbrev approval : DecisionRequest
approval = record {
  decision_type = "approve_plan";
  work_order_id = "w";
  actor = some "ann";
  target_id = "p";
  target_sha256 = "d";
  idempotency_key = "yes";
  permitted_action = "execute";
  rationale = "good";
  scope = "restricted";
  target_kind = "plan";
  expires_at = none;
  expected_version = none;
}

abbrev approved_done : Fields × Db
approved_done = value_or (end, db) (record_decision call approval requested_done.1)

approved_ok : record_decision call approval requested_done.1 ≡ ok approved_done
unfolding submit_packet resolve_actor require_work_order find_order validate_evidence
    digest_or_fingerprint respond_once get_response apply_response assert_actor assert_version
    contains response_event response_target response_effect next_state get value_truthy to_text
    snapshot_from_session stored_or_derived find_snapshot derive_snapshot list_decisions rows_of
    order_decisions read_decisions commit_response update_status set_status append_ledger any_clash
    event_value status_value type_value put_response_packet any_response_clash response_row
    response_receipt response_idempotency_cache_key join remove_prefix put_snapshot packet_body
    extend text_take view initial apply_broker record_decision apply_broker_event broker_checks
    commit_event clashes decision_from_value decision_event require_rationale strip is_blank
    target_from_value record_stored find decide_once apply_decision assert_decision_principal
    decision_is_expired approval_checks commit_decision decision_dict decision_value target_value
    decision_receipt fingerprint_decision fingerprint_fields put_decision any_decision_clash
    place_decision
approved_ok = refl

in_time : none_later call.now_text (list_decisions "w" requested_done.1) ≡ true
unfolding submit_packet resolve_actor require_work_order find_order validate_evidence
    digest_or_fingerprint respond_once get_response apply_response assert_actor assert_version
    contains response_event response_target response_effect next_state get value_truthy to_text
    snapshot_from_session stored_or_derived find_snapshot derive_snapshot list_decisions rows_of
    order_decisions read_decisions commit_response update_status set_status append_ledger any_clash
    event_value status_value type_value put_response_packet any_response_clash response_row
    response_receipt response_idempotency_cache_key join remove_prefix put_snapshot packet_body
    extend text_take view initial apply_broker apply_broker_event broker_checks commit_event clashes
    none_later
in_time = refl

run_to_approval : Calls db approved_done.1
run_to_approval =
    then_call
      (then_call run_of_calls (
        applied call "w" plan_approval_requested (some "ann") "m" none none none requested_done refl
          requested_ok))
      (decided call approval approved_done in_time no_expiry approved_ok)

Calls-Follows_example : Follows (initial "w" "ann" "bot" "in") "w" approved_done.1
Calls-Follows_example = Calls-Follows "w" (initial "w" "ann" "bot" "in") first_view run_to_approval

abbrev state_or : State → Option State → State
state_or d none = d
state_or d (some s) = s

abbrev last_state : State
last_state = state_or (initial "w" "ann" "bot" "in") (view "w" approved_done.1)

last_view : view "w" approved_done.1 ≡ some last_state
unfolding submit_packet resolve_actor require_work_order find_order validate_evidence
    digest_or_fingerprint respond_once get_response apply_response assert_actor assert_version
    contains response_event response_target response_effect next_state get value_truthy to_text
    snapshot_from_session stored_or_derived find_snapshot derive_snapshot list_decisions rows_of
    order_decisions read_decisions commit_response update_status set_status append_ledger any_clash
    event_value status_value type_value put_response_packet any_response_clash response_row
    response_receipt response_idempotency_cache_key join remove_prefix put_snapshot packet_body
    extend text_take view initial apply_broker record_decision apply_broker_event broker_checks
    commit_event clashes decision_from_value decision_event require_rationale strip is_blank
    target_from_value record_stored find decide_once apply_decision assert_decision_principal
    decision_is_expired approval_checks commit_decision decision_dict decision_value target_value
    decision_receipt fingerprint_decision fingerprint_fields put_decision any_decision_clash
    place_decision
last_view = refl

last_status : last_state.status ≡ ready_for_execution
unfolding submit_packet resolve_actor require_work_order find_order validate_evidence
    digest_or_fingerprint respond_once get_response apply_response assert_actor assert_version
    contains response_event response_target response_effect next_state get value_truthy to_text
    snapshot_from_session stored_or_derived find_snapshot derive_snapshot list_decisions rows_of
    order_decisions read_decisions commit_response update_status set_status append_ledger any_clash
    event_value status_value type_value put_response_packet any_response_clash response_row
    response_receipt response_idempotency_cache_key join remove_prefix put_snapshot packet_body
    extend text_take view initial apply_broker record_decision apply_broker_event broker_checks
    commit_event clashes decision_from_value decision_event require_rationale strip is_blank
    target_from_value record_stored find decide_once apply_decision assert_decision_principal
    decision_is_expired approval_checks commit_decision decision_dict decision_value target_value
    decision_receipt fingerprint_decision fingerprint_fields put_decision any_decision_clash
    place_decision
last_status = refl

Calls-IsAuthorized_example : IsAuthorized last_state ⊎ (last_state.status ≡ failed)
Calls-IsAuthorized_example =
    Calls-IsAuthorized "w" "ann" "bot" "in" first_view run_to_approval last_view
