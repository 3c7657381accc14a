-- ===== src/Broker/Examples/Rows.antt =====
-- The theorems on single rows: a leased dispatch, a plan that is received, and a ledger entry.
use agent_work_relay.Prelude.{
  ◌≡◌, ◌≢◌, ◌==◌, ap, refl, String, none, some, ok, ◌∷◌, [], value_or, text_take, arith,
}
use agent_work_relay.Host.{null, end, get, has_key, to_text}
use agent_work_relay.Contracts.{LedgerEntry, finished, plan_ready}
use agent_work_relay.Broker.Records.{Outcome, pending, leased, DispatchRow, Db}
use agent_work_relay.Broker.Store.{
  find_order, set_status, update_status, append_ledger, any_clash, clashes, is_single,
}
use agent_work_relay.Broker.Dispatches.{
  find_dispatch, lease_row, lease_rows, claim_found, claim_execution_lease,
}
use agent_work_relay.Broker.Plans.{PlanPacket, text_at, plan_packet, plan_from_ledger}
use agent_work_relay.Broker.Planning.{PlanningRunResult, Refreshed, planned, receive_plan}
use agent_work_relay.Broker.Planning.Plans.{IsPlanOf, receive_plan-stored}
use agent_work_relay.Broker.Claims.{Claims}
use agent_work_relay.Broker.Leases.{claim_execution_lease-state, claim_execution_lease-excludes}
use agent_work_relay.Broker.Journal.{IsJournal, append_ledger-IsJournal}
use agent_work_relay.Broker.Examples.{order, call, db}

abbrev dispatch : DispatchRow
dispatch = record {
  dispatch_id = "x";
  work_order_id = "w";
  attempt = 1;
  plan_id = "p";
  plan_sha256 = "d";
  approval_decision_id = "a";
  executor = "cursor";
  repository_url = "r";
  base_ref = "main";
  wrapper_id = "plan.execute";
  wrapper_version = "1.0.0";
  wrapper_sha256 = "s";
  provider_idempotency_key = "k";
  state = pending;
  attempt_count = 0;
  lease_owner = none;
  lease_expires_at = none;
  provider_agent_id = none;
  provider_run_id = none;
  last_failure_code = none;
  wrapped_markdown = "m";
  existing_agent_id = none;
  receipt = none;
  created_at = "1";
  updated_at = "1";
}

abbrev dispatched : Db
dispatched = record db { dispatches = dispatch ∷ [] }

abbrev leased_row : DispatchRow
leased_row = record dispatch {
  state = leased;
  attempt_count = 1;
  lease_owner = some "ann";
  lease_expires_at = some "5";
  updated_at = "2";
}

claimed :
    claim_execution_lease "x" "ann" "2" "5" dispatched
    ≡ (some leased_row, record dispatched { dispatches = leased_row ∷ [] })
unfolding claim_execution_lease find_dispatch claim_found lease_row lease_rows
claimed = refl

abbrev claimed_db : Db
claimed_db = record dispatched { dispatches = leased_row ∷ [] }

claim_execution_lease-state_example :
    (r : DispatchRow) × (find_dispatch "x" dispatched.dispatches ≡ some r)
    × (find_dispatch "x" claimed_db.dispatches ≡ some leased_row)
    × Claims "x" "ann" "2" "5" "y" dispatched r leased_row claimed_db
claim_execution_lease-state_example =
    claim_execution_lease-state "x" "ann" "2" "5" "y" dispatched claimed

ann_not_bob : ◌≢◌ {A = String} "bob" "ann"
ann_not_bob e = cc (ap (λ s. s == "ann") e)

leased_found : find_dispatch "x" claimed_db.dispatches ≡ some leased_row
unfolding find_dispatch
leased_found = refl

claim_execution_lease-excludes_example :
    claim_execution_lease "x" "bob" "3" "9" claimed_db ≡ (none, claimed_db)
claim_execution_lease-excludes_example =
    claim_execution_lease-excludes "x" "ann" "bob" "2" "3" "5" "9" dispatched claimed_db claimed
      refl leased_found ann_not_bob refl

abbrev run : PlanningRunResult
run = record {
  executor = "cursor";
  status = finished;
  result = some "plan";
  duration_ms = null;
  git = null;
}

abbrev packet : PlanPacket
packet = record {
  plan_id = "PLAN-plan";
  work_order_id = "w";
  executor = "cursor";
  executor_agent_id = "ag";
  executor_run_id = "ru";
  content = "plan";
  content_sha256 = "plan";
  duration_ms = none;
  git = none;
  completed_at = "2026";
  ledger_sequence = 2;
}

abbrev received : Outcome (Refreshed × Db)
received = receive_plan call order "ag" "ru" run "plan" db

abbrev received_db : Db
received_db = (value_or (planned packet, db) received).1

received_ok : received ≡ ok (planned packet, received_db)
unfolding receive_plan append_ledger find_order any_clash clashes is_single update_status set_status
    plan_packet text_at has_key get to_text text_take
received_ok = refl

order_found : find_order "w" db.orders ≡ some order
unfolding find_order
order_found = refl

receive_plan-stored_example :
    (find_order "w" received_db.orders ≡ some (record order { status = plan_ready }))
    × (plan_from_ledger call.host "w" received_db ≡ ok (some packet))
    × IsPlanOf call.host "ag" "ru" "plan" packet
receive_plan-stored_example =
    receive_plan-stored call order "ag" "ru" run "plan" db order_found refl received_ok

abbrev routed_row : LedgerEntry
routed_row = record {
  sequence = 1;
  event_id = "a";
  work_order_id = "w";
  event_type = "work_order.routed";
  actor = "ann";
  counterparty = "bot";
  payload = end;
  created_at = "2026";
}

abbrev routed_db : Db
routed_db = record db { ledger = routed_row ∷ []; last_sequence = 1 }

abbrev logged : LedgerEntry × Db
logged =
    value_or (routed_row, routed_db)
      (append_ledger call "w" "plan.received" "bot" "broker:awr" end routed_db)

logged_ok : append_ledger call "w" "plan.received" "bot" "broker:awr" end routed_db ≡ ok logged
unfolding append_ledger find_order any_clash clashes is_single text_take
logged_ok = refl

append_ledger-IsJournal_example :
    IsJournal 0 logged.1.ledger logged.1.last_sequence
    × (logged.1.ledger ≡ routed_row ∷ logged.0 ∷ [])
    × (logged.0.work_order_id ≡ "w")
    × (logged.0.event_type ≡ "plan.received")
    × (logged.0.payload ≡ end)
append_ledger-IsJournal_example =
    append_ledger-IsJournal call "w" "plan.received" "bot" "broker:awr" end routed_db
      (omega arith, tt, omega arith) logged_ok
