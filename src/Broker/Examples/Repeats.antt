-- ===== src/Broker/Examples/Repeats.antt =====
-- The theorems on calls that are repeated: the report of a plan, and a cancellation.
use agent_work_relay.Prelude.{none, some, value_or}
use agent_work_relay.Host.{Fields, end}
use agent_work_relay.Broker.Records.{Db, Call}
use agent_work_relay.Broker.Decide.{DecisionRequest, record_decision}
use agent_work_relay.Broker.Examples.{host, db, call}

abbrev later_call : Call
later_call = record call { host = record host { now = 900 }; now_text = "2027"; uuid = "v" }

abbrev request : DecisionRequest
request = record {
  decision_type = "cancel";
  work_order_id = "w";
  actor = some "ann";
  target_id = "w";
  target_sha256 = "in";
  idempotency_key = "stop";
  permitted_action = "none";
  rationale = " not needed ";
  scope = "restricted";
  target_kind = "work_order";
  expires_at = none;
  expected_version = none;
}

abbrev cancelled_done : Fields × Db
cancelled_done = value_or (end, db) (record_decision call request db)
