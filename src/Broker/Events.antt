-- ===== src/Broker/Events.antt =====
-- src/awr/service.py: `_apply_broker` and the operations that call it.
use agent_work_relay.Prelude.{
  ℕ, String, Option, none, some, ok, ◌>>=◌, concat, bare_digest, if◌then◌else◌, ◌==◌,
}
use agent_work_relay.Host.{Fields, end, field, str, int}
use agent_work_relay.Contracts.{status_value}
use agent_work_relay.Lifecycle.Events
use agent_work_relay.Lifecycle.Events.{LifecycleEvent}
use agent_work_relay.Lifecycle.Pending.{event_value}
use agent_work_relay.Lifecycle.Kernel.Guards.{TransitionResult}
use agent_work_relay.Lifecycle.Kernel.Broker.{apply_broker_event}
use agent_work_relay.Broker.Records.{Outcome, Db, Call}
use agent_work_relay.Broker.Store.{update_status, append_ledger, put_lifecycle}
use agent_work_relay.Broker.Decisions.{list_decisions, read_decisions}
use agent_work_relay.Broker.Service.{
  lifted, resolve_actor, require_work_order, snapshot_from_session,
}

unfoldable pub broker_receipt : String → LifecycleEvent → String → TransitionResult → ℕ → Fields
broker_receipt id event message_id r sequence = field "receipt_type" (str (event_value event)) (
    field "work_order_id" (str id) (
      field "status" (str (status_value r.status))
        (field "ledger_sequence" (int sequence) (field "message_id" (str message_id) end))))

-- The writes for an accepted event.
unfoldable pub commit_event :
    Call → String → String → Fields → TransitionResult → Db → Outcome (ℕ × Db)
commit_event c id actor payload r db = do
  db1 ← update_status id r.status db
  entry ← append_ledger c id (event_value r.event) actor "broker:awr" payload db1
  ok (entry.0.sequence, put_lifecycle id r.snapshot entry.1)

-- `plan_sha256.removeprefix("sha256:") if plan_sha256 else None`
abbrev pub bare_or_none : Option String → Option String
bare_or_none none = none
bare_or_none (some s) = if s == "" then none else some (bare_digest s)

unfoldable pub apply_broker :
    Call
    → String
    → LifecycleEvent
    → Option String
    → String
    → Option String
    → Option String
    → Option ℕ
    → Db
    → Outcome (Fields × Db)
apply_broker c id event actor message_id plan_id plan_sha256 expected db = do
  resolved ← resolve_actor c actor
  o ← require_work_order id db
  r ← lifted (
      apply_broker_event c.host o.status (snapshot_from_session o db) event resolved message_id
        (read_decisions (list_decisions id db)) expected plan_id (bare_or_none plan_sha256))
  done ← commit_event c id resolved (field "message_id" (str message_id) end) r db
  ok (broker_receipt id event message_id r done.0, done.1)

unfoldable pub request_plan_approval : Call → String → Option String → Db → Outcome (Fields × Db)
request_plan_approval c id actor db =
    apply_broker c id Events.plan_approval_requested actor (concat "APR-" c.uuid) none none none db

unfoldable pub request_completion_review :
    Call → String → Option String → Db → Outcome (Fields × Db)
request_completion_review c id actor db =
    apply_broker c id Events.completion_review actor (concat "CRV-" c.uuid) none none none db

unfoldable pub answer_question : Call → String → Option String → Db → Outcome (Fields × Db)
answer_question c id actor db =
    apply_broker c id Events.question_answer actor (concat "ANS-" c.uuid) none none none db
