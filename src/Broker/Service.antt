-- ===== src/Broker/Service.antt =====
-- src/awr/service.py: the helpers that the operations share, and `submit_response`.
use agent_work_relay.Prelude.{
  ℕ, String, Bool, true, false, not, ◌||◌, ◌==◌, Option, none, some, List, [], ◌∷◌, Result, ok, err,
  ◌>>=◌, ◌>>◌, require, truthy, or_else, option_eq, join, bare_digest, if◌then◌else◌,
}
use agent_work_relay.Host.{Host, Fields, end, field, str, bool, int, text_value, extend}
use agent_work_relay.Contracts.{WorkOrder, status_value}
use agent_work_relay.Lifecycle.Errors
use agent_work_relay.Lifecycle.Responses.{ResponsePacket, EvidenceRef}
use agent_work_relay.Lifecycle.Pending.{event_value}
use agent_work_relay.Lifecycle.Kernel.Snapshot.{LifecycleSnapshot, derive_snapshot}
use agent_work_relay.Lifecycle.Kernel.Guards.{TransitionResult}
use agent_work_relay.Lifecycle.Kernel.Response.{apply_response}
use agent_work_relay.Artifacts.Status
use agent_work_relay.Artifacts.Records.{Artifact}
use agent_work_relay.Artifacts.Rows.{find_artifact}
use agent_work_relay.Artifacts.Tables.{Tables}
use agent_work_relay.Responses.Checks.{Refusal}
use agent_work_relay.Responses.Payload.{type_value}
use agent_work_relay.Responses.Packet.{packet_body, fingerprint_packet, response_authority}
use agent_work_relay.Broker.Records.{
  Outcome, ServiceError, validation_error, value_error, ResponseRow, Db, Call,
}
use agent_work_relay.Broker.Store.{
  find_order, update_status, append_ledger, put_response_packet, get_response, find_snapshot,
  put_lifecycle,
}
use agent_work_relay.Broker.Decisions.{list_decisions, read_decisions}

-- `raise WorkOrderValidationError(str(exc)) from exc` for a LifecycleError
abbrev pub as_service_error : Errors.LifecycleError → ServiceError
as_service_error Errors.value_error = value_error
as_service_error e = validation_error

abbrev pub lifted : {A : Type 0} → Errors.Outcome A → Result ServiceError A
lifted (ok a) = ok a
lifted (err e) = err (as_service_error e)

-- A ResponsePacketError is a ValueError and no LifecycleError.
abbrev pub unchecked {ℓ} : {A : Type ℓ} → Result Refusal A → Result ServiceError A
unchecked (ok a) = ok a
unchecked (err e) = err value_error

-- `_actor`
unfoldable pub resolve_actor : Call → Option String → Outcome String
resolve_actor c explicit =
    if truthy explicit
    then ok (or_else explicit "")
    else elim c.principal [ none ↦ err validation_error | some p ↦ ok p ]

abbrev pub or_raise {ℓ} : {A : Type ℓ} → Option A → ServiceError → Result ServiceError A
or_raise none e = err e
or_raise (some a) e = ok a

-- `_require_work_order`
unfoldable pub require_work_order : String → Db → Outcome WorkOrder
require_work_order id db = or_raise (find_order id db.orders) validation_error

-- `xs or {x}`
abbrev pub principals_or : List String → String → List String
principals_or [] x = x ∷ []
principals_or (y ∷ ys) x = y ∷ ys

unfoldable pub stored_or_derived : WorkOrder → Option LifecycleSnapshot → LifecycleSnapshot
stored_or_derived o none = derive_snapshot o.work_order_id o.sender o.recipient o.content_sha256
stored_or_derived o (some s) = record s {
  decision_principals = principals_or s.decision_principals o.sender;
  executor_principals = principals_or s.executor_principals o.recipient;
}

-- `_snapshot_from_session`
unfoldable pub snapshot_from_session : WorkOrder → Db → LifecycleSnapshot
snapshot_from_session o db = stored_or_derived o (find_snapshot o.work_order_id db.snapshots)

-- The digest of an artifact that has one is that of the reference.
abbrev digest_agrees : Option String → String → Bool
digest_agrees stored digest = not (truthy stored) || option_eq stored (some digest)

unfoldable pub check_reference : WorkOrder → String → Artifact → EvidenceRef → Outcome (Unit {0})
check_reference o actor a r = do
  require (Status.status_is a.status Status.clean) validation_error
  require (a.owner == o.sender || a.owner == actor) validation_error
  require (digest_agrees a.sha256 r.sha256) validation_error

unfoldable pub each_reference : WorkOrder → String → Tables → List EvidenceRef → Outcome (Unit {0})
unfolding check_reference
each_reference o actor t [] = ok tt
each_reference o actor t (r ∷ rs) =
    let others = each_reference o actor t rs in
    do
      a ← or_raise (find_artifact r.artifact_id t.artifacts) validation_error
      check_reference o actor a r
      others

-- `_validate_evidence`; without an artifact relay there are no tables.
unfoldable pub validate_evidence :
    WorkOrder → String → Option Tables → List EvidenceRef → Outcome (Unit {0})
validate_evidence o actor tables [] = ok tt
validate_evidence o actor none (r ∷ rs) = err validation_error
validate_evidence o actor (some t) (r ∷ rs) = each_reference o actor t (r ∷ rs)

-- `packet.content_sha256 or fingerprint_packet(packet)`
unfoldable pub digest_or_fingerprint : Host → ResponsePacket → Outcome String
digest_or_fingerprint h p =
    if truthy p.content_sha256
    then ok (or_else p.content_sha256 "")
    else unchecked (fingerprint_packet h p)

abbrev pub digest_key : Host → List String → String
digest_key h parts = h.sha256 (join "|" parts)

-- `response_idempotency_cache_key` of src/awr/responses/cache.py
unfoldable pub response_idempotency_cache_key : Host → String → String → String → String → String
response_idempotency_cache_key h actor operation key fingerprint =
    digest_key h ("response-idempotency" ∷ actor ∷ operation ∷ key ∷ bare_digest fingerprint ∷ [])

abbrev pub cache_key_of : Host → ResponsePacket → String → String → String
cache_key_of h p actor digest =
    response_idempotency_cache_key h actor (type_value p.response_type) p.idempotency_key digest

-- `packet.to_dict()`
abbrev packet_dict : ResponsePacket → Fields
packet_dict p = extend (packet_body p) (field "content_sha256" (text_value p.content_sha256) end)

unfoldable pub response_receipt :
    Call → ResponsePacket → String → String → String → TransitionResult → ℕ → Fields
response_receipt c p actor digest message_id r sequence =
    field "receipt_type" (str "response.accepted") (
      field "work_order_id" (str p.work_order_id) (
        field "response_type" (str (type_value p.response_type)) (
          field "content_sha256" (str digest) (
            field "message_id" (str message_id) (
              field "status" (str (status_value r.status)) (
                field "duplicate" (bool false) (
                  field "ledger_sequence" (int sequence)
                    (field "cache_key" (str (cache_key_of c.host p actor digest)) end))))))))

unfoldable pub response_row : ResponsePacket → String → String → String → Fields → ResponseRow
response_row p actor digest message_id receipt = record {
  packet_id = message_id;
  work_order_id = p.work_order_id;
  response_type = type_value p.response_type;
  actor = actor;
  idempotency_key = p.idempotency_key;
  content_sha256 = digest;
  in_reply_to = p.in_reply_to;
  source_input_sha256 = p.source_input_sha256;
  packet = packet_dict p;
  receipt = some receipt;
  created_at = p.created_at;
}

abbrev pub message_payload : ResponsePacket → String → String → Fields
message_payload p digest message_id = field "message_id" (str message_id) (
    field "content_sha256" (str digest)
      (field "response_type" (str (type_value p.response_type)) end))

-- The writes for an accepted response.
unfoldable pub commit_response :
    Call → ResponsePacket → String → String → TransitionResult → Db → Outcome (Fields × Db)
commit_response c p actor digest r db = do
  let message_id = or_else p.message_id digest
  db1 ← update_status p.work_order_id r.status db
  entry ←
      append_ledger c p.work_order_id (event_value r.event) actor "broker:awr"
        (message_payload p digest message_id) db1
  let db2 =
      put_lifecycle p.work_order_id (record r.snapshot { current_parent_id = message_id }) entry.1
  let receipt = response_receipt c p actor digest message_id r entry.0.sequence
  db3 ← put_response_packet (response_row p actor digest message_id receipt) db2
  ok (receipt, db3)

abbrev pub duplicate_receipt : Host → ResponsePacket → String → String → WorkOrder → Fields
duplicate_receipt h p actor digest current = field "receipt_type" (str "response.accepted") (
    field "work_order_id" (str current.work_order_id) (
      field "response_type" (str (type_value p.response_type)) (
        field "content_sha256" (str digest) (
          field "status" (str (status_value current.status)) (
            field "duplicate" (bool true)
              (field "cache_key" (str (cache_key_of h p actor digest)) end))))))

-- The answer to a response whose key is taken.
unfoldable pub replay_response :
    Call → WorkOrder → ResponsePacket → String → String → ResponseRow → Db → Outcome (Fields × Db)
replay_response c o p actor digest row db = do
  require (row.content_sha256 == digest) validation_error
  ok (elim row.receipt [ none ↦ duplicate_receipt c.host p actor digest o | some r ↦ r ], db)

unfoldable pub respond_once :
    Call
    → WorkOrder
    → ResponsePacket
    → String
    → String
    → Option ℕ
    → Option ResponseRow
    → Db
    → Outcome (Fields × Db)
respond_once c o p actor digest expected (some row) db = replay_response c o p actor digest row db
respond_once c o p actor digest expected none db = do
  r ← lifted (
      apply_response c.host o.status (snapshot_from_session o db) p actor
        (read_decisions (list_decisions o.work_order_id db)) expected)
  commit_response c p actor digest r db

-- `submit_response`, from the parsed packet on.
unfoldable pub submit_packet :
    Call → Option Tables → ResponsePacket → Option String → Option ℕ → Db → Outcome (Fields × Db)
submit_packet c tables p actor expected db = do
  resolved ← resolve_actor c actor
  require (p.authority == response_authority) validation_error
  o ← require_work_order p.work_order_id db
  validate_evidence o resolved tables p.evidence_refs
  digest ← digest_or_fingerprint c.host p
  respond_once c o p resolved digest expected
      (get_response o.work_order_id resolved (type_value p.response_type) p.idempotency_key
        db.responses)
      db
