-- ===== src/Responses/Packet.antt =====
-- src/awr/responses/validate.py, `parse_response_packet`; `ResponsePacket.to_dict` of contracts.py;
-- and the fingerprint of canonical.py.
use agent_work_relay.Prelude.{
  String, Bool, true, ◌&&◌, ◌==◌, none, some, List, [], ◌∷◌, ◌++◌, ok, err, ◌>>=◌, ◌>>◌, require,
  leb, contains, utf8_length, if◌then◌else◌,
}
use agent_work_relay.Host.{
  Host, Value, null, str, list, dict, nil, Fields, end, field, get, has_key, all_keys, value_truthy,
  to_text, text_value,
}
use agent_work_relay.Lifecycle.Responses.{ResponsePacket}
use agent_work_relay.Responses.Checks.{
  Checked, packet_error, max_string_bytes, max_packet_bytes, require_string, optional_string,
  digest, reject_inline_blobs,
}
use agent_work_relay.Responses.Payload.{type_value, type_from_value, validate_payload}
use agent_work_relay.Responses.Evidence.{known, parse_evidence, evidence_items}

abbrev pub response_schema : String
response_schema = "awr.response/v1"

abbrev pub response_authority : String
response_authority = "report_only"

abbrev pub common_required : List String
common_required =
    "schema" ∷ "response_type" ∷ "work_order_id" ∷ "in_reply_to" ∷ "idempotency_key"
    ∷ "source_input_sha256" ∷ "created_at" ∷ []

abbrev pub common_optional : List String
common_optional =
    "authority" ∷ "payload" ∷ "evidence_refs" ∷ "message_id" ∷ "correlation_id" ∷ "executor_run_id"
    ∷ "actor" ∷ "content_sha256" ∷ []

abbrev pub allowed_top : List String
allowed_top = common_required ++ common_optional

unfoldable pub has_all : List String → Fields → Bool
has_all [] d = true
has_all (key ∷ keys) d = has_key key d && has_all keys d

-- `to_dict()` without its `content_sha256`
unfoldable pub packet_body : ResponsePacket → Fields
packet_body p = field "schema" (str p.schema) (
    field "response_type" (str (type_value p.response_type)) (
      field "work_order_id" (str p.work_order_id) (
        field "in_reply_to" (str p.in_reply_to) (
          field "idempotency_key" (str p.idempotency_key) (
            field "source_input_sha256" (str p.source_input_sha256) (
              field "created_at" (str p.created_at) (
                field "authority" (str p.authority) (
                  field "payload" (dict p.payload) (
                    field "evidence_refs" (list (evidence_items p.evidence_refs)) (
                      field "message_id" (text_value p.message_id) (
                        field "correlation_id" (text_value p.correlation_id) (
                          field "executor_run_id" (text_value p.executor_run_id)
                            (field "actor" (text_value p.actor) end)))))))))))))

unfoldable pub canonical_packet_bytes : Host → ResponsePacket → Checked String
canonical_packet_bytes h p = do
  require (leb (utf8_length (h.canonical_json (dict (packet_body p)))) max_packet_bytes)
      packet_error
  ok (h.canonical_json (dict (packet_body p)))

unfoldable pub fingerprint_packet : Host → ResponsePacket → Checked String
fingerprint_packet h p = do encoded ← canonical_packet_bytes h p; ok (h.sha256 encoded)

-- `payload.get("payload") or {}`
abbrev pub payload_of : Value → Checked Fields
payload_of v = if value_truthy v then elim v [ dict d ↦ ok d | _ ↦ err packet_error ] else ok end

-- `payload.get("evidence_refs") or []`
abbrev pub evidence_or_empty : Value → Value
evidence_or_empty v = if value_truthy v then v else list nil

abbrev pub declared_agrees : String → Value → Checked (Unit {0})
declared_agrees found null = ok tt
declared_agrees found v = do declared ← digest v; require (declared == found) packet_error

-- `payload.get("authority", RESPONSE_AUTHORITY)`
abbrev pub authority_of : Fields → Value
authority_of d = if has_key "authority" d then get d "authority" else str response_authority

-- The packet before its fingerprint is set.
unfoldable pub read_packet : Host → Fields → Checked ResponsePacket
read_packet h d = do
  require (all_keys (λ k. contains k allowed_top) d) packet_error
  require (has_all common_required d) packet_error
  schema ← require_string (get d "schema") max_string_bytes
  require (schema == response_schema) packet_error
  response_type ← known (type_from_value (to_text h (get d "response_type")))
  authority ← require_string (authority_of d) max_string_bytes
  require (authority == response_authority) packet_error
  raw_payload ← payload_of (get d "payload")
  reject_inline_blobs raw_payload
  typed ← validate_payload h response_type raw_payload
  refs ← parse_evidence h (evidence_or_empty (get d "evidence_refs"))
  work_order_id ← require_string (get d "work_order_id") max_string_bytes
  in_reply_to ← require_string (get d "in_reply_to") max_string_bytes
  idempotency_key ← require_string (get d "idempotency_key") max_string_bytes
  source ← digest (get d "source_input_sha256")
  created_at ← require_string (get d "created_at") max_string_bytes
  message_id ← optional_string (get d "message_id")
  correlation_id ← optional_string (get d "correlation_id")
  executor_run_id ← optional_string (get d "executor_run_id")
  actor ← optional_string (get d "actor")
  ok (record {
    schema = schema;
    response_type = response_type;
    work_order_id = work_order_id;
    in_reply_to = in_reply_to;
    idempotency_key = idempotency_key;
    source_input_sha256 = source;
    created_at = created_at;
    authority = authority;
    payload = typed;
    evidence_refs = refs;
    message_id = message_id;
    correlation_id = correlation_id;
    executor_run_id = executor_run_id;
    actor = actor;
    content_sha256 = none;
  })

unfoldable pub parse_fields : Host → Fields → Checked ResponsePacket
parse_fields h d = do
  packet ← read_packet h d
  found ← fingerprint_packet h packet
  declared_agrees found (get d "content_sha256")
  ok (record packet { content_sha256 = some found })

unfoldable pub parse_response_packet : Host → Value → Checked ResponsePacket
parse_response_packet h (dict d) = parse_fields h d
parse_response_packet h v = err packet_error
