-- ===== src/Responses/Examples.antt =====
-- A progress report that is accepted, and the theorems of the validation at it.
use agent_work_relay.Prelude.{
  ◌≡◌, ◌≤◌, inl, refl, String, some, none, [], ok, err, contains, ends_with, remove_prefix,
  all_codes, utf8_length,
}
use agent_work_relay.Host.{
  Host, str, dict, int, Fields, end, field, get, has_key, all_keys, extend, value_truthy, to_text,
}
use agent_work_relay.Lifecycle.Responses.{ResponsePacket, execution_progress}
use agent_work_relay.Responses.Checks.{
  packet_error, max_packet_bytes, require_string, optional_string, digest, reject_inline_blobs,
  required_value, optional_value, take_required, take_optional, object_of,
}
use agent_work_relay.Responses.Payload.{type_from_value, check_percent, validate_payload}
use agent_work_relay.Responses.Evidence.{each_evidence, parse_evidence}
use agent_work_relay.Responses.Packet.{
  has_all, packet_body, canonical_packet_bytes, fingerprint_packet, read_packet, parse_fields,
  parse_response_packet,
}
use agent_work_relay.Responses.Accepted.{
  IsBounded, Declares, canonical, parse_response_packet-IsBounded, parse_fields-bound_content,
}
use agent_work_relay.Responses.Refused.{wrong_keys-refused}

abbrev host : Host
host = record {
  from_iso = λ _. none;
  now = 100;
  repr = λ _. "?";
  sha256 = λ s. s;
  canonical_json = λ _. "{}";
  to_int = λ v. some v;
}

abbrev source_digest : String
source_digest = "0123456789abcdef0123456789abcdef0123456789abcdef0123456789abcdef"

abbrev report : Fields
report = field "schema" (str "awr.response/v1") (
    field "response_type" (str "execution.progress") (
      field "work_order_id" (str "w") (
        field "in_reply_to" (str "m") (
          field "idempotency_key" (str "k") (
            field "source_input_sha256" (str source_digest) (
              field "created_at" (str "now") (
                field "payload" (dict (field "message" (str "half") (field "percent" (int 50) end)))
                  end)))))))

abbrev accepted : ResponsePacket
accepted = record {
  schema = "awr.response/v1";
  response_type = execution_progress;
  work_order_id = "w";
  in_reply_to = "m";
  idempotency_key = "k";
  source_input_sha256 = source_digest;
  created_at = "now";
  authority = "report_only";
  payload = field "message" (str "half") (field "percent" (int 50) end);
  evidence_refs = [];
  message_id = none;
  correlation_id = none;
  executor_run_id = none;
  actor = none;
  content_sha256 = some "{}";
}

report_fields : parse_fields host report ≡ ok accepted
unfolding parse_fields read_packet fingerprint_packet canonical_packet_bytes has_all parse_evidence
    each_evidence validate_payload check_percent type_from_value object_of take_optional
    take_required optional_value required_value reject_inline_blobs digest optional_string
    require_string has_key get all_keys extend value_truthy to_text contains ends_with remove_prefix
    all_codes packet_body
report_fields = refl

report_accepted : parse_response_packet host (dict report) ≡ ok accepted
unfolding parse_response_packet
report_accepted = report_fields

parse_response_packet-IsBounded_example : IsBounded accepted
parse_response_packet-IsBounded_example =
    parse_response_packet-IsBounded host (dict report) report_accepted

parse_fields-bound_content_example :
    (accepted.content_sha256 ≡ some (host.sha256 (canonical host accepted)))
    × (utf8_length (canonical host accepted) ≤ max_packet_bytes)
    × Declares (get report "content_sha256") (host.sha256 (canonical host accepted))
parse_fields-bound_content_example = parse_fields-bound_content host report report_fields

wrong_keys-refused_example :
    parse_response_packet host (dict (field "role" (str "admin") report)) ≡ err packet_error
unfolding has_key contains
wrong_keys-refused_example =
    wrong_keys-refused host (field "role" (str "admin") report) "role" (inl (refl, refl))
