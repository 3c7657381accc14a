-- ===== src/Responses/Accepted.antt =====
-- What an accepted packet satisfies (src/awr/responses/validate.py, `parse_response_packet`).
use agent_work_relay.Prelude.{
  ◌≤◌, ◌≡◌, ◌==◌, String, true, some, length, ok, leb, leb→le, utf8_length, contains, subst, sym,
  require, arith, eq_iff, bind-eq-ok, require-eq-ok, ok-injective,
}
use agent_work_relay.Host.{Host, Value, null, dict, Fields, get, all_keys, to_text}
use agent_work_relay.Lifecycle.Responses.{ResponsePacket}
use agent_work_relay.Responses.Checks.{
  packet_error, max_string_bytes, max_packet_bytes, require_string, optional_string, is_digest,
  digest, reject_inline_blobs,
}
use agent_work_relay.Responses.Payload.{type_from_value, validate_payload}
use agent_work_relay.Responses.Evidence.{known, parse_evidence}
use agent_work_relay.Responses.Packet.{
  response_schema, response_authority, common_required, allowed_top, has_all, packet_body,
  canonical_packet_bytes, fingerprint_packet, payload_of, evidence_or_empty, declared_agrees,
  authority_of, read_packet, parse_fields, parse_response_packet,
}
use agent_work_relay.Responses.Bounds.{
  IsText, IsOptionalText, AllEvidence, require_string_sound, optional_string_sound, digest_sound,
  parse_evidence_sound,
}
use agent_work_relay.Responses.Limits.{payload_limit, payload_fits, validate_payload_fits}

pub record IsBounded (p : ResponsePacket) : Type 0 where
  pub its_schema : (p.schema == "awr.response/v1") ≡ true
  pub its_authority : (p.authority == "report_only") ≡ true
  pub its_work_order : IsText 8192 p.work_order_id
  pub its_parent : IsText 8192 p.in_reply_to
  pub its_key : IsText 8192 p.idempotency_key
  pub its_source : is_digest p.source_input_sha256 ≡ true
  pub its_time : IsText 8192 p.created_at
  pub its_payload : payload_fits (payload_limit p.response_type) p.payload ≡ true
  pub its_evidence : AllEvidence p.evidence_refs × (length p.evidence_refs ≤ 10)
  pub its_message : IsOptionalText p.message_id
  pub its_correlation : IsOptionalText p.correlation_id
  pub its_run : IsOptionalText p.executor_run_id
  pub its_actor : IsOptionalText p.actor

read_packet-IsBounded :
    (h : Host) (d : Fields) {p : ResponsePacket} → read_packet h d ≡ ok p → IsBounded p
unfolding read_packet
read_packet-IsBounded h d e =
    let (_, e1) = require-eq-ok (all_keys (λ k. contains k allowed_top) d) packet_error _ e in
    let (_, e2) = require-eq-ok (has_all common_required d) packet_error _ e1 in
    let (schema, a1, e3) = bind-eq-ok (require_string (get d "schema") max_string_bytes) _ e2 in
    let (b1, e4) = require-eq-ok (schema == response_schema) packet_error _ e3 in
    let (t, _, e5) =
      bind-eq-ok (known (type_from_value (to_text h (get d "response_type")))) _ e4 in
    let (authority, _, e6) = bind-eq-ok (require_string (authority_of d) max_string_bytes) _ e5 in
    let (b2, e7) = require-eq-ok (authority == response_authority) packet_error _ e6 in
    let (raw, _, e8) = bind-eq-ok (payload_of (get d "payload")) _ e7 in
    let (_, _, e9) = bind-eq-ok (reject_inline_blobs raw) _ e8 in
    let (_, a3, f1) = bind-eq-ok (validate_payload h t raw) _ e9 in
    let (_, a4, f2) =
      bind-eq-ok (parse_evidence h (evidence_or_empty (get d "evidence_refs"))) _ f1 in
    let (_, a5, f3) = bind-eq-ok (require_string (get d "work_order_id") max_string_bytes) _ f2 in
    let (_, a6, f4) = bind-eq-ok (require_string (get d "in_reply_to") max_string_bytes) _ f3 in
    let (_, a7, f5) = bind-eq-ok (require_string (get d "idempotency_key") max_string_bytes) _ f4 in
    let (_, a8, f6) = bind-eq-ok (digest (get d "source_input_sha256")) _ f5 in
    let (_, a9, f7) = bind-eq-ok (require_string (get d "created_at") max_string_bytes) _ f6 in
    let (_, c1, f8) = bind-eq-ok (optional_string (get d "message_id")) _ f7 in
    let (_, c2, f9) = bind-eq-ok (optional_string (get d "correlation_id")) _ f8 in
    let (_, c3, g1) = bind-eq-ok (optional_string (get d "executor_run_id")) _ f9 in
    let (_, c4, g2) = bind-eq-ok (optional_string (get d "actor")) _ g1 in
    subst IsBounded (ok-injective g2) (record {
      its_schema = b1;
      its_authority = b2;
      its_work_order = (require_string_sound _ _ a5).1;
      its_parent = (require_string_sound _ _ a6).1;
      its_key = (require_string_sound _ _ a7).1;
      its_source = digest_sound _ a8;
      its_time = (require_string_sound _ _ a9).1;
      its_payload = validate_payload_fits h t raw a3;
      its_evidence = parse_evidence_sound h _ a4;
      its_message = optional_string_sound _ c1;
      its_correlation = optional_string_sound _ c2;
      its_run = optional_string_sound _ c3;
      its_actor = optional_string_sound _ c4;
    })

module _ (h : Host) (d : Fields) {p : ResponsePacket} (accepted : parse_fields h d ≡ ok p) where
  accepted_parts :
      (q : ResponsePacket) × (found : String) × (read_packet h d ≡ ok q)
      × (fingerprint_packet h q ≡ ok found)
      × (declared_agrees found (get d "content_sha256") ≡ ok tt)
      × (record q { content_sha256 = some found } ≡ p)
  unfolding parse_fields
  accepted_parts =
      let (q, a, e1) = bind-eq-ok (read_packet h d) _ accepted in
      let (found, b, e2) = bind-eq-ok (fingerprint_packet h q) _ e1 in
      let (_, c, e3) = bind-eq-ok (declared_agrees found (get d "content_sha256")) _ e2 in
      (q, found, a, b, c, ok-injective e3)

  fields-IsBounded : IsBounded p
  fields-IsBounded =
      let (q, found, a, b, c, same) = accepted_parts in
      let q_bounded = read_packet-IsBounded h d a in
      subst IsBounded same (record {
        its_schema = q_bounded.its_schema;
        its_authority = q_bounded.its_authority;
        its_work_order = q_bounded.its_work_order;
        its_parent = q_bounded.its_parent;
        its_key = q_bounded.its_key;
        its_source = q_bounded.its_source;
        its_time = q_bounded.its_time;
        its_payload = q_bounded.its_payload;
        its_evidence = q_bounded.its_evidence;
        its_message = q_bounded.its_message;
        its_correlation = q_bounded.its_correlation;
        its_run = q_bounded.its_run;
        its_actor = q_bounded.its_actor;
      })

-- In an accepted packet: the schema is "awr.response/v1" and the authority "report_only"; the IDs,
-- the key and the time are not empty and at most 8192 bytes long, and so are the optional texts
-- where they are set; the source digest has 64 hexadecimal characters; each text of the payload is a
-- digest, where its key ends in "sha256", and else has at most 8192 bytes, or 262144 for the content
-- of a plan, the text of a question, the summary of an execution and the rationale of a review; a
-- list in it has at most 32 questions; and there are at most 10 references, each with a digest and
-- texts within the limits.
pub parse_response_packet-IsBounded :
    (h : Host) (v : Value) {p : ResponsePacket} → parse_response_packet h v ≡ ok p → IsBounded p
unfolding parse_response_packet
parse_response_packet-IsBounded h (dict d) e = fields-IsBounded h d e
parse_response_packet-IsBounded h _ e = cc

abbrev pub canonical : Host → ResponsePacket → String
canonical h p = h.canonical_json (dict (packet_body p))

-- The digest that the packet came with, where it came with one, is the one given.
abbrev pub Declares : Value → String → Type 0
Declares null found = Unit {0}
Declares v found = digest v ≡ ok found

require_same : (s found : String) → require (s == found) packet_error ≡ ok tt → s ≡ found
require_same s found e = ground (arith, eq_iff s found)

declared_agrees-Declares :
    (v : Value) (found : String) → declared_agrees found v ≡ ok tt → Declares v found
declared_agrees-Declares null found e = tt
declared_agrees-Declares v found e =
    let (s, a, e1) = bind-eq-ok (digest v) _ e in cc (require_same s found e1)

-- The digest of an accepted packet is the SHA-256 of its canonical text without the digest, that text
-- has at most 524288 bytes, and a digest that the message declares is this one.
pub parse_fields-bound_content :
    (h : Host) (d : Fields) {p : ResponsePacket}
    → parse_fields h d ≡ ok p
    → (p.content_sha256 ≡ some (h.sha256 (canonical h p)))
      × (utf8_length (canonical h p) ≤ max_packet_bytes)
      × Declares (get d "content_sha256") (h.sha256 (canonical h p))
unfolding fingerprint_packet canonical_packet_bytes packet_body
parse_fields-bound_content h d {p} accepted =
    let (q, found, a, b, c, same) = accepted_parts h d accepted in
    let (text, b1, b2) = bind-eq-ok (canonical_packet_bytes h q) _ b in
    let (few, b3) =
      require-eq-ok (leb (utf8_length (canonical h q)) max_packet_bytes) packet_error _ b1 in
    let digest_is : h.sha256 (canonical h q) ≡ found = cc (ok-injective b2, ok-injective b3) in
    subst
      (λ x.
        (x.content_sha256 ≡ some (h.sha256 (canonical h x)))
        × (utf8_length (canonical h x) ≤ max_packet_bytes)
        × Declares (get d "content_sha256") (h.sha256 (canonical h x)))
      same
      (
        cc,
        leb→le _ _ few,
        subst (Declares (get d "content_sha256")) (sym digest_is)
            (declared_agrees-Declares (get d "content_sha256") found c),
      )
