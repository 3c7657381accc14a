-- ===== src/Responses/Evidence.antt =====
-- src/awr/responses/validate.py, `_parse_evidence`, and `ArtifactReference.to_dict` of
-- src/awr/artifacts/contracts.py.
use agent_work_relay.Prelude.{
  String, ◌==◌, Option, none, some, List, [], ◌∷◌, ok, err, ◌>>=◌, ◌>>◌, require, leb, contains,
  if◌then◌else◌,
}
use agent_work_relay.Host.{
  Host, Value, list, dict, str, Items, nil, item, Fields, end, field, get, has_key, all_keys,
  to_text, text_value,
}
use agent_work_relay.Artifacts.Records.{
  ArtifactPurpose, design_reference, data_contract, requirements_reference, other_reference,
}
use agent_work_relay.Artifacts.Store.Declare.{purpose_value}
use agent_work_relay.Lifecycle.Responses.{EvidenceRef}
use agent_work_relay.Responses.Checks.{
  Checked, packet_error, key_error, int_error, max_string_bytes, max_evidence_refs, require_string,
  optional_string, digest,
}
use agent_work_relay.Responses.Payload.{count}

-- `ArtifactPurpose(s)`
unfoldable pub purpose_from_value : String → Option ArtifactPurpose
purpose_from_value s =
    if s == "design_reference"
    then some design_reference
    else if s == "data_contract"
    then some data_contract
    else if s == "requirements_reference"
    then some requirements_reference
    else if s == "other_reference"
    then some other_reference
    else none

abbrev pub evidence_keys : List String
evidence_keys =
    "artifact_id" ∷ "purpose" ∷ "byte_length" ∷ "sha256" ∷ "detected_media_type" ∷ "safe_filename"
    ∷ []

abbrev pub known : {A : Type 0} → Option A → Checked A
known none = err packet_error
known (some a) = ok a

-- `item[key]`, of which only that of the purpose is caught
abbrev pub index : Fields → String → Checked Value
index d key = do require (has_key key d) key_error; ok (get d key)

abbrev pub to_integer : Option Value → Checked Value
to_integer none = err int_error
to_integer (some v) = ok v

unfoldable pub evidence_of : Host → Value → Checked EvidenceRef
evidence_of h (dict d) = do
  require (all_keys (λ k. contains k evidence_keys) d) packet_error
  require (has_key "purpose" d) packet_error
  purpose ← known (purpose_from_value (to_text h (get d "purpose")))
  raw_id ← index d "artifact_id"
  artifact_id ← require_string raw_id max_string_bytes
  raw_length ← index d "byte_length"
  byte_length ← to_integer (h.to_int raw_length)
  raw_sha256 ← index d "sha256"
  sha256 ← digest raw_sha256
  media_type ← optional_string (get d "detected_media_type")
  raw_name ← index d "safe_filename"
  name ← require_string raw_name max_string_bytes
  ok (record {
    artifact_id = artifact_id;
    purpose = purpose;
    byte_length = byte_length;
    sha256 = sha256;
    detected_media_type = media_type;
    safe_filename = name;
  })
evidence_of h v = err packet_error

unfoldable pub each_evidence : Host → Items → Checked (List EvidenceRef)
each_evidence h nil = ok []
each_evidence h (item v rest) =
    let others = each_evidence h rest in do r ← evidence_of h v; rs ← others; ok (r ∷ rs)

unfoldable pub parse_evidence : Host → Value → Checked (List EvidenceRef)
parse_evidence h (list items) = do
  require (leb (count items) max_evidence_refs) packet_error
  each_evidence h items
parse_evidence h v = err packet_error

-- `ArtifactReference.to_dict`
abbrev pub evidence_dict : EvidenceRef → Fields
evidence_dict r = field "artifact_id" (str r.artifact_id) (
    field "purpose" (str (purpose_value r.purpose)) (
      field "byte_length" r.byte_length (
        field "sha256" (str r.sha256) (
          field "detected_media_type" (text_value r.detected_media_type)
            (field "safe_filename" (str r.safe_filename) end)))))

abbrev pub evidence_items : List EvidenceRef → Items
evidence_items [] = nil
evidence_items (r ∷ rs) = item (dict (evidence_dict r)) (evidence_items rs)
