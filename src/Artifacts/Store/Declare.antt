-- ===== src/Artifacts/Store/Declare.antt =====
-- src/awr/storage/artifact_sqlite.py: `declare` with its replay check, and `update_status`.
use agent_work_relay.Prelude.{
  ℕ, String, Bool, true, false, ◌&&◌, Option, none, some, [], ◌∷◌, ◌++◌, ◌==◌, nat_eq, ok, err,
  ◌>>=◌, ◌>>◌, require, reject, option_eq, if◌then◌else◌,
}
use agent_work_relay.Host.{str, end, field, text_value, number_value}
use agent_work_relay.Artifacts.Status.{
  ArtifactStatus, status_is, has_status, is_orchestrator_status, allowed_transitions,
}
use agent_work_relay.Artifacts.Records.{
  ArtifactPurpose, design_reference, data_contract, requirements_reference, other_reference,
  Artifact, ArtifactReceipt,
}
use agent_work_relay.Artifacts.Rows.{find_artifact, find_by_key, set_artifact}
use agent_work_relay.Artifacts.Tables.{
  Outcome, artifact_error, key_error, integrity_error, Tables, append_receipt,
}

-- `purpose.value`
abbrev pub purpose_value : ArtifactPurpose → String
purpose_value design_reference = "design_reference"
purpose_value data_contract = "data_contract"
purpose_value requirements_reference = "requirements_reference"
purpose_value other_reference = "other_reference"

abbrev number_eq : Option ℕ → Option ℕ → Bool
number_eq none none = true
number_eq (some a) (some b) = nat_eq a b
number_eq _ _ = false

-- The fields that `_validate_replay` compares are the same.
unfoldable pub is_replay : Artifact → Artifact → Bool
is_replay candidate existing =
    candidate.owner == existing.owner
    && candidate.original_filename == existing.original_filename
    && candidate.declared_media_type == existing.declared_media_type
    && purpose_value candidate.purpose == purpose_value existing.purpose
    && option_eq candidate.parent_artifact_id existing.parent_artifact_id
    && number_eq candidate.expected_byte_length existing.expected_byte_length
    && option_eq candidate.expected_sha256 existing.expected_sha256

abbrev declared_entry : Artifact → ArtifactReceipt
declared_entry a = record {
  artifact_id = a.artifact_id;
  work_order_id = none;
  correlation_id = a.correlation_id;
  event_type = "artifact.declared";
  actor = a.owner;
  counterparty = "broker:awr";
  payload = field "purpose" (str (purpose_value a.purpose)) (
      field "declared_media_type" (str a.declared_media_type) (
        field "original_filename" (str a.original_filename) (
          field "expected_byte_length" (number_value a.expected_byte_length)
            (field "expected_sha256" (text_value a.expected_sha256) end))));
}

abbrev is_free : Option Artifact → Bool
is_free none = true
is_free (some a) = false

declare_beside : Option Artifact → Artifact → Tables → Outcome ((Artifact × Bool) × Tables)
declare_beside (some existing) a t = do
  require (is_replay a existing) artifact_error
  ok ((existing, false), t)
declare_beside none a t = do
  require (is_free (find_artifact a.artifact_id t.artifacts)) integrity_error
  (entry, t') ← append_receipt (declared_entry a) (record t { artifacts = t.artifacts ++ a ∷ [] })
  ok ((a, true), t')

-- `declare`: an owner and an idempotency key name one artifact.
unfoldable pub declare : Artifact → Tables → Outcome ((Artifact × Bool) × Tables)
unfolding declare_beside
declare a t = declare_beside (find_by_key a.owner a.idempotency_key t.artifacts) a t

move_row : Artifact → ArtifactStatus → Tables → Outcome (Unit {0} × Tables)
move_row current status t =
    if status_is status current.status
    then ok (tt, t)
    else if has_status status (allowed_transitions current.status)
    then ok
        (tt, record t { artifacts = set_artifact (record current { status = status }) t.artifacts })
    else err artifact_error

status_of_row : Option Artifact → ArtifactStatus → Tables → Outcome (Unit {0} × Tables)
status_of_row none status t = err key_error
status_of_row (some current) status t = do
  reject (is_orchestrator_status status) artifact_error
  move_row current status t

-- `_update_status_on_connection`
unfoldable pub update_status : String → ArtifactStatus → Tables → Outcome (Unit {0} × Tables)
unfolding status_of_row move_row
update_status artifact_id status t = status_of_row (find_artifact artifact_id t.artifacts) status t
