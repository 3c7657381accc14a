-- ===== src/Artifacts/Intake.antt =====
-- src/awr/artifacts/service.py: `finalize_stream`. What the body store makes of the stream is an
-- argument; the digest and the length of the stream's bytes are another.
use agent_work_relay.Prelude.{
  ℕ, String, Bool, true, false, not, ◌&&◌, Option, none, some, nat_eq, Result, ok, err, ◌>>=◌,
  truthy, or_else, option_eq, if◌then◌else◌,
}
use agent_work_relay.Host.{int, str, Fields, end, field}
use agent_work_relay.Artifacts.Status.{
  ArtifactStatus, declared, quarantined, rejected_size, rejected_tampering, value, status_is,
}
use agent_work_relay.Artifacts.Names.{safe_filename}
use agent_work_relay.Artifacts.Records.{Artifact, ArtifactReceipt}
use agent_work_relay.Artifacts.Rows.{find_artifact, set_artifact}
use agent_work_relay.Artifacts.Tables.{Outcome, StoreError, Tables, append_receipt}
use agent_work_relay.Artifacts.Store.Declare.{purpose_value, update_status}

pub record Stream : Type 0 where
  pub digest : String
  pub byte_length : ℕ

-- What `bodies.write_quarantine` does: it returns, raises ArtifactTooLargeError, or raises another
-- error.
pub data WriteOutcome : Type 0 where
  written : String → ℕ → WriteOutcome
  too_large write_failed : WriteOutcome

pub data IntakeError : Type 0 where
  unknown_artifact bytes_differ wrong_status size_exceeded digest_differs : IntakeError
  length_differs body_store_error : IntakeError
  store_error : StoreError → IntakeError

pub record Limits : Type 0 where
  pub max_bytes : ℕ
  -- `str.isprintable` of one character
  pub is_printable : ℕ → Bool

abbrev pub Finalized : Type 0
Finalized = Result IntakeError Artifact × Tables

abbrev intake_entry : Artifact → Option String → String → Fields → ArtifactReceipt
intake_entry a actor event payload = record {
  artifact_id = a.artifact_id;
  work_order_id = none;
  correlation_id = a.correlation_id;
  event_type = event;
  actor = or_else actor a.owner;
  counterparty = "broker:awr";
  payload = payload;
}

-- Status and journal of a rejection, in the transaction that the error leaves behind.
unfoldable pub record_rejection :
    Artifact → Option String → ArtifactStatus → Fields → Tables → Outcome Tables
record_rejection a actor status payload t = do
  (done, t1) ← update_status a.artifact_id status t
  (entry, t2) ← append_receipt (intake_entry a actor "artifact.rejected" payload) t1
  ok t2

-- The transaction commits, and then the error is raised.
unfoldable pub raise_after : IntakeError → Tables → Outcome Tables → Finalized
raise_after e t (ok t') = (err e, t')
raise_after e t (err s) = (err (store_error s), t)

abbrev pub rejection_payload : ArtifactStatus → String → ℕ → Fields
rejection_payload status digest byte_length =
    field "reason" (str (value status))
      (field "sha256" (str digest) (field "byte_length" (int byte_length) end))

-- `artifact.expected_sha256 and sha256 != artifact.expected_sha256`
abbrev pub digest_differs_from : Option String → String → Bool
digest_differs_from expected digest = truthy expected && not (option_eq expected (some digest))

abbrev pub length_differs_from : Option ℕ → ℕ → Bool
length_differs_from none byte_length = false
length_differs_from (some n) byte_length = not (nat_eq byte_length n)

unfoldable pub store_quarantined :
    Limits → Artifact → Option String → String → ℕ → Tables → Outcome (Artifact × Tables)
store_quarantined l a actor digest byte_length t = do
  let marked : Artifact = record a { sha256 = some digest; byte_length = some byte_length }
  (done, t1) ←
      update_status a.artifact_id quarantined
        (record t { artifacts = set_artifact marked t.artifacts })
  let payload = field "sha256" (str digest) (
      field "byte_length" (int byte_length) (
        field "declared_media_type" (str a.declared_media_type) (
          field "purpose" (str (purpose_value a.purpose))
            (field "safe_filename" (str (safe_filename l.is_printable a.original_filename)) end))))
  (entry, t2) ← append_receipt (intake_entry a actor "artifact.quarantined" payload) t1
  ok (record marked { status = quarantined }, t2)

unfoldable pub return_after : Tables → Outcome (Artifact × Tables) → Finalized
return_after t (ok (a, t')) = (ok a, t')
return_after t (err s) = (err (store_error s), t)

unfoldable pub accept_bytes : Limits → Artifact → Option String → WriteOutcome → Tables → Finalized
accept_bytes l a actor too_large t = raise_after size_exceeded t (
    record_rejection a actor rejected_size
      (field "reason" (str (value rejected_size)) (field "limit_bytes" (int l.max_bytes) end)) t)
accept_bytes l a actor write_failed t = (err body_store_error, t)
accept_bytes l a actor (written digest byte_length) t =
    if digest_differs_from a.expected_sha256 digest
    then raise_after digest_differs t (
        record_rejection a actor rejected_tampering
          (rejection_payload rejected_tampering digest byte_length) t)
    else if length_differs_from a.expected_byte_length byte_length
    then raise_after length_differs t (
        record_rejection a actor rejected_tampering
          (rejection_payload rejected_tampering digest byte_length) t)
    else return_after t (store_quarantined l a actor digest byte_length t)

abbrev pub is_present : Option String → Bool
is_present none = false
is_present (some s) = true

abbrev pub is_length : Option ℕ → ℕ → Bool
is_length none n = false
is_length (some m) n = nat_eq n m

unfoldable pub finalize_row :
    Limits → Option Artifact → Option String → Stream → WriteOutcome → Tables → Finalized
finalize_row l none actor stream outcome t = (err unknown_artifact, t)
finalize_row l (some a) actor stream outcome t =
    if status_is a.status quarantined && is_present a.sha256
    then (if option_eq (some stream.digest) a.sha256 && is_length a.byte_length stream.byte_length
        then (ok a, t)
        else (err bytes_differ, t))
    else if not (status_is a.status declared)
    then (err wrong_status, t)
    else accept_bytes l a actor outcome t

-- `finalize_stream`
unfoldable pub finalize_stream :
    Limits → String → Option String → Stream → WriteOutcome → Tables → Finalized
unfolding record_rejection raise_after store_quarantined return_after accept_bytes finalize_row
finalize_stream l artifact_id actor stream outcome t =
    finalize_row l (find_artifact artifact_id t.artifacts) actor stream outcome t
