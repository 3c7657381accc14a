-- ===== src/Artifacts/Store/Scan.antt =====
-- src/awr/storage/artifact_sqlite.py: `claim_scan_lease` and `complete_scan`. Times are in microseconds.
use agent_work_relay.Prelude.{
  ℕ, ◌+◌, String, Bool, true, false, not, ◌&&◌, ◌||◌, Option, none, some, leb, ok, err, ◌>>=◌, ◌>>◌,
  require, reject, truthy, or_else, option_eq, if◌then◌else◌,
}
use agent_work_relay.Host.{Value, int, str, Fields, end, field}
use agent_work_relay.Artifacts.Status.{
  ArtifactStatus, quarantined, scanning, clean, ready_to_relay, relayed, status_is, has_status,
  is_rejection, allowed_transitions, value,
}
use agent_work_relay.Artifacts.Records.{
  Artifact, ArtifactSecurityReceipt, ScanClaim, ArtifactReceipt,
}
use agent_work_relay.Artifacts.Verdicts.{status_from_security_receipt}
use agent_work_relay.Artifacts.Rows.{find_artifact, find_receipt, set_artifact}
use agent_work_relay.Artifacts.Tables.{Outcome, artifact_error, key_error, Tables, append_receipt}
use agent_work_relay.Host.{text_value}

lease_past : Option ℕ → ℕ → Bool
lease_past none now = true
lease_past (some expires) now = leb expires now

-- `_lease_expired`
unfoldable pub lease_expired : Artifact → ℕ → Bool
unfolding lease_past
lease_expired a now = not (truthy a.scan_lease_id) || lease_past a.scan_lease_expires_at now

-- A journal entry of the broker about itself.
abbrev broker_entry : Artifact → String → Fields → ArtifactReceipt
broker_entry a event payload = record {
  artifact_id = a.artifact_id;
  work_order_id = none;
  correlation_id = a.correlation_id;
  event_type = event;
  actor = "broker:awr";
  counterparty = "broker:awr";
  payload = payload;
}

abbrev is_receipt : Option ArtifactSecurityReceipt → Bool
is_receipt none = false
is_receipt (some r) = true

abbrev claim_of : Artifact → String → ℕ → ℕ → Option ArtifactSecurityReceipt → ScanClaim
claim_of a lease_id expires_at attempt existing = record {
  artifact_id = a.artifact_id;
  generation_sha256 = or_else a.sha256 "";
  lease_id = lease_id;
  expires_at = expires_at;
  scan_attempt = attempt;
  already_scanned = is_receipt existing;
  existing_receipt = existing;
}

-- The row of an artifact under a lease, in SCANNING.
abbrev pub leased : Artifact → String → ℕ → ℕ → Artifact
leased a lease_id expires_at attempt = record a {
  status = scanning;
  scan_lease_id = some lease_id;
  scan_lease_expires_at = some expires_at;
  scan_attempt = attempt;
}

-- A claim beside a receipt takes the lease over; one without a receipt starts an attempt.
claim_beside :
    Option ArtifactSecurityReceipt
    → Artifact
    → ℕ
    → ℕ
    → String
    → Tables
    → Outcome (Option ScanClaim × Tables)
claim_beside (some receipt) a now ttl lease_id t =
    if status_is a.status scanning || has_status scanning (allowed_transitions a.status)
    then ok (
      some (claim_of a lease_id (now + ttl) a.scan_attempt (some receipt)),
      record t {
        artifacts = set_artifact (leased a lease_id (now + ttl) a.scan_attempt) t.artifacts;
      },
    )
    else ok (none, t)
claim_beside none a now ttl lease_id t =
    if status_is a.status scanning && not (lease_expired a now)
    then ok (none, t)
    else if not (status_is a.status quarantined) && not (status_is a.status scanning)
    then ok (none, t)
    else do
      let attempt = a.scan_attempt + 1
      let rows = set_artifact (leased a lease_id (now + ttl) attempt) t.artifacts
      let payload = field "sha256" (text_value a.sha256) (field "scan_attempt" (int attempt) end)
      (entry, t') ←
          append_receipt (broker_entry a "artifact.scan_started" payload)
            (record t { artifacts = rows })
      ok (some (claim_of a lease_id (now + ttl) attempt none), t')

claim_row : Option Artifact → ℕ → ℕ → String → Tables → Outcome (Option ScanClaim × Tables)
claim_row none now ttl lease_id t = err key_error
claim_row (some a) now ttl lease_id t =
    if status_is a.status clean || is_rejection a.status
    then ok (none, t)
    else if status_is a.status ready_to_relay || status_is a.status relayed
    then ok (none, t)
    else do
      require (truthy a.sha256) artifact_error
      claim_beside (find_receipt a.artifact_id (or_else a.sha256 "") t.security) a now ttl lease_id
          t

unfoldable pub claim_scan_lease :
    String → ℕ → ℕ → String → Tables → Outcome (Option ScanClaim × Tables)
unfolding claim_beside claim_row
claim_scan_lease artifact_id now ttl lease_id t =
    claim_row (find_artifact artifact_id t.artifacts) now ttl lease_id t

-- A receipt binds the status, but a rejection overrides a CLEAN receipt.
unfoldable pub bound_status : Option ArtifactSecurityReceipt → ArtifactStatus → ArtifactStatus
bound_status none status = status
bound_status (some receipt) status =
    let bound = status_from_security_receipt receipt in
    if is_rejection status && status_is bound clean then status else bound

-- `COALESCE(?, detected_media_type)`
abbrev coalesce : Option String → Option String → Option String
coalesce none o = o
coalesce (some s) o = some s

-- The row after a scan.
abbrev pub finished : Artifact → ArtifactStatus → Option String → Artifact
finished a status detected = record a {
  status = status;
  detected_media_type = coalesce detected a.detected_media_type;
  scan_lease_id = none;
  scan_lease_expires_at = none;
}

-- The journal entries of a finished scan.
journal_passed : Artifact → Value → Option String → Tables → Outcome Tables
journal_passed a digest detected t = do
  (passed, t1) ←
      append_receipt
        (broker_entry a "artifact.scan_passed"
          (field "sha256" digest (field "detected_media_type" (text_value detected) end)))
        t
  (promoted, t2) ←
      append_receipt (broker_entry a "artifact.promoted" (field "sha256" digest end)) t1
  ok t2

journal_rejected : Artifact → Value → ArtifactStatus → Tables → Outcome Tables
journal_rejected a digest status t = do
  (rejected, t1) ←
      append_receipt
        (broker_entry a "artifact.rejected"
          (field "reason" (str (value status)) (field "sha256" digest end)))
        t
  ok t1

journal_scan : Artifact → ArtifactStatus → Option String → Tables → Outcome Tables
journal_scan a status detected t =
    let digest = str (or_else a.sha256 "") in
    if status_is status clean
    then journal_passed a digest detected t
    else if is_rejection status
    then journal_rejected a digest status t
    else ok t

unfoldable pub finish_row :
    Artifact
    → String
    → ArtifactStatus
    → Option String
    → ℕ
    → Option ArtifactSecurityReceipt
    → Tables
    → Outcome (Artifact × Tables)
unfolding journal_scan journal_passed journal_rejected
finish_row a lease_id status detected now receipt t = do
  require
      (option_eq a.scan_lease_id (some lease_id)
        || not (truthy a.scan_lease_id)
        || lease_expired a now
        || is_receipt receipt)
      artifact_error
  reject (not (is_receipt receipt) && status_is status clean) artifact_error
  let row = finished a status detected
  t' ← journal_scan a status detected (record t { artifacts = set_artifact row t.artifacts })
  ok (row, t')

complete_row :
    Option Artifact
    → String
    → ArtifactStatus
    → Option String
    → ℕ
    → Tables
    → Outcome (Artifact × Tables)
complete_row none lease_id status detected now t = err key_error
complete_row (some a) lease_id status detected now t =
    if status_is a.status status then ok (a, t) else do
      require (status_is a.status scanning) artifact_error
      let receipt = find_receipt a.artifact_id (or_else a.sha256 "") t.security
      finish_row a lease_id (bound_status receipt status) detected now receipt t

unfoldable pub complete_scan :
    String → String → ArtifactStatus → Option String → ℕ → Tables → Outcome (Artifact × Tables)
unfolding complete_row
complete_scan artifact_id lease_id status detected now t =
    complete_row (find_artifact artifact_id t.artifacts) lease_id status detected now t
