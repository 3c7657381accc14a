-- ===== src/Artifacts/Verdicts.antt =====
-- src/awr/artifacts/contracts.py: the status that a security receipt stands for.
use agent_work_relay.Prelude.{
  String, Bool, true, false, ◌||◌, Option, none, some, List, contains, if◌then◌else◌,
}
use agent_work_relay.Host.{Value, str, get}
use agent_work_relay.Artifacts.Status.{
  ArtifactStatus, clean, rejected_size, rejected_type, rejected_malware, rejected_active_content,
  rejected_malformed, rejected_tampering, rejected_scanner_unavailable, from_value,
}
use agent_work_relay.Artifacts.Records
use agent_work_relay.Artifacts.Records.{ArtifactSecurityVerdict, ArtifactSecurityReceipt}

abbrev pub verdict_is_clean : ArtifactSecurityVerdict → Bool
verdict_is_clean Records.clean = true
verdict_is_clean _ = false

abbrev verdict_is_unavailable : ArtifactSecurityVerdict → Bool
verdict_is_unavailable Records.unavailable = true
verdict_is_unavailable _ = false

-- The status by the verdict and the reason codes.
unfoldable pub status_from_reasons : ArtifactSecurityVerdict → List String → ArtifactStatus
status_from_reasons verdict reasons =
    if verdict_is_clean verdict
    then clean
    else if contains "malware_detected" reasons
    then rejected_malware
    else if contains "fingerprint_mismatch" reasons
    then rejected_tampering
    else if contains "size_exceeded" reasons
    then rejected_size
    else if contains "active_content" reasons
    then rejected_active_content
    else if contains "malformed" reasons
    then rejected_malformed
    else if verdict_is_unavailable verdict
        || contains "scanner_unavailable" reasons
        || contains "scanner_timeout" reasons
        || contains "expired_unclaimed" reasons
    then rejected_scanner_unavailable
    else rejected_type

recorded_status : Value → Option ArtifactStatus
recorded_status (str raw) = from_value raw
recorded_status _ = none

abbrev or_status : Option ArtifactStatus → ArtifactStatus → ArtifactStatus
or_status none s = s
or_status (some t) s = t

-- The recorded status wins, where it names one.
unfoldable pub status_from_security_receipt : ArtifactSecurityReceipt → ArtifactStatus
unfolding recorded_status
status_from_security_receipt r =
    or_status (recorded_status (get r.diagnostics "artifact_status"))
      (status_from_reasons r.verdict r.reason_codes)
