-- ===== src/Artifacts/Examples.antt =====
-- One artifact that is declared, quarantined, claimed, scanned and bundled, and the theorems of the
-- artifacts at its states.
mod Scanned
mod Workers
mod Tickets
mod Uploaded
mod Bundles
use agent_work_relay.Prelude.{
  ◌+◌, ◌≤◌, String, Bool, ap, ◌==◌, ◌≡◌, ◌≢◌, refl, true, false, not, contains, ◌||◌, none, some,
  List, [], ◌∷◌, ok, err, is_ok, leb, if◌then◌else◌, length, utf8_length, arith,
}
use agent_work_relay.Host.{Host, end, get}
use agent_work_relay.Artifacts.Status.{
  declared, quarantined, scanning, clean, ready_to_relay, rejected_malformed, status_is,
  is_orchestrator_status, terminal, has_status, allowed_transitions, value, from_value,
}
use agent_work_relay.Artifacts.Status.Values.{is_nil, from_value-value, allowed_transitions_shape}
use agent_work_relay.Artifacts.Records
use agent_work_relay.Artifacts.Records.{
  Artifact, ArtifactSecurityReceipt, ArtifactUploadTicket, ArtifactReceipt, ScanClaim,
  design_reference,
}
use agent_work_relay.Artifacts.Verdicts.{status_from_security_receipt, status_from_reasons}
use agent_work_relay.Artifacts.Rows.{find_artifact, find_by_key, find_receipt, set_artifact}
use agent_work_relay.Artifacts.Tables.{
  Outcome, Tables, artifact_error, append_receipt, put_security_receipt, any_clash, clashes,
  is_single,
}
use agent_work_relay.Artifacts.Store.Declare.{declare, update_status, is_replay}
use agent_work_relay.Artifacts.Store.Scan.{
  claim_scan_lease, complete_scan, finish_row, bound_status, leased, lease_expired,
}
use agent_work_relay.Artifacts.Store.Tickets.{
  ticket_foreign, ticket_invalid, ticket_expired, issue, require_open, get_upload_ticket,
  put_upload_ticket, spend_upload_ticket,
}
use agent_work_relay.Artifacts.Intake.{
  Limits, Stream, written, finalize_stream, finalize_row, accept_bytes, store_quarantined,
  return_after,
}
use agent_work_relay.Artifacts.Leases.{IsLeased, claim_scan_lease-IsLeased, IsLeased-excludes}
use agent_work_relay.Artifacts.Replays.{
  put_security_receipt_first, declare_again, issue-require_open, spend_upload_ticket_twice,
}
use agent_work_relay.Artifacts.Vetted.{is_attested, is_past_scan}
use agent_work_relay.Artifacts.Trace.{
  Write, History, here, next, declares, receives, claims, records, completes, empty,
}
use agent_work_relay.Artifacts.Moves.{update_status_moves}
use agent_work_relay.Artifacts.Bundle.{
  WorkBundle, Bodies, BundleLimits, bundle_of, reference_of, resolve_bundle, is_distinct,
  attach_all, attachable_reference, clean_reference, total_length, ordered, place,
  verify_bundle_generation,
}
use agent_work_relay.Artifacts.Bundle.Sound.{AllBacked}
use agent_work_relay.Artifacts.Bundle.Resolved.{resolve_bundle_sound}
use agent_work_relay.Artifacts.Trace.Receipts.{History-attested}

abbrev host : Host
host = record {
  from_iso = λ _. none;
  now = 100;
  repr = λ _. "?";
  sha256 = λ s. s;
  canonical_json = λ _. "{}";
  to_int = λ v. some v;
}

abbrev fresh : Artifact
fresh = record {
  artifact_id = "a";
  idempotency_key = "k";
  owner = "ann";
  original_filename = "f.png";
  declared_media_type = "image/png";
  detected_media_type = none;
  byte_length = none;
  sha256 = none;
  purpose = design_reference;
  status = declared;
  created_at = 1;
  parent_artifact_id = none;
  correlation_id = "c";
  expected_byte_length = none;
  expected_sha256 = none;
  scan_lease_id = none;
  scan_lease_expires_at = none;
  scan_attempt = 0;
}

abbrev tables_of : List Artifact → List ArtifactSecurityReceipt → Tables
tables_of rows security = record {
  artifacts = rows;
  security = security;
  tickets = [];
  journal = [];
}

abbrev quarantined_row : Artifact
quarantined_row = record fresh { sha256 = some "d"; byte_length = some 3; status = quarantined }

abbrev receipt : ArtifactSecurityReceipt
receipt = record {
  receipt_id = "r";
  artifact_id = "a";
  scanner_id = "s";
  scanner_version = "1";
  signature_version = "1";
  verdict = Records.clean;
  reason_codes = [];
  scanned_sha256 = "d";
  started_at = 1;
  completed_at = 2;
  diagnostics = end;
}

abbrev limits : Limits
limits = record { max_bytes = 10; is_printable = λ c. true }

abbrev body : Stream
body = record { digest = "d"; byte_length = 3 }

abbrev tables_after : {A : Type 0} → Outcome (A × Tables) → Tables
tables_after (ok (a, t)) = t
tables_after (err e) = empty

abbrev value_after : {A : Type 0} → A → Outcome (A × Tables) → A
value_after d (ok (a, t)) = a
value_after d (err e) = d

abbrev t1 : Tables
t1 = tables_after (declare fresh empty)

abbrev waiting : Tables
waiting = tables_of (quarantined_row ∷ []) []

waiting_stored : find_artifact "a" waiting.artifacts ≡ some quarantined_row
unfolding find_artifact
waiting_stored = refl
