-- ===== src/Artifacts/Examples/Workers.antt =====
-- Two workers at one artifact, and calls that are made again: src/awr/storage/artifact_sqlite.py.
use agent_work_relay.Prelude.{
  [], ◌∷◌, ◌+◌, String, Bool, ap, ◌==◌, ◌≡◌, ◌≢◌, refl, true, false, none, some, ok, err,
  if◌then◌else◌, arith,
}
use agent_work_relay.Artifacts.Status.{clean}
use agent_work_relay.Artifacts.Records
use agent_work_relay.Artifacts.Records.{
  Artifact, ArtifactSecurityReceipt, ArtifactUploadTicket, ArtifactReceipt, ScanClaim,
  design_reference,
}
use agent_work_relay.Artifacts.Rows.{find_artifact, find_by_key, find_receipt, set_artifact}
use agent_work_relay.Artifacts.Tables.{
  Tables, artifact_error, append_receipt, put_security_receipt, any_clash,
}
use agent_work_relay.Artifacts.Store.Declare.{declare, is_replay}
use agent_work_relay.Artifacts.Status.{rejected_malware}
use agent_work_relay.Artifacts.Trace.{here, next, records}
use agent_work_relay.Artifacts.Trace.Terminal.{History-terminal}
use agent_work_relay.Artifacts.Store.Scan.{claim_scan_lease, complete_scan, leased, lease_expired}
use agent_work_relay.Artifacts.Leases.{IsLeased, claim_scan_lease-IsLeased, IsLeased-excludes}
use agent_work_relay.Artifacts.Replays.{put_security_receipt_first, declare_again}
use agent_work_relay.Artifacts.Trace.{empty}
use agent_work_relay.Artifacts.Examples.{
  fresh, quarantined_row, receipt, tables_after, waiting, waiting_stored, t1,
}

abbrev claim : ScanClaim
claim = record {
  artifact_id = "a";
  generation_sha256 = "d";
  lease_id = "w1";
  expires_at = 40;
  scan_attempt = 1;
  already_scanned = false;
  existing_receipt = none;
}

abbrev leased_row : Artifact
leased_row = leased quarantined_row "w1" (10 + 30) (quarantined_row.scan_attempt + 1)

abbrev leased_tables : Tables
leased_tables = tables_after (claim_scan_lease "a" 10 30 "w1" waiting)

waiting_claimed : claim_scan_lease "a" 10 30 "w1" waiting ≡ ok (some claim, leased_tables)
unfolding claim_scan_lease find_artifact find_receipt set_artifact append_receipt any_clash
    lease_expired
waiting_claimed = refl

claim_scan_lease-IsLeased_example : IsLeased "a" "w1" (10 + 30) leased_tables leased_row
claim_scan_lease-IsLeased_example =
    claim_scan_lease-IsLeased "a" 10 30 "w1" claim waiting leased_tables quarantined_row
      waiting_stored refl waiting_claimed refl

is_leased : IsLeased "a" "w1" 40 leased_tables leased_row
unfolding claim_scan_lease find_artifact find_receipt set_artifact append_receipt any_clash
    lease_expired
is_leased = record {
  stored = refl;
  is_scanning = refl;
  has_bytes = refl;
  holder = refl;
  named = refl;
  expiry = refl;
  unscanned = refl;
}

other_worker : ◌≢◌ {A = String} "w2" "w1"
other_worker e = let k : ◌≡◌ {A = Bool} false true = ap (λ s. s == "w1") e in cc

IsLeased-excludes_example :
    (claim_scan_lease "a" 39 30 "w2" leased_tables ≡ ok (none, leased_tables))
    × (complete_scan "a" "w2" clean none 39 leased_tables ≡ err artifact_error)
IsLeased-excludes_example =
    IsLeased-excludes "a" "w1" 40 leased_tables leased_row is_leased 39 30 "w2" clean none
      (omega arith) other_worker refl

abbrev receipt_tables : Tables
receipt_tables = tables_after (put_security_receipt receipt waiting)

receipt_put : put_security_receipt receipt waiting ≡ ok (receipt, receipt_tables)
unfolding put_security_receipt find_receipt find_artifact
receipt_put = refl

abbrev late_receipt : ArtifactSecurityReceipt
late_receipt = record receipt { receipt_id = "r2"; verdict = Records.malicious }

put_security_receipt_first_example :
    (find_receipt "a" "d" receipt_tables.security ≡ some receipt)
    × (put_security_receipt late_receipt receipt_tables ≡ ok (receipt, receipt_tables))
put_security_receipt_first_example =
    put_security_receipt_first receipt receipt late_receipt waiting receipt_tables receipt_put refl
      refl

fresh_declared : declare fresh empty ≡ ok ((fresh, true), t1)
unfolding declare find_by_key find_artifact append_receipt any_clash
fresh_declared = refl

declare_again_example : declare (record fresh { owner = "ann"; artifact_id = "b" }) t1 ≡ (
    if is_replay (record fresh { owner = "ann"; artifact_id = "b" }) fresh
    then ok ((fresh, false), t1)
    else err artifact_error)
declare_again_example =
    declare_again fresh fresh true empty t1 fresh_declared
      (record fresh { owner = "ann"; artifact_id = "b" }) refl refl

abbrev rejected_row : Artifact
rejected_row = record quarantined_row { status = rejected_malware }

abbrev rejected_tables : Tables
rejected_tables = record waiting { artifacts = rejected_row ∷ [] }

rejected_stored : find_artifact "a" rejected_tables.artifacts ≡ some rejected_row
unfolding find_artifact
rejected_stored = refl

abbrev rejected_after : Tables
rejected_after = tables_after (put_security_receipt receipt rejected_tables)

receipt_after : put_security_receipt receipt rejected_tables ≡ ok (receipt, rejected_after)
unfolding put_security_receipt find_receipt find_artifact
receipt_after = refl

History-terminal_example : find_artifact "a" rejected_after.artifacts ≡ some rejected_row
History-terminal_example =
    History-terminal "a" rejected_row (next here (records receipt receipt receipt_after))
      rejected_stored refl
