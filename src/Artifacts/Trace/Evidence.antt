-- ===== src/Artifacts/Trace/Evidence.antt =====
-- The security receipts along a sequence of transactions: src/awr/storage/artifact_sqlite.py.
use agent_work_relay.Prelude.{
  ℕ, String, Bool, ◌≡◌, refl, ap, Option, none, some, ok, arith, option_cases, inl, inr,
}
use agent_work_relay.Artifacts.Status.{ArtifactStatus}
use agent_work_relay.Artifacts.Records.{Artifact, ArtifactSecurityReceipt, ScanClaim}
use agent_work_relay.Artifacts.Rows.{find_artifact, find_receipt, find_receipt-append}
use agent_work_relay.Artifacts.Tables.{Tables, append_receipt, put_security_receipt}
use agent_work_relay.Artifacts.Store.Declare.{declare, update_status}
use agent_work_relay.Artifacts.Store.Scan.{claim_scan_lease, complete_scan}
use agent_work_relay.Artifacts.Intake.{
  Limits, Stream, WriteOutcome, written, too_large, write_failed, finalize_stream, finalize_row,
  accept_bytes, store_quarantined, return_after, raise_after, record_rejection,
}
use agent_work_relay.Artifacts.Vetted.Finish.{complete_shape, complete_found, finish_row_shape}
use agent_work_relay.Artifacts.Trace.{
  Write, declares, updates, receives, claims, records, completes, History, here, next,
}

declare-security :
    (a b : Artifact) (fresh : Bool) (t t' : Tables)
    → declare a t ≡ ok ((b, fresh), t')
    → t'.security ≡ t.security
unfolding declare append_receipt
declare-security a b fresh t t' e = ground arith

update_status-security :
    (k : String) (s : ArtifactStatus) (t t' : Tables)
    → update_status k s t ≡ ok (tt, t')
    → t'.security ≡ t.security
unfolding update_status
update_status-security k s t t' e = ground arith

claim_scan_lease-security :
    (k : String) (now ttl : ℕ) (lease : String) (c : Option ScanClaim) (t t' : Tables)
    → claim_scan_lease k now ttl lease t ≡ ok (c, t')
    → t'.security ≡ t.security
unfolding claim_scan_lease append_receipt
claim_scan_lease-security k now ttl lease c t t' e = ground arith

complete_scan-security :
    (k lease : String) (s : ArtifactStatus) (detected : Option String) (now : ℕ) (b : Artifact)
    (t t' : Tables)
    → complete_scan k lease s detected now t ≡ ok (b, t')
    → t'.security ≡ t.security
complete_scan-security k lease s detected now b t t' e =
    elim (option_cases (find_artifact k t.artifacts)) [
      | inl missing ↦ let refused = complete_found k lease s detected now t missing in cc
      | inr w ↦
          let (a, found) = w in
          elim (complete_shape k lease s detected now b t t' a found e) [
            | inl same ↦ ap (λ x. x.security) same
            | inr f ↦ (finish_row_shape a b lease _ detected now _ t t' f).0
          ]
    ]

finalize_row-security :
    (l : Limits) (o : Option Artifact) (actor : Option String) (s : Stream) (w : WriteOutcome)
    (t : Tables)
    → (finalize_row l o actor s w t).1.security ≡ t.security
unfolding finalize_row accept_bytes store_quarantined return_after raise_after record_rejection
    update_status append_receipt
finalize_row-security l none actor s w t = refl
finalize_row-security l (some a) actor s too_large t = ground arith
finalize_row-security l (some a) actor s write_failed t = ground arith
finalize_row-security l (some a) actor s (written digest n) t = ground arith

put_security_receipt-keeps :
    (r r' x : ArtifactSecurityReceipt) (k sha256 : String) (t t' : Tables)
    → put_security_receipt r t ≡ ok (r', t')
    → find_receipt k sha256 t.security ≡ some x
    → find_receipt k sha256 t'.security ≡ some x
unfolding put_security_receipt
put_security_receipt-keeps r r' x k sha256 t t' e found =
    ground (arith, find_receipt-append k sha256 r t.security)

Write-keeps :
    {t t' : Tables} (k sha256 : String) (x : ArtifactSecurityReceipt)
    → Write t t'
    → find_receipt k sha256 t.security ≡ some x
    → find_receipt k sha256 t'.security ≡ some x
unfolding finalize_stream
Write-keeps {t} {t'} k sha256 x (declares a b fresh d e) found =
    rw (declare-security a b fresh t t' e) found
Write-keeps {t} {t'} k sha256 x (updates j s e) found = rw (update_status-security j s t t' e) found
Write-keeps {t} k sha256 x (receives l j actor s w) found =
    rw (finalize_row-security l (find_artifact j t.artifacts) actor s w t) found
Write-keeps {t} {t'} k sha256 x (claims j now ttl lease c e) found =
    rw (claim_scan_lease-security j now ttl lease c t t' e) found
Write-keeps {t} {t'} k sha256 x (records r r' e) found =
    put_security_receipt-keeps r r' x k sha256 t t' e found
Write-keeps {t} {t'} k sha256 x (completes j lease s detected now b r e) found =
    rw (complete_scan-security j lease s detected now b t t' e) found

-- A security receipt for an artifact and a digest is not replaced, changed or removed by any sequence of
-- transactions, in which artifacts are declared with the status DECLARED and scans are completed with
-- CLEAN or a status that is not past the scan.
pub History-find_receipt :
    {t t' : Tables} (k sha256 : String) (x : ArtifactSecurityReceipt)
    → History t t'
    → find_receipt k sha256 t.security ≡ some x
    → find_receipt k sha256 t'.security ≡ some x
History-find_receipt k sha256 x here found = found
History-find_receipt k sha256 x (next h w) found =
    Write-keeps k sha256 x w (History-find_receipt k sha256 x h found)
