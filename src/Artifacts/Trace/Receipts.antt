-- ===== src/Artifacts/Trace/Receipts.antt =====
-- What the tables of src/awr/storage/artifact_sqlite.py hold after any sequence of transactions.
use agent_work_relay.Prelude.{List, ℕ, refl, String, true, ◌≡◌, some, arith}
use agent_work_relay.Artifacts.Records.{Artifact, ArtifactSecurityReceipt}
use agent_work_relay.Artifacts.Status.{declared}
use agent_work_relay.Artifacts.Rows.{find_artifact, set_artifact}
use agent_work_relay.Artifacts.Tables.{Tables}
use agent_work_relay.Artifacts.Vetted.{
  IsVetted, moved-IsVetted, same-IsVetted, is_past_scan, is_attested, update_status-IsVetted,
  put_security_receipt-IsVetted, declare-IsVetted, claim_scan_lease-IsVetted,
}
use agent_work_relay.Artifacts.Vetted.Finish.{complete_scan-IsVetted}
use agent_work_relay.Artifacts.Vetted.Arrive.{finalize_stream-keeps}
use agent_work_relay.Artifacts.Trace.{
  Write, declares, updates, receives, claims, records, completes, History, here, next, empty,
}

declared_is_early :
    (a b : Artifact) (rows : List ArtifactSecurityReceipt)
    → a.status ≡ declared
    → is_past_scan a.status ≡ true
    → is_attested b rows ≡ true
declared_is_early a b rows e p = ground arith

marked-IsVetted :
    (a : Artifact) (digest : String) (n : ℕ) (t : Tables)
    → find_artifact a.artifact_id t.artifacts ≡ some a
    → a.status ≡ declared
    → IsVetted t
    → IsVetted (record t {
      artifacts =
          set_artifact (record a { sha256 = some digest; byte_length = some n }) t.artifacts;
    })
marked-IsVetted a digest n t stored early all =
    let marked : Artifact = record a { sha256 = some digest; byte_length = some n } in
    let after : Tables = record t { artifacts = set_artifact marked t.artifacts } in
    moved-IsVetted marked t after refl refl (λ p. declared_is_early a marked t.security early p) all

Write-IsVetted : {t t' : Tables} → Write t t' → IsVetted t → IsVetted t'
Write-IsVetted {t} {t'} (declares a b fresh d e) all =
    declare-IsVetted a b fresh t t' (ground arith) e all
Write-IsVetted {t} {t'} (updates k s e) all = update_status-IsVetted k s t t' e all
Write-IsVetted {t} (receives l k actor s w) all =
    finalize_stream-keeps IsVetted same-IsVetted update_status-IsVetted marked-IsVetted l k actor s
      w t all
Write-IsVetted {t} {t'} (claims k now ttl lease c e) all =
    claim_scan_lease-IsVetted k now ttl lease c t t' e all
Write-IsVetted {t} {t'} (records r r' e) all = put_security_receipt-IsVetted r r' t t' e all
Write-IsVetted {t} {t'} (completes k lease s detected now b r e) all =
    complete_scan-IsVetted k lease s detected now b t t' r e all

History-IsVetted : {t t' : Tables} → History t t' → IsVetted t → IsVetted t'
History-IsVetted here all = all
History-IsVetted (next h w) all = Write-IsVetted w (History-IsVetted h all)

empty-IsVetted : IsVetted empty
unfolding find_artifact
empty-IsVetted k a e p = cc

-- After any sequence of transactions on empty tables, in which artifacts are declared with the status
-- DECLARED and scans are completed with CLEAN or a status that is not past the scan, an artifact that is
-- CLEAN, READY_TO_RELAY or RELAYED has a security receipt for its ID and its digest, and the status which
-- that receipt stands for is one of these three.
pub History-attested :
    {t : Tables}
    → History empty t
    → (k : String) (a : Artifact) → find_artifact k t.artifacts ≡ some a
    → is_past_scan a.status ≡ true
    → is_attested a t.security ≡ true
History-attested h = History-IsVetted h empty-IsVetted
