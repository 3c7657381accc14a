-- ===== src/Artifacts/Leases.antt =====
-- The scan leases of src/awr/storage/artifact_sqlite.py.
use agent_work_relay.Prelude.{
  ℕ, ◌+◌, ◌<◌, String, true, false, ◌≡◌, ◌≢◌, refl, Option, none, some, ok, err, arith, truthy,
  or_else, eq_iff,
}
use agent_work_relay.Artifacts.Status.{ArtifactStatus, scanning, status_is}
use agent_work_relay.Artifacts.Records.{Artifact, ScanClaim}
use agent_work_relay.Artifacts.Rows.{
  find_artifact, find_receipt, set_artifact, find_artifact-set_artifact, find_artifact-key,
}
use agent_work_relay.Artifacts.Tables.{Tables, artifact_error, append_receipt}
use agent_work_relay.Artifacts.Store.Scan.{
  claim_scan_lease, complete_scan, leased, lease_expired, finish_row,
}

-- The row holds a live lease of one worker on a generation that has no receipt.
pub record IsLeased (k : String) (lease : String) (until : ℕ) (t : Tables) (a : Artifact)
    : Type 0 where
  pub stored : find_artifact k t.artifacts ≡ some a
  pub is_scanning : a.status ≡ scanning
  pub has_bytes : truthy a.sha256 ≡ true
  pub holder : a.scan_lease_id ≡ some lease
  pub named : truthy (some lease) ≡ true
  pub expiry : a.scan_lease_expires_at ≡ some until
  pub unscanned : find_receipt a.artifact_id (or_else a.sha256 "") t.security ≡ none

claimed_tables :
    (k : String) (now ttl : ℕ) (lease : String) (c : ScanClaim) (t t' : Tables) (a : Artifact)
    → find_artifact k t.artifacts ≡ some a
    → claim_scan_lease k now ttl lease t ≡ ok (some c, t')
    → c.already_scanned ≡ false
    → (t'.security ≡ t.security)
      × (t'.artifacts ≡ set_artifact (leased a lease (now + ttl) (a.scan_attempt + 1)) t.artifacts)
      × (truthy a.sha256 ≡ true)
      × (find_receipt a.artifact_id (or_else a.sha256 "") t.security ≡ none)
unfolding claim_scan_lease append_receipt
claimed_tables k now ttl lease c t t' a found e fresh = ground arith

leased_row :
    (k lease : String) (until n : ℕ) (t : Tables) (a : Artifact)
    → find_artifact k t.artifacts ≡ some a
    → find_artifact k (set_artifact (leased a lease until n) t.artifacts)
      ≡ some (leased a lease until n)
leased_row k lease until n t a found = ground (
  arith,
  find_artifact-set_artifact k (leased a lease until n) t.artifacts,
  find_artifact-key k t.artifacts a found,
  eq_iff a.artifact_id k,
)

-- A claim that starts an attempt, under a lease ID that is not empty, leaves the row leased to that ID
-- until `now + ttl`.
pub claim_scan_lease-IsLeased :
    (k : String) (now ttl : ℕ) (lease : String) (c : ScanClaim) (t t' : Tables) (a : Artifact)
    → find_artifact k t.artifacts ≡ some a
    → truthy (some lease) ≡ true
    → claim_scan_lease k now ttl lease t ≡ ok (some c, t')
    → c.already_scanned ≡ false
    → IsLeased k lease (now + ttl) t' (leased a lease (now + ttl) (a.scan_attempt + 1))
claim_scan_lease-IsLeased k now ttl lease c t t' a found named e fresh =
    let (same, rows, has_bytes, unscanned) =
      claimed_tables k now ttl lease c t t' a found e fresh in
    record {
      stored = rw rows (leased_row k lease (now + ttl) (a.scan_attempt + 1) t a found);
      is_scanning = refl;
      has_bytes = has_bytes;
      holder = refl;
      named = named;
      expiry = refl;
      unscanned = rw same unscanned;
    }

-- While a lease runs on a generation that has no security receipt, a claim under another lease ID gives no claim and changes no table, and the
-- scan cannot be completed under that ID with a status other than SCANNING.
pub IsLeased-excludes :
    (k lease : String) (until : ℕ) (t : Tables) (a : Artifact)
    → IsLeased k lease until t a
    → (now ttl : ℕ) (other : String) (status : ArtifactStatus) (detected : Option String)
    → now < until
    → other ≢ lease
    → status_is status scanning ≡ false
    → (claim_scan_lease k now ttl other t ≡ ok (none, t))
      × (complete_scan k other status detected now t ≡ err artifact_error)
unfolding claim_scan_lease complete_scan lease_expired finish_row
IsLeased-excludes k lease until t a i now ttl other status detected live differs moves =
    let stored = i.stored in
    let is_scanning = i.is_scanning in
    let has_bytes = i.has_bytes in
    let holder = i.holder in
    let named = i.named in
    let expiry = i.expiry in
    let unscanned = i.unscanned in (ground arith, ground (arith, eq_iff lease other))
