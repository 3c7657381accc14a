-- ===== src/Artifacts/Rows.antt =====
-- Rows by key, and the laws of a look-up after a write.
use agent_work_relay.Prelude.{
  String, ◌&&◌, Option, none, some, List, [], ◌∷◌, ◌++◌, ◌==◌, ◌≡◌, refl, arith, eq_iff,
  if◌then◌else◌,
}
use agent_work_relay.Artifacts.Records.{Artifact, ArtifactSecurityReceipt}

-- `SELECT * FROM artifacts WHERE artifact_id = ?`
unfoldable pub find_artifact : String → List Artifact → Option Artifact
find_artifact k [] = none
find_artifact k (a ∷ rest) = if a.artifact_id == k then some a else find_artifact k rest

-- `SELECT * FROM artifacts WHERE owner = ? AND idempotency_key = ?`
unfoldable pub find_by_key : String → String → List Artifact → Option Artifact
find_by_key owner key [] = none
find_by_key owner key (a ∷ rest) =
    if a.owner == owner && a.idempotency_key == key then some a else find_by_key owner key rest

-- `UPDATE artifacts ... WHERE artifact_id = ?`, with the whole row that results
unfoldable pub set_artifact : Artifact → List Artifact → List Artifact
set_artifact b [] = []
set_artifact b (a ∷ rest) =
    if a.artifact_id == b.artifact_id then b ∷ rest else a ∷ set_artifact b rest

-- `_security_receipt_on_connection`
unfoldable pub find_receipt :
    String → String → List ArtifactSecurityReceipt → Option ArtifactSecurityReceipt
find_receipt k sha256 [] = none
find_receipt k sha256 (r ∷ rest) =
    if r.artifact_id == k && r.scanned_sha256 == sha256 then some r else find_receipt k sha256 rest

abbrev pub replaced : Artifact → Option Artifact → Option Artifact
replaced b none = none
replaced b (some a) = some b

abbrev pub or_artifact : Option Artifact → Option Artifact → Option Artifact
or_artifact none o = o
or_artifact (some a) o = some a

abbrev pub or_receipt :
    Option ArtifactSecurityReceipt → Option ArtifactSecurityReceipt → Option ArtifactSecurityReceipt
or_receipt none o = o
or_receipt (some r) o = some r

pub find_artifact-set_artifact :
    (k : String) (b : Artifact) (rows : List Artifact)
    → find_artifact k (set_artifact b rows)
      ≡ (if b.artifact_id == k then replaced b (find_artifact k rows) else find_artifact k rows)
unfolding find_artifact set_artifact
find_artifact-set_artifact k b [] = ground arith
find_artifact-set_artifact k b (a ∷ rest) = ground (
  arith,
  eq_iff a.artifact_id b.artifact_id,
  eq_iff a.artifact_id k,
  eq_iff b.artifact_id k,
  find_artifact-set_artifact k b rest,
)

pub find_artifact-append :
    (k : String) (b : Artifact) (rows : List Artifact)
    → find_artifact k (rows ++ b ∷ [])
      ≡ or_artifact (find_artifact k rows) (if b.artifact_id == k then some b else none)
unfolding find_artifact
find_artifact-append k b [] = refl
find_artifact-append k b (a ∷ rest) = ground (arith, find_artifact-append k b rest)

pub find_receipt-append :
    (k sha256 : String) (r : ArtifactSecurityReceipt) (rows : List ArtifactSecurityReceipt)
    → find_receipt k sha256 (rows ++ r ∷ [])
      ≡ or_receipt
          (find_receipt k sha256 rows)
          (if r.artifact_id == k && r.scanned_sha256 == sha256 then some r else none)
unfolding find_receipt
find_receipt-append k sha256 r [] = refl
find_receipt-append k sha256 r (x ∷ rest) = ground (arith, find_receipt-append k sha256 r rest)

-- A row that is found has the key that was asked for.
pub find_artifact-key :
    (k : String) (rows : List Artifact) (a : Artifact)
    → find_artifact k rows ≡ some a
    → a.artifact_id ≡ k
unfolding find_artifact
find_artifact-key k [] a e = cc
find_artifact-key k (x ∷ rest) a e =
    ground (arith, eq_iff x.artifact_id k, find_artifact-key k rest a)
