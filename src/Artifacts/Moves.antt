-- ===== src/Artifacts/Moves.antt =====
-- Which moves `update_status` of src/awr/storage/artifact_sqlite.py makes.
use agent_work_relay.Prelude.{
  String, true, false, ◌≡◌, some, ok, arith, eq_iff, ◌||◌, ◌==◌, if◌then◌else◌,
}
use agent_work_relay.Artifacts.Status.{
  ArtifactStatus, status_is, has_status, is_orchestrator_status, allowed_transitions,
}
use agent_work_relay.Artifacts.Records.{Artifact}
use agent_work_relay.Artifacts.Rows.{find_artifact, find_artifact-set_artifact, find_artifact-key}
use agent_work_relay.Artifacts.Tables.{Tables}
use agent_work_relay.Artifacts.Store.Declare.{update_status}

-- Where `update_status` succeeds for a stored artifact, the status is not one of the scan's own, SCANNING
-- and CLEAN; the security receipts, the tickets and the journal are as before; the look-up by the ID then
-- gives the artifact with that status, which it had or the transitions allow; and every other look-up
-- gives what it gave.
pub update_status_moves :
    (k x : String) (s : ArtifactStatus) (t t' : Tables) (a : Artifact)
    → find_artifact k t.artifacts ≡ some a
    → update_status k s t ≡ ok (tt, t')
    → (is_orchestrator_status s ≡ false)
      × ((t'.security ≡ t.security) × (t'.tickets ≡ t.tickets) × (t'.journal ≡ t.journal))
      × ((status_is s a.status || has_status s (allowed_transitions a.status)) ≡ true)
      × (find_artifact x t'.artifacts
          ≡ (if k == x then some (record a { status = s }) else find_artifact x t.artifacts))
unfolding update_status
update_status_moves k x s t t' a found e = ground (
  arith,
  find_artifact-set_artifact x (record a { status = s }) t.artifacts,
  find_artifact-key k t.artifacts a found,
  eq_iff k x,
)
