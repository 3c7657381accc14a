-- ===== src/Artifacts/Trace.antt =====
-- Sequences of the transactions of src/awr/storage/artifact_sqlite.py and of `finalize_stream`, in any
-- order and with any arguments that the callers pass.
pub mod Receipts
pub mod Terminal
pub mod Evidence
use agent_work_relay.Prelude.{ℕ, String, Bool, true, false, ◌≡◌, Option, List, [], ok}
use agent_work_relay.Artifacts.Status.{ArtifactStatus, declared}
use agent_work_relay.Artifacts.Records.{Artifact, ArtifactSecurityReceipt, ScanClaim}
use agent_work_relay.Artifacts.Tables.{Tables, put_security_receipt}
use agent_work_relay.Artifacts.Store.Declare.{declare, update_status}
use agent_work_relay.Artifacts.Store.Scan.{claim_scan_lease, complete_scan}
use agent_work_relay.Artifacts.Intake.{Limits, Stream, WriteOutcome, finalize_stream}
use agent_work_relay.Artifacts.Vetted.Finish.{is_scan_result}

abbrev pub empty : Tables
empty = record { artifacts = []; security = []; tickets = []; journal = [] }

-- One transaction. `complete_scan` is called with the result of a scan.
pub data Write : Tables → Tables → Type 0 where
  declares :
      {t t' : Tables} (a b : Artifact) (fresh : Bool)
      → a.status ≡ declared
      → declare a t ≡ ok ((b, fresh), t')
      → Write t t'
  updates :
      {t t' : Tables} (k : String) (s : ArtifactStatus)
      → update_status k s t ≡ ok (tt, t')
      → Write t t'
  receives :
      {t : Tables} (l : Limits) (k : String) (actor : Option String) (s : Stream) (w : WriteOutcome)
      → Write t (finalize_stream l k actor s w t).1
  claims :
      {t t' : Tables} (k : String) (now ttl : ℕ) (lease : String) (c : Option ScanClaim)
      → claim_scan_lease k now ttl lease t ≡ ok (c, t')
      → Write t t'
  records :
      {t t' : Tables} (r r' : ArtifactSecurityReceipt)
      → put_security_receipt r t ≡ ok (r', t')
      → Write t t'
  completes :
      {t t' : Tables} (k lease : String) (s : ArtifactStatus) (detected : Option String) (now : ℕ)
      (b : Artifact)
      → is_scan_result s ≡ true
      → complete_scan k lease s detected now t ≡ ok (b, t')
      → Write t t'

pub data History : Tables → Tables → Type 0 where
  here : {t : Tables} → History t t
  next : {t u v : Tables} → History t u → Write u v → History t v
