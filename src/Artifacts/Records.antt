-- ===== src/Artifacts/Records.antt =====
-- src/awr/artifacts/contracts.py: artifacts, security receipts, scan claims, tickets and journal
-- entries. A stored time is the instant that its ISO text stands for: the program writes each with
-- `isoformat` and reads it with `fromisoformat`.
use agent_work_relay.Prelude.{ℕ, String, Bool, Option, List}
use agent_work_relay.Host.{Fields}
use agent_work_relay.Artifacts.Status.{ArtifactStatus}

pub data ArtifactPurpose : Type 0 where
  design_reference data_contract requirements_reference other_reference : ArtifactPurpose

pub data ArtifactSecurityVerdict : Type 0 where
  clean malicious inconclusive unavailable : ArtifactSecurityVerdict

pub record Artifact : Type 0 where
  pub artifact_id : String
  pub idempotency_key : String
  pub owner : String
  pub original_filename : String
  pub declared_media_type : String
  pub detected_media_type : Option String
  pub byte_length : Option ℕ
  pub sha256 : Option String
  pub purpose : ArtifactPurpose
  pub status : ArtifactStatus
  pub created_at : ℕ
  pub parent_artifact_id : Option String
  pub correlation_id : String
  pub expected_byte_length : Option ℕ
  pub expected_sha256 : Option String
  pub scan_lease_id : Option String
  pub scan_lease_expires_at : Option ℕ
  pub scan_attempt : ℕ

pub record ArtifactSecurityReceipt : Type 0 where
  pub receipt_id : String
  pub artifact_id : String
  pub scanner_id : String
  pub scanner_version : String
  pub signature_version : String
  pub verdict : ArtifactSecurityVerdict
  pub reason_codes : List String
  pub scanned_sha256 : String
  pub started_at : ℕ
  pub completed_at : ℕ
  pub diagnostics : Fields

pub record ScanClaim : Type 0 where
  pub artifact_id : String
  pub generation_sha256 : String
  pub lease_id : String
  pub expires_at : ℕ
  pub scan_attempt : ℕ
  pub already_scanned : Bool
  pub existing_receipt : Option ArtifactSecurityReceipt

pub record ArtifactUploadTicket : Type 0 where
  pub ticket_id : String
  pub artifact_id : String
  pub owner : String
  pub token_hash : String
  pub expires_at : ℕ
  pub spent_at : Option ℕ
  pub max_bytes : ℕ

-- The event ID and the time of a journal entry are made by the database and read by nobody here.
pub record ArtifactReceipt : Type 0 where
  pub artifact_id : String
  pub work_order_id : Option String
  pub correlation_id : String
  pub event_type : String
  pub actor : String
  pub counterparty : String
  pub payload : Fields
