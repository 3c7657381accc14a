-- ===== src/Lifecycle/Responses.antt =====
-- src/awr/responses/contracts.py: the packets by which an executor or a reviewer reports, and the
-- references of src/awr/artifacts/contracts.py that they carry as evidence.
use agent_work_relay.Prelude.{String, Option, List}
use agent_work_relay.Host.{Value, Fields}
use agent_work_relay.Artifacts.Records.{ArtifactPurpose}

pub data ResponseType : Type 0 where
  receipt_accepted plan_completed question_blocked execution_acknowledged : ResponseType
  execution_progress execution_completed execution_failed review_completed : ResponseType

-- An `ArtifactReference` in a packet, whose length is any integer that `int` gives.
pub record EvidenceRef : Type 0 where
  pub artifact_id : String
  pub purpose : ArtifactPurpose
  pub byte_length : Value
  pub sha256 : String
  pub detected_media_type : Option String
  pub safe_filename : String

pub record ResponsePacket : Type 0 where
  pub schema : String
  pub response_type : ResponseType
  pub work_order_id : String
  pub in_reply_to : String
  pub idempotency_key : String
  pub source_input_sha256 : String
  pub created_at : String
  pub authority : String
  pub payload : Fields
  pub evidence_refs : List EvidenceRef
  pub message_id : Option String
  pub correlation_id : Option String
  pub executor_run_id : Option String
  pub actor : Option String
  pub content_sha256 : Option String
