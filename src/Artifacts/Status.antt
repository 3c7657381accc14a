-- ===== src/Artifacts/Status.antt =====
-- src/awr/artifacts/contracts.py: the states of an artifact and the transitions between them.
pub mod Values
use agent_work_relay.Prelude.{
  ℕ, String, Bool, true, false, ◌||◌, Option, none, some, List, [], ◌∷◌, ◌++◌, ◌==◌, nat_eq,
  if◌then◌else◌,
}

pub data ArtifactStatus : Type 0 where
  declared quarantined scanning clean ready_to_relay relayed : ArtifactStatus
  rejected_size rejected_type rejected_malware rejected_active_content : ArtifactStatus
  rejected_malformed rejected_tampering rejected_scanner_unavailable : ArtifactStatus

-- The place of a status in the enumeration.
abbrev pub rank : ArtifactStatus → ℕ
rank declared = 0
rank quarantined = 1
rank scanning = 2
rank clean = 3
rank ready_to_relay = 4
rank relayed = 5
rank rejected_size = 6
rank rejected_type = 7
rank rejected_malware = 8
rank rejected_active_content = 9
rank rejected_malformed = 10
rank rejected_tampering = 11
rank rejected_scanner_unavailable = 12

-- `a is b`
abbrev pub status_is : ArtifactStatus → ArtifactStatus → Bool
status_is a b = nat_eq (rank a) (rank b)

-- `status in statuses`
abbrev pub has_status : ArtifactStatus → List ArtifactStatus → Bool
has_status a [] = false
has_status a (b ∷ bs) = status_is a b || has_status a bs

abbrev pub rejection_statuses : List ArtifactStatus
rejection_statuses =
    rejected_size ∷ rejected_type ∷ rejected_malware ∷ rejected_active_content ∷ rejected_malformed
    ∷ rejected_tampering ∷ rejected_scanner_unavailable ∷ []

abbrev pub is_rejection : ArtifactStatus → Bool
is_rejection status = has_status status rejection_statuses

abbrev pub terminal : ArtifactStatus → Bool
terminal status = has_status status (rejection_statuses ++ relayed ∷ [])

abbrev pub is_orchestrator_status : ArtifactStatus → Bool
is_orchestrator_status status = has_status status (scanning ∷ clean ∷ [])

abbrev pub allowed_transitions : ArtifactStatus → List ArtifactStatus
allowed_transitions declared = quarantined ∷ rejection_statuses
allowed_transitions quarantined = scanning ∷ rejection_statuses
allowed_transitions scanning = clean ∷ rejection_statuses
allowed_transitions clean = ready_to_relay ∷ []
allowed_transitions ready_to_relay = relayed ∷ []
allowed_transitions _ = []

-- `status.value`
unfoldable pub value : ArtifactStatus → String
value declared = "DECLARED"
value quarantined = "QUARANTINED"
value scanning = "SCANNING"
value clean = "CLEAN"
value ready_to_relay = "READY_TO_RELAY"
value relayed = "RELAYED"
value rejected_size = "REJECTED_SIZE"
value rejected_type = "REJECTED_TYPE"
value rejected_malware = "REJECTED_MALWARE"
value rejected_active_content = "REJECTED_ACTIVE_CONTENT"
value rejected_malformed = "REJECTED_MALFORMED"
value rejected_tampering = "REJECTED_TAMPERING"
value rejected_scanner_unavailable = "REJECTED_SCANNER_UNAVAILABLE"

search_value : String → List ArtifactStatus → Option ArtifactStatus
search_value raw [] = none
search_value raw (s ∷ rest) = if raw == value s then some s else search_value raw rest

-- `ArtifactStatus(raw)`; `none` where it raises ValueError
unfoldable pub from_value : String → Option ArtifactStatus
unfolding search_value value
from_value raw =
    search_value raw
      (declared ∷ quarantined ∷ scanning ∷ clean ∷ ready_to_relay ∷ relayed ∷ rejection_statuses)
