-- ===== src/Artifacts/Status/Values.antt =====
-- The states of src/awr/artifacts/contracts.py as a graph, and as the texts that are stored.
use agent_work_relay.Prelude.{Bool, true, false, ◌≡◌, refl, some, List, [], ◌∷◌, arith}
use agent_work_relay.Artifacts.Status.{
  ArtifactStatus, declared, clean, scanning, ready_to_relay, terminal, has_status, status_is,
  allowed_transitions, value, from_value,
}

-- The text of a status reads back as that status.
pub from_value-value : (s : ArtifactStatus) → from_value (value s) ≡ some s
unfolding from_value
from_value-value declared = refl
from_value-value _ = refl

abbrev pub is_nil : List ArtifactStatus → Bool
is_nil [] = true
is_nil (s ∷ rest) = false

-- A status is terminal exactly when no transition leaves it; CLEAN is entered from SCANNING and from
-- nowhere else; and READY_TO_RELAY is the one status that CLEAN leads to.
pub allowed_transitions_shape :
    (s t : ArtifactStatus)
    → (terminal s ≡ is_nil (allowed_transitions s))
      × (has_status clean (allowed_transitions s) ≡ status_is s scanning)
      × (has_status t (allowed_transitions clean) ≡ status_is t ready_to_relay)
allowed_transitions_shape declared t = ground arith
allowed_transitions_shape _ t = ground arith
