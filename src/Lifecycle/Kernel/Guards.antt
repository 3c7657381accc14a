-- ===== src/Lifecycle/Kernel/Guards.antt =====
-- src/awr/lifecycle/kernel.py: the result of a step, the checks that the steps share, and the update
-- of the snapshot that two of them share.
use agent_work_relay.Prelude.{
  ℕ, ◌+◌, String, Bool, true, ◌||◌, Option, none, some, List, [], ◌∷◌, ◌==◌, nat_eq, ◌>>◌, require,
  reject, contains, option_eq,
}
use agent_work_relay.Contracts.{WorkStatus}
use agent_work_relay.Lifecycle.Errors.{Outcome, authority_error, lineage_error}
use agent_work_relay.Lifecycle.Events.{LifecycleEvent}
use agent_work_relay.Lifecycle.Kernel.Snapshot.{LifecycleSnapshot}

pub record TransitionResult : Type 0 where
  pub status : WorkStatus
  pub snapshot : LifecycleSnapshot
  pub event : LifecycleEvent

unfoldable pub assert_actor : String → LifecycleSnapshot → Outcome Unit
assert_actor actor s = do
  reject (actor == "") authority_error
  require (contains actor s.participants) authority_error

-- `actor == snapshot.bound_agent_id or actor in snapshot.executor_principals`
unfoldable pub is_executor : String → LifecycleSnapshot → Bool
is_executor actor s =
    option_eq (some actor) s.bound_agent_id || contains actor s.executor_principals

unfoldable pub assert_decision_principal : String → LifecycleSnapshot → Outcome Unit
unfolding is_executor
assert_decision_principal actor s = do
  reject (is_executor actor s) authority_error
  require (contains actor s.decision_principals) authority_error

version_matches : ℕ → Option ℕ → Bool
version_matches version none = true
version_matches version (some expected) = nat_eq expected version

unfoldable pub assert_version : LifecycleSnapshot → Option ℕ → Outcome Unit
unfolding version_matches
assert_version s expected = require (version_matches s.version expected) lineage_error

-- `s.original_lineage or (s.current_parent_id,)`
abbrev pub lineage_or_parent : List String → String → List String
lineage_or_parent [] parent = parent ∷ []
lineage_or_parent (x ∷ xs) parent = x ∷ xs

-- The `replace` at the end of `apply_response` and of `apply_broker_event`: `s` holds the fields
-- that the step has written, `old` is the snapshot before it.
abbrev pub advance : LifecycleSnapshot → LifecycleSnapshot → String → LifecycleSnapshot
advance old s parent = record s {
  current_parent_id = parent;
  version = old.version + 1;
  original_lineage = lineage_or_parent old.original_lineage old.current_parent_id;
}
