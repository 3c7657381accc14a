-- ===== src/Lifecycle/Kernel/Snapshot.antt =====
-- src/awr/lifecycle/kernel.py: the snapshot of a work order, and the one that it begins with.
-- A frozenset is a list that is read only through `contains`.
use agent_work_relay.Prelude.{ℕ, String, Bool, false, Option, none, List, [], ◌∷◌}
use agent_work_relay.Contracts.{WorkStatus}

pub record LifecycleSnapshot : Type 0 where
  pub work_order_id : String
  pub source_input_sha256 : String
  pub current_parent_id : String
  pub version : ℕ
  pub participants : List String
  pub plan_id : Option String
  pub plan_sha256 : Option String
  pub bound_agent_id : Option String
  pub bound_run_id : Option String
  pub blocked_from : Option WorkStatus
  pub execution_acknowledged : Bool
  pub latest_review_outcome : Option String
  pub decision_principals : List String
  pub executor_principals : List String
  pub original_lineage : List String

unfoldable pub derive_snapshot : String → String → String → String → LifecycleSnapshot
derive_snapshot work_order_id sender recipient source_input_sha256 = record {
  work_order_id = work_order_id;
  source_input_sha256 = source_input_sha256;
  current_parent_id = work_order_id;
  version = 1;
  participants = sender ∷ recipient ∷ "broker:awr" ∷ [];
  plan_id = none;
  plan_sha256 = none;
  bound_agent_id = none;
  bound_run_id = none;
  blocked_from = none;
  execution_acknowledged = false;
  latest_review_outcome = none;
  decision_principals = sender ∷ [];
  executor_principals = recipient ∷ [];
  original_lineage = work_order_id ∷ [];
}
