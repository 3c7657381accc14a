-- ===== src/Lifecycle/Errors.antt =====
-- src/awr/lifecycle/errors.py. `value_error` is the ValueError of a time that does not parse.
use agent_work_relay.Prelude.{Result}

pub data LifecycleError : Type 0 where
  transition_error authority_error idempotency_conflict lineage_error value_error : LifecycleError

abbrev pub Outcome : Type 0 → Type 0
Outcome A = Result LifecycleError A
