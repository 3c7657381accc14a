-- ===== src/Lifecycle/Kernel/Decision.antt =====
-- src/awr/lifecycle/kernel.py: `apply_decision`.
use agent_work_relay.Prelude.{
  ℕ, ◌+◌, Bool, true, false, ◌&&◌, Option, none, some, ◌==◌, ok, ◌>>=◌, ◌>>◌, require, reject,
  truthy, or_else, option_eq, bare_digest, is_blank,
}
use agent_work_relay.Host.{Host}
use agent_work_relay.Contracts.{WorkStatus}
use agent_work_relay.Lifecycle.Errors.{Outcome, transition_error, authority_error, lineage_error}
use agent_work_relay.Lifecycle.Events
use agent_work_relay.Lifecycle.Events.{LifecycleEvent, is_decision_event}
use agent_work_relay.Lifecycle.Transitions.{next_state}
use agent_work_relay.Lifecycle.Decisions.{StoredDecision, is_approve_plan, decision_is_expired}
use agent_work_relay.Lifecycle.Kernel.Snapshot.{LifecycleSnapshot}
use agent_work_relay.Lifecycle.Kernel.Guards.{
  TransitionResult, assert_actor, assert_version, assert_decision_principal,
}

-- `event in {ACCEPT_COMPLETION, REQUEST_REVISION}`
abbrev closes_review : LifecycleEvent → Bool
closes_review Events.accept_completion = true
closes_review Events.request_revision = true
closes_review _ = false

abbrev is_some : Option WorkStatus → Bool
is_some none = false
is_some (some s) = true

-- The checks on the target of a plan approval.
unfoldable pub approval_checks : LifecycleSnapshot → StoredDecision → LifecycleEvent → Outcome Unit
approval_checks s d Events.approve_plan = do
  require (is_approve_plan d.decision_type) authority_error
  require (truthy s.plan_id && truthy s.plan_sha256) authority_error
  require
      (option_eq (some d.target_id) s.plan_id
        && bare_digest d.target_sha256 == bare_digest (or_else s.plan_sha256 ""))
      authority_error
approval_checks s d event = ok tt

unfoldable pub apply_decision :
    Host
    → WorkStatus
    → LifecycleSnapshot
    → LifecycleEvent
    → StoredDecision
    → Option ℕ
    → Outcome TransitionResult
apply_decision h status s event d expected_version = do
  assert_actor d.actor s
  assert_version s expected_version
  require (is_decision_event event) authority_error
  assert_decision_principal d.actor s
  past ← decision_is_expired h d
  reject past authority_error
  reject (is_blank d.rationale) authority_error
  require (d.work_order_id == s.work_order_id) lineage_error
  reject (is_some s.blocked_from && closes_review event) transition_error
  approval_checks s d event
  target ← next_state status event
  ok (record { status = target; snapshot = record s { version = s.version + 1 }; event = event })
