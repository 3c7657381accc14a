-- ===== src/Lifecycle/Examples/Approvals.antt =====
-- The theorems about approvals and tables: src/awr/lifecycle/decisions.py, transitions.py, pending.py.
use mathlib.Core.List.{Memᴰ}
use agent_work_relay.Prelude.{
  String, Bool, ap, ◌==◌, ◌≡◌, ◌≢◌, inl, refl, true, false, none, some, [], ◌∷◌, ok, is_ok, or_else,
  contains, remove_prefix, is_blank,
}
use agent_work_relay.Host.{get, value_truthy, to_text}
use agent_work_relay.Contracts.{ready_for_execution, executing, complete, waiting_for_human_review}
use agent_work_relay.Lifecycle.Events
use agent_work_relay.Lifecycle.Events.{LifecycleEvent}
use agent_work_relay.Lifecycle.Transitions.{next_state, allowed_events}
use agent_work_relay.Lifecycle.Transitions.Graph.{
  has_event, allowed_events-next_state, next_state-complete,
}
use agent_work_relay.Lifecycle.Decisions.{
  StoredDecision, decision_is_expired, is_approval_of, matches, matching, last_match,
  matching_plan_approval,
}
use agent_work_relay.Lifecycle.Approval.{
  Approves, matching_plan_approval_sound, matching_plan_approval_complete,
}
use agent_work_relay.Lifecycle.Pending.{pending_actions}
use agent_work_relay.Lifecycle.Pending.Permitted.{all_possible, pending_actions-allowed}
use agent_work_relay.Lifecycle.Kernel.Guards.{
  assert_actor, assert_decision_principal, assert_version,
}
use agent_work_relay.Lifecycle.Kernel.Response.{
  response_event, response_target, response_effect, apply_response,
}
use agent_work_relay.Lifecycle.Kernel.Broker.{broker_checks, apply_broker_event}
use agent_work_relay.Lifecycle.Kernel.Decision.{approval_checks, apply_decision}
use agent_work_relay.Lifecycle.Kernel.Authority.{
  HasApproval, dispatch-HasApproval, acknowledgement-HasApproval,
}
use agent_work_relay.Lifecycle.Trace.{initial, decision_event}
use agent_work_relay.Lifecycle.Examples.{
  host, approval, acknowledged_packet, respond_in, broker_in, result_in, approved, dispatched,
  acknowledged, dispatched_accepted, acknowledged_accepted,
}

bound_plan : approved.snapshot.plan_id ≡ some "p"
unfolding initial apply_response apply_broker_event apply_decision assert_actor assert_version
    assert_decision_principal contains response_event response_target response_effect next_state get
    value_truthy to_text broker_checks decision_event decision_is_expired is_blank approval_checks
    remove_prefix
bound_plan = refl

bound_digest : approved.snapshot.plan_sha256 ≡ some "sha256:d"
unfolding initial apply_response apply_broker_event apply_decision assert_actor assert_version
    assert_decision_principal contains response_event response_target response_effect next_state get
    value_truthy to_text broker_checks decision_event decision_is_expired is_blank approval_checks
    remove_prefix
bound_digest = refl

p_given : ◌≢◌ {A = String} "p" ""
p_given e = let k : ◌≡◌ {A = Bool} false true = ap (λ s. s == "") e in cc

d_given : ◌≢◌ {A = String} "sha256:d" ""
d_given e = let k : ◌≡◌ {A = Bool} false true = ap (λ s. s == "") e in cc

dispatch-HasApproval_example : HasApproval host (approval ∷ []) "p" "sha256:d"
dispatch-HasApproval_example =
    dispatch-HasApproval host approved.snapshot (approval ∷ []) none none "p" "sha256:d" bound_plan
      bound_digest p_given d_given approved.status Events.plan_execute "broker:awr" "m2" none
      (result_in approved (broker_in approved Events.plan_execute "m2")) (inl refl)
      dispatched_accepted

acknowledgement-HasApproval_example :
    HasApproval host
      (approval ∷ [])
      (or_else dispatched.snapshot.plan_id "")
      (or_else dispatched.snapshot.plan_sha256 "")
    × (acknowledged.snapshot.execution_acknowledged ≡ true)
    × (acknowledged.snapshot.bound_run_id ≢ none)
    × (acknowledged.snapshot.bound_agent_id ≡ some "bot")
    × (contains "bot" acknowledged.snapshot.executor_principals ≡ true)
acknowledgement-HasApproval_example =
    acknowledgement-HasApproval host dispatched.status dispatched.snapshot acknowledged_packet "bot"
      (approval ∷ []) none (result_in dispatched (respond_in dispatched acknowledged_packet "bot"))
      refl acknowledged_accepted

found_approval : matching_plan_approval host (approval ∷ []) "p" "sha256:d" ≡ ok approval
unfolding matching_plan_approval matching matches last_match is_approval_of remove_prefix
    decision_is_expired
found_approval = refl

matching_plan_approval_sound_example :
    Memᴰ approval (approval ∷ []) × Approves host "p" "sha256:d" approval
matching_plan_approval_sound_example =
    matching_plan_approval_sound host "p" "sha256:d" (approval ∷ []) found_approval

approval_stored : Memᴰ approval (approval ∷ []) × Approves host "p" "sha256:d" approval
approval_stored = matching_plan_approval_sound host "p" "sha256:d" (approval ∷ []) found_approval

kept_approval : matching host "p" "d" (approval ∷ []) ≡ ok (approval ∷ [])
unfolding matching matches is_approval_of remove_prefix decision_is_expired
kept_approval = refl

matching_plan_approval_complete_example :
    (e : StoredDecision) × (matching_plan_approval host (approval ∷ []) "p" "sha256:d" ≡ ok e)
unfolding remove_prefix
matching_plan_approval_complete_example =
    matching_plan_approval_complete host "p" "sha256:d" (approval ∷ []) (approval ∷ [])
      kept_approval approval_stored.0 approval_stored.1

allowed_events-next_state_example :
    has_event Events.plan_execute (allowed_events ready_for_execution)
    ≡ is_ok (next_state ready_for_execution Events.plan_execute)
allowed_events-next_state_example =
    allowed_events-next_state ready_for_execution Events.plan_execute

accepts : next_state waiting_for_human_review Events.accept_completion ≡ ok complete
unfolding next_state
accepts = refl

next_state-complete_example :
    (waiting_for_human_review ≡ waiting_for_human_review)
    × (Events.accept_completion ≡ Events.accept_completion)
next_state-complete_example =
    next_state-complete waiting_for_human_review Events.accept_completion accepts

pending_actions-allowed_example : all_possible executing (pending_actions executing) ≡ true
pending_actions-allowed_example = pending_actions-allowed executing
