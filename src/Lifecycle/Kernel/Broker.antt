-- ===== src/Lifecycle/Kernel/Broker.antt =====
-- src/awr/lifecycle/kernel.py: `apply_broker_event`.
use agent_work_relay.Prelude.{
  ℕ, ◌+◌, String, Bool, true, false, not, ◌&&◌, Option, none, some, List, [], ◌∷◌, ok, err, ◌>>=◌,
  ◌>>◌, require, reject, truthy, or_else, or_option, option_eq,
}
use agent_work_relay.Host.{Host}
use agent_work_relay.Contracts.{WorkStatus}
use agent_work_relay.Lifecycle.Errors.{Outcome, transition_error, authority_error, lineage_error}
use agent_work_relay.Lifecycle.Events
use agent_work_relay.Lifecycle.Events.{LifecycleEvent}
use agent_work_relay.Lifecycle.Transitions.{next_state}
use agent_work_relay.Lifecycle.Decisions.{StoredDecision, matching_plan_approval}
use agent_work_relay.Lifecycle.Kernel.Snapshot.{LifecycleSnapshot}
use agent_work_relay.Lifecycle.Kernel.Guards.{
  TransitionResult, assert_actor, assert_version, advance,
}

-- `stored and given and given != stored`
abbrev pub contradicts : Option String → Option String → Bool
contradicts given stored = truthy stored && truthy given && not (option_eq given stored)

unfoldable pub require_approval :
    Host
    → LifecycleSnapshot
    → List StoredDecision
    → Option String
    → Option String
    → Outcome StoredDecision
require_approval h s decisions plan_id plan_sha256 = do
  reject (contradicts plan_id s.plan_id) authority_error
  reject (contradicts plan_sha256 s.plan_sha256) authority_error
  matching_plan_approval h decisions (or_else (or_option plan_id s.plan_id) "")
      (or_else (or_option plan_sha256 s.plan_sha256) "")

abbrev has_lineage : List String → Bool
has_lineage [] = false
has_lineage (x ∷ xs) = true

-- The checks before the transition, by event.
unfoldable pub broker_checks :
    Host
    → LifecycleSnapshot
    → LifecycleEvent
    → List StoredDecision
    → Option String
    → Option String
    → Outcome Unit
broker_checks h s Events.plan_execute decisions plan_id plan_sha256 = do
  approval ← require_approval h s decisions plan_id plan_sha256
  ok tt
broker_checks h s Events.implementation_refine decisions plan_id plan_sha256 = do
  approval ← require_approval h s decisions plan_id plan_sha256
  require (has_lineage s.original_lineage) lineage_error
broker_checks h s event decisions plan_id plan_sha256 = ok tt

abbrev or_no_origin : Option WorkStatus → Outcome WorkStatus
or_no_origin none = err transition_error
or_no_origin (some s) = ok s

unfoldable pub broker_result :
    WorkStatus → LifecycleSnapshot → String → LifecycleEvent → Outcome TransitionResult
broker_result status s message_id Events.question_answer = do
  checked ← next_state status Events.question_answer
  target ← or_no_origin s.blocked_from
  ok (record {
    status = target;
    snapshot = record s {
      current_parent_id = message_id;
      version = s.version + 1;
      blocked_from = none;
    };
    event = Events.question_answer;
  })
broker_result status s message_id event = do
  target ← next_state status event
  ok (record { status = target; snapshot = advance s s message_id; event = event })

unfoldable pub apply_broker_event :
    Host
    → WorkStatus
    → LifecycleSnapshot
    → LifecycleEvent
    → String
    → String
    → List StoredDecision
    → Option ℕ
    → Option String
    → Option String
    → Outcome TransitionResult
unfolding broker_result
apply_broker_event h status s event actor message_id decisions expected_version plan_id
      plan_sha256 =
    do
      assert_actor actor s
      assert_version s expected_version
      broker_checks h s event decisions plan_id plan_sha256
      broker_result status s message_id event
