-- ===== src/Lifecycle/Examples/Runs.antt =====
-- The theorems about runs at the run above: src/awr/lifecycle/kernel.py.
use agent_work_relay.Prelude.{◌≡◌, refl, true, false, ◌+◌, none, some, [], is_ok, contains}
use agent_work_relay.Contracts.{complete}
use agent_work_relay.Lifecycle.Events
use agent_work_relay.Lifecycle.Events.{LifecycleEvent}
use agent_work_relay.Lifecycle.Decisions.{StoredDecision}
use agent_work_relay.Lifecycle.Kernel.Response.{apply_response}
use agent_work_relay.Lifecycle.Kernel.Broker.{apply_broker_event}
use agent_work_relay.Lifecycle.Kernel.Decision.{apply_decision}
use agent_work_relay.Lifecycle.Trace.{State, Step, initial}
use agent_work_relay.Lifecycle.Trace.Safety.{IsConsistent, Reach-IsConsistent}
use agent_work_relay.Lifecycle.Trace.{here}
use agent_work_relay.Lifecycle.Trace.Progress.{
  Reach-Advances, stale_version-refused, steps, terminal-no_Step,
}
use agent_work_relay.Lifecycle.Trace.Authority.{
  IsAuthorized, Reach-IsAuthorized, executor-never_decides,
}
use agent_work_relay.Lifecycle.Kernel.Frame.{SameIdentity}
use agent_work_relay.Lifecycle.Examples.{
  host, start, planned_packet, approval, planned, acknowledged, planned-Step, run_of_steps,
}

Reach-IsAuthorized_example : IsAuthorized acknowledged
Reach-IsAuthorized_example = Reach-IsAuthorized "w" "ann" "bot" "in" run_of_steps

Reach-IsConsistent_example : IsConsistent acknowledged.status acknowledged.snapshot
Reach-IsConsistent_example = Reach-IsConsistent "w" "ann" "bot" "in" run_of_steps

Reach-Advances_example :
    SameIdentity start.snapshot acknowledged.snapshot
    × (acknowledged.snapshot.version ≡ start.snapshot.version + steps run_of_steps)
Reach-Advances_example = Reach-Advances run_of_steps

bot_executes : contains "bot" start.snapshot.executor_principals ≡ true
unfolding initial contains
bot_executes = refl

abbrev forged : StoredDecision
forged = record approval { actor = "bot" }

executor-never_decides_example :
    is_ok (
      apply_decision host acknowledged.status acknowledged.snapshot Events.approve_plan forged none)
    ≡ false
executor-never_decides_example =
    executor-never_decides "bot" run_of_steps bot_executes host Events.approve_plan forged none refl

stale_version-refused_example :
    (is_ok (
        apply_response host planned.status planned.snapshot planned_packet "bot" planned.decisions
          (some start.snapshot.version))
      ≡ false)
    × (is_ok (
          apply_broker_event host planned.status planned.snapshot Events.plan_approval_requested
            "bot" "m1" planned.decisions
            (some start.snapshot.version)
            none
            none)
        ≡ false)
    × (is_ok (
          apply_decision host planned.status planned.snapshot Events.plan_approval_requested
            approval
            (some start.snapshot.version))
        ≡ false)
stale_version-refused_example =
    stale_version-refused planned-Step here host planned_packet "bot" "m1"
      Events.plan_approval_requested none none approval

abbrev closed : State
closed = record { status = complete; snapshot = start.snapshot; decisions = [] }

terminal-no_Step_example : ¬ Step closed planned
terminal-no_Step_example = terminal-no_Step refl
