-- ===== src/Lifecycle/Transitions.antt =====
-- src/awr/lifecycle/transitions.py: the table of permitted transitions.
pub mod Graph
use agent_work_relay.Prelude.{
  String, Bool, true, false, ◌&&◌, Option, none, some, List, [], ◌∷◌, ◌==◌, ok, err, if◌then◌else◌,
}
use agent_work_relay.Contracts.{
  WorkStatus, accepted, routed, planning, plan_ready, waiting_for_plan_approval,
  ready_for_execution, execution_dispatched, executing, completion_ready, planner_reviewing,
  revision_required, waiting_for_human_review, waiting_for_input, complete, failed, cancelled,
  status_is,
}
use agent_work_relay.Lifecycle.Errors.{Outcome, transition_error}
use agent_work_relay.Lifecycle.Events.{
  LifecycleEvent, plan_completed, plan_approval_requested, approve_plan, reject_plan, plan_execute,
  execution_acknowledged, execution_progress, execution_completed, execution_failed,
  completion_review, review_completed, accept_completion, request_revision, implementation_refine,
  question_blocked, question_answer, cancel, event_is,
}

pub record Row : Type 0 where
  pub from : WorkStatus
  pub on : LifecycleEvent
  pub to : WorkStatus

abbrev row : WorkStatus → LifecycleEvent → WorkStatus → Row
row s e t = record { from = s; on = e; to = t }

abbrev pub transition_table : List Row
transition_table =
    row planning plan_completed plan_ready
    ∷ row planning question_blocked waiting_for_input
    ∷ row plan_ready plan_approval_requested waiting_for_plan_approval
    ∷ row waiting_for_plan_approval approve_plan ready_for_execution
    ∷ row waiting_for_plan_approval reject_plan plan_ready
    ∷ row ready_for_execution plan_execute execution_dispatched
    ∷ row execution_dispatched execution_acknowledged executing
    ∷ row executing execution_progress executing
    ∷ row executing execution_completed completion_ready
    ∷ row executing execution_failed failed
    ∷ row executing question_blocked waiting_for_input
    ∷ row completion_ready completion_review planner_reviewing
    ∷ row planner_reviewing review_completed planner_reviewing
    ∷ row waiting_for_human_review accept_completion complete
    ∷ row waiting_for_human_review request_revision revision_required
    ∷ row waiting_for_input question_answer waiting_for_input
    ∷ row revision_required implementation_refine execution_dispatched
    ∷ []

-- `TRANSITION_TABLE[(status, event)]`
find_row : WorkStatus → LifecycleEvent → List Row → Option WorkStatus
find_row s e [] = none
find_row s e (r ∷ rest) =
    if status_is r.from s && event_is r.on e then some r.to else find_row s e rest

-- `REVIEW_OUTCOMES[outcome]`
unfoldable pub review_outcome : String → Option WorkStatus
review_outcome outcome =
    if outcome == "APPROVED"
    then some waiting_for_human_review
    else if outcome == "REJECTED"
    then some waiting_for_human_review
    else if outcome == "REVISE"
    then some revision_required
    else none

-- `status in CANCELLABLE`
abbrev pub is_cancellable : WorkStatus → Bool
is_cancellable accepted = false
is_cancellable routed = false
is_cancellable complete = false
is_cancellable failed = false
is_cancellable cancelled = false
is_cancellable _ = true

abbrev or_transition_error : Option WorkStatus → Outcome WorkStatus
or_transition_error none = err transition_error
or_transition_error (some t) = ok t

unfoldable pub next_state : WorkStatus → LifecycleEvent → Outcome WorkStatus
unfolding find_row
next_state status cancel = if is_cancellable status then ok cancelled else err transition_error
next_state status event = or_transition_error (find_row status event transition_table)

events_of : WorkStatus → List Row → List LifecycleEvent
events_of s [] = []
events_of s (r ∷ rest) =
    let more = events_of s rest in if status_is r.from s then r.on ∷ more else more

unfoldable pub allowed_events : WorkStatus → List LifecycleEvent
unfolding events_of
allowed_events status =
    let events = events_of status transition_table in
    if is_cancellable status then cancel ∷ events else events
