-- ===== src/Lifecycle/Pending.antt =====
-- src/awr/lifecycle/pending.py: what a participant can do next, and the events that it stands for.
pub mod Permitted
use agent_work_relay.Prelude.{
  String, Option, none, some, List, [], ◌∷◌, ◌==◌, concat, if◌then◌else◌,
}
use agent_work_relay.Contracts.{
  WorkStatus, plan_ready, waiting_for_plan_approval, ready_for_execution, execution_dispatched,
  executing, completion_ready, planner_reviewing, waiting_for_input, waiting_for_human_review,
  revision_required,
}
use agent_work_relay.Lifecycle.Events.{
  LifecycleEvent, plan_completed, plan_approval_requested, approve_plan, reject_plan, plan_execute,
  execution_acknowledged, execution_progress, execution_completed, execution_failed,
  completion_review, review_completed, accept_completion, request_revision, implementation_refine,
  question_blocked, question_answer, cancel,
}

-- A dictionary of the result
pub record Action : Type 0 where
  pub action : String
  pub kind : String
  pub summary : String

abbrev act : String → String → String → Action
act action kind summary = record { action = action; kind = kind; summary = summary }

unfoldable pub pending_actions : WorkStatus → List Action
pending_actions plan_ready =
    act "plan.approval_requested" "broker_event"
      "Request human approval for the stored plan fingerprint."
    ∷ []
pending_actions waiting_for_plan_approval =
    act "approve_plan" "decision" "Approve the exact stored plan ID and SHA-256."
    ∷ act "reject_plan" "decision" "Reject the current plan fingerprint."
    ∷ []
pending_actions ready_for_execution =
    act "plan.execute" "broker_event" "Dispatch execution after stored plan approval." ∷ []
pending_actions execution_dispatched =
    act "execution.acknowledged" "response" "Bind the durable provider run before work begins." ∷ []
pending_actions executing =
    act "execution.progress" "response" "Optional meaningful checkpoint."
    ∷ act "execution.completed" "response" "Terminal successful execution packet."
    ∷ []
pending_actions completion_ready =
    act "completion.review" "broker_event" "Request a completion review." ∷ []
pending_actions planner_reviewing =
    act "review.completed" "response"
      "Record a review recommendation. This does not close the work order."
    ∷ []
pending_actions waiting_for_input =
    act "question.answer" "broker_event" "Answer the blocking question and resume the prior state."
    ∷ []
pending_actions waiting_for_human_review =
    act "accept_completion" "decision" "Human acceptance closes the work order."
    ∷ act "request_revision" "decision" "Request bounded follow-up in the same lineage."
    ∷ []
pending_actions revision_required =
    act "implementation.refine" "broker_event"
      "Dispatch refinement against the approved plan fingerprint."
    ∷ []
pending_actions _ = []

-- `event.value`
unfoldable pub event_value : LifecycleEvent → String
event_value plan_completed = "plan.completed"
event_value plan_approval_requested = "plan.approval_requested"
event_value approve_plan = "decision.approve_plan"
event_value reject_plan = "decision.reject_plan"
event_value plan_execute = "plan.execute"
event_value execution_acknowledged = "execution.acknowledged"
event_value execution_progress = "execution.progress"
event_value execution_completed = "execution.completed"
event_value execution_failed = "execution.failed"
event_value completion_review = "completion.review"
event_value review_completed = "review.completed"
event_value accept_completion = "decision.accept_completion"
event_value request_revision = "decision.request_revision"
event_value implementation_refine = "implementation.refine"
event_value question_blocked = "question.blocked"
event_value question_answer = "question.answer"
event_value cancel = "decision.cancel"

search_event : String → List LifecycleEvent → Option LifecycleEvent
search_event raw [] = none
search_event raw (e ∷ rest) = if raw == event_value e then some e else search_event raw rest

-- `LifecycleEvent(raw)`; `none` where it raises ValueError
unfoldable pub event_from_value : String → Option LifecycleEvent
unfolding search_event event_value
event_from_value raw = search_event raw (
    plan_completed ∷ plan_approval_requested ∷ approve_plan ∷ reject_plan ∷ plan_execute
    ∷ execution_acknowledged ∷ execution_progress ∷ execution_completed ∷ execution_failed
    ∷ completion_review ∷ review_completed ∷ accept_completion ∷ request_revision
    ∷ implementation_refine ∷ question_blocked ∷ question_answer ∷ cancel ∷ [])
