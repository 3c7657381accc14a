-- ===== src/Lifecycle/Transitions/Graph.antt =====
-- What the table of src/awr/lifecycle/transitions.py permits, as a graph of states.
use agent_work_relay.Prelude.{
  Bool, true, false, ◌||◌, ◌≡◌, ◌⊎◌, List, [], ◌∷◌, ok, err, is_ok, arith,
}
use agent_work_relay.Contracts.{
  WorkStatus, ready_for_execution, execution_dispatched, revision_required,
  waiting_for_human_review, complete, terminal,
}
use agent_work_relay.Lifecycle.Errors.{transition_error}
use agent_work_relay.Lifecycle.Events.{
  LifecycleEvent, plan_execute, accept_completion, implementation_refine, event_is,
}
use agent_work_relay.Lifecycle.Transitions.{next_state, allowed_events}

-- `event in events`
abbrev pub has_event : LifecycleEvent → List LifecycleEvent → Bool
has_event e [] = false
has_event e (x ∷ xs) = event_is x e || has_event e xs

-- An event is among the allowed events of a status exactly when the status has a next state by it.
pub allowed_events-next_state :
    (s : WorkStatus) (e : LifecycleEvent) → has_event e (allowed_events s) ≡ is_ok (next_state s e)
unfolding next_state allowed_events
allowed_events-next_state s e = ground arith

-- No event leaves a terminal state.
pub next_state-terminal :
    (s : WorkStatus) (e : LifecycleEvent)
    → terminal s ≡ true
    → next_state s e ≡ err transition_error
unfolding next_state
next_state-terminal s e h = ground arith

-- The table leads to `complete` only by a human acceptance in human review.
pub next_state-complete :
    (s : WorkStatus) (e : LifecycleEvent)
    → next_state s e ≡ ok complete
    → (s ≡ waiting_for_human_review) × (e ≡ accept_completion)
unfolding next_state
next_state-complete s e h = ground arith

-- The table leads to `execution_dispatched` only from an approved plan or a required revision.
pub next_state-execution_dispatched :
    (s : WorkStatus) (e : LifecycleEvent)
    → next_state s e ≡ ok execution_dispatched
    → (s ≡ ready_for_execution) × (e ≡ plan_execute)
      ⊎ (s ≡ revision_required) × (e ≡ implementation_refine)
unfolding next_state
next_state-execution_dispatched s e h = ground arith
