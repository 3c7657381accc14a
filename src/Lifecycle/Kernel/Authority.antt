-- ===== src/Lifecycle/Kernel/Authority.antt =====
-- Which stored approval stands behind a dispatch and behind an acknowledgement
-- (src/awr/lifecycle/kernel.py, `apply_broker_event` and `apply_response`).
use mathlib.Core.List.{Memᴰ}
use agent_work_relay.Prelude.{
  ℕ, String, ◌≡◌, ◌≢◌, ◌⊎◌, inl, inr, subst, true, false, Option, none, some, List, ok, arith,
  eq_iff, or_else, or_option, ok-injective, contains, eq_refl, bind-eq-ok, reject-eq-ok,
}
use agent_work_relay.Host.{Host}
use agent_work_relay.Contracts.{WorkStatus}
use agent_work_relay.Lifecycle.Errors.{authority_error}
use agent_work_relay.Lifecycle.Events.{LifecycleEvent, plan_execute, implementation_refine}
use agent_work_relay.Lifecycle.Responses.{ResponsePacket, execution_acknowledged}
use agent_work_relay.Lifecycle.Decisions.{StoredDecision}
use agent_work_relay.Lifecycle.Approval.{Approves, matching_plan_approval_sound}
use agent_work_relay.Lifecycle.Kernel.Snapshot.{LifecycleSnapshot}
use agent_work_relay.Lifecycle.Kernel.Guards.{TransitionResult}
use agent_work_relay.Lifecycle.Kernel.Response.{response_effect, apply_response}
use agent_work_relay.Lifecycle.Kernel.Broker.{
  contradicts, require_approval, broker_checks, apply_broker_event,
}
use agent_work_relay.Lifecycle.Kernel.Inversion.{apply_response_inv, apply_broker_event_inv}

-- A stored decision of the list approves the plan.
abbrev pub HasApproval : Host → List StoredDecision → String → String → Type 0
HasApproval h decisions plan_id digest =
    (d : StoredDecision) × Memᴰ d decisions × Approves h plan_id digest d

-- The value that a call names, or else the stored one, is the stored one.
resolved :
    (given : Option String) (stored : String)
    → stored ≢ ""
    → contradicts given (some stored) ≡ false
    → or_else (or_option given (some stored)) "" ≡ stored
resolved none stored n c = ground (arith, eq_iff stored "")
resolved (some g) stored n c = ground (arith, eq_iff g "", eq_iff stored "", eq_iff g stored)

module _ (h : Host) (s : LifecycleSnapshot) (decisions : List StoredDecision)
    (given_id given_sha256 : Option String) (plan_id digest : String)
    (id_stored : s.plan_id ≡ some plan_id) (sha256_stored : s.plan_sha256 ≡ some digest)
    (id_given : plan_id ≢ "") (sha256_given : digest ≢ "") where
  require_approval-HasApproval :
      {d : StoredDecision}
      → require_approval h s decisions given_id given_sha256 ≡ ok d
      → HasApproval h decisions plan_id digest
  unfolding require_approval
  require_approval-HasApproval {d} e =
      let (c1, e1) = reject-eq-ok (contradicts given_id s.plan_id) authority_error _ e in
      let (c2, e2) = reject-eq-ok (contradicts given_sha256 s.plan_sha256) authority_error _ e1 in
      let same_id : or_else (or_option given_id s.plan_id) "" ≡ plan_id =
        rw id_stored (resolved given_id plan_id id_given (rw id_stored at c1)) in
      let same_sha : or_else (or_option given_sha256 s.plan_sha256) "" ≡ digest =
        rw sha256_stored (resolved given_sha256 digest sha256_given (rw sha256_stored at c2)) in
      let (member, approves) = matching_plan_approval_sound h _ _ decisions e2 in
      (d, member, rw (← same_id, ← same_sha) approves)

  -- An accepted dispatch or refinement of a work order with a recorded plan, whose ID and digest are not
  -- empty, rests on a stored, unexpired decision that approves exactly the recorded plan ID and digest,
  -- whatever plan the call names.
  pub dispatch-HasApproval :
      (status : WorkStatus) (event : LifecycleEvent) (actor message_id : String)
      (expected : Option ℕ) (r : TransitionResult)
      → (event ≡ plan_execute) ⊎ (event ≡ implementation_refine)
      → apply_broker_event h status s event actor message_id decisions expected given_id
          given_sha256
        ≡ ok r
      → HasApproval h decisions plan_id digest
  unfolding broker_checks
  dispatch-HasApproval status event actor message_id expected r which e =
      let inv =
        apply_broker_event_inv h status s event actor message_id decisions expected given_id
          given_sha256 r e in
      let checked = λ (ev : LifecycleEvent) (p : event ≡ ev).
        subst (λ v. broker_checks h s v decisions given_id given_sha256 ≡ ok tt) p inv.checked in
      elim which [
        | inl p ↦ require_approval-HasApproval (bind-eq-ok _ _ (checked plan_execute p)).1
        | inr p ↦ require_approval-HasApproval (bind-eq-ok _ _ (checked implementation_refine p)).1
      ]

-- An accepted acknowledgement of an execution rests on a stored, unexpired decision that approves
-- the plan ID and digest of the snapshot, records a provider run, and binds as the agent the actor of
-- the packet or, where it names none, the caller, who from then on counts as an executor.
pub acknowledgement-HasApproval :
    (h : Host) (status : WorkStatus) (s : LifecycleSnapshot) (packet : ResponsePacket)
    (actor : String) (decisions : List StoredDecision) (expected : Option ℕ) (r : TransitionResult)
    → packet.response_type ≡ execution_acknowledged
    → apply_response h status s packet actor decisions expected ≡ ok r
    → HasApproval h decisions (or_else s.plan_id "") (or_else s.plan_sha256 "")
      × (r.snapshot.execution_acknowledged ≡ true)
      × (r.snapshot.bound_run_id ≢ none)
      × (r.snapshot.bound_agent_id ≡ some (or_else packet.actor actor))
      × (contains (or_else packet.actor actor) r.snapshot.executor_principals ≡ true)
unfolding response_effect contains
acknowledgement-HasApproval h status s packet actor decisions expected r which e =
    let inv = apply_response_inv h status s packet actor decisions expected r e in
    let effect =
      subst (λ t. response_effect h status s packet actor decisions t ≡ ok inv.written) which
        inv.its_effect in
    let (d, found, built) = bind-eq-ok _ _ effect in
    let (member, approves) = matching_plan_approval_sound h _ _ decisions found in
    (
      (d, member, approves),
      rw inv.its_snapshot (cc (ok-injective built)),
      ground arith,
      ground arith,
      ground (arith, eq_refl (or_else packet.actor actor)),
    )
