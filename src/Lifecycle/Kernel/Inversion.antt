-- ===== src/Lifecycle/Kernel/Inversion.antt =====
-- What an accepted step of src/awr/lifecycle/kernel.py has passed, part by part.
use agent_work_relay.Prelude.{
  ℕ, String, ◌≡◌, refl, ap, ◌∙◌, ◌+◌, true, false, ◌==◌, Option, List, ok, arith, bind-eq-ok,
  require-eq-ok, reject-eq-ok, subst, ok-injective, or_else, is_blank,
}
use agent_work_relay.Host.{Host}
use agent_work_relay.Contracts.{WorkStatus}
use agent_work_relay.Lifecycle.Events.{LifecycleEvent, is_decision_event}
use agent_work_relay.Lifecycle.Transitions.{next_state}
use agent_work_relay.Lifecycle.Responses.{ResponsePacket}
use agent_work_relay.Lifecycle.Decisions.{StoredDecision, decision_is_expired}
use agent_work_relay.Lifecycle.Kernel.Snapshot.{LifecycleSnapshot}
use agent_work_relay.Lifecycle.Kernel.Guards.{
  TransitionResult, assert_actor, assert_version, assert_decision_principal, advance,
}
use agent_work_relay.Lifecycle.Kernel.Response.{
  response_event, response_target, response_effect, apply_response,
}
use agent_work_relay.Lifecycle.Kernel.Broker.{broker_checks, broker_result, apply_broker_event}
use agent_work_relay.Lifecycle.Kernel.Decision.{approval_checks, apply_decision}

module _ (h : Host) (status : WorkStatus) (s : LifecycleSnapshot) (packet : ResponsePacket)
    (actor : String) (decisions : List StoredDecision) (expected : Option ℕ)
    (r : TransitionResult) where
  pub record AcceptedResponse : Type 0 where
    -- the snapshot with the fields that the response writes by its type
    pub written : LifecycleSnapshot
    pub by_participant : assert_actor actor s ≡ ok tt
    pub at_version : assert_version s expected ≡ ok tt
    pub same_order : (packet.work_order_id == s.work_order_id) ≡ true
    pub in_order : (packet.in_reply_to == s.current_parent_id) ≡ true
    pub same_source : (packet.source_input_sha256 == s.source_input_sha256) ≡ true
    pub its_event : response_event packet.response_type ≡ ok r.event
    pub its_target : response_target h status r.event packet ≡ ok r.status
    pub its_effect :
        response_effect h status s packet actor decisions packet.response_type ≡ ok written
    pub its_snapshot :
        r.snapshot
        ≡ advance s written
            (or_else packet.message_id (or_else packet.content_sha256 s.current_parent_id))

pub apply_response_inv :
    (h : Host) (status : WorkStatus) (s : LifecycleSnapshot) (packet : ResponsePacket)
    (actor : String) (decisions : List StoredDecision) (expected : Option ℕ) (r : TransitionResult)
    → apply_response h status s packet actor decisions expected ≡ ok r
    → AcceptedResponse h status s packet actor decisions expected r
unfolding apply_response
apply_response_inv h status s packet actor decisions expected r e =
    let (_, a1, e1) = bind-eq-ok _ _ e in
    let (_, a2, e2) = bind-eq-ok _ _ e1 in
    let (a3, e3) = require-eq-ok _ _ _ e2 in
    let (a4, e4) = require-eq-ok _ _ _ e3 in
    let (a5, e5) = require-eq-ok _ _ _ e4 in
    let (_, e6) = reject-eq-ok _ _ _ e5 in
    let (event, a7, e7) = bind-eq-ok _ _ e6 in
    let (target, a8, e8) = bind-eq-ok _ _ e7 in
    let (u, a9, e9) = bind-eq-ok _ _ e8 in
    subst (λ t. AcceptedResponse h status s packet actor decisions expected t) (ok-injective e9)
      (record {
        written = u;
        by_participant = a1;
        at_version = a2;
        same_order = a3;
        in_order = a4;
        same_source = a5;
        its_event = a7;
        its_target = a8;
        its_effect = a9;
        its_snapshot = refl;
      })

module _ (h : Host) (status : WorkStatus) (s : LifecycleSnapshot) (event : LifecycleEvent)
    (actor message_id : String) (decisions : List StoredDecision) (expected : Option ℕ)
    (plan_id plan_sha256 : Option String) (r : TransitionResult) where
  pub record AcceptedBrokerEvent : Type 0 where
    pub by_participant : assert_actor actor s ≡ ok tt
    pub at_version : assert_version s expected ≡ ok tt
    pub checked : broker_checks h s event decisions plan_id plan_sha256 ≡ ok tt
    pub its_result : broker_result status s message_id event ≡ ok r

  pub apply_broker_event_inv :
      apply_broker_event h status s event actor message_id decisions expected plan_id plan_sha256
        ≡ ok r
      → AcceptedBrokerEvent
  unfolding apply_broker_event
  apply_broker_event_inv e = ground arith

module _ (h : Host) (status : WorkStatus) (s : LifecycleSnapshot) (event : LifecycleEvent)
    (d : StoredDecision) (expected : Option ℕ) (r : TransitionResult) where
  pub record AcceptedDecision : Type 0 where
    pub by_participant : assert_actor d.actor s ≡ ok tt
    pub at_version : assert_version s expected ≡ ok tt
    pub decides : is_decision_event event ≡ true
    pub by_principal : assert_decision_principal d.actor s ≡ ok tt
    pub unexpired : decision_is_expired h d ≡ ok false
    pub reasoned : is_blank d.rationale ≡ false
    pub same_order : (d.work_order_id == s.work_order_id) ≡ true
    pub checked : approval_checks s d event ≡ ok tt
    pub its_target : next_state status event ≡ ok r.status
    pub its_event : r.event ≡ event
    pub its_snapshot : r.snapshot ≡ record s { version = s.version + 1 }

pub apply_decision_inv :
    (h : Host) (status : WorkStatus) (s : LifecycleSnapshot) (event : LifecycleEvent)
    (d : StoredDecision) (expected : Option ℕ) (r : TransitionResult)
    → apply_decision h status s event d expected ≡ ok r
    → AcceptedDecision h status s event d expected r
unfolding apply_decision
apply_decision_inv h status s event d expected r e =
    let (_, a1, e1) = bind-eq-ok _ _ e in
    let (_, a2, e2) = bind-eq-ok _ _ e1 in
    let (a3, e3) = require-eq-ok _ _ _ e2 in
    let (_, a4, e4) = bind-eq-ok _ _ e3 in
    let (past, a5, e5) = bind-eq-ok _ _ e4 in
    let (a6, e6) = reject-eq-ok _ _ _ e5 in
    let (a7, e7) = reject-eq-ok _ _ _ e6 in
    let (a8, e8) = require-eq-ok _ _ _ e7 in
    let (_, e9) = reject-eq-ok _ _ _ e8 in
    let (_, a10, e10) = bind-eq-ok _ _ e9 in
    let (target, a11, e11) = bind-eq-ok _ _ e10 in
    subst (λ t. AcceptedDecision h status s event d expected t) (ok-injective e11)
      (record {
        by_participant = a1;
        at_version = a2;
        decides = a3;
        by_principal = a4;
        unexpired = a5 ∙ ap ok a6;
        reasoned = a7;
        same_order = a8;
        checked = a10;
        its_target = a11;
        its_event = refl;
        its_snapshot = refl;
      })
