-- ===== src/Broker/Refinement/Decisions.antt =====
-- `record_decision` of src/awr/service.py against the lifecycle of one work order.
use agent_work_relay.Prelude.{
  ℕ, String, ◌≡◌, ◌≢◌, ◌⊎◌, inl, inr, refl, ap, sym, true, ◌==◌, Option, none, some, [], ◌∷◌, ◌++◌,
  ok, arith, find, bind-eq-ok, require-eq-ok, ok-injective, eq_iff,
}
use agent_work_relay.Host.{Fields}
use agent_work_relay.Contracts.{WorkOrder}
use agent_work_relay.Lifecycle.Events.{LifecycleEvent}
use agent_work_relay.Lifecycle.Decisions.{StoredDecision}
use agent_work_relay.Lifecycle.Kernel.Guards.{TransitionResult}
use agent_work_relay.Lifecycle.Kernel.Decision.{apply_decision}
use agent_work_relay.Lifecycle.Trace.{decide, decision_event}
use agent_work_relay.Broker.Records.{validation_error, value_error, DecisionRow, Db, Call}
use agent_work_relay.Broker.Store.{find_order}
use agent_work_relay.Broker.Decisions.{
  list_decisions, read_decisions, read_decision, read_expiry, fingerprint_decision,
  decision_from_value, target_from_value, require_rationale,
}
use agent_work_relay.Broker.Service.{
  lifted, or_raise, resolve_actor, require_work_order, snapshot_from_session,
}
use agent_work_relay.Broker.Decide.{
  DecisionRequest, has_key_of, stored_fingerprint, commit_decision, decide_once, record_stored,
  record_decision,
}
use agent_work_relay.Broker.View.{
  find_order-id, snapshot_from_session-is_filled, none_later, list_decisions-append,
}
use agent_work_relay.Broker.Commits.{commit_decision-Commits}
use agent_work_relay.Broker.Committed.{decision-is_filled}
use agent_work_relay.Broker.Submitted.{lifted-eq-ok, or_raise-eq-ok, require_work_order_found}
use agent_work_relay.Broker.Refinement.{Moves, unmoved, one_more, Commits-Moves}

-- The answer came from the stored row, or from the kernel and its writes.
pub decide_once_cases :
    (c : Call) (o : WorkOrder) (d : StoredDecision) (event : LifecycleEvent) (expected : Option ℕ)
    (taken : Option DecisionRow) (db : Db) {done : Fields × Db}
    → decide_once c o d event expected taken db ≡ ok done
    → (done.1 ≡ db)
      ⊎ ((r : TransitionResult) × (taken ≡ none)
          × (apply_decision c.host o.status (snapshot_from_session o db) event d expected ≡ ok r)
          × (commit_decision c d (fingerprint_decision c.host d) r db ≡ ok done))
unfolding decide_once
decide_once_cases c o d event expected (some row) db e =
    let (_, e1) =
      require-eq-ok (stored_fingerprint c row == fingerprint_decision c.host d) validation_error _
        e in
    inl (ap (λ x. x.1) (sym (ok-injective e1)))
decide_once_cases c o d event expected none db e =
    let stepped = apply_decision c.host o.status (snapshot_from_session o db) event d expected in
    let (r, a, e1) = bind-eq-ok (lifted stepped) _ e in inr (r, refl, lifted-eq-ok stepped a, e1)

read_expiry_same : (expires : Option String) → expires ≢ some "" → read_expiry expires ≡ expires
read_expiry_same none n = refl
read_expiry_same (some s) n = ground (arith, eq_iff s "")

pub record_stored-Moves :
    (c : Call) (d : StoredDecision) (event : LifecycleEvent) (expected : Option ℕ) (o : WorkOrder)
    (db : Db) {done : Fields × Db}
    → find_order d.work_order_id db.orders ≡ some o
    → decision_event d.decision_type ≡ some event
    → none_later d.created_at (list_decisions d.work_order_id db) ≡ true
    → d.expires_at ≢ some ""
    → record_stored c d event expected o db ≡ ok done
    → Moves d.work_order_id db done.1
unfolding record_stored
record_stored-Moves c d event expected o db {done} found known latest given e =
    let named = find_order-id d.work_order_id db.orders found in
    elim (decide_once_cases c o d event expected
      (find (has_key_of d) (list_decisions o.work_order_id db)) db e) [
        | inl unchanged ↦ unmoved unchanged
        | inr stepped ↦
            let (r, _, by_kernel, written) = stepped in
            let (commits, kept) =
              commit_decision-Commits c d (fingerprint_decision c.host d) r db written in
            let s = snapshot_from_session o db in
            let filled =
              decision-is_filled c.host o.status s event d expected r
                (snapshot_from_session-is_filled o db) by_kernel in
            let row : DecisionRow = record {
              decision = d;
              fingerprint = some (fingerprint_decision c.host d);
              receipt = some done.0;
            } in
            let listed = list_decisions-append d.work_order_id row db done.1 kept refl latest in
            let same : read_decision row ≡ d = rw (read_expiry_same d.expires_at given) refl in
            Commits-Moves d.work_order_id r r.snapshot db done.1 o
              (read_decisions (list_decisions o.work_order_id db) ++ d ∷ []) commits found filled
              refl (rw (listed, same, named) refl)
              (decide c.host d event expected r known by_kernel) (one_more row refl kept)
      ]

-- A decision that is recorded at a time that no stored decision of the work order is later than, and
-- whose expiry is not the empty text, moves the work order by a step of the kernel, or, as a repeated
-- one, leaves its view as it was.
pub record_decision-Moves :
    (c : Call) (q : DecisionRequest) (db : Db) {done : Fields × Db}
    → none_later c.now_text (list_decisions q.work_order_id db) ≡ true
    → q.expires_at ≢ some ""
    → record_decision c q db ≡ ok done
    → Moves q.work_order_id db done.1
unfolding record_decision
record_decision-Moves c q db latest given e =
    let (sender, _, e1) = bind-eq-ok (resolve_actor c q.actor) _ e in
    let (t, _, e2) =
      bind-eq-ok (or_raise (decision_from_value q.decision_type) validation_error) _ e1 in
    let (event, a, e3) = bind-eq-ok (or_raise (decision_event t) validation_error) _ e2 in
    let (o, b, e4) = bind-eq-ok (require_work_order q.work_order_id db) _ e3 in
    let (rationale, _, e5) = bind-eq-ok (lifted (require_rationale q.rationale)) _ e4 in
    let (kind, _, e6) = bind-eq-ok (or_raise (target_from_value q.target_kind) value_error) _ e5 in
    record_stored-Moves c _ event q.expected_version o db
      (require_work_order_found q.work_order_id db b) (or_raise-eq-ok (decision_event t) a) latest
      given e6
