-- ===== src/Broker/Replays/Decisions.antt =====
-- Decisions that are sent again to src/awr/service.py, `record_decision`.
use agent_work_relay.Prelude.{
  ℕ, String, ◌≡◌, inl, inr, refl, ap, sym, subst, Bool, true, ◌==◌, Option, none, some, List, [],
  ◌∷◌, ok, arith, eq_refl, or_else, find, bind-eq-ok, require-eq-ok, ok-injective, option_cases,
}
use agent_work_relay.Host.{Fields}
use agent_work_relay.Contracts.{WorkOrder}
use agent_work_relay.Lifecycle.Events.{LifecycleEvent}
use agent_work_relay.Lifecycle.Decisions.{StoredDecision}
use agent_work_relay.Lifecycle.Kernel.Guards.{TransitionResult}
use agent_work_relay.Lifecycle.Kernel.Decision.{apply_decision}
use agent_work_relay.Broker.Records.{validation_error, DecisionRow, Db, Call}
use agent_work_relay.Broker.Store.{find_order}
use agent_work_relay.Broker.Decisions.{
  list_decisions, place_decision, fingerprint_decision, decision_value,
}
use agent_work_relay.Broker.Service.{lifted, snapshot_from_session}
use agent_work_relay.Broker.Decide.{
  has_key_of, stored_fingerprint, commit_decision, decide_once, record_stored,
}
use agent_work_relay.Broker.View.{find_order-id, find_order-set_status, list_decisions-place}
use agent_work_relay.Broker.Commits.{commit_decision-Commits}

find-place :
    (p : DecisionRow → Bool) (row : DecisionRow) (rows : List DecisionRow)
    → find p rows ≡ none
    → p row ≡ true
    → find p (place_decision row rows) ≡ some row
unfolding find place_decision
find-place p row [] free hit = ground arith
find-place p row (r ∷ rest) free hit = ground (arith, find-place p row rest)

or_else_same : (s : String) → or_else (some s) s ≡ s
or_else_same s = ground arith

fresh_commits :
    (c : Call) (o : WorkOrder) (d : StoredDecision) (event : LifecycleEvent) (expected : Option ℕ)
    (db : Db) {done : Fields × Db}
    → decide_once c o d event expected none db ≡ ok done
    → (r : TransitionResult) × (commit_decision c d (fingerprint_decision c.host d) r db ≡ ok done)
unfolding decide_once
fresh_commits c o d event expected db e =
    let stepped = apply_decision c.host o.status (snapshot_from_session o db) event d expected in
    let (r, _, e1) = bind-eq-ok (lifted stepped) _ e in (r, e1)

replayed_unchanged :
    (c : Call) (o : WorkOrder) (d : StoredDecision) (event : LifecycleEvent) (expected : Option ℕ)
    (row : DecisionRow) (db : Db) {done : Fields × Db}
    → decide_once c o d event expected (some row) db ≡ ok done
    → done.1 ≡ db
unfolding decide_once
replayed_unchanged c o d event expected row db e =
    let (_, e1) =
      require-eq-ok (stored_fingerprint c row == fingerprint_decision c.host d) validation_error _
        e in
    ap (λ x. x.1) (sym (ok-injective e1))

-- The decision of the second call has the key and the fingerprint of the first one.
module _ (c c2 : Call) (d d2 : StoredDecision)
    (same_sha256 : fingerprint_decision c2.host d2 ≡ fingerprint_decision c.host d2)
    (same_stored : (row : DecisionRow) → stored_fingerprint c2 row ≡ stored_fingerprint c row)
    (same_key : has_key_of d2 ≡ has_key_of d)
    (same_print : fingerprint_decision c.host d2 ≡ fingerprint_decision c.host d) where
  replayed_again :
      (o : WorkOrder) (event : LifecycleEvent) (expected expected2 : Option ℕ) (row : DecisionRow)
      (db : Db) {done : Fields × Db}
      → decide_once c o d event expected (some row) db ≡ ok done
      → decide_once c2 o d2 event expected2 (some row) db ≡ ok done
  unfolding decide_once
  replayed_again o event expected expected2 row db e =
      let (hit, e1) =
        require-eq-ok (stored_fingerprint c row == fingerprint_decision c.host d) validation_error _
          e in
      let hit2 : (stored_fingerprint c2 row == fingerprint_decision c2.host d2) ≡ true =
        rw (same_sha256, same_stored row, same_print) hit in
      rw hit2 e1

  stored_again :
      (o o2 : WorkOrder) (event : LifecycleEvent) (expected2 : Option ℕ) (db : Db)
      {done : Fields × Db}
      → decide_once c2 o2 d2 event expected2
          (some (record {
            decision = d;
            fingerprint = some (fingerprint_decision c.host d);
            receipt = some done.0;
          }))
          done.1
        ≡ ok done
  unfolding decide_once
  stored_again o o2 event expected2 db =
      let print = fingerprint_decision c.host d in
      rw (same_sha256, same_stored _, same_print, or_else_same print, eq_refl print) refl

  pub record_stored-again :
      (event : LifecycleEvent) (expected expected2 : Option ℕ) (o : WorkOrder) (db : Db)
      {done : Fields × Db}
      → find_order d.work_order_id db.orders ≡ some o
      → record_stored c d event expected o db ≡ ok done
      → (o2 : WorkOrder) × (find_order d.work_order_id done.1.orders ≡ some o2)
        × (record_stored c2 d2 event expected2 o2 done.1 ≡ ok done)
  unfolding record_stored
  record_stored-again event expected expected2 o db {done} found e =
      elim (option_cases (find (has_key_of d) (list_decisions o.work_order_id db))) [
        | inr taken ↦
            let (row, hit) = taken in
            let before : decide_once c o d event expected (some row) db ≡ ok done = rw hit at e in
            let same = replayed_unchanged c o d event expected row db before in
            let again : record_stored c2 d2 event expected2 o db ≡ ok done =
              rw (same_key, hit) (replayed_again o event expected expected2 row db before) in
            (
              o,
              rw same found,
              subst (λ x. record_stored c2 d2 event expected2 o x ≡ ok done) (sym same) again,
            )
        | inl free ↦
            let fresh : decide_once c o d event expected none db ≡ ok done = rw free at e in
            let (r, written) = fresh_commits c o d event expected db fresh in
            let (commits, more) =
              commit_decision-Commits c d (fingerprint_decision c.host d) r db written in
            let named = find_order-id d.work_order_id db.orders found in
            let row : DecisionRow = record {
              decision = d;
              fingerprint = some (fingerprint_decision c.host d);
              receipt = some done.0;
            } in
            let own : has_key_of d row ≡ true = ground (
              arith,
              eq_refl d.actor,
              eq_refl (decision_value d.decision_type),
              eq_refl d.idempotency_key,
            ) in
            let listed = list_decisions-place d.work_order_id row db done.1 more refl in
            let hit : find (has_key_of d2) (list_decisions o.work_order_id done.1) ≡ some row =
              rw (same_key, named, listed)
                (find-place (has_key_of d) row (list_decisions d.work_order_id db)
                  (rw named at free) own) in
            let found_now = find_order-set_status d.work_order_id r.status db.orders found in
            let o2 : WorkOrder = record o { status = r.status } in
            (o2, rw commits.orders found_now, rw hit (stored_again o o2 event expected2 db))
      ]
