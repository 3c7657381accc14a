-- ===== src/Broker/Commits.antt =====
-- What the transactions of src/awr/service.py leave in the tables when they are committed.
use agent_work_relay.Prelude.{
  ℕ, ◌+◌, String, ◌≡◌, refl, subst, some, [], ◌∷◌, ◌++◌, ok, or_else, bind-eq-ok, require-eq-ok,
  reject-eq-ok, ok-injective,
}
use agent_work_relay.Host.{Fields}
use agent_work_relay.Contracts.{WorkStatus, LedgerEntry}
use agent_work_relay.Lifecycle.Decisions.{StoredDecision}
use agent_work_relay.Lifecycle.Responses.{ResponsePacket}
use agent_work_relay.Lifecycle.Pending.{event_value}
use agent_work_relay.Lifecycle.Kernel.Snapshot.{LifecycleSnapshot}
use agent_work_relay.Lifecycle.Kernel.Guards.{TransitionResult}
use agent_work_relay.Broker.Records.{key_error, integrity_error, DecisionRow, ResponseRow, Db, Call}
use agent_work_relay.Broker.Store.{
  find_order, set_status, update_status, is_found, any_clash, any_response_clash, append_ledger,
  put_snapshot, put_response_packet, put_lifecycle,
}
use agent_work_relay.Broker.Decisions.{put_decision, decision_dict, any_decision_clash}
use agent_work_relay.Broker.Service.{
  response_row, response_receipt, message_payload, commit_response,
}
use agent_work_relay.Broker.Decide.{decision_receipt, commit_decision}
use agent_work_relay.Broker.Events.{commit_event}

-- The status, the snapshot and a ledger row of one work order are written, and no other order is.
pub record Commits (id : String) (status : WorkStatus) (s : LifecycleSnapshot) (db db' : Db)
    : Type 0 where
  pub orders : db'.orders ≡ set_status id status db.orders
  pub snapshots : db'.snapshots ≡ put_snapshot id s db.snapshots
  pub entry : LedgerEntry
  pub ledger : db'.ledger ≡ db.ledger ++ entry ∷ []

pub update_status_eq :
    (id : String) (status : WorkStatus) (db : Db) {db' : Db}
    → update_status id status db ≡ ok db'
    → record db { orders = set_status id status db.orders } ≡ db'
unfolding update_status
update_status_eq id status db e =
    let (_, e1) = require-eq-ok (is_found (find_order id db.orders)) key_error _ e in
    ok-injective e1

pub append_ledger_eq :
    (c : Call) (id event actor counterparty : String) (payload : Fields) (db : Db)
    {r : LedgerEntry × Db}
    → append_ledger c id event actor counterparty payload db ≡ ok r
    → record db { ledger = db.ledger ++ r.0 ∷ []; last_sequence = db.last_sequence + 1 } ≡ r.1
unfolding append_ledger
append_ledger_eq c id event actor counterparty payload db {r} e =
    let (_, e1) = require-eq-ok (is_found (find_order id db.orders)) integrity_error _ e in
    let (_, e2) = reject-eq-ok (any_clash _ db.ledger) integrity_error _ e1 in
    subst
      (λ x.
        record db { ledger = db.ledger ++ x.0 ∷ []; last_sequence = db.last_sequence + 1 } ≡ x.1)
      (ok-injective e2) refl

pub append_ledger_entry :
    (c : Call) (id event actor counterparty : String) (payload : Fields) (db : Db)
    {r : LedgerEntry × Db}
    → append_ledger c id event actor counterparty payload db ≡ ok r
    → (r.0.work_order_id ≡ id) × (r.0.event_type ≡ event)
unfolding append_ledger
append_ledger_entry c id event actor counterparty payload db {r} e =
    let (_, e1) = require-eq-ok (is_found (find_order id db.orders)) integrity_error _ e in
    let (_, e2) = reject-eq-ok (any_clash _ db.ledger) integrity_error _ e1 in
    subst (λ x. (x.0.work_order_id ≡ id) × (x.0.event_type ≡ event)) (ok-injective e2) (refl, refl)

pub put_response_packet_eq :
    (row : ResponseRow) (db : Db) {db' : Db}
    → put_response_packet row db ≡ ok db'
    → record db { responses = db.responses ++ row ∷ [] } ≡ db'
unfolding put_response_packet
put_response_packet_eq row db e =
    let (_, e1) = reject-eq-ok (any_response_clash row db.responses) integrity_error _ e in
    ok-injective e1

pub put_decision_eq :
    (row : DecisionRow) (db : Db) {db' : Db}
    → put_decision row db ≡ ok db'
    → record db { decisions = db.decisions ++ row ∷ [] } ≡ db'
unfolding put_decision
put_decision_eq row db e =
    let (_, e1) = reject-eq-ok (any_decision_clash row db.decisions) integrity_error _ e in
    ok-injective e1

pub commit_event-Commits :
    (c : Call) (id actor : String) (payload : Fields) (r : TransitionResult) (db : Db)
    {done : ℕ × Db}
    → commit_event c id actor payload r db ≡ ok done
    → Commits id r.status r.snapshot db done.1 × (done.1.decisions ≡ db.decisions)
unfolding commit_event
commit_event-Commits c id actor payload r db e =
    let (db1, a, e1) = bind-eq-ok (update_status id r.status db) _ e in
    let (entry, b, e2) =
      bind-eq-ok (append_ledger c id (event_value r.event) actor "broker:awr" payload db1) _ e1 in
    let set = update_status_eq id r.status db a in
    let put = append_ledger_eq c id (event_value r.event) actor "broker:awr" payload db1 b in
    let same = ok-injective e2 in
    (
      record {
        orders = cc (set, put, same);
        snapshots = cc (set, put, same);
        entry = entry.0;
        ledger = cc (set, put, same);
      },
      cc (set, put, same),
    )

-- The writes of a response: those of its event, and the row that keeps its receipt.
pub commit_response-Commits :
    (c : Call) (p : ResponsePacket) (actor digest : String) (r : TransitionResult) (db : Db)
    {done : Fields × Db}
    → commit_response c p actor digest r db ≡ ok done
    → Commits p.work_order_id r.status
        (record r.snapshot { current_parent_id = or_else p.message_id digest })
        db
        done.1
      × (done.1.decisions ≡ db.decisions)
      × (done.1.responses
          ≡ db.responses ++ response_row p actor digest (or_else p.message_id digest) done.0 ∷ [])
unfolding commit_response
commit_response-Commits c p actor digest r db e =
    let message_id = or_else p.message_id digest in
    let payload = message_payload p digest message_id in
    let (db1, a, e1) = bind-eq-ok (update_status p.work_order_id r.status db) _ e in
    let (entry, b, e2) =
      bind-eq-ok
        (append_ledger c p.work_order_id (event_value r.event) actor "broker:awr" payload db1) _
        e1 in
    let db2 =
      put_lifecycle p.work_order_id (record r.snapshot { current_parent_id = message_id })
        entry.1 in
    let receipt = response_receipt c p actor digest message_id r entry.0.sequence in
    let (db3, d, e3) =
      bind-eq-ok (put_response_packet (response_row p actor digest message_id receipt) db2) _ e2 in
    let set = update_status_eq p.work_order_id r.status db a in
    let put =
      append_ledger_eq c p.work_order_id (event_value r.event) actor "broker:awr" payload db1 b in
    let kept = put_response_packet_eq (response_row p actor digest message_id receipt) db2 d in
    let same = ok-injective e3 in
    (
      record {
        orders = cc (set, put, kept, same);
        snapshots = cc (set, put, kept, same);
        entry = entry.0;
        ledger = cc (set, put, kept, same);
      },
      cc (set, put, kept, same),
      cc (set, put, kept, same),
    )

-- The writes of a decision: those of its event, and its row.
pub commit_decision-Commits :
    (c : Call) (d : StoredDecision) (fingerprint : String) (r : TransitionResult) (db : Db)
    {done : Fields × Db}
    → commit_decision c d fingerprint r db ≡ ok done
    → Commits d.work_order_id r.status r.snapshot db done.1
      × (done.1.decisions
          ≡ db.decisions
            ++ record { decision = d; fingerprint = some fingerprint; receipt = some done.0 } ∷ [])
unfolding commit_decision
commit_decision-Commits c d fingerprint r db e =
    let (db1, a, e1) = bind-eq-ok (update_status d.work_order_id r.status db) _ e in
    let (entry, b, e2) =
      bind-eq-ok
        (append_ledger c d.work_order_id (event_value r.event) d.actor "broker:awr"
          (decision_dict d) db1)
        _ e1 in
    let db2 = put_lifecycle d.work_order_id r.snapshot entry.1 in
    let row : DecisionRow = record {
      decision = d;
      fingerprint = some fingerprint;
      receipt = some (decision_receipt d fingerprint r entry.0.sequence);
    } in
    let (db3, x, e3) = bind-eq-ok (put_decision row db2) _ e2 in
    let set = update_status_eq d.work_order_id r.status db a in
    let put =
      append_ledger_eq c d.work_order_id (event_value r.event) d.actor "broker:awr"
        (decision_dict d) db1 b in
    let kept = put_decision_eq row db2 x in
    let same = ok-injective e3 in
    (
      record {
        orders = cc (set, put, kept, same);
        snapshots = cc (set, put, kept, same);
        entry = entry.0;
        ledger = cc (set, put, kept, same);
      },
      cc (set, put, kept, same),
    )
