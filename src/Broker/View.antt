-- ===== src/Broker/View.antt =====
-- A work order of src/awr/service.py as the lifecycle sees it, and how the writes of
-- src/awr/storage/sqlite.py change it.
use agent_work_relay.Prelude.{
  String, ◌≡◌, ◌≢◌, refl, Bool, true, false, not, ◌&&◌, ◌==◌, Option, none, some, List, [], ◌∷◌,
  ◌++◌, arith, eq_iff, eq_refl, text_ltb, if◌then◌else◌,
}
use agent_work_relay.Contracts.{WorkStatus, WorkOrder}
use agent_work_relay.Lifecycle.Kernel.Snapshot.{LifecycleSnapshot, derive_snapshot}
use agent_work_relay.Lifecycle.Trace.{State}
use agent_work_relay.Broker.Records.{DecisionRow, SnapshotRow, Db}
use agent_work_relay.Broker.Store.{find_order, set_status, find_snapshot, put_snapshot}
use agent_work_relay.Broker.Decisions.{
  place_decision, order_decisions, rows_of, list_decisions, read_decision, read_decisions,
}
use agent_work_relay.Broker.Service.{stored_or_derived, principals_or, snapshot_from_session}

abbrev pub state_of : WorkOrder → Db → State
state_of o db = record {
  status = o.status;
  snapshot = snapshot_from_session o db;
  decisions = read_decisions (list_decisions o.work_order_id db);
}

abbrev pub state_if : Option WorkOrder → Db → Option State
state_if none db = none
state_if (some o) db = some (state_of o db)

-- The status, the snapshot and the decisions of the work order, if it is there.
unfoldable pub view : String → Db → Option State
view id db = state_if (find_order id db.orders) db

pub find_order-id :
    (id : String) (os : List WorkOrder) {o : WorkOrder}
    → find_order id os ≡ some o
    → o.work_order_id ≡ id
unfolding find_order
find_order-id id [] e = cc
find_order-id id (o ∷ rest) {o = found} e =
    ground (arith, eq_iff o.work_order_id id, find_order-id id rest {o = found})

pub find_order-set_status :
    (id : String) (status : WorkStatus) (os : List WorkOrder) {o : WorkOrder}
    → find_order id os ≡ some o
    → find_order id (set_status id status os) ≡ some (record o { status = status })
unfolding find_order set_status
find_order-set_status id status [] e = cc
find_order-set_status id status (o ∷ rest) {o = found} e =
    ground (arith, find_order-set_status id status rest {o = found})

pub find_order-set_other :
    (id other : String) (status : WorkStatus) (os : List WorkOrder)
    → other ≢ id
    → find_order other (set_status id status os) ≡ find_order other os
unfolding find_order set_status
find_order-set_other id other status [] n = refl
find_order-set_other id other status (o ∷ rest) n = ground (
  arith,
  eq_iff o.work_order_id id,
  eq_iff o.work_order_id other,
  find_order-set_other id other status rest n,
)

pub find_snapshot-put :
    (id : String) (s : LifecycleSnapshot) (rows : List SnapshotRow)
    → find_snapshot id (put_snapshot id s rows) ≡ some s
unfolding find_snapshot put_snapshot
find_snapshot-put id s [] = ground (arith, eq_refl id)
find_snapshot-put id s (row ∷ rest) = ground (arith, eq_refl id, find_snapshot-put id s rest)

pub find_snapshot-put_other :
    (id other : String) (s : LifecycleSnapshot) (rows : List SnapshotRow)
    → other ≢ id
    → find_snapshot other (put_snapshot id s rows) ≡ find_snapshot other rows
unfolding find_snapshot put_snapshot
find_snapshot-put_other id other s [] n = ground (arith, eq_iff id other)
find_snapshot-put_other id other s (row ∷ rest) n = ground (
  arith,
  eq_iff id other,
  eq_iff row.work_order_id id,
  eq_iff row.work_order_id other,
  find_snapshot-put_other id other s rest n,
)

rows_of-append :
    (id : String) (rows : List DecisionRow) (row : DecisionRow)
    → rows_of id (rows ++ row ∷ [])
      ≡ rows_of id rows ++ (if row.decision.work_order_id == id then row ∷ [] else [])
unfolding rows_of
rows_of-append id [] row = ground arith
rows_of-append id (r ∷ rest) row = ground (arith, rows_of-append id rest row)

pub rows_of-append_other :
    (id other : String) (rows : List DecisionRow) (row : DecisionRow)
    → row.decision.work_order_id ≡ id
    → other ≢ id
    → rows_of other (rows ++ row ∷ []) ≡ rows_of other rows
unfolding rows_of
rows_of-append_other id other [] row e n = ground (arith, eq_iff row.decision.work_order_id other)
rows_of-append_other id other (r ∷ rest) row e n =
    ground (arith, rows_of-append_other id other rest row e n)

-- No row of the list is later than the time.
unfoldable pub none_later : String → List DecisionRow → Bool
none_later time [] = true
none_later time (row ∷ rest) = not (text_ltb time row.decision.created_at) && none_later time rest

place_decision-last :
    (row : DecisionRow) (rows : List DecisionRow)
    → none_later row.decision.created_at rows ≡ true
    → place_decision row rows ≡ rows ++ row ∷ []
unfolding none_later place_decision
place_decision-last row [] e = refl
place_decision-last row (r ∷ rest) e = ground (arith, place_decision-last row rest)

order_decisions-append :
    (sorted rows : List DecisionRow) (row : DecisionRow)
    → order_decisions sorted (rows ++ row ∷ []) ≡ place_decision row (order_decisions sorted rows)
unfolding order_decisions
order_decisions-append sorted [] row = refl
order_decisions-append sorted (r ∷ rest) row =
    order_decisions-append (place_decision r sorted) rest row

read_decisions-append :
    (rows : List DecisionRow) (row : DecisionRow)
    → read_decisions (rows ++ row ∷ []) ≡ read_decisions rows ++ read_decision row ∷ []
unfolding read_decisions
read_decisions-append [] row = refl
read_decisions-append (r ∷ rest) row = cc (read_decisions-append rest row)

pub list_decisions-place :
    (id : String) (row : DecisionRow) (db db' : Db)
    → db'.decisions ≡ db.decisions ++ row ∷ []
    → row.decision.work_order_id ≡ id
    → list_decisions id db' ≡ place_decision row (list_decisions id db)
unfolding list_decisions
list_decisions-place id row db db' e mine =
    let here : (row.decision.work_order_id == id) ≡ true =
      ground (arith, eq_iff row.decision.work_order_id id) in
    let rows : rows_of id db'.decisions ≡ rows_of id db.decisions ++ row ∷ [] =
      rw e (rw (rows_of-append id db.decisions row) (rw here refl)) in
    rw rows (order_decisions-append [] (rows_of id db.decisions) row)

-- A decision that no stored one is later than is read last.
pub list_decisions-append :
    (id : String) (row : DecisionRow) (db db' : Db)
    → db'.decisions ≡ db.decisions ++ row ∷ []
    → row.decision.work_order_id ≡ id
    → none_later row.decision.created_at (list_decisions id db) ≡ true
    → read_decisions (list_decisions id db')
      ≡ read_decisions (list_decisions id db) ++ read_decision row ∷ []
list_decisions-append id row db db' e mine latest = rw (list_decisions-place id row db db' e mine) (
    rw (place_decision-last row (list_decisions id db) latest)
      (read_decisions-append (list_decisions id db) row))

abbrev pub has_one : List String → Bool
has_one [] = false
has_one (x ∷ xs) = true

-- The snapshot has principals of both kinds.
abbrev pub is_filled : LifecycleSnapshot → Bool
is_filled s = has_one s.decision_principals && has_one s.executor_principals

principals_or-same : (xs : List String) (x : String) → has_one xs ≡ true → principals_or xs x ≡ xs
principals_or-same [] x e = cc
principals_or-same (y ∷ ys) x e = refl

principals_or-has_one : (xs : List String) (x : String) → has_one (principals_or xs x) ≡ true
principals_or-has_one [] x = refl
principals_or-has_one (y ∷ ys) x = refl

pub stored_or_derived-is_filled :
    (o : WorkOrder) (m : Option LifecycleSnapshot) → is_filled (stored_or_derived o m) ≡ true
unfolding stored_or_derived derive_snapshot
stored_or_derived-is_filled o none = refl
stored_or_derived-is_filled o (some s) = ground (
  arith,
  principals_or-has_one s.decision_principals o.sender,
  principals_or-has_one s.executor_principals o.recipient,
)

pub stored_or_derived-same :
    (o : WorkOrder) (s : LifecycleSnapshot) → is_filled s ≡ true → stored_or_derived o (some s) ≡ s
unfolding stored_or_derived
stored_or_derived-same o s e =
    let deciders = principals_or-same s.decision_principals o.sender (ground arith) in
    let executors = principals_or-same s.executor_principals o.recipient (ground arith) in
    rw (deciders, executors) refl

pub snapshot_from_session-is_filled :
    (o : WorkOrder) (db : Db) → is_filled (snapshot_from_session o db) ≡ true
unfolding snapshot_from_session
snapshot_from_session-is_filled o db =
    stored_or_derived-is_filled o (find_snapshot o.work_order_id db.snapshots)
