-- ===== src/Broker/Store.antt =====
-- src/awr/storage/sqlite.py: the reads and writes of work orders, the ledger, responses, decisions and
-- snapshots. A transaction that raises is rolled back, so an error carries no tables.
use agent_work_relay.Prelude.{
  ℕ, ◌+◌, String, Bool, true, false, ◌&&◌, ◌||◌, ◌==◌, Option, none, some, List, [], ◌∷◌, ◌++◌, ok,
  ◌>>=◌, ◌>>◌, require, reject, keep, last, concat, if◌then◌else◌,
}
use agent_work_relay.Host.{Fields, end, field, str}
use agent_work_relay.Contracts.{WorkStatus, WorkOrder, LedgerEntry}
use agent_work_relay.Lifecycle.Kernel.Snapshot.{LifecycleSnapshot}
use agent_work_relay.Broker.Records.{
  Outcome, integrity_error, key_error, ResponseRow, SnapshotRow, Db, Call,
}

-- `SELECT * FROM work_orders WHERE work_order_id = ?`
unfoldable pub find_order : String → List WorkOrder → Option WorkOrder
find_order id [] = none
find_order id (o ∷ rest) = if o.work_order_id == id then some o else find_order id rest

abbrev pub is_found {ℓ} : {A : Type ℓ} → Option A → Bool
is_found none = false
is_found (some a) = true

-- `UPDATE work_orders SET status = ? WHERE work_order_id = ?`
unfoldable pub set_status : String → WorkStatus → List WorkOrder → List WorkOrder
set_status id status [] = []
set_status id status (o ∷ rest) =
    (if o.work_order_id == id then record o { status = status } else o) ∷ set_status id status rest

unfoldable pub update_status : String → WorkStatus → Db → Outcome Db
update_status id status db = do
  require (is_found (find_order id db.orders)) key_error
  ok (record db { orders = set_status id status db.orders })

-- The events of which the partial unique indexes admit one for each work order.
unfoldable pub is_single : String → Bool
is_single event =
    event == "work_order.routed"
    || event == "executor.acknowledged"
    || event == "plan.received"
    || event == "plan.available"
    || event == "bundle.validated"

-- A ledger row that an index does not admit beside `old`.
unfoldable pub clashes : LedgerEntry → LedgerEntry → Bool
clashes entry old =
    old.event_id == entry.event_id
    || (old.work_order_id == entry.work_order_id
        && old.event_type == entry.event_type
        && is_single entry.event_type)

unfoldable pub any_clash : LedgerEntry → List LedgerEntry → Bool
any_clash entry [] = false
any_clash entry (old ∷ rest) = clashes entry old || any_clash entry rest

unfoldable pub append_ledger :
    Call → String → String → String → String → Fields → Db → Outcome (LedgerEntry × Db)
append_ledger c id event actor counterparty payload db =
    let entry : LedgerEntry = record {
      sequence = db.last_sequence + 1;
      event_id = c.event_id (db.last_sequence + 1);
      work_order_id = id;
      event_type = event;
      actor = actor;
      counterparty = counterparty;
      payload = payload;
      created_at = c.row_time;
    } in
    do
      require (is_found (find_order id db.orders)) integrity_error
      reject (any_clash entry db.ledger) integrity_error
      ok (
        entry,
        record db { ledger = db.ledger ++ entry ∷ []; last_sequence = db.last_sequence + 1 },
      )

-- `list_ledger(work_order_id)`; rows stand in the order of their numbers.
unfoldable pub list_ledger : String → Db → List LedgerEntry
list_ledger id db = keep (λ e. e.work_order_id == id) db.ledger

-- `_latest_from`
unfoldable pub latest_from : List LedgerEntry → String → Option LedgerEntry
latest_from entries event = last (keep (λ e. e.event_type == event) entries)

unfoldable pub find_key : String → List WorkOrder → Option WorkOrder
find_key key [] = none
find_key key (o ∷ rest) = if o.idempotency_key == key then some o else find_key key rest

abbrev pub sequence_of : Option LedgerEntry → ℕ
sequence_of none = 0
sequence_of (some e) = e.sequence

abbrev pub accepted_payload : WorkOrder → Fields
accepted_payload o = field "content_sha256" (str o.content_sha256) (
    field "wrapper" (str (concat o.wrapper_id (concat "@" o.wrapper_version)))
      (elim o.bundle_sha256 [ none ↦ end | some b ↦ field "bundle_sha256" (str b) end ]))

insert_order : Call → WorkOrder → Db → Outcome (WorkOrder × Bool × ℕ × Db)
insert_order c o db = do
  reject (is_found (find_order o.work_order_id db.orders)) integrity_error
  r ←
      append_ledger c o.work_order_id "work_order.accepted" o.sender "broker:awr"
        (accepted_payload o) (record db { orders = db.orders ++ o ∷ [] })
  ok (o, true, r.0.sequence, r.1)

keep_order : Call → WorkOrder → Option WorkOrder → Db → Outcome (WorkOrder × Bool × ℕ × Db)
unfolding insert_order
keep_order c o none db = insert_order c o db
keep_order c o (some existing) db =
    ok (existing, false, sequence_of (last (list_ledger existing.work_order_id db)), db)

-- The order that stands under the key, whether it is new, and its latest row in the ledger.
unfoldable pub create_work_order : Call → WorkOrder → Db → Outcome (WorkOrder × Bool × ℕ × Db)
unfolding keep_order
create_work_order c o db = keep_order c o (find_key o.idempotency_key db.orders) db

-- A row that the primary key or the unique index does not admit beside `old`.
abbrev response_clashes : ResponseRow → ResponseRow → Bool
response_clashes row old =
    old.packet_id == row.packet_id
    || (old.actor == row.actor
        && old.response_type == row.response_type
        && old.idempotency_key == row.idempotency_key)

unfoldable pub any_response_clash : ResponseRow → List ResponseRow → Bool
any_response_clash row [] = false
any_response_clash row (old ∷ rest) = response_clashes row old || any_response_clash row rest

unfoldable pub put_response_packet : ResponseRow → Db → Outcome Db
put_response_packet row db = do
  reject (any_response_clash row db.responses) integrity_error
  ok (record db { responses = db.responses ++ row ∷ [] })

unfoldable pub get_response :
    String → String → String → String → List ResponseRow → Option ResponseRow
get_response id actor response_type key [] = none
get_response id actor response_type key (row ∷ rest) =
    if row.work_order_id == id
      && row.actor == actor
      && row.response_type == response_type
      && row.idempotency_key == key
    then some row
    else get_response id actor response_type key rest

unfoldable pub find_snapshot : String → List SnapshotRow → Option LifecycleSnapshot
find_snapshot id [] = none
find_snapshot id (row ∷ rest) =
    if row.work_order_id == id then some row.snapshot else find_snapshot id rest

unfoldable pub put_snapshot : String → LifecycleSnapshot → List SnapshotRow → List SnapshotRow
put_snapshot id s [] = record { work_order_id = id; snapshot = s } ∷ []
put_snapshot id s (row ∷ rest) =
    if row.work_order_id == id
    then record { work_order_id = id; snapshot = s } ∷ rest
    else row ∷ put_snapshot id s rest

abbrev pub put_lifecycle : String → LifecycleSnapshot → Db → Db
put_lifecycle id s db = record db { snapshots = put_snapshot id s db.snapshots }
