-- ===== src/Broker/Readers.antt =====
-- src/awr/service.py: what the broker shows of a work order, and to whom.
use agent_work_relay.Prelude.{
  ◌≡◌, ◌⊎◌, refl, subst, String, true, Option, none, some, List, [], ◌∷◌, ◌++◌, ok, err, ◌>>=◌,
  ◌>>◌, contains, arith, eq_iff, bind-eq-ok, ok-injective, text_ltb, if◌then◌else◌,
}
use agent_work_relay.Host.{Value, Fields, list, Items, nil, item, dict, get}
use agent_work_relay.Contracts.{WorkStatus, WorkOrder, LedgerEntry}
use agent_work_relay.Lifecycle.Decisions.{StoredDecision}
use agent_work_relay.Lifecycle.Pending.{Action, pending_actions}
use agent_work_relay.Lifecycle.Kernel.Snapshot.{LifecycleSnapshot}
use agent_work_relay.Broker.Records.{Outcome, validation_error, Db, Call}
use agent_work_relay.Broker.Store.{find_order, list_ledger, latest_from}
use agent_work_relay.Broker.Decisions.{list_decisions, read_decisions}
use agent_work_relay.Broker.Service.{resolve_actor, require_work_order, snapshot_from_session}
use agent_work_relay.Broker.Submitted.{require_work_order_found}
use agent_work_relay.Broker.Intents.{authorize_reader}
use agent_work_relay.Broker.Plans.{PlanPacket, plan_from_ledger}
use agent_work_relay.Broker.Planning.{commit_existing_plan}

-- `get_work_order`: the work order, its snapshot, its pending actions and its decisions.
pub record Projection : Type 0 where
  pub order : WorkOrder
  pub lifecycle : LifecycleSnapshot
  pub pending : List Action
  pub decisions : List StoredDecision

unfoldable pub get_work_order : Call → String → Option String → Db → Outcome Projection
get_work_order c id actor db = do
  o ← require_work_order id db
  resolved ← resolve_actor c actor
  authorize_reader resolved o (snapshot_from_session o db)
  ok (record {
    order = o;
    lifecycle = snapshot_from_session o db;
    pending = pending_actions o.status;
    decisions = read_decisions (list_decisions id db);
  })

-- `_authorize_projection`; a call without an actor is not checked.
unfoldable pub authorize_projection : Call → String → Option String → Db → Outcome WorkOrder
authorize_projection c id none db = require_work_order id db
authorize_projection c id (some actor) db = do
  o ← require_work_order id db
  resolved ← resolve_actor c (some actor)
  authorize_reader resolved o (snapshot_from_session o db)
  ok o

-- `[item for item in raw if isinstance(item, dict)]`
unfoldable pub dicts_in : Items → List Fields
dicts_in nil = []
dicts_in (item (dict d) rest) = d ∷ dicts_in rest
dicts_in (item v rest) = dicts_in rest

abbrev dicts_of : Value → List Fields
dicts_of (list items) = dicts_in items
dicts_of v = []

abbrev references_of : Option LedgerEntry → List Fields
references_of none = []
references_of (some e) = dicts_of (get e.payload "references")

unfoldable pub get_work_order_artifacts : Call → String → Option String → Db → Outcome (List Fields)
get_work_order_artifacts c id actor db = do
  o ← authorize_projection c id actor db
  ok (references_of (latest_from (list_ledger id db) "bundle.validated"))

unfoldable pub get_work_order_timeline :
    Call → String → Option String → Db → Outcome (List LedgerEntry)
get_work_order_timeline c id actor db = do
  o ← authorize_projection c id actor db
  ok (list_ledger id db)

abbrev pub plan_or : Option PlanPacket → Db → Outcome (PlanPacket × Db)
plan_or none db = err validation_error
plan_or (some p) db = ok (p, db)

unfoldable pub get_plan : Call → String → Option String → Db → Outcome (PlanPacket × Db)
get_plan c id actor db = do
  o ← authorize_projection c id actor db
  existing ← plan_from_ledger c.host id db
  elim existing [
    | some p ↦ ok (p, db)
    | none ↦ do committed ← commit_existing_plan c o db; plan_or committed.0 committed.1
  ]

-- A pending action with its work order and status.
pub record PendingItem : Type 0 where
  pub action : Action
  pub work_order_id : String
  pub status : WorkStatus

unfoldable pub items_of : WorkOrder → List Action → List PendingItem
items_of o [] = []
items_of o (a ∷ rest) =
    record { action = a; work_order_id = o.work_order_id; status = o.status } ∷ items_of o rest

-- What one turn of the loop adds: a work order that the actor may not read is passed over.
unfoldable pub readable_items : Outcome Projection → Outcome (List PendingItem)
readable_items (ok p) = ok (items_of p.order p.pending)
readable_items (err validation_error) = ok []
readable_items (err e) = err e

-- The loop over the work orders.
unfoldable pub pending_of : Call → String → Db → List WorkOrder → Outcome (List PendingItem)
pending_of c actor db [] = ok []
pending_of c actor db (o ∷ rest) = do
  shown ← readable_items (get_work_order c o.work_order_id (some actor) db)
  others ← pending_of c actor db rest
  ok (shown ++ others)

unfoldable pub place_order : WorkOrder → List WorkOrder → List WorkOrder
place_order o [] = o ∷ []
place_order o (x ∷ rest) =
    if text_ltb o.created_at x.created_at then o ∷ x ∷ rest else x ∷ place_order o rest

unfoldable pub order_orders : List WorkOrder → List WorkOrder → List WorkOrder
order_orders sorted [] = sorted
order_orders sorted (o ∷ rest) = order_orders (place_order o sorted) rest

-- `SELECT * FROM work_orders ORDER BY created_at`
unfoldable pub list_work_orders : Db → List WorkOrder
list_work_orders db = order_orders [] db.orders

unfoldable pub list_pending_actions :
    Call → Option String → Option String → Db → Outcome (List PendingItem)
list_pending_actions c (some id) actor db = do
  p ← get_work_order c id actor db
  ok (items_of p.order p.pending)
list_pending_actions c none actor db = do
  resolved ← resolve_actor c actor
  pending_of c resolved db (list_work_orders db)

-- The actor is a participant, the sender or the recipient of the work order.
abbrev pub IsReader : String → WorkOrder → LifecycleSnapshot → Type 0
IsReader actor o s =
    (contains actor s.participants ≡ true) ⊎ (actor ≡ o.sender) ⊎ (actor ≡ o.recipient)

authorize_reader-IsReader :
    (actor : String) (o : WorkOrder) (s : LifecycleSnapshot)
    → authorize_reader actor o s ≡ ok tt
    → IsReader actor o s
unfolding authorize_reader
authorize_reader-IsReader actor o s e =
    ground (arith, eq_iff actor o.sender, eq_iff actor o.recipient)

-- What `get_work_order` shows is the stored work order of that ID with its snapshot, decisions and
-- pending actions, and it is shown only to a participant, the sender or the recipient.
pub get_work_order-IsReader :
    (c : Call) (id : String) (actor : Option String) (db : Db) {p : Projection}
    → get_work_order c id actor db ≡ ok p
    → (reader : String) × (resolve_actor c actor ≡ ok reader)
      × IsReader reader p.order p.lifecycle
      × (find_order id db.orders ≡ some p.order)
      × (p.lifecycle ≡ snapshot_from_session p.order db)
      × (p.decisions ≡ read_decisions (list_decisions id db))
      × (p.pending ≡ pending_actions p.order.status)
unfolding get_work_order
get_work_order-IsReader c id actor db {p} e =
    let (o, a, e1) = bind-eq-ok (require_work_order id db) _ e in
    let (reader, b, e2) = bind-eq-ok (resolve_actor c actor) _ e1 in
    let (allowed, d, e3) =
      bind-eq-ok (authorize_reader reader o (snapshot_from_session o db)) _ e2 in
    let shown = authorize_reader-IsReader reader o (snapshot_from_session o db) d in
    let found = require_work_order_found id db a in
    let same = ok-injective e3 in
    (
      reader,
      b,
      subst (λ x. IsReader reader x.order x.lifecycle) same shown,
      subst (λ x. find_order id db.orders ≡ some x.order) same found,
      subst (λ x. x.lifecycle ≡ snapshot_from_session x.order db) same refl,
      subst (λ x. x.decisions ≡ read_decisions (list_decisions id db)) same refl,
      subst (λ x. x.pending ≡ pending_actions x.order.status) same refl,
    )
