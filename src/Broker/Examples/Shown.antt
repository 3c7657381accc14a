-- ===== src/Broker/Examples/Shown.antt =====
-- The work order that its sender reads.
use agent_work_relay.Prelude.{String, ◌≡◌, refl, some, ok, contains}
use agent_work_relay.Contracts.{planning}
use agent_work_relay.Lifecycle.Pending.{pending_actions}
use agent_work_relay.Lifecycle.Kernel.Snapshot.{derive_snapshot}
use agent_work_relay.Broker.Store.{find_order, find_snapshot}
use agent_work_relay.Broker.Decisions.{list_decisions, read_decisions}
use agent_work_relay.Broker.Service.{
  resolve_actor, require_work_order, stored_or_derived, snapshot_from_session,
}
use agent_work_relay.Broker.Intents.{authorize_reader}
use agent_work_relay.Broker.Readers.{Projection, IsReader, get_work_order, get_work_order-IsReader}
use agent_work_relay.Broker.Examples.{order, call, db}

abbrev shown : Projection
shown = record {
  order = order;
  lifecycle = snapshot_from_session order db;
  pending = pending_actions planning;
  decisions = read_decisions (list_decisions "w" db);
}

order_shown : get_work_order call "w" (some "ann") db ≡ ok shown
unfolding get_work_order require_work_order find_order resolve_actor authorize_reader
    snapshot_from_session stored_or_derived find_snapshot derive_snapshot contains
order_shown = refl

get_work_order-IsReader_example :
    (reader : String) × (resolve_actor call (some "ann") ≡ ok reader)
    × IsReader reader order (snapshot_from_session order db)
    × (find_order "w" db.orders ≡ some order)
    × (snapshot_from_session order db ≡ snapshot_from_session order db)
    × (read_decisions (list_decisions "w" db) ≡ read_decisions (list_decisions "w" db))
    × (pending_actions planning ≡ pending_actions order.status)
get_work_order-IsReader_example = get_work_order-IsReader call "w" (some "ann") db order_shown
