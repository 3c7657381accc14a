-- ===== src/Broker/Dispatches.antt =====
-- src/awr/storage/sqlite.py: the table of execution dispatches, and the lease on a dispatch.
use agent_work_relay.Prelude.{
  ◌+◌, String, Bool, true, false, not, ◌&&◌, ◌||◌, ◌==◌, Option, none, some, List, [], ◌∷◌, ◌++◌,
  ok, ◌>>◌, reject, nat_eq, ltb, option_eq, text_ltb, if◌then◌else◌,
}
use agent_work_relay.Broker.Records.{
  Outcome, integrity_error, DispatchState, pending, leased, provider_accepted, acknowledged,
  reconciliation_required, failed, DispatchRow, Db,
}

-- `state.value`
abbrev pub state_value : DispatchState → String
state_value pending = "PENDING"
state_value leased = "LEASED"
state_value provider_accepted = "PROVIDER_ACCEPTED"
state_value acknowledged = "ACKNOWLEDGED"
state_value reconciliation_required = "RECONCILIATION_REQUIRED"
state_value failed = "FAILED"

-- `state in {"ACKNOWLEDGED", "FAILED"}`
abbrev pub is_settled : DispatchState → Bool
is_settled acknowledged = true
is_settled failed = true
is_settled _ = false

abbrev pub is_leased : DispatchState → Bool
is_leased leased = true
is_leased _ = false

unfoldable pub find_dispatch : String → List DispatchRow → Option DispatchRow
find_dispatch id [] = none
find_dispatch id (row ∷ rest) = if row.dispatch_id == id then some row else find_dispatch id rest

-- A row that the primary key or a unique index does not admit beside `old`.
abbrev dispatch_clashes : DispatchRow → DispatchRow → Bool
dispatch_clashes row old =
    old.dispatch_id == row.dispatch_id
    || old.provider_idempotency_key == row.provider_idempotency_key
    || (old.work_order_id == row.work_order_id && nat_eq old.attempt row.attempt)

unfoldable pub any_dispatch_clash : DispatchRow → List DispatchRow → Bool
any_dispatch_clash row [] = false
any_dispatch_clash row (old ∷ rest) = dispatch_clashes row old || any_dispatch_clash row rest

unfoldable pub put_execution_dispatch : DispatchRow → Db → Outcome Db
put_execution_dispatch row db = do
  reject (any_dispatch_clash row db.dispatches) integrity_error
  ok (record db { dispatches = db.dispatches ++ row ∷ [] })

unfoldable pub place_dispatch : DispatchRow → List DispatchRow → List DispatchRow
place_dispatch row [] = row ∷ []
place_dispatch row (r ∷ rest) =
    if ltb row.attempt r.attempt then row ∷ r ∷ rest else r ∷ place_dispatch row rest

unfoldable pub order_dispatches : List DispatchRow → List DispatchRow → List DispatchRow
order_dispatches sorted [] = sorted
order_dispatches sorted (row ∷ rest) = order_dispatches (place_dispatch row sorted) rest

unfoldable pub dispatches_of : String → List DispatchRow → List DispatchRow
dispatches_of id [] = []
dispatches_of id (row ∷ rest) =
    let others = dispatches_of id rest in if row.work_order_id == id then row ∷ others else others

-- `SELECT * FROM execution_dispatches WHERE work_order_id = ? ORDER BY attempt`
unfoldable pub list_dispatches : String → Db → List DispatchRow
list_dispatches id db = order_dispatches [] (dispatches_of id db.dispatches)

-- `UPDATE execution_dispatches SET ... WHERE work_order_id = ? AND dispatch_id = ?`: the columns that
-- the statement sets, of the given row.
unfoldable pub update_rows : DispatchRow → List DispatchRow → List DispatchRow
update_rows new [] = []
update_rows new (old ∷ rest) =
    (if old.work_order_id == new.work_order_id && old.dispatch_id == new.dispatch_id
      then record old {
        state = new.state;
        attempt_count = new.attempt_count;
        lease_owner = new.lease_owner;
        lease_expires_at = new.lease_expires_at;
        provider_agent_id = new.provider_agent_id;
        provider_run_id = new.provider_run_id;
        last_failure_code = new.last_failure_code;
        receipt = new.receipt;
        updated_at = new.updated_at;
      }
      else old)
    ∷ update_rows new rest

abbrev pub update_execution_dispatch : DispatchRow → Db → Db
update_execution_dispatch row db = record db { dispatches = update_rows row db.dispatches }

-- `isinstance(lease_expires, str) and lease_expires > now`, by the text
abbrev pub is_later : String → Option String → Bool
is_later now none = false
is_later now (some expires) = text_ltb now expires

-- Another owner's lease that has not run out.
abbrev pub is_held : DispatchRow → String → String → Bool
is_held row owner now =
    is_leased row.state
    && is_later now row.lease_expires_at
    && not (option_eq row.lease_owner (some owner))

unfoldable pub lease_row : String → String → String → DispatchRow → DispatchRow
lease_row owner now expires row = record row {
  state = leased;
  lease_owner = some owner;
  lease_expires_at = some expires;
  attempt_count = row.attempt_count + 1;
  updated_at = now;
}

-- The UPDATE of the lease, which goes by the dispatch ID alone.
unfoldable pub lease_rows : String → String → String → String → List DispatchRow → List DispatchRow
lease_rows id owner now expires [] = []
lease_rows id owner now expires (row ∷ rest) =
    (if row.dispatch_id == id then lease_row owner now expires row else row)
    ∷ lease_rows id owner now expires rest

unfoldable pub claim_found :
    String → String → String → String → Option DispatchRow → Db → Option DispatchRow × Db
claim_found id owner now expires none db = (none, db)
claim_found id owner now expires (some row) db =
    if is_settled row.state then (some row, db) else if is_held row owner now then (none, db) else (
      some (lease_row owner now expires row),
      record db { dispatches = lease_rows id owner now expires db.dispatches },
    )

-- `claim_execution_lease`; `expires` is `(fromisoformat(now) + timedelta(ttl)).isoformat()`.
unfoldable pub claim_execution_lease :
    String → String → String → String → Db → Option DispatchRow × Db
claim_execution_lease id owner now expires db =
    claim_found id owner now expires (find_dispatch id db.dispatches) db
