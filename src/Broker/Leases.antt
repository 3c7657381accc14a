-- ===== src/Broker/Leases.antt =====
-- The lease on an execution dispatch (src/awr/storage/sqlite.py, `claim_execution_lease`).
use agent_work_relay.Prelude.{
  String, ◌≡◌, ◌≢◌, inl, inr, refl, ap, true, false, none, some, ◌==◌, arith, eq_iff, text_ltb,
}
use agent_work_relay.Broker.Records.{leased, DispatchRow, Db}
use agent_work_relay.Broker.Dispatches.{
  is_settled, is_held, find_dispatch, claim_found, claim_execution_lease,
}
use agent_work_relay.Broker.Claims.{Claims, claim_found-Claims}

-- A worker that is given a dispatch is given the stored row as it was, if that is ACKNOWLEDGED or
-- FAILED, and the tables stay as they are. Else the row was free for it, and the row that it is
-- given is stored: the old one, LEASED to the worker until the given time, with one attempt more. No
-- other row changes, and no other table.
pub claim_execution_lease-state :
    (id owner now expires other : String) (db : Db) {row : DispatchRow} {db' : Db}
    → claim_execution_lease id owner now expires db ≡ (some row, db')
    → (r : DispatchRow) × (find_dispatch id db.dispatches ≡ some r)
      × (find_dispatch id db'.dispatches ≡ some row)
      × Claims id owner now expires other db r row db'
unfolding claim_execution_lease
claim_execution_lease-state id owner now expires other db e =
    claim_found-Claims id owner now expires other db (find_dispatch id db.dispatches) refl e

leased_away :
    (id other now2 expires2 owner expires : String) (row : DispatchRow) (db : Db)
    → row.state ≡ leased
    → row.lease_owner ≡ some owner
    → row.lease_expires_at ≡ some expires
    → other ≢ owner
    → text_ltb now2 expires ≡ true
    → claim_found id other now2 expires2 (some row) db ≡ (none, db)
unfolding claim_found
leased_away id other now2 expires2 owner expires row db held holder until differ later =
    let open_ : is_settled row.state ≡ false = rw held refl in
    let foreign : (owner == other) ≡ false = ground (arith, eq_iff owner other) in
    let taken : is_held row other now2 ≡ true = rw (held, holder, until, later, foreign) refl in
    rw (open_, taken) refl

-- As long as the stored row of a dispatch is the LEASED row that the claim of a worker gave it, and
-- the time of that lease has not come, a claim by another worker gets nothing and writes nothing. A
-- row that has left LEASED is not covered.
pub claim_execution_lease-excludes :
    (id owner other now now2 expires expires2 : String) (db later : Db) {row : DispatchRow}
    {db' : Db}
    → claim_execution_lease id owner now expires db ≡ (some row, db')
    → row.state ≡ leased
    → find_dispatch id later.dispatches ≡ some row
    → other ≢ owner
    → text_ltb now2 expires ≡ true
    → claim_execution_lease id other now2 expires2 later ≡ (none, later)
unfolding claim_execution_lease
claim_execution_lease-excludes id owner other now now2 expires expires2 db later {row} {db'} e held
      still differ until =
    let (r, found, stored, claims) =
      claim_found-Claims id owner now expires other db (find_dispatch id db.dispatches) refl e in
    rw still (elim claims [
      | inl settled ↦ ground (arith, settled.0, settled.1)
      | inr leases ↦
          let row_is = leases.2 in
          leased_away id other now2 expires2 owner expires row later held
            (ap (λ x. x.lease_owner) row_is) (ap (λ x. x.lease_expires_at) row_is) differ until
    ])
