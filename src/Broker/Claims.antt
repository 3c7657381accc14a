-- ===== src/Broker/Claims.antt =====
-- What a claim of the lease on a dispatch reads and writes (src/awr/storage/sqlite.py).
use agent_work_relay.Prelude.{
  String, ◌+◌, ◌≡◌, ◌≢◌, ◌⊎◌, inl, inr, refl, ap, sym, subst, true, false, Option, none, some, List,
  [], ◌∷◌, ◌==◌, arith, eq_iff, ◌∙◌, not, ◌&&◌, option_eq, text_ltb, Bool-cases, if◌then◌else◌,
}
use agent_work_relay.Broker.Records.{
  DispatchState, pending, leased, provider_accepted, acknowledged, reconciliation_required, failed,
  DispatchRow, Db,
}
use agent_work_relay.Broker.Dispatches.{
  is_settled, is_leased, is_later, is_held, find_dispatch, lease_row, lease_rows, claim_found,
}

-- The row that is found under an ID has this ID.
find_dispatch-id :
    (id : String) (rows : List DispatchRow) {row : DispatchRow}
    → find_dispatch id rows ≡ some row
    → row.dispatch_id ≡ id
unfolding find_dispatch
find_dispatch-id id [] e = cc
find_dispatch-id id (r ∷ rest) {row = found} e =
    ground (arith, eq_iff r.dispatch_id id, find_dispatch-id id rest {row = found})

find_dispatch-lease_rows :
    (id owner now expires : String) (rows : List DispatchRow) {row : DispatchRow}
    → find_dispatch id rows ≡ some row
    → find_dispatch id (lease_rows id owner now expires rows)
      ≡ some (lease_row owner now expires row)
unfolding find_dispatch lease_rows lease_row
find_dispatch-lease_rows id owner now expires [] e = cc
find_dispatch-lease_rows id owner now expires (r ∷ rest) {row = found} e =
    ground (arith, find_dispatch-lease_rows id owner now expires rest {row = found})

find_dispatch-lease_rows_other :
    (id other owner now expires : String) (rows : List DispatchRow)
    → (id == other) ≡ false
    → find_dispatch other (lease_rows id owner now expires rows) ≡ find_dispatch other rows
unfolding find_dispatch lease_rows lease_row
find_dispatch-lease_rows_other id other owner now expires [] n = refl
find_dispatch-lease_rows_other id other owner now expires (r ∷ rest) n = ground (
  arith,
  eq_iff r.dispatch_id id,
  eq_iff r.dispatch_id other,
  eq_iff id other,
  find_dispatch-lease_rows_other id other owner now expires rest,
)

-- The row holds no lease, or the worker's own, or one that has run out, or one without a time.
abbrev pub IsFree : DispatchState → Option String → Option String → String → String → Type 0
IsFree state holder until owner now =
    (state ≢ leased)
    ⊎ (holder ≡ some owner)
    ⊎ (until ≡ none)
    ⊎ (end : String) × (until ≡ some end) × (text_ltb now end ≡ false)

abbrev pub IsSettled : DispatchState → Type 0
IsSettled state = (state ≡ acknowledged) ⊎ (state ≡ failed)

is_settled-IsSettled : (state : DispatchState) → is_settled state ≡ true → IsSettled state
is_settled-IsSettled acknowledged e = inl refl
is_settled-IsSettled failed e = inr refl
is_settled-IsSettled pending e = ground arith
is_settled-IsSettled leased e = ground arith
is_settled-IsSettled provider_accepted e = ground arith
is_settled-IsSettled reconciliation_required e = ground arith

is_settled-not_IsSettled : (state : DispatchState) → is_settled state ≡ false → ¬ IsSettled state
is_settled-not_IsSettled state e (inl same) = ground arith
is_settled-not_IsSettled state e (inr same) = ground arith

unheld-IsFree :
    (state : DispatchState) (holder until : Option String) (owner now : String)
    → (is_leased state && is_later now until && not (option_eq holder (some owner))) ≡ false
    → IsFree state holder until owner now
unheld-IsFree leased holder none owner now e = inr (inr (inl refl))
unheld-IsFree leased none (some end) owner now e = inr (inr (inr (end, refl, ground arith)))
unheld-IsFree leased (some o) (some end) owner now e = elim (Bool-cases (o == owner)) [
  | inl own ↦ inr (inl (ap some ((eq_iff o owner).0 own)))
  | inr foreign ↦ inr (inr (inr (end, refl, ground arith)))
]
unheld-IsFree pending holder until owner now e = inl (λ p. ground arith)
unheld-IsFree provider_accepted holder until owner now e = inl (λ p. ground arith)
unheld-IsFree acknowledged holder until owner now e = inl (λ p. ground arith)
unheld-IsFree reconciliation_required holder until owner now e = inl (λ p. ground arith)
unheld-IsFree failed holder until owner now e = inl (λ p. ground arith)

some_row : {r row : DispatchRow} → ◌≡◌ {A = Option DispatchRow} (some r) (some row) → r ≡ row
some_row e = cc

-- The lease that the UPDATE writes.
abbrev pub leased_to : String → String → String → DispatchRow → DispatchRow
leased_to owner now expires row = record row {
  state = leased;
  lease_owner = some owner;
  lease_expires_at = some expires;
  attempt_count = row.attempt_count + 1;
  updated_at = now;
}

-- What a worker that is given a dispatch leaves: the settled row as it was, or its lease on a row
-- that was free, with every other row and table as before.
abbrev pub Claims :
    String → String → String → String → String → Db → DispatchRow → DispatchRow → Db → Type 0
Claims id owner now expires other db r row db' =
    IsSettled r.state × (row ≡ r) × (db' ≡ db)
    ⊎ (¬ IsSettled r.state)
      × IsFree r.state r.lease_owner r.lease_expires_at owner now
      × (row ≡ leased_to owner now expires r)
      × (find_dispatch other db'.dispatches
          ≡ (if id == other then some row else find_dispatch other db.dispatches))
      × (db' ≡ record db { dispatches = db'.dispatches })

leased_frame :
    (id other owner now expires : String) (rows : List DispatchRow) {r : DispatchRow}
    → find_dispatch id rows ≡ some r
    → find_dispatch other (lease_rows id owner now expires rows)
      ≡ (if id == other then some (lease_row owner now expires r) else find_dispatch other rows)
leased_frame id other owner now expires rows {r} found = elim (Bool-cases (id == other)) [
  | inl own ↦
      let same : id ≡ other = (eq_iff id other).0 own in
      rw own (
        subst
          (λ x.
            find_dispatch x (lease_rows id owner now expires rows)
            ≡ some (lease_row owner now expires r))
          same (find_dispatch-lease_rows id owner now expires rows found))
  | inr foreign ↦
      rw foreign (find_dispatch-lease_rows_other id other owner now expires rows foreign)
]

leased-Claims :
    (id owner now expires other : String) (db : Db) (r : DispatchRow)
    → find_dispatch id db.dispatches ≡ some r
    → is_settled r.state ≡ false
    → is_held r owner now ≡ false
    → Claims id owner now expires other db r
        (lease_row owner now expires r)
        (record db { dispatches = lease_rows id owner now expires db.dispatches })
unfolding lease_row
leased-Claims id owner now expires other db r found open_ free = inr (
  is_settled-not_IsSettled r.state open_,
  unheld-IsFree r.state r.lease_owner r.lease_expires_at owner now free,
  refl,
  leased_frame id other owner now expires db.dispatches found,
  refl,
)

pub claim_found-Claims :
    (id owner now expires other : String) (db : Db) (stored : Option DispatchRow)
    {row : DispatchRow} {db' : Db}
    → find_dispatch id db.dispatches ≡ stored
    → claim_found id owner now expires stored db ≡ (some row, db')
    → (r : DispatchRow) × (stored ≡ some r)
      × (find_dispatch id db'.dispatches ≡ some row)
      × Claims id owner now expires other db r row db'
unfolding claim_found lease_row
claim_found-Claims id owner now expires other db none found e = ground (arith, ap (λ x. x.0) e)
claim_found-Claims id owner now expires other db (some r) {row} {db'} found e =
    elim (Bool-cases (is_settled r.state)) [
      | inl settled ↦
          let same : ◌≡◌ {A = Option DispatchRow × Db} (some r, db) (some row, db') =
            rw settled at e in
          let row_same = some_row (ap (λ x. x.0) same) in
          let db_same : db ≡ db' = ap (λ x. x.1) same in
          (
            r,
            refl,
            rw (← db_same) (found ∙ ap some row_same),
            inl (is_settled-IsSettled r.state settled, sym row_same, sym db_same),
          )
      | inr open_ ↦ elim (Bool-cases (is_held r owner now)) [
        | inl held ↦
            let same : ◌≡◌ {A = Option DispatchRow × Db} (none, db) (some row, db') =
              rw (open_, held) at e in
            let nothing : ◌≡◌ {A = Option DispatchRow} none (some row) = ap (λ x. x.0) same in cc
        | inr free ↦
            let new = lease_row owner now expires r in
            let rows = lease_rows id owner now expires db.dispatches in
            let same : ◌≡◌ {A = Option DispatchRow × Db} (some new, record db { dispatches = rows })
                (some row, db') =
              rw (open_, free) at e in
            let row_same = some_row (ap (λ x. x.0) same) in
            let db_same : record db { dispatches = rows } ≡ db' = ap (λ x. x.1) same in
            let claims = leased-Claims id owner now expires other db r found open_ free in
            let stored = find_dispatch-lease_rows id owner now expires db.dispatches found in
            (
              r,
              refl,
              subst (λ x. find_dispatch id x.dispatches ≡ some row) db_same
                  (stored ∙ ap some row_same),
              subst (λ x. Claims id owner now expires other db r row x) db_same
                  (subst
                    (λ x.
                      Claims id owner now expires other db r x (record db { dispatches = rows }))
                    row_same claims),
            )
      ]
    ]
