-- ===== src/Broker/Journal.antt =====
-- The ledger of src/awr/storage/sqlite.py: its numbers and its unique rows.
use agent_work_relay.Prelude.{
  ℕ, ◌+◌, ◌≤◌, ◌<◌, String, ◌≡◌, ◌≢◌, ◌⊎◌, inl, inr, refl, subst, false, List, [], ◌∷◌, ◌++◌, ok,
  eq_iff, ◌==◌, Bool-cases, arith, require-eq-ok, reject-eq-ok, ok-injective,
}
use agent_work_relay.Host.{Fields}
use agent_work_relay.Contracts.{LedgerEntry}
use agent_work_relay.Broker.Records.{integrity_error, Db, Call}
use agent_work_relay.Broker.Store.{
  find_order, is_found, is_single, clashes, any_clash, append_ledger,
}

-- A type of which a work order may have several rows.
abbrev pub IsRepeatable : String → Type 0
IsRepeatable event =
    (event ≢ "work_order.routed")
    × (event ≢ "executor.acknowledged")
    × (event ≢ "plan.received")
    × (event ≢ "plan.available")
    × (event ≢ "bundle.validated")

-- Two rows have different event IDs, and they are of different work orders, of different types, or of a
-- type that may repeat.
abbrev pub IsApart : LedgerEntry → LedgerEntry → Type 0
IsApart a b =
    (a.event_id ≢ b.event_id)
    × ((a.work_order_id ≢ b.work_order_id)
        ⊎ (a.event_type ≢ b.event_type)
        ⊎ IsRepeatable b.event_type)

abbrev pub IsAlone : LedgerEntry → List LedgerEntry → Type 0
IsAlone a [] = Unit {0}
IsAlone a (b ∷ rest) = IsApart a b × IsAlone a rest

-- The numbers of the rows grow, from above the first bound to the second, and each row is apart from
-- the later ones.
abbrev pub IsJournal : ℕ → List LedgerEntry → ℕ → Type 0
IsJournal bound [] top = bound ≤ top
IsJournal bound (e ∷ rest) top =
    (bound < e.sequence) × IsAlone e rest × IsJournal e.sequence rest top

other_text : (s t : String) → (s == t) ≡ false → s ≢ t
other_text s t e p = ground (arith, eq_iff s t)

not_single : (event : String) → is_single event ≡ false → IsRepeatable event
unfolding is_single
not_single event e = (
  other_text event "work_order.routed" (ground arith),
  other_text event "executor.acknowledged" (ground arith),
  other_text event "plan.received" (ground arith),
  other_text event "plan.available" (ground arith),
  other_text event "bundle.validated" (ground arith),
)

clashes-IsApart : (new old : LedgerEntry) → clashes new old ≡ false → IsApart old new
unfolding clashes
clashes-IsApart new old e =
    let ids : (old.event_id == new.event_id) ≡ false = ground arith in
    (
      other_text old.event_id new.event_id ids,
      elim (Bool-cases (old.work_order_id == new.work_order_id)) [
        | inr foreign ↦ inl (other_text old.work_order_id new.work_order_id foreign)
        | inl own ↦ elim (Bool-cases (old.event_type == new.event_type)) [
          | inr differ ↦ inr (inl (other_text old.event_type new.event_type differ))
          | inl same ↦ inr (inr (not_single new.event_type (ground arith)))
        ]
      ],
    )

IsAlone-append :
    (old e : LedgerEntry) (rows : List LedgerEntry)
    → IsAlone old rows
    → IsApart old e
    → IsAlone old (rows ++ e ∷ [])
IsAlone-append old e [] a b = (b, tt)
IsAlone-append old e (r ∷ rest) (first, others) b = (first, IsAlone-append old e rest others b)

IsJournal-append :
    (bound top : ℕ) (rows : List LedgerEntry) (e : LedgerEntry)
    → IsJournal bound rows top
    → any_clash e rows ≡ false
    → e.sequence ≡ top + 1
    → IsJournal bound (rows ++ e ∷ []) (top + 1)
unfolding any_clash
IsJournal-append bound top [] e a b c = (omega arith, tt, omega arith)
IsJournal-append bound top (r ∷ rest) e (above, alone, others) b c =
    let free : clashes e r ≡ false = ground arith in
    let free_rest : any_clash e rest ≡ false = ground arith in
    (
      above,
      IsAlone-append r e rest alone (clashes-IsApart e r free),
      IsJournal-append r.sequence top rest e others free_rest c,
    )

-- In a ledger whose numbers grow up to the counter, where no event ID stands twice, and where no
-- work order has two rows of the types work_order.routed, executor.acknowledged, plan.received,
-- plan.available and bundle.validated, a row that is written stands at the end, behind the rows that
-- were there, with the order, the type and the payload given, and the ledger stays such a ledger.
pub append_ledger-IsJournal :
    (c : Call) (id event actor counterparty : String) (payload : Fields) (db : Db)
    {r : LedgerEntry × Db}
    → IsJournal 0 db.ledger db.last_sequence
    → append_ledger c id event actor counterparty payload db ≡ ok r
    → IsJournal 0 r.1.ledger r.1.last_sequence
      × (r.1.ledger ≡ db.ledger ++ r.0 ∷ [])
      × (r.0.work_order_id ≡ id)
      × (r.0.event_type ≡ event)
      × (r.0.payload ≡ payload)
unfolding append_ledger
append_ledger-IsJournal c id event actor counterparty payload db {r} before e =
    let entry : LedgerEntry = record {
      sequence = db.last_sequence + 1;
      event_id = c.event_id (db.last_sequence + 1);
      work_order_id = id;
      event_type = event;
      actor = actor;
      counterparty = counterparty;
      payload = payload;
      created_at = c.row_time;
    } in
    let (_, e1) = require-eq-ok (is_found (find_order id db.orders)) integrity_error _ e in
    let (free, e2) = reject-eq-ok (any_clash entry db.ledger) integrity_error _ e1 in
    subst
      (λ x.
        IsJournal 0 x.1.ledger x.1.last_sequence
        × (x.1.ledger ≡ db.ledger ++ x.0 ∷ [])
        × (x.0.work_order_id ≡ id)
        × (x.0.event_type ≡ event)
        × (x.0.payload ≡ payload))
      (ok-injective e2)
      (IsJournal-append 0 db.last_sequence db.ledger entry before free refl, refl, refl, refl, refl)
