-- ===== src/Artifacts/Tables.antt =====
-- The tables of src/awr/storage/sqlite.py that src/awr/storage/artifact_sqlite.py reads and writes,
-- and the journal of artifact receipts with its unique indexes. A transaction that raises is rolled
-- back, so an error carries no tables.
use agent_work_relay.Prelude.{
  String, Bool, true, false, not, ◌&&◌, ◌||◌, Option, none, some, List, [], ◌∷◌, ◌++◌, ◌==◌, Result,
  ok, err, option_eq, if◌then◌else◌,
}
use agent_work_relay.Artifacts.Records.{
  Artifact, ArtifactSecurityReceipt, ArtifactUploadTicket, ArtifactReceipt,
}
use agent_work_relay.Artifacts.Rows.{find_artifact, find_receipt}

pub data StoreError : Type 0 where
  artifact_error key_error integrity_error : StoreError

abbrev pub Outcome : Type 0 → Type 0
Outcome A = Result StoreError A

pub record Tables : Type 0 where
  pub artifacts : List Artifact
  pub security : List ArtifactSecurityReceipt
  pub tickets : List ArtifactUploadTicket
  pub journal : List ArtifactReceipt

-- The events of which the unique indexes admit one for each artifact.
unfoldable pub is_single : String → Bool
is_single event =
    event == "artifact.declared"
    || event == "artifact.quarantined"
    || event == "artifact.rejected"
    || event == "artifact.scan_started"
    || event == "artifact.scan_passed"
    || event == "artifact.promoted"

-- NULL is distinct from NULL in a unique index.
abbrev same_work_order : Option String → Option String → Bool
same_work_order none o = false
same_work_order (some w) none = false
same_work_order (some w) (some v) = w == v

-- An entry that a unique index does not admit beside `old`.
unfoldable pub clashes : ArtifactReceipt → ArtifactReceipt → Bool
clashes entry old =
    old.artifact_id == entry.artifact_id
    && old.event_type == entry.event_type
    && (is_single entry.event_type
        || (entry.event_type == "artifact.relay_authorized"
            && same_work_order entry.work_order_id old.work_order_id))

unfoldable pub any_clash : ArtifactReceipt → List ArtifactReceipt → Bool
any_clash entry [] = false
any_clash entry (old ∷ rest) = clashes entry old || any_clash entry rest

abbrev is_known : Option Artifact → Bool
is_known none = false
is_known (some a) = true

-- The look-up after an IntegrityError.
unfoldable pub find_entry : ArtifactReceipt → List ArtifactReceipt → Option ArtifactReceipt
find_entry entry [] = none
find_entry entry (old ∷ rest) =
    if old.artifact_id == entry.artifact_id
      && old.event_type == entry.event_type
      && (option_eq entry.work_order_id none || option_eq old.work_order_id entry.work_order_id)
    then some old
    else find_entry entry rest

or_integrity_error : Option ArtifactReceipt → Tables → Outcome (ArtifactReceipt × Tables)
or_integrity_error none t = err integrity_error
or_integrity_error (some old) t = ok (old, t)

-- `_append_receipt_on_connection`
unfoldable pub append_receipt : ArtifactReceipt → Tables → Outcome (ArtifactReceipt × Tables)
unfolding or_integrity_error
append_receipt entry t =
    if not (is_known (find_artifact entry.artifact_id t.artifacts)) || any_clash entry t.journal
    then or_integrity_error (find_entry entry t.journal) t
    else ok (entry, record t { journal = t.journal ++ entry ∷ [] })

abbrev has_receipt_id : String → List ArtifactSecurityReceipt → Bool
has_receipt_id k [] = false
has_receipt_id k (r ∷ rest) = r.receipt_id == k || has_receipt_id k rest

put_unless :
    Option ArtifactSecurityReceipt
    → ArtifactSecurityReceipt
    → Tables
    → Outcome (ArtifactSecurityReceipt × Tables)
put_unless (some existing) r t = ok (existing, t)
put_unless none r t =
    if has_receipt_id r.receipt_id t.security
      || not (is_known (find_artifact r.artifact_id t.artifacts))
    then err integrity_error
    else ok (r, record t { security = t.security ++ r ∷ [] })

-- `put_security_receipt`: the first receipt of an artifact and a digest stays.
unfoldable pub put_security_receipt :
    ArtifactSecurityReceipt → Tables → Outcome (ArtifactSecurityReceipt × Tables)
unfolding put_unless
put_security_receipt r t = put_unless (find_receipt r.artifact_id r.scanned_sha256 t.security) r t
