-- ===== src/Artifacts/Examples/Scanned.antt =====
-- A whole history, from the declaration to CLEAN: src/awr/storage/artifact_sqlite.py.
use agent_work_relay.Prelude.{◌≡◌, refl, true, none, some, ok}
use agent_work_relay.Host.{get}
use agent_work_relay.Artifacts.Status.{clean, from_value}
use agent_work_relay.Artifacts.Records.{Artifact}
use agent_work_relay.Artifacts.Verdicts.{status_from_security_receipt, status_from_reasons}
use agent_work_relay.Artifacts.Rows.{find_artifact, find_by_key, find_receipt, set_artifact}
use agent_work_relay.Artifacts.Tables.{
  Tables, append_receipt, put_security_receipt, any_clash, clashes, is_single,
}
use agent_work_relay.Artifacts.Store.Declare.{declare, update_status}
use agent_work_relay.Artifacts.Store.Scan.{
  claim_scan_lease, complete_scan, finish_row, bound_status, lease_expired,
}
use agent_work_relay.Artifacts.Intake.{
  written, finalize_stream, finalize_row, accept_bytes, store_quarantined, return_after,
}
use agent_work_relay.Artifacts.Vetted.{is_attested, is_past_scan}
use agent_work_relay.Artifacts.Trace.{
  Write, History, here, next, declares, receives, claims, records, completes, empty,
}
use agent_work_relay.Artifacts.Trace.Evidence.{History-find_receipt}
use agent_work_relay.Artifacts.Trace.Receipts.{History-attested}
use agent_work_relay.Artifacts.Examples.{
  fresh, receipt, limits, body, tables_after, value_after, t1,
}

abbrev t2 : Tables
t2 = (finalize_stream limits "a" none body (written "d" 3) t1).1

abbrev t3 : Tables
t3 = tables_after (claim_scan_lease "a" 10 30 "w1" t2)

abbrev t4 : Tables
t4 = tables_after (put_security_receipt receipt t3)

abbrev t5 : Tables
t5 = tables_after (complete_scan "a" "w1" clean none 12 t4)

declared-Write : Write empty t1
unfolding declare find_by_key find_artifact append_receipt any_clash
declared-Write = declares fresh fresh true refl refl

claimed :
    claim_scan_lease "a" 10 30 "w1" t2
    ≡ ok (value_after none (claim_scan_lease "a" 10 30 "w1" t2), t3)
unfolding declare find_by_key find_artifact append_receipt any_clash clashes is_single
    finalize_stream finalize_row accept_bytes store_quarantined return_after update_status
    set_artifact claim_scan_lease find_receipt lease_expired
claimed = refl

recorded : put_security_receipt receipt t3 ≡ ok (receipt, t4)
unfolding declare find_by_key find_artifact append_receipt any_clash clashes is_single
    finalize_stream finalize_row accept_bytes store_quarantined return_after update_status
    set_artifact claim_scan_lease find_receipt lease_expired put_security_receipt
recorded = refl

completed :
    complete_scan "a" "w1" clean none 12 t4
    ≡ ok (value_after fresh (complete_scan "a" "w1" clean none 12 t4), t5)
unfolding declare find_by_key find_artifact append_receipt any_clash clashes is_single
    finalize_stream finalize_row accept_bytes store_quarantined return_after update_status
    set_artifact claim_scan_lease find_receipt lease_expired put_security_receipt complete_scan
    finish_row bound_status status_from_security_receipt status_from_reasons from_value get
completed = refl

abbrev cleaned : Artifact
cleaned = value_after fresh (complete_scan "a" "w1" clean none 12 t4)

cleaned_stored : find_artifact "a" t5.artifacts ≡ some cleaned
unfolding declare find_by_key find_artifact append_receipt any_clash clashes is_single
    finalize_stream finalize_row accept_bytes store_quarantined return_after update_status
    set_artifact claim_scan_lease find_receipt lease_expired put_security_receipt complete_scan
    finish_row bound_status status_from_security_receipt status_from_reasons from_value get
cleaned_stored = refl

cleaned_is_past : is_past_scan cleaned.status ≡ true
unfolding declare find_by_key find_artifact append_receipt any_clash clashes is_single
    finalize_stream finalize_row accept_bytes store_quarantined return_after update_status
    set_artifact claim_scan_lease find_receipt lease_expired put_security_receipt complete_scan
    finish_row bound_status status_from_security_receipt status_from_reasons from_value get
cleaned_is_past = refl

history : History empty t5
history =
    next
      (next
        (next (next (next here declared-Write) (receives limits "a" none body (written "d" 3)))
          (claims "a" 10 30 "w1" _ claimed))
        (records receipt receipt recorded))
      (completes "a" "w1" clean none 12 cleaned refl completed)

History-attested_example : is_attested cleaned t5.security ≡ true
History-attested_example = History-attested history "a" cleaned cleaned_stored cleaned_is_past

receipt_stored : find_receipt "a" "d" t4.security ≡ some receipt
unfolding declare find_by_key find_artifact append_receipt any_clash clashes is_single
    finalize_stream finalize_row accept_bytes store_quarantined return_after update_status
    set_artifact claim_scan_lease find_receipt lease_expired put_security_receipt
receipt_stored = refl

History-find_receipt_example : find_receipt "a" "d" t5.security ≡ some receipt
History-find_receipt_example =
    History-find_receipt "a" "d" receipt
      (next here (completes "a" "w1" clean none 12 cleaned refl completed)) receipt_stored
