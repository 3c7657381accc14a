-- ===== src/Artifacts/Examples/Tickets.antt =====
-- Tickets, moves and statuses: src/awr/artifacts/tickets.py and contracts.py.
use agent_work_relay.Prelude.{
  ◌+◌, ◌==◌, ◌≡◌, refl, true, false, not, ◌||◌, some, [], ok, err, leb, if◌then◌else◌,
}
use agent_work_relay.Artifacts.Status.{
  rejected_malformed, status_is, is_orchestrator_status, has_status, allowed_transitions,
}
use agent_work_relay.Artifacts.Rows.{find_artifact, set_artifact}
use agent_work_relay.Artifacts.Tables.{Tables}
use agent_work_relay.Artifacts.Store.Declare.{update_status}
use agent_work_relay.Artifacts.Store.Tickets.{
  ticket_foreign, ticket_invalid, ticket_expired, issue, require_open, get_upload_ticket,
}
use agent_work_relay.Artifacts.Replays.{issue-require_open}
use agent_work_relay.Artifacts.Moves.{update_status_moves}
use agent_work_relay.Artifacts.Examples.{
  host, quarantined_row, tables_after, waiting, waiting_stored,
}

issue-require_open_example :
    let issued = issue host "t" "token" "a" "ann" 60 10 [] in
    (require_open host "a" "eve" "token" issued.1 ≡ (
      if not ("ann" == "eve")
      then err ticket_foreign
      else if not (host.sha256 "token" == host.sha256 "token")
      then err ticket_invalid
      else if leb (host.now + 60) host.now
      then err ticket_expired
      else ok issued.0))
    × (get_upload_ticket "b" issued.1
        ≡ (if "a" == "b" then some issued.0 else get_upload_ticket "b" []))
issue-require_open_example =
    issue-require_open host host "t" "token" "a" "ann" 60 10 [] "eve" "token" "b"

abbrev failed_tables : Tables
failed_tables = tables_after (update_status "a" rejected_malformed waiting)

waiting_fails : update_status "a" rejected_malformed waiting ≡ ok (tt, failed_tables)
unfolding update_status find_artifact set_artifact
waiting_fails = refl

update_status_moves_example :
    (is_orchestrator_status rejected_malformed ≡ false)
    × ((failed_tables.security ≡ waiting.security)
        × (failed_tables.tickets ≡ waiting.tickets)
        × (failed_tables.journal ≡ waiting.journal))
    × ((status_is rejected_malformed quarantined_row.status
          || has_status rejected_malformed (allowed_transitions quarantined_row.status))
        ≡ true)
    × (find_artifact "a" failed_tables.artifacts ≡ (
        if "a" == "a"
        then some (record quarantined_row { status = rejected_malformed })
        else find_artifact "a" waiting.artifacts))
update_status_moves_example =
    update_status_moves "a" "a" rejected_malformed waiting failed_tables quarantined_row
      waiting_stored waiting_fails
