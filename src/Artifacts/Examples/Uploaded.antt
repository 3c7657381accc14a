-- ===== src/Artifacts/Examples/Uploaded.antt =====
-- An upload under an open ticket, and the same upload again.
use agent_work_relay.Prelude.{◌≡◌, refl, none, err, ok, ◌∷◌, [], value_or}
use agent_work_relay.Artifacts.Records.{Artifact, ArtifactUploadTicket}
use agent_work_relay.Artifacts.Rows.{find_artifact, find_by_key, set_artifact}
use agent_work_relay.Artifacts.Tables.{Tables, append_receipt, any_clash, clashes}
use agent_work_relay.Artifacts.Store.Declare.{declare, update_status}
use agent_work_relay.Artifacts.Store.Tickets.{
  TicketError, require_open, spend_upload_ticket, get_upload_ticket, put_upload_ticket,
}
use agent_work_relay.Artifacts.Intake.{
  written, finalize_stream, finalize_row, accept_bytes, store_quarantined, return_after,
}
use agent_work_relay.Artifacts.Uploads.{
  ticket_error, return_spent, spend_after, finalize_open, upload_content, upload_content-once,
}
use agent_work_relay.Artifacts.Examples.{host, fresh, limits, body, t1}

abbrev ticket : ArtifactUploadTicket
ticket = record {
  ticket_id = "t";
  artifact_id = "a";
  owner = "ann";
  token_hash = "token";
  expires_at = 160;
  spent_at = none;
  max_bytes = 10;
}

abbrev before : Tables
before = record t1 { tickets = ticket ∷ [] }

abbrev after : Tables
after = (upload_content host limits "a" "ann" "token" body (written "d" 3) before).1

abbrev stored : Artifact
stored =
    value_or fresh ((upload_content host limits "a" "ann" "token" body (written "d" 3) before).0)

upload_succeeds :
    upload_content host limits "a" "ann" "token" body (written "d" 3) before ≡ (ok stored, after)
unfolding upload_content finalize_open spend_after return_spent require_open spend_upload_ticket
    get_upload_ticket put_upload_ticket finalize_stream finalize_row accept_bytes store_quarantined
    return_after update_status find_artifact set_artifact append_receipt any_clash declare
    find_by_key clashes
upload_succeeds = refl

-- The artifact's ticket is as before, and another artifact has one.
abbrev later_tables : Tables
later_tables = record after {
  tickets = record ticket { ticket_id = "u"; artifact_id = "b" } ∷ after.tickets;
}

same_ticket : get_upload_ticket "a" later_tables.tickets ≡ get_upload_ticket "a" after.tickets
unfolding get_upload_ticket
same_ticket = refl

upload_content-once_example :
    (e : TicketError) × (upload_content host limits "a" "ann" "token" body
        (written "d" 3)
        later_tables
      ≡ (err (ticket_error e), later_tables))
upload_content-once_example =
    upload_content-once host host limits "a" "ann" "token" body (written "d" 3) before after
      later_tables "ann" "token" body (written "d" 3) upload_succeeds same_ticket
