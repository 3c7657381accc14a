-- ===== src/Artifacts/Store/Tickets.antt =====
-- src/awr/artifacts/tickets.py and the tickets of src/awr/storage/artifact_sqlite.py.
use agent_work_relay.Prelude.{
  ℕ, ◌+◌, String, Bool, true, false, Option, none, some, List, [], ◌∷◌, ◌==◌, leb, Result, ok, err,
  ◌>>◌, require, reject, if◌then◌else◌,
}
use agent_work_relay.Host.{Host}
use agent_work_relay.Artifacts.Records.{ArtifactUploadTicket}

pub data TicketError : Type 0 where
  ticket_missing ticket_foreign ticket_invalid ticket_spent ticket_expired : TicketError

-- One ticket for each artifact: `ON CONFLICT(artifact_id) DO UPDATE`
unfoldable pub put_upload_ticket :
    ArtifactUploadTicket → List ArtifactUploadTicket → List ArtifactUploadTicket
put_upload_ticket k [] = k ∷ []
put_upload_ticket k (j ∷ rest) =
    if j.artifact_id == k.artifact_id then k ∷ rest else j ∷ put_upload_ticket k rest

unfoldable pub get_upload_ticket : String → List ArtifactUploadTicket → Option ArtifactUploadTicket
get_upload_ticket a [] = none
get_upload_ticket a (k ∷ rest) = if k.artifact_id == a then some k else get_upload_ticket a rest

-- `hash_upload_token`
abbrev pub hash_upload_token : Host → String → String
hash_upload_token h token = h.sha256 token

-- `issue`, with the ticket ID and the token that the random sources gave
unfoldable pub issue :
    Host
    → String
    → String
    → String
    → String
    → ℕ
    → ℕ
    → List ArtifactUploadTicket
    → ArtifactUploadTicket × List ArtifactUploadTicket
issue h ticket_id token artifact_id owner ttl max_bytes tickets =
    let ticket : ArtifactUploadTicket = record {
      ticket_id = ticket_id;
      artifact_id = artifact_id;
      owner = owner;
      token_hash = hash_upload_token h token;
      expires_at = h.now + ttl;
      spent_at = none;
      max_bytes = max_bytes;
    } in
    (ticket, put_upload_ticket ticket tickets)

abbrev pub is_spent : Option ℕ → Bool
is_spent none = false
is_spent (some t) = true

check_open :
    Host → Option ArtifactUploadTicket → String → String → Result TicketError ArtifactUploadTicket
check_open h none actor token = err ticket_missing
check_open h (some k) actor token = do
  require (k.owner == actor) ticket_foreign
  require (k.token_hash == hash_upload_token h token) ticket_invalid
  reject (is_spent k.spent_at) ticket_spent
  reject (leb k.expires_at h.now) ticket_expired
  ok k

unfoldable pub require_open :
    Host
    → String
    → String
    → String
    → List ArtifactUploadTicket
    → Result TicketError ArtifactUploadTicket
unfolding check_open
require_open h artifact_id actor token tickets =
    check_open h (get_upload_ticket artifact_id tickets) actor token

spend_found :
    Option ArtifactUploadTicket
    → ℕ
    → List ArtifactUploadTicket
    → Result TicketError (ArtifactUploadTicket × List ArtifactUploadTicket)
spend_found none now tickets = err ticket_missing
spend_found (some k) now tickets =
    if is_spent k.spent_at
    then ok (k, tickets)
    else let spent : ArtifactUploadTicket = record k { spent_at = some now } in
      ok (spent, put_upload_ticket spent tickets)

-- `spend_upload_ticket`: a ticket that is spent stays as it is.
unfoldable pub spend_upload_ticket :
    String
    → ℕ
    → List ArtifactUploadTicket
    → Result TicketError (ArtifactUploadTicket × List ArtifactUploadTicket)
unfolding spend_found
spend_upload_ticket artifact_id now tickets =
    spend_found (get_upload_ticket artifact_id tickets) now tickets
