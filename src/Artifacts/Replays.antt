-- ===== src/Artifacts/Replays.antt =====
-- Calls of src/awr/storage/artifact_sqlite.py and src/awr/artifacts/tickets.py that are made again.
use agent_work_relay.Prelude.{
  ℕ, ◌+◌, is_ok, leb, String, Bool, true, false, not, ◌&&◌, ◌≡◌, refl, none, some, List, [], ◌∷◌,
  ◌++◌, ok, err, arith, eq_iff, eq_refl, ◌==◌, if◌then◌else◌,
}
use agent_work_relay.Host.{Host}
use agent_work_relay.Artifacts.Records.{Artifact, ArtifactSecurityReceipt, ArtifactUploadTicket}
use agent_work_relay.Artifacts.Rows.{find_by_key, find_receipt, find_receipt-append, or_artifact}
use agent_work_relay.Artifacts.Tables.{Tables, append_receipt, put_security_receipt, artifact_error}
use agent_work_relay.Artifacts.Store.Declare.{declare, is_replay}
use agent_work_relay.Artifacts.Store.Tickets.{
  ticket_foreign, ticket_invalid, ticket_expired, put_upload_ticket, get_upload_ticket, is_spent,
  issue, require_open, spend_upload_ticket,
}

-- What `put_security_receipt` returns is what the tables that it leaves hold for that artifact and
-- digest, and on these tables another receipt for them is refused in its favour: they stay as they are.
pub put_security_receipt_first :
    (r first late : ArtifactSecurityReceipt) (t t' : Tables)
    → put_security_receipt r t ≡ ok (first, t')
    → late.artifact_id ≡ r.artifact_id
    → late.scanned_sha256 ≡ r.scanned_sha256
    → (find_receipt r.artifact_id r.scanned_sha256 t'.security ≡ some first)
      × (put_security_receipt late t' ≡ ok (first, t'))
unfolding put_security_receipt
put_security_receipt_first r first late t t' e same_artifact same_digest =
    let stored : find_receipt r.artifact_id r.scanned_sha256 t'.security ≡ some first = ground (
      arith,
      find_receipt-append r.artifact_id r.scanned_sha256 r t.security,
      eq_refl r.artifact_id,
      eq_refl r.scanned_sha256,
    ) in
    (stored, ground arith)

find_by_key-append :
    (owner key : String) (b : Artifact) (rows : List Artifact)
    → find_by_key owner key (rows ++ b ∷ [])
      ≡ or_artifact
          (find_by_key owner key rows)
          (if b.owner == owner && b.idempotency_key == key then some b else none)
unfolding find_by_key
find_by_key-append owner key b [] = refl
find_by_key-append owner key b (a ∷ rest) = ground (arith, find_by_key-append owner key b rest)

declare_stored :
    (a b : Artifact) (fresh : Bool) (t t' : Tables)
    → declare a t ≡ ok ((b, fresh), t')
    → find_by_key a.owner a.idempotency_key t'.artifacts ≡ some b
unfolding declare append_receipt
declare_stored a b fresh t t' e = ground (
  arith,
  find_by_key-append a.owner a.idempotency_key a t.artifacts,
  eq_refl a.owner,
  eq_refl a.idempotency_key,
)

-- On the tables that a declaration leaves, one under the same owner and key is the stored artifact, the
-- tables unchanged, where the compared fields agree, and an error where they differ.
pub declare_again :
    (a b : Artifact) (fresh : Bool) (t t' : Tables)
    → declare a t ≡ ok ((b, fresh), t')
    → (c : Artifact) → c.owner ≡ a.owner
    → c.idempotency_key ≡ a.idempotency_key
    → declare c t' ≡ (if is_replay c b then ok ((b, false), t') else err artifact_error)
unfolding declare
declare_again a b fresh t t' e c same_owner same_key =
    ground (arith, declare_stored a b fresh t t' e)

get_upload_ticket-put_upload_ticket :
    (k : ArtifactUploadTicket) (tickets : List ArtifactUploadTicket) (x : String)
    → get_upload_ticket x (put_upload_ticket k tickets)
      ≡ (if k.artifact_id == x then some k else get_upload_ticket x tickets)
unfolding get_upload_ticket put_upload_ticket
get_upload_ticket-put_upload_ticket k [] x = refl
get_upload_ticket-put_upload_ticket k (j ∷ rest) x = ground (
  arith,
  eq_iff j.artifact_id k.artifact_id,
  eq_iff j.artifact_id x,
  eq_iff k.artifact_id x,
  get_upload_ticket-put_upload_ticket k rest x,
)

-- After a ticket was issued, `require_open` for its artifact refuses every other actor, then every
-- token of another digest, then everything from the expiry on, and gives the ticket otherwise; and the
-- look-up of any artifact gives that ticket for this artifact and what it gave before for the others.
pub issue-require_open :
    (h g : Host) (ticket_id token artifact_id owner : String) (ttl max_bytes : ℕ)
    (tickets : List ArtifactUploadTicket) (actor guess x : String)
    → let issued = issue h ticket_id token artifact_id owner ttl max_bytes tickets in
      (require_open g artifact_id actor guess issued.1 ≡ (
        if not (owner == actor)
        then err ticket_foreign
        else if not (h.sha256 token == g.sha256 guess)
        then err ticket_invalid
        else if leb (h.now + ttl) g.now
        then err ticket_expired
        else ok issued.0))
      × (get_upload_ticket x issued.1
          ≡ (if artifact_id == x then some issued.0 else get_upload_ticket x tickets))
unfolding issue require_open
issue-require_open h g ticket_id token artifact_id owner ttl max_bytes tickets actor guess x =
    let issued = issue h ticket_id token artifact_id owner ttl max_bytes tickets in
    let mine = get_upload_ticket-put_upload_ticket issued.0 tickets artifact_id in
    let other = get_upload_ticket-put_upload_ticket issued.0 tickets x in
    let self = eq_refl artifact_id in (ground arith, other)

get_upload_ticket-key :
    (x : String) (tickets : List ArtifactUploadTicket) (k : ArtifactUploadTicket)
    → get_upload_ticket x tickets ≡ some k
    → k.artifact_id ≡ x
unfolding get_upload_ticket
get_upload_ticket-key x [] k e = cc
get_upload_ticket-key x (j ∷ rest) k e =
    ground (arith, eq_iff j.artifact_id x, get_upload_ticket-key x rest k)

-- The ticket that spending returns is stored, and spent.
spent_stored :
    (artifact_id : String) (now : ℕ) (k old : ArtifactUploadTicket)
    (tickets tickets' : List ArtifactUploadTicket)
    → get_upload_ticket artifact_id tickets ≡ some old
    → spend_upload_ticket artifact_id now tickets ≡ ok (k, tickets')
    → (get_upload_ticket artifact_id tickets' ≡ some k) × (is_spent k.spent_at ≡ true)
unfolding spend_upload_ticket
spent_stored artifact_id now k old tickets tickets' found e = ground (
  arith,
  get_upload_ticket-put_upload_ticket (record old { spent_at = some now }) tickets artifact_id,
  get_upload_ticket-key artifact_id tickets old found,
  eq_refl artifact_id,
)

spent_found :
    (artifact_id : String) (now : ℕ) (k : ArtifactUploadTicket)
    (tickets tickets' : List ArtifactUploadTicket)
    → spend_upload_ticket artifact_id now tickets ≡ ok (k, tickets')
    → (old : ArtifactUploadTicket) × (get_upload_ticket artifact_id tickets ≡ some old)
unfolding spend_upload_ticket
spent_found artifact_id now k tickets tickets' e = ground arith

-- On the tickets that spending one leaves, spending it again, at any time, returns the same ticket and
-- changes nothing, and it opens for nobody.
pub spend_upload_ticket_twice :
    (artifact_id : String) (now later : ℕ) (k : ArtifactUploadTicket)
    (tickets tickets' : List ArtifactUploadTicket)
    → (h : Host) (actor token : String)
    → spend_upload_ticket artifact_id now tickets ≡ ok (k, tickets')
    → (spend_upload_ticket artifact_id later tickets' ≡ ok (k, tickets'))
      × (is_ok (require_open h artifact_id actor token tickets') ≡ false)
unfolding spend_upload_ticket require_open
spend_upload_ticket_twice artifact_id now later k tickets tickets' h actor token e =
    let (old, found) = spent_found artifact_id now k tickets tickets' e in
    let (stored, spent) = spent_stored artifact_id now k old tickets tickets' found e in
    (ground arith, ground arith)
