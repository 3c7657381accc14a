-- ===== src/Artifacts/Uploads.antt =====
-- src/awr/artifacts/relay.py: an upload under a ticket, and the view of an artifact by its owner.
use agent_work_relay.Prelude.{
  ℕ, ◌≡◌, refl, sym, ap, ◌∙◌, String, false, ◌==◌, Option, none, some, List, Result, ok, err, is_ok,
  arith, if◌then◌else◌,
}
use agent_work_relay.Host.{Host}
use agent_work_relay.Artifacts.Records.{Artifact, ArtifactSecurityReceipt, ArtifactUploadTicket}
use agent_work_relay.Artifacts.Rows.{find_artifact, find_receipt}
use agent_work_relay.Artifacts.Tables.{Tables}
use agent_work_relay.Artifacts.Store.Tickets.{
  TicketError, get_upload_ticket, require_open, spend_upload_ticket,
}
use agent_work_relay.Artifacts.Intake.{
  Stream, WriteOutcome, IntakeError, Limits, Finalized, finalize_stream,
}
use agent_work_relay.Artifacts.Replays.{spend_upload_ticket_twice}

pub data UploadError : Type 0 where
  ticket_error : TicketError → UploadError
  intake_error : IntakeError → UploadError

abbrev Uploaded : Type 0
Uploaded = Result UploadError Artifact × Tables

abbrev Spent : Type 0
Spent = Result TicketError (ArtifactUploadTicket × List ArtifactUploadTicket)

unfoldable pub return_spent : Artifact → Tables → Spent → Uploaded
return_spent a t (err e) = (err (ticket_error e), t)
return_spent a t (ok spent) = (ok a, record t { tickets = spent.1 })

unfoldable pub spend_after : String → ℕ → Finalized → Uploaded
spend_after artifact_id now (err e, t) = (err (intake_error e), t)
spend_after artifact_id now (ok a, t) =
    return_spent a t (spend_upload_ticket artifact_id now t.tickets)

unfoldable pub finalize_open :
    Host
    → Limits
    → String
    → String
    → Stream
    → WriteOutcome
    → Tables
    → Result TicketError ArtifactUploadTicket
    → Uploaded
finalize_open h l artifact_id actor stream outcome t (err e) = (err (ticket_error e), t)
finalize_open h l artifact_id actor stream outcome t (ok k) =
    spend_after artifact_id h.now (finalize_stream l artifact_id (some actor) stream outcome t)

unfoldable pub upload_content :
    Host → Limits → String → String → String → Stream → WriteOutcome → Tables → Uploaded
upload_content h l artifact_id actor token stream outcome t =
    finalize_open h l artifact_id actor stream outcome t
      (require_open h artifact_id actor token t.tickets)

-- `_owned`: an artifact of another owner is as unknown as one that is not there.
unfoldable pub owned : String → String → Tables → Option Artifact
owned artifact_id actor t = elim (find_artifact artifact_id t.artifacts) [
  | none ↦ none
  | some a ↦ if a.owner == actor then some a else none
]

abbrev receipt_for : Option String → Artifact → Tables → Option ArtifactSecurityReceipt
receipt_for none a t = none
receipt_for (some digest) a t =
    if digest == "" then none else find_receipt a.artifact_id digest t.security

abbrev with_receipt : Option Artifact → Tables → Option (Artifact × Option ArtifactSecurityReceipt)
with_receipt none t = none
with_receipt (some a) t = some (a, receipt_for a.sha256 a t)

-- `get_status`: the artifact and the receipt that its view shows.
unfoldable pub get_status :
    String → String → Tables → Option (Artifact × Option ArtifactSecurityReceipt)
get_status artifact_id actor t = with_receipt (owned artifact_id actor t) t

return_spent-ok :
    (b : Artifact) (t : Tables) (r : Spent) {a : Artifact} {t' : Tables}
    → return_spent b t r ≡ (ok a, t')
    → (spent : ArtifactUploadTicket × List ArtifactUploadTicket) × (r ≡ ok spent)
      × (t'.tickets ≡ spent.1)
unfolding return_spent
return_spent-ok b t (err e) h = ground (arith, ap (λ x. is_ok x.0) h)
return_spent-ok b t (ok spent) h = (spent, refl, sym (ap (λ x. (x.1).tickets) h))

spend_after-spent :
    (artifact_id : String) (now : ℕ) (done : Finalized) {a : Artifact} {t' : Tables}
    → spend_after artifact_id now done ≡ (ok a, t')
    → (tickets : List ArtifactUploadTicket) × (k : ArtifactUploadTicket) × (spend_upload_ticket
          artifact_id now tickets
        ≡ ok (k, t'.tickets))
unfolding spend_after
spend_after-spent artifact_id now (err e, t) h = ground (arith, ap (λ x. is_ok x.0) h)
spend_after-spent artifact_id now (ok b, t) h =
    let (spent, stored, left) =
      return_spent-ok b t (spend_upload_ticket artifact_id now t.tickets) h in
    (t.tickets, spent.0, stored ∙ ap (λ x. ok (spent.0, x)) (sym left))

finalize_open-spent :
    (h : Host) (l : Limits) (artifact_id actor : String) (stream : Stream) (outcome : WriteOutcome)
    (t : Tables) (r : Result TicketError ArtifactUploadTicket) {a : Artifact} {t' : Tables}
    → finalize_open h l artifact_id actor stream outcome t r ≡ (ok a, t')
    → (tickets : List ArtifactUploadTicket) × (k : ArtifactUploadTicket) × (spend_upload_ticket
          artifact_id h.now tickets
        ≡ ok (k, t'.tickets))
unfolding finalize_open
finalize_open-spent h l artifact_id actor stream outcome t (err e) same =
    ground (arith, ap (λ x. is_ok x.0) same)
finalize_open-spent h l artifact_id actor stream outcome t (ok k) same =
    spend_after-spent artifact_id h.now
      (finalize_stream l artifact_id (some actor) stream outcome t) same

finalize_open-closed :
    (h : Host) (l : Limits) (artifact_id actor : String) (stream : Stream) (outcome : WriteOutcome)
    (t : Tables) (r : Result TicketError ArtifactUploadTicket)
    → is_ok r ≡ false
    → (e : TicketError) × (finalize_open h l artifact_id actor stream outcome t r
        ≡ (err (ticket_error e), t))
unfolding finalize_open
finalize_open-closed h l artifact_id actor stream outcome t (err e) closed = (e, refl)
finalize_open-closed h l artifact_id actor stream outcome t (ok k) closed = ground arith

ticket_closed :
    (h : Host) (artifact_id actor token : String) (tickets others : List ArtifactUploadTicket)
    → get_upload_ticket artifact_id others ≡ get_upload_ticket artifact_id tickets
    → is_ok (require_open h artifact_id actor token tickets) ≡ false
    → is_ok (require_open h artifact_id actor token others) ≡ false
unfolding require_open
ticket_closed h artifact_id actor token tickets others same closed = rw same closed

-- Once an upload has succeeded, a later upload to the same artifact, by any actor, with any token
-- and at any time, is refused for its ticket and leaves the tables as they are, on any tables that
-- hold the ticket that the upload left for the artifact: that is, until a new ticket is issued for
-- it.
pub upload_content-once :
    (h later : Host) (l : Limits) (artifact_id actor token : String) (stream : Stream)
    (outcome : WriteOutcome) (t t' t2 : Tables) {a : Artifact} (other guess : String)
    (again : Stream) (answer : WriteOutcome)
    → upload_content h l artifact_id actor token stream outcome t ≡ (ok a, t')
    → get_upload_ticket artifact_id t2.tickets ≡ get_upload_ticket artifact_id t'.tickets
    → (e : TicketError) × (upload_content later l artifact_id other guess again answer t2
        ≡ (err (ticket_error e), t2))
unfolding upload_content
upload_content-once h later l artifact_id actor token stream outcome t t' t2 other guess again
      answer same ticket =
    let (tickets, k, spent) =
      finalize_open-spent h l artifact_id actor stream outcome t
        (require_open h artifact_id actor token t.tickets) same in
    let (kept, closed) =
      spend_upload_ticket_twice artifact_id h.now later.now k tickets t'.tickets later other guess
        spent in
    finalize_open-closed later l artifact_id other again answer t2
      (require_open later artifact_id other guess t2.tickets)
      (ticket_closed later artifact_id other guess t'.tickets t2.tickets ticket closed)
