-- ===== src/Broker/Replays.antt =====
-- Responses that are sent again to src/awr/service.py, `submit_response`.
pub mod Decisions
pub mod Conflicts
use agent_work_relay.Prelude.{
  ℕ, String, ◌≡◌, ◌≢◌, inl, inr, refl, sym, subst, true, false, ◌&&◌, ◌==◌, Option, none, some,
  List, [], ◌∷◌, ◌++◌, Result, ok, err, ◌>>=◌, arith, eq_iff, eq_refl, or_else, truthy,
  require-eq-ok, ok-injective,
}
use agent_work_relay.Host.{Fields}
use agent_work_relay.Contracts.{WorkOrder}
use agent_work_relay.Lifecycle.Responses.{ResponsePacket, EvidenceRef}
use agent_work_relay.Lifecycle.Kernel.Guards.{TransitionResult}
use agent_work_relay.Artifacts.Rows.{find_artifact}
use agent_work_relay.Artifacts.Tables.{Tables}
use agent_work_relay.Responses.Payload.{type_value}
use agent_work_relay.Responses.Packet.{response_authority}
use agent_work_relay.Broker.Records.{ResponseRow, Db, Call, validation_error}
use agent_work_relay.Broker.Store.{find_order, get_response}
use agent_work_relay.Broker.Service.{
  or_raise, resolve_actor, check_reference, each_reference, validate_evidence, response_row,
  commit_response, replay_response,
}
use agent_work_relay.Broker.View.{find_order-id, find_order-set_status}
use agent_work_relay.Broker.Commits.{commit_response-Commits}
use agent_work_relay.Broker.Submitted.{
  Submitted, respond_once_cases, replay_response-unchanged, taken_by,
}

each_reference_same :
    (o o' : WorkOrder) (actor : String) (t : Tables) (refs : List EvidenceRef)
    → o'.sender ≡ o.sender
    → each_reference o' actor t refs ≡ each_reference o actor t refs
unfolding each_reference check_reference
each_reference_same o o' actor t [] e = refl
each_reference_same o o' actor t (r ∷ rs) e = rw (e, each_reference_same o o' actor t rs e) refl

pub validate_evidence_same :
    (o o' : WorkOrder) (actor : String) (tables : Option Tables) (refs : List EvidenceRef)
    → o'.sender ≡ o.sender
    → validate_evidence o' actor tables refs ≡ validate_evidence o actor tables refs
unfolding validate_evidence
validate_evidence_same o o' actor tables [] e = refl
validate_evidence_same o o' actor none (r ∷ rs) e = refl
validate_evidence_same o o' actor (some t) (r ∷ rs) e = each_reference_same o o' actor t (r ∷ rs) e

pub get_response-append :
    (id actor response_type key : String) (rows : List ResponseRow) (row : ResponseRow)
    → get_response id actor response_type key rows ≡ none
    → row.work_order_id ≡ id
    → row.actor ≡ actor
    → row.response_type ≡ response_type
    → row.idempotency_key ≡ key
    → get_response id actor response_type key (rows ++ row ∷ []) ≡ some row
unfolding get_response
get_response-append id actor response_type key [] row e a b c d = ground (
  arith,
  eq_iff row.work_order_id id,
  eq_iff row.actor actor,
  eq_iff row.response_type response_type,
  eq_iff row.idempotency_key key,
)
get_response-append id actor response_type key (r ∷ rest) row e a b c d =
    ground (arith, get_response-append id actor response_type key rest row)

-- After an accepted response, the row that keeps its receipt is found under its key.
pub record Kept (c : Call) (o : WorkOrder) (p : ResponsePacket) (sender digest : String)
    (done : Fields × Db) : Type 0 where
  pub order : WorkOrder
  pub same_sender : order.sender ≡ o.sender
  pub row : ResponseRow
  pub found : find_order p.work_order_id done.1.orders ≡ some order
  pub taken : taken_by order sender p done.1 ≡ some row
  pub same_digest : row.content_sha256 ≡ digest
  pub answer : replay_response c order p sender digest row done.1 ≡ ok done

replayed_digest :
    (c : Call) (o : WorkOrder) (p : ResponsePacket) (sender digest : String) (row : ResponseRow)
    (db : Db) {done : Fields × Db}
    → replay_response c o p sender digest row db ≡ ok done
    → row.content_sha256 ≡ digest
unfolding replay_response
replayed_digest c o p sender digest row db e =
    let (same, _) = require-eq-ok (row.content_sha256 == digest) validation_error _ e in
    ground (arith, eq_iff row.content_sha256 digest)

replayed-Kept :
    (c : Call) (o : WorkOrder) (p : ResponsePacket) (sender digest : String) (row : ResponseRow)
    (db : Db) (done : Fields × Db)
    → find_order p.work_order_id db.orders ≡ some o
    → taken_by o sender p db ≡ some row
    → replay_response c o p sender digest row db ≡ ok done
    → Kept c o p sender digest done
replayed-Kept c o p sender digest row db done found taken e =
    let same = replay_response-unchanged c o p sender digest row db e in
    record {
      order = o;
      same_sender = refl;
      row = row;
      found = rw same found;
      taken = rw same taken;
      same_digest = replayed_digest c o p sender digest row db e;
      answer = subst (λ x. replay_response c o p sender digest row x ≡ ok done) (sym same) e;
    }

stored-Kept :
    (c : Call) (o : WorkOrder) (p : ResponsePacket) (sender digest : String) (db : Db)
    (done : Fields × Db) (r : TransitionResult)
    → find_order p.work_order_id db.orders ≡ some o
    → taken_by o sender p db ≡ none
    → commit_response c p sender digest r db ≡ ok done
    → Kept c o p sender digest done
unfolding replay_response response_row
stored-Kept c o p sender digest db done r found free e =
    let (commits, _, rows) = commit_response-Commits c p sender digest r db e in
    let row = response_row p sender digest (or_else p.message_id digest) done.0 in
    let now_found = find_order-set_status p.work_order_id r.status db.orders found in
    let named = find_order-id p.work_order_id db.orders found in
    let taken =
      get_response-append o.work_order_id sender (type_value p.response_type) p.idempotency_key
        db.responses row free (sym named) refl refl refl in
    record {
      order = record o { status = r.status };
      same_sender = refl;
      row = row;
      found = rw commits.orders now_found;
      taken = rw rows taken;
      same_digest = refl;
      answer = rw (eq_refl digest) refl;
    }

pub submit_packet-Kept :
    (c : Call) (tables : Option Tables) (p : ResponsePacket) (actor : Option String)
    (expected : Option ℕ) (db : Db) (done : Fields × Db)
    → (inv : Submitted c tables p actor expected db done)
    → Kept c inv.order p inv.sender inv.digest done
submit_packet-Kept c tables p actor expected db done inv =
    elim (respond_once_cases c inv.order p inv.sender inv.digest expected
      (taken_by inv.order inv.sender p db) db inv.outcome) [
        | inl replayed ↦
            let (row, taken, e) = replayed in
            replayed-Kept c inv.order p inv.sender inv.digest row db done inv.found taken e
        | inr stepped ↦
            let (r, free, _, e) = stepped in
            stored-Kept c inv.order p inv.sender inv.digest db done r inv.found free e
      ]

pub resolve_actor_same :
    (c c2 : Call) (actor : Option String)
    → c2.principal ≡ c.principal
    → resolve_actor c2 actor ≡ resolve_actor c actor
unfolding resolve_actor
resolve_actor_same c c2 actor e = rw e refl
