-- ===== src/Broker/Submitted.antt =====
-- What an accepted call of `submit_response` (src/awr/service.py) went through.
use agent_work_relay.Prelude.{
  ℕ, String, ◌≡◌, ◌⊎◌, inl, inr, refl, true, ◌==◌, Option, none, some, ok, err, bind-eq-ok,
  require-eq-ok, ok-injective,
}
use agent_work_relay.Host.{Fields}
use agent_work_relay.Contracts.{WorkOrder}
use agent_work_relay.Lifecycle.Errors
use agent_work_relay.Lifecycle.Responses.{ResponsePacket}
use agent_work_relay.Lifecycle.Kernel.Guards.{TransitionResult}
use agent_work_relay.Lifecycle.Kernel.Response.{apply_response}
use agent_work_relay.Artifacts.Tables.{Tables}
use agent_work_relay.Responses.Packet.{response_authority}
use agent_work_relay.Responses.Payload.{type_value}
use agent_work_relay.Broker.Records.{validation_error, ResponseRow, Db, Call}
use agent_work_relay.Broker.Store.{find_order, get_response}
use agent_work_relay.Broker.Decisions.{list_decisions, read_decisions}
use agent_work_relay.Broker.Service.{
  lifted, or_raise, resolve_actor, require_work_order, snapshot_from_session, validate_evidence,
  digest_or_fingerprint, replay_response, commit_response, respond_once, submit_packet,
}

pub lifted-eq-ok : {A : Type 0} (m : Errors.Outcome A) {a : A} → lifted m ≡ ok a → m ≡ ok a
lifted-eq-ok (ok b) e = cc
lifted-eq-ok (err x) e = cc

pub or_raise-eq-ok :
    {A : Type 0} (o : Option A) {a : A} → or_raise o validation_error ≡ ok a → o ≡ some a
or_raise-eq-ok none e = cc
or_raise-eq-ok (some b) e = cc

pub require_work_order_found :
    (id : String) (db : Db) {o : WorkOrder}
    → require_work_order id db ≡ ok o
    → find_order id db.orders ≡ some o
unfolding require_work_order
require_work_order_found id db e = or_raise-eq-ok (find_order id db.orders) e

-- The row that the key of the response is taken by.
abbrev pub taken_by : WorkOrder → String → ResponsePacket → Db → Option ResponseRow
taken_by o actor p db =
    get_response o.work_order_id actor (type_value p.response_type) p.idempotency_key db.responses

module _ (c : Call) (tables : Option Tables) (p : ResponsePacket) (actor : Option String)
    (expected : Option ℕ) (db : Db) (done : Fields × Db) where
  pub record Submitted : Type 0 where
    pub sender : String
    pub order : WorkOrder
    pub digest : String
    pub its_sender : resolve_actor c actor ≡ ok sender
    pub reports_only : (p.authority == response_authority) ≡ true
    pub found : find_order p.work_order_id db.orders ≡ some order
    pub evidence : validate_evidence order sender tables p.evidence_refs ≡ ok tt
    pub its_digest : digest_or_fingerprint c.host p ≡ ok digest
    pub outcome :
        respond_once c order p sender digest expected (taken_by order sender p db) db ≡ ok done

  pub submit_packet_inv : submit_packet c tables p actor expected db ≡ ok done → Submitted
  unfolding submit_packet
  submit_packet_inv e =
      let (sender, a1, e1) = bind-eq-ok (resolve_actor c actor) _ e in
      let (a2, e2) = require-eq-ok (p.authority == response_authority) validation_error _ e1 in
      let (o, a3, e3) = bind-eq-ok (require_work_order p.work_order_id db) _ e2 in
      let (_, a4, e4) = bind-eq-ok (validate_evidence o sender tables p.evidence_refs) _ e3 in
      let (digest, a5, e5) = bind-eq-ok (digest_or_fingerprint c.host p) _ e4 in
      record {
        sender = sender;
        order = o;
        digest = digest;
        its_sender = a1;
        reports_only = a2;
        found = require_work_order_found p.work_order_id db a3;
        evidence = a4;
        its_digest = a5;
        outcome = e5;
      }

-- The answer came from the stored row, or from the kernel and its writes.
pub respond_once_cases :
    (c : Call) (o : WorkOrder) (p : ResponsePacket) (actor digest : String) (expected : Option ℕ)
    (taken : Option ResponseRow) (db : Db) {done : Fields × Db}
    → respond_once c o p actor digest expected taken db ≡ ok done
    → ((row : ResponseRow) × (taken ≡ some row)
        × (replay_response c o p actor digest row db ≡ ok done))
      ⊎ ((r : TransitionResult) × (taken ≡ none)
          × (apply_response c.host o.status
                (snapshot_from_session o db)
                p
                actor
                (read_decisions (list_decisions o.work_order_id db))
                expected
              ≡ ok r)
          × (commit_response c p actor digest r db ≡ ok done))
unfolding respond_once
respond_once_cases c o p actor digest expected (some row) db e = inl (row, refl, e)
respond_once_cases c o p actor digest expected none db e =
    let stepped =
      apply_response c.host o.status (snapshot_from_session o db) p actor
        (read_decisions (list_decisions o.work_order_id db)) expected in
    let (r, a, e1) = bind-eq-ok (lifted stepped) _ e in inr (r, refl, lifted-eq-ok stepped a, e1)

pub replay_response-unchanged :
    (c : Call) (o : WorkOrder) (p : ResponsePacket) (actor digest : String) (row : ResponseRow)
    (db : Db) {done : Fields × Db}
    → replay_response c o p actor digest row db ≡ ok done
    → done.1 ≡ db
unfolding replay_response
replay_response-unchanged c o p actor digest row db e =
    let (_, e1) = require-eq-ok (row.content_sha256 == digest) validation_error _ e in
    cc (ok-injective e1)
