-- ===== src/Broker/Planning/Plans.antt =====
-- What `refresh_planning` of src/awr/service.py leaves in the tables.
use agent_work_relay.Prelude.{
  String, ◌≡◌, inl, inr, refl, ap, sym, ◌∙◌, subst, Bool, true, ◌==◌, some, List, [], ◌∷◌, ◌++◌, ok,
  arith, eq_iff, keep, last, concat, text_take, bind-eq-ok, require-eq-ok, reject-eq-ok,
  ok-injective, if◌then◌else◌, Bool-cases,
}
use agent_work_relay.Host.{Host, Fields, get, has_key, to_text, field, str, int, end}
use agent_work_relay.Contracts.{WorkOrder, LedgerEntry, planning, plan_ready}
use agent_work_relay.Broker.Records.{integrity_error, Db, Call}
use agent_work_relay.Broker.Store.{
  is_found, any_clash, find_order, set_status, update_status, append_ledger, list_ledger,
  latest_from,
}
use agent_work_relay.Broker.Plans.{
  PlanPacket, text_at, plan_packet, packet_of, plan_from_entries, plan_from_ledger,
}
use agent_work_relay.Broker.Planning.{
  PlanningRunResult, planned, plan_id_of, plan_payload, receive_plan,
}
use agent_work_relay.Broker.View.{find_order-set_status}
use agent_work_relay.Broker.Commits.{update_status_eq, append_ledger_eq, append_ledger_entry}

last-append : {A : Type 0} (xs : List A) (x : A) → last (xs ++ x ∷ []) ≡ some x
unfolding last
last-append [] x = refl
last-append (y ∷ ys) x = ground (arith, last-append ys x)

keep-append :
    {A : Type 0} (p : A → Bool) (xs : List A) (x : A)
    → keep p (xs ++ x ∷ []) ≡ keep p xs ++ (if p x then x ∷ [] else [])
unfolding keep
keep-append p [] x = ground arith
keep-append p (y ∷ ys) x = ground (arith, keep-append p ys x)

append_nil : {A : Type 0} (xs : List A) → xs ++ [] ≡ xs
append_nil [] = refl
append_nil (x ∷ xs) = cc (append_nil xs)

-- A new row is the latest of its type, and of no other type.
pub latest_from-append :
    (id : String) (db db' : Db) (e : LedgerEntry) (event : String)
    → db'.ledger ≡ db.ledger ++ e ∷ []
    → e.work_order_id ≡ id
    → latest_from (list_ledger id db') event
      ≡ (if e.event_type == event then some e else latest_from (list_ledger id db) event)
unfolding list_ledger latest_from
latest_from-append id db db' e event grown mine =
    let hit : (e.work_order_id == id) ≡ true = ground (arith, eq_iff e.work_order_id id) in
    let rows : keep (λ x. x.work_order_id == id) db'.ledger
        ≡ keep (λ x. x.work_order_id == id) db.ledger ++ e ∷ [] =
      rw grown (rw (keep-append (λ x. x.work_order_id == id) db.ledger e) (rw hit refl)) in
    let old = keep (λ x. x.work_order_id == id) db.ledger in
    let typed = keep-append (λ x. x.event_type == event) old e in
    elim (Bool-cases (e.event_type == event)) [
      | inl p ↦ rw (rows, typed, p) (last-append (keep (λ x. x.event_type == event) old) e)
      | inr p ↦ rw (rows, typed, p, append_nil (keep (λ x. x.event_type == event) old)) refl
    ]

-- The two rows of a plan that were written last are read as its packet.
plan_of_rows :
    (h : Host) (id : String) (db db1 db2 db3 : Db) (received available : LedgerEntry)
    {p : PlanPacket}
    → db1.ledger ≡ db.ledger ++ received ∷ []
    → db2.ledger ≡ db1.ledger
    → db3.ledger ≡ db2.ledger ++ available ∷ []
    → (received.work_order_id ≡ id) × (received.event_type ≡ "plan.received")
    → (available.work_order_id ≡ id) × (available.event_type ≡ "plan.available")
    → plan_packet h id received available ≡ ok p
    → plan_from_ledger h id db3 ≡ ok (some p)
unfolding plan_from_ledger plan_from_entries packet_of
plan_of_rows h id db db1 db2 db3 received available g1 same g2 (mine1, typed1) (mine2, typed2) e =
    let old : latest_from (list_ledger id db1) "plan.received" ≡ some received =
      rw (latest_from-append id db db1 received "plan.received" g1 mine1, typed1) refl in
    let grown : db3.ledger ≡ db1.ledger ++ available ∷ [] = rw g2 (rw same refl) in
    let first : latest_from (list_ledger id db3) "plan.received" ≡ some received =
      rw (latest_from-append id db1 db3 available "plan.received" grown mine2, typed2) old in
    let second : latest_from (list_ledger id db3) "plan.available" ≡ some available =
      rw (latest_from-append id db1 db3 available "plan.available" grown mine2, typed2) refl in
    rw (first, second, e) refl

planned_injective : {p q : PlanPacket} → planned p ≡ planned q → p ≡ q
planned_injective e = cc

append_ledger_payload :
    (c : Call) (id event actor counterparty : String) (payload : Fields) (db : Db)
    {r : LedgerEntry × Db}
    → append_ledger c id event actor counterparty payload db ≡ ok r
    → r.0.payload ≡ payload
unfolding append_ledger
append_ledger_payload c id event actor counterparty payload db e =
    let (_, e1) = require-eq-ok (is_found (find_order id db.orders)) integrity_error _ e in
    let (_, e2) = reject-eq-ok (any_clash _ db.ledger) integrity_error _ e1 in
    subst (λ x. x.0.payload ≡ payload) (ok-injective e2) refl

-- The packet holds the text of the run's result, its digest and the ID made of it, and names the run.
abbrev pub IsPlanOf : Host → String → String → String → PlanPacket → Type 0
IsPlanOf h agent_id run_id result p =
    (p.content ≡ result)
    × (p.content_sha256 ≡ h.sha256 result)
    × (p.plan_id ≡ concat "PLAN-" (text_take 24 (h.sha256 result)))
    × (p.executor_agent_id ≡ agent_id)
    × (p.executor_run_id ≡ run_id)

text_of :
    (h : Host) (d d2 : Fields) (key s : String) {x : String}
    → d ≡ d2
    → text_at h d2 key ≡ ok s
    → text_at h d key ≡ ok x
    → x ≡ s
text_of h d d2 key s same is e = ok-injective (sym e ∙ ap (λ y. text_at h y key) same ∙ is)

plan_packet-IsPlanOf :
    (h : Host) (id agent_id run_id result : String) (run : PlanningRunResult)
    (received available : LedgerEntry) {p : PlanPacket}
    → received.payload ≡ plan_payload h agent_id run_id run result
    → plan_packet h id received available ≡ ok p
    → IsPlanOf h agent_id run_id result p
unfolding plan_packet text_at has_key get to_text
plan_packet-IsPlanOf h id agent_id run_id result run received available same e =
    let d = received.payload in
    let (plan_id, a1, e1) = bind-eq-ok (text_at h d "plan_id") _ e in
    let (agent, a2, e2) = bind-eq-ok (text_at h d "executor_agent_id") _ e1 in
    let (ran, a3, e3) = bind-eq-ok (text_at h d "executor_run_id") _ e2 in
    let (content, a4, e4) = bind-eq-ok (text_at h d "content") _ e3 in
    let (digest, a5, e5) = bind-eq-ok (text_at h d "content_sha256") _ e4 in
    let d2 = plan_payload h agent_id run_id run result in
    subst (IsPlanOf h agent_id run_id result) (ok-injective e5) (
      text_of h d d2 "content" result same refl a4,
      text_of h d d2 "content_sha256" (h.sha256 result) same refl a5,
      text_of h d d2 "plan_id" (plan_id_of h result) same refl a1,
      text_of h d d2 "executor_agent_id" agent_id same refl a2,
      text_of h d d2 "executor_run_id" run_id same refl a3,
    )

-- Where `refresh_planning` stores the result of a finished run of a work order that is in PLANNING,
-- the work order is PLAN_READY afterwards, the plan that it returns holds the text of the result,
-- its SHA-256, the plan ID made of it and the IDs of the agent and the run, and this plan is what
-- the ledger then gives.
pub receive_plan-stored :
    (c : Call) (o : WorkOrder) (agent_id run_id : String) (run : PlanningRunResult)
    (result : String) (db : Db) {o' : WorkOrder} {p : PlanPacket} {db' : Db}
    → find_order o.work_order_id db.orders ≡ some o'
    → o'.status ≡ planning
    → receive_plan c o agent_id run_id run result db ≡ ok (planned p, db')
    → (find_order o.work_order_id db'.orders ≡ some (record o' { status = plan_ready }))
      × (plan_from_ledger c.host o.work_order_id db' ≡ ok (some p))
      × IsPlanOf c.host agent_id run_id result p
unfolding receive_plan
receive_plan-stored c o agent_id run_id run result db {o'} {p} {db'} found in_planning e =
    let id = o.work_order_id in
    let h = c.host in
    let (received, a1, e1) =
      bind-eq-ok
        (append_ledger c id "plan.received" run.executor "broker:awr"
          (plan_payload h agent_id run_id run result) db)
        _ e in
    let (db2, a2, e2) = bind-eq-ok (update_status id plan_ready received.1) _ e1 in
    let payload = field "plan_id" (str (plan_id_of h result)) (
      field "content_sha256" (str (h.sha256 result))
        (field "received_sequence" (int received.0.sequence) end)) in
    let (available, a3, e3) =
      bind-eq-ok (append_ledger c id "plan.available" "broker:awr" o.sender payload db2) _ e2 in
    let (packet, a4, e4) = bind-eq-ok (plan_packet h id received.0 available.0) _ e3 in
    let same = ok-injective e4 in
    let p_same : packet ≡ p = planned_injective (ap (λ x. x.0) same) in
    let db_same : available.1 ≡ db' = ap (λ x. x.1) same in
    let written =
      append_ledger_eq c id "plan.received" run.executor "broker:awr"
        (plan_payload h agent_id run_id run result) db a1 in
    let set = update_status_eq id plan_ready received.1 a2 in
    let written2 = append_ledger_eq c id "plan.available" "broker:awr" o.sender payload db2 a3 in
    let orders1 : received.1.orders ≡ db.orders = ap (λ x. x.orders) (sym written) in
    let orders2 : db2.orders ≡ set_status id plan_ready received.1.orders =
      ap (λ x. x.orders) (sym set) in
    let orders3 : db'.orders ≡ db2.orders = ap (λ x. x.orders) (sym (written2 ∙ db_same)) in
    let read =
      plan_of_rows h id db received.1 db2 available.1 received.0 available.0
        (ap (λ x. x.ledger) (sym written)) (ap (λ x. x.ledger) (sym set))
        (ap (λ x. x.ledger) (sym written2))
        (append_ledger_entry c id "plan.received" run.executor "broker:awr"
          (plan_payload h agent_id run_id run result) db a1)
        (append_ledger_entry c id "plan.available" "broker:awr" o.sender payload db2 a3) a4 in
    (
      subst (λ x. find_order id x ≡ some (record o' { status = plan_ready }))
          (sym (orders3 ∙ orders2 ∙ ap (set_status id plan_ready) orders1))
          (find_order-set_status id plan_ready db.orders found),
      subst (λ x. plan_from_ledger h id x ≡ ok (some p)) db_same
          (subst (λ x. plan_from_ledger h id available.1 ≡ ok (some x)) p_same read),
      subst (IsPlanOf h agent_id run_id result) p_same (
          plan_packet-IsPlanOf h id agent_id run_id result run received.0 available.0
            (append_ledger_payload c id "plan.received" run.executor "broker:awr"
              (plan_payload h agent_id run_id run result) db a1)
            a4),
    )
