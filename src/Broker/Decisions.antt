-- ===== src/Broker/Decisions.antt =====
-- The table of decisions in src/awr/storage/sqlite.py, and the texts and fingerprints of decisions in
-- src/awr/lifecycle/decisions.py.
use agent_work_relay.Prelude.{
  String, Bool, false, ◌&&◌, ◌||◌, ◌==◌, Option, none, some, List, [], ◌∷◌, ◌++◌, ok, ◌>>◌, require,
  reject, leb, utf8_length, bare_digest, is_empty, text_ltb, strip, if◌then◌else◌,
}
use agent_work_relay.Host.{Host, Fields, end, field, str, dict, text_value}
use agent_work_relay.Lifecycle.Errors.{authority_error}
use agent_work_relay.Lifecycle.Errors
use agent_work_relay.Lifecycle.Decisions.{
  DecisionType, DecisionTargetKind, StoredDecision, approve_plan, reject_plan, accept_completion,
  request_revision, cancel, authorize_merge, authorize_main_push, authorize_deployment,
  authorize_destructive, plan, completion, review, work_order,
}
use agent_work_relay.Broker.Records.{Outcome, integrity_error, DecisionRow, Db}

-- `decision_type.value`
unfoldable pub decision_value : DecisionType → String
decision_value approve_plan = "approve_plan"
decision_value reject_plan = "reject_plan"
decision_value accept_completion = "accept_completion"
decision_value request_revision = "request_revision"
decision_value cancel = "cancel"
decision_value authorize_merge = "authorize_merge"
decision_value authorize_main_push = "authorize_main_push"
decision_value authorize_deployment = "authorize_deployment"
decision_value authorize_destructive = "authorize_destructive"

-- `DecisionType(s)`
unfoldable pub decision_from_value : String → Option DecisionType
decision_from_value s =
    if s == "approve_plan"
    then some approve_plan
    else if s == "reject_plan"
    then some reject_plan
    else if s == "accept_completion"
    then some accept_completion
    else if s == "request_revision"
    then some request_revision
    else if s == "cancel"
    then some cancel
    else if s == "authorize_merge"
    then some authorize_merge
    else if s == "authorize_main_push"
    then some authorize_main_push
    else if s == "authorize_deployment"
    then some authorize_deployment
    else if s == "authorize_destructive"
    then some authorize_destructive
    else none

-- `target_kind.value`
unfoldable pub target_value : DecisionTargetKind → String
target_value plan = "plan"
target_value completion = "completion"
target_value review = "review"
target_value work_order = "work_order"

-- `DecisionTargetKind(s)`
unfoldable pub target_from_value : String → Option DecisionTargetKind
target_from_value s =
    if s == "plan"
    then some plan
    else if s == "completion"
    then some completion
    else if s == "review"
    then some review
    else if s == "work_order"
    then some work_order
    else none

-- The fields that the fingerprint covers; `canonical_json` sorts them.
unfoldable pub fingerprint_fields : StoredDecision → Fields
fingerprint_fields d = field "decision_type" (str (decision_value d.decision_type)) (
    field "work_order_id" (str d.work_order_id) (
      field "actor" (str d.actor) (
        field "target_kind" (str (target_value d.target_kind)) (
          field "target_id" (str d.target_id) (
            field "target_sha256" (str (bare_digest d.target_sha256)) (
              field "permitted_action" (str d.permitted_action) (
                field "scope" (str d.scope) (
                  field "idempotency_key" (str d.idempotency_key) (
                    field "rationale" (str d.rationale)
                      (field "expires_at" (text_value d.expires_at) end))))))))))

unfoldable pub fingerprint_decision : Host → StoredDecision → String
fingerprint_decision h d = h.sha256 (h.canonical_json (dict (fingerprint_fields d)))

unfoldable pub decision_dict : StoredDecision → Fields
decision_dict d = field "decision_id" (str d.decision_id) (
    field "decision_type" (str (decision_value d.decision_type)) (
      field "work_order_id" (str d.work_order_id) (
        field "actor" (str d.actor) (
          field "target_kind" (str (target_value d.target_kind)) (
            field "target_id" (str d.target_id) (
              field "target_sha256" (str d.target_sha256) (
                field "permitted_action" (str d.permitted_action) (
                  field "scope" (str d.scope) (
                    field "created_at" (str d.created_at) (
                      field "idempotency_key" (str d.idempotency_key) (
                        field "rationale" (str d.rationale)
                          (field "expires_at" (text_value d.expires_at) end))))))))))))

unfoldable pub require_rationale : String → Errors.Outcome String
require_rationale rationale = do
  reject (is_empty (strip rationale)) authority_error
  require (leb (utf8_length (strip rationale)) 512) authority_error
  ok (strip rationale)

-- A row that the primary key or the unique index does not admit beside `old`.
abbrev decision_clashes : DecisionRow → DecisionRow → Bool
decision_clashes row old =
    old.decision.decision_id == row.decision.decision_id
    || (old.decision.actor == row.decision.actor
        && decision_value old.decision.decision_type == decision_value row.decision.decision_type
        && old.decision.idempotency_key == row.decision.idempotency_key)

unfoldable pub any_decision_clash : DecisionRow → List DecisionRow → Bool
any_decision_clash row [] = false
any_decision_clash row (old ∷ rest) = decision_clashes row old || any_decision_clash row rest

unfoldable pub put_decision : DecisionRow → Db → Outcome Db
put_decision row db = do
  reject (any_decision_clash row db.decisions) integrity_error
  ok (record db { decisions = db.decisions ++ row ∷ [] })

-- The place of a row among later ones by `created_at`; of equal times the earlier row stays first.
unfoldable pub place_decision : DecisionRow → List DecisionRow → List DecisionRow
place_decision row [] = row ∷ []
place_decision row (r ∷ rest) =
    if text_ltb row.decision.created_at r.decision.created_at
    then row ∷ r ∷ rest
    else r ∷ place_decision row rest

unfoldable pub order_decisions : List DecisionRow → List DecisionRow → List DecisionRow
order_decisions sorted [] = sorted
order_decisions sorted (row ∷ rest) = order_decisions (place_decision row sorted) rest

unfoldable pub rows_of : String → List DecisionRow → List DecisionRow
rows_of id [] = []
rows_of id (row ∷ rest) =
    let others = rows_of id rest in
    if row.decision.work_order_id == id then row ∷ others else others

-- `SELECT * FROM decisions WHERE work_order_id = ? ORDER BY created_at`
unfoldable pub list_decisions : String → Db → List DecisionRow
list_decisions id db = order_decisions [] (rows_of id db.decisions)

-- `None if expires in (None, "") else expires`
abbrev pub read_expiry : Option String → Option String
read_expiry none = none
read_expiry (some s) = if s == "" then none else some s

-- `StoredDecision.from_dict`
abbrev pub read_decision : DecisionRow → StoredDecision
read_decision row = record row.decision { expires_at = read_expiry row.decision.expires_at }

unfoldable pub read_decisions : List DecisionRow → List StoredDecision
read_decisions [] = []
read_decisions (row ∷ rest) = read_decision row ∷ read_decisions rest
