-- ===== src/Lifecycle/Decisions.antt =====
-- src/awr/lifecycle/decisions.py: the decisions that people record, and the approval of a plan.

use agent_work_relay.Prelude.{
  String, Bool, true, false, not, ◌&&◌, Option, none, some, List, [], ◌∷◌, ◌==◌, leb, ok, err,
  ◌>>=◌, bare_digest, if◌then◌else◌,
}
use agent_work_relay.Host.{Host, Parsed, as_utc}
use agent_work_relay.Lifecycle.Errors.{Outcome, authority_error, value_error}

pub data DecisionType : Type 0 where
  approve_plan reject_plan accept_completion request_revision cancel : DecisionType
  authorize_merge authorize_main_push authorize_deployment authorize_destructive : DecisionType

pub data DecisionTargetKind : Type 0 where
  plan completion review work_order : DecisionTargetKind

pub record StoredDecision : Type 0 where
  pub decision_id : String
  pub decision_type : DecisionType
  pub work_order_id : String
  pub actor : String
  pub target_kind : DecisionTargetKind
  pub target_id : String
  pub target_sha256 : String
  pub permitted_action : String
  pub scope : String
  pub created_at : String
  pub idempotency_key : String
  pub rationale : String
  pub expires_at : Option String

-- `decision.decision_type is DecisionType.APPROVE_PLAN`
abbrev pub is_approve_plan : DecisionType → Bool
is_approve_plan approve_plan = true
is_approve_plan _ = false

-- `decision.target_kind is DecisionTargetKind.PLAN`
abbrev pub is_plan_target : DecisionTargetKind → Bool
is_plan_target plan = true
is_plan_target _ = false

is_past : Host → Option Parsed → Outcome Bool
is_past h none = err value_error
is_past h (some parsed) = ok (leb (as_utc parsed) h.now)

is_expired_at : Host → Option String → Outcome Bool
unfolding is_past
is_expired_at h none = ok false
is_expired_at h (some raw) = if raw == "" then ok false else is_past h (h.from_iso raw)

unfoldable pub decision_is_expired : Host → StoredDecision → Outcome Bool
unfolding is_expired_at
decision_is_expired h d = is_expired_at h d.expires_at

-- The tests of the comprehension that stand before the one on the expiry.
unfoldable pub is_approval_of : String → String → StoredDecision → Bool
is_approval_of plan_id digest d =
    is_approve_plan d.decision_type
    && is_plan_target d.target_kind
    && d.target_id == plan_id
    && bare_digest d.target_sha256 == digest

-- The expiry is read only of a decision that passes the other tests.
unfoldable pub matches : Host → String → String → StoredDecision → Outcome Bool
unfolding is_approval_of
matches h plan_id digest d =
    if is_approval_of plan_id digest d
    then (do past ← decision_is_expired h d; ok (not past))
    else ok false

-- The list comprehension.
unfoldable pub matching :
    Host → String → String → List StoredDecision → Outcome (List StoredDecision)
matching h plan_id digest [] = ok []
matching h plan_id digest (d ∷ ds) =
    let rest = matching h plan_id digest ds in
    do hit ← matches h plan_id digest d; found ← rest; ok (if hit then d ∷ found else found)

-- `matches[-1]`
unfoldable pub last_match : List StoredDecision → Outcome StoredDecision
last_match [] = err authority_error
last_match (d ∷ []) = ok d
last_match (d ∷ e ∷ ds) = last_match (e ∷ ds)

unfoldable pub matching_plan_approval :
    Host → List StoredDecision → String → String → Outcome StoredDecision
matching_plan_approval h decisions plan_id plan_sha256 = do
  found ← matching h plan_id (bare_digest plan_sha256) decisions
  last_match found
