-- ===== src/Responses/Payload.antt =====
-- src/awr/responses/validate.py, `_validate_payload`: the fields of each type of response.
use agent_work_relay.Prelude.{
  ℕ, ◌+◌, String, Bool, true, false, ◌==◌, Option, none, some, [], ◌∷◌, ok, err, ◌>>=◌, ◌>>◌,
  require, leb, contains, if◌then◌else◌,
}
use agent_work_relay.Host.{
  Host, Value, bool, int, list, dict, Items, nil, item, Fields, end, field, get, has_key, to_text,
}
use agent_work_relay.Lifecycle.Responses.{
  ResponseType, receipt_accepted, plan_completed, question_blocked, execution_acknowledged,
  execution_progress, execution_completed, execution_failed, review_completed,
}
use agent_work_relay.Responses.Checks.{Checked, packet_error, max_collection, object_of}

-- `response_type.value`
unfoldable pub type_value : ResponseType → String
type_value receipt_accepted = "receipt.accepted"
type_value plan_completed = "plan.completed"
type_value question_blocked = "question.blocked"
type_value execution_acknowledged = "execution.acknowledged"
type_value execution_progress = "execution.progress"
type_value execution_completed = "execution.completed"
type_value execution_failed = "execution.failed"
type_value review_completed = "review.completed"

-- `ResponseType(s)`
unfoldable pub type_from_value : String → Option ResponseType
type_from_value s =
    if s == "receipt.accepted"
    then some receipt_accepted
    else if s == "plan.completed"
    then some plan_completed
    else if s == "question.blocked"
    then some question_blocked
    else if s == "execution.acknowledged"
    then some execution_acknowledged
    else if s == "execution.progress"
    then some execution_progress
    else if s == "execution.completed"
    then some execution_completed
    else if s == "execution.failed"
    then some execution_failed
    else if s == "review.completed"
    then some review_completed
    else none

-- `len(items)`
abbrev pub count : Items → ℕ
count nil = 0
count (item v rest) = 1 + count rest

unfoldable pub question_of : Value → Checked Fields
question_of (dict q) = object_of ("id" ∷ "text" ∷ []) [] ("text" ∷ []) q
question_of v = err packet_error

unfoldable pub clean_questions : Items → Checked Items
clean_questions nil = ok nil
clean_questions (item v rest) =
    let others = clean_questions rest in
    do q ← question_of v; cleaned ← others; ok (item (dict q) cleaned)

unfoldable pub questions_of : Value → Checked Fields
questions_of (list (item v rest)) = do
  require (leb (count (item v rest)) max_collection) packet_error
  cleaned ← clean_questions (item v rest)
  ok (field "questions" (list cleaned) end)
questions_of v = err packet_error

-- `isinstance(percent, int) and 0 <= percent <= 100`
abbrev pub is_percent : Value → Bool
is_percent (bool b) = true
is_percent (int n) = leb n 100
is_percent _ = false

unfoldable pub check_percent : Fields → Checked Fields
check_percent typed = do
  require (if has_key "percent" typed then is_percent (get typed "percent") else true) packet_error
  ok typed

-- `ReviewOutcome(str(typed["outcome"]))`
unfoldable pub check_outcome : Host → Fields → Checked Fields
check_outcome h typed = do
  require (contains (to_text h (get typed "outcome")) ("APPROVED" ∷ "REVISE" ∷ "REJECTED" ∷ []))
      packet_error
  ok typed

unfoldable pub validate_payload : Host → ResponseType → Fields → Checked Fields
validate_payload h receipt_accepted payload =
    object_of ("receipt_type" ∷ "status" ∷ "content_sha256" ∷ [])
      ("ledger_sequence" ∷ "bundle_sha256" ∷ "duplicate" ∷ []) [] payload
validate_payload h plan_completed payload =
    object_of ("content" ∷ "content_sha256" ∷ []) ("title" ∷ "plan_id" ∷ []) ("content" ∷ [])
      payload
validate_payload h question_blocked payload = questions_of (get payload "questions")
validate_payload h execution_acknowledged payload =
    object_of ("executor" ∷ "executor_run_id" ∷ []) ("message" ∷ []) [] payload
validate_payload h execution_progress payload = do
  typed ← object_of ("message" ∷ []) ("percent" ∷ []) [] payload
  check_percent typed
validate_payload h execution_completed payload =
    object_of ("summary" ∷ [])
      ("content_sha256" ∷ "repository" ∷ "branch" ∷ "base_ref" ∷ "commit_sha" ∷ "pull_request_url"
        ∷ "limitations" ∷ "blockers" ∷ [])
      ("summary" ∷ []) payload
validate_payload h execution_failed payload =
    object_of ("error_type" ∷ "message" ∷ []) [] [] payload
validate_payload h review_completed payload = do
  typed ← object_of ("outcome" ∷ "rationale" ∷ []) [] ("rationale" ∷ []) payload
  check_outcome h typed
