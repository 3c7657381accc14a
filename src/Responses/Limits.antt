-- ===== src/Responses/Limits.antt =====
-- The limits of the texts in a payload, by the type of the response (src/awr/responses/validate.py).
use agent_work_relay.Prelude.{
  ℕ, ◌≡◌, refl, subst, String, Bool, true, false, ◌&&◌, ◌==◌, List, [], ◌∷◌, ok, leb, contains,
  if◌then◌else◌, arith, eq_iff, bind-eq-ok, require-eq-ok, ok-injective,
}
use agent_work_relay.Host.{Host, Value, str, list, dict, Items, nil, item, Fields, end, field}
use agent_work_relay.Responses.Checks.{packet_error, max_collection, limit_of, object_of}
use agent_work_relay.Lifecycle.Responses.{
  ResponseType, receipt_accepted, plan_completed, question_blocked, execution_acknowledged,
  execution_progress, execution_completed, execution_failed, review_completed,
}
use agent_work_relay.Responses.Payload.{
  count, question_of, clean_questions, questions_of, check_percent, check_outcome, validate_payload,
}
use agent_work_relay.Responses.Sizes.{scalar_fits, scalars_fit, scalars_fit_same, object_of_fits}

-- The questions are dicts of such values.
unfoldable pub questions_fit : (String → ℕ) → Items → Bool
questions_fit limit nil = true
questions_fit limit (item (dict q) rest) = scalars_fit limit q && questions_fit limit rest
questions_fit limit (item v rest) = false

-- A text that fits, a value without texts, or a list of at most 32 questions with fitting texts.
abbrev pub value_fits : (String → ℕ) → String → Value → Bool
value_fits limit key (list items) = leb (count items) 32 && questions_fit limit items
value_fits limit key v = scalar_fits limit key v

unfoldable pub payload_fits : (String → ℕ) → Fields → Bool
payload_fits limit end = true
payload_fits limit (field k v rest) = value_fits limit k v && payload_fits limit rest

-- The limit of a text in the payload of a response: that of a body for the one long text that a response
-- of the type has, and that of a short text for any other.
unfoldable pub payload_limit : ResponseType → String → ℕ
payload_limit plan_completed key = if key == "content" then 262144 else 8192
payload_limit question_blocked key = if key == "text" then 262144 else 8192
payload_limit execution_completed key = if key == "summary" then 262144 else 8192
payload_limit review_completed key = if key == "rationale" then 262144 else 8192
payload_limit _ key = 8192

scalars→payload :
    (limit : String → ℕ) (d : Fields) → scalars_fit limit d ≡ true → payload_fits limit d ≡ true
unfolding scalars_fit payload_fits
scalars→payload limit end e = refl
scalars→payload limit (field k (list items) rest) e = ground arith
scalars→payload limit (field k (str s) rest) e = ground (arith, scalars→payload limit rest)
scalars→payload limit (field k v rest) e = ground (arith, scalars→payload limit rest)

-- The body fields of a type give the limits of the type.
long_limit : (long key : String) → limit_of (long ∷ []) key ≡ (if key == long then 262144 else 8192)
unfolding contains
long_limit long key = ground (arith, eq_iff key long)

short_limit : (key : String) → limit_of [] key ≡ 8192
unfolding contains
short_limit key = refl

clean_questions_fit :
    (items : Items) {cleaned : Items}
    → clean_questions items ≡ ok cleaned
    → (questions_fit (payload_limit question_blocked) cleaned ≡ true)
      × (count cleaned ≡ count items)
unfolding clean_questions questions_fit question_of contains payload_limit
clean_questions_fit nil e =
    subst (λ x. (questions_fit (payload_limit question_blocked) x ≡ true) × (count x ≡ 0))
      (ok-injective e) (refl, refl)
clean_questions_fit (item (dict q) rest) e =
    let limit = payload_limit question_blocked in
    let (c, a, e1) = bind-eq-ok (question_of (dict q)) _ e in
    let (others, b, e2) = bind-eq-ok (clean_questions rest) _ e1 in
    let (fits, many) = clean_questions_fit rest b in
    let first =
      scalars_fit_same (limit_of ("text" ∷ [])) limit c (long_limit "text")
        (object_of_fits ("id" ∷ "text" ∷ []) [] ("text" ∷ []) q refl a) in
    subst (λ x. (questions_fit limit x ≡ true) × (count x ≡ count (item (dict q) rest)))
      (ok-injective e2) (ground arith, omega arith)
clean_questions_fit (item _ rest) e = cc

questions_of_fits :
    (v : Value) {d : Fields}
    → questions_of v ≡ ok d
    → payload_fits (payload_limit question_blocked) d ≡ true
unfolding questions_of payload_fits
questions_of_fits (list (item v rest)) e =
    let (few, e1) = require-eq-ok (leb (count (item v rest)) max_collection) packet_error _ e in
    let (cleaned, a, e2) = bind-eq-ok (clean_questions (item v rest)) _ e1 in
    let (fits, many) = clean_questions_fit (item v rest) a in
    let at_most : leb (count cleaned) 32 ≡ true = rw many few in
    subst (λ x. payload_fits (payload_limit question_blocked) x ≡ true) (ok-injective e2)
      (ground arith)
questions_of_fits (list nil) e = cc
questions_of_fits _ e = cc

object_fits :
    (limit : String → ℕ) (required optional body_fields : List String) (payload : Fields)
    {d : Fields}
    → ((key : String) → limit_of body_fields key ≡ limit key)
    → contains "percent" required ≡ false
    → object_of required optional body_fields payload ≡ ok d
    → payload_fits limit d ≡ true
object_fits limit required optional body_fields payload {d} same n e = scalars→payload limit d (
    scalars_fit_same (limit_of body_fields) limit d same
      (object_of_fits required optional body_fields payload n e))

pub validate_payload_fits :
    (h : Host) (t : ResponseType) (payload : Fields) {d : Fields}
    → validate_payload h t payload ≡ ok d
    → payload_fits (payload_limit t) d ≡ true
unfolding validate_payload contains check_percent check_outcome payload_limit
validate_payload_fits h receipt_accepted payload e =
    object_fits (payload_limit receipt_accepted) _ _ [] payload short_limit refl e
validate_payload_fits h plan_completed payload e =
    object_fits (payload_limit plan_completed) _ _ _ payload (long_limit "content") refl e
validate_payload_fits h question_blocked payload e = questions_of_fits _ e
validate_payload_fits h execution_acknowledged payload e =
    object_fits (payload_limit execution_acknowledged) _ _ [] payload short_limit refl e
validate_payload_fits h execution_progress payload e =
    let (typed, a, e1) =
      bind-eq-ok (object_of ("message" ∷ []) ("percent" ∷ []) [] payload) check_percent e in
    let (_, e2) = require-eq-ok _ packet_error (ok typed) e1 in
    subst (λ x. payload_fits (payload_limit execution_progress) x ≡ true) (ok-injective e2)
      (object_fits (payload_limit execution_progress) _ _ [] payload short_limit refl a)
validate_payload_fits h execution_completed payload e =
    object_fits (payload_limit execution_completed) _ _ _ payload (long_limit "summary") refl e
validate_payload_fits h execution_failed payload e =
    object_fits (payload_limit execution_failed) _ _ [] payload short_limit refl e
validate_payload_fits h review_completed payload e =
    let (typed, a, e1) =
      bind-eq-ok (object_of ("outcome" ∷ "rationale" ∷ []) [] ("rationale" ∷ []) payload)
        (check_outcome h) e in
    let (_, e2) = require-eq-ok _ packet_error (ok typed) e1 in
    subst (λ x. payload_fits (payload_limit review_completed) x ≡ true) (ok-injective e2)
      (object_fits (payload_limit review_completed) _ _ _ payload (long_limit "rationale") refl a)
