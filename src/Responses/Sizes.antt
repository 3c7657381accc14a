-- ===== src/Responses/Sizes.antt =====
-- The sizes of the texts in a dict that src/awr/responses/validate.py accepts.
use agent_work_relay.Prelude.{
  ℕ, ◌≡◌, inl, inr, refl, subst, String, Bool, true, false, not, ◌&&◌, ◌||◌, ◌==◌, List, [], ◌∷◌,
  ok, leb, utf8_length, contains, ends_with, if◌then◌else◌, arith, eq_iff, bind-eq-ok,
  require-eq-ok, ok-injective, Bool-cases,
}
use agent_work_relay.Host.{
  Value, bool, int, negative, str, list, dict, Fields, end, field, get, has_key, all_keys, extend,
}
use agent_work_relay.Responses.Checks.{
  packet_error, require_string, is_digest, digest, limit_of, as_text, required_value, is_int,
  is_bool, checked_value, optional_value, take_required, is_null, take_optional, object_of,
}
use agent_work_relay.Responses.Bounds.{require_string_sound, digest_sound}

-- A digest under a key that ends in "sha256", and a text within the limit of its key under another one.
abbrev pub text_fits : (String → ℕ) → String → String → Bool
text_fits limit key s =
    if ends_with key "sha256" then is_digest s else leb (utf8_length s) (limit key)

-- A text, or a value without texts in it.
abbrev pub scalar_fits : (String → ℕ) → String → Value → Bool
scalar_fits limit key (str s) = text_fits limit key s
scalar_fits limit key (list items) = false
scalar_fits limit key (dict d) = false
scalar_fits limit key _ = true

unfoldable pub scalars_fit : (String → ℕ) → Fields → Bool
scalars_fit limit end = true
scalars_fit limit (field k v rest) = scalar_fits limit k v && scalars_fit limit rest

scalars_fit-extend :
    (limit : String → ℕ) (a b : Fields)
    → scalars_fit limit a ≡ true
    → scalars_fit limit b ≡ true
    → scalars_fit limit (extend a b) ≡ true
unfolding scalars_fit extend
scalars_fit-extend limit end b p q = q
scalars_fit-extend limit (field k v rest) b p q = ground (arith, scalars_fit-extend limit rest b)

as_text-string :
    (limit : String → ℕ) (key : String) (v : Value) {w : Value}
    → ends_with key "sha256" ≡ false
    → as_text (require_string v (limit key)) ≡ ok w
    → scalar_fits limit key w ≡ true
as_text-string limit key v {w} plain e =
    let (s, e1, e2) = bind-eq-ok (require_string v (limit key)) _ e in
    let within = (require_string_sound v (limit key) e1).1.1 in
    let fits : scalar_fits limit key (str s) ≡ true = rw plain (ground arith) in
    subst (λ x. scalar_fits limit key x ≡ true) (ok-injective e2) fits

as_text-digest :
    (limit : String → ℕ) (key : String) (v : Value) {w : Value}
    → ends_with key "sha256" ≡ true
    → as_text (digest v) ≡ ok w
    → scalar_fits limit key w ≡ true
as_text-digest limit key v hex e =
    let (s, e1, e2) = bind-eq-ok (digest v) _ e in
    let fits : scalar_fits limit key (str s) ≡ true = rw hex (digest_sound v e1) in
    subst (λ x. scalar_fits limit key x ≡ true) (ok-injective e2) fits

required_value_fits :
    (body_fields : List String) (key : String) (v : Value) {w : Value}
    → (key == "percent") ≡ false
    → required_value body_fields key v ≡ ok w
    → scalar_fits (limit_of body_fields) key w ≡ true
unfolding required_value
required_value_fits body_fields key v n e = elim (Bool-cases (ends_with key "sha256")) [
  | inl p ↦ as_text-digest (limit_of body_fields) key v p (rw p at e)
  | inr p ↦ as_text-string (limit_of body_fields) key v p (rw (p, n) at e)
]

int_fits :
    (limit : String → ℕ) (key : String) (v : Value) {w : Value}
    → checked_value (is_int v) v ≡ ok w
    → scalar_fits limit key w ≡ true
int_fits limit key v e =
    let (c, e1) = require-eq-ok (is_int v) packet_error _ e in
    subst (λ x. scalar_fits limit key x ≡ true) (ok-injective e1) (int_scalar v c)
  where
    int_scalar : (v : Value) → is_int v ≡ true → scalar_fits limit key v ≡ true
    int_scalar (bool b) c = refl
    int_scalar (int n) c = refl
    int_scalar (negative n) c = refl
    int_scalar _ c = cc

bool_fits :
    (limit : String → ℕ) (key : String) (v : Value) {w : Value}
    → checked_value (is_bool v) v ≡ ok w
    → scalar_fits limit key w ≡ true
bool_fits limit key v e =
    let (c, e1) = require-eq-ok (is_bool v) packet_error _ e in
    subst (λ x. scalar_fits limit key x ≡ true) (ok-injective e1) (bool_scalar v c)
  where
    bool_scalar : (v : Value) → is_bool v ≡ true → scalar_fits limit key v ≡ true
    bool_scalar (bool b) c = refl
    bool_scalar _ c = cc

optional_value_fits :
    (body_fields : List String) (key : String) (v : Value) {w : Value}
    → optional_value body_fields key v ≡ ok w
    → scalar_fits (limit_of body_fields) key w ≡ true
unfolding optional_value
optional_value_fits body_fields key v e = elim (Bool-cases (ends_with key "sha256")) [
  | inl p ↦ as_text-digest (limit_of body_fields) key v p (rw p at e)
  | inr p ↦ elim (Bool-cases (key == "ledger_sequence" || key == "percent")) [
    | inl q ↦ int_fits (limit_of body_fields) key v (rw (p, q) at e)
    | inr q ↦ elim (Bool-cases (key == "duplicate")) [
      | inl r ↦ bool_fits (limit_of body_fields) key v (rw (p, q, r) at e)
      | inr r ↦ as_text-string (limit_of body_fields) key v p (rw (p, q, r) at e)
    ]
  ]
]

take_required_fits :
    (body_fields : List String) (payload : Fields) (keys : List String) {d : Fields}
    → contains "percent" keys ≡ false
    → take_required body_fields payload keys ≡ ok d
    → scalars_fit (limit_of body_fields) d ≡ true
unfolding take_required scalars_fit contains
take_required_fits body_fields payload [] n e =
    subst (λ x. scalars_fit (limit_of body_fields) x ≡ true) (ok-injective e) refl
take_required_fits body_fields payload (key ∷ keys) n e =
    let (_, e1) = require-eq-ok (has_key key payload) packet_error _ e in
    let (v, a, e2) = bind-eq-ok (required_value body_fields key (get payload key)) _ e1 in
    let (rest, b, e3) = bind-eq-ok (take_required body_fields payload keys) _ e2 in
    let other : (key == "percent") ≡ false =
      ground (arith, eq_iff key "percent", eq_iff "percent" key) in
    let none_left : contains "percent" keys ≡ false = ground arith in
    let first = required_value_fits body_fields key (get payload key) other a in
    let others = take_required_fits body_fields payload keys none_left b in
    subst (λ x. scalars_fit (limit_of body_fields) x ≡ true) (ok-injective e3) (ground arith)

take_optional_fits :
    (body_fields : List String) (payload : Fields) (keys : List String) {d : Fields}
    → take_optional body_fields payload keys ≡ ok d
    → scalars_fit (limit_of body_fields) d ≡ true
unfolding take_optional scalars_fit
take_optional_fits body_fields payload [] e =
    subst (λ x. scalars_fit (limit_of body_fields) x ≡ true) (ok-injective e) refl
take_optional_fits body_fields payload (key ∷ keys) e =
    elim (Bool-cases (not (has_key key payload) || is_null (get payload key))) [
      | inl p ↦ take_optional_fits body_fields payload keys (rw p at e)
      | inr p ↦
          let (v, a, e1) =
            bind-eq-ok (optional_value body_fields key (get payload key)) _ (rw p at e) in
          let (rest, b, e2) = bind-eq-ok (take_optional body_fields payload keys) _ e1 in
          let first = optional_value_fits body_fields key (get payload key) a in
          let others = take_optional_fits body_fields payload keys b in
          subst (λ x. scalars_fit (limit_of body_fields) x ≡ true) (ok-injective e2) (ground arith)
    ]

pub object_of_fits :
    (required optional body_fields : List String) (payload : Fields) {d : Fields}
    → contains "percent" required ≡ false
    → object_of required optional body_fields payload ≡ ok d
    → scalars_fit (limit_of body_fields) d ≡ true
unfolding object_of
object_of_fits required optional body_fields payload n e =
    let (_, e1) =
      require-eq-ok (all_keys (λ k. contains k required || contains k optional) payload)
        packet_error _ e in
    let (first, a, e2) = bind-eq-ok (take_required body_fields payload required) _ e1 in
    let (second, b, e3) = bind-eq-ok (take_optional body_fields payload optional) _ e2 in
    subst (λ x. scalars_fit (limit_of body_fields) x ≡ true) (ok-injective e3)
      (scalars_fit-extend (limit_of body_fields) first second
        (take_required_fits body_fields payload required n a)
        (take_optional_fits body_fields payload optional b))

-- Where the limits agree, so do the tests.
pub scalars_fit_same :
    (limit other : String → ℕ) (d : Fields)
    → ((key : String) → limit key ≡ other key)
    → scalars_fit limit d ≡ true
    → scalars_fit other d ≡ true
unfolding scalars_fit
scalars_fit_same limit other end same e = refl
scalars_fit_same limit other (field k (str s) rest) same e =
    ground (arith, same k, scalars_fit_same limit other rest same)
scalars_fit_same limit other (field k v rest) same e =
    ground (arith, scalars_fit_same limit other rest same)
