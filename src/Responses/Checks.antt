-- ===== src/Responses/Checks.antt =====
-- src/awr/responses/validate.py and canonical.py: the tests of single values.
use agent_work_relay.Prelude.{
  ℕ, String, Bool, true, false, not, ◌&&◌, ◌||◌, ◌==◌, Option, none, some, List, [], ◌∷◌, Result,
  ok, err, ◌>>=◌, ◌>>◌, require, reject, leb, nat_eq, is_empty, utf8_length, text_length, all_codes,
  bare_digest, contains, ends_with, if◌then◌else◌,
}
use agent_work_relay.Host.{
  Value, null, bool, int, negative, str, Fields, end, field, get, has_key, all_keys, extend,
}

-- `ResponsePacketError`, a ValueError; `KeyError`; and what `int` raises.
pub data Refusal : Type 0 where
  packet_error key_error int_error : Refusal

abbrev pub Checked : Type 0 → Type 0
Checked A = Result Refusal A

abbrev pub max_string_bytes : ℕ
max_string_bytes = 8192

abbrev pub max_body_bytes : ℕ
max_body_bytes = 262144

abbrev pub max_collection : ℕ
max_collection = 32

abbrev pub max_evidence_refs : ℕ
max_evidence_refs = 10

abbrev pub max_packet_bytes : ℕ
max_packet_bytes = 524288

unfoldable pub require_string : Value → ℕ → Checked String
require_string (str s) limit = do
  reject (is_empty s) packet_error
  require (leb (utf8_length s) limit) packet_error
  ok s
require_string v limit = err packet_error

unfoldable pub optional_string : Value → Checked (Option String)
optional_string null = ok none
optional_string v = do s ← require_string v max_string_bytes; ok (some s)

-- `char in "0123456789abcdef"`
abbrev pub is_hex : ℕ → Bool
is_hex c = (leb 48 c && leb c 57) || (leb 97 c && leb c 102)

abbrev pub is_digest : String → Bool
is_digest s = nat_eq (text_length s) 64 && all_codes is_hex s

unfoldable pub digest : Value → Checked String
digest v = do
  text ← require_string v max_string_bytes
  require (is_digest (bare_digest text)) packet_error
  ok (bare_digest text)

abbrev pub forbidden_inline_keys : List String
forbidden_inline_keys =
    "bytes" ∷ "diff" ∷ "log" ∷ "logs" ∷ "path" ∷ "report" ∷ "screenshot" ∷ "url" ∷ "signed_url" ∷ []

unfoldable pub reject_inline_blobs : Fields → Checked (Unit {0})
reject_inline_blobs payload =
    require (all_keys (λ k. not (contains k forbidden_inline_keys)) payload) packet_error

-- `MAX_BODY_BYTES if key in body_fields else MAX_STRING_BYTES`
abbrev pub limit_of : List String → String → ℕ
limit_of body_fields key = if contains key body_fields then max_body_bytes else max_string_bytes

abbrev pub as_text : Checked String → Checked Value
as_text c = do s ← c; ok (str s)

unfoldable pub required_value : List String → String → Value → Checked Value
required_value body_fields key v =
    if ends_with key "sha256"
    then as_text (digest v)
    else if key == "percent"
    then ok v
    else as_text (require_string v (limit_of body_fields key))

-- `isinstance(v, int)`, which holds of `bool` too
abbrev pub is_int : Value → Bool
is_int (bool b) = true
is_int (int n) = true
is_int (negative n) = true
is_int _ = false

-- `isinstance(v, bool)`
abbrev pub is_bool : Value → Bool
is_bool (bool b) = true
is_bool _ = false

abbrev pub checked_value : Bool → Value → Checked Value
checked_value c v = do require c packet_error; ok v

unfoldable pub optional_value : List String → String → Value → Checked Value
optional_value body_fields key v =
    if ends_with key "sha256"
    then as_text (digest v)
    else if key == "ledger_sequence" || key == "percent"
    then checked_value (is_int v) v
    else if key == "duplicate"
    then checked_value (is_bool v) v
    else as_text (require_string v (limit_of body_fields key))

unfoldable pub take_required : List String → Fields → List String → Checked Fields
take_required body_fields payload [] = ok end
take_required body_fields payload (key ∷ keys) =
    let others = take_required body_fields payload keys in
    do
      require (has_key key payload) packet_error
      v ← required_value body_fields key (get payload key)
      rest ← others
      ok (field key v rest)

-- A key that holds None is passed over like one that is missing.
abbrev pub is_null : Value → Bool
is_null null = true
is_null _ = false

unfoldable pub take_optional : List String → Fields → List String → Checked Fields
take_optional body_fields payload [] = ok end
take_optional body_fields payload (key ∷ keys) =
    let others = take_optional body_fields payload keys in
    if not (has_key key payload) || is_null (get payload key) then others else do
      v ← optional_value body_fields key (get payload key)
      rest ← others
      ok (field key v rest)

-- `_object`; the required keys are read before the optional ones.
unfoldable pub object_of : List String → List String → List String → Fields → Checked Fields
object_of required optional body_fields payload = do
  require (all_keys (λ k. contains k required || contains k optional) payload) packet_error
  first ← take_required body_fields payload required
  second ← take_optional body_fields payload optional
  ok (extend first second)
