-- ===== src/Host.antt =====
-- What the program takes from Python and its libraries: JSON values and their `str`, the clock and
-- ISO 8601 times, SHA-256. The operations that the program only calls are fields of a record.
use agent_work_relay.Prelude.{
  ℕ, String, Bool, true, false, not, ◌&&◌, ◌||◌, Option, none, some, ◌==◌, leb, if◌then◌else◌,
}

-- A JSON value as `Any` holds it. A float has its truth value and its `repr`.
mutual
  pub data Value : Type 0 where
    null : Value
    bool : Bool → Value
    int : ℕ → Value
    negative : ℕ → Value
    float : Bool → String → Value
    str : String → Value
    list : Items → Value
    dict : Fields → Value

  pub data Items : Type 0 where
    nil : Items
    item : Value → Items → Items

  pub data Fields : Type 0 where
    end : Fields
    field : String → Value → Fields → Fields

-- `payload.get(key)`; a key that is missing and one that holds None read alike.
unfoldable pub get : Fields → String → Value
get end key = null
get (field k v rest) key = if k == key then v else get rest key

-- `key in payload`
unfoldable pub has_key : String → Fields → Bool
has_key key end = false
has_key key (field k v rest) = k == key || has_key key rest

-- Every key of the dict passes the test.
unfoldable pub all_keys : (String → Bool) → Fields → Bool
all_keys p end = true
all_keys p (field k v rest) = p k && all_keys p rest

-- The fields of the first dict, then those of the second.
unfoldable pub extend : Fields → Fields → Fields
extend end others = others
extend (field k v rest) others = field k v (extend rest others)

-- `v` for `v : str | None`
abbrev pub text_value : Option String → Value
text_value none = null
text_value (some s) = str s

-- `v` for `v : int | None`
abbrev pub number_value : Option ℕ → Value
number_value none = null
number_value (some n) = int n

-- `bool(v)`; `negative n` is the number -(n + 1)
unfoldable pub value_truthy : Value → Bool
value_truthy null = false
value_truthy (bool b) = b
value_truthy (int n) = not (leb n 0)
value_truthy (negative n) = true
value_truthy (float b text) = b
value_truthy (str s) = not (s == "")
value_truthy (list nil) = false
value_truthy (list (item v rest)) = true
value_truthy (dict end) = false
value_truthy (dict (field k v rest)) = true

-- `v == o` for `o : str | None`
unfoldable pub value_eq : Value → Option String → Bool
value_eq null none = true
value_eq (str s) (some t) = s == t
value_eq _ _ = false

-- What `datetime.fromisoformat` returns, in microseconds: a time without a zone, or with one.
pub data Parsed : Type 0 where
  naive : ℕ → Parsed
  aware : ℕ → Parsed

-- `parsed.replace(tzinfo=UTC)` where there is no zone
abbrev pub as_utc : Parsed → ℕ
as_utc (naive t) = t
as_utc (aware t) = t

pub record Host : Type 0 where
  -- `datetime.fromisoformat`; `none` where it raises ValueError
  pub from_iso : String → Option Parsed
  -- `datetime.now(UTC)` during the call
  pub now : ℕ
  -- `str` of numbers and of containers
  pub repr : Value → String
  -- `hashlib.sha256(s.encode("utf-8")).hexdigest()`
  pub sha256 : String → String
  -- `json.dumps(v, sort_keys=True, separators=(",", ":"), ensure_ascii=False)`
  pub canonical_json : Value → String
  -- `int(v)`; `none` where it raises
  pub to_int : Value → Option Value

-- `str(v)`
unfoldable pub to_text : Host → Value → String
to_text h null = "None"
to_text h (bool true) = "True"
to_text h (bool false) = "False"
to_text h (float b text) = text
to_text h (str s) = s
to_text h v = h.repr v
