-- ===== src/Directives/Frontmatter.antt =====
-- src/awr/decorators.py: the frontmatter of a document that leads with `@input`.
use agent_work_relay.Prelude.{
  ℕ, ◌-◌, String, Bool, true, false, ◌||◌, ◌==◌, Option, none, some, List, [], ◌∷◌, Result, ok, err,
  ◌>>=◌, leb, is_empty, text_length, strip, strip_left, strip_code, starts_with, join, splitlines,
  partition, contains, if◌then◌else◌,
}

-- DirectiveError
pub data DirectiveError : Type 0 where
  directive_error : DirectiveError

abbrev pub Outcome : Type 0 → Type 0
Outcome A = Result DirectiveError A

-- The lines behind the first "---", which only blank lines stand before (`_frontmatter_open_index`).
unfoldable pub after_open : List String → Outcome (List String)
after_open [] = err directive_error
after_open (line ∷ rest) =
    let later = after_open rest in
    if is_empty (strip line)
    then later
    else if strip line == "---"
    then ok rest
    else err directive_error

-- The lines before the closing "---", and those behind it (`_frontmatter_close_index`).
unfoldable pub before_close : List String → Outcome (List String × List String)
before_close [] = err directive_error
before_close (line ∷ rest) =
    let later = before_close rest in
    if strip line == "---" then ok ([], rest) else (do r ← later; ok (line ∷ r.0, r.1))

-- A dictionary, the last entry first.
abbrev pub Mapping : Type 0
Mapping = List (String × String)

unfoldable pub get_text : Mapping → String → Option String
get_text [] key = none
get_text (entry ∷ rest) key = if entry.0 == key then some entry.1 else get_text rest key

-- `len(raw) - len(raw.lstrip())`
abbrev indent_of : String → ℕ
indent_of raw = text_length raw - text_length (strip_left raw)

-- `value.strip().strip('"').strip("'")`
abbrev unquoted : String → String
unquoted value = strip_code 39 (strip_code 34 (strip value))

abbrev with_value : String → String → Mapping → Mapping
with_value key value m = if contains value ("" ∷ "|" ∷ ">" ∷ []) then m else (key, value) ∷ m

abbrev with_line : String × Bool × String → Mapping → Mapping
with_line (key, found, value) m = if found then with_value (strip key) (unquoted value) m else m

-- The loop of `_parse_awr_mapping`, inside the mapping.
unfoldable pub awr_entries : ℕ → Mapping → List String → Mapping
awr_entries indent m [] = m
awr_entries indent m (raw ∷ rest) =
    elim (is_empty (strip raw) || starts_with (strip_left raw) "#") [
      | true ↦ awr_entries indent m rest
      | false ↦ elim (leb (indent_of raw) indent) [
        | true ↦ m
        | false ↦ awr_entries indent (with_line (partition (strip raw)) m) rest
      ]
    ]

-- The loop of `_parse_awr_mapping`, before the mapping.
unfoldable pub find_awr : List String → Mapping
find_awr [] = []
find_awr (raw ∷ rest) =
    if starts_with (strip_left raw) "awr:"
    then awr_entries (indent_of raw) [] rest
    else find_awr rest

abbrev not_empty : Mapping → Outcome Mapping
not_empty [] = err directive_error
not_empty (entry ∷ rest) = ok (entry ∷ rest)

-- `_parse_awr_mapping`
unfoldable pub parse_awr_mapping : String → Outcome Mapping
parse_awr_mapping text = not_empty (find_awr (splitlines text))

-- The frontmatter of a document with the lines `lines`, behind its first line.
unfoldable pub input_mapping : List String → Outcome Mapping
input_mapping rest = do
  inside ← after_open rest
  parts ← before_close inside
  parse_awr_mapping (join "\n" parts.0)
