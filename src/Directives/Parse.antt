-- ===== src/Directives/Parse.antt =====
-- src/awr/decorators.py: the directive that leads a submitted document.
use agent_work_relay.Prelude.{
  ℕ, String, Bool, true, false, not, ◌&&◌, ◌||◌, ◌==◌, Option, none, some, List, [], ◌∷◌, ok, err,
  ◌>>=◌, ◌>>◌, require, reject, leb, nat_eq, is_empty, all_codes, strip, strip_left, strip_prefix,
  strip_code_left, starts_with, join, splitlines, keep, contains, or_option, if◌then◌else◌,
}
use agent_work_relay.Contracts.{WorkKind, feature, refinement, WorkAction, plan, Directive}
use agent_work_relay.Directives.Frontmatter.{
  directive_error, Outcome, after_open, before_close, Mapping, get_text, input_mapping,
}

abbrev pub or_error : {A : Type 0} → Option A → Outcome A
or_error none = err directive_error
or_error (some a) = ok a

-- `[A-Za-z0-9._:-]`
abbrev is_id_code : ℕ → Bool
is_id_code c =
    (leb 65 c && leb c 90)
    || (leb 97 c && leb c 122)
    || (leb 48 c && leb c 58)
    || nat_eq c 46
    || nat_eq c 95
    || nat_eq c 45

-- `\s+`: the rest behind the white space, of which there is some
abbrev after_space : String → Option String
after_space s = if strip_left s == s then none else some (strip_left s)

-- `[A-Za-z0-9._:-]+$`
abbrev parent_id : Option String → Option (Option String)
parent_id none = none
parent_id (some s) = if not (is_empty s) && all_codes is_id_code s then some (some s) else none

abbrev after_parent : Option String → Option (Option String)
after_parent none = none
after_parent (some s) = parent_id (strip_prefix "parent=" s)

-- `(?:\s+parent=(?P<parent>[A-Za-z0-9._:-]+))?$`
abbrev parent_part : String → Option (Option String)
parent_part s = if is_empty s then some none else after_parent (after_space s)

abbrev with_kind : WorkKind → Option String → Option (WorkKind × Option String)
with_kind kind none = none
with_kind kind (some rest) = elim (parent_part rest) [
  | none ↦ none
  | some parent ↦ some (kind, parent)
]

abbrev first_of :
    Option (WorkKind × Option String)
    → Option (WorkKind × Option String)
    → Option (WorkKind × Option String)
first_of none other = other
first_of (some x) other = some x

abbrev kind_part : Option String → Option (WorkKind × Option String)
kind_part none = none
kind_part (some s) =
    first_of (with_kind feature (strip_prefix "feature.plan" s))
      (with_kind refinement (strip_prefix "refinement.plan" s))

-- `_DIRECTIVE.fullmatch(line)`
unfoldable pub match_directive : String → Option (WorkKind × Option String)
match_directive line = elim (strip_prefix "@awr" line) [
  | none ↦ none
  | some s ↦ kind_part (after_space s)
]

-- `_bound_plan_directive`; the only action is the plan.
unfoldable pub bound_plan_directive :
    WorkKind → WorkAction → Option String → String → Outcome Directive
bound_plan_directive refinement action none form = err directive_error
bound_plan_directive feature action (some parent) form = err directive_error
bound_plan_directive kind action parent form =
    ok (record { kind = kind; action = action; parent_work_order_id = parent; form = form })

-- The lines from the first that is not blank on.
unfoldable pub from_text : List String → List String
from_text [] = []
from_text (line ∷ rest) = if is_empty (strip line) then from_text rest else line ∷ rest

-- `intent and message_type disagree`, from what the two keys hold
abbrev pub disagree : Option String → Option String → Bool
disagree (some s) (some t) = not (is_empty s) && not (is_empty t) && not (s == t)
disagree s t = false

abbrev pub kind_of : String → Outcome WorkKind
kind_of intent =
    if intent == "feature.plan"
    then ok feature
    else if intent == "refinement.plan"
    then ok refinement
    else err directive_error

-- The mapping asks for an execution.
unfoldable pub asks_execution : Mapping → Bool
asks_execution m = elim (get_text m "execution_authorized") [
  | none ↦ false
  | some v ↦ contains v ("true" ∷ "True" ∷ "yes" ∷ "1" ∷ [])
]

-- The mapping asks for no authority, or for a plan only.
unfoldable pub asks_plan : Mapping → Bool
asks_plan m = elim (or_option (get_text m "requested_authority") (get_text m "requested_action")) [
  | none ↦ true
  | some v ↦ contains v ("plan_only" ∷ "plan" ∷ [])
]

abbrev pub named_parent : Option String → Option String
named_parent none = none
named_parent (some s) = if contains s ("" ∷ "null" ∷ "~" ∷ "None" ∷ []) then none else some s

-- `_parse_input_directive`, from the mapping on
unfoldable pub directive_of_mapping : Mapping → Outcome Directive
directive_of_mapping m = do
  reject (disagree (get_text m "intent") (get_text m "message_type")) directive_error
  intent ← or_error (or_option (get_text m "intent") (get_text m "message_type"))
  kind ← kind_of intent
  reject (asks_execution m) directive_error
  require (asks_plan m) directive_error
  bound_plan_directive kind plan (named_parent (get_text m "parent_work_order_id")) "input"

abbrev pub only : List String → Outcome String
only (s ∷ []) = ok s
only _ = err directive_error

unfoldable pub stripped : List String → List String
stripped [] = []
stripped (line ∷ rest) = strip line ∷ stripped rest

-- `_parse_input_directive`; `rest` are the lines behind the first that is not blank.
unfoldable pub parse_input_directive : List String → List String → Outcome Directive
parse_input_directive lines rest = do
  mark ← only (keep (λ s. s == "@input") (stripped lines))
  m ← input_mapping rest
  directive_of_mapping m

abbrev pub first_line : List String → Outcome String
first_line [] = err directive_error
first_line (line ∷ rest) = ok line

-- `parse_directive`, for a document that does not lead with "@input"
unfoldable pub parse_alias : List String → Outcome Directive
parse_alias lines = do
  line ← only (keep (λ s. starts_with s "@awr") (stripped lines))
  first ← first_line lines
  require (strip first == line) directive_error
  found ← or_error (match_directive line)
  bound_plan_directive found.0 plan found.1 "awr_alias"

abbrev pub parse_lines : List String → List String → Outcome Directive
parse_lines lines [] = err directive_error
parse_lines lines (heading ∷ rest) =
    if strip heading == "@input" then parse_input_directive lines rest else parse_alias lines

unfoldable pub parse_directive : String → Outcome Directive
parse_directive markdown = parse_lines (splitlines markdown) (from_text (splitlines markdown))

abbrev behind_first : List String → List String
behind_first [] = []
behind_first (line ∷ rest) = rest

abbrev body_of : List String → String
body_of lines = strip_code_left 10 (join "\n" lines)

abbrev strip_lines : List String → List String → Outcome String
strip_lines lines [] = ok (body_of (behind_first lines))
strip_lines lines (heading ∷ rest) =
    if strip heading == "@input"
    then (do inside ← after_open rest; parts ← before_close inside; ok (body_of parts.1))
    else ok (body_of (behind_first lines))

unfoldable pub strip_directive : String → Outcome String
strip_directive markdown = strip_lines (splitlines markdown) (from_text (splitlines markdown))
