-- ===== src/Prelude/Text.antt =====
-- Python's operations on `str` and on `str | None` that the program uses.
use Prim.Native.Nat.{ℕ, zero, suc, Ordering}
use Prim.Native.Char.{code}
use Prim.Native.String
use Prim.Native.String.{String}
use mathlib.Core.Path.{◌≡◌, refl}
use mathlib.Core.Bool.{Bool, true, false, not, ◌&&◌, ◌||◌}
use mathlib.Core.List.{List, [], ◌∷◌}
use mathlib.Core.Option.{Option, none, some}
use native.Mathlib.Omega.{arith}
use text.Mathlib.Text.{◌==◌}
use text.Mathlib.TextEquality.{eq_iff}
use text.Mathlib.TextPositions.{eq_refl}
use agent_work_relay.Prelude.Tests.{leb, nat_eq, if◌then◌else◌}

-- The rest of the second text behind the first, if it begins with it.
unfoldable pub strip_prefix : String → String → Option String
strip_prefix String.[] s = some s
strip_prefix (String.◌∷◌ c p) String.[] = none
strip_prefix (String.◌∷◌ c p) (String.◌∷◌ d s) =
    let rest = strip_prefix p s in if nat_eq (code c) (code d) then rest else none

abbrev keep_or : String → Option String → String
keep_or s none = s
keep_or s (some rest) = rest

-- `s.removeprefix(p)`
unfoldable pub remove_prefix : String → String → String
unfolding strip_prefix
remove_prefix s p = keep_or s (strip_prefix p s)

abbrev is_rest : Option String → Bool
is_rest none = false
is_rest (some rest) = true

-- `s.startswith(p)`
unfoldable pub starts_with : String → String → Bool
unfolding strip_prefix
starts_with s p = is_rest (strip_prefix p s)

abbrev is_same : String → String → Bool
is_same s t = s == t

-- `s.endswith(p)`
unfoldable pub ends_with : String → String → Bool
ends_with String.[] p = is_same String.[] p
ends_with (String.◌∷◌ c s) p = is_same (String.◌∷◌ c s) p || ends_with s p

-- `len(s)`
abbrev pub text_length : String → ℕ
text_length s = String.count s

-- Every character of the text passes the test.
unfoldable pub all_codes : (ℕ → Bool) → String → Bool
all_codes p String.[] = true
all_codes p (String.◌∷◌ c s) = p (code c) && all_codes p s

-- `s[:n]`
unfoldable pub text_take : ℕ → String → String
text_take zero s = ""
text_take (suc n) String.[] = ""
text_take (suc n) (String.◌∷◌ c s) = String.◌∷◌ c (text_take n s)

-- `len(s.encode("utf-8"))`
abbrev pub utf8_length : String → ℕ
utf8_length s = String.len s

-- `a < b`: by code points, from the first
abbrev pub text_ltb : String → String → Bool
text_ltb a b = elim (String.compare a b) [ Ordering.lt ↦ true | _ ↦ false ]

-- `a + b`
abbrev pub concat : String → String → String
concat a b = String.◌++◌ a b

-- `separator.join(parts)`
unfoldable pub join : String → List String → String
join separator [] = ""
join separator (s ∷ []) = s
join separator (s ∷ rest) = concat s (concat separator (join separator rest))

-- `s.removeprefix("sha256:")`
abbrev pub bare_digest : String → String
bare_digest s = remove_prefix s "sha256:"

-- `c.isspace()`
unfoldable pub is_space : ℕ → Bool
is_space c =
    (leb 9 c && leb c 13)
    || (leb 28 c && leb c 32)
    || nat_eq c 133
    || nat_eq c 160
    || nat_eq c 5760
    || (leb 8192 c && leb c 8202)
    || nat_eq c 8232
    || nat_eq c 8233
    || nat_eq c 8239
    || nat_eq c 8287
    || nat_eq c 12288

-- `not s.strip()`
unfoldable pub is_blank : String → Bool
unfolding is_space
is_blank String.[] = true
is_blank (String.◌∷◌ c s) = is_space (code c) && is_blank s

-- `s.lstrip()`
unfoldable pub strip_left : String → String
unfolding is_space
strip_left String.[] = ""
strip_left (String.◌∷◌ c s) =
    let rest = strip_left s in if is_space (code c) then rest else String.◌∷◌ c s

-- `s.rstrip()`
strip_right : String → String
strip_right String.[] = ""
strip_right (String.◌∷◌ c s) =
    let rest = strip_right s in if is_blank (String.◌∷◌ c s) then "" else String.◌∷◌ c rest

-- `s.strip()`
unfoldable pub strip : String → String
unfolding strip_left strip_right
strip s = strip_right (strip_left s)

-- `bool(s)`
abbrev pub is_empty : String → Bool
is_empty s = s == ""

-- `bool(o)`
abbrev pub truthy : Option String → Bool
truthy none = false
truthy (some s) = not (s == "")

-- `o or d`
abbrev pub or_else : Option String → String → String
or_else none d = d
or_else (some s) d = if s == "" then d else s

-- `o or p`
abbrev pub or_option : Option String → Option String → Option String
or_option none p = p
or_option (some s) p = if s == "" then p else some s

-- `o == p`
abbrev pub option_eq : Option String → Option String → Bool
option_eq none none = true
option_eq (some s) (some t) = s == t
option_eq none (some t) = false
option_eq (some s) none = false

pub option_eq→eq : (o p : Option String) → option_eq o p ≡ true → o ≡ p
option_eq→eq none none h = refl
option_eq→eq none (some t) h = ground arith
option_eq→eq (some s) none h = ground arith
option_eq→eq (some s) (some t) h = ground (arith, eq_iff s t)

pub option_eq_refl : (o : Option String) → option_eq o o ≡ true
option_eq_refl none = refl
option_eq_refl (some s) = eq_refl s

remove_prefix_example : bare_digest "sha256:ab" ≡ "ab"
unfolding remove_prefix
remove_prefix_example = refl

is_blank_example : is_blank "  x" ≡ false
unfolding is_blank
is_blank_example = refl

strip_example : strip " a b " ≡ "a b"
unfolding strip is_blank
strip_example = refl
