-- ===== src/Prelude/Lines.antt =====
-- Python's `str.splitlines` and `str.partition`.
use Prim.Native.Nat.{ℕ}
use Prim.Native.Char.{code}
use Prim.Native.String
use Prim.Native.String.{String}
use mathlib.Core.Path.{◌≡◌, refl}
use mathlib.Core.Bool.{Bool, true, false, ◌&&◌, ◌||◌}
use mathlib.Core.List.{List, [], ◌∷◌}
use text.Mathlib.Text.{◌==◌}
use agent_work_relay.Prelude.Tests.{leb, nat_eq, if◌then◌else◌}

-- The characters that end a line.
abbrev is_break : ℕ → Bool
is_break c =
    (leb 10 c && leb c 13)
    || (leb 28 c && leb c 30)
    || nat_eq c 133
    || nat_eq c 8232
    || nat_eq c 8233

abbrev starts_feed : String → Bool
starts_feed String.[] = false
starts_feed (String.◌∷◌ c s) = nat_eq (code c) 10

abbrev into_first : String → List String → List String
into_first c [] = c ∷ []
into_first c (s ∷ rest) = String.◌++◌ c s ∷ rest

-- The texts between the line ends; "\r\n" is one line end.
unfoldable pub pieces : String → List String
pieces String.[] = "" ∷ []
pieces (String.◌∷◌ c s) =
    let rest = pieces s in
    if is_break (code c)
    then (if nat_eq (code c) 13 && starts_feed s then rest else "" ∷ rest)
    else into_first (String.◌∷◌ c "") rest

-- The list without its last text, if that is empty.
unfoldable pub without_last : List String → List String
without_last [] = []
without_last (s ∷ []) = if s == "" then [] else s ∷ []
without_last (s ∷ t ∷ rest) = s ∷ without_last (t ∷ rest)

-- `s.splitlines()`
unfoldable pub splitlines : String → List String
splitlines s = without_last (pieces s)

-- `s.partition(":")`: what stands before the first colon, whether there is one, and what stands behind
unfoldable pub partition : String → String × Bool × String
partition String.[] = ("", false, "")
partition (String.◌∷◌ c s) =
    let rest = partition s in
    if nat_eq (code c) 58 then ("", true, s) else (String.◌∷◌ c rest.0, rest.1, rest.2)

-- The text without the characters of that code at its start.
unfoldable pub strip_code_left : ℕ → String → String
strip_code_left n String.[] = ""
strip_code_left n (String.◌∷◌ c s) =
    let rest = strip_code_left n s in if nat_eq (code c) n then rest else String.◌∷◌ c s

-- The same at its end.
unfoldable pub strip_code_right : ℕ → String → String
strip_code_right n String.[] = ""
strip_code_right n (String.◌∷◌ c s) =
    let rest = strip_code_right n s in
    if nat_eq (code c) n && rest == "" then "" else String.◌∷◌ c rest

-- `s.strip(c)`, for the character of that code
unfoldable pub strip_code : ℕ → String → String
strip_code n s = strip_code_right n (strip_code_left n s)

-- `s.split(c)`, for the character of that code
unfoldable pub split_at : ℕ → String → List String
split_at n String.[] = "" ∷ []
split_at n (String.◌∷◌ c s) =
    let rest = split_at n s in
    if nat_eq (code c) n then "" ∷ rest else into_first (String.◌∷◌ c "") rest

-- `s.removesuffix(p)`, for a suffix that is not empty
unfoldable pub remove_suffix : String → String → String
remove_suffix String.[] p = ""
remove_suffix (String.◌∷◌ c s) p =
    let rest = remove_suffix s p in if String.◌∷◌ c s == p then "" else String.◌∷◌ c rest

splitlines_line_ends : splitlines "a\n\nb\r\n" ≡ "a" ∷ "" ∷ "b" ∷ []
unfolding splitlines pieces without_last
splitlines_line_ends = refl

partition_colon : partition "k: v:w" ≡ ("k", true, " v:w")
unfolding partition
partition_colon = refl
