-- ===== src/Artifacts/Names.antt =====
-- src/awr/artifacts/ports.py: `safe_filename`. `str.isprintable` is an argument, by code point.
use Prim.Native.Char.{code}
use agent_work_relay.Prelude.{
  ℕ, String, Bool, true, false, not, ◌&&◌, ◌||◌, Option, none, some, ◌≡◌, refl, nat_eq, is_empty,
  if◌then◌else◌,
}

-- A slash or a backslash, which becomes a slash
abbrev is_separator : ℕ → Bool
is_separator c = nat_eq c 47 || nat_eq c 92

abbrev or_behind : Option String → Bool → String → Option String
or_behind (some rest) b s = some rest
or_behind none true s = some s
or_behind none false s = none

-- What stands behind the last separator, if there is one
behind_separator : String → Option String
behind_separator String.[] = none
behind_separator (String.◌∷◌ c s) = or_behind (behind_separator s) (is_separator (code c)) s

abbrev or_whole : Option String → String → String
or_whole none s = s
or_whole (some rest) s = rest

printable_part : (ℕ → Bool) → String → String
printable_part is_printable String.[] = ""
printable_part is_printable (String.◌∷◌ c s) =
    let rest = printable_part is_printable s in
    if is_printable (code c) && not (nat_eq (code c) 0) then String.◌∷◌ c rest else rest

unfoldable pub safe_filename : (ℕ → Bool) → String → String
unfolding behind_separator printable_part
safe_filename is_printable original_filename =
    let cleaned =
      printable_part is_printable
        (or_whole (behind_separator original_filename) original_filename) in
    if is_empty cleaned then "unnamed" else cleaned

safe_filename_test : safe_filename (λ c. true) "a/b\\c.png" ≡ "c.png"
unfolding safe_filename
safe_filename_test = refl

unnamed_test : safe_filename (λ c. true) "a/" ≡ "unnamed"
unfolding safe_filename
unnamed_test = refl
