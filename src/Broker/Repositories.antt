-- ===== src/Broker/Repositories.antt =====
-- src/awr/service.py: the parent, the repository and the base reference of a submission. `urlparse` is
-- Python's, which raises a ValueError on some texts; it is an argument here.
pub mod Github
use agent_work_relay.Prelude.{
  ◌≡◌, ◌≢◌, eq_iff, strip_left, ◌⊎◌, inl, inr, refl, sym, subst, String, Bool, true, false, not,
  ◌&&◌, ◌==◌, Option, none, some, List, [], ◌∷◌, ok, err, ◌>>=◌, ◌>>◌, require, keep, is_empty,
  is_space, all_codes, strip, split_at, join, remove_suffix, or_else, or_option, ap, arith,
  bind-eq-ok, require-eq-ok, ok-injective,
}
use agent_work_relay.Contracts.{WorkOrder}
use agent_work_relay.Broker.Records.{Outcome, validation_error, value_error, Db}
use agent_work_relay.Broker.Store.{find_order}

-- The parts of a URL, as `urlparse` gives them.
pub record Url : Type 0 where
  pub scheme : String
  pub hostname : Option String
  pub username : Option String
  pub password : Option String
  pub path : String
  pub query : String
  pub fragment : String

abbrev pub is_none : Option String → Bool
is_none none = true
is_none (some s) = false

abbrev pub is_text : Option String → String → Bool
is_text none s = false
is_text (some t) s = t == s

-- `[part for part in path.split("/") if part]`
unfoldable pub parts_of : String → List String
parts_of path = keep (λ s. not (is_empty s)) (split_at 47 path)

abbrev pub github_url : String → String → String
github_url owner name = join "/" ("https:" ∷ "" ∷ "github.com" ∷ owner ∷ name ∷ [])

abbrev pub is_plain : Url → Bool
is_plain u =
    u.scheme == "https"
    && is_text u.hostname "github.com"
    && is_none u.username
    && is_none u.password
    && is_empty u.query
    && is_empty u.fragment

abbrev pub of_parts : List String → Outcome String
of_parts (owner ∷ name ∷ []) = ok (github_url owner (remove_suffix name ".git"))
of_parts _ = err validation_error

abbrev pub parsed_or : Option Url → Outcome Url
parsed_or none = err value_error
parsed_or (some u) = ok u

-- `_normalize_repository`
unfoldable pub normalize_repository : (String → Option Url) → String → Outcome String
normalize_repository urlparse repository_url = do
  u ← parsed_or (urlparse (strip repository_url))
  require (is_plain u) validation_error
  of_parts (parts_of u.path)

-- A given repository is the parent's.
abbrev pub same_repository : (String → Option Url) → Option String → WorkOrder → Outcome Unit
same_repository urlparse none p = ok tt
same_repository urlparse (some url) p = do
  normalized ← normalize_repository urlparse url
  require (normalized == p.repository_url) validation_error

abbrev pub same_base : Option String → WorkOrder → Outcome Unit
same_base none p = ok tt
same_base (some ref) p = require (ref == p.base_ref) validation_error

-- A text that is not blank and has no white space in it.
abbrev pub is_reference : String → Bool
is_reference ref = not (is_empty (strip ref)) && all_codes (λ c. not (is_space c)) ref

abbrev pub url_or_error : Option String → Outcome String
url_or_error none = err validation_error
url_or_error (some url) = ok url

-- `_resolve_repository`; `default_url` and `default_ref` are the service's.
unfoldable pub resolve_repository :
    (String → Option Url)
    → Option String
    → String
    → Option String
    → Option String
    → Option WorkOrder
    → Outcome (String × String)
resolve_repository urlparse default_url default_ref url ref (some p) = do
  same_repository urlparse url p
  same_base ref p
  ok (p.repository_url, p.base_ref)
resolve_repository urlparse default_url default_ref url ref none = do
  configured ← url_or_error (or_option url default_url)
  require (is_reference (or_else ref default_ref)) validation_error
  normalized ← normalize_repository urlparse configured
  ok (normalized, or_else ref default_ref)

-- `_resolve_parent`
unfoldable pub resolve_parent : Option String → Db → Outcome (Option WorkOrder)
resolve_parent none db = ok none
resolve_parent (some id) db = elim (find_order id db.orders) [
  | none ↦ err validation_error
  | some p ↦ ok (some p)
]
