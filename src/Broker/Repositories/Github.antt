-- ===== src/Broker/Repositories/Github.antt =====
-- The repository that a submission goes to (src/awr/service.py, `_resolve_repository`).
use agent_work_relay.Prelude.{
  ◌≡◌, ◌≢◌, eq_iff, strip_left, ◌⊎◌, inl, inr, refl, sym, subst, String, true, not, Option, none,
  some, List, [], ◌∷◌, ok, is_space, all_codes, strip, join, remove_suffix, or_else, or_option, ap,
  arith, bind-eq-ok, require-eq-ok, ok-injective,
}
use agent_work_relay.Contracts.{WorkOrder}
use agent_work_relay.Broker.Records.{validation_error}
use agent_work_relay.Broker.Repositories.{
  Url, is_none, is_text, parts_of, github_url, is_plain, of_parts, parsed_or, normalize_repository,
  same_repository, same_base, is_reference, url_or_error, resolve_repository,
}

-- The given text is a plain HTTPS URL of a repository at GitHub, by what `urlparse` says of it, and
-- `url` is its normal form.
abbrev pub IsGithub : (String → Option Url) → String → String → Type 0
IsGithub urlparse given url =
    (u : Url) × (owner : String) × (name : String) × (urlparse (strip given) ≡ some u)
    × (u.scheme ≡ "https")
    × (u.hostname ≡ some "github.com")
    × (u.username ≡ none)
    × (u.password ≡ none)
    × (u.query ≡ "")
    × (u.fragment ≡ "")
    × (parts_of u.path ≡ owner ∷ name ∷ [])
    × (url ≡ join "/" ("https:" ∷ "" ∷ "github.com" ∷ owner ∷ remove_suffix name ".git" ∷ []))

of_parts_names :
    (parts : List String) {url : String}
    → of_parts parts ≡ ok url
    → (owner : String) × (name : String) × (parts ≡ owner ∷ name ∷ [])
      × (url ≡ github_url owner (remove_suffix name ".git"))
of_parts_names [] e = ground arith
of_parts_names (owner ∷ []) e = ground arith
of_parts_names (owner ∷ name ∷ []) e = (owner, name, refl, sym (ok-injective e))
of_parts_names (owner ∷ name ∷ more ∷ rest) e = ground arith

parsed_or-some : (o : Option Url) {u : Url} → parsed_or o ≡ ok u → o ≡ some u
parsed_or-some none e = ground arith
parsed_or-some (some u) e = ap some (ok-injective e)

is_text-some : (o : Option String) (s : String) → is_text o s ≡ true → o ≡ some s
is_text-some none s e = ground arith
is_text-some (some t) s e = ap some ((eq_iff t s).0 e)

is_none-none : (o : Option String) → is_none o ≡ true → o ≡ none
is_none-none none e = refl
is_none-none (some s) e = ground arith

plain_parts :
    (u : Url)
    → is_plain u ≡ true
    → (u.scheme ≡ "https")
      × (u.hostname ≡ some "github.com")
      × (u.username ≡ none)
      × (u.password ≡ none)
      × (u.query ≡ "")
      × (u.fragment ≡ "")
plain_parts u e = (
  (eq_iff u.scheme "https").0 (ground arith),
  is_text-some u.hostname "github.com" (ground arith),
  is_none-none u.username (ground arith),
  is_none-none u.password (ground arith),
  (eq_iff u.query "").0 (ground arith),
  (eq_iff u.fragment "").0 (ground arith),
)

normalize_repository-IsGithub :
    (urlparse : String → Option Url) (given : String) {url : String}
    → normalize_repository urlparse given ≡ ok url
    → IsGithub urlparse given url
unfolding normalize_repository
normalize_repository-IsGithub urlparse given e =
    let (u, parsed, e1) = bind-eq-ok (parsed_or (urlparse (strip given))) _ e in
    let (plain, e2) = require-eq-ok (is_plain u) validation_error _ e1 in
    let (owner, name, parts, made) = of_parts_names (parts_of u.path) e2 in
    let (scheme, host, user, password, query, fragment) = plain_parts u plain in
    (
      u,
      owner,
      name,
      parsed_or-some (urlparse (strip given)) parsed,
      scheme,
      host,
      user,
      password,
      query,
      fragment,
      parts,
      made,
    )

-- The submitted URL and base reference, where they are given, are those of the parent.
abbrev pub AgreesWith : (String → Option Url) → Option String → Option String → WorkOrder → Type 0
AgreesWith urlparse url ref p =
    ((url ≡ none)
      ⊎ (given : String) × (url ≡ some given) × IsGithub urlparse given p.repository_url)
    × ((ref ≡ none) ⊎ (ref ≡ some p.base_ref))

same_repository-agrees :
    (urlparse : String → Option Url) (url : Option String) (p : WorkOrder) {done : Unit {0}}
    → same_repository urlparse url p ≡ ok done
    → (url ≡ none)
      ⊎ (given : String) × (url ≡ some given) × IsGithub urlparse given p.repository_url
same_repository-agrees urlparse none p e = inl refl
same_repository-agrees urlparse (some given) p e =
    let (normalized, made, e1) = bind-eq-ok (normalize_repository urlparse given) _ e in
    let same : normalized ≡ p.repository_url = ground (arith, eq_iff normalized p.repository_url) in
    inr (
      given,
      refl,
      subst (IsGithub urlparse given) same (normalize_repository-IsGithub urlparse given made),
    )

same_base-agrees :
    (ref : Option String) (p : WorkOrder) {done : Unit {0}}
    → same_base ref p ≡ ok done
    → (ref ≡ none) ⊎ (ref ≡ some p.base_ref)
same_base-agrees none p e = inl refl
same_base-agrees (some ref) p e = inr (ap some (ground (arith, eq_iff ref p.base_ref)))

url_or_error-some : (o : Option String) {s : String} → url_or_error o ≡ ok s → o ≡ some s
url_or_error-some none e = ground arith
url_or_error-some (some s) e = ap some (ok-injective e)

-- The repository and the base reference of a submission without a parent.
abbrev pub IsNewTarget :
    (String → Option Url)
    → Option String
    → String
    → Option String
    → Option String
    → String
    → String
    → Type 0
IsNewTarget urlparse default_url default_ref url ref target base =
    (given : String) × (or_option url default_url ≡ some given)
    × IsGithub urlparse given target
    × (base ≡ or_else ref default_ref)
    × (base ≢ "")
    × (all_codes (λ c. not (is_space c)) base ≡ true)

is_reference-parts :
    (base : String)
    → is_reference base ≡ true
    → (base ≢ "") × (all_codes (λ c. not (is_space c)) base ≡ true)
unfolding strip strip_left
is_reference-parts base e = (
  λ p. (let empty : is_reference "" ≡ true = subst (λ x. is_reference x ≡ true) p e in cc),
  ground arith,
)

-- A submission with a parent goes to the repository and the base reference of the parent, and a URL
-- and a reference that it gives are these. One without a parent goes to the repository that its URL,
-- or the default one where it gives none, names: a plain HTTPS URL at github.com with an owner and a
-- name. Its base reference is its own or the default one, is not empty and has no white space.
pub resolve_repository-IsGithub :
    (urlparse : String → Option Url) (default_url : Option String) (default_ref : String)
    (url ref : Option String) (parent : Option WorkOrder) {target base : String}
    → resolve_repository urlparse default_url default_ref url ref parent ≡ ok (target, base)
    → ((p : WorkOrder) × (parent ≡ some p)
        × (target ≡ p.repository_url)
        × (base ≡ p.base_ref)
        × AgreesWith urlparse url ref p)
      ⊎ (parent ≡ none) × IsNewTarget urlparse default_url default_ref url ref target base
unfolding resolve_repository
resolve_repository-IsGithub urlparse default_url default_ref url ref (some p) e =
    let (allowed, same, e1) = bind-eq-ok (same_repository urlparse url p) _ e in
    let (kept_base, based, e2) = bind-eq-ok (same_base ref p) _ e1 in
    inl (
      p,
      refl,
      sym (ap (λ r. r.0) (ok-injective e2)),
      sym (ap (λ r. r.1) (ok-injective e2)),
      (same_repository-agrees urlparse url p same, same_base-agrees ref p based),
    )
resolve_repository-IsGithub urlparse default_url default_ref url ref none {target} {base} e =
    let (given, found, e1) = bind-eq-ok (url_or_error (or_option url default_url)) _ e in
    let own = or_else ref default_ref in
    let (plain, e2) = require-eq-ok (is_reference own) validation_error _ e1 in
    let (normalized, made, e3) = bind-eq-ok (normalize_repository urlparse given) _ e2 in
    let github = normalize_repository-IsGithub urlparse given made in
    let (full, solid) = is_reference-parts own plain in
    let target_of : IsNewTarget urlparse default_url default_ref url ref normalized own =
      (given, url_or_error-some (or_option url default_url) found, github, refl, full, solid) in
    inr (
      refl,
      subst (λ r. IsNewTarget urlparse default_url default_ref url ref r.0 r.1) (ok-injective e3)
          target_of,
    )
