-- ===== src/Directives/Bound.antt =====
-- What an accepted directive is bound to.
use agent_work_relay.Prelude.{
  ◌≡◌, ◌≢◌, ap, ◌∙◌, contains, ◌⊎◌, inl, inr, refl, sym, subst, String, true, false, Option, none,
  some, List, [], ◌∷◌, ok, keep, starts_with, ◌==◌, splitlines, strip, arith, bind-eq-ok, or_option,
  require-eq-ok, reject-eq-ok, ok-injective, eq_iff, Bool-cases,
}
use agent_work_relay.Contracts.{WorkKind, feature, refinement, WorkAction, plan, Directive}
use agent_work_relay.Directives.Frontmatter.{directive_error, Mapping, get_text, input_mapping}
use agent_work_relay.Directives.Parse.{
  or_error, kind_of, only, first_line, disagree, named_parent, bound_plan_directive,
  match_directive, from_text, asks_execution, asks_plan, directive_of_mapping, stripped,
  parse_input_directive, parse_alias, parse_lines, parse_directive,
}

-- A feature has no parent, and a refinement has one.
abbrev pub IsBound : Directive → Type 0
IsBound d =
    (d.kind ≡ feature) × (d.parent_work_order_id ≡ none)
    ⊎ (parent : String) × (d.kind ≡ refinement) × (d.parent_work_order_id ≡ some parent)

-- The mapping asks for no execution.
abbrev pub IsUnexecuted : Option String → Type 0
IsUnexecuted o = (o ≢ some "true") × (o ≢ some "True") × (o ≢ some "yes") × (o ≢ some "1")

-- The text names the kind, as `intent` does.
abbrev pub names_kind : WorkKind → String
names_kind feature = "feature.plan"
names_kind refinement = "refinement.plan"

-- The mapping names the kind, asks for no execution, and for no authority or that of a plan.
abbrev pub IsPlanMapping : WorkKind → Mapping → Type 0
IsPlanMapping kind m =
    (or_option (get_text m "intent") (get_text m "message_type") ≡ some (names_kind kind))
    × IsUnexecuted (get_text m "execution_authorized")
    × ((or_option (get_text m "requested_authority") (get_text m "requested_action") ≡ none)
        ⊎ (or_option (get_text m "requested_authority") (get_text m "requested_action")
            ≡ some "plan_only")
        ⊎ (or_option (get_text m "requested_authority") (get_text m "requested_action")
            ≡ some "plan"))

-- The document leads with `@input`, the directive says so, and the frontmatter is such a mapping.
abbrev pub IsPlanInput : List String → Directive → Type 0
IsPlanInput lines d =
    (heading : String) × (rest : List String) × (m : Mapping) × (lines ≡ heading ∷ rest)
    × (strip heading ≡ "@input")
    × (d.form ≡ "input")
    × (input_mapping rest ≡ ok m)
    × IsPlanMapping d.kind m

-- The document leads with another line, and the directive says so.
abbrev pub IsAlias : List String → Directive → Type 0
IsAlias lines d =
    (heading : String) × (rest : List String) × (lines ≡ heading ∷ rest)
    × (strip heading ≢ "@input")
    × (d.form ≡ "awr_alias")

some_text : {s t : String} → ◌≡◌ {A = Option String} (some s) (some t) → s ≡ t
some_text e = cc

execution_text_other :
    (o : Option String)
    → elim o [ none ↦ false | some v ↦ contains v ("true" ∷ "True" ∷ "yes" ∷ "1" ∷ []) ] ≡ false
    → IsUnexecuted o
unfolding contains
execution_text_other none e =
    (λ p. ground arith, λ p. ground arith, λ p. ground arith, λ p. ground arith)
execution_text_other (some v) e = (
  λ p. ground (arith, some_text p, eq_iff v "true"),
  λ p. ground (arith, some_text p, eq_iff v "True"),
  λ p. ground (arith, some_text p, eq_iff v "yes"),
  λ p. ground (arith, some_text p, eq_iff v "1"),
)

plan_text_only :
    (o : Option String)
    → elim o [ none ↦ true | some v ↦ contains v ("plan_only" ∷ "plan" ∷ []) ] ≡ true
    → (o ≡ none) ⊎ (o ≡ some "plan_only") ⊎ (o ≡ some "plan")
unfolding contains
plan_text_only none e = inl refl
plan_text_only (some v) e = elim (Bool-cases (v == "plan_only")) [
  | inl p ↦ inr (inl (ap some ((eq_iff v "plan_only").0 p)))
  | inr p ↦ elim (Bool-cases (v == "plan")) [
    | inl q ↦ inr (inr (ap some ((eq_iff v "plan").0 q)))
    | inr q ↦ ground arith
  ]
]

kind_of_names : (s : String) {kind : WorkKind} → kind_of s ≡ ok kind → s ≡ names_kind kind
kind_of_names s {kind} e = elim (Bool-cases (s == "feature.plan")) [
  | inl p ↦
      let same : feature ≡ kind = ok-injective (rw p at e) in
      subst (λ k. s ≡ names_kind k) same ((eq_iff s "feature.plan").0 p)
  | inr p ↦ elim (Bool-cases (s == "refinement.plan")) [
    | inl q ↦
        let same : refinement ≡ kind = ok-injective (rw (p, q) at e) in
        subst (λ k. s ≡ names_kind k) same ((eq_iff s "refinement.plan").0 q)
    | inr q ↦ cc (rw (p, q) at e)
  ]
]

or_error-some : (o : Option String) {s : String} → or_error o ≡ ok s → o ≡ some s
or_error-some none e = ground arith
or_error-some (some s) e = ap some (ok-injective e)

bound_plan_directive-IsBound :
    (k : WorkKind) (a : WorkAction) (p : Option String) (f : String) {d : Directive}
    → bound_plan_directive k a p f ≡ ok d
    → IsBound d × (d.form ≡ f) × (d.kind ≡ k)
unfolding bound_plan_directive
bound_plan_directive-IsBound refinement a none f e = ground arith
bound_plan_directive-IsBound feature a none f {d} e =
    subst (λ x. IsBound x × (x.form ≡ f) × (x.kind ≡ feature)) (ok-injective e)
      (inl (refl, refl), refl, refl)
bound_plan_directive-IsBound feature a (some p) f e = ground arith
bound_plan_directive-IsBound refinement a (some p) f {d} e =
    subst (λ x. IsBound x × (x.form ≡ f) × (x.kind ≡ refinement)) (ok-injective e)
      (inr (p, refl, refl), refl, refl)

directive_of_mapping-IsBound :
    (m : Mapping) {d : Directive}
    → directive_of_mapping m ≡ ok d
    → IsBound d × (d.form ≡ "input") × IsPlanMapping d.kind m
unfolding directive_of_mapping asks_execution asks_plan
directive_of_mapping-IsBound m e =
    let intent_text = get_text m "intent" in
    let message_type = get_text m "message_type" in
    let parent = named_parent (get_text m "parent_work_order_id") in
    let (agreed, e1) = reject-eq-ok (disagree intent_text message_type) directive_error _ e in
    let (intent, named, e2) = bind-eq-ok (or_error (or_option intent_text message_type)) _ e1 in
    let (kind, known, e3) = bind-eq-ok (kind_of intent) _ e2 in
    let (no_execution, e4) = reject-eq-ok (asks_execution m) directive_error _ e3 in
    let (for_plan, e5) = require-eq-ok (asks_plan m) directive_error _ e4 in
    let (bound, form, same) = bound_plan_directive-IsBound kind plan parent "input" e5 in
    let asked = or_option (get_text m "requested_authority") (get_text m "requested_action") in
    let mapped : IsPlanMapping kind m = (
      or_error-some (or_option intent_text message_type) named
          ∙ ap some (kind_of_names intent known),
      execution_text_other (get_text m "execution_authorized") no_execution,
      plan_text_only asked for_plan,
    ) in
    (bound, form, subst (λ k. IsPlanMapping k m) (sym same) mapped)

parse_alias-IsBound :
    (lines : List String) {d : Directive}
    → parse_alias lines ≡ ok d
    → IsBound d × (d.form ≡ "awr_alias")
unfolding parse_alias
parse_alias-IsBound lines e =
    let (line, one, e1) =
      bind-eq-ok (only (keep (λ s. starts_with s "@awr") (stripped lines))) _ e in
    let (first, led, e2) = bind-eq-ok (first_line lines) _ e1 in
    let (same, e3) = require-eq-ok (strip first == line) directive_error _ e2 in
    let (found, matched, e4) = bind-eq-ok (or_error (match_directive line)) _ e3 in
    let (bound, form, same) = bound_plan_directive-IsBound found.0 plan found.1 "awr_alias" e4 in
    (bound, form)

parse_input_directive-IsBound :
    (lines rest : List String) {d : Directive}
    → parse_input_directive lines rest ≡ ok d
    → IsBound d
      × (d.form ≡ "input")
      × ((m : Mapping) × (input_mapping rest ≡ ok m) × IsPlanMapping d.kind m)
unfolding parse_input_directive
parse_input_directive-IsBound lines rest e =
    let (mark, one, e1) = bind-eq-ok (only (keep (λ s. s == "@input") (stripped lines))) _ e in
    let (m, read, e2) = bind-eq-ok (input_mapping rest) _ e1 in
    let (bound, form, mapped) = directive_of_mapping-IsBound m e2 in
    (bound, form, (m, read, mapped))

parse_lines-IsBound :
    (lines texts : List String) {d : Directive}
    → parse_lines lines texts ≡ ok d
    → IsBound d × (IsPlanInput texts d ⊎ IsAlias texts d)
parse_lines-IsBound lines [] e = ground arith
parse_lines-IsBound lines (heading ∷ rest) {d} e = elim (Bool-cases (strip heading == "@input")) [
  | inl leads ↦
      (let (bound, form, (m, read, mapped)) =
          parse_input_directive-IsBound lines rest {d = d} (ground arith) in
        let marked = (eq_iff (strip heading) "@input").0 leads in
        (bound, inl (heading, rest, m, refl, marked, form, read, mapped)))
  | inr other ↦
      (let (bound, form) = parse_alias-IsBound lines {d = d} (ground arith) in
        let unmarked : strip heading ≢ "@input" = ground (arith, eq_iff (strip heading) "@input") in
        (bound, inr (heading, rest, refl, unmarked, form)))
]

-- A directive that is read from a document is a feature without a parent or a refinement with one.
-- If the first line that is not blank is `@input`, the directive is of the form "input", and the
-- mapping in the frontmatter names its kind, does not authorize an execution, and asks for no
-- authority or for that of a plan. If it is another line, the directive is of the form "awr_alias".
pub parse_directive-IsBound :
    (markdown : String) {d : Directive}
    → parse_directive markdown ≡ ok d
    → IsBound d
      × (IsPlanInput (from_text (splitlines markdown)) d
          ⊎ IsAlias (from_text (splitlines markdown)) d)
unfolding parse_directive
parse_directive-IsBound markdown e =
    parse_lines-IsBound (splitlines markdown) (from_text (splitlines markdown)) e
