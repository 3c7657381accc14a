-- ===== src/Lifecycle/Approval.antt =====
-- What `matching_plan_approval` of src/awr/lifecycle/decisions.py finds.
use mathlib.Core.List.{Memᴰ}
use mathlib.Core.List.Memᴰ
use agent_work_relay.Prelude.{
  String, Bool, true, false, ◌≡◌, refl, inl, inr, List, [], ◌∷◌, ok, arith, eq_iff, sym, ap, subst,
  bind-eq-ok, ok-injective, bare_digest, if◌then◌else◌,
}
use agent_work_relay.Host.{Host}
use agent_work_relay.Lifecycle.Decisions.{
  StoredDecision, plan, decision_is_expired, is_approval_of, matches, matching, last_match,
  matching_plan_approval,
}
use agent_work_relay.Lifecycle.Decisions

-- A decision that approves this plan, with this digest, and has not expired.
pub record Approves (h : Host) (plan_id digest : String) (d : StoredDecision) : Type 0 where
  pub kind : d.decision_type ≡ Decisions.approve_plan
  pub target : d.target_kind ≡ plan
  pub same_id : d.target_id ≡ plan_id
  pub same_digest : bare_digest d.target_sha256 ≡ bare_digest digest
  pub unexpired : decision_is_expired h d ≡ ok false

module _ (h : Host) (plan_id digest : String) where
  matches-Approves :
      (d : StoredDecision)
      → matches h plan_id (bare_digest digest) d ≡ ok true
      → Approves h plan_id digest d
  unfolding matches
  matches-Approves d e =
      ground (
        arith,
        eq_iff d.target_id plan_id,
        eq_iff (bare_digest d.target_sha256) (bare_digest digest),
      )

  Approves-matches :
      (d : StoredDecision)
      → Approves h plan_id digest d
      → matches h plan_id (bare_digest digest) d ≡ ok true
  unfolding matches
  Approves-matches d a =
      ground (
        arith,
        eq_iff d.target_id plan_id,
        eq_iff (bare_digest d.target_sha256) (bare_digest digest),
      )

  kept_step :
      (d x : StoredDecision) (ds rest : List StoredDecision) (hit : Bool)
      → matches h plan_id digest x ≡ ok hit
      → (Memᴰ d rest → Memᴰ d ds × (matches h plan_id digest d ≡ ok true))
      → Memᴰ d (if hit then x ∷ rest else rest)
      → Memᴰ d (x ∷ ds) × (matches h plan_id digest d ≡ ok true)
  kept_step d x ds rest true e ih m = elim (Memᴰ.cases_cons m) [
    | inl same ↦ (Memᴰ.head same, rw same e)
    | inr later ↦ let (found, hits) = ih later in (Memᴰ.tail found, hits)
  ]
  kept_step d x ds rest false e ih m = let (found, hits) = ih m in (Memᴰ.tail found, hits)

  -- Every decision that the comprehension keeps is one of the list, and passes the tests.
  mem-matching :
      (d : StoredDecision) (ds found : List StoredDecision)
      → matching h plan_id digest ds ≡ ok found
      → Memᴰ d found
      → Memᴰ d ds × (matches h plan_id digest d ≡ ok true)
  unfolding matching
  mem-matching d [] found e m = absurd (Memᴰ.not-nil (subst (Memᴰ d) (ok-injective (sym e)) m))
  mem-matching d (x ∷ ds) found e m =
      let (hit, first, others) = bind-eq-ok _ _ e in
      let (rest, more, built) = bind-eq-ok _ _ others in
      kept_step d x ds rest hit first (mem-matching d ds rest more)
        (subst (Memᴰ d) (ok-injective (sym built)) m)

  kept_head :
      (d x : StoredDecision) (rest : List StoredDecision) (hit : Bool)
      → d ≡ x
      → matches h plan_id digest d ≡ ok true
      → matches h plan_id digest x ≡ ok hit
      → Memᴰ d (if hit then x ∷ rest else rest)
  kept_head d x rest true same hits first = Memᴰ.head same
  kept_head d x rest false same hits first = cc (ap (matches h plan_id digest) same)

  kept_tail :
      (d x : StoredDecision) (rest : List StoredDecision) (hit : Bool)
      → Memᴰ d rest
      → Memᴰ d (if hit then x ∷ rest else rest)
  kept_tail d x rest true m = Memᴰ.tail m
  kept_tail d x rest false m = m

  -- The comprehension keeps every decision of the list that passes the tests.
  matching-mem :
      (d : StoredDecision) (ds found : List StoredDecision)
      → matching h plan_id digest ds ≡ ok found
      → matches h plan_id digest d ≡ ok true
      → Memᴰ d ds
      → Memᴰ d found
  unfolding matching
  matching-mem d [] found e hits m = absurd (Memᴰ.not-nil m)
  matching-mem d (x ∷ ds) found e hits m =
      let (hit, first, others) = bind-eq-ok _ _ e in
      let (rest, more, built) = bind-eq-ok _ _ others in
      subst (Memᴰ d) (ok-injective built) (elim (Memᴰ.cases_cons m) [
        | inl same ↦ kept_head d x rest hit same hits first
        | inr later ↦ kept_tail d x rest hit (matching-mem d ds rest more hits later)
      ])

last_match-mem : (ds : List StoredDecision) {d : StoredDecision} → last_match ds ≡ ok d → Memᴰ d ds
unfolding last_match
last_match-mem [] e = cc
last_match-mem (x ∷ []) e = Memᴰ.head (ok-injective (sym e))
last_match-mem (x ∷ y ∷ ds) e = Memᴰ.tail (last_match-mem (y ∷ ds) e)

last_match-cons :
    (x : StoredDecision) (ds : List StoredDecision)
    → (d : StoredDecision) × (last_match (x ∷ ds) ≡ ok d)
unfolding last_match
last_match-cons x [] = (x, refl)
last_match-cons x (y ∷ ds) = last_match-cons y ds

last_match-of_mem :
    (ds : List StoredDecision) {d : StoredDecision}
    → Memᴰ d ds
    → (e : StoredDecision) × (last_match ds ≡ ok e)
last_match-of_mem [] m = absurd (Memᴰ.not-nil m)
last_match-of_mem (x ∷ ds) m = last_match-cons x ds

module _ (h : Host) (plan_id digest : String) (ds : List StoredDecision) where
  -- The decision that is found is one of the list, approves the plan with that ID and digest, and
  -- has not expired.
  pub matching_plan_approval_sound :
      {d : StoredDecision}
      → matching_plan_approval h ds plan_id digest ≡ ok d
      → Memᴰ d ds × Approves h plan_id digest d
  unfolding matching_plan_approval
  matching_plan_approval_sound {d} e =
      let (found, kept, newest) = bind-eq-ok _ _ e in
      let (member, hits) =
        mem-matching h plan_id (bare_digest digest) d ds found kept (last_match-mem found newest) in
      (member, matches-Approves h plan_id digest d hits)

  -- Conversely: where reading the expiries of the candidates raises no error, a decision of the list that
  -- approves the plan makes the search succeed.
  pub matching_plan_approval_complete :
      (found : List StoredDecision) {d : StoredDecision}
      → matching h plan_id (bare_digest digest) ds ≡ ok found
      → Memᴰ d ds
      → Approves h plan_id digest d
      → (e : StoredDecision) × (matching_plan_approval h ds plan_id digest ≡ ok e)
  unfolding matching_plan_approval
  matching_plan_approval_complete found {d} kept m a = rw kept (
      last_match-of_mem found (
        matching-mem h plan_id (bare_digest digest) d ds found kept
          (Approves-matches h plan_id digest d a) m))
