-- ===== src/Broker/Life.antt =====
-- The life of a work order of src/awr/service.py: steps of the kernel, and polls of its planning run.
use agent_work_relay.Prelude.{
  String, ◌≡◌, ◌≢◌, ◌⊎◌, refl, inl, inr, ap, sym, ◌∙◌, subst, true, ◌==◌, Option, some, [], arith,
  eq_iff, Bool-cases,
}
use agent_work_relay.Contracts.{plan_ready, failed, terminal}
use agent_work_relay.Lifecycle.Trace.{State, Step}
use agent_work_relay.Lifecycle.Trace.Progress.{terminal-no_Step}
use agent_work_relay.Lifecycle.Trace.Authority.{IsAuthorized, Step-IsAuthorized}
use agent_work_relay.Broker.Records.{Db}
use agent_work_relay.Broker.Decisions.{list_decisions, order_decisions}
use agent_work_relay.Broker.Polls.{Polls}
use agent_work_relay.Broker.Polls.Views.{IsPolled, Polls-view, Polls-view_other}
use agent_work_relay.Broker.View.{view, rows_of-append_other}
use agent_work_relay.Broker.Committed.{Commits-view_other}
use agent_work_relay.Broker.Refinement.{
  Moves, unmoved, moved, Grows, kept, one_more, list_decisions_same,
}

Grows-list_other :
    (id other : String) (db db' : Db)
    → Grows id db db'
    → other ≢ id
    → list_decisions other db' ≡ list_decisions other db
unfolding list_decisions
Grows-list_other id other db db' (kept same) n = list_decisions_same other db db' same
Grows-list_other id other db db' (one_more row mine more) n =
    rw more (ap (order_decisions []) (rows_of-append_other id other db.decisions row mine n))

-- A call on one work order leaves the view of every other one as it was.
pub Moves-view_other :
    (id other : String) (db db' : Db)
    → Moves id db db'
    → other ≢ id
    → view other db' ≡ view other db
Moves-view_other id other db db' (unmoved same) n = ap (view other) same
Moves-view_other id other db db' (moved a b status s _ _ _ commits grows) n =
    Commits-view_other id other status s db db' commits n (Grows-list_other id other db db' grows n)

-- The life of a work order: steps of the kernel, and polls of its planning run, which write
-- PLAN_READY or FAILED and leave its snapshot and its decisions as they are.
pub data Life (a : State) : State → Type 0 where
  born : Life a a
  steps : {b c : State} → Life a b → Step b c → Life a c
  polls : {b c : State} → Life a b → IsPolled b c → Life a c

-- The work order is seen, in a state that its life leads to.
abbrev pub Follows : State → String → Db → Type 0
Follows a id db = (b : State) × (view id db ≡ some b) × Life a b

pub some_injective : {a b : State} → ◌≡◌ {A = Option State} (some a) (some b) → a ≡ b
some_injective e = cc

pub Moves-Follows :
    (a : State) (id other : String) (db db' : Db)
    → Follows a other db
    → Moves id db db'
    → Follows a other db'
Moves-Follows a id other db db' (b, seen, life) (unmoved same) = (b, rw same seen, life)
Moves-Follows a id other db db' (b, seen, life)
      (moved before later status s was is step commits grows) =
    elim (Bool-cases (other == id)) [
      | inl mine ↦
          let same : other ≡ id = ground (arith, eq_iff other id) in
          let from : b ≡ before = some_injective (sym seen ∙ (rw same was)) in
          (later, rw same is, steps life (subst (λ x. Step x later) (sym from) step))
      | inr not_mine ↦
          let differ : other ≢ id = ground (arith, eq_iff other id) in
          let frame =
            Moves-view_other id other db db' (moved before later status s was is step commits grows)
              differ in
          (b, rw frame seen, life)
    ]

pub Polls-Follows :
    (a : State) (id other : String) (db db' : Db)
    → Follows a other db
    → Polls id db db'
    → Follows a other db'
Polls-Follows a id other db db' (b, seen, life) change = elim (Bool-cases (other == id)) [
  | inl mine ↦
      let same : other ≡ id = (eq_iff other id).0 mine in
      elim (Polls-view other db db' (subst (λ i. Polls i db db') (sym same) change) seen) [
        | inl unchanged ↦ (b, unchanged, life)
        | inr new ↦ let (later, is, polled_so) = new in (later, is, polls life polled_so)
      ]
  | inr not_mine ↦
      let differ : other ≢ id = ground (arith, eq_iff other id) in
      (b, Polls-view_other id other db db' change differ ∙ seen, life)
]

-- What is FAILED may have failed in planning.
abbrev pub IsBacked : State → Type 0
IsBacked a = IsAuthorized a ⊎ (a.status ≡ failed)

ready-IsAuthorized : (a : State) → a.status ≡ plan_ready → IsAuthorized a
ready-IsAuthorized a e = record {
  approved = λ p. ground arith;
  resumable = λ p. ground arith;
  accepted = λ p. ground arith;
}

pub Life-IsBacked : {a b : State} → IsAuthorized a → Life a b → IsBacked b
Life-IsBacked first born = inl first
Life-IsBacked first (steps {b} life step) = elim (Life-IsBacked first life) [
  | inl backed ↦ inl (Step-IsAuthorized step backed)
  | inr ended ↦
      let is_terminal : terminal b.status ≡ true = rw ended refl in
      absurd (terminal-no_Step is_terminal step)
]
Life-IsBacked first (polls life (to, _, _)) = elim to [
  | inl ready ↦ inl (ready-IsAuthorized _ ready)
  | inr ended ↦ inr ended
]
