-- ===== src/History/Fold/Sessions.antt =====
-- What one entry may change of the sessions' accounting.
use takt_ai.Base.{
  String, ◌≡◌, refl, ap, ◌⊎◌, inl, inr, true, false, ◌&&◌, Option, arith, ◌==◌, if◌then◌else◌,
  Bool-cases,
}
use takt_ai.Base.Dict.{is_some, get_or, lookup, lookup-insert}
use takt_ai.History.Kinds.{Kind, is_kind_admitted, is_kind_result}
use takt_ai.History.Entry.{Entry}
use takt_ai.History.Projection.{WorkUnit, Budgets, Projection, no_budgets, budgets_of, prevails}
use takt_ai.History.Fold.Budgeted.{accepts}
use takt_ai.History.Fold.Defs.{charge, put_budgets, fold_result, fold_unit}

-- The budgets of a session after an assignment of another's, or its own.
pub budgets-put :
    (p : Projection) (e : Entry) (b : Budgets) (s : String)
    → budgets_of (put_budgets p e b) s ≡ (if e.session == s then b else budgets_of p s)
unfolding budgets_of
budgets-put p e b s = ground (arith, lookup-insert e.session s b p.sessions)

pub budgets_by :
    (p q : Projection) (s : String) → p.sessions ≡ q.sessions → budgets_of p s ≡ budgets_of q s
unfolding budgets_of
budgets_by p q s h = ap (λ m. get_or no_budgets (lookup s m)) h

fold_result_sessions :
    (r : Projection) (e : Entry) (u : WorkUnit) → (fold_result r e u).sessions ≡ r.sessions
unfolding fold_result
fold_result_sessions r e u = elim (Bool-cases (e.attempt == u.attempt && prevails u.assurance e)) [
  | inl h ↦ rw h refl
  | inr h ↦ rw h refl
]

result_not_admitted : (k : Kind) → is_kind_result k ≡ true → (is_kind_admitted k && true) ≡ false
result_not_admitted Kind.admitted h = cc
result_not_admitted _ h = refl

-- A unit's part of the fold charges an admission to its session, and nothing else.
pub fold_unit_sessions :
    (r : Projection) (e : Entry) (b : Budgets) (u : Option WorkUnit)
    → (((fold_unit r e b u).sessions ≡ r.sessions)
        × (is_kind_admitted e.kind && accepts u e.kind ≡ false))
      ⊎ (((fold_unit r e b u).sessions ≡ (put_budgets r e (charge (is_some u) e b)).sessions)
          × (is_kind_admitted e.kind ≡ true))
unfolding fold_unit
fold_unit_sessions r e b u = elim (Bool-cases (accepts u e.kind)) [
  | inr refused ↦ rw refused (inl (refl, ground arith))
  | inl taken ↦ elim (Bool-cases (is_kind_result e.kind)) [
    | inl result ↦
        rw (taken, result) (inl (fold_result_sessions r e _, result_not_admitted e.kind result))
    | inr moving ↦ elim (Bool-cases (is_kind_admitted e.kind)) [
      | inl admits ↦ rw (taken, moving, admits) (inr (refl, refl))
      | inr other ↦ rw (taken, moving, other) (inl (refl, refl))
    ]
  ]
]
