-- ===== src/History/Fold/View.antt =====
-- What one entry may change: at most one unit, and at most its own session's accounting.
use takt_ai.Base.{
  [], ◌∷◌, ◌++◌, List, ◌∙◌, ap, inl, inr, Bool-cases, false, true, true, false, Option, none, some,
  ◌≡◌, ◌&&◌, ◌==◌, refl, arith,
}
use takt_ai.Base.Dict.{lookup, Dict, insert, get_or}
use takt_ai.History.Kinds.{execution_kind, is_kind_admitted, NodeKind, Kind, is_kind_result}
use takt_ai.History.Entry.{activity_kind, activity_kind_of, Entry}
use takt_ai.History.Projection.{
  budgets_of, Budgets, prevails, WorkUnit, Activity, Assurance, Execution, Projection, no_unit,
  unit_key, find_unit,
}
use takt_ai.History.Fold.Budgeted.{budgeted, accepts}
use takt_ai.History.Fold.Defs.{
  note_version, project_from, put_budgets, fold_subject, fold_budgeted, fold_work, fold,
  assurance_from, fold_result, fold_unit, fold_execution, fold_execution_kind, fold_activity,
  put_activity, settle_executions, next_unit,
}

pub execution_not_admitted : (k : Kind) → execution_kind k ≡ true → is_kind_admitted k ≡ false
unfolding execution_kind
execution_not_admitted Kind.admitted h = cc
execution_not_admitted _ h = refl

pub activity_not_admitted :
    (k : Kind) (e : Entry) (n : NodeKind) → activity_kind k e ≡ some n → is_kind_admitted k ≡ false
unfolding activity_kind
activity_not_admitted Kind.admitted e n h = cc
activity_not_admitted _ e n h = refl

abbrev NotAdmitted : Kind → Option Budgets → Type 0
NotAdmitted k none = Unit
NotAdmitted k (some b) = is_kind_admitted k ≡ false

budgeted-NotAdmitted : (k : Kind) (b : Budgets) (e : Entry) → NotAdmitted k (budgeted k b e)
unfolding budgeted
budgeted-NotAdmitted Kind.admitted b e = tt
budgeted-NotAdmitted k b e = elim (budgeted k b e) as (λ o. NotAdmitted k o) [
  | none ↦ tt
  | some b' ↦ refl
]

module _ (p : Projection) (e : Entry) where
  pub data UnitChange (m : Dict WorkUnit) : Type 0 where
    kept :
        m ≡ p.units
        → (is_kind_admitted e.kind && accepts (find_unit p e.session e.work_unit) e.kind) ≡ false
        → UnitChange m
    assured :
        (u : WorkUnit) (a : Option Assurance)
        → is_kind_result e.kind ≡ true
        → find_unit p e.session e.work_unit ≡ some u
        → m ≡ insert (unit_key e.session e.work_unit) (record u { assurance = a }) p.units
        → UnitChange m
    moved :
        accepts (find_unit p e.session e.work_unit) e.kind ≡ true
        → is_kind_result e.kind ≡ false
        → m
          ≡ insert
              (unit_key e.session e.work_unit)
              (next_unit (get_or no_unit (find_unit p e.session e.work_unit)) e)
              p.units
        → UnitChange m

execution_units :
    (k : Kind) (p : Projection) (e : Entry) (d : Execution)
    → ((fold_execution_kind k p e d).units ≡ p.units)
      × ((fold_execution_kind k p e d).sessions ≡ p.sessions)
unfolding fold_execution_kind
execution_units Kind.lease p e d = (refl, refl)
execution_units Kind.execution p e d = ground arith
execution_units Kind.lane p e d = ground arith
execution_units _ p e d = (refl, refl)

pub fold_execution_units :
    (p : Projection) (e : Entry)
    → ((fold_execution p e).units ≡ p.units) × ((fold_execution p e).sessions ≡ p.sessions)
unfolding fold_execution
fold_execution_units p e = execution_units e.kind p e _

put_activity_units :
    (p : Projection) (e : Entry) (a : Option Activity)
    → ((put_activity p e a).units ≡ p.units) × ((put_activity p e a).sessions ≡ p.sessions)
put_activity_units p e none = (refl, refl)
put_activity_units p e (some a) = (refl, refl)

pub fold_activity_units :
    (p : Projection) (e : Entry) (k : NodeKind)
    → ((fold_activity p e k).units ≡ p.units) × ((fold_activity p e k).sessions ≡ p.sessions)
unfolding fold_activity
fold_activity_units p e k = put_activity_units p e _

pub settle_units :
    (p : Projection) (e : Entry)
    → ((settle_executions p e).units ≡ p.units) × ((settle_executions p e).sessions ≡ p.sessions)
unfolding settle_executions
settle_units p e = ground arith

pub result_not_admitted : (k : Kind) → is_kind_result k ≡ true → is_kind_admitted k ≡ false
result_not_admitted Kind.admitted h = cc
result_not_admitted _ h = refl

module _ (p : Projection) (e : Entry) where
  not_admitted :
      is_kind_admitted e.kind ≡ false
      → (is_kind_admitted e.kind && accepts (find_unit p e.session e.work_unit) e.kind) ≡ false
  not_admitted h = rw h refl

  -- `q` is `p` with other fields than its units changed.
  fold_result_units :
      (q : Projection) (u : WorkUnit)
      → q.units ≡ p.units
      → is_kind_result e.kind ≡ true
      → find_unit p e.session e.work_unit ≡ some u
      → UnitChange p e (fold_result q e u).units
  unfolding fold_result
  fold_result_units q u same result h =
      elim (Bool-cases (e.attempt == u.attempt && prevails u.assurance e)) [
        | inl taken ↦ rw taken (assured u (some (assurance_from e)) result h (rw same refl))
        | inr left ↦ rw left (kept same (not_admitted (result_not_admitted e.kind result)))
      ]

  accepted_result :
      (u : Option WorkUnit) → accepts u Kind.result ≡ true → u ≡ some (get_or no_unit u)
  unfolding accepts
  accepted_result none h = cc
  accepted_result (some u) h = refl

  result_kind : (k : Kind) → is_kind_result k ≡ true → k ≡ Kind.result
  result_kind Kind.result h = refl
  result_kind _ h = cc

  fold_unit_units :
      (q : Projection) (b : Budgets)
      → q.units ≡ p.units
      → UnitChange p e (fold_unit q e b (find_unit p e.session e.work_unit)).units
  unfolding fold_unit
  fold_unit_units q b same =
      elim (Bool-cases (accepts (find_unit p e.session e.work_unit) e.kind)) [
        | inr refused ↦ rw refused (kept same (rw refused (ground arith)))
        | inl taken ↦ elim (Bool-cases (is_kind_result e.kind)) [
          | inl result ↦
              rw (taken, result)
                (fold_result_units q _ same result
                  (accepted_result _ (rw (result_kind e.kind result) at taken)))
          | inr moving ↦
              rw (taken, moving)
                (moved taken moving (elim (Bool-cases (is_kind_admitted e.kind)) [
                  | inl admits ↦ rw (admits, same) refl
                  | inr other ↦ rw (other, same) refl
                ]))
        ]
      ]

  pub same_find :
      (q : Projection)
      → q.units ≡ p.units
      → find_unit q e.session e.work_unit ≡ find_unit p e.session e.work_unit
  unfolding find_unit
  same_find q same = ap (λ m. lookup (unit_key e.session e.work_unit) m) same

  fold_budgeted_units :
      (o : Option Budgets) (q : Projection) (b : Budgets)
      → NotAdmitted e.kind o
      → q.units ≡ p.units
      → UnitChange p e (fold_budgeted o q e b).units
  fold_budgeted_units (some b') q b h same = kept same (not_admitted h)
  fold_budgeted_units none q b h same =
      rw (same_find q same) (fold_unit_units (put_budgets q e b) b same)

  fold_subject_units :
      (o : Option NodeKind) (q : Projection)
      → activity_kind_of e ≡ o
      → q.units ≡ p.units
      → UnitChange p e (fold_subject o q e).units
  unfolding fold_work
  fold_subject_units none q h same =
      let b = note_version e (budgets_of q e.session) in
      fold_budgeted_units (budgeted e.kind b e) q b (budgeted-NotAdmitted e.kind b e) same
  fold_subject_units (some k) q h same =
      kept ((fold_activity_units q e k).0 ∙ same)
        (not_admitted (activity_not_admitted e.kind e k h))

  -- One entry changes at most the unit that it names, and that only as the unit's state accepts it.
  pub fold_units : UnitChange p e (fold p e).units
  unfolding fold
  fold_units = elim (Bool-cases (execution_kind e.kind)) [
    | inl execution ↦
        rw execution (
          kept (fold_execution_units p e).0
            (not_admitted (execution_not_admitted e.kind execution)))
    | inr other ↦
        rw other (
          fold_subject_units (activity_kind_of e) (settle_executions p e) refl (settle_units p e).0)
  ]

pub project_from-append :
    (p : Projection) (es later : List Entry)
    → project_from p (es ++ later) ≡ project_from (project_from p es) later
unfolding project_from
project_from-append p [] later = refl
project_from-append p (e ∷ es) later = project_from-append (fold p e) es later
