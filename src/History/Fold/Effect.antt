-- ===== src/History/Fold/Effect.antt =====
-- What one accepted lifecycle act, and one denial, make of the projection.
use takt_ai.Base.{
  String, ◌≡◌, refl, ◌∙◌, inl, inr, Bool, true, false, Option, none, List, [], ◌∷◌, ◌++◌, eq_iff,
  ◌==◌, Bool-cases,
}
use takt_ai.Base.Dict.{get_or, insert}
use takt_ai.History.Kinds.{Kind, execution_kind, is_kind_admitted, is_kind_result}
use takt_ai.History.Entry.{Entry, activity_kind, activity_kind_of}
use takt_ai.History.Projection.{
  WorkUnit, Budgets, Projection, no_unit, new_projection, unit_key, find_unit, budgets_of,
}
use takt_ai.History.Fold.Budgeted.{accepts, budgeted}
use takt_ai.History.Fold.Defs.{
  settle_executions, next_unit, put_budgets, fold_unit, note_version, fold_work, fold, project_from,
  project,
}
use takt_ai.History.Fold.View.{same_find, settle_units, project_from-append}
use takt_ai.History.Fold.Sessions.{budgets-put}

-- The acts that move a work unit.
unfoldable pub is_lifecycle : Kind → Bool
is_lifecycle Kind.planned = true
is_lifecycle Kind.withdrawn = true
is_lifecycle Kind.admitted = true
is_lifecycle Kind.launched = true
is_lifecycle Kind.uncertain = true
is_lifecycle Kind.unmonitored = true
is_lifecycle Kind.suspended = true
is_lifecycle Kind.cancel_requested = true
is_lifecycle Kind.terminated = true
is_lifecycle _ = false

pub lifecycle_execution : (k : Kind) → is_lifecycle k ≡ true → execution_kind k ≡ false
unfolding is_lifecycle execution_kind
lifecycle_execution Kind.planned h = refl
lifecycle_execution Kind.withdrawn h = refl
lifecycle_execution Kind.admitted h = refl
lifecycle_execution Kind.launched h = refl
lifecycle_execution Kind.uncertain h = refl
lifecycle_execution Kind.unmonitored h = refl
lifecycle_execution Kind.suspended h = refl
lifecycle_execution Kind.cancel_requested h = refl
lifecycle_execution Kind.terminated h = refl
lifecycle_execution _ h = cc

pub lifecycle_budgeted :
    (k : Kind) (b : Budgets) (e : Entry) → is_lifecycle k ≡ true → budgeted k b e ≡ none
unfolding is_lifecycle budgeted
lifecycle_budgeted Kind.planned b e h = refl
lifecycle_budgeted Kind.withdrawn b e h = refl
lifecycle_budgeted Kind.admitted b e h = refl
lifecycle_budgeted Kind.launched b e h = refl
lifecycle_budgeted Kind.uncertain b e h = refl
lifecycle_budgeted Kind.unmonitored b e h = refl
lifecycle_budgeted Kind.suspended b e h = refl
lifecycle_budgeted Kind.cancel_requested b e h = refl
lifecycle_budgeted Kind.terminated b e h = refl
lifecycle_budgeted _ b e h = cc

lifecycle_result : (k : Kind) → is_lifecycle k ≡ true → is_kind_result k ≡ false
unfolding is_lifecycle
lifecycle_result Kind.result h = cc
lifecycle_result _ h = refl

module _ (p : Projection) (e : Entry) where
  unit_moves :
      (q : Projection) (b : Budgets) (u : Option WorkUnit)
      → q.units ≡ p.units
      → accepts u e.kind ≡ true
      → is_kind_result e.kind ≡ false
      → (fold_unit q e b u).units
        ≡ insert (unit_key e.session e.work_unit) (next_unit (get_or no_unit u) e) p.units
  unfolding fold_unit
  unit_moves q b u same taken moving = elim (Bool-cases (is_kind_admitted e.kind)) [
    | inl admits ↦ rw (taken, moving, admits, same) refl
    | inr other ↦ rw (taken, moving, other, same) refl
  ]

  -- A lifecycle act that is no activity and that the unit accepts advances the unit that it names,
  -- and no other.
  pub fold_moves :
      is_lifecycle e.kind ≡ true
      → activity_kind_of e ≡ none
      → accepts (find_unit p e.session e.work_unit) e.kind ≡ true
      → (fold p e).units
        ≡ insert
            (unit_key e.session e.work_unit)
            (next_unit (get_or no_unit (find_unit p e.session e.work_unit)) e)
            p.units
  unfolding fold fold_work
  fold_moves life work taken =
      let q = settle_executions p e in
      let b = note_version e (budgets_of q e.session) in
      rw
        (
          lifecycle_execution e.kind life,
          work,
          lifecycle_budgeted e.kind b e life,
          same_find p e q (settle_units p e).0,
        )
        (unit_moves (put_budgets q e b) b (find_unit p e.session e.work_unit) (settle_units p e).0
          taken (lifecycle_result e.kind life))

  pub budgets_kept :
      (s : String) → budgets_of (put_budgets p e (budgets_of p e.session)) s ≡ budgets_of p s
  budgets_kept s =
      budgets-put p e (budgets_of p e.session) s ∙ (elim (Bool-cases (e.session == s)) [
        | inl own ↦ rw (own, (eq_iff e.session s).0 own) refl
        | inr other ↦ rw other refl
      ])

  -- A denial moves no unit and leaves every session's accounting.
  pub fold_denied :
      ((fold p (record e { kind = Kind.denied })).units ≡ p.units)
      × ((s : String) → budgets_of (fold p (record e { kind = Kind.denied })) s ≡ budgets_of p s)
  unfolding fold fold_work settle_executions execution_kind budgeted activity_kind
  fold_denied = (refl, budgets_kept)

pub project-append : (es : List Entry) (e : Entry) → project (es ++ e ∷ []) ≡ fold (project es) e
unfolding project project_from
project-append es e = project_from-append new_projection es (e ∷ [])
