-- ===== src/Dispatch/Activities/Tracked.antt =====
-- takt/dispatch/activity.go: every recorded activity is in flight or settled.
use mathlib.Core.Path.{subst}
use takt_ai.Base.{
  String, ◌≡◌, refl, sym, inl, inr, Bool, true, false, not, ◌||◌, Option, none, some, List, [], ◌∷◌,
  arith, ◌==◌, Bool-cases,
}
use takt_ai.Base.Dict.{Dict, lookup, insert-All}
use takt_ai.History.Kinds.{
  NodeKind, Kind, State, same_node_kind, execution_kind, is_activity_started, is_kind_admitted,
  is_kind_result, is_kind_unmonitored, is_state_in_flight,
}
use takt_ai.History.Entry.{Entry, activity_kind_of}
use takt_ai.History.Projection.{
  WorkUnit, Activity, Budgets, Execution, Projection, new_projection, find_unit, budgets_of,
}
use takt_ai.History.Fold.{
  budgeted, accepts, fold_execution_kind, fold_execution, settle_executions, start_activity,
  end_activity, put_activity, fold_activity, put_budgets, fold_result, fold_unit, note_version,
  fold_budgeted, fold_work, fold_subject, fold, project_from, project,
}

-- An activity of the projection is in flight or settled.
abbrev pub has_run : State → Bool
has_run State.in_flight = true
has_run State.settled = true
has_run _ = false

abbrev pub Tracked : Dict Activity → Type 0
Tracked m = (k : String) (a : Activity) → lookup k m ≡ some a → has_run a.state ≡ true

abbrev TrackedNext : Option Activity → Type 0
TrackedNext none = Unit
TrackedNext (some a) = has_run a.state ≡ true

start_activity-Tracked :
    (o : Option Activity) (e : Entry) (n : NodeKind) → TrackedNext (start_activity o e n)
unfolding start_activity
start_activity-Tracked none e n = refl
start_activity-Tracked (some a) e n = elim (Bool-cases (is_state_in_flight a.state)) [
  | inr still ↦ rw still tt
  | inl flying ↦ elim (Bool-cases (e.owner == "")) [
    | inl unowned ↦ rw (flying, unowned) tt
    | inr owned ↦ rw (flying, owned) (in_flight_runs a.state flying)
  ]
]
  where
    in_flight_runs : (s : State) → is_state_in_flight s ≡ true → has_run s ≡ true
    in_flight_runs State.in_flight h = refl
    in_flight_runs _ h = cc

end_activity-Tracked :
    (o : Option Activity) (e : Entry) (n : NodeKind) → TrackedNext (end_activity o e n)
unfolding end_activity
end_activity-Tracked none e n = tt
end_activity-Tracked (some a) e n =
    elim (Bool-cases (
      not (a.session == e.session)
      || not (same_node_kind a.node_kind n)
      || not (is_state_in_flight a.state))) [
        | inl other ↦ rw other tt
        | inr own ↦ elim (Bool-cases (is_kind_unmonitored e.kind)) [
          | inl lost ↦ rw (own, lost) (in_flight_runs a.state (ground arith))
          | inr ends ↦ rw (own, ends) refl
        ]
      ]
  where
    in_flight_runs : (s : State) → is_state_in_flight s ≡ true → has_run s ≡ true
    in_flight_runs State.in_flight h = refl
    in_flight_runs _ h = cc

put_activity-Tracked :
    (p : Projection) (e : Entry) (o : Option Activity)
    → Tracked p.activities
    → TrackedNext o
    → Tracked (put_activity p e o).activities
put_activity-Tracked p e none inv h = inv
put_activity-Tracked p e (some a) inv h =
    insert-All (λ k b. has_run b.state ≡ true) e.activity a p.activities inv h

fold_activity-Tracked :
    (p : Projection) (e : Entry) (n : NodeKind)
    → Tracked p.activities
    → Tracked (fold_activity p e n).activities
unfolding fold_activity
fold_activity-Tracked p e n inv = elim (Bool-cases (is_activity_started e.kind)) [
  | inl starts ↦
      rw starts (
        put_activity-Tracked p e _ inv
          (start_activity-Tracked (lookup e.activity p.activities) e n))
  | inr ends ↦
      rw ends
        (put_activity-Tracked p e _ inv (end_activity-Tracked (lookup e.activity p.activities) e n))
]

execution_activities :
    (k : Kind) (p : Projection) (e : Entry) (d : Execution)
    → (fold_execution_kind k p e d).activities ≡ p.activities
unfolding fold_execution_kind
execution_activities Kind.lease p e d = refl
execution_activities Kind.execution p e d = ground arith
execution_activities Kind.lane p e d = ground arith
execution_activities _ p e d = refl

unit_activities :
    (p : Projection) (e : Entry) (b : Budgets) (u : Option WorkUnit)
    → (fold_unit p e b u).activities ≡ p.activities
unfolding fold_unit fold_result
unit_activities p e b u = elim (Bool-cases (accepts u e.kind)) [
  | inr refused ↦ rw refused refl
  | inl taken ↦ elim (Bool-cases (is_kind_result e.kind)) [
    | inl result ↦ rw (taken, result) (ground arith)
    | inr moving ↦ elim (Bool-cases (is_kind_admitted e.kind)) [
      | inl admits ↦ rw (taken, moving, admits) refl
      | inr other ↦ rw (taken, moving, other) refl
    ]
  ]
]

budgeted_activities :
    (o : Option Budgets) (p : Projection) (e : Entry) (b : Budgets)
    → (fold_budgeted o p e b).activities ≡ p.activities
unfolding find_unit
budgeted_activities none p e b =
    unit_activities (put_budgets p e b) e b (find_unit (put_budgets p e b) e.session e.work_unit)
budgeted_activities (some b') p e b = refl

settle_activities : (p : Projection) (e : Entry) → (settle_executions p e).activities ≡ p.activities
unfolding settle_executions
settle_activities p e = ground arith

subject-Tracked :
    (o : Option NodeKind) (p : Projection) (e : Entry)
    → Tracked p.activities
    → Tracked (fold_subject o p e).activities
unfolding fold_work
subject-Tracked none p e inv =
    subst Tracked
      (sym (
        budgeted_activities (budgeted e.kind (note_version e (budgets_of p e.session)) e) p e
          (note_version e (budgets_of p e.session))))
      inv
subject-Tracked (some n) p e inv = fold_activity-Tracked p e n inv

fold-Tracked : (p : Projection) (e : Entry) → Tracked p.activities → Tracked (fold p e).activities
unfolding fold fold_execution
fold-Tracked p e inv = elim (Bool-cases (execution_kind e.kind)) [
  | inl execution ↦ rw execution (subst Tracked (sym (execution_activities e.kind p e _)) inv)
  | inr other ↦ rw other (
      subject-Tracked (activity_kind_of e) (settle_executions p e) e
        (subst Tracked (sym (settle_activities p e)) inv))
]

Tracked-from :
    (p : Projection) (es : List Entry)
    → Tracked p.activities
    → Tracked (project_from p es).activities
unfolding project_from
Tracked-from p [] inv = inv
Tracked-from p (e ∷ es) inv = Tracked-from (fold p e) es (fold-Tracked p e inv)

pub project-Tracked : (es : List Entry) → Tracked (project es).activities
unfolding project lookup
project-Tracked es = Tracked-from new_projection es (λ k a h. cc)
