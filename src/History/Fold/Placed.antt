-- ===== src/History/Fold/Placed.antt =====
-- Every unit of a projection has a lifecycle state.
use takt_ai.Base.{String, ◌≡◌, refl, Bool, true, false, some, List, [], ◌∷◌}
use takt_ai.Base.Dict.{Dict, get_or, lookup, insert-All}
use takt_ai.History.Kinds.{Kind, State}
use takt_ai.History.Entry.{Entry}
use takt_ai.History.Projection.{WorkUnit, Projection, no_unit, new_projection, unit_key, find_unit}
use takt_ai.History.Fold.Defs.{advance, next_unit, fold, project_from, project}
use takt_ai.History.Fold.View.{UnitChange, kept, assured, moved, fold_units}

abbrev pub has_state : State → Bool
has_state State.unset = false
has_state _ = true

abbrev pub IsPlaced : Dict WorkUnit → Type 0
IsPlaced m = (k : String) (u : WorkUnit) → lookup k m ≡ some u → has_state u.state ≡ true

advance_state : (k : Kind) (u : WorkUnit) (e : Entry) → has_state (advance k u e).state ≡ true
unfolding advance
advance_state Kind.admitted u e = refl
advance_state Kind.planned u e = refl
advance_state Kind.withdrawn u e = refl
advance_state Kind.terminated u e = refl
advance_state _ u e = refl

pub IsPlaced-by_change :
    (p : Projection) (e : Entry) (m : Dict WorkUnit)
    → IsPlaced p.units
    → UnitChange p e m
    → IsPlaced m
unfolding next_unit find_unit
IsPlaced-by_change p e m inv (kept same _) = rw same inv
IsPlaced-by_change p e m inv (assured u a _ h now) = rw now (
    insert-All (λ k u. has_state u.state ≡ true) (unit_key e.session e.work_unit)
      (record u { assurance = a }) p.units inv (inv (unit_key e.session e.work_unit) u h))
IsPlaced-by_change p e m inv (moved _ _ now) = rw now (
    insert-All (λ k u. has_state u.state ≡ true) (unit_key e.session e.work_unit)
      (next_unit (get_or no_unit (find_unit p e.session e.work_unit)) e) p.units inv
      (advance_state e.kind _ e))

IsPlaced-from :
    (p : Projection) (es : List Entry) → IsPlaced p.units → IsPlaced (project_from p es).units
unfolding project_from
IsPlaced-from p [] inv = inv
IsPlaced-from p (e ∷ es) inv =
    IsPlaced-from (fold p e) es (IsPlaced-by_change p e _ inv (fold_units p e))

none-IsPlaced : IsPlaced []
unfolding lookup
none-IsPlaced k u h = cc

pub project-IsPlaced : (es : List Entry) → IsPlaced (project es).units
unfolding project
project-IsPlaced es = IsPlaced-from new_projection es none-IsPlaced
