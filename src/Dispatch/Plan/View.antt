-- ===== src/Dispatch/Plan/View.antt =====
-- What plan entries leave of a unit as a plan sees it: its state, its contract and its prerequisites.
use takt_ai.Base.{
  String, ◌≡◌, refl, sym, ap, ◌∙◌, inl, inr, Bool, true, false, Option, none, some, List, eq_iff,
  eq_refl, ◌==◌, if◌then◌else◌, Bool-cases,
}
use mathlib.Core.Path.{subst}
use takt_ai.Base.Dict.{Dict, get_or, lookup, insert, lookup-insert}
use takt_ai.History.Kinds.{Kind, State, is_kind_result, is_state_planned}
use takt_ai.History.Entry.{Entry, activity_kind, activity_kind_of}
use takt_ai.History.Projection.{WorkUnit, Projection, no_unit, unit_key, find_unit}
use takt_ai.History.Keys.{unit_key-unit}
use takt_ai.History.Fold.{accepts, advance, next_unit, fold}
use takt_ai.History.Fold.View.{kept, assured, moved, UnitChange, fold_units}
use takt_ai.History.Fold.Placed.{has_state, IsPlaced}
use takt_ai.History.Fold.Effect.{is_lifecycle}
use takt_ai.Dispatch.Lifecycle.Moves.{moved_unit}

pub record PlanView : Type 0 where
  pub state : State
  pub contract : String
  pub prerequisites : List String

abbrev pub view_of : Option WorkUnit → PlanView
view_of o =
    let u = get_or no_unit o in
    record { state = u.state; contract = u.contract; prerequisites = u.prerequisites }

unfoldable pub unit_view : Projection → String → String → PlanView
unfolding find_unit
unit_view p session unit = view_of (find_unit p session unit)

-- A declaration plans a unit that is new or still planned, and leaves another one.
abbrev pub is_free : State → Bool
is_free State.unset = true
is_free State.planned = true
is_free _ = false

abbrev pub plan_one : String → List String → PlanView → PlanView
plan_one contract needs v =
    if is_free v.state
    then record { state = State.planned; contract = contract; prerequisites = needs }
    else v

abbrev pub withdraw_one : PlanView → PlanView
withdraw_one v = if is_state_planned v.state then record v { state = State.withdrawn } else v

keys_apart : (s w w' : String) → (w == w') ≡ false → (unit_key s w == unit_key s w') ≡ false
keys_apart s w w' h = elim (Bool-cases (unit_key s w == unit_key s w')) [
  | inr other ↦ other
  | inl same ↦
      let units = unit_key-unit s w w' ((eq_iff (unit_key s w) (unit_key s w')).0 same) in
      absurd (cc (sym h ∙ ap (λ x. w == x) (sym units) ∙ eq_refl w))
]

module _ (p : Projection) (e : Entry) where
  inserted_elsewhere :
      (w : String) (u : WorkUnit)
      → (e.work_unit == w) ≡ false
      → lookup (unit_key e.session w) (insert (unit_key e.session e.work_unit) u p.units)
        ≡ find_unit p e.session w
  unfolding find_unit
  inserted_elsewhere w u h =
      lookup-insert (unit_key e.session e.work_unit) (unit_key e.session w) u p.units
      ∙ ap (λ b. if b then some u else lookup (unit_key e.session w) p.units)
          (keys_apart e.session e.work_unit w h)

  -- An entry that names another unit of the session leaves this one.
  other_unit :
      (w : String) (m : Dict WorkUnit)
      → UnitChange p e m
      → (e.work_unit == w) ≡ false
      → lookup (unit_key e.session w) m ≡ find_unit p e.session w
  unfolding find_unit
  other_unit w m (kept same _) h = rw same refl
  other_unit w m (assured u a _ _ now) h =
      ap (lookup (unit_key e.session w)) now ∙ inserted_elsewhere w _ h
  other_unit w m (moved _ _ now) h =
      ap (lookup (unit_key e.session w)) now ∙ inserted_elsewhere w _ h

  -- A unit that does not accept the entry keeps what it is.
  refused_unit :
      (m : Dict WorkUnit)
      → UnitChange p e m
      → is_kind_result e.kind ≡ false
      → accepts (find_unit p e.session e.work_unit) e.kind ≡ false
      → lookup (unit_key e.session e.work_unit) m ≡ find_unit p e.session e.work_unit
  unfolding find_unit
  refused_unit m (kept same _) r h = rw same refl
  refused_unit m (assured u a result _ now) r h = cc
  refused_unit m (moved taken _ now) r h = cc

  pub others_kept :
      (w : String)
      → (e.work_unit == w) ≡ false
      → unit_view (fold p e) e.session w ≡ unit_view p e.session w
  unfolding unit_view find_unit
  others_kept w h = ap view_of (other_unit w _ (fold_units p e) h)

  refused_kept :
      is_kind_result e.kind ≡ false
      → accepts (find_unit p e.session e.work_unit) e.kind ≡ false
      → unit_view (fold p e) e.session e.work_unit ≡ unit_view p e.session e.work_unit
  unfolding unit_view find_unit
  refused_kept r h = ap view_of (refused_unit _ (fold_units p e) r h)

  moved_view :
      is_lifecycle e.kind ≡ true
      → activity_kind_of e ≡ none
      → accepts (find_unit p e.session e.work_unit) e.kind ≡ true
      → unit_view (fold p e) e.session e.work_unit
        ≡ view_of (some (next_unit (get_or no_unit (find_unit p e.session e.work_unit)) e))
  unfolding unit_view
  moved_view life work taken = ap view_of (moved_unit p e life work taken)

accepts-planned :
    (o : Option WorkUnit)
    → ((u : WorkUnit) → o ≡ some u → has_state u.state ≡ true)
    → accepts o Kind.planned ≡ is_free (view_of o).state
unfolding accepts
accepts-planned none h = refl
accepts-planned (some u) h = placed u.state (h u refl)
  where
    placed : (s : State) → has_state s ≡ true → is_state_planned s ≡ is_free s
    placed State.unset h = cc
    placed State.planned h = refl
    placed State.in_flight h = refl
    placed State.settled h = refl
    placed State.withdrawn h = refl

-- A planned entry and a withdrawn entry act on their unit's view as the plan's abstract steps.
module _ (p : Projection) (e : Entry) (placed : IsPlaced p.units) where
  planned_next :
      (u : WorkUnit)
      → e.kind ≡ Kind.planned
      → view_of (some (next_unit u e))
        ≡ record { state = State.planned; contract = e.contract; prerequisites = e.prerequisites }
  unfolding next_unit advance
  planned_next u k = rw k refl

  withdrawn_next :
      (u : WorkUnit)
      → e.kind ≡ Kind.withdrawn
      → view_of (some (next_unit u e)) ≡ record (view_of (some u)) { state = State.withdrawn }
  unfolding next_unit advance
  withdrawn_next u k = rw k refl

  free_unit :
      accepts (find_unit p e.session e.work_unit) Kind.planned
      ≡ is_free (unit_view p e.session e.work_unit).state
  unfolding unit_view
  free_unit =
      accepts-planned (find_unit p e.session e.work_unit) (unfold find_unit in λ u h. placed _ u h)

  planned_own :
      e.kind ≡ Kind.planned
      → unit_view (fold p e) e.session e.work_unit
        ≡ plan_one e.contract e.prerequisites (unit_view p e.session e.work_unit)
  unfolding is_lifecycle activity_kind
  planned_own k = elim (Bool-cases (accepts (find_unit p e.session e.work_unit) Kind.planned)) [
    | inl taken ↦
        moved_view p e (rw k refl) (rw k refl) (rw k taken)
        ∙ planned_next _ k
        ∙ ap
            (λ b.
              if b
              then record {
                state = State.planned;
                contract = e.contract;
                prerequisites = e.prerequisites;
              }
              else unit_view p e.session e.work_unit)
            (sym taken ∙ free_unit)
    | inr refused ↦
        refused_kept p e (rw k refl) (rw k refused)
        ∙ ap
            (λ b.
              if b
              then record {
                state = State.planned;
                contract = e.contract;
                prerequisites = e.prerequisites;
              }
              else unit_view p e.session e.work_unit)
            (sym refused ∙ free_unit)
  ]

  withdrawn_own :
      e.kind ≡ Kind.withdrawn
      → unit_view (fold p e) e.session e.work_unit
        ≡ withdraw_one (unit_view p e.session e.work_unit)
  unfolding is_lifecycle activity_kind accepts unit_view
  withdrawn_own k = elim (Bool-cases (accepts (find_unit p e.session e.work_unit) Kind.withdrawn)) [
    | inl taken ↦
        moved_view p e (rw k refl) (rw k refl) (rw k taken)
        ∙ withdrawn_next _ k
        ∙ sym (
            ap
              (λ b.
                if b
                then record (unit_view p e.session e.work_unit) { state = State.withdrawn }
                else unit_view p e.session e.work_unit)
              taken)
    | inr refused ↦
        refused_kept p e (rw k refl) (rw k refused)
        ∙ sym (
            ap
              (λ b.
                if b
                then record (unit_view p e.session e.work_unit) { state = State.withdrawn }
                else unit_view p e.session e.work_unit)
              refused)
  ]

  if_own :
      (w : String) (f : PlanView → PlanView)
      → unit_view (fold p e) e.session e.work_unit ≡ f (unit_view p e.session e.work_unit)
      → unit_view (fold p e) e.session w
        ≡ (if e.work_unit == w then f (unit_view p e.session w) else unit_view p e.session w)
  if_own w f h = elim (Bool-cases (e.work_unit == w)) [
    | inl own ↦ rw own (
        subst (λ x. unit_view (fold p e) e.session x ≡ f (unit_view p e.session x))
          ((eq_iff e.work_unit w).0 own) h)
    | inr other ↦ rw other (others_kept p e w other)
  ]

  pub planned_step :
      (w : String)
      → e.kind ≡ Kind.planned
      → unit_view (fold p e) e.session w ≡ (
          if e.work_unit == w
          then plan_one e.contract e.prerequisites (unit_view p e.session w)
          else unit_view p e.session w)
  planned_step w k = if_own w (plan_one e.contract e.prerequisites) (planned_own k)

  pub withdrawn_step :
      (w : String)
      → e.kind ≡ Kind.withdrawn
      → unit_view (fold p e) e.session w ≡ (
          if e.work_unit == w
          then withdraw_one (unit_view p e.session w)
          else unit_view p e.session w)
  withdrawn_step w k = if_own w withdraw_one (withdrawn_own k)
