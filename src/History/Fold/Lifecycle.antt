-- ===== src/History/Fold/Lifecycle.antt =====
-- The temporal states of a work unit, and the acts that lead from one to another.
use takt_ai.Base.{
  String, ◌≡◌, refl, sym, ap, ◌⊎◌, inl, inr, true, false, Option, none, some, List, [], ◌∷◌, ◌++◌,
  arith, eq_iff, ◌==◌, if◌then◌else◌, Bool-cases,
}
use takt_ai.Base.Dict.{Dict, get_or, lookup, insert, lookup-insert}
use takt_ai.History.Kinds.{Kind, State, is_kind_result}
use takt_ai.History.Entry.{Entry}
use takt_ai.History.Projection.{WorkUnit, Projection, no_unit, new_projection, unit_key, find_unit}
use takt_ai.History.Fold.Budgeted.{accepts}
use takt_ai.History.Fold.Defs.{advance, next_unit, fold, project_from, project}
use takt_ai.History.Fold.View.{project_from-append, kept, assured, moved, UnitChange, fold_units}

infix 40 ◌⟶◌ ◌⟶*◌
pub data ◌⟶◌ : State → State → Type 0 where
  plan : State.unset ⟶ State.planned
  replan : State.planned ⟶ State.planned
  withdraw : State.planned ⟶ State.withdrawn
  admit_new : State.unset ⟶ State.in_flight
  admit_planned : State.planned ⟶ State.in_flight
  retry : State.settled ⟶ State.in_flight
  observe : State.in_flight ⟶ State.in_flight
  terminate : State.in_flight ⟶ State.settled

ruleset transitions = (plan, replan, withdraw, admit_new, admit_planned, retry, observe, terminate)

pub data ◌⟶*◌ : State → State → Type 0 where
  here : {s : State} → s ⟶* s
  extend : {s t u : State} → s ⟶* t → t ⟶ u → s ⟶* u

unfoldable pub unit_state : Projection → String → String → State
unfolding find_unit
unit_state p session unit = (get_or no_unit (find_unit p session unit)).state

advance-⟶ :
    (k : Kind) (u : Option WorkUnit) (w : WorkUnit) (e : Entry)
    → w.state ≡ (get_or no_unit u).state
    → accepts u k ≡ true
    → is_kind_result k ≡ false
    → (get_or no_unit u).state ⟶ (advance k w e).state
unfolding accepts advance
advance-⟶ Kind.admitted none w e s a r = admit_new
advance-⟶ Kind.admitted (some u) w e s a r = grind (arith, transitions)
advance-⟶ Kind.planned none w e s a r = plan
advance-⟶ Kind.planned (some u) w e s a r = grind (arith, transitions)
advance-⟶ Kind.withdrawn none w e s a r = cc
advance-⟶ Kind.withdrawn (some u) w e s a r = grind (arith, transitions)
advance-⟶ Kind.result u w e s a r = cc
advance-⟶ _ none w e s a r = cc
advance-⟶ _ (some u) w e s a r = grind (arith, transitions)

-- The unit that a pair of identities names, after an assignment at the entry's own key.
pub state-insert :
    (p : Projection) (e : Entry) (s w : String) (u : WorkUnit)
    → (get_or no_unit
        (lookup (unit_key s w) (insert (unit_key e.session e.work_unit) u p.units))).state
      ≡ (if unit_key e.session e.work_unit == unit_key s w then u.state else unit_state p s w)
unfolding unit_state
state-insert p e s w u =
    ground (arith, lookup-insert (unit_key e.session e.work_unit) (unit_key s w) u p.units)

module _ (p : Projection) (e : Entry) (s w : String) where
  abbrev pub Steps : State → Type 0
  Steps t = (t ≡ unit_state p s w) ⊎ (unit_state p s w ⟶ t)

  same_unit :
      (unit_key e.session e.work_unit == unit_key s w) ≡ true
      → find_unit p s w ≡ find_unit p e.session e.work_unit
  unfolding find_unit
  same_unit h = ap (λ k. lookup k p.units) (sym ((eq_iff _ _).0 h))

  Steps-of_insert :
      (u : WorkUnit)
      → ((get_or no_unit (find_unit p e.session e.work_unit)).state ≡ u.state)
        ⊎ ((get_or no_unit (find_unit p e.session e.work_unit)).state ⟶ u.state)
      → Steps
          (get_or no_unit
            (lookup (unit_key s w) (insert (unit_key e.session e.work_unit) u p.units))).state
  unfolding unit_state
  Steps-of_insert u step =
      rw (state-insert p e s w u)
        (elim (Bool-cases (unit_key e.session e.work_unit == unit_key s w)) [
          | inl here_it ↦
              rw (here_it, unit_state, same_unit here_it)
                (elim step [ inl same ↦ inl (sym same) | inr st ↦ inr st ])
          | inr elsewhere ↦ rw elsewhere (inl refl)
        ])

  Steps-of_change :
      (m : Dict WorkUnit)
      → UnitChange p e m
      → Steps (get_or no_unit (lookup (unit_key s w) m)).state
  unfolding next_unit
  Steps-of_change m (kept h _) = rw h (unfold unit_state in inl refl)
  Steps-of_change m (assured u a _ h q) =
      rw q (Steps-of_insert (record u { assurance = a }) (rw h (inl refl)))
  Steps-of_change m (moved taken moving q) = rw q (
      Steps-of_insert _
        (inr (advance-⟶ e.kind (find_unit p e.session e.work_unit) _ e refl taken moving)))

  -- One entry leaves a unit's state, or takes it along one transition.
  pub fold-⟶ : Steps (unit_state (fold p e) s w)
  unfolding unit_state
  fold-⟶ = Steps-of_change (fold p e).units (fold_units p e)

-- The states along a recorded order.
pub reach_from :
    (p : Projection) (es : List Entry) (s w : String)
    → unit_state p s w ⟶* unit_state (project_from p es) s w
unfolding project_from
reach_from p [] s w = here
reach_from p (e ∷ es) s w = prepend (fold-⟶ p e s w) (reach_from (fold p e) es s w)
  where
    prefix : {a b c : State} → a ⟶ b → b ⟶* c → a ⟶* c
    prefix st here = extend here st
    prefix st (extend path last) = extend (prefix st path) last

    prepend : {a b c : State} → ((b ≡ a) ⊎ (a ⟶ b)) → b ⟶* c → a ⟶* c
    prepend (inl same) path = rw (← same) path
    prepend (inr st) path = prefix st path

-- However the record goes on, the state of a unit moves along the transitions only.
pub project-⟶* :
    (es later : List Entry) (s w : String)
    → unit_state (project es) s w ⟶* unit_state (project (es ++ later)) s w
unfolding project
project-⟶* es later s w =
    rw (project_from-append new_projection es later) (reach_from (project es) later s w)

withdrawn_stays : {a b : State} → a ⟶* b → a ≡ State.withdrawn → b ≡ State.withdrawn
withdrawn_stays here h = h
withdrawn_stays (extend path st) h = no_exit st (withdrawn_stays path h)
  where
    no_exit : {a b : State} → a ⟶ b → a ≡ State.withdrawn → b ≡ State.withdrawn
    no_exit plan h = cc
    no_exit replan h = cc
    no_exit withdraw h = refl
    no_exit admit_new h = cc
    no_exit admit_planned h = cc
    no_exit retry h = cc
    no_exit observe h = cc
    no_exit terminate h = cc

-- A unit that a record withdrew is withdrawn in every longer record.
pub withdrawn_absorbing :
    (es later : List Entry) (s w : String)
    → unit_state (project es) s w ≡ State.withdrawn
    → unit_state (project (es ++ later)) s w ≡ State.withdrawn
withdrawn_absorbing es later s w h = withdrawn_stays (project-⟶* es later s w) h
