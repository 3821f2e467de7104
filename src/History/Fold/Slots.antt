-- ===== src/History/Fold/Slots.antt =====
-- The concurrency slots: how one entry changes the number of units in flight.
use takt_ai.Base.{◌+◌, ◌≤◌, ◌≡◌, ap, true, false, Option, none, some, arith}
use takt_ai.Base.Dict.{Dict, get_or, bit, weigh, count_where, count_where-insert}
use takt_ai.History.Kinds.{Kind, is_kind_admitted, is_kind_terminated, is_kind_result}
use takt_ai.History.Entry.{Entry}
use takt_ai.History.Projection.{
  WorkUnit, Projection, no_unit, unit_key, find_unit, is_in_flight, in_flight,
}
use takt_ai.History.Fold.Budgeted.{accepts}
use takt_ai.History.Fold.Defs.{advance, next_unit, fold}
use takt_ai.History.Fold.View.{UnitChange, fold_units}
use takt_ai.History.Fold.View.{kept, assured, moved}

advance_takes :
    (k : Kind) (u : Option WorkUnit) (w : WorkUnit) (e : Entry)
    → accepts u k ≡ true
    → is_kind_result k ≡ false
    → bit (is_in_flight (advance k w e)) ≤ weigh is_in_flight u + bit (is_kind_admitted k)
unfolding accepts advance
advance_takes Kind.admitted u w e a r = omega arith
advance_takes Kind.planned u w e a r = omega arith
advance_takes Kind.withdrawn u w e a r = omega arith
advance_takes Kind.terminated u w e a r = omega arith
advance_takes Kind.result u w e a r = cc
advance_takes _ none w e a r = cc
advance_takes _ (some u) w e a r = ground arith

advance_gives :
    (k : Kind) (u : Option WorkUnit) (w : WorkUnit) (e : Entry)
    → accepts u k ≡ true
    → is_kind_result k ≡ false
    → weigh is_in_flight u ≤ bit (is_in_flight (advance k w e)) + bit (is_kind_terminated k)
unfolding accepts advance
advance_gives Kind.admitted u w e a r = ground arith
advance_gives Kind.planned none w e a r = omega arith
advance_gives Kind.planned (some u) w e a r = ground arith
advance_gives Kind.withdrawn none w e a r = omega arith
advance_gives Kind.withdrawn (some u) w e a r = ground arith
advance_gives Kind.terminated u w e a r = ground arith
advance_gives Kind.result u w e a r = cc
advance_gives _ u w e a r = ground arith

module _ (p : Projection) (e : Entry) where
  slots_of_change :
      (m : Dict WorkUnit)
      → UnitChange p e m
      → (count_where is_in_flight m
          ≤ count_where is_in_flight p.units + bit (is_kind_admitted e.kind))
        × (count_where is_in_flight p.units
            ≤ count_where is_in_flight m + bit (is_kind_terminated e.kind))
  unfolding next_unit find_unit
  slots_of_change m (kept h _) = rw h (omega arith)
  slots_of_change m (assured u a _ h q) = rw q (
      omega (
        arith,
        count_where-insert is_in_flight (unit_key e.session e.work_unit)
            (record u { assurance = a }) p.units,
        ap (weigh is_in_flight) h,
      ))
  slots_of_change m (moved taken moving q) = rw q (
      omega (
        arith,
        count_where-insert is_in_flight (unit_key e.session e.work_unit)
            (next_unit (get_or no_unit (find_unit p e.session e.work_unit)) e) p.units,
        advance_takes e.kind (find_unit p e.session e.work_unit) _ e taken moving,
        advance_gives e.kind (find_unit p e.session e.work_unit) _ e taken moving,
      ))

  -- One entry takes at most one slot, and only by an admission; it gives back at most one, and only
  -- by a termination.
  pub in_flight-fold :
      (in_flight (fold p e) ≤ in_flight p + bit (is_kind_admitted e.kind))
      × (in_flight p ≤ in_flight (fold p e) + bit (is_kind_terminated e.kind))
  unfolding in_flight
  in_flight-fold = slots_of_change (fold p e).units (fold_units p e)
