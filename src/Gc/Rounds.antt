-- ===== src/Gc/Rounds.antt =====
-- One round of a maintenance cycle's start: Barrier of takt/gc/barrier.go on what Decide of trigger.go
-- says, as Advance of coordinator.go composes them.
use takt_ai.Base.{ℕ, ◌<◌, ◌≡◌, ◌↔◌, Bool, true, false, not, ◌&&◌, [], arith, ltb, eqb}
use takt_ai.Gc.Trigger.{Cadence, TriggerInput, is_due, decide_cycle, BarrierVerdict, barrier}

-- What one round reads of the outside world.
pub record Facts : Type 0 where
  pub units_dispatched : ℕ
  pub mutations : ℕ
  pub user_requested : Bool
  pub cycle_in_flight : Bool
  pub active_units : ℕ
  pub pending_deltas : ℕ

abbrev pub trigger_of : Facts → ℕ → TriggerInput
trigger_of f n = record {
  units_dispatched = f.units_dispatched;
  mutations = f.mutations;
  user_requested = f.user_requested;
  cycle_in_flight = f.cycle_in_flight;
  deferrals = n;
}

-- One round: Barrier on what Decide says, with the deferrals that the caller has stored.
unfoldable pub attempt_cycle : Cadence → Facts → ℕ → BarrierVerdict
unfolding decide_cycle barrier
attempt_cycle c f n = barrier (record {
  decision = decide_cycle (trigger_of f n) c;
  active_units = f.active_units;
  active_unit_ids = [];
  pending_deltas = f.pending_deltas;
  pending_identities = [];
  deferrals = n;
})

proceed_test :
    (c : Cadence) (f : Facts) (n : ℕ)
    → (attempt_cycle c f n).proceed ≡ (
        is_due (trigger_of f n) c
        && (ltb n c.max_deferrals
            && (not f.cycle_in_flight
                && (ltb 0 f.mutations && (eqb f.active_units 0 && eqb f.pending_deltas 0)))))
unfolding attempt_cycle decide_cycle barrier
proceed_test c f n = ground arith

-- A cycle proceeds exactly when it is due, deferrals remain, no cycle is in flight, something has
-- changed, and neither a unit is active nor a delta pending.
pub proceeds_iff :
    (c : Cadence) (f : Facts) (n : ℕ)
    → ((attempt_cycle c f n).proceed ≡ true) ↔ (
        (is_due (trigger_of f n) c ≡ true)
        × (n < c.max_deferrals)
        × (f.cycle_in_flight ≡ false)
        × (0 < f.mutations)
        × (f.active_units ≡ 0)
        × (f.pending_deltas ≡ 0))
proceeds_iff c f n =
    ((λ h. ground (arith, proceed_test c f n)), (λ h. ground (arith, proceed_test c f n)))
