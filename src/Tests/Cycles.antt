-- ===== src/Tests/Cycles.antt =====
-- The properties of trigger and barrier at concrete facts.
use takt_ai.Base.Dict.{remove, lookup, insert}
use takt_ai.Base.Sorted.{put_sorted, sorted_keys}
use takt_ai.Base.Text.{leq_codes}
use takt_ai.Gc.Plan.{
  Reached, found, DeltaEntry, Operation, CycleRequest, MandateClass, CyclePlan, Reachability,
  declare_cycle, session_delta, scan_entries, apply_entry, merge_all, lasting, put_by_path,
  dependents, add_paths, is_known_mandate,
}
use takt_ai.Gc.Plan.Closure.{changes_path, is_complete, reaches_path, is_codegraph, declare_closure}
use takt_ai.Base.{
  ◌≤◌, none, ◌&&◌, inr, contains, some, ◌||◌, ◌==◌, String, ◌<◌, ◌≡◌, refl, ◌↔◌, true, false, [],
  ◌∷◌, arith,
}
use takt_ai.Gc.Trigger.{Cadence, CycleOutcome, is_due}
use takt_ai.Gc.Rounds.{Facts, trigger_of, attempt_cycle, proceeds_iff}
use takt_ai.Gc.Coordinator.{Coordinator, Round, count_mutations, advance_cycle}
use takt_ai.Gc.Coordinator.Deferrals.{advance_all, IsHeld, advance_cycle-bounded, held_aborts}
use takt_ai.Base.Text.{negsuc}

abbrev cycle_cadence : Cadence
cycle_cadence = record { units_per_cycle = 4; mutations_per_cycle = 2; max_deferrals = 2 }

abbrev busy : Facts
busy = record {
  units_dispatched = 4;
  mutations = 1;
  user_requested = false;
  cycle_in_flight = false;
  active_units = 1;
  pending_deltas = 0;
}

proceeds_iff_example : ((attempt_cycle cycle_cadence busy 0).proceed ≡ true) ↔ (
    (is_due (trigger_of busy 0) cycle_cadence ≡ true)
    × (0 < 2)
    × (false ≡ false)
    × (0 < 1)
    × (busy.active_units ≡ 0)
    × (busy.pending_deltas ≡ 0))
proceeds_iff_example = proceeds_iff cycle_cadence busy 0

-- One file changed by the session; the code graph knows one file that it reaches.
abbrev changed_file : DeltaEntry
changed_file = record {
  path = "a.go";
  operation = Operation.patch;
  before_hash = "h";
  after_hash = "i";
  outcome = "";
  cycle = "";
  session = "s";
}

abbrev cycle_request : CycleRequest
cycle_request = record { session = "s"; cycle = "c"; mandate = MandateClass.dead_code }

abbrev graph : String → Reached
graph path = found ("b.go" ∷ [])

abbrev cycle_plan : CyclePlan
cycle_plan = record {
  request = cycle_request;
  delta = record { path = "a.go"; introduced = false; deleted = false } ∷ [];
  closure = "a.go" ∷ "b.go" ∷ [];
  reachability = Reachability.codegraph;
  gap = "";
}

cycle_declared : declare_cycle (changed_file ∷ []) cycle_request (some graph) ≡ inr cycle_plan
unfolding declare_cycle session_delta scan_entries apply_entry merge_all lasting put_by_path
    dependents add_paths sorted_keys put_sorted leq_codes insert lookup remove
cycle_declared = refl

declare_closure_example :
    (cycle_plan.request ≡ cycle_request)
    × ((cycle_plan.request.session == "" || cycle_plan.request.cycle == "") ≡ false)
    × (is_known_mandate cycle_plan.request.mandate ≡ true)
    × (cycle_plan.delta ≡ session_delta (changed_file ∷ []) cycle_plan.request.session)
    × (is_codegraph cycle_plan.reachability ≡ is_complete (some graph) cycle_plan.delta)
    × ((path : String)
        → contains cycle_plan.closure path ≡ (
            changes_path cycle_plan.delta path
            || (is_complete (some graph) cycle_plan.delta
                && reaches_path (some graph) cycle_plan.delta path)))
declare_closure_example =
    declare_closure (changed_file ∷ []) cycle_request (some graph) cycle_plan cycle_declared

-- A session that asked for a cycle, with one mutation and one delta still pending.
abbrev asking : Coordinator
asking = record {
  since = negsuc 0;
  observed_journal = negsuc 0;
  observed_history = negsuc 0;
  units = 0;
  mutations = 0;
  cursor = negsuc 0;
  deferrals = 0;
  next_mandate = 0;
  requested = true;
  session = "s";
  cycle = none;
  closed = 0;
}

abbrev stalled : Round
stalled = record {
  journal = record { seq = 0; delta = changed_file } ∷ [];
  history = [];
  pending = "a.go" ∷ [];
  identity = some "c";
  session = "s";
  reach = none;
}

asking-IsHeld : IsHeld cycle_cadence asking stalled
unfolding is_due count_mutations
asking-IsHeld = (refl, omega arith, omega arith)

held_aborts_example :
    ((advance_all cycle_cadence asking (stalled ∷ stalled ∷ [])).deferrals ≡ 2)
    × ((advance_cycle cycle_cadence
          (advance_all cycle_cadence asking (stalled ∷ stalled ∷ []))
          stalled).0.decision.outcome
        ≡ CycleOutcome.abort)
    × ((advance_cycle cycle_cadence
          (advance_all cycle_cadence asking (stalled ∷ stalled ∷ []))
          stalled).1.deferrals
        ≡ 0)
held_aborts_example =
    held_aborts cycle_cadence asking (stalled ∷ stalled ∷ []) stalled refl
      (asking-IsHeld, (asking-IsHeld, tt)) asking-IsHeld.0 refl

advance_cycle-bounded_example :
    (advance_cycle cycle_cadence (record asking { deferrals = 1 }) stalled).1.deferrals ≤ 2
advance_cycle-bounded_example =
    advance_cycle-bounded cycle_cadence (record asking { deferrals = 1 }) stalled (omega arith)
      (omega arith)
