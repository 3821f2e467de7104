-- ===== src/Gc/Coordinator/Deferrals.antt =====
-- How long Advance of takt/gc/coordinator.go puts a due cycle off.
use takt_ai.History.Fold.{project}
use takt_ai.Base.{
  ◌∙◌, ap, ◌+◌, ◌≤◌, ◌<◌, ◌≡◌, refl, inl, inr, true, false, none, List, [], ◌∷◌, arith, length, All,
  ◌⊎◌,
}
use takt_ai.Base.Dict.{is_some}
use takt_ai.Gc.Trigger.{
  is_run, Cadence, CycleOutcome, is_due, decide_cycle, Decision, BarrierVerdict, barrier,
}
use takt_ai.Gc.Plan.{CyclePlan}
use takt_ai.Gc.Coordinator.{
  settle_round, Advanced, judged, Coordinator, Round, StartFault, trigger_input, after_observing,
  start_cycle, planned_cycle, unfinished_units, advance_cycle,
}

-- The coordinator after a list of calls of Advance.
unfoldable pub advance_all : Cadence → Coordinator → List Round → Coordinator
unfolding advance_cycle
advance_all policy c [] = c
advance_all policy c (r ∷ rs) = advance_all policy (advance_cycle policy c r).1 rs

-- A round whose cycle is due, whatever the deferrals.
abbrev pub IsDue : Cadence → Coordinator → Round → Type 0
IsDue policy c r =
    is_due (record (trigger_input (after_observing c r)) { deferrals = 0 }) policy ≡ true

-- A round whose due cycle the barrier holds.
abbrev pub IsHeld : Cadence → Coordinator → Round → Type 0
IsHeld policy c r =
    IsDue policy c r
    × (0 < (after_observing c r).mutations)
    × (0 < length (unfinished_units (project r.history)) + length r.pending)

start_bound :
    (c : Coordinator) (d : Decision) (b : BarrierVerdict) (x : StartFault ⊎ CyclePlan)
    → (start_cycle c d b x).1.deferrals ≤ c.deferrals + 1
unfolding start_cycle
start_bound c d b (inl e) = omega arith
start_bound c d b (inr plan) = omega arith

module _ (c : Coordinator) (d : Decision) (b : BarrierVerdict)
    (started : Advanced × Coordinator) where
  branch_held :
      is_some c.cycle ≡ false
      → d.outcome ≡ CycleOutcome.run
      → b.proceed ≡ false
      → (settle_round c d b started).1 ≡ record c { deferrals = b.deferrals }
  unfolding settle_round
  branch_held free run stays = rw (free, run, stays) refl

  branch_abort :
      is_some c.cycle ≡ false
      → d.outcome ≡ CycleOutcome.abort
      → ((settle_round c d b started).0.decision.outcome ≡ CycleOutcome.abort)
        × ((settle_round c d b started).1.deferrals ≡ 0)
  unfolding settle_round
  branch_abort free out = rw (free, out) (refl, refl)

module _ (policy : Cadence) (c : Coordinator) (r : Round) where
  -- What Decide and Barrier answer in the call.
  abbrev decided : Decision
  decided = decide_cycle (trigger_input (after_observing c r)) policy

  abbrev verdict_of : BarrierVerdict
  verdict_of = judged (after_observing c r) r decided

  runs_below : is_run decided.outcome ≡ true → c.deferrals < policy.max_deferrals
  unfolding decide_cycle
  runs_below runs = ground (arith, runs)

  verdict_bound : verdict_of.deferrals ≤ c.deferrals + 1
  unfolding barrier
  verdict_bound = ground arith

  verdict_zero : verdict_of.proceed ≡ true → verdict_of.deferrals ≡ 0
  unfolding barrier
  verdict_zero proceeds = ground (arith, proceeds)

  verdict_held :
      is_run decided.outcome ≡ true
      → 0 < length (unfinished_units (project r.history)) + length r.pending
      → (verdict_of.proceed ≡ false) × (verdict_of.deferrals ≡ c.deferrals + 1)
  unfolding barrier
  verdict_held runs busy = ground (arith, runs, busy)

  -- Under a positive limit, stored deferrals within it stay within it after Advance, whether the
  -- barrier holds the cycle, or it starts or fails to start, or nothing is due.
  pub advance_cycle-bounded :
      0 < policy.max_deferrals
      → c.deferrals ≤ policy.max_deferrals
      → (advance_cycle policy c r).1.deferrals ≤ policy.max_deferrals
  unfolding advance_cycle settle_round
  advance_cycle-bounded some_max within =
      let started =
        start_bound (record (after_observing c r) { deferrals = verdict_of.deferrals }) decided
          verdict_of (planned_cycle (after_observing c r) r r.identity) in
      ground (arith, started, some_max, within, runs_below, verdict_bound, verdict_zero)

  module _ (free : c.cycle ≡ none) (due : IsDue policy c r) where
    due_now : is_due (trigger_input (after_observing c r)) policy ≡ true
    unfolding is_due
    due_now = due

    runs :
        0 < (after_observing c r).mutations
        → c.deferrals < policy.max_deferrals
        → decided.outcome ≡ CycleOutcome.run
    unfolding decide_cycle
    runs changed room = ground (arith, changed, room, due_now, free)

    gives_up : policy.max_deferrals ≤ c.deferrals → decided.outcome ≡ CycleOutcome.abort
    unfolding decide_cycle
    gives_up full = ground (arith, full, due_now)

    hold :
        0 < (after_observing c r).mutations
        → 0 < length (unfinished_units (project r.history)) + length r.pending
        → c.deferrals < policy.max_deferrals
        → (advance_cycle policy c r).1
          ≡ record (after_observing c r) { deferrals = c.deferrals + 1 }
    unfolding advance_cycle
    hold changed busy room =
        let run = runs changed room in
        let v = verdict_held (ap is_run run) busy in
        branch_held (after_observing c r) decided verdict_of _ (ap is_some free) run v.0
        ∙ ap (λ n. record (after_observing c r) { deferrals = n }) v.1

    give_up :
        policy.max_deferrals ≤ c.deferrals
        → ((advance_cycle policy c r).0.decision.outcome ≡ CycleOutcome.abort)
          × ((advance_cycle policy c r).1.deferrals ≡ 0)
    unfolding advance_cycle
    give_up full =
        branch_abort (after_observing c r) decided verdict_of _ (ap is_some free) (gives_up full)

-- Where no cycle is in flight, as many rounds as the policy's limit leaves raise the stored deferrals
-- to that limit, where each has a due cycle, a mutation, and an unfinished unit or a pending delta;
-- the next due cycle is then aborted, and the deferrals start over. What a round counts is counted
-- from the positions and the session that the coordinator had at the first one.
pub held_aborts :
    (policy : Cadence) (c : Coordinator) (rs : List Round) (r : Round)
    → c.cycle ≡ none
    → All (IsHeld policy c) rs
    → IsDue policy c r
    → c.deferrals + length rs ≡ policy.max_deferrals
    → ((advance_all policy c rs).deferrals ≡ policy.max_deferrals)
      × ((advance_cycle policy (advance_all policy c rs) r).0.decision.outcome ≡ CycleOutcome.abort)
      × ((advance_cycle policy (advance_all policy c rs) r).1.deferrals ≡ 0)
unfolding advance_all
held_aborts policy c [] r free held due enough =
    let done = give_up policy c r free due (omega (arith, enough)) in
    (omega (arith, enough), done.0, done.1)
held_aborts policy c (x ∷ rs) r free held due enough =
    rw (advance_all, hold policy c x free held.0.0 held.0.1 held.0.2 (omega (arith, enough)))
      (held_aborts policy (record (after_observing c x) { deferrals = c.deferrals + 1 }) rs r free
        held.1 due (omega (arith, enough)))
