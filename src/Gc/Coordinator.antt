-- ===== src/Gc/Coordinator.antt =====
-- takt/gc/coordinator.go: the pace counters of maintenance, and how Advance starts a cycle. The trigger
-- policy is an argument, as is what a call reads of the workspace (Round). Of a cycle in flight only
-- its plan is kept, and of the closed ones their number.
pub mod Deferrals
use takt_ai.Base.{
  ℕ, ◌+◌, ◌%◌, String, ◌⊎◌, inl, inr, Bool, true, false, not, ◌&&◌, ◌||◌, Option, none, some, List,
  [], ◌∷◌, map, ◌==◌, if◌then◌else◌, length, suc, zero,
}
use takt_ai.Base.Dict.{Dict, is_some}
use takt_ai.Base.Text.{ℤ, pos, negsuc, lt_ℤ}
use takt_ai.Base.Sorted.{sorted_keys}
use takt_ai.History.Kinds.{Kind, is_state_planned, is_state_in_flight}
use takt_ai.History.Entry.{Entry}
use takt_ai.History.Projection.{WorkUnit, Projection}
use takt_ai.History.Fold.{project}
use takt_ai.Gc.Trigger.{
  Cadence, TriggerInput, CycleOutcome, Decision, BarrierVerdict, decide_cycle, barrier, is_run,
}
use takt_ai.Gc.Plan.{
  Operation, DeltaEntry, MandateClass, Reached, CyclePlan, PlanRefusal, declare_cycle, add_paths,
}

pub record Coordinator : Type 0 where
  pub since : ℤ
  pub observed_journal : ℤ
  pub observed_history : ℤ
  pub units : ℕ
  pub mutations : ℕ
  pub cursor : ℤ
  pub deferrals : ℕ
  pub next_mandate : ℕ
  pub requested : Bool
  pub session : String
  pub cycle : Option CyclePlan
  pub closed : ℕ

-- An entry of the workspace journal with its position.
pub record Seen : Type 0 where
  pub seq : ℕ
  pub delta : DeltaEntry

-- What one call of Advance reads: the journal, the history's entries, the ordinary deltas that are
-- pending, the random identity if rand.Read gave one, the calling session and the code graph.
pub record Round : Type 0 where
  pub journal : List Seen
  pub history : List Entry
  pub pending : List String
  pub identity : Option String
  pub session : String
  pub reach : Option (String → Reached)

-- reset
abbrev pub reset : Coordinator → Coordinator
reset c = record c { units = 0; mutations = 0; deferrals = 0; requested = false }

-- Bind
unfoldable pub bind : Coordinator → String → Coordinator
bind c session =
    if session == "" || session == c.session
    then c
    else record (reset c) { cursor = negsuc 0; since = negsuc 0; session = session }

abbrev pub is_mutation : Operation → Bool
is_mutation Operation.create = true
is_mutation Operation.patch = true
is_mutation Operation.delete = true
is_mutation _ = false

-- Whether Observe counts_as_mutation an entry, for the coordinator's cursor and session.
abbrev pub counts_as_mutation : ℤ → String → Seen → Bool
counts_as_mutation cursor session e =
    lt_ℤ cursor (pos e.seq)
    && (e.delta.cycle == ""
        && (e.delta.outcome == ""
            && (not (e.delta.before_hash == e.delta.after_hash)
                && ((e.delta.session == "" || e.delta.session == session)
                    && is_mutation e.delta.operation))))

unfoldable pub count_mutations : ℤ → String → List Seen → ℕ
count_mutations cursor session [] = 0
count_mutations cursor session (e ∷ es) =
    let rest = count_mutations cursor session es in
    if counts_as_mutation cursor session e then 1 + rest else rest

unfoldable pub last_seen : ℤ → List Seen → ℤ
last_seen n [] = n
last_seen n (e ∷ es) = last_seen (if lt_ℤ n (pos e.seq) then pos e.seq else n) es

-- Observe
abbrev pub observe : Coordinator → List Seen → Coordinator
observe c es = record c {
  mutations = count_mutations c.cursor c.session es;
  observed_journal = last_seen c.cursor es;
}

abbrev pub is_admission : Kind → Bool
is_admission Kind.admitted = true
is_admission _ = false

unfoldable pub count_admissions : ℤ → String → List Entry → ℕ
count_admissions since session [] = 0
count_admissions since session (e ∷ es) =
    let rest = count_admissions since session es in
    if lt_ℤ since (pos e.seq) && (is_admission e.kind && e.session == session)
    then 1 + rest
    else rest

-- The position before a length.
abbrev pub last_position : ℕ → ℤ
last_position zero = negsuc 0
last_position (suc n) = pos n

-- ObserveExecutions, without the sessions of the cycle in flight.
abbrev pub observe_executions : Coordinator → List Entry → Coordinator
observe_executions c es = record c {
  units = count_admissions c.since c.session es;
  observed_history = last_position (length es);
}

abbrev pub is_unfinished : WorkUnit → Bool
is_unfinished u = is_state_in_flight u.state || is_state_planned u.state

unfoldable pub unfinished_names : Dict WorkUnit → List String
unfinished_names [] = []
unfinished_names ((k, u) ∷ us) =
    let rest = unfinished_names us in if is_unfinished u then u.work_unit ∷ rest else rest

-- unfinishedUnitIDs: sorted, each name once.
unfoldable pub unfinished_units : Projection → List String
unfolding unfinished_names add_paths sorted_keys
unfinished_units p = sorted_keys (add_paths (unfinished_names p.units) [])

-- The mandate at a position of mandateRotation; there are five.
abbrev pub mandate_at : ℕ → MandateClass
mandate_at zero = MandateClass.dead_code
mandate_at (suc zero) = MandateClass.complexity
mandate_at (suc (suc zero)) = MandateClass.duplication
mandate_at (suc (suc (suc zero))) = MandateClass.documentation
mandate_at _ = MandateClass.analyzer_integrity

-- Why a cycle that the barrier let through did not start.
pub data StartFault : Type 0 where
  no_identity : StartFault
  not_declared : PlanRefusal → StartFault

-- What Advance returns; `none` is the zero verdict.
pub record Advanced : Type 0 where
  pub decision : Decision
  pub verdict : Option BarrierVerdict
  pub fault : Option StartFault

abbrev pub trigger_input : Coordinator → TriggerInput
trigger_input c = record {
  units_dispatched = c.units;
  mutations = c.mutations;
  user_requested = c.requested;
  cycle_in_flight = is_some c.cycle;
  deferrals = c.deferrals;
}

abbrev pub judged : Coordinator → Round → Decision → BarrierVerdict
judged c r d = barrier (record {
  decision = d;
  active_units = length (unfinished_units (project r.history));
  active_unit_ids = unfinished_units (project r.history);
  pending_deltas = length r.pending;
  pending_identities = r.pending;
  deferrals = c.deferrals;
})

abbrev pub refused_start : PlanRefusal ⊎ CyclePlan → StartFault ⊎ CyclePlan
refused_start (inl e) = inl (StartFault.not_declared e)
refused_start (inr plan) = inr plan

-- The plan of the cycle that Advance declares.
unfoldable pub planned_cycle : Coordinator → Round → Option String → StartFault ⊎ CyclePlan
unfolding declare_cycle
planned_cycle c r none = inl StartFault.no_identity
planned_cycle c r (some cycle) = refused_start (
    declare_cycle (map (λ (e : Seen). e.delta) r.journal)
      (record { session = r.session; cycle = cycle; mandate = mandate_at c.next_mandate }) r.reach)

-- The end of Advance: a failure to start counts_as_mutation as a deferral.
unfoldable pub start_cycle :
    Coordinator → Decision → BarrierVerdict → StartFault ⊎ CyclePlan → Advanced × Coordinator
start_cycle c d b (inl e) = (
  record { decision = d; verdict = some b; fault = some e },
  record c { deferrals = c.deferrals + 1 },
)
start_cycle c d b (inr plan) = (
  record { decision = d; verdict = some b; fault = none },
  record c { deferrals = 0; cycle = some plan },
)

abbrev pub is_dropped : CycleOutcome → Bool
is_dropped CycleOutcome.skip = true
is_dropped CycleOutcome.abort = true
is_dropped _ = false

abbrev pub after_observing : Coordinator → Round → Coordinator
after_observing c r = observe_executions (observe c r.journal) r.history

-- The branches of Advance, on what Decide and Barrier answer and on the start of a cycle.
unfoldable pub settle_round :
    Coordinator → Decision → BarrierVerdict → Advanced × Coordinator → Advanced × Coordinator
settle_round c d b started =
    let held = record c { deferrals = b.deferrals } in
    let idle : Advanced = record { decision = d; verdict = none; fault = none } in
    if is_some c.cycle
    then (idle, c)
    else if is_dropped d.outcome
    then (idle, reset (record c { cursor = c.observed_journal; since = c.observed_history }))
    else if not (is_run d.outcome)
    then (idle, c)
    else if not b.proceed
    then (record idle { verdict = some b }, held)
    else started

-- Advance
unfoldable pub advance_cycle : Cadence → Coordinator → Round → Advanced × Coordinator
unfolding decide_cycle barrier planned_cycle start_cycle unfinished_units settle_round
advance_cycle policy c0 r =
    let c = after_observing c0 r in
    let d = decide_cycle (trigger_input c) policy in
    let b = judged c r d in
    let started =
      start_cycle (record c { deferrals = b.deferrals }) d b (planned_cycle c r r.identity) in
    settle_round c d b started

-- Close
unfoldable pub close_cycle : Coordinator → Coordinator
close_cycle c =
    if not (is_some c.cycle)
    then c
    else reset (record c {
      cycle = none;
      closed = c.closed + 1;
      next_mandate = (c.closed + 1) % 5;
      cursor = c.observed_journal;
      since = c.observed_history;
    })
