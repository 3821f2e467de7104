-- ===== src/Gc/Trigger.antt =====
-- `Decide` of takt/gc/trigger.go and `Barrier` of takt/gc/barrier.go. The counters are counts, hence
-- never negative; Go's `int` products and sums wrap around, and are compared as signed numbers.
use takt_ai.Base.Words.{word}
use takt_ai.Base.{
  ℕ, ◌+◌, ◌*◌, ◌%◌, ◌^◌, String, Bool, true, false, not, ◌||◌, List, [], leb, eqb, if◌then◌else◌,
}

-- The cadence of the trigger policy.
pub record Cadence : Type 0 where
  pub units_per_cycle : ℕ
  pub mutations_per_cycle : ℕ
  pub max_deferrals : ℕ

pub record TriggerInput : Type 0 where
  pub units_dispatched : ℕ
  pub mutations : ℕ
  pub user_requested : Bool
  pub cycle_in_flight : Bool
  pub deferrals : ℕ

pub data TriggerKind : Type 0 where
  cadence user : TriggerKind

pub data CycleOutcome : Type 0 where
  idle run skip abort : CycleOutcome

pub data Reason : Type 0 where
  unset in_flight no_delta deferral_limit active_units pending_deltas : Reason

pub record Decision : Type 0 where
  pub outcome : CycleOutcome
  pub trigger : TriggerKind
  pub reason : Reason
  pub units : ℕ
  pub mutations : ℕ

-- `>=` on machine words of 64 bits as signed numbers.
abbrev pub at_least_signed : ℕ → ℕ → Bool
at_least_signed a b = leb ((b + 2 ^ 63) % 2 ^ 64) ((a + 2 ^ 63) % 2 ^ 64)

-- The test `due` of Decide.
unfoldable pub is_due : TriggerInput → Cadence → Bool
is_due input c =
    input.user_requested
    || at_least_signed
        (word (
          word (input.units_dispatched * c.mutations_per_cycle)
          + word (input.mutations * c.units_per_cycle)))
        (word (c.units_per_cycle * c.mutations_per_cycle))

-- Decide
unfoldable pub decide_cycle : TriggerInput → Cadence → Decision
decide_cycle input c =
    let d : Decision = record {
      outcome = CycleOutcome.run;
      trigger = if input.user_requested then TriggerKind.user else TriggerKind.cadence;
      reason = Reason.unset;
      units = input.units_dispatched;
      mutations = input.mutations;
    } in
    if not (is_due input c)
    then record d { outcome = CycleOutcome.idle }
    else if leb c.max_deferrals input.deferrals
    then record d { outcome = CycleOutcome.abort; reason = Reason.deferral_limit }
    else if input.cycle_in_flight
    then record d { outcome = CycleOutcome.skip; reason = Reason.in_flight }
    else if eqb input.mutations 0
    then record d { outcome = CycleOutcome.skip; reason = Reason.no_delta }
    else d

pub record BarrierInput : Type 0 where
  pub decision : Decision
  pub active_units : ℕ
  pub active_unit_ids : List String
  pub pending_deltas : ℕ
  pub pending_identities : List String
  pub deferrals : ℕ

pub record BarrierVerdict : Type 0 where
  pub decision : Decision
  pub proceed : Bool
  pub reason : Reason
  pub deferrals : ℕ
  pub active_unit_ids : List String
  pub pending_identities : List String

abbrev pub is_run : CycleOutcome → Bool
is_run CycleOutcome.run = true
is_run _ = false

abbrev pub has_reason : Reason → Bool
has_reason Reason.unset = false
has_reason _ = true

-- The verdict's reason before `Held` is tested.
abbrev pub hold_reason : BarrierInput → Reason
hold_reason input =
    if not (eqb input.active_units 0)
    then Reason.active_units
    else if not (eqb input.pending_deltas 0)
    then Reason.pending_deltas
    else Reason.unset

-- Barrier
unfoldable pub barrier : BarrierInput → BarrierVerdict
barrier input =
    let v : BarrierVerdict = record {
      decision = input.decision;
      proceed = false;
      reason = Reason.unset;
      deferrals = input.deferrals;
      active_unit_ids = [];
      pending_identities = [];
    } in
    if not (is_run input.decision.outcome)
    then v
    else if has_reason (hold_reason input)
    then record v {
      reason = hold_reason input;
      deferrals = input.deferrals + 1;
      active_unit_ids = input.active_unit_ids;
      pending_identities = input.pending_identities;
    }
    else record v { proceed = true; deferrals = 0 }
