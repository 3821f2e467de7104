-- ===== src/Tests.antt =====
-- A small record, store and policy, on which the properties are applied.
use takt_ai.Base.{
  ℕ, zero, suc, ◌+◌, ◌-◌, ◌*◌, ◌/◌, ◌%◌, ◌^◌, ◌≤◌, ◌<◌, max, min, String, ◌≡◌, refl, sym, ap, ◌∙◌,
  ◌≢◌, ◌↔◌, ◌⊎◌, inl, inr, Bool, true, false, not, ◌&&◌, ◌||◌, Option, none, some, List, [], ◌∷◌,
  ◌++◌, map, arith, eq_iff, eq_refl, ltb, leb, eqb, ◌==◌, if◌then◌else◌, ltb→lt, leb→le, Bool-cases,
  Option-cases, length, length-append, any, all, All, contains, contains_id, equal,
}
use takt_ai.Base.Dict.{
  Dict, is_some, get_or, bit, weigh, lookup, insert, remove, size, count_where, find, map_values,
  lookup-insert, lookup-insert_self, lookup-remove, size-insert, count_where-insert,
  lookup-map_values, insert-All,
}
use takt_ai.Base.Text.{
  pos, ℤ, lt_ℤ, max_ℤ, next_ℤ, ◌<>◌, codes, is_space, is_blank, Digits, digits, signed, unsigned,
  atoi_codes, atoi, digit, decimal, itoa, strip, trim_prefix,
}
use takt_ai.Base.Text.{atoi-itoa}
use takt_ai.History.Kinds.{
  Author, NodeKind, Kind, State, Flight, Outcome, ResultStatus, author_of, same_author,
  same_node_kind, execution_kind, is_activity_started, is_activity_finished, flight_of,
  is_kind_admitted, is_kind_planned, is_kind_terminated, is_kind_recovery_closed, is_kind_result,
  is_kind_qa_round, is_kind_launched, is_kind_cancel_requested, is_kind_unmonitored, is_kind_lease,
  is_state_planned, is_state_in_flight, is_state_settled, is_state_withdrawn, has_outcome,
  is_completed, is_backtracked,
}
use takt_ai.History.Entry.{
  QaRound, Entry, blank, first_attempt, cause_none, cause_uncaptured, tactical, strategic,
  activity_kind, activity_kind_of,
}
use takt_ai.History.Projection.{
  Assurance, WorkUnit, Activity, Recovery, Strengthening, Budgets, Execution, Projection, no_unit,
  no_recovery, no_round, no_budgets, no_execution, new_projection, nul, unit_key, find_unit,
  budgets_of, is_in_flight, in_flight, recovery_of, is_unresolved, or_no_recovery, scope_of,
  or_no_round, qa_round_for, strengthening_used, allowance_key, allowance_of, parsed_or, ref_seq,
  at_least, prevails_over, prevails, last_attempt, retry_of, attempt_after, next_attempt,
}
use takt_ai.History.Validate.{
  Fault, is_empty, bounds, ◌then_check◌, refuse_if, validate_author, validate_subject,
  validate_identity, is_known_node_kind, is_unset_or_delegated, validate_node_kind, xor,
  is_activity_outcome, is_terminal, validate_outcome_shape, has_status, is_known_status,
  is_evaluated, validate_round_units, has_units, validate_round, validate_kind,
  validate_kind_fields, is_known_outcome, has_ids, is_kind_inputs, validate_execution, validate,
}
use takt_ai.History.Fold.{
  bound_recovery_actions, bound_recovery_attempts, accepts, put_recovery, declare_round,
  reconcile_actions, reopened, lift_abandonment, grant, except, declared, observed, closed,
  budgeted,
}
use takt_ai.History.Fold.{
  add_ids, new_execution, put_execution, start_execution, fold_execution_kind, fold_execution,
  settle, settle_executions, started_activity, start_activity, end_activity, put_activity,
  fold_activity, start_round, mark_attempt, consume_attempt, charge, identified, node_kind_after,
  advance, next_unit, put_unit, put_budgets, assurance_from, fold_result, fold_unit, note_version,
  fold_budgeted, fold_work, fold_subject, fold, project_from, project,
}
use takt_ai.History.Fold.View.{
  execution_not_admitted, activity_not_admitted, UnitChange, fold_execution_units,
  fold_activity_units, settle_units, result_not_admitted, same_find, fold_units,
  project_from-append,
}
use takt_ai.History.Fold.Lifecycle.{
  ◌⟶◌, ◌⟶*◌, unit_state, state-insert, Steps, fold-⟶, reach_from, project-⟶*, withdrawn_absorbing,
}
use takt_ai.History.Fold.Slots.{in_flight-fold}
use takt_ai.History.Fold.Unplanned.{newly, unplanned_of, newly_zero, fold_unplanned}
use takt_ai.History.Fold.Covered.{is_uncovered, IsCovered, fold-IsCovered, project-IsCovered}
use takt_ai.History.Fold.Growth.{Grows, Grows-refl, Grows-trans, fold-Grows, project-Grows}
use takt_ai.History.Fold.Effect.{is_lifecycle, fold_moves, fold_denied, project-append}
use takt_ai.History.Log.{
  AppendError, Codec, number, History, Encoded, and_row, or_fault, encode_all, commit, append_batch,
  next_seen, resume, replay_from, replay, IsDurable, max_page_size, page_limit, on_page, fill_page,
  read_page,
}
use takt_ai.History.Log.Durable.{AllValid, Batched, append_batch_lem, append_batch-IsDurable}
use takt_ai.History.Log.Interface.{Log, batch_refused, batch_appended, store_log}
use takt_ai.History.Keys.{IsPlain, unit_key-injective}
use takt_ai.History.Attempts.{next_attempt_settled}
use takt_ai.Dispatch.Policy.{
  AdmissionPolicy, bound_concurrency, bound_unplanned, bound_contests, bound_recovery,
  bound_qa_rounds, cause_repetition, cause_withdrawn, cause_no_failure, cause_incomplete,
  cause_recovery_overlap, admission_policy_ref, Refusal, Report, succeeded, refuse, reported,
  append_with,
}
use takt_ai.Dispatch.Admission.{
  AdmissionRequest, admission_entry, deny, attempts_made, ceiling_of, decide_recovery, decide_unit,
  decide, identified_request, record_decision, admit, admissible,
}
use takt_ai.Dispatch.Admission.Cases.{Decided, InBudget, RoundFits, UnitFits, Fits, decide_cases}
use takt_ai.Dispatch.Admission.Recorded.{appended_one, stamped, admit_slots}
use takt_ai.Dispatch.Admission.Granted.{admit-Fits, admit_unfit, admit_denial}
use takt_ai.Dispatch.Lifecycle.{
  current_attempt, uncertain_flight, is_flight_uncertain, terminal_outcome, is_outcome_completed,
  outcome_of, terminated_entry, unverified_entry, termination, author_or_none, fact,
  needs_objective, check_exception, exception_entry, terminal_failure, contest_key, contest_entry,
  contest_decision, terminate, finish, record_fact, launch, reconcile, withdraw, except_bound,
  contest,
}
use takt_ai.Dispatch.Lifecycle.Moves.{moved_unit, launch_twice}
use takt_ai.Dispatch.Lifecycle.Release.{finish_releases, reconcile_non_start}
use takt_ai.Dispatch.Budget.{admit_unplanned, contest_bounded}
use takt_ai.Gc.Trigger.{
  Cadence, TriggerInput, TriggerKind, CycleOutcome, Reason, Decision, at_least_signed, is_due,
  decide_cycle, BarrierInput, BarrierVerdict, is_run, has_reason, hold_reason, barrier,
}
use takt_ai.Gc.Rounds.{Facts, trigger_of, attempt_cycle, proceeds_iff}
pub mod Records
pub mod Decisions
pub mod Cycles
pub mod Recoveries
pub mod Plans
pub mod Turns

-- Unit "u" of session "s", at sequence number n.
abbrev pub act : Author → Kind → ℕ → Entry
act a k n = record (blank a k) {
  seq = n;
  session = "s";
  work_unit = "u";
  attempt = "1";
  cause = cause_uncaptured;
}

abbrev pub admitted : Entry
admitted = act Author.harness Kind.admitted 0

abbrev pub planned : Entry
planned = act Author.orchestrator Kind.planned 0

abbrev pub withdrawn : Entry
withdrawn = act Author.orchestrator Kind.withdrawn 1

abbrev pub uncertain : Entry
uncertain = act Author.harness Kind.uncertain 1

abbrev pub terminated : Entry
terminated = record (act Author.harness Kind.terminated 1) { outcome = Outcome.completed }

abbrev pub withdrawn_log : List Entry
withdrawn_log = planned ∷ withdrawn ∷ []

abbrev pub uncertain_log : List Entry
uncertain_log = admitted ∷ uncertain ∷ []

abbrev pub settled_log : List Entry
settled_log = admitted ∷ terminated ∷ []

abbrev pub policy : AdmissionPolicy
policy = record {
  specialists = 1;
  unplanned_units = 3;
  contests = 1;
  recovery_failures = 1;
  max_file_lines = 100;
  max_actions = 5;
  max_attempts = 3;
  memory_page = 10;
}

abbrev pub request : AdmissionRequest
request = record { event = "u"; session = "s"; agent = "a"; dispatch = "d" }

-- A codec that stores the entries themselves.
abbrev pub memory : Codec
memory = record {
  Raw = Entry;
  marshal = some;
  unmarshal = some;
  unmarshal-marshal = λ e r h. sym h;
}

-- A store whose database takes every transaction.
abbrev pub store : Log
store = store_log memory (λ h es. true)

abbrev pub opened : List Entry → History memory
opened es = record { rows = es; entries = es }

pub withdrawn_state : unit_state (project withdrawn_log) "s" "u" ≡ State.withdrawn
unfolding accepts activity_kind advance author_of budgeted budgets_of ceiling_of count_where
    execution_kind find find_unit flight_of fold fold_activity fold_execution fold_result fold_unit
    fold_work in_flight insert is_lifecycle lookup map_values newly next_unit project project_from
    qa_round_for same_node_kind scope_of settle_executions size unit_key unit_state uncertain_flight
    strengthening_used
withdrawn_state = refl

pub flying_state : unit_state (project uncertain_log) "s" "u" ≡ State.in_flight
unfolding accepts activity_kind advance author_of budgeted budgets_of ceiling_of count_where
    execution_kind find find_unit flight_of fold fold_activity fold_execution fold_result fold_unit
    fold_work in_flight insert is_lifecycle lookup map_values newly next_unit project project_from
    qa_round_for same_node_kind scope_of settle_executions size unit_key unit_state uncertain_flight
    strengthening_used
flying_state = refl
