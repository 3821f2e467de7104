-- ===== src/Dispatch/Admission.antt =====
-- `Admit`, `Admissible` and `decide` of takt/dispatch/dispatch.go.
use takt_ai.Base.Words.{raised}
use takt_ai.Base.{
  ℕ, zero, suc, ◌+◌, ◌-◌, ◌*◌, ◌/◌, ◌%◌, ◌^◌, ◌≤◌, ◌<◌, max, min, String, ◌≡◌, refl, sym, ap, ◌∙◌,
  ◌≢◌, ◌↔◌, ◌⊎◌, inl, inr, Bool, true, false, not, ◌&&◌, ◌||◌, Option, none, some, List, [], ◌∷◌,
  ◌++◌, map, arith, eq_iff, eq_refl, ltb, leb, eqb, ◌==◌, if◌then◌else◌, ltb→lt, leb→le, Bool-cases,
  Option-cases, length, length-append, any, all, All, contains, contains_id, equal,
}
pub mod Cases
pub mod Recorded
pub mod Granted
use takt_ai.Base.Dict.{
  Dict, is_some, get_or, bit, weigh, lookup, insert, remove, size, count_where, find, map_values,
  lookup-insert, lookup-insert_self, lookup-remove, size-insert, count_where-insert,
  lookup-map_values, insert-All,
}
use takt_ai.History.Kinds.{
  Author, NodeKind, Kind, State, Flight, Outcome, ResultStatus, author_of, same_author,
  same_node_kind, execution_kind, is_activity_started, is_activity_finished, flight_of,
  is_kind_admitted, is_kind_planned, is_kind_terminated, is_kind_recovery_closed, is_kind_result,
  is_kind_qa_round, is_kind_launched, is_kind_cancel_requested, is_kind_unmonitored, is_kind_lease,
  is_state_planned, is_state_in_flight, is_state_settled, is_state_withdrawn, has_outcome,
  is_completed, is_backtracked,
}
use takt_ai.History.Entry.{
  QaRound, Entry, blank, first_attempt, cause_none, cause_uncaptured, tactical, strategic,
  activity_kind, activity_kind_of,
}
use takt_ai.History.Projection.{
  Assurance, WorkUnit, Activity, Recovery, Strengthening, Budgets, Execution, Projection, no_unit,
  no_recovery, no_round, no_budgets, no_execution, new_projection, nul, unit_key, find_unit,
  budgets_of, is_in_flight, in_flight, recovery_of, is_unresolved, or_no_recovery, scope_of,
  or_no_round, qa_round_for, strengthening_used, allowance_key, allowance_of, parsed_or, ref_seq,
  at_least, prevails_over, prevails, last_attempt, retry_of, attempt_after, next_attempt,
}
use takt_ai.History.Fold.{
  bound_recovery_actions, bound_recovery_attempts, accepts, put_recovery, declare_round,
  reconcile_actions, reopened, lift_abandonment, grant, except, declared, observed, closed,
  budgeted,
}
use takt_ai.History.Fold.{
  add_ids, new_execution, put_execution, start_execution, fold_execution_kind, fold_execution,
  settle, settle_executions, started_activity, start_activity, end_activity, put_activity,
  fold_activity, start_round, mark_attempt, consume_attempt, charge, identified, node_kind_after,
  advance, next_unit, put_unit, put_budgets, assurance_from, fold_result, fold_unit, note_version,
  fold_budgeted, fold_work, fold_subject, fold, project_from, project,
}
use takt_ai.History.Log.Interface.{Log, batch_refused, batch_appended, store_log}
use takt_ai.Dispatch.Policy.{
  AdmissionPolicy, bound_concurrency, bound_unplanned, bound_contests, bound_recovery,
  bound_qa_rounds, cause_repetition, cause_withdrawn, cause_no_failure, cause_incomplete,
  cause_recovery_overlap, admission_policy_ref, Refusal, Report, succeeded, refuse, reported,
  append_with,
}

pub record AdmissionRequest : Type 0 where
  pub event : String
  pub session : String
  pub agent : String
  pub dispatch : String

-- The entry that decide starts from.
abbrev pub admission_entry : Projection → AdmissionRequest → Entry
admission_entry p req = record (blank Author.harness Kind.admitted) {
  session = req.session;
  work_unit = req.event;
  node_kind = NodeKind.delegated;
  attempt = next_attempt p req.session req.event;
  dispatch = req.dispatch;
  agent = req.agent;
  cause = cause_uncaptured;
  policy_ref = admission_policy_ref;
  objective = (scope_of (budgets_of p req.session) req.event).0;
}

abbrev pub deny : Entry → String → Refusal → Entry × Option Refusal
deny e cause r = (record e { kind = Kind.denied; cause = cause }, some r)

abbrev pub attempts_made : Recovery → Dict Bool
attempts_made r = get_or [] r.attempted

-- The concurrency ceiling of a session: the policy's, and what its exceptions granted.
unfoldable pub ceiling_of : AdmissionPolicy → Budgets → ℕ
ceiling_of policy b = raised policy.specialists (allowance_of b bound_concurrency)

-- The cases of decide that a recovery scope governs.
unfoldable pub decide_recovery : Budgets → Entry → String → Recovery → Entry × Option Refusal
decide_recovery b entry objective r =
    let attempts =
      raised r.attempts (allowance_of b (allowance_key bound_recovery_attempts objective)) in
    let actions =
      raised r.actions (allowance_of b (allowance_key bound_recovery_actions objective)) in
    if objective == ""
    then (entry, none)
    else if not r.is_open
    then deny entry bound_recovery_attempts Refusal.recovery_abandoned
    else if r.unreconciled
    then deny entry bound_recovery_actions Refusal.recovery_unreconciled
    else if leb attempts (size (attempts_made r))
    then deny entry bound_recovery_attempts Refusal.attempts_spent
    else if leb actions r.used
    then deny entry bound_recovery_actions Refusal.actions_spent
    else (entry, none)

-- The cases that the unit itself and its round govern.
unfoldable pub decide_unit :
    AdmissionPolicy → Budgets → Option WorkUnit → AdmissionRequest → Entry → Entry × Option Refusal
unfolding decide_recovery
decide_unit policy b unit req entry =
    let scope = scope_of b req.event in
    let qa = qa_round_for b req.event in
    let qa_ceiling =
      raised policy.max_attempts
        (allowance_of b (allowance_key bound_qa_rounds qa.1.round.objective)) in
    if is_some unit && is_state_in_flight (get_or no_unit unit).state
    then deny entry cause_repetition Refusal.already_in_flight
    else if is_some unit && is_state_withdrawn (get_or no_unit unit).state
    then deny entry cause_withdrawn Refusal.unit_withdrawn
    else if not (is_some unit)
        && leb (raised policy.unplanned_units (allowance_of b bound_unplanned)) b.unplanned
    then deny entry bound_unplanned Refusal.unplanned_spent
    else if not (qa.0 == "")
        && (not qa.1.started && leb qa_ceiling (strengthening_used b qa.1.round.objective))
    then deny entry bound_qa_rounds Refusal.rounds_spent
    else decide_recovery b entry scope.0 scope.1

-- decide: the entry to record and, for a denial, why.
unfoldable pub decide : Projection → AdmissionPolicy → AdmissionRequest → Entry × Option Refusal
unfolding decide_unit ceiling_of
decide p policy req =
    let b = budgets_of p req.session in
    let entry = admission_entry p req in
    if leb (ceiling_of policy b) (in_flight p)
    then deny entry bound_concurrency Refusal.ceiling_reached
    else decide_unit policy b (find_unit p req.session req.event) req entry

abbrev pub identified_request : AdmissionRequest → Bool
identified_request req = not (req.event == "" || req.session == "")

module _ (l : Log) where
  open l use {Handle, entries}

  abbrev pub record_decision : Handle → String → Entry × Option Refusal → Report × Handle
  record_decision h journal_ref (entry, r) =
      append_with l h (record entry { journal_ref = journal_ref }) r

  -- Admit
  unfoldable pub admit : Handle → AdmissionPolicy → String → AdmissionRequest → Report × Handle
  admit h policy journal_ref req =
      if identified_request req
      then record_decision h journal_ref (decide (project (entries h)) policy req)
      else (refuse Refusal.identity_required, h)

  -- Admissible
  unfoldable pub admissible : Handle → AdmissionPolicy → AdmissionRequest → Option Refusal
  admissible h policy req =
      if identified_request req
      then (decide (project (entries h)) policy req).1
      else some Refusal.identity_required
