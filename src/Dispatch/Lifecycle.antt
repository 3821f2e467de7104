-- ===== src/Dispatch/Lifecycle.antt =====
-- `Finish`, `terminate`, `Record`, `Launch`, `Reconcile`, `Withdraw`, `Except` and `checkException` of
-- takt/dispatch/dispatch.go, and `Contest` of takt/dispatch/contest.go.
pub mod Moves
pub mod Release
use takt_ai.Base.Words.{raised}
use takt_ai.Base.{
  ℕ, zero, suc, ◌+◌, ◌-◌, ◌*◌, ◌/◌, ◌%◌, ◌^◌, ◌≤◌, ◌<◌, max, min, String, ◌≡◌, refl, sym, ap, ◌∙◌,
  ◌≢◌, ◌↔◌, ◌⊎◌, inl, inr, Bool, true, false, not, ◌&&◌, ◌||◌, Option, none, some, List, [], ◌∷◌,
  ◌++◌, map, arith, eq_iff, eq_refl, ltb, leb, eqb, ◌==◌, if◌then◌else◌, ltb→lt, leb→le, Bool-cases,
  Option-cases, length, length-append, any, all, All, contains, contains_id, equal,
}
use takt_ai.Base.Text.{◌<>◌}
use takt_ai.Base.Dict.{
  Dict, is_some, get_or, bit, weigh, lookup, insert, remove, size, count_where, find, map_values,
  lookup-insert, lookup-insert_self, lookup-remove, size-insert, count_where-insert,
  lookup-map_values, insert-All,
}
use takt_ai.History.Kinds.{
  Author, NodeKind, Kind, State, Flight, Outcome, ResultStatus, author_of, same_author,
  same_node_kind, execution_kind, is_activity_started, is_activity_finished, flight_of,
  is_kind_admitted, is_kind_planned, is_kind_terminated, is_kind_recovery_closed, is_kind_result,
  is_kind_qa_round, is_kind_launched, is_kind_cancel_requested, is_kind_unmonitored, is_kind_lease,
  is_state_planned, is_state_in_flight, is_state_settled, is_state_withdrawn, has_outcome,
  is_completed, is_backtracked,
}
use takt_ai.History.Entry.{
  QaRound, Entry, blank, first_attempt, cause_none, cause_uncaptured, tactical, strategic,
  activity_kind, activity_kind_of,
}
use takt_ai.History.Projection.{
  Assurance, WorkUnit, Activity, Recovery, Strengthening, Budgets, Execution, Projection, no_unit,
  no_recovery, no_round, no_budgets, no_execution, new_projection, nul, unit_key, find_unit,
  budgets_of, is_in_flight, in_flight, recovery_of, is_unresolved, or_no_recovery, scope_of,
  or_no_round, qa_round_for, strengthening_used, allowance_key, allowance_of, parsed_or, ref_seq,
  at_least, prevails_over, prevails, last_attempt, retry_of, attempt_after, next_attempt,
}
use takt_ai.History.Fold.{
  bound_recovery_actions, bound_recovery_attempts, accepts, put_recovery, declare_round,
  reconcile_actions, reopened, lift_abandonment, grant, except, declared, observed, closed,
  budgeted,
}
use takt_ai.History.Fold.{
  add_ids, new_execution, put_execution, start_execution, fold_execution_kind, fold_execution,
  settle, settle_executions, started_activity, start_activity, end_activity, put_activity,
  fold_activity, start_round, mark_attempt, consume_attempt, charge, identified, node_kind_after,
  advance, next_unit, put_unit, put_budgets, assurance_from, fold_result, fold_unit, note_version,
  fold_budgeted, fold_work, fold_subject, fold, project_from, project,
}
use takt_ai.History.Log.Interface.{Log, batch_refused, batch_appended, store_log}
use takt_ai.Dispatch.Policy.{
  AdmissionPolicy, bound_concurrency, bound_unplanned, bound_contests, bound_recovery,
  bound_qa_rounds, cause_repetition, cause_withdrawn, cause_no_failure, cause_incomplete,
  cause_recovery_overlap, admission_policy_ref, Refusal, Report, succeeded, refuse, reported,
  append_with,
}

-- CurrentAttempt
unfoldable pub current_attempt : Projection → String → String → String
current_attempt p session event =
    let attempt = (get_or no_unit (find_unit p session event)).attempt in
    if attempt == "" then first_attempt else attempt

-- UncertainFlight
unfoldable pub uncertain_flight : Flight → Bool
uncertain_flight Flight.uncertain = true
uncertain_flight Flight.unmonitored = true
uncertain_flight _ = false

abbrev pub is_flight_uncertain : Flight → Bool
is_flight_uncertain Flight.uncertain = true
is_flight_uncertain _ = false

-- The outcome that terminate records.
unfoldable pub terminal_outcome : WorkUnit → Recovery → Bool → Outcome
terminal_outcome u r non_start =
    if r.backtracked
    then Outcome.backtracked
    else if non_start || u.cancel_requested || is_flight_uncertain u.flight
    then Outcome.interrupted
    else Outcome.completed

abbrev pub is_outcome_completed : Outcome → Bool
is_outcome_completed Outcome.completed = true
is_outcome_completed _ = false

-- The outcome and the scope of a termination, as terminate reads them from the projection.
abbrev pub outcome_of : Projection → String → String → Bool → Outcome
outcome_of p event session non_start =
    terminal_outcome (get_or no_unit (find_unit p session event))
      (scope_of (budgets_of p session) event).1 non_start

abbrev pub terminated_entry : Projection → String → String → String → Bool → Entry
terminated_entry p journal_ref event session non_start =
    record (blank Author.harness Kind.terminated) {
      session = session;
      work_unit = event;
      attempt = current_attempt p session event;
      cause = cause_uncaptured;
      journal_ref = journal_ref;
      outcome = outcome_of p event session non_start;
      objective = (scope_of (budgets_of p session) event).0;
    }

abbrev pub unverified_entry : Entry → Entry
unverified_entry terminated = record terminated {
  kind = Kind.result;
  author = Author.harness;
  outcome = Outcome.unset;
  objective = "";
  status = ResultStatus.unverified;
}

-- The batch that terminate appends: a completed finish without an evaluated result is unverified.
unfoldable pub termination : Projection → String → String → String → Bool → List Entry
unfolding current_attempt terminal_outcome
termination p journal_ref event session non_start =
    let u = get_or no_unit (find_unit p session event) in
    let terminated = terminated_entry p journal_ref event session non_start in
    if not (is_outcome_completed (outcome_of p event session non_start)) || is_some u.assurance
    then terminated ∷ []
    else terminated ∷ unverified_entry terminated ∷ []

abbrev pub author_or_none : Option Author → Author
author_or_none none = Author.other ""
author_or_none (some a) = a

-- The entry of Record.
unfoldable pub fact : Projection → String → String → String → Kind → Entry
unfolding current_attempt author_of
fact p journal_ref event session k = record (blank (author_or_none (author_of k)) k) {
  session = session;
  work_unit = event;
  attempt = current_attempt p session event;
  cause = cause_uncaptured;
  journal_ref = journal_ref;
}

abbrev pub needs_objective : String → Bool
needs_objective bound =
    bound == bound_recovery
    || bound == bound_recovery_actions
    || bound == bound_recovery_attempts
    || bound == bound_qa_rounds

-- checkException
unfoldable pub check_exception : Budgets → String → String → Option Refusal
check_exception b bound objective =
    let r = recovery_of b objective in
    let spent_limit = bound == bound_recovery_actions || bound == bound_recovery_attempts in
    if needs_objective bound && objective == ""
    then some Refusal.no_exception_objective
    else if spent_limit && r.backtracked && not r.restored && not (bound == r.cause)
    then some Refusal.wrong_exception_bound
    else none

-- The entry of Except: `event` defaults to the objective, and that to the bound.
unfoldable pub exception_entry : String → String → String → String → String → ℕ → Entry
exception_entry journal_ref event session bound objective allowance =
    record (blank Author.harness Kind.exception) {
      session = session;
      work_unit = if event == "" then (if objective == "" then bound else objective) else event;
      attempt = first_attempt;
      cause = cause_uncaptured;
      journal_ref = journal_ref;
      policy_ref = admission_policy_ref;
      bound = bound;
      objective = objective;
      allowance = allowance;
    }

-- terminalFailure
unfoldable pub terminal_failure : List Entry → String → String → String → Bool
terminal_failure es session event attempt =
    any
      (λ e.
        is_kind_terminated e.kind
        && e.session == session
        && e.work_unit == event
        && e.attempt == attempt
        && not (is_outcome_completed e.outcome))
      es

abbrev pub contest_key : String → String → String
contest_key event attempt = event <> ("/" <> attempt)

abbrev pub contest_entry : String → String → String → String → Entry
contest_entry journal_ref event session attempt =
    record (blank Author.orchestrator Kind.contested) {
      session = session;
      work_unit = event;
      attempt = attempt;
      cause = cause_uncaptured;
      journal_ref = journal_ref;
      policy_ref = admission_policy_ref;
    }

-- The entry of Contest and the error that goes with a denial.
unfoldable pub contest_decision :
    List Entry
    → Budgets
    → AdmissionPolicy
    → String
    → String
    → String
    → String
    → Entry × Option Refusal
unfolding terminal_failure
contest_decision es b policy journal_ref event session attempt =
    let entry = contest_entry journal_ref event session attempt in
    let denied = record entry { author = Author.harness; kind = Kind.denied } in
    if not (terminal_failure es session event attempt)
    then (record denied { cause = cause_no_failure }, some Refusal.no_terminal_failure)
    else if leb (raised policy.contests (allowance_of b bound_contests)) (size b.contests)
    then (record denied { cause = bound_contests }, some Refusal.contests_spent)
    else (entry, none)

module _ (l : Log) where
  open l use {Handle, entries, append_batch}

  unfoldable pub terminate : Handle → String → String → String → Bool → Report × Handle
  unfolding termination
  terminate h journal_ref event session non_start =
      reported l none
        (append_batch h (termination (project (entries h)) journal_ref event session non_start))

  -- Finish
  unfoldable pub finish : Handle → String → String → String → Report × Handle
  unfolding terminate
  finish h journal_ref event session = terminate h journal_ref event session false

  -- Record
  unfoldable pub record_fact : Handle → String → String → String → Kind → Report × Handle
  unfolding fact
  record_fact h journal_ref event session k =
      append_with l h (fact (project (entries h)) journal_ref event session k) none

  -- Launch
  unfoldable pub launch : Handle → String → String → String → Report × Handle
  unfolding uncertain_flight record_fact
  launch h journal_ref event session =
      let u = get_or no_unit (find_unit (project (entries h)) session event) in
      if not (is_state_in_flight u.state)
      then (refuse Refusal.not_in_flight, h)
      else if u.launched
      then (succeeded, h)
      else if uncertain_flight u.flight
      then (refuse Refusal.uncertain_launch, h)
      else record_fact h journal_ref event session Kind.launched

  -- Reconcile
  unfoldable pub reconcile : Handle → String → String → String → Bool → Report × Handle
  unfolding uncertain_flight record_fact terminate
  reconcile h journal_ref event session running =
      let u = get_or no_unit (find_unit (project (entries h)) session event) in
      if not running && not (is_state_in_flight u.state)
      then (succeeded, h)
      else if not (uncertain_flight u.flight)
      then (refuse Refusal.nothing_uncertain, h)
      else if running
      then record_fact h journal_ref event session Kind.launched
      else terminate h journal_ref event session true

  -- Withdraw
  unfoldable pub withdraw : Handle → String → String → String → Report × Handle
  unfolding record_fact
  withdraw h journal_ref event session =
      let u = get_or no_unit (find_unit (project (entries h)) session event) in
      if is_state_planned u.state
      then record_fact h journal_ref event session Kind.withdrawn
      else (refuse Refusal.not_planned, h)

  -- Except
  unfoldable pub except_bound :
      Handle → String → String → String → String → String → ℕ → Report × Handle
  unfolding check_exception exception_entry
  except_bound h journal_ref event session bound objective allowance =
      elim (check_exception (budgets_of (project (entries h)) session) bound objective) [
        | some r ↦ (refuse r, h)
        | none ↦
            append_with l h (exception_entry journal_ref event session bound objective allowance)
              none
      ]

  -- Contest
  unfoldable pub contest :
      Handle → AdmissionPolicy → String → String → String → String → Report × Handle
  unfolding contest_decision
  contest h policy journal_ref event session attempt =
      let b = budgets_of (project (entries h)) session in
      let decision = contest_decision (entries h) b policy journal_ref event session attempt in
      if event == "" || session == ""
      then (refuse Refusal.identity_required, h)
      else if get_or false (lookup (contest_key event attempt) b.contests)
      then (succeeded, h)
      else append_with l h decision.0 decision.1
