-- ===== src/History/Fold/Budgeted.antt =====
-- `accepts` and `budgeted` of takt/history/projection.go: whether an act applies to a unit's state,
-- and the acts that carry a session's accounting instead of a unit's state.
use takt_ai.Base.Words.{word}
use takt_ai.Base.{
  String, Bool, true, false, ◌+◌, ◌-◌, Option, none, some, [], not, ◌&&◌, ◌||◌, ◌==◌, if◌then◌else◌,
}
use takt_ai.Base.Dict.{insert, get_or, is_some}
use takt_ai.Base.Text.{◌<>◌}
use takt_ai.History.Kinds.{
  Kind, is_state_planned, is_state_in_flight, is_state_settled, is_completed, is_backtracked,
}
use takt_ai.History.Entry.{Entry, QaRound}
use takt_ai.History.Projection.{
  WorkUnit, Recovery, Budgets, no_unit, recovery_of, allowance_key, allowance_of, ref_seq,
}

abbrev pub bound_recovery_actions : String
bound_recovery_actions = "budget/recovery-actions"

abbrev pub bound_recovery_attempts : String
bound_recovery_attempts = "budget/recovery-attempts"

-- Says whether the kind applies to the unit's current state.
unfoldable pub accepts : Option WorkUnit → Kind → Bool
accepts u Kind.planned = not (is_some u) || is_state_planned (get_or no_unit u).state
accepts u Kind.withdrawn = is_state_planned (get_or no_unit u).state
accepts u Kind.result =
    is_some u
    && (is_state_in_flight (get_or no_unit u).state || is_state_settled (get_or no_unit u).state)
accepts u Kind.admitted =
    not (is_some u)
    || is_state_planned (get_or no_unit u).state
    || is_state_settled (get_or no_unit u).state
accepts u _ = is_state_in_flight (get_or no_unit u).state

abbrev pub put_recovery : Budgets → String → Recovery → Budgets
put_recovery b objective r = record b { recoveries = insert objective r b.recoveries }

unfoldable pub declare_round : Budgets → Entry → Option QaRound → Budgets
declare_round b e none = b
declare_round b e (some r) = record b {
  qa_rounds = insert e.plan_version (record { round = r; started = false }) b.qa_rounds;
}

-- An exception on the actions bound re-establishes the position that counting resumes from.
unfoldable pub reconcile_actions : Budgets → Entry → Budgets
reconcile_actions b e =
    if e.bound == bound_recovery_actions && not (e.objective == "")
    then put_recovery b e.objective (record (recovery_of b e.objective) {
      unreconciled = false;
      cursor = ref_seq e.journal_ref;
    })
    else b

abbrev pub reopened : Recovery → Recovery
reopened r = record r { is_open = true; backtracked = false; cause = ""; failures = r.failures - 1 }

-- An exception on either recovery bound lifts an abandonment.
unfoldable pub lift_abandonment : Budgets → Entry → Budgets
lift_abandonment b e =
    if (e.bound == bound_recovery_actions || e.bound == bound_recovery_attempts)
      && (not (e.objective == "")
          && (recovery_of b e.objective).backtracked
          && not (recovery_of b e.objective).restored)
    then put_recovery b e.objective (reopened (recovery_of b e.objective))
    else b

unfoldable pub grant : Budgets → Entry → Budgets
grant b e =
    let key = allowance_key e.bound e.objective in
    record b { allowance = insert key (word (allowance_of b key + e.allowance)) b.allowance }

unfoldable pub except : Budgets → Entry → Budgets
unfolding reconcile_actions lift_abandonment grant
except b e = lift_abandonment (reconcile_actions (grant b e) e) e

abbrev pub declared : Budgets → Entry → Recovery
declared b e = record {
  is_open = true;
  failures = (recovery_of b e.objective).failures;
  work_unit = e.work_unit;
  result = e.result;
  scope = e.scope;
  actions = e.actions;
  attempts = e.attempts;
  used = 0;
  attempted = some [];
  cursor = ref_seq e.journal_ref;
  unreconciled = false;
  backtracked = false;
  restored = false;
  cause = "";
}

abbrev pub observed : Recovery → Entry → Recovery
observed r e = record r { used = r.used + e.actions; cursor = ref_seq e.journal_ref }

abbrev pub closed : Recovery → Entry → Recovery
closed r e = record r {
  is_open = false;
  backtracked = r.backtracked || is_backtracked e.outcome;
  cause = if is_backtracked e.outcome then e.cause else r.cause;
  failures = if is_completed e.outcome then 0 else r.failures + 1;
}

-- `budgeted` by the entry's kind: the session's accounting after the entry, or `none` where the kind
-- goes on to a work unit.
unfoldable pub budgeted : Kind → Budgets → Entry → Option Budgets
unfolding declare_round except
budgeted Kind.qa_round b e = some (declare_round b e e.qa_round)
budgeted Kind.denied b e = some b
budgeted Kind.contested b e =
    some (record b { contests = insert (e.work_unit <> ("/" <> e.attempt)) true b.contests })
budgeted Kind.exception b e = some (except b e)
budgeted Kind.stopped b e = some (record b { stopped = b.stopped + 1 })
budgeted Kind.escalated b e = some (record b { escalated = b.escalated + 1 })
budgeted Kind.recovery_declared b e = some (put_recovery b e.objective (declared b e))
budgeted Kind.actions b e =
    some (put_recovery b e.objective (observed (recovery_of b e.objective) e))
budgeted Kind.actions_uncertain b e =
    some (put_recovery b e.objective (record (recovery_of b e.objective) { unreconciled = true }))
budgeted Kind.restored b e =
    some (put_recovery b e.objective (record (recovery_of b e.objective) { restored = true }))
budgeted Kind.recovery_closed b e =
    some (put_recovery b e.objective (closed (recovery_of b e.objective) e))
budgeted Kind.interlocutor_switched b e =
    some (record b { holder = e.work_unit; holder_agent = e.agent; holder_artifact = e.artifact })
budgeted Kind.interlocutor_handoff b e =
    some (record b { holder = ""; holder_agent = ""; holder_artifact = "" })
budgeted Kind.interlocutor_aborted b e =
    some (record b { holder = ""; holder_agent = ""; holder_artifact = "" })
budgeted Kind.revised b e = some (record b { plan_version = e.plan_version })
budgeted Kind.invalid_revision b e = some b
budgeted Kind.seat_restored b e = some b
budgeted _ b e = none
