-- ===== src/History/Fold/Defs.antt =====
-- `Project`, `fold`, `foldActivity` of takt/history/projection.go and `foldExecution` of
-- execution.go: the replay of the recorded order, one entry at a time.
use takt_ai.Base.{
  String, Bool, true, false, ℕ, ◌+◌, Option, none, some, List, [], ◌∷◌, ◌++◌, not, ◌&&◌, ◌||◌, ◌==◌,
  max, if◌then◌else◌, contains_id,
}
use takt_ai.Base.Dict.{Dict, lookup, insert, map_values, get_or, is_some}
use takt_ai.Base.Text.{◌<>◌}
use takt_ai.History.Kinds.{
  NodeKind, Kind, State, Flight, Outcome, execution_kind, is_activity_started, flight_of,
  same_node_kind, is_kind_admitted, is_kind_planned, is_kind_terminated, is_kind_result,
  is_kind_launched, is_kind_cancel_requested, is_kind_unmonitored, is_state_in_flight,
}
use takt_ai.History.Entry.{Entry, activity_kind_of}
use takt_ai.History.Projection.{
  Assurance, WorkUnit, Activity, Recovery, Strengthening, Budgets, Execution, Projection, no_unit,
  no_execution, new_projection, unit_key, find_unit, budgets_of, recovery_of, qa_round_for,
  prevails,
}
use takt_ai.History.Fold.Budgeted.{accepts, budgeted, put_recovery}

-- `for _, id := range ids { if !slices.Contains(delivery, id) { append } }`
unfoldable pub add_ids : List ℕ → List ℕ → List ℕ
add_ids delivery [] = delivery
add_ids delivery (id ∷ ids) =
    add_ids (if contains_id delivery id then delivery else delivery ++ id ∷ []) ids

abbrev pub new_execution : Projection → Entry → Execution
new_execution p e = record {
  dispatch = e.dispatch;
  root = e.session;
  work_unit = e.work_unit;
  attempt = e.attempt;
  agent = e.agent;
  caller = e.caller;
  child = e.child;
  background = e.background;
  admitted_at = e.created_at;
  inputs = get_or [] (lookup (unit_key e.session e.work_unit) p.inputs);
  delivery = [];
  cycle = e.cycle;
  role = e.role;
  prompted = "";
  ready = false;
  terminated = false;
  settled = false;
  model = e.model;
  substitute = e.substitute;
  owner = e.owner;
}

abbrev pub put_execution : Projection → Entry → Execution → Projection
put_execution p e d = record p { executions = insert e.dispatch d p.executions }

abbrev pub start_execution : Projection → Entry → Execution → Projection
start_execution p e d = if d.dispatch == "" then put_execution p e (new_execution p e) else p

unfoldable pub fold_execution_kind : Kind → Projection → Entry → Execution → Projection
unfolding add_ids
fold_execution_kind Kind.lease p e d = record p {
  leases = insert e.owner (max (get_or 0 (lookup e.owner p.leases)) e.created_at) p.leases;
}
fold_execution_kind Kind.inputs p e d = record p {
  inputs = insert (unit_key e.session e.work_unit) e.result_ids p.inputs;
}
fold_execution_kind Kind.execution p e d = start_execution p e d
fold_execution_kind Kind.lane p e d = start_execution p e d
fold_execution_kind Kind.prepared p e d = put_execution p e (record d { ready = true })
fold_execution_kind Kind.child p e d = put_execution p e (record d { child = e.child })
fold_execution_kind Kind.delivery p e d =
    put_execution p e (record d { delivery = add_ids d.delivery e.result_ids })
fold_execution_kind Kind.prompt p e d = put_execution p e (record d { prompted = e.phase })
fold_execution_kind Kind.lane_stopped p e d = put_execution p e (record d { terminated = true })
fold_execution_kind Kind.execution_ended p e d = put_execution p e (record d { settled = true })
fold_execution_kind _ p e d = put_execution p e d

-- foldExecution
unfoldable pub fold_execution : Projection → Entry → Projection
unfolding fold_execution_kind
fold_execution p e =
    fold_execution_kind e.kind p e (get_or no_execution (lookup e.dispatch p.executions))

-- A termination settles the executions of its attempt.
abbrev pub settle : Entry → Execution → Execution
settle e d =
    if d.root == e.session && (d.work_unit == e.work_unit && d.attempt == e.attempt)
    then record d { settled = true }
    else d

unfoldable pub settle_executions : Projection → Entry → Projection
settle_executions p e =
    if is_kind_terminated e.kind
    then record p { executions = map_values (settle e) p.executions }
    else p

abbrev pub started_activity : Entry → NodeKind → Activity
started_activity e node_kind = record {
  activity = e.activity;
  session = e.session;
  node_kind = node_kind;
  state = State.in_flight;
  flight = Flight.running;
  outcome = Outcome.unset;
  owner = e.owner;
}

unfoldable pub start_activity : Option Activity → Entry → NodeKind → Option Activity
start_activity none e node_kind = some (started_activity e node_kind)
start_activity (some a) e node_kind =
    if is_state_in_flight a.state && not (e.owner == "")
    then some (record a { owner = e.owner; flight = Flight.running })
    else none

unfoldable pub end_activity : Option Activity → Entry → NodeKind → Option Activity
unfolding same_node_kind
end_activity none e node_kind = none
end_activity (some a) e node_kind =
    if not (a.session == e.session)
      || not (same_node_kind a.node_kind node_kind)
      || not (is_state_in_flight a.state)
    then none
    else if is_kind_unmonitored e.kind
    then some (record a { flight = Flight.unmonitored })
    else some (record a { state = State.settled; flight = Flight.unset; outcome = e.outcome })

abbrev pub put_activity : Projection → Entry → Option Activity → Projection
put_activity p e none = p
put_activity p e (some a) = record p { activities = insert e.activity a p.activities }

-- foldActivity
unfoldable pub fold_activity : Projection → Entry → NodeKind → Projection
unfolding is_activity_started start_activity end_activity
fold_activity p e node_kind = put_activity p e (
    if is_activity_started e.kind
    then start_activity (lookup e.activity p.activities) e node_kind
    else end_activity (lookup e.activity p.activities) e node_kind)

-- The first admitted member of a declared round starts it.
abbrev pub start_round : String × Strengthening → Budgets → Budgets
start_round (version, r) b =
    if version == ""
    then b
    else record b { qa_rounds = insert version (record r { started = true }) b.qa_rounds }

abbrev pub mark_attempt : Recovery → Entry → Option (Dict Bool) → Budgets → Budgets
mark_attempt r e none b = b
mark_attempt r e (some tried) b =
    put_recovery b e.objective
      (record r { attempted = some (insert (e.work_unit <> ("/" <> e.attempt)) true tried) })

-- An admission that declares its recovery consumes one attempt of it.
abbrev pub consume_attempt : Entry → Budgets → Budgets
consume_attempt e b =
    if e.objective == ""
    then b
    else mark_attempt (recovery_of b e.objective) e (recovery_of b e.objective).attempted b

-- What an admission consumes of its session's bounds.
unfoldable pub charge : Bool → Entry → Budgets → Budgets
charge known e b =
    let b1 = if known then b else record b { unplanned = b.unplanned + 1 } in
    consume_attempt e (start_round (qa_round_for b1 e.work_unit) b1)

abbrev pub identified : WorkUnit → Entry → WorkUnit
identified u e = record u { session = e.session; work_unit = e.work_unit; attempt = e.attempt }

-- The first explicit classification sticks to the unit.
abbrev pub node_kind_after : NodeKind → NodeKind → NodeKind
node_kind_after NodeKind.unset NodeKind.delegated = NodeKind.delegated
node_kind_after k _ = k

-- The `switch` of `fold` on a unit, by the entry's kind.
unfoldable pub advance : Kind → WorkUnit → Entry → WorkUnit
advance Kind.admitted u e = record u {
  state = State.in_flight;
  flight = flight_of e.kind;
  outcome = Outcome.unset;
  launched = false;
  dispatch = e.dispatch;
  agent = e.agent;
  cancel_requested = false;
  assurance = none;
}
advance Kind.planned u e = record u {
  state = State.planned;
  committed = true;
  contract = e.contract;
  prerequisites = e.prerequisites;
}
advance Kind.withdrawn u e = record u { state = State.withdrawn }
advance Kind.terminated u e = record u {
  state = State.settled;
  flight = Flight.unset;
  outcome = e.outcome;
}
advance _ u e = record u {
  state = State.in_flight;
  flight = flight_of e.kind;
  launched = u.launched || is_kind_launched e.kind;
  cancel_requested = u.cancel_requested || is_kind_cancel_requested e.kind;
}

unfoldable pub next_unit : WorkUnit → Entry → WorkUnit
unfolding advance
next_unit u e =
    advance e.kind (record (identified u e) { node_kind = node_kind_after u.node_kind e.node_kind })
      e

abbrev pub put_unit : Projection → Entry → WorkUnit → Projection
put_unit p e u = record p { units = insert (unit_key e.session e.work_unit) u p.units }

abbrev pub put_budgets : Projection → Entry → Budgets → Projection
put_budgets p e b = record p { sessions = insert e.session b p.sessions }

abbrev pub assurance_from : Entry → Assurance
assurance_from e = record {
  status = e.status;
  revision = e.revision;
  evidence = e.evidence;
  author = e.author;
}

-- A result for another attempt, or one that does not prevail, leaves the unit.
unfoldable pub fold_result : Projection → Entry → WorkUnit → Projection
fold_result p e u =
    if e.attempt == u.attempt && prevails u.assurance e
    then put_unit p e (record u { assurance = some (assurance_from e) })
    else p

unfoldable pub fold_unit : Projection → Entry → Budgets → Option WorkUnit → Projection
unfolding accepts fold_result charge next_unit
fold_unit p e b u =
    if not (accepts u e.kind)
    then p
    else if is_kind_result e.kind
    then fold_result p e (get_or no_unit u)
    else put_unit (if is_kind_admitted e.kind then put_budgets p e (charge (is_some u) e b) else p)
        e (next_unit (get_or no_unit u) e)

abbrev pub note_version : Entry → Budgets → Budgets
note_version e b = if is_kind_planned e.kind then record b { plan_version = e.plan_version } else b

abbrev pub fold_budgeted : Option Budgets → Projection → Entry → Budgets → Projection
fold_budgeted (some b') p e b = put_budgets p e b'
fold_budgeted none p e b = fold_unit (put_budgets p e b) e b (find_unit p e.session e.work_unit)

unfoldable pub fold_work : Projection → Entry → Projection
unfolding fold_unit budgeted
fold_work p e =
    let b = note_version e (budgets_of p e.session) in fold_budgeted (budgeted e.kind b e) p e b

abbrev pub fold_subject : Option NodeKind → Projection → Entry → Projection
fold_subject (some node_kind) p e = fold_activity p e node_kind
fold_subject none p e = fold_work p e

-- fold
unfoldable pub fold : Projection → Entry → Projection
fold p e =
    if execution_kind e.kind
    then fold_execution p e
    else fold_subject (activity_kind_of e) (settle_executions p e) e

unfoldable pub project_from : Projection → List Entry → Projection
project_from p [] = p
project_from p (e ∷ es) = project_from (fold p e) es

-- Project
unfoldable pub project : List Entry → Projection
unfolding project_from
project es = project_from new_projection es
