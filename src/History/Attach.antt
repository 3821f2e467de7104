-- ===== src/History/Attach.antt =====
-- The rest of takt/history/execution.go, and HeldRoot of projection.go: leases, the executions of a child
-- session, and the facts and lanes that are attached to an execution. Instants are nanoseconds and
-- recorded times milliseconds. Where Go leaves the order of the executions open, the list's order stands
-- for one order.
pub mod Exclusive
use takt_ai.Base.Text.{◌<>◌}
use takt_ai.Base.{
  ℕ, ◌-◌, ◌*◌, ◌/◌, ◌<◌, String, Bool, true, not, ◌&&◌, ◌||◌, Option, none, some, List, [], ◌∷◌,
  ltb, ◌==◌, if◌then◌else◌,
}
use takt_ai.Base.Dict.{Dict, is_some, get_or, lookup, find}
use takt_ai.History.Kinds.{Author, Kind}
use takt_ai.History.Entry.{Entry, blank, cause_none}
use takt_ai.History.Projection.{Budgets, Execution, Projection, no_execution, next_attempt}
use takt_ai.History.Fold.{project}
use takt_ai.History.Log.Interface.{Log}
use takt_ai.History.Log.{AppendError}

abbrev pub lease_ttl : ℕ
lease_ttl = 90000000000

-- Projection.LeaseLapsed: a subtraction that stops at 0 is above the limit exactly when Go's is.
unfoldable pub lease_lapsed : Projection → String → ℕ → Bool
lease_lapsed p owner now =
    owner == ""
    || not (is_some (lookup owner p.leases))
    || ltb lease_ttl (now - get_or 0 (lookup owner p.leases) * 1000000)

-- Projection.Orphaned
abbrev pub orphaned : Projection → Execution → ℕ → Bool
orphaned p d now = lease_lapsed p d.owner now

abbrev pub the_value {ℓ} : {A : Type ℓ} → Option (String × A) → Option A
the_value none = none
the_value (some (k, v)) = some v

-- Projection.ExecutionForChild
unfoldable pub execution_for_child : Projection → String → String → Option Execution
execution_for_child p child agent =
    if child == ""
    then none
    else the_value (
        find
          (λ _ (d : Execution).
            not d.settled && d.child == child && (agent == "" || d.agent == agent))
          p.executions)

-- Projection.HeldRoot
unfoldable pub held_root : Projection → String → Option String
held_root p session =
    if session == ""
    then none
    else elim (find (λ _ (b : Budgets). b.holder == session) p.sessions) [
      | none ↦ none
      | some found ↦ some found.0
    ]

-- The errors of the file, one constructor for each refusal.
pub data AttachFault : Type 0 where
  stopped no_delegation unprepared : String → AttachFault
  child_taken child_elsewhere : AttachFault
  no_cycle foreign_child lane_taken same_child : AttachFault

pub record AttachReport : Type 0 where
  pub append : Option AppendError
  pub refusal : Option AttachFault

abbrev pub attach_refused : AttachFault → AttachReport
attach_refused r = record { append = none; refusal = some r }

abbrev pub attach_done : AttachReport
attach_done = record { append = none; refusal = none }

abbrev pub same_run : Execution → Execution → Bool
same_run a b = a.root == b.root && a.work_unit == b.work_unit && a.attempt == b.attempt

abbrev pub fact_entry : Execution → Kind → String → String → List ℕ → Entry
fact_entry d k child phase ids = record (blank Author.harness k) {
  session = d.root;
  work_unit = d.work_unit;
  attempt = d.attempt;
  dispatch = d.dispatch;
  child = child;
  phase = phase;
  result_ids = ids;
  cause = cause_none;
}

-- What AttachChild decides before it records anything.
pub data Attachment : Type 0 where
  turned_away : AttachFault → Attachment
  attached : Execution → Attachment
  to_attach : Execution → Attachment

abbrev pub holds_child : String → String → Execution → Bool
holds_child dispatch child old =
    old.child == child
    && (not (old.dispatch == dispatch) && (not old.settled || not (old.cycle == "")))

abbrev pub inactive : String → String → Option Execution → Bool
inactive child agent none = true
inactive child agent (some d) = d.settled || not (d.agent == agent) || child == ""

-- The conditions of AttachChild.
unfoldable pub attach_decision : Projection → String → String → String → Attachment
attach_decision p dispatch child agent =
    let known = lookup dispatch p.executions in
    let d = get_or no_execution known in
    if inactive child agent known
    then turned_away (AttachFault.no_delegation dispatch)
    else if not d.ready && d.cycle == ""
    then turned_away (AttachFault.unprepared dispatch)
    else if not (d.child == "")
    then (if d.child == child then attached d else turned_away AttachFault.child_taken)
    else if is_some (find (λ _ old. holds_child dispatch child old) p.executions)
    then turned_away AttachFault.child_elsewhere
    else to_attach d

-- LaneUnit: the work unit and the agent.
unfoldable pub lane_unit : String → String → String × String
lane_unit cycle role =
    if role == "verifier" then (cycle <> "/verify", "verify") else (cycle, "simplify")

-- The loop of AttachMaintenance: none where it ends, and what it returns where it returns.
unfoldable pub lane_scan : String → String → String → Dict Execution → Option (Option AttachFault)
lane_scan cycle role child [] = none
lane_scan cycle role child ((k, d) ∷ m) =
    let rest = lane_scan cycle role child m in
    if d.child == child
      && (not (d.cycle == cycle) || not (d.role == role))
      && (not d.settled || not (d.cycle == ""))
    then some (some AttachFault.foreign_child)
    else if d.settled || not (d.cycle == cycle)
    then rest
    else if d.role == role
    then (if d.child == child then some none else some (some AttachFault.lane_taken))
    else if d.child == child
    then some (some AttachFault.same_child)
    else rest

abbrev pub lane_entry : Projection → String → String → String → String → String → ℕ → Entry
lane_entry p root cycle role child owner now =
    let unit = (lane_unit cycle role).0 in
    record (blank Author.harness Kind.lane) {
      session = root;
      work_unit = unit;
      attempt = next_attempt p root unit;
      dispatch = cycle <> ("/" <> role);
      agent = (lane_unit cycle role).1;
      caller = root;
      child = child;
      cycle = cycle;
      role = role;
      owner = owner;
      created_at = now;
      cause = cause_none;
    }

module _ (l : Log) where
  open l use {Handle, entries, append_batch}

  abbrev pub append_fact : Handle → Entry → AttachReport × Handle
  append_fact h e =
      let done = append_batch h (e ∷ []) in (record { append = done.0; refusal = none }, done.1)

  -- History.ExecutionFact
  unfoldable pub execution_fact :
      Handle → Execution → Kind → String → String → List ℕ → AttachReport × Handle
  execution_fact h d k child phase ids =
      let known = lookup d.dispatch (project (entries h)).executions in
      let current = get_or no_execution known in
      if not (is_some known) || not (same_run current d) || current.settled
      then (attach_refused (AttachFault.stopped d.dispatch), h)
      else append_fact h (fact_entry d k child phase ids)

  abbrev pub succeeds : AttachReport → Bool
  succeeds r = not (is_some r.append) && not (is_some r.refusal)

  abbrev pub carry_out : Handle → String → Attachment → Option Execution × AttachReport × Handle
  carry_out h child (turned_away r) = (none, attach_refused r, h)
  carry_out h child (attached d) = (some d, attach_done, h)
  carry_out h child (to_attach d) =
      let done = execution_fact h d Kind.child child "" [] in
      (if succeeds done.0 then some (record d { child = child }) else none, done.0, done.1)

  -- History.AttachChild
  unfoldable pub attach_child :
      Handle → String → String → String → Option Execution × AttachReport × Handle
  unfolding attach_decision execution_fact
  attach_child h dispatch child agent =
      carry_out h child (attach_decision (project (entries h)) dispatch child agent)

  -- History.AttachMaintenance, at a time in milliseconds.
  unfoldable pub attach_maintenance :
      Handle → String → String → String → String → String → ℕ → AttachReport × Handle
  unfolding lane_unit lane_scan
  attach_maintenance h root cycle role child owner now =
      let p = project (entries h) in
      if cycle == ""
        || root == ""
        || child == ""
        || (not (role == "collector") && not (role == "verifier"))
      then (attach_refused AttachFault.no_cycle, h)
      else elim (lane_scan cycle role child p.executions) [
        | some (some r) ↦ (attach_refused r, h)
        | some none ↦ (attach_done, h)
        | none ↦ append_fact h (lane_entry p root cycle role child owner now)
      ]
