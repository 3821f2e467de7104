-- ===== src/Dispatch/Seats.antt =====
-- takt/dispatch/seat.go: restorations of a seat. The errors of ValidateSeat are the constructors of
-- SeatFault; the catalog is an argument, as for the interlocutor.
pub mod Reassignment
use takt_ai.Base.{
  ◌||◌, String, Bool, true, false, not, ◌&&◌, Option, none, some, List, [], ◌∷◌, ◌==◌,
  if◌then◌else◌,
}
use takt_ai.Base.Dict.{Dict, is_some, get_or, find}
use takt_ai.Base.Text.{is_blank}
use takt_ai.History.Kinds.{Author, Kind, Outcome, is_kind_terminated, is_kind_launched}
use takt_ai.History.Entry.{Entry, blank, cause_none}
use takt_ai.History.Projection.{Execution, Projection, no_unit, find_unit}
use takt_ai.History.Fold.{project}
use takt_ai.Dispatch.Interlocutor.{RoleClass, interlocutor_role}

pub record Seat : Type 0 where
  pub agent : String
  pub model : String
  pub configured : String
  pub reason : String
  pub substitute : Bool
  pub user_confirmed : Bool

pub data SeatFault : Type 0 where
  not_crew orchestrator_seat unnamed_restoration unearned_substitute : String → SeatFault
  unproven_model : String → SeatFault

-- Seat.Restores
unfoldable pub restores : Seat → Bool
restores s = s.substitute || (not (s.model == "") && not (s.model == s.configured))

-- The local variables of reassignmentFailed.
pub record SeatScan : Type 0 where
  pub unit : String
  pub attempt : String
  pub launched : Bool
  pub failed : Bool

abbrev pub no_scan : SeatScan
no_scan = record { unit = ""; attempt = ""; launched = false; failed = false }

abbrev pub is_failure : Outcome → Bool
is_failure Outcome.failed = true
is_failure Outcome.interrupted = true
is_failure _ = false

abbrev pub is_kind_seat_restored : Kind → Bool
is_kind_seat_restored Kind.seat_restored = true
is_kind_seat_restored _ = false

abbrev pub is_latest : SeatScan → Entry → Bool
is_latest s e = not (s.unit == "") && e.work_unit == s.unit && e.attempt == s.attempt

abbrev pub is_reassignment : String → Entry → Bool
is_reassignment agent e = is_kind_seat_restored e.kind && e.agent == agent && not e.substitute

-- One round of the loop of reassignmentFailed.
unfoldable pub scan_step : String → String → SeatScan → Entry → SeatScan
scan_step root agent s e =
    if not (e.session == root)
    then s
    else if is_reassignment agent e
    then record { unit = e.work_unit; attempt = e.attempt; launched = false; failed = false }
    else if is_kind_launched e.kind && is_latest s e
    then record s { launched = true }
    else if is_kind_terminated e.kind && is_latest s e
    then record s { failed = s.launched && is_failure e.outcome }
    else s

unfoldable pub scan_seat : String → String → SeatScan → List Entry → SeatScan
unfolding scan_step
scan_seat root agent s [] = s
scan_seat root agent s (e ∷ es) = scan_seat root agent (scan_step root agent s e) es

-- reassignmentFailed
unfoldable pub reassignment_failed : List Entry → String → String → Bool
unfolding scan_seat
reassignment_failed es root agent = (scan_seat root agent no_scan es).failed

abbrev pub is_outcome_done : Outcome → Bool
is_outcome_done Outcome.completed = true
is_outcome_done _ = false

abbrev pub completed_by : Projection → String → String → Execution → Bool
completed_by p root model d =
    let u = find_unit p root d.work_unit in
    d.root == root
    && d.model == model
    && (is_some u
        && (get_or no_unit u).attempt == d.attempt
        && is_outcome_done (get_or no_unit u).outcome)

-- proven
unfoldable pub proven : Projection → String → String → Bool
proven p root model = is_some (find (λ _ d. completed_by p root model d) p.executions)

abbrev pub is_orchestrator : RoleClass → Bool
is_orchestrator RoleClass.orchestrator = true
is_orchestrator _ = false

abbrev pub validate_role : List Entry → String → Seat → Option RoleClass → Option SeatFault
validate_role es root s none = some (SeatFault.not_crew s.agent)
validate_role es root s (some role) =
    if is_orchestrator role
    then some (SeatFault.orchestrator_seat s.agent)
    else if is_blank s.reason || s.model == ""
    then some (SeatFault.unnamed_restoration s.agent)
    else if s.substitute && not (reassignment_failed es root s.agent)
    then some (SeatFault.unearned_substitute s.agent)
    else if not s.user_confirmed && not (proven (project es) root s.model)
    then some (SeatFault.unproven_model s.model)
    else none

-- ValidateSeat
unfoldable pub validate_seat :
    Option (Dict RoleClass) → List Entry → String → Seat → Option SeatFault
unfolding restores reassignment_failed proven interlocutor_role
validate_seat crew es root s =
    if not (restores s) then none else validate_role es root s (interlocutor_role crew s.agent)

-- SeatEntry
abbrev pub seat_entry : String → String → String → Seat → Entry
seat_entry root unit attempt s = record (blank Author.orchestrator Kind.seat_restored) {
  session = root;
  work_unit = unit;
  attempt = attempt;
  agent = s.agent;
  model = s.model;
  reason = s.reason;
  substitute = s.substitute;
  cause = cause_none;
}
