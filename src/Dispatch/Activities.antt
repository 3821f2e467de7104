-- ===== src/Dispatch/Activities.antt =====
-- takt/dispatch/activity.go: activities that are no work units. The errors of a refused call are the
-- constructors of ActivityFault.
pub mod Tracked
pub mod Finishing
use takt_ai.Base.{
  ◌||◌, String, Bool, true, false, not, ◌&&◌, Option, none, some, [], ◌∷◌, ◌==◌, if◌then◌else◌,
}
use takt_ai.Base.Dict.{get_or, lookup}
use takt_ai.History.Kinds.{
  Author, NodeKind, Kind, Flight, Outcome, author_of, same_node_kind, is_state_in_flight,
  is_state_settled,
}
use takt_ai.History.Entry.{Entry, blank, cause_none}
use takt_ai.History.Projection.{Activity}
use takt_ai.History.Fold.{project}
use takt_ai.History.Log.Interface.{Log}
use takt_ai.History.Log.{AppendError}

pub data ActivityFault : Type 0 where
  unidentified : ActivityFault
  other_node_kind : NodeKind → ActivityFault
  already_recorded not_active not_captured : String → ActivityFault
  already_finished : String → Outcome → ActivityFault

pub record ActivityReport : Type 0 where
  pub append : Option AppendError
  pub refusal : Option ActivityFault

abbrev pub activity_done : ActivityReport
activity_done = record { append = none; refusal = none }

abbrev pub activity_refused : ActivityFault → ActivityReport
activity_refused r = record { append = none; refusal = some r }

-- activityRecordKind
unfoldable pub activity_record_kind : NodeKind → Bool → Option Kind
activity_record_kind NodeKind.orchestrator true = some Kind.activity_started
activity_record_kind NodeKind.orchestrator false = some Kind.activity_finished
activity_record_kind NodeKind.maintenance true = some Kind.maintenance_started
activity_record_kind NodeKind.maintenance false = some Kind.maintenance_finished
activity_record_kind _ _ = none

-- `history.AuthorOf(kind)`, the empty author where the table lacks the kind.
abbrev pub author_or_unset : Kind → Author
author_or_unset k = get_or (Author.other "") (author_of k)

abbrev pub activity_entry : Kind → String → String → NodeKind → Entry
activity_entry k session activity node_kind = record (blank (author_or_unset k) k) {
  session = session;
  activity = activity;
  node_kind = node_kind;
  cause = cause_none;
}

abbrev pub is_of : String → NodeKind → Activity → Bool
is_of session node_kind a = a.session == session && same_node_kind a.node_kind node_kind

-- What StartActivity answers where the activity is recorded: a fault, or none where it is a no-op, or
-- nothing where it goes on to record.
abbrev pub prior_start :
    String → String → NodeKind → String → Option Activity → Option (Option ActivityFault)
prior_start session activity node_kind owner none = none
prior_start session activity node_kind owner (some a) =
    if not (is_of session node_kind a) || not (is_state_in_flight a.state)
    then some (some (ActivityFault.already_recorded activity))
    else if owner == "" || owner == a.owner
    then some none
    else none

-- Go's `==` on outcomes.
unfoldable pub same_outcome : Outcome → Outcome → Bool
same_outcome Outcome.unset Outcome.unset = true
same_outcome Outcome.completed Outcome.completed = true
same_outcome Outcome.failed Outcome.failed = true
same_outcome Outcome.backtracked Outcome.backtracked = true
same_outcome Outcome.interrupted Outcome.interrupted = true
same_outcome (Outcome.other a) (Outcome.other b) = a == b
same_outcome _ _ = false

abbrev pub is_flight_unmonitored : Flight → Bool
is_flight_unmonitored Flight.unmonitored = true
is_flight_unmonitored _ = false

module _ (l : Log) where
  open l use {Handle, entries, append_batch}

  abbrev pub record_activity : Handle → Entry → ActivityReport × Handle
  record_activity h e =
      let done = append_batch h (e ∷ []) in (record { append = done.0; refusal = none }, done.1)

  abbrev pub start_with :
      Handle → String → String → NodeKind → String → Option Kind → ActivityReport × Handle
  start_with h session activity node_kind owner none =
      (activity_refused (ActivityFault.other_node_kind node_kind), h)
  start_with h session activity node_kind owner (some k) =
      elim (prior_start session activity node_kind owner
        (lookup activity (project (entries h)).activities)) [
          | some r ↦ (record { append = none; refusal = r }, h)
          | none ↦
              record_activity h
                (record (activity_entry k session activity node_kind) { owner = owner })
        ]

  -- StartActivity
  unfoldable pub activity_start :
      Handle → String → String → NodeKind → String → ActivityReport × Handle
  unfolding activity_record_kind
  activity_start h session activity node_kind owner =
      if session == "" || activity == ""
      then (activity_refused ActivityFault.unidentified, h)
      else start_with h session activity node_kind owner (activity_record_kind node_kind true)

  abbrev pub finish_as :
      Handle → String → String → NodeKind → Outcome → Option Kind → ActivityReport × Handle
  finish_as h session activity node_kind outcome none =
      (activity_refused (ActivityFault.other_node_kind node_kind), h)
  finish_as h session activity node_kind outcome (some k) =
      record_activity h (record (activity_entry k session activity node_kind) { outcome = outcome })

  abbrev pub finish_with :
      Handle → String → String → NodeKind → Outcome → Option Activity → ActivityReport × Handle
  finish_with h session activity node_kind outcome none =
      (activity_refused (ActivityFault.not_active activity), h)
  finish_with h session activity node_kind outcome (some a) =
      if not (is_of session node_kind a)
      then (activity_refused (ActivityFault.not_active activity), h)
      else if is_state_settled a.state
      then (if same_outcome a.outcome outcome
          then (activity_done, h)
          else (activity_refused (ActivityFault.already_finished activity a.outcome), h))
      else finish_as h session activity node_kind outcome (activity_record_kind node_kind false)

  -- FinishActivity
  unfoldable pub finish_activity :
      Handle → String → String → NodeKind → Outcome → ActivityReport × Handle
  unfolding activity_record_kind same_outcome
  finish_activity h session activity node_kind outcome =
      if session == "" || activity == ""
      then (activity_refused ActivityFault.unidentified, h)
      else finish_with h session activity node_kind outcome
          (lookup activity (project (entries h)).activities)

  abbrev pub mark_with : Handle → String → String → Option Activity → ActivityReport × Handle
  mark_with h session activity none = (activity_refused (ActivityFault.not_captured activity), h)
  mark_with h session activity (some a) =
      if not (is_of session NodeKind.orchestrator a)
      then (activity_refused (ActivityFault.not_captured activity), h)
      else if is_state_settled a.state || is_flight_unmonitored a.flight
      then (activity_done, h)
      else record_activity h
          (activity_entry Kind.unmonitored session activity NodeKind.orchestrator)

  -- MarkActivityUnmonitored
  unfoldable pub mark_unmonitored : Handle → String → String → ActivityReport × Handle
  mark_unmonitored h session activity =
      if session == "" || activity == ""
      then (activity_refused ActivityFault.unidentified, h)
      else mark_with h session activity (lookup activity (project (entries h)).activities)
