-- ===== src/Tests/Turns.antt =====
-- The properties of turns of the interface, seats and activities at concrete calls.
use takt_ai.Dispatch.Interlocutor.Index.{SessionEntry, entry_ids_by_caller}
use takt_ai.History.Projection.{Execution, no_execution}
use takt_ai.History.Fold.{fold_execution_kind}
use takt_ai.History.Attach.{attach_child, attach_decision, execution_fact}
use takt_ai.History.Attach.Exclusive.{Attached, attach_child-Attached}
use takt_ai.Base.{
  ◌||◌, ℕ, suc, ◌≡◌, refl, true, false, not, ◌&&◌, Option, none, some, List, [], ◌∷◌, ◌==◌,
  if◌then◌else◌, length, contains_id,
}
use takt_ai.Dispatch.Seats.{reassignment_failed, scan_seat, scan_step}
use takt_ai.Dispatch.Seats.Reassignment.{reassignment_failed-evidence, Latest, FailedIn}
use takt_ai.Base.Dict.{Dict, is_some, lookup, insert, size, find, map_values}
use takt_ai.History.Kinds.{
  Author, NodeKind, Kind, Outcome, author_of, same_author, same_node_kind, execution_kind,
  is_activity_started, is_activity_finished, flight_of,
}
use takt_ai.History.Entry.{Entry, blank, cause_none, activity_kind}
use takt_ai.History.Projection.{unit_key, find_unit, budgets_of}
use takt_ai.History.Validate.{
  validate_author, validate_subject, validate_identity, validate_node_kind, validate_outcome_shape,
  validate_kind, validate_kind_fields, validate_execution, validate,
}
use takt_ai.History.Fold.{
  fold_execution, settle_executions, start_activity, end_activity, fold_activity, advance,
  next_unit, fold_result, fold_unit, fold_work, fold, project_from, project,
}
use takt_ai.Dispatch.Policy.{AdmissionPolicy}
use takt_ai.Dispatch.Interlocutor.{
  RoleClass, holds_interface, interlocutor_role, may_hold, switch_decision, handoff_decision,
  abort_decision, switch, hand_off, abort, current_holder,
}
use takt_ai.Dispatch.Interlocutor.Turns.{switch_turn, handoff_turn, abort_turn}
use takt_ai.Dispatch.Interlocutor.Paging.{follow, AllDistinct, follow_complete}
use takt_ai.Dispatch.Activities.{activity_done, activity_record_kind, finish_activity}
use takt_ai.Dispatch.Activities.Finishing.{FinishedWith, finish_settles}
use takt_ai.History.Fold.{budgeted, accepts, declare_round}
use takt_ai.History.Log.{append_batch, encode_all}
use takt_ai.Tests.{act, policy, store, opened}

abbrev crew : Option (Dict RoleClass)
crew = some (("planner", RoleClass.direct_interlocutor) ∷ [])

switch_appends : (switch store (opened []) crew "j" "s" "child" "planner" "doc").0.append ≡ none
unfolding accepts activity_kind advance author_of budgeted budgets_of declare_round end_activity
    execution_kind find find_unit flight_of fold fold_activity fold_execution fold_result fold_unit
    fold_work insert lookup map_values next_unit project project_from same_node_kind
    settle_executions size unit_key append_batch encode_all validate validate_author
    validate_execution validate_identity validate_kind validate_kind_fields validate_node_kind
    validate_outcome_shape validate_subject same_author is_activity_finished is_activity_started
    switch switch_decision interlocutor_role holds_interface
switch_appends = refl

switch_turn_example :
    (is_some (switch store (opened []) crew "j" "s" "child" "planner" "doc").0.refusal
      ≡ not (
          may_hold (interlocutor_role crew "planner")
          && current_holder store (opened []) "s" == ""))
    × (current_holder store (switch store (opened []) crew "j" "s" "child" "planner" "doc").1 "s"
        ≡ (if may_hold (interlocutor_role crew "planner")
              && current_holder store (opened []) "s" == ""
            then "child"
            else current_holder store (opened []) "s"))
switch_turn_example =
    switch_turn store (opened []) crew "j" "s" "child" "planner" "doc" switch_appends

abbrev lent_log : List Entry
lent_log =
    record (act Author.orchestrator Kind.interlocutor_switched 0) {
      work_unit = "child";
      agent = "planner";
    }
    ∷ []

handoff_appends : (hand_off store (opened lent_log) "j" "s" "child" "user").0.append ≡ none
unfolding accepts activity_kind advance author_of budgeted budgets_of declare_round end_activity
    execution_kind find find_unit flight_of fold fold_activity fold_execution fold_result fold_unit
    fold_work insert lookup map_values next_unit project project_from same_node_kind
    settle_executions size unit_key append_batch encode_all validate validate_author
    validate_execution validate_identity validate_kind validate_kind_fields validate_node_kind
    validate_outcome_shape validate_subject same_author is_activity_finished is_activity_started
    hand_off handoff_decision
handoff_appends = refl

abort_appends : (abort store (opened lent_log) "j" "s" "" "user").0.append ≡ none
unfolding accepts activity_kind advance author_of budgeted budgets_of declare_round end_activity
    execution_kind find find_unit flight_of fold fold_activity fold_execution fold_result fold_unit
    fold_work insert lookup map_values next_unit project project_from same_node_kind
    settle_executions size unit_key append_batch encode_all validate validate_author
    validate_execution validate_identity validate_kind validate_kind_fields validate_node_kind
    validate_outcome_shape validate_subject same_author is_activity_finished is_activity_started
    abort abort_decision
abort_appends = refl

handoff_turn_example :
    (is_some (hand_off store (opened lent_log) "j" "s" "child" "user").0.refusal
      ≡ not ("child" == current_holder store (opened lent_log) "s"))
    × (current_holder store (hand_off store (opened lent_log) "j" "s" "child" "user").1 "s" ≡ (
        if "child" == current_holder store (opened lent_log) "s"
        then ""
        else current_holder store (opened lent_log) "s"))
handoff_turn_example = handoff_turn store (opened lent_log) "j" "s" "child" "user" handoff_appends

-- The user aborts the turn of "child" without naming it.
abort_turn_example :
    (is_some (abort store (opened lent_log) "j" "s" "" "user").0.refusal
      ≡ not (
          ("user" == "user" || "user" == "harness")
          && (not (current_holder store (opened lent_log) "s" == "")
              && ("" == "" || current_holder store (opened lent_log) "s" == ""))))
    × (current_holder store (abort store (opened lent_log) "j" "s" "" "user").1 "s" ≡ (
        if ("user" == "user" || "user" == "harness")
          && (not (current_holder store (opened lent_log) "s" == "")
              && ("" == "" || current_holder store (opened lent_log) "s" == ""))
        then ""
        else current_holder store (opened lent_log) "s"))
abort_turn_example = abort_turn store (opened lent_log) "j" "s" "" "user" abort_appends

abbrev recorded : ℕ → SessionEntry
recorded n = record { id = n; caller = "child"; callers = [] }

abbrev index : List SessionEntry
index =
    recorded 4 ∷ recorded 7 ∷ record { id = 8; caller = "other"; callers = [] } ∷ recorded 9 ∷ []

abbrev short_pages : AdmissionPolicy
short_pages = record policy { memory_page = 1 }

index_distinct : AllDistinct (entry_ids_by_caller index "child")
unfolding entry_ids_by_caller
index_distinct = (refl, (refl, (refl, tt)))

index_positive : contains_id (entry_ids_by_caller index "child") 0 ≡ false
unfolding entry_ids_by_caller
index_positive = refl

follow_complete_example :
    follow (suc (length (entry_ids_by_caller index "child"))) short_pages index "child" 0
    ≡ some (entry_ids_by_caller index "child")
follow_complete_example =
    follow_complete short_pages index "child" 0 refl index_distinct index_positive

-- An orchestrator activity in flight.
abbrev activity_log : List Entry
activity_log =
    record (blank Author.orchestrator Kind.activity_started) {
      session = "s";
      activity = "a";
      node_kind = NodeKind.orchestrator;
      cause = cause_none;
    }
    ∷ []

finish_succeeds :
    (finish_activity store (opened activity_log) "s" "a" NodeKind.orchestrator Outcome.completed).0
    ≡ activity_done
unfolding accepts activity_kind advance author_of budgeted budgets_of declare_round end_activity
    execution_kind find find_unit flight_of fold fold_activity fold_execution fold_result fold_unit
    fold_work insert lookup map_values next_unit project project_from same_node_kind
    settle_executions size unit_key append_batch encode_all validate validate_author
    validate_execution validate_identity validate_kind validate_kind_fields validate_node_kind
    validate_outcome_shape validate_subject same_author is_activity_finished is_activity_started
    finish_activity activity_record_kind start_activity
finish_succeeds = refl

finish_settles_example :
    FinishedWith
      (project (
        store.entries
          (finish_activity store
            (opened activity_log)
            "s"
            "a"
            NodeKind.orchestrator
            Outcome.completed).1))
      "s"
      "a"
      NodeKind.orchestrator
      Outcome.completed
    × (finish_activity store
          (finish_activity store
            (opened activity_log)
            "s"
            "a"
            NodeKind.orchestrator
            Outcome.completed).1
          "s"
          "a"
          NodeKind.orchestrator
          Outcome.completed
        ≡ (
          activity_done,
          (finish_activity store
              (opened activity_log)
              "s"
              "a"
              NodeKind.orchestrator
              Outcome.completed).1,
        ))
finish_settles_example =
    finish_settles store (opened activity_log) "s" "a" NodeKind.orchestrator Outcome.completed
      finish_succeeds

-- A reassignment of the seat "qa" that was launched and failed.
abbrev seat_log : List Entry
seat_log =
    record (act Author.orchestrator Kind.seat_restored 0) { agent = "qa"; model = "m" }
    ∷ act Author.harness Kind.launched 1
    ∷ record (act Author.harness Kind.terminated 2) { outcome = Outcome.failed }
    ∷ []

seat_failed : reassignment_failed seat_log "s" "qa" ≡ true
unfolding reassignment_failed scan_seat scan_step
seat_failed = refl

reassignment_failed-evidence_example :
    (r : Entry) × (after : List Entry) × Latest "s" "qa" seat_log r after
    × FailedIn "s" "qa" r after
reassignment_failed-evidence_example = reassignment_failed-evidence "s" "qa" seat_log seat_failed

-- A prepared execution of agent "a".
abbrev run : Kind → Entry
run k = record (blank Author.harness k) {
  session = "s";
  work_unit = "u";
  attempt = "1";
  dispatch = "d";
  agent = "a";
  cause = cause_none;
}

abbrev prepared_log : List Entry
prepared_log = run Kind.execution ∷ run Kind.prepared ∷ []

abbrev attached_run : Execution
attached_run = record no_execution {
  dispatch = "d";
  root = "s";
  work_unit = "u";
  attempt = "1";
  agent = "a";
  child = "c";
  ready = true;
}

attach_returns : (attach_child store (opened prepared_log) "d" "c" "a").0 ≡ some attached_run
unfolding accepts activity_kind advance author_of budgeted budgets_of declare_round end_activity
    execution_kind find find_unit flight_of fold fold_activity fold_execution fold_result fold_unit
    fold_work insert lookup map_values next_unit project project_from same_node_kind
    settle_executions size unit_key append_batch encode_all validate validate_author
    validate_execution validate_identity validate_kind validate_kind_fields validate_node_kind
    validate_outcome_shape validate_subject same_author is_activity_finished is_activity_started
    attach_child attach_decision execution_fact fold_execution_kind
attach_returns = refl

attach_child-Attached_example :
    (d : Execution) × Attached (project prepared_log) "d" "c" "a" d × (attached_run.child ≡ "c")
attach_child-Attached_example =
    attach_child-Attached store (opened prepared_log) "d" "c" "a" attached_run attach_returns
