-- ===== src/Tests/Records.antt =====
-- The properties of the history at concrete records.
use takt_ai.Base.{
  ◌+◌, ◌≤◌, String, ◌≡◌, refl, true, some, [], ◌∷◌, ◌++◌, arith, ◌==◌, if◌then◌else◌,
}
use takt_ai.Base.Dict.{get_or, bit, lookup, insert, size, count_where, find, map_values}
use takt_ai.Base.Text.{pos, atoi, digit, decimal, itoa}
use takt_ai.History.Kinds.{
  Kind, State, author_of, same_author, same_node_kind, execution_kind, is_activity_started,
  is_activity_finished, flight_of, is_kind_admitted, is_kind_terminated,
}
use takt_ai.History.Entry.{activity_kind}
use takt_ai.History.Projection.{
  no_unit, unit_key, find_unit, budgets_of, in_flight, scope_of, qa_round_for, strengthening_used,
  last_attempt, next_attempt,
}
use takt_ai.History.Validate.{
  validate_author, validate_subject, validate_identity, validate_node_kind, validate_outcome_shape,
  validate_kind, validate_kind_fields, validate_execution, validate,
}
use takt_ai.History.Fold.{accepts, budgeted}
use takt_ai.History.Fold.{
  fold_execution, settle_executions, fold_activity, advance, next_unit, fold_result, fold_unit,
  fold_work, fold, project_from, project,
}
use takt_ai.History.Fold.Lifecycle.{◌⟶*◌, unit_state, project-⟶*, withdrawn_absorbing}
use takt_ai.History.Fold.Slots.{in_flight-fold}
use takt_ai.History.Fold.Unplanned.{newly, unplanned_of, fold_unplanned}
use takt_ai.History.Fold.Covered.{IsCovered, project-IsCovered}
use takt_ai.History.Fold.Growth.{Grows, project-Grows}
use takt_ai.History.Fold.Effect.{is_lifecycle}
use takt_ai.History.Log.{encode_all, append_batch, replay_from, replay, IsDurable}
use takt_ai.History.Log.Durable.{Batched, append_batch_lem, append_batch-IsDurable}
use takt_ai.History.Keys.{IsPlain, unit_key-injective}
use takt_ai.History.Attempts.{next_attempt_settled}
use takt_ai.Dispatch.Admission.{ceiling_of, decide_recovery, decide_unit, decide, admit}
use takt_ai.Dispatch.Lifecycle.{
  current_attempt, uncertain_flight, terminal_outcome, termination, fact, terminate, finish,
  record_fact, launch, reconcile, withdraw,
}
use takt_ai.Tests.{
  admitted, planned, withdrawn, withdrawn_log, uncertain_log, settled_log, memory, opened,
  withdrawn_state,
}

settled_state : (get_or no_unit (find_unit (project settled_log) "s" "u")).state ≡ State.settled
unfolding accepts activity_kind advance author_of budgeted budgets_of ceiling_of count_where
    execution_kind find find_unit flight_of fold fold_activity fold_execution fold_result fold_unit
    fold_work in_flight insert is_lifecycle lookup map_values newly next_unit project project_from
    qa_round_for same_node_kind scope_of settle_executions size unit_key unit_state uncertain_flight
    strengthening_used
settled_state = refl

settled_find :
    find_unit (project settled_log) "s" "u"
    ≡ some (get_or no_unit (find_unit (project settled_log) "s" "u"))
unfolding accepts activity_kind advance author_of budgeted budgets_of ceiling_of count_where
    execution_kind find find_unit flight_of fold fold_activity fold_execution fold_result fold_unit
    fold_work in_flight insert is_lifecycle lookup map_values newly next_unit project project_from
    qa_round_for same_node_kind scope_of settle_executions size unit_key unit_state uncertain_flight
    strengthening_used
settled_find = refl

opened-IsDurable : IsDurable memory (opened [])
unfolding replay replay_from
opened-IsDurable = refl

append_batch-IsDurable_example :
    IsDurable memory (append_batch memory true (opened []) settled_log).1
append_batch-IsDurable_example =
    append_batch-IsDurable memory true (opened []) settled_log opened-IsDurable

append_batch_lem_example :
    Batched memory (opened []) settled_log (append_batch memory true (opened []) settled_log)
append_batch_lem_example = append_batch_lem memory true (opened []) settled_log

project-⟶*_example :
    unit_state (project (planned ∷ [])) "s" "u"
    ⟶* unit_state (project ((planned ∷ []) ++ (withdrawn ∷ []))) "s" "u"
project-⟶*_example = project-⟶* (planned ∷ []) (withdrawn ∷ []) "s" "u"

withdrawn_absorbing_example :
    unit_state (project (withdrawn_log ++ uncertain_log)) "s" "u" ≡ State.withdrawn
withdrawn_absorbing_example =
    withdrawn_absorbing withdrawn_log uncertain_log "s" "u" withdrawn_state

IsPlain-s : IsPlain "s"
IsPlain-s = ((λ h. absurd (omega (arith, h))), tt)

project-IsCovered_example : IsCovered (project settled_log)
project-IsCovered_example = project-IsCovered settled_log (IsPlain-s, (IsPlain-s, tt))

project-Grows_example :
    Grows
      (budgets_of (project settled_log) "s")
      (budgets_of (project (settled_log ++ uncertain_log)) "s")
project-Grows_example = project-Grows settled_log uncertain_log "s"

in_flight-fold_example :
    (in_flight (fold (project []) admitted)
      ≤ in_flight (project []) + bit (is_kind_admitted Kind.admitted))
    × (in_flight (project [])
        ≤ in_flight (fold (project []) admitted) + bit (is_kind_terminated Kind.admitted))
in_flight-fold_example = in_flight-fold (project []) admitted

fold_unplanned_example :
    unplanned_of (fold (project []) admitted) "s"
    ≡ unplanned_of (project []) "s" + (if "s" == "s" then newly (project []) admitted else 0)
fold_unplanned_example = fold_unplanned admitted "s" (project [])

numbered_one : (get_or no_unit (find_unit (project settled_log) "s" "u")).attempt ≡ itoa (pos 1)
unfolding accepts activity_kind advance author_of budgeted budgets_of ceiling_of count_where
    execution_kind find find_unit flight_of fold fold_activity fold_execution fold_result fold_unit
    fold_work in_flight insert is_lifecycle lookup map_values newly next_unit project project_from
    qa_round_for same_node_kind scope_of settle_executions size unit_key unit_state uncertain_flight
    strengthening_used admit decide decide_unit decide_recovery append_batch encode_all validate
    validate_author validate_execution validate_identity validate_kind validate_kind_fields
    validate_node_kind validate_outcome_shape validate_subject same_author is_activity_finished
    is_activity_started termination terminal_outcome current_attempt fact finish terminate reconcile
    launch withdraw record_fact next_attempt last_attempt itoa decimal digit
numbered_one = refl

next_attempt_settled_example :
    (next_attempt (project settled_log) "s" "u" ≡ itoa (pos 2))
    × (atoi (next_attempt (project settled_log) "s" "u") ≡ (pos 2, true))
next_attempt_settled_example =
    next_attempt_settled (project settled_log) "s" "u"
      (get_or no_unit (find_unit (project settled_log) "s" "u")) 1 settled_find settled_state
      numbered_one (omega arith)

abbrev session_name : String
session_name = "s"

abbrev unit_name : String
unit_name = "u"

unit_key-injective_example : (session_name ≡ session_name) × (unit_name ≡ unit_name)
unit_key-injective_example =
    unit_key-injective session_name session_name unit_name unit_name IsPlain-s IsPlain-s refl
