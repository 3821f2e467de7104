-- ===== src/Tests/Decisions.antt =====
-- The properties of the dispatch decisions at a concrete store.
use takt_ai.Base.Words.{raised}
use takt_ai.Base.{
  suc, ◌≤◌, max, String, ◌≡◌, refl, inl, true, false, none, some, [], ◌∷◌, ◌++◌, arith, ◌==◌,
}
use takt_ai.Base.Dict.{get_or, lookup, insert, size, count_where, find, map_values}
use takt_ai.Base.Text.{digit, decimal, itoa}
use takt_ai.History.Kinds.{
  Kind, State, author_of, same_author, same_node_kind, execution_kind, is_activity_started,
  is_activity_finished, flight_of,
}
use takt_ai.History.Entry.{Entry, activity_kind}
use takt_ai.History.Projection.{
  no_unit, unit_key, find_unit, budgets_of, in_flight, scope_of, qa_round_for, strengthening_used,
  allowance_of, last_attempt, next_attempt,
}
use takt_ai.History.Validate.{
  validate_author, validate_subject, validate_identity, validate_node_kind, validate_outcome_shape,
  validate_kind, validate_kind_fields, validate_execution, validate,
}
use takt_ai.History.Fold.{accepts, budgeted}
use takt_ai.History.Fold.{
  fold_execution, settle_executions, fold_activity, advance, next_unit, fold_result, fold_unit,
  fold_work, fold, project_from, project,
}
use takt_ai.History.Fold.Lifecycle.{unit_state}
use takt_ai.History.Fold.Unplanned.{newly, unplanned_of}
use takt_ai.History.Fold.Effect.{is_lifecycle}
use takt_ai.History.Log.{encode_all, append_batch}
use takt_ai.Dispatch.Policy.{bound_unplanned, bound_contests, Refusal, succeeded}
use takt_ai.Dispatch.Admission.{
  admission_entry, ceiling_of, decide_recovery, decide_unit, decide, admit,
}
use takt_ai.Dispatch.Admission.Cases.{Decided, Fits, decide_cases}
use takt_ai.Dispatch.Admission.Recorded.{admit_slots}
use takt_ai.Dispatch.Admission.Granted.{admit-Fits, admit_unfit, admit_denial}
use takt_ai.Dispatch.Lifecycle.{
  current_attempt, uncertain_flight, terminal_outcome, termination, fact, terminate, finish,
  record_fact, launch, reconcile, withdraw, contest,
}
use takt_ai.Dispatch.Lifecycle.Moves.{launch_twice}
use takt_ai.Dispatch.Lifecycle.Release.{RecordsNonStart, finish_releases, reconcile_non_start}
use takt_ai.Dispatch.Budget.{admit_unplanned, contest_bounded}
use takt_ai.Tests.{
  admitted, withdrawn_log, uncertain_log, settled_log, policy, request, store, opened, flying_state,
}

Fits-empty : Fits (project []) policy request
unfolding accepts activity_kind advance author_of budgeted budgets_of ceiling_of count_where
    execution_kind find find_unit flight_of fold fold_activity fold_execution fold_result fold_unit
    fold_work in_flight insert is_lifecycle lookup map_values newly next_unit project project_from
    qa_round_for same_node_kind scope_of settle_executions size unit_key unit_state uncertain_flight
    strengthening_used raised
Fits-empty = record {
  slot = omega arith;
  unit = omega arith;
  round = inl refl;
  recovery = inl refl;
}

flight_uncertain :
    uncertain_flight (get_or no_unit (find_unit (project uncertain_log) "s" "u")).flight ≡ true
unfolding accepts activity_kind advance author_of budgeted budgets_of ceiling_of count_where
    execution_kind find find_unit flight_of fold fold_activity fold_execution fold_result fold_unit
    fold_work in_flight insert is_lifecycle lookup map_values newly next_unit project project_from
    qa_round_for same_node_kind scope_of settle_executions size unit_key unit_state uncertain_flight
    strengthening_used
flight_uncertain = refl

unfit_withdrawn : ¬ Fits (project withdrawn_log) policy request
unfolding accepts activity_kind advance author_of budgeted budgets_of ceiling_of count_where
    execution_kind find find_unit flight_of fold fold_activity fold_execution fold_result fold_unit
    fold_work in_flight insert is_lifecycle lookup map_values newly next_unit project project_from
    qa_round_for same_node_kind scope_of settle_executions size unit_key unit_state uncertain_flight
    strengthening_used
unfit_withdrawn fits = ground (arith, fits.unit.1)

admit_appends : (admit store (opened []) policy "j" request).0.append ≡ none
unfolding accepts activity_kind advance author_of budgeted budgets_of ceiling_of count_where
    execution_kind find find_unit flight_of fold fold_activity fold_execution fold_result fold_unit
    fold_work in_flight insert is_lifecycle lookup map_values newly next_unit project project_from
    qa_round_for same_node_kind scope_of settle_executions size unit_key unit_state uncertain_flight
    strengthening_used admit decide decide_unit raised decide_recovery append_batch encode_all
    validate validate_author validate_execution validate_identity validate_kind validate_kind_fields
    validate_node_kind validate_outcome_shape validate_subject same_author is_activity_finished
    is_activity_started termination terminal_outcome current_attempt fact finish terminate reconcile
    launch withdraw record_fact next_attempt last_attempt itoa decimal digit
admit_appends = refl

denial_appends : (admit store (opened withdrawn_log) policy "j" request).0.append ≡ none
unfolding accepts activity_kind advance author_of budgeted budgets_of ceiling_of count_where
    execution_kind find find_unit flight_of fold fold_activity fold_execution fold_result fold_unit
    fold_work in_flight insert is_lifecycle lookup map_values newly next_unit project project_from
    qa_round_for same_node_kind scope_of settle_executions size unit_key unit_state uncertain_flight
    strengthening_used admit decide decide_unit raised decide_recovery append_batch encode_all
    validate validate_author validate_execution validate_identity validate_kind validate_kind_fields
    validate_node_kind validate_outcome_shape validate_subject same_author is_activity_finished
    is_activity_started termination terminal_outcome current_attempt fact finish terminate reconcile
    launch withdraw record_fact next_attempt last_attempt itoa decimal digit
denial_appends = refl

launch_succeeds : (launch store (opened (admitted ∷ [])) "j" "u" "s").0 ≡ succeeded
unfolding accepts activity_kind advance author_of budgeted budgets_of ceiling_of count_where
    execution_kind find find_unit flight_of fold fold_activity fold_execution fold_result fold_unit
    fold_work in_flight insert is_lifecycle lookup map_values newly next_unit project project_from
    qa_round_for same_node_kind scope_of settle_executions size unit_key unit_state uncertain_flight
    strengthening_used admit decide decide_unit raised decide_recovery append_batch encode_all
    validate validate_author validate_execution validate_identity validate_kind validate_kind_fields
    validate_node_kind validate_outcome_shape validate_subject same_author is_activity_finished
    is_activity_started termination terminal_outcome current_attempt fact finish terminate reconcile
    launch withdraw record_fact next_attempt last_attempt itoa decimal digit
launch_succeeds = refl

finish_appends : (finish store (opened uncertain_log) "j" "u" "s").0.append ≡ none
unfolding accepts activity_kind advance author_of budgeted budgets_of ceiling_of count_where
    execution_kind find find_unit flight_of fold fold_activity fold_execution fold_result fold_unit
    fold_work in_flight insert is_lifecycle lookup map_values newly next_unit project project_from
    qa_round_for same_node_kind scope_of settle_executions size unit_key unit_state uncertain_flight
    strengthening_used admit decide decide_unit raised decide_recovery append_batch encode_all
    validate validate_author validate_execution validate_identity validate_kind validate_kind_fields
    validate_node_kind validate_outcome_shape validate_subject same_author is_activity_finished
    is_activity_started termination terminal_outcome current_attempt fact finish terminate reconcile
    launch withdraw record_fact next_attempt last_attempt itoa decimal digit
finish_appends = refl

reconcile_appends : (reconcile store (opened uncertain_log) "j" "u" "s" false).0.append ≡ none
unfolding accepts activity_kind advance author_of budgeted budgets_of ceiling_of count_where
    execution_kind find find_unit flight_of fold fold_activity fold_execution fold_result fold_unit
    fold_work in_flight insert is_lifecycle lookup map_values newly next_unit project project_from
    qa_round_for same_node_kind scope_of settle_executions size unit_key unit_state uncertain_flight
    strengthening_used admit decide decide_unit raised decide_recovery append_batch encode_all
    validate validate_author validate_execution validate_identity validate_kind validate_kind_fields
    validate_node_kind validate_outcome_shape validate_subject same_author is_activity_finished
    is_activity_started termination terminal_outcome current_attempt fact finish terminate reconcile
    launch withdraw record_fact next_attempt last_attempt itoa decimal digit
reconcile_appends = refl

admit_slots_example :
    in_flight (project (store.entries (admit store (opened []) policy "j" request).1))
    ≤ max (in_flight (project [])) (ceiling_of policy (budgets_of (project []) "s"))
admit_slots_example = admit_slots store (opened []) policy "j" request

admit-Fits_example :
    ((admit store (opened []) policy "j" request).0 ≡ succeeded)
    × (unit_state (project (store.entries (admit store (opened []) policy "j" request).1)) "s" "u"
        ≡ State.in_flight)
    × (in_flight (project (store.entries (admit store (opened []) policy "j" request).1))
        ≡ suc (in_flight (project [])))
admit-Fits_example = admit-Fits store (opened []) policy "j" request refl Fits-empty admit_appends

admit_unfit_example :
    ((r : Refusal) × ((admit store (opened withdrawn_log) policy "j" request).0.refusal ≡ some r))
    × ((project (store.entries (admit store (opened withdrawn_log) policy "j" request).1)).units
        ≡ (project withdrawn_log).units)
    × ((s : String)
        → budgets_of
            (project (store.entries (admit store (opened withdrawn_log) policy "j" request).1))
            s
          ≡ budgets_of (project withdrawn_log) s)
admit_unfit_example =
    admit_unfit store (opened withdrawn_log) policy "j" request refl unfit_withdrawn

admit_denial_example :
    (e : Entry) × (e.kind ≡ Kind.denied)
    × (e.session ≡ "s")
    × (e.work_unit ≡ "u")
    × ((e.cause == "") ≡ false)
    × (store.entries (admit store (opened withdrawn_log) policy "j" request).1
        ≡ withdrawn_log ++ e ∷ [])
admit_denial_example =
    admit_denial store (opened withdrawn_log) policy "j" request refl unfit_withdrawn denial_appends

decide_cases_example :
    Decided
      (Fits (project withdrawn_log) policy request)
      (admission_entry (project withdrawn_log) request)
      (decide (project withdrawn_log) policy request)
decide_cases_example = decide_cases (project withdrawn_log) policy request

finish_releases_example :
    (unit_state
        (project (store.entries (finish store (opened uncertain_log) "j" "u" "s").1))
        "s"
        "u"
      ≡ State.settled)
    × (suc (in_flight (project (store.entries (finish store (opened uncertain_log) "j" "u" "s").1)))
        ≡ in_flight (project uncertain_log))
finish_releases_example =
    finish_releases store (opened uncertain_log) "j" "u" "s" flying_state finish_appends

reconcile_non_start_example :
    (unit_state
        (project (store.entries (reconcile store (opened uncertain_log) "j" "u" "s" false).1))
        "s"
        "u"
      ≡ State.settled)
    × (suc (
          in_flight
            (project (store.entries (reconcile store (opened uncertain_log) "j" "u" "s" false).1)))
        ≡ in_flight (project uncertain_log))
    × RecordsNonStart store
        (opened uncertain_log)
        (reconcile store (opened uncertain_log) "j" "u" "s" false).1
        "u"
        "s"
reconcile_non_start_example =
    reconcile_non_start store (opened uncertain_log) "j" "u" "s" flying_state flight_uncertain
      reconcile_appends

launch_twice_example :
    launch store (launch store (opened (admitted ∷ [])) "j" "u" "s").1 "j" "u" "s"
    ≡ (succeeded, (launch store (opened (admitted ∷ [])) "j" "u" "s").1)
launch_twice_example = launch_twice store (opened (admitted ∷ [])) "j" "u" "s" launch_succeeds

admit_unplanned_example :
    unplanned_of (project (store.entries (admit store (opened []) policy "j" request).1)) "s"
    ≤ max
        (unplanned_of (project []) "s")
        (raised 3 (allowance_of (budgets_of (project []) "s") bound_unplanned))
admit_unplanned_example = admit_unplanned store (opened []) policy "j" request

contest_bounded_example :
    size
      (budgets_of
        (project (store.entries (contest store (opened settled_log) policy "j" "u" "s" "1").1))
        "s").contests
    ≤ max
        (size (budgets_of (project settled_log) "s").contests)
        (raised 1 (allowance_of (budgets_of (project settled_log) "s") bound_contests))
contest_bounded_example = contest_bounded store (opened settled_log) policy "j" "u" "s" "1"
