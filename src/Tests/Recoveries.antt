-- ===== src/Tests/Recoveries.antt =====
-- The properties of recoveries at a concrete declaration.
use takt_ai.Dispatch.Recovery.Exhaustion.{stored_recovery, accounted, accounted-open}
use takt_ai.Dispatch.Recovery.Granting.{declaration_iff, IsGrantable}
use takt_ai.Dispatch.Recovery.{account_recovery, backtrack_for, collect_calls, force_backtrack}
use takt_ai.Base.Dict.{lookup, insert, find, map_values}
use takt_ai.History.Fold.{fold, fold_work, settle_executions, budgeted, project_from}
use takt_ai.History.Projection.{ref_seq}
use takt_ai.Base.Text.{digits, is_blank, is_space}
use takt_ai.Base.Words.{raised}
use takt_ai.History.Validate.{
  validate_outcome_shape, validate_node_kind, validate_kind_fields, validate_kind,
  validate_identity, validate_execution, validate_author, validate,
}
use takt_ai.History.Log.{encode_all}
use takt_ai.Base.{List, ◌+◌, ◌<◌, ◌≡◌, refl, ◌↔◌, ◌⊎◌, true, false, none, [], ◌∷◌, arith, any}
use takt_ai.Base.Dict.{is_some, size}
use takt_ai.Base.Text.{pos, lt_ℤ, digit, decimal, itoa}
use takt_ai.History.Kinds.{
  Kind, author_of, same_author, same_node_kind, execution_kind, is_activity_started,
  is_activity_finished,
}
use takt_ai.History.Entry.{Entry, activity_kind}
use takt_ai.History.Projection.{
  Recovery, no_recovery, budgets_of, recovery_of, allowance_key, allowance_of,
}
use takt_ai.History.Fold.{bound_recovery_attempts, bound_recovery_actions, project}
use takt_ai.History.Log.{append_batch, encode_all}
use takt_ai.History.Validate.{
  validate, validate_author, validate_execution, validate_identity, validate_kind,
  validate_kind_fields, validate_node_kind, validate_outcome_shape, validate_subject,
}
use takt_ai.Dispatch.Admission.{attempts_made}
use takt_ai.Dispatch.Recovery.{
  declare_recovery, RecoveryDeclaration, JournalEntry, declaration_entry, journal_position,
  scope_actions, actions_entry, unit_flies, exhaustion, record_actions,
}
use takt_ai.Dispatch.Recovery.Accounting.{record_actions_lem}
use takt_ai.Tests.{policy, store, opened}

-- The recovery of objective "o" over unit "u", and two calls on the journal.
abbrev scoped : Recovery
scoped = record no_recovery {
  is_open = true;
  scope = "u" ∷ [];
  actions = 5;
  attempts = 2;
  cursor = pos 0;
}

actions_append :
    (record_actions store
      (opened [])
      "s"
      "o"
      (record scoped { work_unit = "u" })
      Kind.actions
      1
      (pos 1)).0.append
    ≡ none
unfolding activity_kind author_of execution_kind same_node_kind same_author record_actions
    actions_entry journal_position append_batch encode_all validate validate_author
    validate_execution validate_identity validate_kind validate_kind_fields validate_node_kind
    validate_outcome_shape validate_subject is_activity_finished is_activity_started itoa decimal
    digit
actions_append = refl

record_actions_lem_example :
    recovery_of
      (budgets_of
        (project (
          store.entries
            (record_actions store
              (opened [])
              "s"
              "o"
              (record scoped { work_unit = "u" })
              Kind.actions
              1
              (pos 1)).1))
        "s")
      "o"
    ≡ record (recovery_of (budgets_of (project []) "s") "o") {
      used = (recovery_of (budgets_of (project []) "s") "o").used + 1;
      cursor = pos 1;
    }
record_actions_lem_example =
    record_actions_lem store (opened []) "s" "o" (record scoped { work_unit = "u" }) 1 1
      (omega arith) actions_append

abbrev declared_recovery : RecoveryDeclaration
declared_recovery = record {
  objective = "o";
  result = "green";
  scope = "u" ∷ [];
  actions = 5;
  attempts = 2;
}

declaration_iff_example :
    ((is_some (declare_recovery store (opened []) policy "j" "u" "s" declared_recovery).0.refusal
        ≡ false)
      ↔ (((recovery_of (budgets_of (project []) "s") "o").is_open ≡ true)
          ⊎ IsGrantable (budgets_of (project []) "s") policy declared_recovery))
    × ((recovery_of (budgets_of (project []) "s") "o").is_open ≡ true
        → store.entries (declare_recovery store (opened []) policy "j" "u" "s" declared_recovery).1
          ≡ [])
declaration_iff_example = declaration_iff store (opened []) policy "j" "u" "s" declared_recovery

-- A record in which the recovery of "o" is declared, and a call of its unit on the journal.
abbrev recovering_log : List Entry
recovering_log = record (declaration_entry "journal/0" "u" "s" declared_recovery) { seq = 0 } ∷ []

abbrev called : List JournalEntry
called = record { seq = 1; call_id = "c"; session = "s"; work_unit = "u" } ∷ []

called_ahead : lt_ℤ (pos 1) (stored_recovery store (opened recovering_log) "s" "o").cursor ≡ false
unfolding lookup budgets_of project fold execution_kind activity_kind fold_work insert
    settle_executions ref_seq
called_ahead = refl

called_append : (accounted store (opened recovering_log) called "s" "o" 1).0.append ≡ none
unfolding account_recovery lookup budgets_of project fold execution_kind activity_kind fold_work
    insert settle_executions ref_seq size append_batch validate validate_identity validate_node_kind
    validate_outcome_shape find map_values decimal digit digits is_blank is_space itoa raised
    actions_entry backtrack_for collect_calls exhaustion force_backtrack journal_position
    record_actions scope_actions budgeted encode_all allowance_key validate_author
    validate_execution validate_kind validate_kind_fields validate_subject author_of
    is_activity_finished is_activity_started same_author same_node_kind project_from
called_append = refl

accounted-open_example :
    ((stored_recovery store
        (accounted store (opened recovering_log) called "s" "o" 1).1
        "s"
        "o").is_open
      ≡ true)
    ↔ (((stored_recovery store (opened recovering_log) "s" "o").is_open ≡ true)
        × ((stored_recovery store (opened recovering_log) "s" "o").used
              + scope_actions called "s" (stored_recovery store (opened recovering_log) "s" "o")
            < raised (stored_recovery store (opened recovering_log) "s" "o").actions (
                allowance_of
                  (budgets_of (project recovering_log) "s")
                  (allowance_key bound_recovery_actions "o")))
        × ((size (attempts_made (stored_recovery store (opened recovering_log) "s" "o"))
              < raised (stored_recovery store (opened recovering_log) "s" "o").attempts (
                  allowance_of
                    (budgets_of (project recovering_log) "s")
                    (allowance_key bound_recovery_attempts "o")))
            ⊎ (any
                  (unit_flies (project recovering_log) "s")
                  (stored_recovery store (opened recovering_log) "s" "o").scope
                ≡ true)))
accounted-open_example =
    accounted-open store (opened recovering_log) called "s" "o" 1 (omega arith) called_ahead
      called_append
