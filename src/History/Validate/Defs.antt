-- ===== src/History/Validate/Defs.antt =====
-- `Entry.validate` of takt/history/history.go and `validateExecution` of execution.go: the checks that
-- run in order before an entry is recorded. `none` is Go's nil error.
use takt_ai.Base.{
  String, Bool, true, false, ℕ, Option, none, some, List, [], ◌∷◌, not, ◌&&◌, ◌||◌, ◌==◌, eqb,
  if◌then◌else◌, contains,
}
use takt_ai.Base.Dict.{is_some}
use takt_ai.Base.Text.{is_blank}
use takt_ai.History.Kinds.{
  Author, NodeKind, Kind, Outcome, ResultStatus, author_of, same_author, same_node_kind,
  execution_kind, is_activity_finished, is_kind_terminated, is_kind_recovery_closed, is_kind_result,
  is_kind_qa_round, is_kind_lease, has_outcome,
}
use takt_ai.History.Entry.{Entry, QaRound, activity_kind_of, tactical, strategic}

-- What a refusal says, one constructor for each error that the source returns.
pub data Fault : Type 0 where
  unknown_kind wrong_author no_session bad_activity_identity wrong_activity_node : Fault
  bad_work_identity no_cause unknown_node_kind undelegated_work : Fault
  misplaced_outcome bad_activity_outcome unknown_outcome : Fault
  misplaced_round misplaced_status unknown_status unevaluated_result : Fault
  incomplete_round repeated_round_unit no_objective bad_exception : Fault
  incomplete_revision unknown_classification no_reason incomplete_seat : Fault
  no_execution_root incomplete_lease incomplete_inputs inexact_dispatch : Fault

abbrev pub is_empty : String → Bool
is_empty s = s == ""

-- The limits that a user exception may scope.
abbrev pub bounds : List String
bounds =
    "ceiling/concurrent-specialists" ∷ "budget/unplanned-units" ∷ "budget/contests"
    ∷ "budget/recovery-failures" ∷ "budget/recovery-actions" ∷ "budget/recovery-attempts"
    ∷ "budget/qa-strengthening-rounds" ∷ []

-- The first refusal of two checks.
infixr 30 ◌then_check◌
abbrev pub ◌then_check◌ : Option Fault → Option Fault → Option Fault
none then_check b = b
some f then_check b = some f

abbrev pub refuse_if : Bool → Fault → Option Fault
refuse_if true f = some f
refuse_if false f = none

unfoldable pub validate_author : Entry → Option Fault
unfolding author_of same_author
validate_author e = elim (author_of e.kind) [
  | none ↦ some Fault.unknown_kind
  | some a ↦
      refuse_if
        (not (same_author e.author a)
          && (not (is_kind_result e.kind) || not (same_author e.author Author.harness)))
        Fault.wrong_author
]

unfoldable pub validate_subject : Entry → Option Fault
unfolding same_node_kind
validate_subject e = elim (activity_kind_of e) [
  | some k ↦
      refuse_if (is_empty e.activity || not (is_empty e.work_unit) || not (is_empty e.attempt))
        Fault.bad_activity_identity
      then_check refuse_if (not (same_node_kind e.node_kind k)) Fault.wrong_activity_node
  | none ↦
      refuse_if (is_empty e.work_unit || is_empty e.attempt || not (is_empty e.activity))
        Fault.bad_work_identity
]

-- validateIdentity
unfoldable pub validate_identity : Entry → Option Fault
unfolding validate_author validate_subject
validate_identity e =
    validate_author e
    then_check refuse_if (is_empty e.session) Fault.no_session
    then_check validate_subject e
    then_check refuse_if (is_empty e.cause) Fault.no_cause

abbrev pub is_known_node_kind : NodeKind → Bool
is_known_node_kind (NodeKind.other _) = false
is_known_node_kind _ = true

abbrev pub is_unset_or_delegated : NodeKind → Bool
is_unset_or_delegated NodeKind.unset = true
is_unset_or_delegated NodeKind.delegated = true
is_unset_or_delegated _ = false

-- validateNodeKind
unfoldable pub validate_node_kind : Entry → Option Fault
validate_node_kind e =
    refuse_if (not (is_known_node_kind e.node_kind)) Fault.unknown_node_kind
    then_check refuse_if
        (not (is_some (activity_kind_of e)) && not (is_unset_or_delegated e.node_kind))
        Fault.undelegated_work

abbrev pub xor : Bool → Bool → Bool
xor true b = not b
xor false b = b

abbrev pub is_activity_outcome : Outcome → Bool
is_activity_outcome Outcome.completed = true
is_activity_outcome Outcome.failed = true
is_activity_outcome Outcome.interrupted = true
is_activity_outcome _ = false

abbrev pub is_terminal : Kind → Bool
is_terminal k = is_kind_terminated k || is_kind_recovery_closed k || is_activity_finished k

-- validateOutcomeShape
unfoldable pub validate_outcome_shape : Entry → Option Fault
unfolding is_activity_finished
validate_outcome_shape e =
    refuse_if (xor (is_terminal e.kind) (has_outcome e.outcome)) Fault.misplaced_outcome
    then_check refuse_if (is_activity_finished e.kind && not (is_activity_outcome e.outcome))
        Fault.bad_activity_outcome

abbrev pub has_status : ResultStatus → Bool
has_status ResultStatus.unset = false
has_status _ = true

abbrev pub is_known_status : ResultStatus → Bool
is_known_status ResultStatus.unset = false
is_known_status (ResultStatus.other _) = false
is_known_status _ = true

abbrev pub is_evaluated : ResultStatus → Bool
is_evaluated ResultStatus.verified = true
is_evaluated ResultStatus.failed = true
is_evaluated _ = false

-- The loop over a round's units: none blank, none twice.
unfoldable pub validate_round_units : List String → List String → Option Fault
validate_round_units seen [] = none
validate_round_units seen (u ∷ us) =
    let rest = validate_round_units (u ∷ seen) us in
    if is_blank u || contains seen u then some Fault.repeated_round_unit else rest

abbrev pub has_units : List String → Bool
has_units [] = false
has_units (_ ∷ _) = true

unfoldable pub validate_round : Entry → Option QaRound → Option Fault
unfolding validate_round_units
validate_round e none = some Fault.incomplete_round
validate_round e (some r) =
    refuse_if (is_empty e.plan_version || is_blank r.objective || not (has_units r.units))
      Fault.incomplete_round
    then_check validate_round_units [] r.units

-- The `switch` of validateKindFields.
unfoldable pub validate_kind : Kind → Entry → Option Fault
unfolding validate_round
validate_kind Kind.result e =
    refuse_if (not (is_known_status e.status)) Fault.unknown_status
    then_check refuse_if
        (is_evaluated e.status && (not (is_some e.revision) || is_blank e.evidence))
        Fault.unevaluated_result
validate_kind Kind.qa_round e = validate_round e e.qa_round
validate_kind Kind.recovery_declared e = refuse_if (is_empty e.objective) Fault.no_objective
validate_kind Kind.recovery_closed e = refuse_if (is_empty e.objective) Fault.no_objective
validate_kind Kind.actions e = refuse_if (is_empty e.objective) Fault.no_objective
validate_kind Kind.actions_uncertain e = refuse_if (is_empty e.objective) Fault.no_objective
validate_kind Kind.restored e = refuse_if (is_empty e.objective) Fault.no_objective
validate_kind Kind.exception e =
    refuse_if (not (contains bounds e.bound) || eqb e.allowance 0) Fault.bad_exception
validate_kind Kind.revised e =
    refuse_if (is_empty e.base_version || is_empty e.plan_version) Fault.incomplete_revision
    then_check refuse_if (not (e.classification == tactical) && not (e.classification == strategic))
        Fault.unknown_classification
validate_kind Kind.invalid_revision e = refuse_if (is_empty e.reason) Fault.no_reason
validate_kind Kind.seat_restored e =
    refuse_if (is_empty e.agent || is_empty e.model || is_empty e.reason) Fault.incomplete_seat
validate_kind _ e = none

-- validateKindFields
unfoldable pub validate_kind_fields : Entry → Option Fault
unfolding validate_kind
validate_kind_fields e =
    refuse_if (is_some e.qa_round && not (is_kind_qa_round e.kind)) Fault.misplaced_round
    then_check refuse_if
        ((has_status e.status || is_some e.revision) && not (is_kind_result e.kind))
        Fault.misplaced_status
    then_check validate_kind e.kind e

abbrev pub is_known_outcome : Outcome → Bool
is_known_outcome (Outcome.other _) = false
is_known_outcome _ = true

abbrev pub has_ids : List ℕ → Bool
has_ids [] = false
has_ids (_ ∷ _) = true

abbrev pub is_kind_inputs : Kind → Bool
is_kind_inputs Kind.inputs = true
is_kind_inputs _ = false

-- validateExecution
unfoldable pub validate_execution : Entry → Option Fault
unfolding same_author
validate_execution e =
    if is_empty e.session && not (is_kind_lease e.kind)
    then some Fault.no_execution_root
    else if is_kind_lease e.kind
    then refuse_if
        (not (same_author e.author Author.harness) || is_empty e.owner || eqb e.created_at 0)
        Fault.incomplete_lease
    else if is_kind_inputs e.kind
    then refuse_if
        (not (same_author e.author Author.orchestrator)
          || is_empty e.work_unit
          || not (xor (has_ids e.result_ids) e.no_results))
        Fault.incomplete_inputs
    else refuse_if
        (not (same_author e.author Author.harness)
          || is_empty e.dispatch
          || is_empty e.attempt
          || is_empty e.work_unit)
        Fault.inexact_dispatch

unfoldable pub validate : Entry → Option Fault
validate e =
    if execution_kind e.kind
    then validate_execution e
    else validate_identity e
      then_check validate_node_kind e
      then_check validate_outcome_shape e
      then_check validate_kind_fields e
      then_check refuse_if (not (is_known_outcome e.outcome)) Fault.unknown_outcome
