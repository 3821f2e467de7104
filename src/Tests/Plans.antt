-- ===== src/Tests/Plans.antt =====
-- The properties of plans at concrete declarations.
use takt_ai.Base.{
  ℕ, ◌≤◌, String, ◌≡◌, refl, sym, ap, ◌∙◌, ◌≢◌, ◌↔◌, true, false, some, List, [], ◌∷◌, contains,
}
use takt_ai.Base.Dict.{lookup, insert, size, find, map_values}
use takt_ai.Base.Text.{leq_codes, pos, ◌<>◌}
use takt_ai.History.Kinds.{
  author_of, same_author, same_node_kind, execution_kind, is_activity_started, is_activity_finished,
  flight_of,
}
use takt_ai.History.Entry.{Entry, activity_kind}
use takt_ai.History.Projection.{unit_key, find_unit, budgets_of, qa_round_for}
use takt_ai.History.Validate.{
  validate_author, validate_subject, validate_identity, validate_node_kind, validate_outcome_shape,
  validate_kind, validate_kind_fields, validate_execution, validate,
}
use takt_ai.History.Fold.{
  fold_execution, settle_executions, end_activity, fold_activity, charge, advance, next_unit,
  fold_result, fold_unit, fold_work, fold, project_from, project,
}
use takt_ai.Dispatch.Plan.Graph.{
  ok, PlanUnit, PlanFault, index_units, Links, link_needs, link_units, plan_graph, ready_units,
  release, settle_ready, acyclic, valid_plan,
}
use takt_ai.Dispatch.Plan.Edges.{Distinct}
use takt_ai.Dispatch.Plan.Linking.{identities}
use takt_ai.Dispatch.Plan.Acyclic.{Settles, acyclic_iff, settle_ready_ends}
use takt_ai.Dispatch.Plan.Members.{check_members, qa_round_entries}
use takt_ai.Dispatch.Plan.Changes.{
  insert_sorted, standing_units, retain_units, add_units, revise_units, check_withdrawals,
  check_admitted, check_needs, check_prerequisites, check_disjoint, prior_prerequisites, classify,
  revision_entries,
}
use takt_ai.Dispatch.Plan.Declaring.{
  PlanReport, declared_plan, turn_down, fault_text, commit_plan, revise, declare_plan,
}
use takt_ai.Dispatch.Plan.View.{unit_view, is_free}
use takt_ai.Dispatch.Plan.Effects.{plan_all, withdraw_all, version_of}
use takt_ai.Dispatch.Plan.Refinement.{declare_refines, declare_atomic, declare_frozen}
use takt_ai.History.Fold.{budgeted, accepts, declare_round}
use takt_ai.History.Log.{append_batch, encode_all}
use takt_ai.Tests.{admitted, planned, store, opened}

-- Unit "b" requires unit "a".
abbrev first_unit : PlanUnit
first_unit = record { work_unit = "a"; contract = "ca"; prerequisites = [] }

abbrev second_unit : PlanUnit
second_unit = record { work_unit = "b"; contract = "cb"; prerequisites = "a" ∷ [] }

abbrev units : List PlanUnit
units = first_unit ∷ second_unit ∷ []

abbrev links : Links
links = record { pending = ("a", pos 0) ∷ ("b", pos 1) ∷ []; dependents = ("a", "b" ∷ []) ∷ [] }

links_built : plan_graph (project []) "s" units ≡ ok links
unfolding accepts activity_kind advance author_of budgeted budgets_of declare_round end_activity
    execution_kind find find_unit flight_of fold fold_activity fold_execution fold_result fold_unit
    fold_work insert lookup map_values next_unit project project_from same_node_kind
    settle_executions size unit_key declare_plan commit_plan revise revision_entries fault_text
    valid_plan plan_graph index_units link_units link_needs acyclic ready_units release settle_ready
    qa_round_entries check_members check_disjoint check_withdrawals check_admitted check_needs
    check_prerequisites classify prior_prerequisites revise_units retain_units add_units
    standing_units insert_sorted leq_codes
links_built = refl

acyclic_iff_example :
    Distinct (identities units)
    × ((acyclic links ≡ true)
        ↔ ((v : String) → contains (identities units) v ≡ true → Settles units v))
acyclic_iff_example = acyclic_iff (project []) "s" units links links_built

settle_ready_ends_example :
    (n : ℕ) × (settle_ready
        (size links.pending)
        links.dependents
        links.pending
        (ready_units links.pending [])
        0
      ≡ some n)
    × (n ≤ size links.pending)
settle_ready_ends_example = settle_ready_ends (project []) "s" units links links_built

abbrev quoted : String → String
quoted s = "\"" <> (s <> "\"")

committed : (declare_plan quoted store (opened []) "j" "s" "v1" "" units [] []).0 ≡ declared_plan
unfolding accepts activity_kind advance author_of budgeted budgets_of declare_round end_activity
    execution_kind find find_unit flight_of fold fold_activity fold_execution fold_result fold_unit
    fold_work insert lookup map_values next_unit project project_from same_node_kind
    settle_executions size unit_key append_batch encode_all validate validate_author
    validate_execution validate_identity validate_kind validate_kind_fields validate_node_kind
    validate_outcome_shape validate_subject same_author is_activity_finished is_activity_started
    declare_plan commit_plan revise revision_entries fault_text valid_plan plan_graph index_units
    link_units link_needs acyclic ready_units release settle_ready qa_round_entries check_members
    check_disjoint check_withdrawals check_admitted check_needs check_prerequisites classify
    prior_prerequisites revise_units retain_units add_units standing_units insert_sorted leq_codes
committed = refl

declare_refines_example :
    (version_of
        (project
          (store.entries (declare_plan quoted store (opened []) "j" "s" "v1" "" units [] []).1))
        "s"
      ≡ "v1")
    × ((w : String)
        → unit_view
            (project
              (store.entries (declare_plan quoted store (opened []) "j" "s" "v1" "" units [] []).1))
            "s"
            w
          ≡ withdraw_all [] w (plan_all units w (unit_view (project []) "s" w)))
declare_refines_example =
    declare_refines quoted store (opened []) "j" "s" "v1" "" units [] [] committed

-- Unit "u" stands in version "v1"; a revision names another base.
abbrev standing_log : List Entry
standing_log = record planned { plan_version = "v1"; contract = "c" } ∷ []

stale :
    (declare_plan quoted store (opened standing_log) "j" "s" "v3" "v2" units [] []).0
    ≡ turn_down PlanFault.stale_base
unfolding accepts activity_kind advance author_of budgeted budgets_of declare_round end_activity
    execution_kind find find_unit flight_of fold fold_activity fold_execution fold_result fold_unit
    fold_work insert lookup map_values next_unit project project_from same_node_kind
    settle_executions size unit_key append_batch encode_all validate validate_author
    validate_execution validate_identity validate_kind validate_kind_fields validate_node_kind
    validate_outcome_shape validate_subject same_author is_activity_finished is_activity_started
    declare_plan commit_plan revise revision_entries fault_text valid_plan plan_graph index_units
    link_units link_needs acyclic ready_units release settle_ready qa_round_entries check_members
    check_disjoint check_withdrawals check_admitted check_needs check_prerequisites classify
    prior_prerequisites revise_units retain_units add_units standing_units insert_sorted leq_codes
stale = refl

stale_refused :
    (declare_plan quoted store (opened standing_log) "j" "s" "v3" "v2" units [] []).0
    ≢ declared_plan
stale_refused h = cc (ap (λ (r : PlanReport). r.refusal) (sym stale ∙ h))

declare_atomic_example :
    ((project (
        store.entries
          (declare_plan quoted store (opened standing_log) "j" "s" "v3" "v2" units [] []).1)).units
      ≡ (project standing_log).units)
    × ((s : String)
        → budgets_of
            (project (
              store.entries
                (declare_plan quoted store (opened standing_log) "j" "s" "v3" "v2" units [] []).1))
            s
          ≡ budgets_of (project standing_log) s)
declare_atomic_example =
    declare_atomic quoted store (opened standing_log) "j" "s" "v3" "v2" units [] [] stale_refused

flying_fixed : is_free (unit_view (project (admitted ∷ [])) "s" "u").state ≡ false
unfolding accepts activity_kind advance author_of budgeted budgets_of declare_round end_activity
    execution_kind find find_unit flight_of fold fold_activity fold_execution fold_result fold_unit
    fold_work insert lookup map_values next_unit project project_from same_node_kind
    settle_executions size unit_key unit_view charge qa_round_for
flying_fixed = refl

declare_frozen_example :
    unit_view
      (project (
        store.entries
          (declare_plan quoted store (opened (admitted ∷ [])) "j" "s" "v1" "" units [] []).1))
      "s"
      "u"
    ≡ unit_view (project (admitted ∷ [])) "s" "u"
declare_frozen_example =
    declare_frozen quoted store (opened (admitted ∷ [])) "j" "s" "v1" "" units [] [] "u"
      flying_fixed

-- One revision that declares the same unit twice is taken.
duplicate_adds :
    (declare_plan quoted store
      (opened standing_log)
      "j"
      "s"
      "v2"
      "v1"
      (first_unit ∷ record first_unit { contract = "other" } ∷ [])
      []
      []).0
    ≡ declared_plan
unfolding accepts activity_kind advance author_of budgeted budgets_of declare_round end_activity
    execution_kind find find_unit flight_of fold fold_activity fold_execution fold_result fold_unit
    fold_work insert lookup map_values next_unit project project_from same_node_kind
    settle_executions size unit_key append_batch encode_all validate validate_author
    validate_execution validate_identity validate_kind validate_kind_fields validate_node_kind
    validate_outcome_shape validate_subject same_author is_activity_finished is_activity_started
    declare_plan commit_plan revise revision_entries fault_text valid_plan plan_graph index_units
    link_units link_needs acyclic ready_units release settle_ready qa_round_entries check_members
    check_disjoint check_withdrawals check_admitted check_needs check_prerequisites classify
    prior_prerequisites revise_units retain_units add_units standing_units insert_sorted leq_codes
duplicate_adds = refl
