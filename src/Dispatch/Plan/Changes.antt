-- ===== src/Dispatch/Plan/Changes.antt =====
-- What Revise of takt/dispatch/plan.go checks and records: the plan that stands, the resulting plan, and
-- the label of the difference.
use takt_ai.Base.{
  String, Bool, false, not, ◌&&◌, ◌||◌, Option, none, some, List, [], ◌∷◌, ◌++◌, map, ◌==◌,
  if◌then◌else◌, any, contains, equal,
}
use takt_ai.Base.Dict.{Dict, is_some, get_or, lookup, insert}
use takt_ai.Base.Text.{leq_codes, codes}
use takt_ai.History.Kinds.{Author, Kind, is_state_planned, is_state_in_flight, is_state_settled}
use takt_ai.History.Entry.{
  QaRound, Entry, blank, first_attempt, cause_none, cause_uncaptured, tactical, strategic,
}
use takt_ai.History.Projection.{WorkUnit, Projection, no_unit, find_unit, budgets_of}
use takt_ai.Dispatch.Plan.Graph.{ok, fault, PlanUnit, PlanFault, Checked, ◌>>=◌, valid_plan}
use takt_ai.Dispatch.Plan.Members.{unless_fault, planned_entry, qa_round_entries}

unfoldable pub insert_sorted : PlanUnit → List PlanUnit → List PlanUnit
unfolding leq_codes
insert_sorted u [] = u ∷ []
insert_sorted u (v ∷ vs) =
    let rest = insert_sorted u vs in
    if leq_codes (codes u.work_unit) (codes v.work_unit) then u ∷ v ∷ vs else v ∷ rest

abbrev pub stands : String → WorkUnit → Bool
stands session u =
    u.session == session
    && not (u.contract == "")
    && (is_state_planned u.state || is_state_in_flight u.state)

-- currentPlan
unfoldable pub standing_units : String → Dict WorkUnit → List PlanUnit
unfolding insert_sorted
standing_units session [] = []
standing_units session ((k, u) ∷ m) =
    let rest = standing_units session m in
    if stands session u
    then insert_sorted
        (record { work_unit = u.work_unit; contract = u.contract; prerequisites = u.prerequisites })
        rest
    else rest

abbrev pub current_plan : Projection → String → List PlanUnit
current_plan p session = standing_units session p.units

-- The map `byID` and the slice `order` of reviseUnits.
pub record Draft : Type 0 where
  pub by_id : Dict PlanUnit
  pub order : List String

abbrev pub no_plan_unit : PlanUnit
no_plan_unit = record { work_unit = ""; contract = ""; prerequisites = [] }

unfoldable pub retain_units : List String → List PlanUnit → Draft → Draft
retain_units withdrawals [] d = d
retain_units withdrawals (u ∷ us) d = retain_units withdrawals us (
    if contains withdrawals u.work_unit
    then d
    else record { by_id = insert u.work_unit u d.by_id; order = d.order ++ u.work_unit ∷ [] })

unfoldable pub add_units : List PlanUnit → Draft → Draft
add_units [] d = d
add_units (u ∷ us) d = add_units us (record {
  by_id = insert u.work_unit u d.by_id;
  order = if is_some (lookup u.work_unit d.by_id) then d.order else d.order ++ u.work_unit ∷ [];
})

-- reviseUnits
unfoldable pub revise_units : List PlanUnit → List PlanUnit → List String → List PlanUnit
unfolding retain_units add_units
revise_units current adds withdrawals =
    let d = add_units adds (retain_units withdrawals current (record { by_id = []; order = [] })) in
    map (λ id. get_or no_plan_unit (lookup id d.by_id)) d.order

-- checkWithdrawalsPlanned
unfoldable pub check_withdrawals : Projection → String → List String → Option PlanFault
check_withdrawals p session [] = none
check_withdrawals p session (w ∷ ws) =
    let rest = check_withdrawals p session ws in
    if is_state_planned (get_or no_unit (find_unit p session w)).state
    then rest
    else some (PlanFault.not_planned w)

abbrev pub alters : PlanUnit → Option WorkUnit → Bool
alters u none = false
alters u (some w) =
    not (is_state_planned w.state)
    && (not (w.contract == u.contract) || not (equal w.prerequisites u.prerequisites))

-- checkAdmittedUnchanged
unfoldable pub check_admitted : Projection → String → List PlanUnit → Option PlanFault
check_admitted p session [] = none
check_admitted p session (u ∷ us) =
    let rest = check_admitted p session us in
    if alters u (find_unit p session u.work_unit) then some (PlanFault.frozen u.work_unit) else rest

-- The inner loop of checkAddedPrerequisitesSettled.
unfoldable pub check_needs :
    Projection → String → List PlanUnit → String → List String → Option PlanFault
check_needs p session resulting unit [] = none
check_needs p session resulting unit (need ∷ needs) =
    let rest = check_needs p session resulting unit needs in
    if not (any (λ (u : PlanUnit). u.work_unit == need) resulting)
      && not (is_state_settled (get_or no_unit (find_unit p session need)).state)
    then some (PlanFault.unsettled_need unit need)
    else rest

-- checkAddedPrerequisitesSettled
unfoldable pub check_prerequisites :
    Projection → String → List PlanUnit → List PlanUnit → Option PlanFault
unfolding check_needs
check_prerequisites p session resulting [] = none
check_prerequisites p session resulting (u ∷ us) =
    let rest = check_prerequisites p session resulting us in
    elim (check_needs p session resulting u.work_unit u.prerequisites) [
      | some e ↦ some e
      | none ↦ rest
    ]

-- The loop of Revise over `adds`.
unfoldable pub check_disjoint : List PlanUnit → List String → Option PlanFault
check_disjoint [] withdrawals = none
check_disjoint (u ∷ us) withdrawals =
    let rest = check_disjoint us withdrawals in
    if contains withdrawals u.work_unit
    then some (PlanFault.added_and_withdrawn u.work_unit)
    else rest

unfoldable pub prior_prerequisites : List PlanUnit → Dict (List String)
prior_prerequisites [] = []
prior_prerequisites (u ∷ us) = insert u.work_unit u.prerequisites (prior_prerequisites us)

abbrev pub changed : Option (List String) → List String → Bool
changed none now = false
changed (some prev) now = not (equal prev now)

-- classify
unfoldable pub classify : List PlanUnit → List PlanUnit → String
unfolding prior_prerequisites
classify current resulting =
    if any
      (λ (u : PlanUnit). changed (lookup u.work_unit (prior_prerequisites current)) u.prerequisites)
      resulting
    then strategic
    else tactical

abbrev pub revised_entry : String → String → String → String → String → Entry
revised_entry ref session base version classification =
    record (blank Author.orchestrator Kind.revised) {
      session = session;
      work_unit = session;
      attempt = first_attempt;
      cause = cause_none;
      journal_ref = ref;
      base_version = base;
      plan_version = version;
      classification = classification;
    }

abbrev pub withdrawn_entry : String → String → String → Entry
withdrawn_entry ref session w = record (blank Author.orchestrator Kind.withdrawn) {
  session = session;
  work_unit = w;
  attempt = first_attempt;
  cause = cause_uncaptured;
  journal_ref = ref;
}

-- The entries of a valid revision after those of its round.
abbrev pub effects :
    String → String → String → String → String → List PlanUnit → List String → List Entry
effects ref session base version classification adds withdrawals =
    revised_entry ref session base version classification
    ∷ (map (planned_entry ref session version) adds
        ++ map (withdrawn_entry ref session) withdrawals)

-- The checks of Revise in their order, and the batch where all of them pass.
unfoldable pub revision_entries :
    Projection
    → String
    → String
    → String
    → String
    → List PlanUnit
    → List String
    → List (Option QaRound)
    → Checked (List Entry)
unfolding check_disjoint revise_units valid_plan check_withdrawals check_admitted
    check_prerequisites qa_round_entries classify
revision_entries p ref session base version adds withdrawals rounds =
    let current = current_plan p session in
    let resulting = revise_units current adds withdrawals in
    let body = unless_fault (check_disjoint adds withdrawals) (
      unless_fault (valid_plan p session resulting) (
        unless_fault (check_withdrawals p session withdrawals) (
          unless_fault (check_admitted p session adds) (
            unless_fault (check_prerequisites p session resulting adds) (
              qa_round_entries p ref session version resulting rounds >>= λ es. ok (
                es
                ++ effects ref session base version (classify current resulting) adds
                    withdrawals)))))) in
    if (budgets_of p session).plan_version == base then body else fault PlanFault.stale_base
