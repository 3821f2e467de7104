-- ===== src/Dispatch/Plan/Members.antt =====
-- qaRoundEntries of takt/dispatch/plan.go, and the entries of a plan commitment.
use takt_ai.Base.{
  String, not, ◌&&◌, ◌||◌, Option, none, some, List, [], ◌∷◌, eqb, ◌==◌, if◌then◌else◌, length, any,
  contains,
}
use takt_ai.Base.Dict.{is_some, get_or, lookup}
use takt_ai.Base.Text.{is_blank}
use takt_ai.History.Kinds.{Author, NodeKind, Kind, is_state_planned}
use takt_ai.History.Entry.{QaRound, Entry, blank, first_attempt, cause_none}
use takt_ai.History.Projection.{Projection, no_unit, find_unit, budgets_of, qa_round_for}
use takt_ai.Dispatch.Plan.Graph.{ok, fault, PlanUnit, PlanFault, Checked}

-- `if e != nil { return e }`
abbrev pub unless_fault {ℓ} : {A : Type ℓ} → Option PlanFault → Checked A → Checked A
unless_fault none r = r
unless_fault (some e) r = fault e

-- plannedEntry
abbrev pub planned_entry : String → String → String → PlanUnit → Entry
planned_entry ref session version u = record (blank Author.orchestrator Kind.planned) {
  session = session;
  work_unit = u.work_unit;
  node_kind = NodeKind.delegated;
  attempt = first_attempt;
  cause = cause_none;
  journal_ref = ref;
  plan_version = version;
  contract = u.contract;
  prerequisites = u.prerequisites;
}

-- The loop of qaRoundEntries over the round's units.
unfoldable pub check_members :
    Projection → String → List PlanUnit → List String → List String → Option PlanFault
check_members p session plan seen [] = none
check_members p session plan seen (id ∷ ids) =
    let rest = check_members p session plan (id ∷ seen) ids in
    let prior = (qa_round_for (budgets_of p session) id).0 in
    if is_blank id || contains seen id
    then some PlanFault.blank_round_unit
    else if not (any (λ (u : PlanUnit). u.work_unit == id) plan)
    then some (PlanFault.round_unit_absent id)
    else if is_some (find_unit p session id)
        && not (is_state_planned (get_or no_unit (find_unit p session id)).state)
    then some (PlanFault.round_unit_admitted id)
    else if not (prior == "")
    then some (PlanFault.round_unit_taken id prior)
    else rest

abbrev pub round_entry : String → String → String → QaRound → Entry
round_entry ref session version r = record (blank Author.orchestrator Kind.qa_round) {
  session = session;
  work_unit = session;
  attempt = first_attempt;
  cause = cause_none;
  journal_ref = ref;
  plan_version = version;
  qa_round = some r;
}

-- qaRoundEntries
unfoldable pub qa_round_entries :
    Projection
    → String
    → String
    → String
    → List PlanUnit
    → List (Option QaRound)
    → Checked (List Entry)
unfolding check_members
qa_round_entries p ref session version plan [] = ok []
qa_round_entries p ref session version plan (none ∷ []) = ok []
qa_round_entries p ref session version plan (some r ∷ []) =
    if is_blank r.objective || eqb (length r.units) 0
    then fault PlanFault.empty_round
    else if is_some (lookup version (budgets_of p session).qa_rounds)
    then fault PlanFault.round_declared
    else unless_fault (check_members p session plan [] r.units)
        (ok (round_entry ref session version r ∷ []))
qa_round_entries p ref session version plan (r ∷ s ∷ rounds) = fault PlanFault.many_rounds
