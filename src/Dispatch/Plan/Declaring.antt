-- ===== src/Dispatch/Plan/Declaring.antt =====
-- Commit, Declare and Revise of takt/dispatch/plan.go, over the store. A plan fault stands for the error
-- text that `fault_text` gives it; `quote` is the `%q` of package fmt.
use takt_ai.Base.{
  String, not, ◌||◌, Option, none, some, List, [], ◌∷◌, ◌++◌, map, eqb, ◌==◌, if◌then◌else◌, length,
}
use takt_ai.Base.Text.{◌<>◌}
use takt_ai.History.Kinds.{Author, Kind}
use takt_ai.History.Entry.{QaRound, Entry, blank, first_attempt, cause_uncaptured}
use takt_ai.History.Projection.{budgets_of}
use takt_ai.History.Fold.{project}
use takt_ai.History.Log.{AppendError}
use takt_ai.History.Log.Interface.{Log}
use takt_ai.Dispatch.Plan.Graph.{ok, fault, PlanUnit, PlanFault, Checked, valid_plan}
use takt_ai.Dispatch.Plan.Members.{unless_fault, planned_entry, qa_round_entries}
use takt_ai.Dispatch.Plan.Changes.{revision_entries}

-- `errors.Join` of the append's error and the call's own.
pub record PlanReport : Type 0 where
  pub append : Option AppendError
  pub refusal : Option PlanFault

abbrev pub declared_plan : PlanReport
declared_plan = record { append = none; refusal = none }

abbrev pub turn_down : PlanFault → PlanReport
turn_down e = record { append = none; refusal = some e }

-- The error text of each refusal.
unfoldable pub fault_text : (String → String) → PlanFault → String
fault_text quote PlanFault.no_baseline =
    "dispatch: a commitment records an identified baseline version and its work"
fault_text quote PlanFault.no_standing_plan =
    "dispatch: no plan stands in this session yet; commit one before revising it"
fault_text quote PlanFault.unidentified_revision =
    "dispatch: a revision identifies its session, expected base version and new version"
fault_text quote PlanFault.cyclic = "dispatch: committed prerequisites form a cycle"
fault_text quote PlanFault.unnamed_unit =
    "dispatch: every committed unit needs an identity and a contract"
fault_text quote (PlanFault.base_needed v) =
    "dispatch: plan version " <> (v <> " already stands; name it as the base version to revise it")
fault_text quote (PlanFault.duplicate u) = "dispatch: duplicate identity in commitment: " <> u
fault_text quote (PlanFault.unknown_prerequisite u) =
    "dispatch: unknown prerequisite identity: " <> u
fault_text quote PlanFault.stale_base = "dispatch: revision declares a stale base version"
fault_text quote (PlanFault.added_and_withdrawn u) =
    "dispatch: " <> (u <> " is both added and withdrawn in one revision")
fault_text quote (PlanFault.not_planned u) =
    "dispatch: " <> (u <> " is not planned; only still-planned work may be withdrawn")
fault_text quote (PlanFault.frozen u) =
    "dispatch: "
    <> (u
        <> " is no longer planned; its contract and prerequisites cannot change; omit it from the revision")
fault_text quote (PlanFault.unsettled_need u need) =
    "dispatch: "
    <> (u
        <> (" depends on "
            <> (need
                <> ", which is withdrawn or not settled; a new declaration depends only on planned or settled work")))
fault_text quote PlanFault.many_rounds = "dispatch: declare at most one qa_round per plan version"
fault_text quote PlanFault.empty_round =
    "dispatch: qa_round requires a stable acceptance objective and authoring units"
fault_text quote PlanFault.round_declared =
    "dispatch: this plan version already declares a QA round; its membership is immutable; use a new version for a new round"
fault_text quote PlanFault.blank_round_unit =
    "dispatch: qa_round units must be distinct and nonempty"
fault_text quote (PlanFault.round_unit_absent u) =
    "dispatch: qa_round unit "
    <> (quote u <> " is absent from the resulting plan; declare its contract with dispatch_commit")
fault_text quote (PlanFault.round_unit_admitted u) =
    "dispatch: qa_round unit "
    <> (quote u
        <> " has already been admitted or withdrawn; declare new authoring units before delegation")
fault_text quote (PlanFault.round_unit_taken u r) =
    "dispatch: qa_round unit "
    <> (quote u <> (" already belongs to round " <> (r <> "; membership is immutable")))

abbrev pub rejection : String → String → String → String → String → Entry
rejection ref session base version reason =
    record (blank Author.orchestrator Kind.invalid_revision) {
      session = session;
      work_unit = session;
      attempt = first_attempt;
      cause = cause_uncaptured;
      journal_ref = ref;
      base_version = base;
      plan_version = version;
      reason = reason;
    }

module _ (quote : String → String) (l : Log) where
  open l use {Handle, entries, append_batch}

  abbrev pub report_batch : Option PlanFault → Option AppendError × Handle → PlanReport × Handle
  report_batch r (x, h) = (record { append = x; refusal = r }, h)

  -- The end of Commit, from its checks on.
  abbrev pub record_commitment :
      Handle → String → String → String → List PlanUnit → Checked (List Entry) → PlanReport × Handle
  record_commitment h ref session version units (fault e) = (turn_down e, h)
  record_commitment h ref session version units (ok es) =
      report_batch none (append_batch h (es ++ map (planned_entry ref session version) units))

  -- Commit
  unfoldable pub commit_plan :
      Handle
      → String
      → String
      → String
      → List PlanUnit
      → List (Option QaRound)
      → PlanReport × Handle
  unfolding valid_plan qa_round_entries
  commit_plan h ref session version units rounds =
      let p = project (entries h) in
      if session == "" || version == "" || eqb (length units) 0
      then (turn_down PlanFault.no_baseline, h)
      else record_commitment h ref session version units (
          unless_fault (valid_plan p session units)
            (qa_round_entries p ref session version units rounds))

  -- invalidRevision
  abbrev pub reject_revision :
      Handle → String → String → String → String → PlanFault → PlanReport × Handle
  reject_revision h ref session base version e =
      report_batch (some e)
        (append_batch h (rejection ref session base version (fault_text quote e) ∷ []))

  -- The end of Revise, from its checks on.
  abbrev pub record_revision :
      Handle → String → String → String → String → Checked (List Entry) → PlanReport × Handle
  record_revision h ref session base version (fault e) =
      reject_revision h ref session base version e
  record_revision h ref session base version (ok es) = report_batch none (append_batch h es)

  -- Revise
  unfoldable pub revise :
      Handle
      → String
      → String
      → String
      → String
      → List PlanUnit
      → List String
      → List (Option QaRound)
      → PlanReport × Handle
  unfolding revision_entries fault_text
  revise h ref session base version adds withdrawals rounds =
      if session == "" || base == "" || version == ""
      then (turn_down PlanFault.unidentified_revision, h)
      else record_revision h ref session base version
          (revision_entries (project (entries h)) ref session base version adds withdrawals rounds)

  -- Declare
  unfoldable pub declare_plan :
      Handle
      → String
      → String
      → String
      → String
      → List PlanUnit
      → List String
      → List (Option QaRound)
      → PlanReport × Handle
  unfolding commit_plan revise
  declare_plan h ref session version base units withdrawals rounds =
      let standing = (budgets_of (project (entries h)) session).plan_version in
      if standing == ""
      then (if not (base == "") || not (eqb (length withdrawals) 0)
          then (turn_down PlanFault.no_standing_plan, h)
          else commit_plan h ref session version units rounds)
      else if base == ""
      then (turn_down (PlanFault.base_needed standing), h)
      else revise h ref session base version units withdrawals rounds
