-- ===== src/Dispatch/Recovery.antt =====
-- takt/dispatch/recovery.go: declared recoveries, their closing, and the accounting of their actions.
-- A declared number that is not positive stands for 0, and a position of the bus is a ℤ, -1 for none.
pub mod Accounting
pub mod Exhaustion
pub mod Granting
pub mod Loop
use takt_ai.Base.Words.{raised}
use takt_ai.Base.{
  ℕ, ◌+◌, ◌/◌, ◌<◌, String, Bool, true, not, ◌&&◌, ◌||◌, Option, none, some, List, [], ◌∷◌, ltb,
  leb, eqb, ◌==◌, if◌then◌else◌, length, any, contains,
}
use takt_ai.Base.Dict.{Dict, is_some, get_or, insert, size}
use takt_ai.Base.Text.{pos, negsuc, ℤ, lt_ℤ, ◌<>◌, itoa}
use takt_ai.History.Kinds.{Author, Kind, Outcome, is_state_in_flight}
use takt_ai.History.Entry.{Entry, blank, first_attempt, cause_uncaptured}
use takt_ai.History.Projection.{
  Recovery, Budgets, Projection, no_unit, no_recovery, find_unit, budgets_of, recovery_of, scope_of,
  allowance_key, allowance_of,
}
use takt_ai.History.Fold.{project, bound_recovery_actions, bound_recovery_attempts}
use takt_ai.History.Log.Interface.{Log}
use takt_ai.Dispatch.Policy.{
  AdmissionPolicy, bound_recovery, cause_incomplete, cause_recovery_overlap, admission_policy_ref,
  Refusal, Report, succeeded, refuse, append_with,
}

pub record RecoveryDeclaration : Type 0 where
  pub objective : String
  pub result : String
  pub scope : List String
  pub actions : ℕ
  pub attempts : ℕ

-- What the accounting reads of an entry of the workspace journal.
pub record JournalEntry : Type 0 where
  pub seq : ℕ
  pub call_id : String
  pub session : String
  pub work_unit : String

-- scopeOwner
unfoldable pub scope_owner : Budgets → List String → String × Recovery
scope_owner b [] = ("", no_recovery)
scope_owner b (u ∷ us) =
    let rest = scope_owner b us in if (scope_of b u).0 == "" then rest else scope_of b u

abbrev pub is_incomplete : RecoveryDeclaration → Bool
is_incomplete d =
    d.objective == ""
    || d.result == ""
    || eqb (length d.scope) 0
    || eqb d.actions 0
    || eqb d.attempts 0

abbrev pub declaration_entry : String → String → String → RecoveryDeclaration → Entry
declaration_entry journal_ref event session d =
    record (blank Author.orchestrator Kind.recovery_declared) {
      session = session;
      work_unit = event;
      attempt = first_attempt;
      cause = cause_uncaptured;
      journal_ref = journal_ref;
      policy_ref = admission_policy_ref;
      objective = d.objective;
      result = d.result;
      scope = d.scope;
      actions = d.actions;
      attempts = d.attempts;
    }

abbrev pub deny_declaration : Entry → String → Refusal → Entry × Option Refusal
deny_declaration e cause r =
    (record e { author = Author.harness; kind = Kind.denied; cause = cause }, some r)

-- The `switch` of DeclareRecovery.
unfoldable pub declaration_decision :
    Budgets → AdmissionPolicy → Entry → RecoveryDeclaration → Entry × Option Refusal
unfolding scope_owner
declaration_decision b policy entry d =
    let allowed =
      raised policy.recovery_failures (allowance_of b (allowance_key bound_recovery d.objective)) in
    if is_incomplete d
    then deny_declaration entry cause_incomplete Refusal.incomplete_declaration
    else if ltb policy.max_actions d.actions
    then deny_declaration entry bound_recovery_actions Refusal.above_ceiling
    else if ltb policy.max_attempts d.attempts
    then deny_declaration entry bound_recovery_attempts Refusal.above_ceiling
    else if not ((scope_owner b d.scope).0 == "")
    then deny_declaration entry cause_recovery_overlap Refusal.scope_overlap
    else if leb allowed (recovery_of b d.objective).failures
    then deny_declaration entry bound_recovery Refusal.failures_spent
    else (entry, none)

-- journalPosition
unfoldable pub journal_position : ℤ → String
journal_position (pos n) = "journal/" <> itoa (pos n)
journal_position (negsuc n) = ""

abbrev pub counts_for : String → Recovery → JournalEntry → Bool
counts_for session r e =
    lt_ℤ r.cursor (pos e.seq)
    && (not (e.call_id == "") && (e.session == session && contains r.scope e.work_unit))

-- The loop of scopeActions, with the calls so far.
unfoldable pub collect_calls : String → Recovery → Dict Bool → List JournalEntry → Dict Bool
collect_calls session r calls [] = calls
collect_calls session r calls (e ∷ es) =
    collect_calls session r
      (if counts_for session r e
        then insert (e.session <> ("/" <> e.call_id)) true calls
        else calls)
      es

-- scopeActions
unfoldable pub scope_actions : List JournalEntry → String → Recovery → ℕ
unfolding collect_calls
scope_actions es session r = size (collect_calls session r [] es)

-- The entry of recordActions.
unfoldable pub actions_entry : String → String → Recovery → Kind → ℕ → ℤ → Entry
unfolding journal_position
actions_entry session objective r k n head = record (blank Author.harness k) {
  session = session;
  work_unit = r.work_unit;
  attempt = first_attempt;
  cause = cause_uncaptured;
  journal_ref = journal_position head;
  policy_ref = admission_policy_ref;
  objective = objective;
  actions = n;
}

abbrev pub unit_flies : Projection → String → String → Bool
unit_flies p session unit = is_state_in_flight (get_or no_unit (find_unit p session unit)).state

-- The cause for which forceBacktrackIfExhausted abandons a scope, or none.
unfoldable pub exhaustion : String → Recovery → Budgets → String → Projection → Option String
exhaustion session r b objective p =
    let actions =
      raised r.actions (allowance_of b (allowance_key bound_recovery_actions objective)) in
    let attempts =
      raised r.attempts (allowance_of b (allowance_key bound_recovery_attempts objective)) in
    let flies = any (unit_flies p session) r.scope in
    if leb actions r.used
    then some bound_recovery_actions
    else if leb attempts (size (get_or [] r.attempted)) && not flies
    then some bound_recovery_attempts
    else none

abbrev pub backtrack_entry : String → String → Recovery → String → ℤ → Entry
backtrack_entry session objective r cause head =
    record (blank Author.harness Kind.recovery_closed) {
      session = session;
      work_unit = r.work_unit;
      attempt = first_attempt;
      cause = cause;
      journal_ref = journal_position head;
      policy_ref = admission_policy_ref;
      objective = objective;
      outcome = Outcome.backtracked;
      scope = r.scope;
    }

-- The entry of CloseRecovery.
abbrev pub closing_entry : String → String → String → String → String → Bool → Entry
closing_entry journal_ref event session objective evidence demonstrated =
    record (blank Author.harness Kind.recovery_closed) {
      session = session;
      work_unit = event;
      attempt = first_attempt;
      cause = cause_uncaptured;
      journal_ref = journal_ref;
      policy_ref = admission_policy_ref;
      objective = objective;
      outcome = if demonstrated then Outcome.completed else Outcome.failed;
      evidence = evidence;
    }

module _ (l : Log) where
  open l use {Handle, entries, append_batch}

  -- DeclareRecovery
  unfoldable pub declare_recovery :
      Handle → AdmissionPolicy → String → String → String → RecoveryDeclaration → Report × Handle
  unfolding declaration_decision
  declare_recovery h policy journal_ref event session d =
      let b = budgets_of (project (entries h)) session in
      let decision =
        declaration_decision b policy (declaration_entry journal_ref event session d) d in
      if (recovery_of b d.objective).is_open
      then (succeeded, h)
      else append_with l h decision.0 decision.1

  -- CloseRecovery
  unfoldable pub close_recovery :
      Handle → String → String → String → String → String → Bool → Report × Handle
  close_recovery h journal_ref event session objective evidence demonstrated =
      let r = recovery_of (budgets_of (project (entries h)) session) objective in
      if not r.is_open
      then (
        refuse (
            if r.backtracked && not r.restored
            then Refusal.abandoned_not_open
            else Refusal.not_open),
        h,
      )
      else if demonstrated && evidence == ""
      then (refuse Refusal.no_evidence, h)
      else append_with l h (closing_entry journal_ref event session objective evidence demonstrated)
          none

  -- recordActions
  unfoldable pub record_actions :
      Handle → String → String → Recovery → Kind → ℕ → ℤ → Report × Handle
  unfolding actions_entry
  record_actions h session objective r k n head =
      append_with l h (actions_entry session objective r k n head) none

  -- The end of forceBacktrackIfExhausted: a scope without a cause to abandon it is left alone.
  unfoldable pub backtrack_for :
      Handle → String → String → Recovery → ℤ → Option String → Report × Handle
  backtrack_for h session objective r head none = (succeeded, h)
  backtrack_for h session objective r head (some cause) =
      append_with l h (backtrack_entry session objective r cause head) none

  -- forceBacktrackIfExhausted
  unfoldable pub force_backtrack :
      Handle → String → String → Recovery → Budgets → Projection → ℤ → Report × Handle
  unfolding exhaustion backtrack_for
  force_backtrack h session objective r b p head =
      backtrack_for h session objective r head (exhaustion session r b objective p)

  -- accountRecovery: an append that fails ends it.
  unfoldable pub account_recovery :
      Handle
      → List JournalEntry
      → String
      → String
      → Recovery
      → Budgets
      → Projection
      → ℤ
      → Report × Handle
  unfolding scope_actions record_actions force_backtrack
  account_recovery h es session objective r b p head =
      let n = scope_actions es session r in
      let recorded =
        record_actions h session objective (record r { used = r.used + n }) Kind.actions n head in
      if lt_ℤ head r.cursor
      then record_actions h session objective r Kind.actions_uncertain 0 head
      else if eqb n 0
      then force_backtrack h session objective r b p head
      else if is_some recorded.0.append
      then recorded
      else force_backtrack recorded.1 session objective (record r { used = r.used + n }) b p head
