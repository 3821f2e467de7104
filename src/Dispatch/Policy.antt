-- ===== src/Dispatch/Policy.antt =====
-- `AdmissionPolicy` of takt/dispatch/policy.go, the causes of a denial, and what a call reports.
use takt_ai.Base.{ℕ, String, Option, none, some, [], ◌∷◌}
use takt_ai.History.Entry.{Entry}
use takt_ai.History.Log.{AppendError}
use takt_ai.History.Log.Interface.{Log}

-- The policy's fields, flattened; parseAdmissionPolicy has refused every one that is not positive.
pub record AdmissionPolicy : Type 0 where
  pub specialists : ℕ
  pub unplanned_units : ℕ
  pub contests : ℕ
  pub recovery_failures : ℕ
  pub max_file_lines : ℕ
  pub max_actions : ℕ
  pub max_attempts : ℕ
  pub memory_page : ℕ

abbrev pub bound_concurrency : String
bound_concurrency = "ceiling/concurrent-specialists"

abbrev pub bound_unplanned : String
bound_unplanned = "budget/unplanned-units"

abbrev pub bound_contests : String
bound_contests = "budget/contests"

abbrev pub bound_recovery : String
bound_recovery = "budget/recovery-failures"

abbrev pub bound_qa_rounds : String
bound_qa_rounds = "budget/qa-strengthening-rounds"

abbrev pub cause_repetition : String
cause_repetition = "control/unit-in-flight"

abbrev pub cause_withdrawn : String
cause_withdrawn = "control/unit-withdrawn"

abbrev pub cause_no_failure : String
cause_no_failure = "control/no-terminal-failure"

abbrev pub cause_incomplete : String
cause_incomplete = "declaration/recovery-incomplete"

abbrev pub cause_recovery_overlap : String
cause_recovery_overlap = "declaration/recovery-overlap"

abbrev pub admission_policy_ref : String
admission_policy_ref = "harness.admission"

-- The errors of the package, one constructor for each refusal.
pub data Refusal : Type 0 where
  identity_required : Refusal
  ceiling_reached already_in_flight unit_withdrawn unplanned_spent rounds_spent : Refusal
  recovery_abandoned recovery_unreconciled attempts_spent actions_spent : Refusal
  not_in_flight uncertain_launch nothing_uncertain not_planned : Refusal
  no_exception_objective wrong_exception_bound : Refusal
  no_terminal_failure contests_spent : Refusal
  incomplete_declaration above_ceiling scope_overlap failures_spent : Refusal
  not_open abandoned_not_open no_evidence : Refusal

-- `errors.Join` of the append's error and the call's own: the call succeeds when there is neither.
pub record Report : Type 0 where
  pub append : Option AppendError
  pub refusal : Option Refusal

abbrev pub succeeded : Report
succeeded = record { append = none; refusal = none }

abbrev pub refuse : Refusal → Report
refuse r = record { append = none; refusal = some r }

module _ (l : Log) where
  open l use {Handle, append_batch}

  abbrev pub reported : Option Refusal → Option AppendError × Handle → Report × Handle
  reported r (x, h) = (record { append = x; refusal = r }, h)

  -- `errors.Join(h.Append(entry), e)`
  abbrev pub append_with : Handle → Entry → Option Refusal → Report × Handle
  append_with h e r = reported r (append_batch h (e ∷ []))
