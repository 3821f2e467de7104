-- ===== src/Dispatch/Interlocutor.antt =====
-- takt/dispatch/interlocutor.go: the turns of the user's interface, with HoldsInterface of
-- takt/model/role.go; Index is the memory index of a lent session and Envelopes what the turns return.
-- The catalog that LoadNativeContent reads and the session index that loadSessionIndex reads are
-- arguments, `none` where the read fails; `delivered` is the answer of ValidateSessionResultIDs.
pub mod Index
pub mod Envelopes
pub mod Turns
pub mod Paging
use takt_ai.Base.{
  ℕ, ◌-◌, ◌/◌, String, Bool, true, false, not, ◌&&◌, Option, none, some, [], ◌∷◌, ◌==◌,
  if◌then◌else◌,
}
use takt_ai.Base.Dict.{Dict, lookup}
use takt_ai.History.Kinds.{Author, Kind}
use takt_ai.History.Entry.{Entry, blank, first_attempt, cause_uncaptured}
use takt_ai.History.Projection.{Budgets, budgets_of}
use takt_ai.History.Fold.{project}
use takt_ai.History.Log.Interface.{Log}
use takt_ai.History.Log.{AppendError}

pub data RoleClass : Type 0 where
  orchestrator direct_interlocutor planning_author execution : RoleClass
  verification quality_assurance maintenance : RoleClass
  other : String → RoleClass

-- RoleClass.HoldsInterface
unfoldable pub holds_interface : RoleClass → Bool
holds_interface RoleClass.direct_interlocutor = true
holds_interface _ = false

-- interlocutorRole
unfoldable pub interlocutor_role : Option (Dict RoleClass) → String → Option RoleClass
interlocutor_role none agent = none
interlocutor_role (some crew) agent = lookup agent crew

abbrev pub may_hold : Option RoleClass → Bool
may_hold none = false
may_hold (some r) = holds_interface r

-- The errors of the file, one constructor for each refusal.
pub data TurnFault : Type 0 where
  role_ineligible : String → TurnFault
  already_held : String → String → TurnFault
  not_holder nothing_to_abort : TurnFault
  invalid_origin : String → TurnFault
  other_holder : String → TurnFault
  never_lent : String → String → TurnFault
  unknown_entry : ℕ → TurnFault
  no_policy no_index undelivered : TurnFault

pub record TurnReport : Type 0 where
  pub append : Option AppendError
  pub refusal : Option TurnFault

abbrev pub turn_done : TurnReport
turn_done = record { append = none; refusal = none }

abbrev pub turn_refused : TurnFault → TurnReport
turn_refused r = record { append = none; refusal = some r }

abbrev pub cause_role : String
cause_role = "interlocutor/role-ineligible"

abbrev pub cause_held : String
cause_held = "interlocutor/already-held"

abbrev pub cause_origin : String
cause_origin = "interlocutor/origin-invalid"

abbrev pub cause_holder : String
cause_holder = "interlocutor/not-current-holder"

abbrev pub refuse_turn : Entry → String → TurnFault → Entry × Option TurnFault
refuse_turn e cause r =
    (record e { author = Author.harness; kind = Kind.denied; cause = cause }, some r)

abbrev pub turn_entry : Author → Kind → String → String → String → Entry
turn_entry a k journal_ref root child = record (blank a k) {
  session = root;
  work_unit = child;
  attempt = first_attempt;
  cause = cause_uncaptured;
  journal_ref = journal_ref;
}

-- The `switch` of Switch.
unfoldable pub switch_decision :
    Option (Dict RoleClass)
    → Budgets
    → String
    → String
    → String
    → String
    → String
    → Entry × Option TurnFault
unfolding interlocutor_role holds_interface
switch_decision crew b journal_ref root child agent artifact =
    let entry =
      record (turn_entry Author.orchestrator Kind.interlocutor_switched journal_ref root child) {
        agent = agent;
        artifact = artifact;
      } in
    if not (may_hold (interlocutor_role crew agent))
    then refuse_turn entry cause_role (TurnFault.role_ineligible agent)
    else if not (b.holder == "")
    then refuse_turn entry cause_held (TurnFault.already_held b.holder_agent b.holder)
    else (entry, none)

-- The test of Handoff.
unfoldable pub handoff_decision :
    Budgets → String → String → String → String → Entry × Option TurnFault
handoff_decision b journal_ref root caller result =
    let entry =
      record (turn_entry Author.orchestrator Kind.interlocutor_handoff journal_ref root caller) {
        result = result;
      } in
    if not (caller == b.holder)
    then refuse_turn entry cause_holder TurnFault.not_holder
    else (entry, none)

-- The session that Abort ends: an empty one stands for the current holder.
abbrev pub aborted_session : Budgets → String → String
aborted_session b child = if child == "" then b.holder else child

-- The `switch` of Abort.
unfoldable pub abort_decision :
    Budgets → String → String → String → String → Entry × Option TurnFault
abort_decision b journal_ref root child origin =
    let ended = aborted_session b child in
    let entry =
      record (turn_entry Author.harness Kind.interlocutor_aborted journal_ref root ended) {
        result = "Aborted";
      } in
    if not (origin == "user") && not (origin == "harness")
    then refuse_turn entry cause_origin (TurnFault.invalid_origin origin)
    else if b.holder == ""
    then refuse_turn entry cause_holder TurnFault.nothing_to_abort
    else if not (b.holder == ended)
    then refuse_turn entry cause_holder (TurnFault.other_holder ended)
    else (entry, none)

module _ (l : Log) where
  open l use {Handle, entries, append_batch}

  abbrev pub end_turn : Handle → Entry × Option TurnFault → TurnReport × Handle
  end_turn h (e, r) =
      let done = append_batch h (e ∷ []) in (record { append = done.0; refusal = r }, done.1)

  -- Switch
  unfoldable pub switch :
      Handle
      → Option (Dict RoleClass)
      → String
      → String
      → String
      → String
      → String
      → TurnReport × Handle
  unfolding switch_decision
  switch h crew journal_ref root child agent artifact = end_turn h (
      switch_decision crew (budgets_of (project (entries h)) root) journal_ref root child agent
        artifact)

  -- Handoff
  unfoldable pub hand_off : Handle → String → String → String → String → TurnReport × Handle
  unfolding handoff_decision
  hand_off h journal_ref root caller result =
      end_turn h
        (handoff_decision (budgets_of (project (entries h)) root) journal_ref root caller result)

  -- Abort
  unfoldable pub abort : Handle → String → String → String → String → TurnReport × Handle
  unfolding abort_decision
  abort h journal_ref root child origin =
      end_turn h
        (abort_decision (budgets_of (project (entries h)) root) journal_ref root child origin)

  -- CurrentHolder
  abbrev pub current_holder : Handle → String → String
  current_holder h root = (budgets_of (project (entries h)) root).holder
