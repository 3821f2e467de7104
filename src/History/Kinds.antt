-- ===== src/History/Kinds.antt =====
-- The closed vocabularies of takt/history/history.go, projection.go and execution.go. Go keeps them
-- as strings: each type has the source's constants, the empty text where the source tests for it,
-- and one constructor for every other text.
use takt_ai.Base.{String, Bool, true, false, Option, none, some, ◌==◌}

pub data Author : Type 0 where
  orchestrator harness verification : Author
  other : String → Author

pub data NodeKind : Type 0 where
  unset delegated orchestrator maintenance : NodeKind
  other : String → NodeKind

pub data Kind : Type 0 where
  planned withdrawn admitted denied launched uncertain unmonitored suspended : Kind
  cancel_requested terminated contested recovery_declared recovery_closed actions : Kind
  actions_uncertain restored stopped escalated exception interlocutor_switched : Kind
  interlocutor_handoff interlocutor_aborted seat_restored revised qa_round : Kind
  invalid_revision activity_started activity_finished maintenance_started : Kind
  maintenance_finished result : Kind
  inputs execution child delivery lane_stopped lane prompt prepared : Kind
  execution_ended lease : Kind
  other : String → Kind

pub data State : Type 0 where
  unset planned in_flight settled withdrawn : State

pub data Flight : Type 0 where
  unset pending_launch running suspended cancelling uncertain unmonitored : Flight

pub data Outcome : Type 0 where
  unset completed failed backtracked interrupted : Outcome
  other : String → Outcome

pub data ResultStatus : Type 0 where
  unset verified failed blocked impossible unverified : ResultStatus
  other : String → ResultStatus

-- The single semantic author of each kind; a kind that the table lacks is unknown.
unfoldable pub author_of : Kind → Option Author
author_of Kind.inputs = some Author.orchestrator
author_of Kind.execution = some Author.harness
author_of Kind.prepared = some Author.harness
author_of Kind.child = some Author.harness
author_of Kind.delivery = some Author.harness
author_of Kind.lane = some Author.harness
author_of Kind.prompt = some Author.harness
author_of Kind.execution_ended = some Author.harness
author_of Kind.lease = some Author.harness
author_of Kind.seat_restored = some Author.orchestrator
author_of Kind.planned = some Author.orchestrator
author_of Kind.withdrawn = some Author.orchestrator
author_of Kind.cancel_requested = some Author.orchestrator
author_of Kind.contested = some Author.orchestrator
author_of Kind.recovery_declared = some Author.orchestrator
author_of Kind.stopped = some Author.orchestrator
author_of Kind.escalated = some Author.orchestrator
author_of Kind.interlocutor_switched = some Author.orchestrator
author_of Kind.interlocutor_handoff = some Author.orchestrator
author_of Kind.revised = some Author.orchestrator
author_of Kind.qa_round = some Author.orchestrator
author_of Kind.invalid_revision = some Author.orchestrator
author_of Kind.activity_started = some Author.orchestrator
author_of Kind.activity_finished = some Author.orchestrator
author_of Kind.admitted = some Author.harness
author_of Kind.denied = some Author.harness
author_of Kind.launched = some Author.harness
author_of Kind.uncertain = some Author.harness
author_of Kind.unmonitored = some Author.harness
author_of Kind.result = some Author.verification
author_of Kind.suspended = some Author.harness
author_of Kind.terminated = some Author.harness
author_of Kind.recovery_closed = some Author.harness
author_of Kind.exception = some Author.harness
author_of Kind.actions = some Author.harness
author_of Kind.actions_uncertain = some Author.harness
author_of Kind.restored = some Author.harness
author_of Kind.interlocutor_aborted = some Author.harness
author_of Kind.maintenance_started = some Author.harness
author_of Kind.maintenance_finished = some Author.harness
author_of Kind.lane_stopped = none
author_of (Kind.other _) = none

unfoldable pub same_author : Author → Author → Bool
same_author Author.orchestrator Author.orchestrator = true
same_author Author.harness Author.harness = true
same_author Author.verification Author.verification = true
same_author (Author.other a) (Author.other b) = a == b
same_author _ _ = false

unfoldable pub same_node_kind : NodeKind → NodeKind → Bool
same_node_kind NodeKind.unset NodeKind.unset = true
same_node_kind NodeKind.delegated NodeKind.delegated = true
same_node_kind NodeKind.orchestrator NodeKind.orchestrator = true
same_node_kind NodeKind.maintenance NodeKind.maintenance = true
same_node_kind (NodeKind.other a) (NodeKind.other b) = a == b
same_node_kind _ _ = false

-- The kinds that record an execution and not a work unit.
unfoldable pub execution_kind : Kind → Bool
execution_kind Kind.inputs = true
execution_kind Kind.execution = true
execution_kind Kind.child = true
execution_kind Kind.delivery = true
execution_kind Kind.lane = true
execution_kind Kind.prompt = true
execution_kind Kind.execution_ended = true
execution_kind Kind.prepared = true
execution_kind Kind.lease = true
execution_kind Kind.lane_stopped = true
execution_kind _ = false

unfoldable pub is_activity_started : Kind → Bool
is_activity_started Kind.activity_started = true
is_activity_started Kind.maintenance_started = true
is_activity_started _ = false

unfoldable pub is_activity_finished : Kind → Bool
is_activity_finished Kind.activity_finished = true
is_activity_finished Kind.maintenance_finished = true
is_activity_finished _ = false

-- The in-flight condition that a kind establishes; the zero value for every other kind.
unfoldable pub flight_of : Kind → Flight
flight_of Kind.admitted = Flight.pending_launch
flight_of Kind.launched = Flight.running
flight_of Kind.suspended = Flight.suspended
flight_of Kind.cancel_requested = Flight.cancelling
flight_of Kind.uncertain = Flight.uncertain
flight_of Kind.unmonitored = Flight.unmonitored
flight_of _ = Flight.unset

-- Tests `k == KindX`.
abbrev pub is_kind_admitted : Kind → Bool
is_kind_admitted Kind.admitted = true
is_kind_admitted _ = false

abbrev pub is_kind_planned : Kind → Bool
is_kind_planned Kind.planned = true
is_kind_planned _ = false

abbrev pub is_kind_terminated : Kind → Bool
is_kind_terminated Kind.terminated = true
is_kind_terminated _ = false

abbrev pub is_kind_recovery_closed : Kind → Bool
is_kind_recovery_closed Kind.recovery_closed = true
is_kind_recovery_closed _ = false

abbrev pub is_kind_result : Kind → Bool
is_kind_result Kind.result = true
is_kind_result _ = false

abbrev pub is_kind_qa_round : Kind → Bool
is_kind_qa_round Kind.qa_round = true
is_kind_qa_round _ = false

abbrev pub is_kind_launched : Kind → Bool
is_kind_launched Kind.launched = true
is_kind_launched _ = false

abbrev pub is_kind_cancel_requested : Kind → Bool
is_kind_cancel_requested Kind.cancel_requested = true
is_kind_cancel_requested _ = false

abbrev pub is_kind_unmonitored : Kind → Bool
is_kind_unmonitored Kind.unmonitored = true
is_kind_unmonitored _ = false

abbrev pub is_kind_lease : Kind → Bool
is_kind_lease Kind.lease = true
is_kind_lease _ = false

-- Tests on states and outcomes.
abbrev pub is_state_planned : State → Bool
is_state_planned State.planned = true
is_state_planned _ = false

abbrev pub is_state_in_flight : State → Bool
is_state_in_flight State.in_flight = true
is_state_in_flight _ = false

abbrev pub is_state_settled : State → Bool
is_state_settled State.settled = true
is_state_settled _ = false

abbrev pub is_state_withdrawn : State → Bool
is_state_withdrawn State.withdrawn = true
is_state_withdrawn _ = false

abbrev pub has_outcome : Outcome → Bool
has_outcome Outcome.unset = false
has_outcome _ = true

abbrev pub is_completed : Outcome → Bool
is_completed Outcome.completed = true
is_completed _ = false

abbrev pub is_backtracked : Outcome → Bool
is_backtracked Outcome.backtracked = true
is_backtracked _ = false
