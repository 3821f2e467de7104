-- ===== src/Dispatch/Interlocutor/Envelopes.antt =====
-- The envelopes of takt/dispatch/interlocutor.go, which a handoff and an abort return.
use takt_ai.Base.{
  ◌||◌, ℕ, String, Bool, not, ◌&&◌, Option, none, some, List, [], eqb, ◌==◌, if◌then◌else◌, length,
}
use takt_ai.Base.Dict.{is_some}
use takt_ai.History.Log.Interface.{Log}
use takt_ai.Dispatch.Policy.{AdmissionPolicy}
use takt_ai.Dispatch.Interlocutor.{
  TurnFault, TurnReport, turn_refused, hand_off, abort, current_holder,
}
use takt_ai.Dispatch.Interlocutor.Index.{SessionEntry, MemoryIndex, lent_index}

-- HandoffOutcome
pub record HandoffOutcome : Type 0 where
  pub result : String
  pub additional_context : String
  pub extra_artifacts : List String
  pub result_ids : List ℕ

pub record Envelope : Type 0 where
  pub result : String
  pub additional_context : String
  pub extra_artifacts : List String
  pub memory : MemoryIndex

module _ (l : Log) where
  open l use {Handle}

  -- BuildHandoffEnvelope: the index is read before the turn ends.
  unfoldable pub build_handoff_envelope :
      Handle
      → Option AdmissionPolicy
      → Option (List SessionEntry)
      → Bool
      → String
      → String
      → String
      → HandoffOutcome
      → Option Envelope × TurnReport × Handle
  unfolding hand_off lent_index
  build_handoff_envelope h policy index delivered journal_ref root caller o =
      let done = hand_off l h journal_ref root caller o.result in
      let read = lent_index policy index caller 0 in
      let envelope : Envelope = record {
        result = o.result;
        additional_context = o.additional_context;
        extra_artifacts = o.extra_artifacts;
        memory = read.0;
      } in
      if (o.result == "Standard" || not (eqb (length o.result_ids) 0)) && not delivered
      then (none, turn_refused TurnFault.undelivered, h)
      else if not (caller == current_holder l h root)
      then (none, done.0, done.1)
      else elim read.1 [
        | some e ↦ (none, turn_refused e, h)
        | none ↦ (
          if is_some done.0.append || is_some done.0.refusal then none else some envelope,
          done.0,
          done.1,
        )
      ]

  -- BuildAbortEnvelope, with the session that it aborts.
  unfoldable pub build_abort_envelope :
      Handle
      → Option AdmissionPolicy
      → Option (List SessionEntry)
      → String
      → String
      → String
      → String
      → String
      → Option (Envelope × String) × TurnReport × Handle
  unfolding abort lent_index
  build_abort_envelope h policy index journal_ref root child reason origin =
      let aborted = if child == "" then current_holder l h root else child in
      let done = abort l h journal_ref root child origin in
      let read : MemoryIndex × Option TurnFault =
        if aborted == ""
        then (record { listed = []; next_after = 0 }, none)
        else lent_index policy index aborted 0 in
      let envelope : Envelope = record {
        result = "Aborted";
        additional_context = reason;
        extra_artifacts = [];
        memory = read.0;
      } in
      elim read.1 [
        | some e ↦ (none, turn_refused e, h)
        | none ↦ (
          if is_some done.0.append || is_some done.0.refusal
              then none
              else some (envelope, aborted),
          done.0,
          done.1,
        )
      ]
