-- ===== src/Dispatch/Recovery/Loop.antt =====
-- The loops of Account in takt/dispatch/recovery.go. A session, an objective and their recovery are taken
-- from the projection at the start, as in the source.
use takt_ai.Base.Sorted.{sorted_keys}
use takt_ai.Base.{String, Bool, not, ◌||◌, List, [], ◌∷◌, if◌then◌else◌}
use takt_ai.Base.Dict.{is_some}
use takt_ai.Base.Text.{pos, negsuc, ℤ}
use takt_ai.History.Projection.{Projection, budgets_of, recovery_of}
use takt_ai.History.Fold.{project}
use takt_ai.History.Log.Interface.{Log}
use takt_ai.Dispatch.Policy.{Report, succeeded}
use takt_ai.Dispatch.Recovery.{JournalEntry, account_recovery}

-- `e := entries[len(entries)-1].Seq`, and -1 where there is none.
abbrev pub head_of : ℤ → List JournalEntry → ℤ
head_of head [] = head
head_of head (e ∷ es) = head_of (pos e.seq) es

abbrev pub failed : Report → Bool
failed r = is_some r.append || is_some r.refusal

module _ (l : Log) (es : List JournalEntry) (p : Projection) where
  open l use {Handle}

  abbrev pub then_account : (Handle → Report × Handle) → Report × Handle → Report × Handle
  then_account next (r, h) = if failed r then (r, h) else next h

  abbrev pub account_one : String → String → Handle → Report × Handle
  account_one session objective h =
      let b = budgets_of p session in
      let r = recovery_of b objective in
      if not r.is_open || r.unreconciled
      then (succeeded, h)
      else account_recovery l h es session objective r b p (head_of (negsuc 0) es)

  -- The loop over the objectives of a session.
  unfoldable pub account_objectives : String → List String → Handle → Report × Handle
  unfolding account_recovery
  account_objectives session [] h = (succeeded, h)
  account_objectives session (o ∷ os) h =
      then_account (account_objectives session os) (account_one session o h)

  -- The loop over the sessions.
  unfoldable pub account_sessions : List String → Handle → Report × Handle
  unfolding account_objectives sorted_keys
  account_sessions [] h = (succeeded, h)
  account_sessions (s ∷ ss) h =
      then_account (account_sessions ss)
        (account_objectives s (sorted_keys (budgets_of p s).recoveries) h)

-- Account
unfoldable pub account : (l : Log) → l.Handle → List JournalEntry → Report × l.Handle
unfolding account_sessions sorted_keys
account l h es = let p = project (l.entries h) in account_sessions l es p (sorted_keys p.sessions) h
