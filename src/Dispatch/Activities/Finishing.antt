-- ===== src/Dispatch/Activities/Finishing.antt =====
-- FinishActivity of takt/dispatch/activity.go: what a finished activity is.
use takt_ai.Dispatch.Activities.Tracked.{project-Tracked, has_run}
use mathlib.Core.Path.{subst}
use takt_ai.Base.{
  and_true, ℕ, String, ◌≡◌, refl, sym, ap, ◌∙◌, inl, inr, true, false, ◌||◌, Option, none, some, [],
  ◌∷◌, eq_iff, eq_refl, ◌==◌, if◌then◌else◌, Bool-cases, length,
}
use takt_ai.Base.Dict.{lookup, lookup-insert_self}
use takt_ai.History.Kinds.{
  NodeKind, Kind, State, Flight, Outcome, same_node_kind, execution_kind, is_activity_started,
  is_kind_unmonitored, is_state_in_flight, is_state_settled,
}
use takt_ai.History.Entry.{Entry, activity_kind}
use takt_ai.History.Projection.{Activity, Projection}
use takt_ai.History.Fold.{
  settle_executions, end_activity, put_activity, fold_activity, fold, project,
}
use takt_ai.History.Fold.Effect.{project-append}
use takt_ai.History.Log.Interface.{Log}
use takt_ai.Dispatch.Activities.{
  ActivityFault, ActivityReport, activity_done, activity_refused, activity_record_kind,
  activity_entry, is_of, same_outcome, finish_as, finish_with, finish_activity,
}

same_outcome_eq : (a b : Outcome) → same_outcome a b ≡ true → a ≡ b
unfolding same_outcome
same_outcome_eq Outcome.unset Outcome.unset h = refl
same_outcome_eq Outcome.completed Outcome.completed h = refl
same_outcome_eq Outcome.failed Outcome.failed h = refl
same_outcome_eq Outcome.backtracked Outcome.backtracked h = refl
same_outcome_eq Outcome.interrupted Outcome.interrupted h = refl
same_outcome_eq (Outcome.other a) (Outcome.other b) h = ap Outcome.other ((eq_iff a b).0 h)
same_outcome_eq _ _ h = cc

same_outcome_refl : (a : Outcome) → same_outcome a a ≡ true
unfolding same_outcome
same_outcome_refl Outcome.unset = refl
same_outcome_refl Outcome.completed = refl
same_outcome_refl Outcome.failed = refl
same_outcome_refl Outcome.backtracked = refl
same_outcome_refl Outcome.interrupted = refl
same_outcome_refl (Outcome.other a) = eq_refl a

-- The activity under its identity is settled with the outcome.
abbrev pub FinishedWith : Projection → String → String → NodeKind → Outcome → Type 0
FinishedWith p session activity n outcome =
    (a : Activity) × (lookup activity p.activities ≡ some a)
    × (is_of session n a ≡ true)
    × (a.state ≡ State.settled)
    × (a.outcome ≡ outcome)

settled_state : (s : State) → is_state_settled s ≡ true → s ≡ State.settled
settled_state State.settled h = refl
settled_state _ h = cc

running_state :
    (s : State) → has_run s ≡ true → is_state_settled s ≡ false → is_state_in_flight s ≡ true
running_state State.in_flight r h = refl
running_state State.settled r h = cc
running_state _ r h = cc

end_known :
    (a : Activity) (e : Entry) (node : NodeKind)
    → is_of e.session node a ≡ true
    → is_state_in_flight a.state ≡ true
    → is_kind_unmonitored e.kind ≡ false
    → end_activity (some a) e node
      ≡ some (record a { state = State.settled; flight = Flight.unset; outcome = e.outcome })
unfolding end_activity
end_known a e node own flying ends =
    let (session, same) = and_true (a.session == e.session) (same_node_kind a.node_kind node) own in
    rw (session, same, flying, ends) refl

put_known :
    (p : Projection) (e : Entry) (o : Option Activity) (a : Activity)
    → o ≡ some a
    → lookup e.activity (put_activity p e o).activities ≡ some a
put_known p e o a h =
    ap (λ x. lookup e.activity (put_activity p e x).activities) h
    ∙ lookup-insert_self e.activity a p.activities

module _ (p : Projection) (n : ℕ) (session activity : String) (outcome : Outcome)
    (a : Activity) where
  abbrev finishing : Kind → NodeKind → Entry
  finishing k node = record (activity_entry k session activity node) { outcome = outcome; seq = n }

  finished_entry :
      (k : Kind) (node : NodeKind)
      → lookup activity p.activities ≡ some a
      → is_of session node a ≡ true
      → is_state_in_flight a.state ≡ true
      → is_kind_unmonitored k ≡ false
      → lookup activity
          (put_activity p
            (finishing k node)
            (end_activity (lookup activity p.activities) (finishing k node) node)).activities
        ≡ some (record a { state = State.settled; flight = Flight.unset; outcome = outcome })
  finished_entry k node known own flying ends =
      let e = finishing k node in
      put_known p e (end_activity (lookup activity p.activities) e node) _
        (ap (λ o. end_activity o e node) known ∙ end_known a e node own flying ends)

  -- What the finishing entry does to the activity in flight.
  fold_finishes :
      (k : Kind) (node : NodeKind)
      → activity_record_kind node false ≡ some k
      → lookup activity p.activities ≡ some a
      → is_of session node a ≡ true
      → is_state_in_flight a.state ≡ true
      → lookup activity (fold p (finishing k node)).activities
        ≡ some (record a { state = State.settled; flight = Flight.unset; outcome = outcome })
  unfolding activity_record_kind fold execution_kind settle_executions activity_kind fold_activity
      is_activity_started
  fold_finishes Kind.activity_finished NodeKind.orchestrator kind known own flying =
      finished_entry Kind.activity_finished NodeKind.orchestrator known own flying refl
  fold_finishes Kind.maintenance_finished NodeKind.maintenance kind known own flying =
      finished_entry Kind.maintenance_finished NodeKind.maintenance known own flying refl
  fold_finishes _ NodeKind.orchestrator kind known own flying = cc
  fold_finishes _ NodeKind.maintenance kind known own flying = cc
  fold_finishes _ _ kind known own flying = cc

module _ (l : Log) where
  open l use {Handle, entries, append_batch, appended}

  refused_activity : (r : ActivityFault) → activity_refused r ≡ activity_done → ⊥
  refused_activity r h = cc (ap (λ (x : ActivityReport). x.refusal) h)

  -- A recorded finish of an activity in flight settles it.
  finish_as-Finished :
      (h : Handle) (session activity : String) (node : NodeKind) (outcome : Outcome) (a : Activity)
      (k : Option Kind)
      → activity_record_kind node false ≡ k
      → lookup activity (project (entries h)).activities ≡ some a
      → is_of session node a ≡ true
      → is_state_in_flight a.state ≡ true
      → (finish_as l h session activity node outcome k).0 ≡ activity_done
      → FinishedWith
          (project (entries (finish_as l h session activity node outcome k).1))
          session
          activity
          node
          outcome
  finish_as-Finished h session activity node outcome a none kind known own flying done =
      absurd (refused_activity _ done)
  finish_as-Finished h session activity node outcome a (some k) kind known own flying done =
      let e = record (activity_entry k session activity node) { outcome = outcome } in
      let now =
        ap project (appended h (e ∷ []) (ap (λ (r : ActivityReport). r.append) done))
        ∙ project-append (entries h) (record e { seq = length (entries h) }) in
      (
        record a { state = State.settled; flight = Flight.unset; outcome = outcome },
        ap (λ q. lookup activity q.activities) now
            ∙ fold_finishes (project (entries h)) (length (entries h)) session activity outcome a k
                node kind known own flying,
        own,
        refl,
        refl,
      )

  finish_with-Finished :
      (h : Handle) (session activity : String) (node : NodeKind) (outcome : Outcome)
      (o : Option Activity)
      → lookup activity (project (entries h)).activities ≡ o
      → (finish_with l h session activity node outcome o).0 ≡ activity_done
      → FinishedWith
          (project (entries (finish_with l h session activity node outcome o).1))
          session
          activity
          node
          outcome
  finish_with-Finished h session activity node outcome none known done =
      absurd (refused_activity _ done)
  finish_with-Finished h session activity node outcome (some a) known done =
      elim (Bool-cases (is_of session node a)) [
        | inr other ↦
            absurd (refused_activity (ActivityFault.not_active activity) (rw other at done))
        | inl own ↦ elim (Bool-cases (is_state_settled a.state)) [
          | inl settled ↦ elim (Bool-cases (same_outcome a.outcome outcome)) [
            | inr differs ↦ absurd (
                refused_activity (ActivityFault.already_finished activity a.outcome)
                  (rw (own, settled, differs) at done))
            | inl same ↦
                rw (own, settled, same)
                  (
                    a,
                    known,
                    own,
                    settled_state a.state settled,
                    same_outcome_eq a.outcome outcome same,
                  )
          ]
          | inr runs ↦
              rw (own, runs)
                (finish_as-Finished h session activity node outcome a
                  (activity_record_kind node false) refl known own
                  (running_state a.state (project-Tracked (entries h) activity a known) runs)
                  (rw (own, runs) at done))
        ]
      ]

  identified_only :
      (h : Handle) (session activity : String) (node : NodeKind) (outcome : Outcome)
      → (session == "" || activity == "") ≡ false
      → finish_activity l h session activity node outcome
        ≡ finish_with l h session activity node outcome
            (lookup activity (project (entries h)).activities)
  unfolding finish_activity
  identified_only h session activity node outcome named =
      ap
        (λ b.
          if b
          then (activity_refused ActivityFault.unidentified, h)
          else finish_with l h session activity node outcome
              (lookup activity (project (entries h)).activities))
        named

  finished_again :
      (h : Handle) (session activity : String) (node : NodeKind) (outcome : Outcome)
      → (session == "" || activity == "") ≡ false
      → FinishedWith (project (entries h)) session activity node outcome
      → finish_activity l h session activity node outcome ≡ (activity_done, h)
  unfolding finish_activity
  finished_again h session activity node outcome named (a, known, own, settled, ended) =
      let same = ap (λ x. same_outcome x outcome) ended ∙ same_outcome_refl outcome in
      rw (named, known, own, settled, same) refl

  -- A finish that is reported as a success leaves the activity settled with that outcome, whether it
  -- recorded the end or the end was there; and a repeat succeeds and leaves the store as it is.
  pub finish_settles :
      (h : Handle) (session activity : String) (node : NodeKind) (outcome : Outcome)
      → (finish_activity l h session activity node outcome).0 ≡ activity_done
      → FinishedWith
          (project (entries (finish_activity l h session activity node outcome).1))
          session
          activity
          node
          outcome
        × (finish_activity l
              (finish_activity l h session activity node outcome).1
              session
              activity
              node
              outcome
            ≡ (activity_done, (finish_activity l h session activity node outcome).1))
  finish_settles h session activity node outcome done =
      elim (Bool-cases (session == "" || activity == "")) [
        | inl unnamed ↦ absurd (
            refused_activity ActivityFault.unidentified
              (unfold finish_activity in rw unnamed at done))
        | inr named ↦
            let first = identified_finish named in
            (first, finished_again _ session activity node outcome named first)
      ]
    where
      identified_finish :
          (session == "" || activity == "") ≡ false
          → FinishedWith
              (project (entries (finish_activity l h session activity node outcome).1))
              session
              activity
              node
              outcome
      identified_finish named =
          let given = identified_only h session activity node outcome named in
          subst (λ out. FinishedWith (project (entries out.1)) session activity node outcome)
            (sym given)
            (finish_with-Finished h session activity node outcome
              (lookup activity (project (entries h)).activities) refl
              (sym (ap (λ out. out.0) given) ∙ done))
