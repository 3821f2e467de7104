-- ===== src/Dispatch/Interlocutor/Turns.antt =====
-- The turns of the interface: who holds it after Switch, Handoff and Abort of takt/dispatch/interlocutor.go.
use takt_ai.Base.{
  ℕ, String, ◌≡◌, refl, ap, ◌∙◌, inl, inr, Bool, true, false, not, ◌&&◌, ◌||◌, Option, none, [],
  ◌∷◌, arith, eq_refl, ◌==◌, if◌then◌else◌, Bool-cases, length,
}
use takt_ai.Base.Dict.{Dict, is_some}
use takt_ai.History.Kinds.{Author, Kind, execution_kind}
use takt_ai.History.Entry.{Entry, activity_kind}
use takt_ai.History.Projection.{Budgets, Projection, budgets_of}
use takt_ai.History.Fold.{budgeted, settle_executions, put_budgets, fold_work, fold, project}
use takt_ai.History.Fold.Effect.{fold_denied, project-append}
use takt_ai.History.Fold.Sessions.{budgets-put}
use takt_ai.History.Log.Interface.{Log}
use takt_ai.Dispatch.Interlocutor.{
  RoleClass, interlocutor_role, may_hold, TurnFault, cause_role, cause_held, cause_origin,
  cause_holder, turn_entry, switch_decision, handoff_decision, aborted_session, abort_decision,
  end_turn, switch, hand_off, abort, current_holder,
}

abbrev pub holder_of : Projection → String → String
holder_of p root = (budgets_of p root).holder

module _ (p : Projection) (e : Entry) where
  put_holder : (b : Budgets) → holder_of (put_budgets p e b) e.session ≡ b.holder
  put_holder b =
      ap (λ (x : Budgets). x.holder)
        (budgets-put p e b e.session
          ∙ ap (λ t. if t then b else budgets_of p e.session) (eq_refl e.session))

  denied_holder :
      holder_of (fold p (record e { kind = Kind.denied })) e.session ≡ holder_of p e.session
  denied_holder = ap (λ (x : Budgets). x.holder) ((fold_denied p e).1 e.session)

  switched_holder :
      holder_of (fold p (record e { kind = Kind.interlocutor_switched })) e.session ≡ e.work_unit
  unfolding fold fold_work settle_executions execution_kind budgeted activity_kind
  switched_holder = put_holder _

  handed_holder : holder_of (fold p (record e { kind = Kind.interlocutor_handoff })) e.session ≡ ""
  unfolding fold fold_work settle_executions execution_kind budgeted activity_kind
  handed_holder = put_holder _

  aborted_holder : holder_of (fold p (record e { kind = Kind.interlocutor_aborted })) e.session ≡ ""
  unfolding fold fold_work settle_executions execution_kind budgeted activity_kind
  aborted_holder = put_holder _

module _ (p : Projection) (n : ℕ) (journal_ref root : String) where
  switch_holder :
      (crew : Option (Dict RoleClass)) (child agent artifact : String)
      → holder_of
          (fold p
            (record (switch_decision crew
              (budgets_of p root)
              journal_ref
              root
              child
              agent
              artifact).0 { seq = n }))
          root
        ≡ (if may_hold (interlocutor_role crew agent) && holder_of p root == ""
            then child
            else holder_of p root)
  unfolding switch_decision
  switch_holder crew child agent artifact =
      let e =
        record (turn_entry Author.orchestrator Kind.interlocutor_switched journal_ref root child) {
          seq = n;
          agent = agent;
          artifact = artifact;
        } in
      elim (Bool-cases (may_hold (interlocutor_role crew agent))) [
        | inr barred ↦
            rw barred (denied_holder p (record e { author = Author.harness; cause = cause_role }))
        | inl able ↦ elim (Bool-cases (holder_of p root == "")) [
          | inl free ↦ rw (able, free) (switched_holder p e)
          | inr held ↦
              rw (able, held)
                (denied_holder p (record e { author = Author.harness; cause = cause_held }))
        ]
      ]

  handoff_holder :
      (caller result : String)
      → holder_of
          (fold p (record (handoff_decision (budgets_of p root) journal_ref root caller result).0 {
            seq = n;
          }))
          root
        ≡ (if caller == holder_of p root then "" else holder_of p root)
  unfolding handoff_decision
  handoff_holder caller result =
      let e =
        record (turn_entry Author.orchestrator Kind.interlocutor_handoff journal_ref root caller) {
          seq = n;
          result = result;
        } in
      elim (Bool-cases (caller == holder_of p root)) [
        | inl own ↦ rw own (handed_holder p e)
        | inr other ↦
            rw other (denied_holder p (record e { author = Author.harness; cause = cause_holder }))
      ]

  abbrev pub may_abort : String → String → Bool
  may_abort child origin =
      (origin == "user" || origin == "harness")
      && not (holder_of p root == "")
      && holder_of p root == aborted_session (budgets_of p root) child

  abort_holder :
      (child origin : String)
      → holder_of
          (fold p (record (abort_decision (budgets_of p root) journal_ref root child origin).0 {
            seq = n;
          }))
          root
        ≡ (if may_abort child origin then "" else holder_of p root)
  unfolding abort_decision
  abort_holder child origin =
      let ended = aborted_session (budgets_of p root) child in
      let e = record (turn_entry Author.harness Kind.interlocutor_aborted journal_ref root ended) {
        seq = n;
        result = "Aborted";
      } in
      elim (Bool-cases (not (origin == "user") && not (origin == "harness"))) [
        | inl foreign ↦
            rw (foreign, barred (origin == "user") (origin == "harness") foreign)
              (denied_holder p (record e { cause = cause_origin }))
        | inr known ↦ elim (Bool-cases (holder_of p root == "")) [
          | inl idle ↦
              rw (known, idle, allowed (origin == "user") (origin == "harness") known)
                (denied_holder p (record e { cause = cause_holder }))
          | inr busy ↦ elim (Bool-cases (holder_of p root == ended)) [
            | inl own ↦
                rw (known, busy, own, allowed (origin == "user") (origin == "harness") known)
                  (aborted_holder p e)
            | inr other ↦
                rw (known, busy, other, allowed (origin == "user") (origin == "harness") known)
                  (denied_holder p (record e { cause = cause_holder }))
          ]
        ]
      ]
    where
      barred : (a b : Bool) → (not a && not b) ≡ true → (a || b) ≡ false
      barred true b h = cc
      barred false true h = cc
      barred false false h = refl

      allowed : (a b : Bool) → (not a && not b) ≡ false → (a || b) ≡ true
      allowed true b h = refl
      allowed false true h = refl
      allowed false false h = cc

  switch_refusal :
      (crew : Option (Dict RoleClass)) (child agent artifact : String)
      → is_some (switch_decision crew (budgets_of p root) journal_ref root child agent artifact).1
        ≡ not (may_hold (interlocutor_role crew agent) && holder_of p root == "")
  unfolding switch_decision
  switch_refusal crew child agent artifact = ground arith

  handoff_refusal :
      (caller result : String)
      → is_some (handoff_decision (budgets_of p root) journal_ref root caller result).1
        ≡ not (caller == holder_of p root)
  unfolding handoff_decision
  handoff_refusal caller result = ground arith

  may_abort_named :
      (child origin : String)
      → may_abort child origin ≡ (
          (origin == "user" || origin == "harness")
          && (not (holder_of p root == "") && (child == "" || holder_of p root == child)))
  may_abort_named child origin = ground (arith, eq_refl (holder_of p root))

  abort_refusal :
      (child origin : String)
      → is_some (abort_decision (budgets_of p root) journal_ref root child origin).1
        ≡ not (may_abort child origin)
  unfolding abort_decision
  abort_refusal child origin = ground arith

module _ (l : Log) where
  open l use {Handle, entries, append_batch, appended}

  turn_project :
      (h : Handle) (d : Entry × Option TurnFault)
      → (end_turn l h d).0.append ≡ none
      → project (entries (end_turn l h d).1)
        ≡ fold (project (entries h)) (record d.0 { seq = length (entries h) })
  turn_project h d done =
      ap project (appended h (d.0 ∷ []) done)
      ∙ project-append (entries h) (record d.0 { seq = length (entries h) })

  -- A recorded switch is granted exactly where the agent's catalog role holds the interface and no
  -- session holds it; then the child session is its holder, and otherwise the holder stays: no switch
  -- displaces a holder.
  pub switch_turn :
      (h : Handle) (crew : Option (Dict RoleClass)) (journal_ref root child agent artifact : String)
      → (switch l h crew journal_ref root child agent artifact).0.append ≡ none
      → (is_some (switch l h crew journal_ref root child agent artifact).0.refusal
          ≡ not (may_hold (interlocutor_role crew agent) && current_holder l h root == ""))
        × (current_holder l (switch l h crew journal_ref root child agent artifact).1 root ≡ (
            if may_hold (interlocutor_role crew agent) && current_holder l h root == ""
            then child
            else current_holder l h root))
  unfolding switch
  switch_turn h crew journal_ref root child agent artifact done =
      let p = project (entries h) in
      (
        switch_refusal p (length (entries h)) journal_ref root crew child agent artifact,
        ap (λ q. holder_of q root)
              (turn_project h
                (switch_decision crew (budgets_of p root) journal_ref root child agent artifact)
                done)
            ∙ switch_holder p (length (entries h)) journal_ref root crew child agent artifact,
      )

  -- A recorded handoff ends the turn exactly where the caller is the holder; any other leaves the
  -- holder and is refused.
  pub handoff_turn :
      (h : Handle) (journal_ref root caller result : String)
      → (hand_off l h journal_ref root caller result).0.append ≡ none
      → (is_some (hand_off l h journal_ref root caller result).0.refusal
          ≡ not (caller == current_holder l h root))
        × (current_holder l (hand_off l h journal_ref root caller result).1 root
            ≡ (if caller == current_holder l h root then "" else current_holder l h root))
  unfolding hand_off
  handoff_turn h journal_ref root caller result done =
      let p = project (entries h) in
      let n = length (entries h) in
      (
        handoff_refusal p n journal_ref root caller result,
        ap (λ q. holder_of q root)
              (turn_project h (handoff_decision (budgets_of p root) journal_ref root caller result)
                done)
            ∙ handoff_holder p n journal_ref root caller result,
      )

  -- A recorded abort ends the turn exactly where it comes from the user or the harness, a session
  -- holds the interface, and the abort names that session or none. Any other leaves the holder and
  -- is refused.
  pub abort_turn :
      (h : Handle) (journal_ref root child origin : String)
      → (abort l h journal_ref root child origin).0.append ≡ none
      → (is_some (abort l h journal_ref root child origin).0.refusal
          ≡ not (
              (origin == "user" || origin == "harness")
              && (not (current_holder l h root == "")
                  && (child == "" || current_holder l h root == child))))
        × (current_holder l (abort l h journal_ref root child origin).1 root ≡ (
            if (origin == "user" || origin == "harness")
              && (not (current_holder l h root == "")
                  && (child == "" || current_holder l h root == child))
            then ""
            else current_holder l h root))
  unfolding abort
  abort_turn h journal_ref root child origin done =
      let p = project (entries h) in
      let n = length (entries h) in
      let names = may_abort_named p n journal_ref root child origin in
      (
        abort_refusal p n journal_ref root child origin ∙ ap not names,
        ap (λ q. holder_of q root)
              (turn_project h (abort_decision (budgets_of p root) journal_ref root child origin)
                done)
            ∙ abort_holder p n journal_ref root child origin
            ∙ ap (λ t. if t then "" else holder_of p root) names,
      )
