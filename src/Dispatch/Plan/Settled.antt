-- ===== src/Dispatch/Plan/Settled.antt =====
-- Each call of takt/dispatch/plan.go either did its abstract steps or left the plan as it was.
use mathlib.Core.Path.{subst}
use takt_ai.History.Log.{number, AppendError}
use takt_ai.Base.{
  ℕ, suc, String, ◌≡◌, refl, sym, ap, ◌∙◌, ◌≢◌, ◌⊎◌, inl, inr, Bool, true, false, not, ◌||◌, Option,
  none, some, List, [], ◌∷◌, ◌++◌, map, arith, eqb, ◌==◌, if◌then◌else◌, Bool-cases, Option-cases,
  length,
}
use takt_ai.History.Kinds.{execution_kind}
use takt_ai.History.Entry.{QaRound, Entry, activity_kind}
use takt_ai.History.Projection.{Projection, new_projection, budgets_of}
use takt_ai.History.Fold.{budgeted, settle_executions, fold_work, fold, project_from, project}
use takt_ai.History.Fold.View.{project_from-append}
use takt_ai.History.Fold.Placed.{project-IsPlaced}
use takt_ai.History.Fold.Effect.{budgets_kept}
use takt_ai.History.Log.Interface.{Log}
use takt_ai.Dispatch.Plan.Graph.{ok, fault, PlanUnit, PlanFault, Checked, valid_plan}
use takt_ai.Dispatch.Plan.Members.{planned_entry}
use takt_ai.Dispatch.Plan.Changes.{stands}
use takt_ai.Dispatch.Plan.View.{PlanView}
use takt_ai.Dispatch.Plan.Effects.{plan_all, withdraw_all, version_of, Effected, noted}
use takt_ai.Dispatch.Plan.Declaring.{
  PlanReport, declared_plan, turn_down, fault_text, rejection, report_batch, record_commitment,
  commit_plan, reject_revision, record_revision, revise, declare_plan,
}
use takt_ai.Dispatch.Plan.Runs.{
  unless_fault-Passing, Passing, RoundRun, qa_round_entries-RoundRun, commitment_from,
  revision_from, RevisionRun, revision_entries-RevisionRun,
}

turned_differs : (e : PlanFault) → turn_down e ≡ declared_plan → ⊥
turned_differs e h = cc (ap (λ (x : PlanReport). x.refusal) h)

nonempty_noted :
    (us : List PlanUnit) (version before : String)
    → eqb (length us) 0 ≡ false
    → noted us version before ≡ version
nonempty_noted [] version before h = cc
nonempty_noted (u ∷ us) version before h = refl

or_false : (a b : Bool) → (a || b) ≡ false → (a ≡ false) × (b ≡ false)
or_false a b h = (ground arith, ground arith)

module _ (quote : String → String) (l : Log) where
  open l use {Handle, entries, append_batch, appended, refused}

  -- The plan's units and every session's accounting are those before.
  abbrev pub SamePlan : Projection → Projection → Type 0
  SamePlan p q = (q.units ≡ p.units) × ((s : String) → budgets_of q s ≡ budgets_of p s)

  -- What a call did: with success, the abstract steps; without, nothing to any unit or accounting.
  abbrev pub Settled :
      Handle → String → String → (String → PlanView → PlanView) → PlanReport × Handle → Type 0
  Settled h session version f out =
      ((out.0 ≡ declared_plan)
        × Effected session (project (entries h)) (project (entries out.1)) f version)
      ⊎ ((out.0 ≢ declared_plan) × SamePlan (project (entries h)) (project (entries out.1)))

  turned :
      (h : Handle) (session version : String) (f : String → PlanView → PlanView) (e : PlanFault)
      → Settled h session version f (turn_down e, h)
  turned h session version f e = inr (turned_differs e, (refl, λ s. refl))

  batch_project :
      (h : Handle) (es : List Entry)
      → (append_batch h es).0 ≡ none
      → project (entries (append_batch h es).1)
        ≡ project_from (project (entries h)) (number (length (entries h)) es)
  unfolding project
  batch_project h es done =
      ap project (appended h es done)
      ∙ project_from-append new_projection (entries h) (number (length (entries h)) es)

  same_handle :
      (h : Handle) (es : List Entry) (x : AppendError)
      → (append_batch h es).0 ≡ some x
      → SamePlan (project (entries h)) (project (entries (append_batch h es).1))
  same_handle h es x failed =
      subst (λ k. SamePlan (project (entries h)) (project (entries k)))
        (sym (refused h es x failed)) (refl, λ s. refl)

  batch-Settled :
      (h : Handle) (session version : String) (f : String → PlanView → PlanView) (es : List Entry)
      → Effected session
          (project (entries h))
          (project_from (project (entries h)) (number (length (entries h)) es))
          f
          version
      → Settled h session version f (report_batch quote l none (append_batch h es))
  batch-Settled h session version f es done = elim (Option-cases (append_batch h es).0) [
    | inl taken ↦ inl (
      rw taken refl,
      subst (λ q. Effected session (project (entries h)) q f version)
          (sym (batch_project h es taken)) done,
    )
    | inr (x, failed) ↦ inr (
      (λ same. cc (sym failed ∙ ap (λ (r : PlanReport). r.append) same)),
      same_handle h es x failed,
    )
  ]

  rejected :
      (p : Projection) (n : ℕ) (ref session base version reason : String)
      → SamePlan p (fold p (record (rejection ref session base version reason) { seq = n }))
  unfolding fold fold_work settle_executions execution_kind budgeted activity_kind
  rejected p n ref session base version reason =
      (refl, budgets_kept p (record (rejection ref session base version reason) { seq = n }))

  some_differs : {e : PlanFault} → some e ≡ none → ⊥
  some_differs h = cc

  reject-Settled :
      (h : Handle) (ref session base version : String) (f : String → PlanView → PlanView)
      (e : PlanFault)
      → Settled h session version f (reject_revision quote l h ref session base version e)
  unfolding project_from
  reject-Settled h ref session base version f e =
      let es = rejection ref session base version (fault_text quote e) ∷ [] in
      inr (
        (λ same. some_differs (ap (λ (r : PlanReport). r.refusal) same)),
        elim (Option-cases (append_batch h es).0) [
          | inl taken ↦
              subst (λ q. SamePlan (project (entries h)) q) (sym (batch_project h es taken))
                (rejected (project (entries h)) (length (entries h)) ref session base version
                  (fault_text quote e))
          | inr (x, failed) ↦ same_handle h es x failed
        ],
      )

  abbrev pub revised_view : List PlanUnit → List String → String → PlanView → PlanView
  revised_view adds withdrawals w v = withdraw_all withdrawals w (plan_all adds w v)

  revision-Settled :
      (h : Handle) (ref session base version : String) (adds : List PlanUnit)
      (withdrawals : List String) (r : Checked (List Entry))
      → Passing (RevisionRun ref session version base adds withdrawals) r
      → Settled h session version
          (revised_view adds withdrawals)
          (record_revision quote l h ref session base version r)
  revision-Settled h ref session base version adds withdrawals (fault e) run =
      reject-Settled h ref session base version _ e
  revision-Settled h ref session base version adds withdrawals (ok es)
        (rs, classification, run, whole) =
      batch-Settled h session version _ es (
        rw whole (
          revision_from ref session version (project (entries h)) (length (entries h)) rs base
            classification adds withdrawals run (project-IsPlaced (entries h))))

  revise-Settled :
      (h : Handle) (ref session base version : String) (adds : List PlanUnit)
      (withdrawals : List String) (rounds : List (Option QaRound))
      → Settled h session version
          (revised_view adds withdrawals)
          (revise quote l h ref session base version adds withdrawals rounds)
  unfolding revise
  revise-Settled h ref session base version adds withdrawals rounds =
      elim (Bool-cases (session == "" || base == "" || version == "")) [
        | inl unnamed ↦ rw unnamed (turned h session version _ PlanFault.unidentified_revision)
        | inr named ↦ rw named (
            revision-Settled h ref session base version adds withdrawals _ (
              revision_entries-RevisionRun ref session version (project (entries h)) base adds
                withdrawals rounds))
      ]

  commitment-Settled :
      (h : Handle) (ref session version : String) (units : List PlanUnit) (r : Checked (List Entry))
      → eqb (length units) 0 ≡ false
      → Passing (RoundRun ref session version) r
      → Settled h session version
          (plan_all units)
          (record_commitment quote l h ref session version units r)
  commitment-Settled h ref session version units (fault e) some_units run =
      turned h session version _ e
  commitment-Settled h ref session version units (ok rs) some_units run =
      batch-Settled h session version _ (rs ++ map (planned_entry ref session version) units) (
        subst
          (λ v.
            Effected session (project (entries h))
              (project_from (project (entries h))
                (number (length (entries h)) (rs ++ map (planned_entry ref session version) units)))
              (plan_all units) v)
          (nonempty_noted units version (version_of (project (entries h)) session) some_units)
          (commitment_from ref session version (project (entries h)) (length (entries h)) rs units
            run (project-IsPlaced (entries h))))

  commit-Settled :
      (h : Handle) (ref session version : String) (units : List PlanUnit)
      (rounds : List (Option QaRound))
      → Settled h session version
          (plan_all units)
          (commit_plan quote l h ref session version units rounds)
  unfolding commit_plan
  commit-Settled h ref session version units rounds =
      elim (Bool-cases (session == "" || version == "" || eqb (length units) 0)) [
        | inl unnamed ↦ rw unnamed (turned h session version _ PlanFault.no_baseline)
        | inr named ↦ rw named (
            commitment-Settled h ref session version units _
              (or_false (session == "" || version == "") (eqb (length units) 0) named).1
              (unless_fault-Passing (RoundRun ref session version)
                (valid_plan (project (entries h)) session units) _
                (qa_round_entries-RoundRun ref session version (project (entries h)) units rounds)))
      ]

  no_withdrawals : (ws : List String) → eqb (length ws) 0 ≡ true → ws ≡ []
  no_withdrawals [] h = refl
  no_withdrawals (w ∷ ws) h = absurd (not_zero (length ws) h)
    where
      not_zero : (n : ℕ) → eqb (suc n) 0 ≡ true → ⊥
      not_zero n e = ground arith

  pub declare-Settled :
      (h : Handle) (ref session version base : String) (units : List PlanUnit)
      (withdrawals : List String) (rounds : List (Option QaRound))
      → Settled h session version
          (revised_view units withdrawals)
          (declare_plan quote l h ref session version base units withdrawals rounds)
  unfolding declare_plan
  declare-Settled h ref session version base units withdrawals rounds =
      let standing = (budgets_of (project (entries h)) session).plan_version in
      elim (Bool-cases (standing == "")) [
        | inl first ↦ elim (Bool-cases (not (base == "") || not (eqb (length withdrawals) 0))) [
          | inl early ↦ rw (first, early) (turned h session version _ PlanFault.no_standing_plan)
          | inr fresh ↦
              rw (first, fresh)
                (subst
                  (λ ws.
                    Settled h session version (revised_view units ws)
                      (commit_plan quote l h ref session version units rounds))
                  (sym (no_withdrawals withdrawals (ground arith)))
                  (commit-Settled h ref session version units rounds))
        ]
        | inr stands ↦ elim (Bool-cases (base == "")) [
          | inl unnamed ↦
              rw (stands, unnamed) (turned h session version _ (PlanFault.base_needed standing))
          | inr named ↦ rw stands (
              subst
                (λ b. Settled h session version (revised_view units withdrawals) (
                  if b
                  then (turn_down (PlanFault.base_needed standing), h)
                  else revise quote l h ref session base version units withdrawals rounds))
                (sym named) (revise-Settled h ref session base version units withdrawals rounds))
        ]
      ]
