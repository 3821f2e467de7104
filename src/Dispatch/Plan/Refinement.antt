-- ===== src/Dispatch/Plan/Refinement.antt =====
-- Declare, Commit and Revise of takt/dispatch/plan.go refine the abstract steps on a plan's view.
use takt_ai.Dispatch.Plan.Settled.{declare-Settled}
use takt_ai.Base.{String, ◌≡◌, refl, ap, ◌∙◌, ◌≢◌, inl, inr, false, Option, List, [], ◌∷◌, arith}
use takt_ai.Base.Dict.{lookup}
use takt_ai.History.Kinds.{State, is_state_planned}
use takt_ai.History.Entry.{QaRound}
use takt_ai.History.Projection.{unit_key, find_unit, budgets_of}
use takt_ai.History.Fold.{project}
use takt_ai.History.Log.Interface.{Log}
use takt_ai.Dispatch.Plan.Graph.{PlanUnit}
use takt_ai.Dispatch.Plan.View.{PlanView, view_of, unit_view, is_free}
use takt_ai.Dispatch.Plan.Effects.{plan_all, withdraw_all, version_of}
use takt_ai.Dispatch.Plan.Declaring.{declared_plan, declare_plan}

module _ (quote : String → String) (l : Log) where
  open l use {Handle, entries}

  -- A successful declaration does to the plan what its text says, whether it commits or revises: its
  -- version is the session's plan version, and every unit of the session is seen through the
  -- declarations in their order and then the withdrawals. A declaration plans a unit that is new or
  -- still planned, with its contract and prerequisites, and leaves another one; a withdrawal withdraws a
  -- planned unit.
  pub declare_refines :
      (h : Handle) (ref session version base : String) (units : List PlanUnit)
      (withdrawals : List String) (rounds : List (Option QaRound))
      → (declare_plan quote l h ref session version base units withdrawals rounds).0 ≡ declared_plan
      → let q =
          project (
            entries (declare_plan quote l h ref session version base units withdrawals rounds).1) in
        (version_of q session ≡ version)
        × ((w : String)
            → unit_view q session w
              ≡ withdraw_all withdrawals w
                  (plan_all units w (unit_view (project (entries h)) session w)))
  declare_refines h ref session version base units withdrawals rounds done =
      elim (declare-Settled quote l h ref session version base units withdrawals rounds) [
        | inl (_, now) ↦ (now.versioned, now.views)
        | inr (other, _) ↦ absurd (other done)
      ]

  -- A declaration that is refused, or that the store does not take, changes no plan: the work units and
  -- the accounting of every session, its plan version included, stay as they are, even where the refused
  -- revision and its reason are recorded.
  pub declare_atomic :
      (h : Handle) (ref session version base : String) (units : List PlanUnit)
      (withdrawals : List String) (rounds : List (Option QaRound))
      → (declare_plan quote l h ref session version base units withdrawals rounds).0 ≢ declared_plan
      → let q =
          project (
            entries (declare_plan quote l h ref session version base units withdrawals rounds).1) in
        (q.units ≡ (project (entries h)).units)
        × ((s : String) → budgets_of q s ≡ budgets_of (project (entries h)) s)
  declare_atomic h ref session version base units withdrawals rounds refusal =
      elim (declare-Settled quote l h ref session version base units withdrawals rounds) [
        | inl (done, _) ↦ absurd (refusal done)
        | inr (_, same) ↦ same
      ]

  plan_all_fixed :
      (us : List PlanUnit) (w : String) (v : PlanView)
      → is_free v.state ≡ false
      → plan_all us w v ≡ v
  plan_all_fixed [] w v h = refl
  plan_all_fixed (u ∷ us) w v h = ap (plan_all us w) (rw h (ground arith)) ∙ plan_all_fixed us w v h

  withdraw_all_fixed :
      (ws : List String) (w : String) (v : PlanView)
      → is_state_planned v.state ≡ false
      → withdraw_all ws w v ≡ v
  withdraw_all_fixed [] w v h = refl
  withdraw_all_fixed (x ∷ ws) w v h =
      ap (withdraw_all ws w) (rw h (ground arith)) ∙ withdraw_all_fixed ws w v h

  -- Work that has been admitted, has ended or was withdrawn is out of a declaration's reach: its state,
  -- contract and prerequisites are the same after any declaration, whatever the answer is.
  pub declare_frozen :
      (h : Handle) (ref session version base : String) (units : List PlanUnit)
      (withdrawals : List String) (rounds : List (Option QaRound)) (w : String)
      → is_free (unit_view (project (entries h)) session w).state ≡ false
      → unit_view
          (project
            (entries (declare_plan quote l h ref session version base units withdrawals rounds).1))
          session
          w
        ≡ unit_view (project (entries h)) session w
  unfolding unit_view find_unit
  declare_frozen h ref session version base units withdrawals rounds w fixed =
      elim (declare-Settled quote l h ref session version base units withdrawals rounds) [
        | inl (_, now) ↦
            let v = unit_view (project (entries h)) session w in
            now.views w
            ∙ ap (withdraw_all withdrawals w) (plan_all_fixed units w v fixed)
            ∙ withdraw_all_fixed withdrawals w v (not_planned v.state fixed)
        | inr (_, (same, _)) ↦ ap (λ m. view_of (lookup (unit_key session w) m)) same
      ]
    where
      not_planned : (s : State) → is_free s ≡ false → is_state_planned s ≡ false
      not_planned State.planned e = cc
      not_planned _ e = refl
