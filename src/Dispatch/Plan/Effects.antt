-- ===== src/Dispatch/Plan/Effects.antt =====
-- The batches of Commit and Revise, entry by entry, against the abstract steps on a plan's view.
use mathlib.Core.Path.{subst}
use takt_ai.History.Fold.Effect.{lifecycle_execution, lifecycle_budgeted}
use takt_ai.History.Log.{number}
use takt_ai.Base.{
  ℕ, suc, ◌+◌, String, ◌≡◌, refl, sym, ap, ◌∙◌, ◌⊎◌, inl, inr, true, false, ◌&&◌, none, List, [],
  ◌∷◌, ◌++◌, map, arith, eq_refl, ◌==◌, if◌then◌else◌, length,
}
use takt_ai.Base.Dict.{is_some, lookup}
use takt_ai.History.Kinds.{execution_kind, is_kind_admitted, is_kind_planned}
use takt_ai.History.Entry.{QaRound, Entry, activity_kind, activity_kind_of}
use takt_ai.History.Projection.{Budgets, Projection, unit_key, find_unit, budgets_of}
use takt_ai.History.Fold.{
  declare_round, budgeted, accepts, settle_executions, charge, put_budgets, fold_unit, note_version,
  fold_work, fold, project_from,
}
use takt_ai.History.Fold.View.{settle_units, fold_units, project_from-append}
use takt_ai.History.Fold.Placed.{IsPlaced, IsPlaced-by_change}
use takt_ai.History.Fold.Effect.{is_lifecycle}
use takt_ai.History.Fold.Sessions.{budgets-put, budgets_by, fold_unit_sessions}
use takt_ai.Dispatch.Plan.Graph.{PlanUnit}
use takt_ai.Dispatch.Plan.Members.{planned_entry, round_entry}
use takt_ai.Dispatch.Plan.Changes.{revised_entry, withdrawn_entry}
use takt_ai.Dispatch.Plan.View.{
  PlanView, view_of, unit_view, plan_one, withdraw_one, planned_step, withdrawn_step,
}

-- Every declaration of a plan in its order, and every withdrawal, on the view of one unit.
abbrev pub plan_all : List PlanUnit → String → PlanView → PlanView
plan_all [] w v = v
plan_all (u ∷ us) w v =
    plan_all us w (if u.work_unit == w then plan_one u.contract u.prerequisites v else v)

abbrev pub withdraw_all : List String → String → PlanView → PlanView
withdraw_all [] w v = v
withdraw_all (x ∷ xs) w v = withdraw_all xs w (if x == w then withdraw_one v else v)

abbrev pub version_of : Projection → String → String
version_of p session = (budgets_of p session).plan_version

-- What a run of entries of one session did to its plan: `f` on the view of every unit, and the version.
pub record Effected (session : String) (p q : Projection) (f : String → PlanView → PlanView)
    (version : String) : Type 0 where
  pub placed : IsPlaced q.units
  pub views : (w : String) → unit_view q session w ≡ f w (unit_view p session w)
  pub versioned : version_of q session ≡ version

pub Effected-then :
    {session : String} {p q r : Projection} {f g : String → PlanView → PlanView} {v v' : String}
    → Effected session p q f v
    → Effected session q r g v'
    → Effected session p r (λ w x. g w (f w x)) v'
Effected-then {g = g} a b = record {
  placed = b.placed;
  views = λ w. b.views w ∙ ap (g w) (a.views w);
  versioned = b.versioned;
}

number_split :
    (n : ℕ) (xs ys : List Entry) → number n (xs ++ ys) ≡ number n xs ++ number (n + length xs) ys
number_split n [] ys = ap (λ m. number m ys) (omega arith)
number_split n (x ∷ xs) ys =
    ap (λ zs. record x { seq = n } ∷ zs)
      (number_split (suc n) xs ys ∙ ap (λ m. number (suc n) xs ++ number m ys) (omega arith))

pub project_from-split :
    (p : Projection) (n : ℕ) (xs ys : List Entry)
    → project_from p (number n (xs ++ ys))
      ≡ project_from (project_from p (number n xs)) (number (n + length xs) ys)
project_from-split p n xs ys =
    ap (project_from p) (number_split n xs ys)
    ∙ project_from-append p (number n xs) (number (n + length xs) ys)

module _ (p : Projection) (e : Entry) where
  -- A planned entry notes its version, and a withdrawn one notes none.
  plan_sessions :
      is_lifecycle e.kind ≡ true
      → activity_kind_of e ≡ none
      → is_kind_admitted e.kind ≡ false
      → budgets_of (fold p e) e.session
        ≡ note_version e (budgets_of (settle_executions p e) e.session)
  unfolding fold fold_work settle_executions find_unit
  plan_sessions life work other =
      let q = settle_executions p e in
      let b = note_version e (budgets_of q e.session) in
      rw (lifecycle_execution e.kind life, work, lifecycle_budgeted e.kind b e life)
        (charged
          (fold_unit (put_budgets q e b) e b (find_unit (put_budgets q e b) e.session e.work_unit))
          b
          (fold_unit_sessions (put_budgets q e b) e b
            (find_unit (put_budgets q e b) e.session e.work_unit)))
    where
      charged :
          (q : Projection) (b : Budgets)
          → ((q.sessions ≡ (put_budgets (settle_executions p e) e b).sessions)
              × (is_kind_admitted e.kind
                    && accepts
                        (find_unit (put_budgets (settle_executions p e) e b) e.session e.work_unit)
                        e.kind
                  ≡ false))
            ⊎ ((q.sessions
                  ≡ (put_budgets (put_budgets (settle_executions p e) e b) e (
                      charge
                        (is_some (
                          find_unit
                            (put_budgets (settle_executions p e) e b)
                            e.session
                            e.work_unit))
                        e
                        b)).sessions)
                × (is_kind_admitted e.kind ≡ true))
          → budgets_of q e.session ≡ b
      charged q b (inl (same, _)) =
          budgets_by q (put_budgets (settle_executions p e) e b) e.session same
          ∙ budgets-put (settle_executions p e) e b e.session
          ∙ ap (λ t. if t then b else budgets_of (settle_executions p e) e.session)
              (eq_refl e.session)
      charged q b (inr (_, admits)) = absurd (cc (other, admits))

  kept_version :
      is_lifecycle e.kind ≡ true
      → activity_kind_of e ≡ none
      → is_kind_admitted e.kind ≡ false
      → is_kind_planned e.kind ≡ false
      → version_of (fold p e) e.session ≡ version_of p e.session
  kept_version life work other later =
      ap (λ (b : Budgets). b.plan_version) (plan_sessions life work other)
      ∙ rw later (
          ap (λ (b : Budgets). b.plan_version)
            (budgets_by (settle_executions p e) p e.session (settle_units p e).1))

  noted_version :
      is_lifecycle e.kind ≡ true
      → activity_kind_of e ≡ none
      → is_kind_admitted e.kind ≡ false
      → is_kind_planned e.kind ≡ true
      → version_of (fold p e) e.session ≡ e.plan_version
  noted_version life work other now =
      ap (λ (b : Budgets). b.plan_version) (plan_sessions life work other) ∙ rw now refl

-- The version after a run of declarations.
abbrev pub noted : List PlanUnit → String → String → String
noted [] version before = before
noted (u ∷ us) version before = version

pub noted_same : (us : List PlanUnit) (version : String) → noted us version version ≡ version
noted_same [] version = refl
noted_same (u ∷ us) version = refl

module _ (ref session version : String) where
  planned_once :
      (p : Projection) (n : ℕ) (u : PlanUnit)
      → IsPlaced p.units
      → Effected session p
          (fold p (record (planned_entry ref session version u) { seq = n }))
          (λ w v. if u.work_unit == w then plan_one u.contract u.prerequisites v else v)
          version
  unfolding is_lifecycle activity_kind
  planned_once p n u inv =
      let e = record (planned_entry ref session version u) { seq = n } in
      record {
        placed = IsPlaced-by_change p e _ inv (fold_units p e);
        views = λ w. planned_step p e inv w refl;
        versioned = noted_version p e refl refl refl refl;
      }

  pub planned_from :
      (p : Projection) (n : ℕ) (us : List PlanUnit)
      → IsPlaced p.units
      → Effected session p
          (project_from p (number n (map (planned_entry ref session version) us)))
          (plan_all us)
          (noted us version (version_of p session))
  unfolding project_from
  planned_from p n [] inv = record { placed = inv; views = λ w. refl; versioned = refl }
  planned_from p n (u ∷ us) inv =
      let q = fold p (record (planned_entry ref session version u) { seq = n }) in
      let first = planned_once p n u inv in
      subst
        (λ v.
          Effected session p
            (project_from q (number (suc n) (map (planned_entry ref session version) us)))
            (plan_all (u ∷ us)) v)
        (ap (noted us version) first.versioned ∙ noted_same us version)
        (Effected-then first (planned_from q (suc n) us first.placed))

  withdrawn_once :
      (p : Projection) (n : ℕ) (x : String)
      → IsPlaced p.units
      → Effected session p
          (fold p (record (withdrawn_entry ref session x) { seq = n }))
          (λ w v. if x == w then withdraw_one v else v)
          (version_of p session)
  unfolding is_lifecycle activity_kind
  withdrawn_once p n x inv =
      let e = record (withdrawn_entry ref session x) { seq = n } in
      record {
        placed = IsPlaced-by_change p e _ inv (fold_units p e);
        views = λ w. withdrawn_step p e inv w refl;
        versioned = kept_version p e refl refl refl refl;
      }

  pub withdrawn_from :
      (p : Projection) (n : ℕ) (xs : List String)
      → IsPlaced p.units
      → Effected session p
          (project_from p (number n (map (withdrawn_entry ref session) xs)))
          (withdraw_all xs)
          (version_of p session)
  unfolding project_from
  withdrawn_from p n [] inv = record { placed = inv; views = λ w. refl; versioned = refl }
  withdrawn_from p n (x ∷ xs) inv =
      let q = fold p (record (withdrawn_entry ref session x) { seq = n }) in
      let first = withdrawn_once p n x inv in
      subst
        (λ v.
          Effected session p
            (project_from q (number (suc n) (map (withdrawn_entry ref session) xs)))
            (withdraw_all (x ∷ xs)) v)
        first.versioned (Effected-then first (withdrawn_from q (suc n) xs first.placed))

  -- A run that leaves the units leaves the plan's views.
  still :
      (p q : Projection) (v : String)
      → q.units ≡ p.units
      → IsPlaced p.units
      → version_of q session ≡ v
      → Effected session p q (λ w x. x) v
  unfolding unit_view find_unit
  still p q v same inv now = record {
    placed = subst IsPlaced (sym same) inv;
    views = λ w. ap (λ m. view_of (lookup (unit_key session w) m)) same;
    versioned = now;
  }

  put_version :
      (p : Projection) (e : Entry) (b : Budgets)
      → e.session ≡ session
      → version_of (put_budgets p e b) session ≡ b.plan_version
  put_version p e b own =
      ap (λ (x : Budgets). x.plan_version)
        (budgets-put p e b session
          ∙ ap (λ t. if t then b else budgets_of p session)
              (ap (λ s. s == session) own ∙ eq_refl session))

  pub revised_once :
      (p : Projection) (n : ℕ) (base classification : String)
      → IsPlaced p.units
      → Effected session p
          (fold p (record (revised_entry ref session base version classification) { seq = n }))
          (λ w v. v)
          version
  unfolding fold fold_work settle_executions execution_kind budgeted activity_kind
  revised_once p n base classification inv = still p _ version refl inv (
      put_version p (record (revised_entry ref session base version classification) { seq = n }) _
        refl)

  pub round_once :
      (p : Projection) (n : ℕ) (r : QaRound)
      → IsPlaced p.units
      → Effected session p
          (fold p (record (round_entry ref session version r) { seq = n }))
          (λ w v. v)
          (version_of p session)
  unfolding fold fold_work settle_executions execution_kind budgeted activity_kind declare_round
  round_once p n r inv =
      still p _ (version_of p session) refl inv
        (put_version p (record (round_entry ref session version r) { seq = n }) _ refl)
