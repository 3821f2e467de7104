-- ===== src/Dispatch/Plan/Runs.antt =====
-- Declare, Commit and Revise of takt/dispatch/plan.go refine the abstract steps on a plan's view.
use takt_ai.Base.Text.{is_blank}
use mathlib.Core.Path.{subst}
use takt_ai.History.Log.{number}
use takt_ai.Base.{
  ℕ, suc, ◌+◌, String, ◌≡◌, refl, sym, ap, ◌∙◌, ◌⊎◌, inl, inr, ◌||◌, Option, none, some, List, [],
  ◌∷◌, ◌++◌, map, eqb, ◌==◌, Bool-cases, length,
}
use takt_ai.Base.Dict.{is_some, lookup}
use takt_ai.History.Entry.{QaRound, Entry}
use takt_ai.History.Projection.{Projection, budgets_of}
use takt_ai.History.Fold.{fold, project_from}
use takt_ai.History.Fold.Placed.{IsPlaced}
use takt_ai.Dispatch.Plan.Graph.{ok, fault, PlanUnit, PlanFault, Checked, ◌>>=◌, valid_plan}
use takt_ai.Dispatch.Plan.Members.{
  unless_fault, planned_entry, check_members, round_entry, qa_round_entries,
}
use takt_ai.Dispatch.Plan.Changes.{
  current_plan, revise_units, check_withdrawals, check_admitted, check_prerequisites,
  check_disjoint, classify, revised_entry, withdrawn_entry, effects, revision_entries,
}
use takt_ai.Dispatch.Plan.Effects.{
  round_once, revised_once, noted_same, plan_all, withdraw_all, version_of, Effected, Effected-then,
  project_from-split, noted, planned_from, withdrawn_from,
}

-- What holds of the entries of a batch where the checks pass.
abbrev pub Passing : (List Entry → Type 0) → Checked (List Entry) → Type 0
Passing P (ok es) = P es
Passing P (fault e) = Unit

pub unless_fault-Passing :
    (P : List Entry → Type 0) (o : Option PlanFault) (r : Checked (List Entry))
    → Passing P r
    → Passing P (unless_fault o r)
unless_fault-Passing P none r h = h
unless_fault-Passing P (some e) r h = tt

module _ (ref session version : String) where
  -- At most one round is declared.
  abbrev pub RoundRun : List Entry → Type 0
  RoundRun rs = (rs ≡ []) ⊎ ((r : QaRound) × (rs ≡ round_entry ref session version r ∷ []))

  pub qa_round_entries-RoundRun :
      (p : Projection) (plan : List PlanUnit) (rounds : List (Option QaRound))
      → Passing RoundRun (qa_round_entries p ref session version plan rounds)
  unfolding qa_round_entries
  qa_round_entries-RoundRun p plan [] = inl refl
  qa_round_entries-RoundRun p plan (none ∷ []) = inl refl
  qa_round_entries-RoundRun p plan (some r ∷ []) =
      let declared : Checked (List Entry) = ok (round_entry ref session version r ∷ []) in
      elim (Bool-cases (is_blank r.objective || eqb (length r.units) 0)) [
        | inl empty ↦ rw empty tt
        | inr full ↦ elim (Bool-cases (is_some (lookup version (budgets_of p session).qa_rounds))) [
          | inl taken ↦ rw (full, taken) tt
          | inr free ↦
              rw (full, free)
                (unless_fault-Passing RoundRun (check_members p session plan [] r.units) declared
                  (inr (r, refl)))
        ]
      ]
  qa_round_entries-RoundRun p plan (r ∷ s ∷ rounds) = tt

  pub round_from :
      (p : Projection) (n : ℕ) (rs : List Entry)
      → RoundRun rs
      → IsPlaced p.units
      → Effected session p (project_from p (number n rs)) (λ w v. v) (version_of p session)
  unfolding project_from
  round_from p n rs (inl none_yet) inv =
      rw none_yet (record { placed = inv; views = λ w. refl; versioned = refl })
  round_from p n rs (inr (r, one)) inv = rw one (round_once ref session version p n r inv)

  -- A round and the declarations after it.
  pub commitment_from :
      (p : Projection) (n : ℕ) (rs : List Entry) (us : List PlanUnit)
      → RoundRun rs
      → IsPlaced p.units
      → Effected session p
          (project_from p (number n (rs ++ map (planned_entry ref session version) us)))
          (plan_all us)
          (noted us version (version_of p session))
  commitment_from p n rs us run inv =
      let first = round_from p n rs run inv in
      let q = project_from p (number n rs) in
      let rest = planned_from ref session version q (n + length rs) us first.placed in
      subst (λ r. Effected session p r (plan_all us) (noted us version (version_of p session)))
        (sym (project_from-split p n rs (map (planned_entry ref session version) us)))
        (subst
          (λ v.
            Effected session p
              (project_from q (number (n + length rs) (map (planned_entry ref session version) us)))
              (plan_all us) (noted us version v))
          first.versioned (Effected-then first rest))

  -- A revision's declarations and withdrawals.
  changes_from :
      (p : Projection) (n : ℕ) (adds : List PlanUnit) (withdrawals : List String)
      → version_of p session ≡ version
      → IsPlaced p.units
      → Effected session p
          (project_from p (
            number n (
              map (planned_entry ref session version) adds
              ++ map (withdrawn_entry ref session) withdrawals)))
          (λ w v. withdraw_all withdrawals w (plan_all adds w v))
          version
  changes_from p n adds withdrawals now inv =
      let first = planned_from ref session version p n adds inv in
      let q = project_from p (number n (map (planned_entry ref session version) adds)) in
      let m = n + length (map (planned_entry ref session version) adds) in
      let rest = withdrawn_from ref session version q m withdrawals first.placed in
      subst
        (λ r. Effected session p r (λ w v. withdraw_all withdrawals w (plan_all adds w v)) version)
        (sym (
          project_from-split p n (map (planned_entry ref session version) adds)
            (map (withdrawn_entry ref session) withdrawals)))
        (subst
          (λ v.
            Effected session p
              (project_from q (number m (map (withdrawn_entry ref session) withdrawals)))
              (λ w x. withdraw_all withdrawals w (plan_all adds w x)) v)
          (first.versioned ∙ ap (noted adds version) now ∙ noted_same adds version)
          (Effected-then first rest))

  pub revision_from :
      (p : Projection) (n : ℕ) (rs : List Entry) (base classification : String)
      (adds : List PlanUnit) (withdrawals : List String)
      → RoundRun rs
      → IsPlaced p.units
      → Effected session p
          (project_from p
            (number n (rs ++ effects ref session base version classification adds withdrawals)))
          (λ w v. withdraw_all withdrawals w (plan_all adds w v))
          version
  unfolding project_from
  revision_from p n rs base classification adds withdrawals run inv =
      let first = round_from p n rs run inv in
      let q = project_from p (number n rs) in
      let m = n + length rs in
      let second = revised_once ref session version q m base classification first.placed in
      let rest =
        changes_from
          (fold q (record (revised_entry ref session base version classification) { seq = m }))
          (suc m) adds withdrawals second.versioned second.placed in
      subst
        (λ r. Effected session p r (λ w v. withdraw_all withdrawals w (plan_all adds w v)) version)
        (sym (
          project_from-split p n rs
            (effects ref session base version classification adds withdrawals)))
        (Effected-then first (Effected-then second rest))

  abbrev pub RevisionRun : String → List PlanUnit → List String → List Entry → Type 0
  RevisionRun base adds withdrawals es =
      (rs : List Entry) × (classification : String) × RoundRun rs
      × (es ≡ rs ++ effects ref session base version classification adds withdrawals)

  then_effects :
      (base classification : String) (adds : List PlanUnit) (withdrawals : List String)
      (r : Checked (List Entry))
      → Passing RoundRun r
      → Passing
          (RevisionRun base adds withdrawals)
          (r >>= λ es. ok (es ++ effects ref session base version classification adds withdrawals))
  then_effects base classification adds withdrawals (ok rs) run = (rs, classification, run, refl)
  then_effects base classification adds withdrawals (fault e) run = tt

  pub revision_entries-RevisionRun :
      (p : Projection) (base : String) (adds : List PlanUnit) (withdrawals : List String)
      (rounds : List (Option QaRound))
      → Passing
          (RevisionRun base adds withdrawals)
          (revision_entries p ref session base version adds withdrawals rounds)
  unfolding revision_entries
  revision_entries-RevisionRun p base adds withdrawals rounds =
      let resulting = revise_units (current_plan p session) adds withdrawals in
      let R = RevisionRun base adds withdrawals in
      elim (Bool-cases ((budgets_of p session).plan_version == base)) [
        | inr stale ↦ rw stale tt
        | inl fresh ↦ rw fresh (
            unless_fault-Passing R (check_disjoint adds withdrawals) _ (
              unless_fault-Passing R (valid_plan p session resulting) _ (
                unless_fault-Passing R (check_withdrawals p session withdrawals) _ (
                  unless_fault-Passing R (check_admitted p session adds) _ (
                    unless_fault-Passing R (check_prerequisites p session resulting adds) _ (
                      then_effects base (classify (current_plan p session) resulting) adds
                        withdrawals _ (qa_round_entries-RoundRun p resulting rounds)))))))
      ]
