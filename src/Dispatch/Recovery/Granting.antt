-- ===== src/Dispatch/Recovery/Granting.antt =====
-- When DeclareRecovery of takt/dispatch/recovery.go grants a recovery.
use takt_ai.Base.Words.{raised}
use takt_ai.Base.{
  ◌≤◌, ◌<◌, String, ◌≡◌, refl, sym, ◌∙◌, ◌↔◌, ◌⊎◌, inl, inr, true, false, not, ◌||◌, List, [], ◌∷◌,
  arith, eq_iff, ltb, leb, ◌==◌, Bool-cases, All,
}
use takt_ai.Base.Dict.{is_some}
use takt_ai.History.Entry.{Entry}
use takt_ai.History.Projection.{
  Budgets, budgets_of, recovery_of, scope_of, allowance_key, allowance_of,
}
use takt_ai.History.Fold.{project}
use takt_ai.History.Log.Interface.{Log}
use takt_ai.Dispatch.Policy.{AdmissionPolicy, bound_recovery}
use takt_ai.Dispatch.Recovery.{
  declaration_entry, declare_recovery, RecoveryDeclaration, scope_owner, is_incomplete,
  declaration_decision,
}

owner_free :
    (b : Budgets) (scope : List String)
    → ((scope_owner b scope).0 ≡ "") ↔ All (λ u. (scope_of b u).0 ≡ "") scope
unfolding scope_owner
owner_free b [] = (λ h. tt, λ h. refl)
owner_free b (u ∷ us) = elim (Bool-cases ((scope_of b u).0 == "")) [
  | inl free ↦ rw free (
    λ h. ((eq_iff (scope_of b u).0 "").0 free, (owner_free b us).0 h),
    λ h. (owner_free b us).1 h.1,
  )
  | inr owned ↦
      rw owned (λ h. absurd (cc (sym ((eq_iff (scope_of b u).0 "").1 h) ∙ owned)), λ h. h.0)
]

declaration_test :
    (b : Budgets) (policy : AdmissionPolicy) (e : Entry) (d : RecoveryDeclaration)
    → is_some (declaration_decision b policy e d).1 ≡ (
        is_incomplete d
        || (ltb policy.max_actions d.actions
            || (ltb policy.max_attempts d.attempts
                || (not ((scope_owner b d.scope).0 == "")
                    || leb
                        (raised policy.recovery_failures
                          (allowance_of b (allowance_key bound_recovery d.objective)))
                        (recovery_of b d.objective).failures))))
unfolding declaration_decision
declaration_test b policy e d = ground arith

-- The conditions under which the declaration's switch admits a recovery.
abbrev pub IsGrantable : Budgets → AdmissionPolicy → RecoveryDeclaration → Type 0
IsGrantable b policy d =
    (is_incomplete d ≡ false)
    × (d.actions ≤ policy.max_actions)
    × (d.attempts ≤ policy.max_attempts)
    × All (λ u. (scope_of b u).0 ≡ "") d.scope
    × ((recovery_of b d.objective).failures
        < raised policy.recovery_failures
            (allowance_of b (allowance_key bound_recovery d.objective)))

decision_iff :
    (b : Budgets) (policy : AdmissionPolicy) (e : Entry) (d : RecoveryDeclaration)
    → (is_some (declaration_decision b policy e d).1 ≡ false) ↔ IsGrantable b policy d
decision_iff b policy e d = (
  λ h.
      let t = sym (declaration_test b policy e d) ∙ h in
      (
        ground (arith, t),
        ground (arith, t),
        ground (arith, t),
        (owner_free b d.scope).0 ((eq_iff (scope_owner b d.scope).0 "").0 (ground (arith, t))),
        ground (arith, t),
      ),
  λ h.
      declaration_test b policy e d
      ∙ (let free = (eq_iff (scope_owner b d.scope).0 "").1 ((owner_free b d.scope).1 h.3) in
          ground (arith, free, h.0, h.1, h.2, h.4)),
)

module _ (l : Log) where
  open l use {Handle, entries}

  -- A declared recovery is not refused exactly when the objective's recovery is open already, or the
  -- declaration is complete, its budgets are within the policy's ceilings, no unit of its scope
  -- belongs to an unresolved recovery, and the objective's failed recoveries are fewer than the
  -- policy allows with what exceptions granted. An open recovery leaves the record as it was.
  pub declaration_iff :
      (h : Handle) (policy : AdmissionPolicy) (journal_ref event session : String)
      (d : RecoveryDeclaration)
      → ((is_some (declare_recovery l h policy journal_ref event session d).0.refusal ≡ false) ↔ (
          ((recovery_of (budgets_of (project (entries h)) session) d.objective).is_open ≡ true)
          ⊎ IsGrantable (budgets_of (project (entries h)) session) policy d))
        × ((recovery_of (budgets_of (project (entries h)) session) d.objective).is_open ≡ true
            → entries (declare_recovery l h policy journal_ref event session d).1 ≡ entries h)
  unfolding declare_recovery
  declaration_iff h policy journal_ref event session d =
      let b = budgets_of (project (entries h)) session in
      let made = decision_iff b policy (declaration_entry journal_ref event session d) d in
      elim (Bool-cases (recovery_of b d.objective).is_open) [
        | inl open_now ↦ rw open_now (((λ x. inl refl), (λ x. refl)), λ x. refl)
        | inr shut ↦ rw shut (
          (
            λ x. inr (made.0 x),
            λ x. elim x [ inl opened ↦ absurd cc | inr grantable ↦ made.1 grantable ],
          ),
          λ x. absurd cc,
        )
      ]
