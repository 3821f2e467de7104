-- ===== src/Dispatch/Recovery/Exhaustion.antt =====
-- How accountRecovery of takt/dispatch/recovery.go abandons an exhausted recovery.
use takt_ai.History.Log.{AppendError}
use takt_ai.Dispatch.Admission.{attempts_made}
use takt_ai.Base.Words.{raised}
use takt_ai.Base.{
  some, eqb, Option, ℕ, ◌+◌, ◌^◌, ◌<◌, String, ◌≡◌, refl, sym, ap, ◌∙◌, ◌↔◌, ◌⊎◌, inl, inr, true,
  false, not, ◌&&◌, ◌||◌, none, List, [], ◌∷◌, arith, eq_refl, ltb, Bool-cases, length, any,
}
use takt_ai.Base.Dict.{is_some, get_or, size, lookup-insert_self}
use takt_ai.Base.Text.{ℤ, pos, lt_ℤ}
use takt_ai.Base.Text.{pos}
use takt_ai.History.Kinds.{Kind, execution_kind}
use takt_ai.History.Entry.{Entry, activity_kind}
use takt_ai.History.Projection.{
  Recovery, Budgets, Projection, no_recovery, budgets_of, recovery_of, allowance_key, allowance_of,
}
use takt_ai.History.Fold.{
  closed, bound_recovery_actions, bound_recovery_attempts, put_recovery, budgeted,
}
use takt_ai.History.Fold.{settle_executions, fold_work, fold, project}
use takt_ai.History.Fold.Sessions.{budgets-put}
use takt_ai.History.Fold.Effect.{project-append}
use takt_ai.History.Log.Interface.{Log}
use takt_ai.Dispatch.Policy.{Report}
use takt_ai.Dispatch.Recovery.{
  backtrack_entry, force_backtrack, backtrack_for, account_recovery, JournalEntry, scope_actions,
  unit_flies, exhaustion, record_actions,
}
use takt_ai.Dispatch.Recovery.Accounting.{record_actions_lem}

fold_closed :
    (p : Projection) (e : Entry)
    → recovery_of
        (budgets_of (fold p (record e { kind = Kind.recovery_closed })) e.session)
        e.objective
      ≡ closed (recovery_of (budgets_of p e.session) e.objective) e
unfolding fold fold_work settle_executions execution_kind budgeted activity_kind
fold_closed p e =
    let b = budgets_of p e.session in
    let r = closed (recovery_of b e.objective) e in
    ap (λ c. recovery_of c e.objective) (budgets-put p e (put_recovery b e.objective r) e.session)
    ∙ rw (eq_refl e.session)
        (ap (get_or no_recovery) (lookup-insert_self e.objective r b.recoveries))

exhaustion_test :
    (session objective : String) (r : Recovery) (b : Budgets) (p : Projection)
    → not (is_some (exhaustion session r b objective p)) ≡ (
        ltb r.used
          (raised r.actions (allowance_of b (allowance_key bound_recovery_actions objective)))
        && (ltb
              (size (get_or [] r.attempted))
              (raised r.attempts (allowance_of b (allowance_key bound_recovery_attempts objective)))
            || any (unit_flies p session) r.scope))
unfolding exhaustion
exhaustion_test session objective r b p = ground arith

module _ (l : Log) where
  open l use {Handle, entries, append_batch, appended}

  abbrev pub stored_recovery : Handle → String → String → Recovery
  stored_recovery h session objective =
      recovery_of (budgets_of (project (entries h)) session) objective

  closed_after :
      (h : Handle) (session objective : String) (r : Recovery) (head : ℤ) (x : Option String)
      → (backtrack_for l h session objective r head x).0.append ≡ none
      → (stored_recovery (backtrack_for l h session objective r head x).1 session objective).is_open
        ≡ (stored_recovery h session objective).is_open && not (is_some x)
  unfolding backtrack_for
  closed_after h session objective r head none done = ground arith
  closed_after h session objective r head (some cause) done =
      let e = backtrack_entry session objective r cause head in
      let e' = record e { seq = length (entries h) } in
      ap (λ es. (recovery_of (budgets_of (project es) session) objective).is_open)
        (appended h (e ∷ []) done)
      ∙ ap (λ p. (recovery_of (budgets_of p session) objective).is_open)
          (project-append (entries h) e')
      ∙ ap (λ (x : Recovery). x.is_open) (fold_closed (project (entries h)) e')
      ∙ ground arith

  kept_open :
      (h : Handle) (session objective : String) (r : Recovery) (n head : ℕ)
      → head < 2 ^ 63
      → (record_actions l h session objective r Kind.actions n (pos head)).0.append ≡ none
      → (stored_recovery
          (record_actions l h session objective r Kind.actions n (pos head)).1
          session
          objective).is_open
        ≡ (stored_recovery h session objective).is_open
  kept_open h session objective r n head small done =
      ap (λ (x : Recovery). x.is_open)
        (record_actions_lem l h session objective r n head small done)

  -- What accountRecovery does with the session's recovery of an objective.
  abbrev pub accounted : Handle → List JournalEntry → String → String → ℕ → Report × Handle
  accounted h es session objective head =
      let p = project (entries h) in
      let b = budgets_of p session in
      account_recovery l h es session objective (recovery_of b objective) b p (pos head)

  missing : (x : Option AppendError) → is_some x ≡ false → x ≡ none
  missing none kept = refl
  missing (some e) kept = absurd cc

  module _ (es : List JournalEntry) (session objective : String) (r : Recovery) (b : Budgets) where
    module _ (h : Handle) (p : Projection) (head : ℤ) (ahead : lt_ℤ head r.cursor ≡ false) where
      abbrev counted : Recovery
      counted = record r { used = r.used + scope_actions es session r }

      abbrev counting : Report × Handle
      counting =
          record_actions l h session objective counted Kind.actions (scope_actions es session r)
            head

      account_idle :
          eqb (scope_actions es session r) 0 ≡ true
          → account_recovery l h es session objective r b p head
            ≡ force_backtrack l h session objective r b p head
      unfolding account_recovery
      account_idle idle = rw (ahead, idle) refl

      account_lost :
          eqb (scope_actions es session r) 0 ≡ false
          → is_some counting.0.append ≡ true
          → account_recovery l h es session objective r b p head ≡ counting
      unfolding account_recovery
      account_lost busy lost = rw (ahead, busy, lost) refl

      account_kept :
          eqb (scope_actions es session r) 0 ≡ false
          → is_some counting.0.append ≡ false
          → account_recovery l h es session objective r b p head
            ≡ force_backtrack l counting.1 session objective counted b p head
      unfolding account_recovery
      account_kept busy kept = rw (ahead, busy, kept) refl

  accounted_flag :
      (h : Handle) (es : List JournalEntry) (session objective : String) (head : ℕ)
      → head < 2 ^ 63
      → lt_ℤ (pos head) (stored_recovery h session objective).cursor ≡ false
      → (accounted h es session objective head).0.append ≡ none
      → (stored_recovery (accounted h es session objective head).1 session objective).is_open ≡ (
          (stored_recovery h session objective).is_open
          && not (
              is_some (
                exhaustion session
                  (record (stored_recovery h session objective) {
                    used =
                        (stored_recovery h session objective).used
                        + scope_actions es session (stored_recovery h session objective);
                  })
                  (budgets_of (project (entries h)) session)
                  objective
                  (project (entries h)))))
  unfolding force_backtrack
  accounted_flag h es session objective head small ahead done =
      let r = stored_recovery h session objective in
      let n = scope_actions es session r in
      let r' = record r { used = r.used + n } in
      let p = project (entries h) in
      let b = budgets_of p session in
      let recorded = record_actions l h session objective r' Kind.actions n (pos head) in
      elim (Bool-cases (eqb n 0)) [
        | inl idle ↦
            let same = account_idle es session objective r b h p (pos head) ahead idle in
            ap (λ (x : Report × Handle). (stored_recovery x.1 session objective).is_open) same
            ∙ closed_after h session objective r (pos head) (exhaustion session r b objective p)
                (ap (λ (x : Report × Handle). x.0.append) (sym same) ∙ done)
            ∙ ap
                (λ k.
                  r.is_open
                  && not (is_some (exhaustion session (record r { used = k }) b objective p)))
                (ground (arith, idle))
        | inr busy ↦ elim (Bool-cases (is_some recorded.0.append)) [
          | inl lost ↦
              let same = account_lost es session objective r b h p (pos head) ahead busy lost in
              absurd (
                cc (
                  sym lost
                  ∙ ap is_some (ap (λ (x : Report × Handle). x.0.append) (sym same) ∙ done)))
          | inr kept ↦
              let same = account_kept es session objective r b h p (pos head) ahead busy kept in
              ap (λ (x : Report × Handle). (stored_recovery x.1 session objective).is_open) same
              ∙ closed_after recorded.1 session objective r' (pos head)
                  (exhaustion session r' b objective p)
                  (ap (λ (x : Report × Handle). x.0.append) (sym same) ∙ done)
              ∙ ap (λ t. t && not (is_some (exhaustion session r' b objective p)))
                  (kept_open h session objective r' n head small (missing recorded.0.append kept))
        ]
      ]

  -- A recovery that is accounted up to a bus position of an `int`, not before its cursor, and whose
  -- appends succeed, is open after it exactly where it was open before, its consumption with the
  -- calls now counted is below its actions, and its attempts are below theirs or a unit of its scope
  -- is in flight. Both limits count what exceptions granted.
  pub accounted-open :
      (h : Handle) (es : List JournalEntry) (session objective : String) (head : ℕ)
      → head < 2 ^ 63
      → lt_ℤ (pos head) (stored_recovery h session objective).cursor ≡ false
      → (accounted h es session objective head).0.append ≡ none
      → ((stored_recovery (accounted h es session objective head).1 session objective).is_open
          ≡ true)
        ↔ (((stored_recovery h session objective).is_open ≡ true)
            × ((stored_recovery h session objective).used
                  + scope_actions es session (stored_recovery h session objective)
                < raised (stored_recovery h session objective).actions (
                    allowance_of
                      (budgets_of (project (entries h)) session)
                      (allowance_key bound_recovery_actions objective)))
            × ((size (attempts_made (stored_recovery h session objective))
                  < raised (stored_recovery h session objective).attempts (
                      allowance_of
                        (budgets_of (project (entries h)) session)
                        (allowance_key bound_recovery_attempts objective)))
                ⊎ (any
                      (unit_flies (project (entries h)) session)
                      (stored_recovery h session objective).scope
                    ≡ true)))
  accounted-open h es session objective head small ahead done =
      let flag = accounted_flag h es session objective head small ahead done in
      let r = stored_recovery h session objective in
      let p = project (entries h) in
      let test =
        exhaustion_test session objective (record r { used = r.used + scope_actions es session r })
          (budgets_of p session) p in
      ((λ o. ground (arith, flag, test, o)), (λ o. ground (arith, flag, test, o.0, o.1, o.2)))
