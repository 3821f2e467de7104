-- ===== src/Dispatch/Recovery/Accounting.antt =====
-- The accounting of a recovery's actions: what recordActions of takt/dispatch/recovery.go records is
-- counted once, and read back.
use takt_ai.Base.{
  ℕ, ◌+◌, ◌^◌, ◌<◌, String, ◌≡◌, sym, ap, ◌∙◌, inl, inr, false, none, [], ◌∷◌, eq_iff, eq_refl,
  ◌==◌, Bool-cases, length,
}
use takt_ai.Base.Dict.{get_or, lookup-insert_self}
use takt_ai.Base.Text.{pos, negsuc, ◌<>◌, codes, atoi, itoa}
use takt_ai.Base.Text.{pos, negsuc, atoi-itoa, codes-append}
use takt_ai.History.Kinds.{Kind, execution_kind}
use takt_ai.History.Entry.{Entry, activity_kind}
use takt_ai.History.Projection.{
  Recovery, Projection, no_recovery, budgets_of, recovery_of, parsed_or, ref_seq,
}
use takt_ai.History.Fold.{put_recovery, observed, budgeted}
use takt_ai.History.Fold.{settle_executions, fold_work, fold, project}
use takt_ai.History.Fold.Sessions.{budgets-put}
use takt_ai.History.Fold.Effect.{project-append}
use takt_ai.History.Log.Interface.{Log}
use takt_ai.Dispatch.Recovery.{journal_position, actions_entry, record_actions}

position_named : (t : String) → (("journal/" <> t) == "") ≡ false
position_named t = elim (Bool-cases (("journal/" <> t) == "")) [
  | inl same ↦
      cc (sym (codes-append "journal/" t) ∙ ap codes ((eq_iff ("journal/" <> t) "").0 same))
  | inr other ↦ other
]

-- The bus position that an accounting entry names is read back from it, for every position that an
-- `int` holds.
pub ref_seq-journal_position : (n : ℕ) → n < 2 ^ 63 → ref_seq (journal_position (pos n)) ≡ pos n
unfolding ref_seq journal_position atoi
ref_seq-journal_position n small =
    rw (position_named (itoa (pos n)), codes-append "journal/" (itoa (pos n)))
      (ap (parsed_or (negsuc 0)) (atoi-itoa n small))

fold_actions :
    (p : Projection) (e : Entry)
    → recovery_of (budgets_of (fold p (record e { kind = Kind.actions })) e.session) e.objective
      ≡ observed (recovery_of (budgets_of p e.session) e.objective) e
unfolding fold fold_work settle_executions execution_kind budgeted activity_kind
fold_actions p e =
    let b = budgets_of p e.session in
    let r = observed (recovery_of b e.objective) e in
    ap (λ c. recovery_of c e.objective) (budgets-put p e (put_recovery b e.objective r) e.session)
    ∙ rw (eq_refl e.session)
        (ap (get_or no_recovery) (lookup-insert_self e.objective r b.recoveries))

module _ (l : Log) where
  open l use {Handle, entries, append_batch, appended}

  -- Recording actions up to a position of the bus that an `int` holds adds them to the recovery's
  -- consumption and moves its cursor to that position, where the append succeeds.
  pub record_actions_lem :
      (h : Handle) (session objective : String) (r : Recovery) (n head : ℕ)
      → head < 2 ^ 63
      → (record_actions l h session objective r Kind.actions n (pos head)).0.append ≡ none
      → recovery_of
          (budgets_of
            (project (entries (record_actions l h session objective r Kind.actions n (pos head)).1))
            session)
          objective
        ≡ record (recovery_of (budgets_of (project (entries h)) session) objective) {
          used = (recovery_of (budgets_of (project (entries h)) session) objective).used + n;
          cursor = pos head;
        }
  unfolding record_actions actions_entry journal_position
  record_actions_lem h session objective r n head small done =
      let e = actions_entry session objective r Kind.actions n (pos head) in
      let e' = record e { seq = length (entries h) } in
      ap (λ es. recovery_of (budgets_of (project es) session) objective) (appended h (e ∷ []) done)
      ∙ ap (λ p. recovery_of (budgets_of p session) objective) (project-append (entries h) e')
      ∙ fold_actions (project (entries h)) e'
      ∙ ap
          (λ c. record (recovery_of (budgets_of (project (entries h)) session) objective) {
            used = (recovery_of (budgets_of (project (entries h)) session) objective).used + n;
            cursor = c;
          })
          (ref_seq-journal_position head small)
