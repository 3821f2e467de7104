-- ===== src/History/Fold/Unplanned.antt =====
-- `Unplanned` of takt/history/projection.go: what one entry adds to a session's count.
use takt_ai.Base.{
  ℕ, ◌+◌, String, ◌≡◌, refl, sym, ap, ◌∙◌, inl, inr, Bool, true, false, not, ◌&&◌, Option, none,
  some, arith, eq_iff, eq_refl, ◌==◌, if◌then◌else◌, Bool-cases,
}
use takt_ai.Base.Dict.{Dict, is_some, bit, lookup}
use takt_ai.History.Kinds.{NodeKind, Kind, execution_kind, is_kind_admitted}
use takt_ai.History.Entry.{QaRound, Entry, activity_kind_of}
use takt_ai.History.Projection.{
  WorkUnit, Recovery, Strengthening, Budgets, Projection, unit_key, find_unit, budgets_of,
  recovery_of, qa_round_for,
}
use takt_ai.History.Fold.Budgeted.{
  accepts, declare_round, reconcile_actions, lift_abandonment, grant, except, budgeted,
}
use takt_ai.History.Fold.Defs.{
  fold_execution, settle_executions, fold_activity, start_round, mark_attempt, consume_attempt,
  charge, put_budgets, fold_unit, note_version, fold_budgeted, fold_work, fold_subject, fold,
}
use takt_ai.History.Fold.View.{
  execution_not_admitted, activity_not_admitted, fold_execution_units, fold_activity_units,
  settle_units,
}
use takt_ai.History.Fold.Sessions.{budgets-put, budgets_by, fold_unit_sessions}

-- 1 for the admission of a unit never seen before, else 0.
unfoldable pub newly : Projection → Entry → ℕ
newly p e = bit (is_kind_admitted e.kind && not (is_some (find_unit p e.session e.work_unit)))

abbrev pub unplanned_of : Projection → String → ℕ
unplanned_of p s = (budgets_of p s).unplanned

abbrev Uncharged : Kind → Budgets → Option Budgets → Type 0
Uncharged k b none = Unit
Uncharged k b (some b') = (b'.unplanned ≡ b.unplanned) × (is_kind_admitted k ≡ false)

except_unplanned : (b : Budgets) (e : Entry) → (except b e).unplanned ≡ b.unplanned
unfolding except reconcile_actions lift_abandonment grant
except_unplanned b e = ground arith

round_unplanned :
    (b : Budgets) (e : Entry) (r : Option QaRound) → (declare_round b e r).unplanned ≡ b.unplanned
unfolding declare_round
round_unplanned b e none = refl
round_unplanned b e (some r) = refl

budgeted-Uncharged : (k : Kind) (b : Budgets) (e : Entry) → Uncharged k b (budgeted k b e)
unfolding budgeted
budgeted-Uncharged Kind.qa_round b e = (round_unplanned b e e.qa_round, refl)
budgeted-Uncharged Kind.exception b e = (except_unplanned b e, refl)
budgeted-Uncharged Kind.denied b e = (refl, refl)
budgeted-Uncharged Kind.contested b e = (refl, refl)
budgeted-Uncharged Kind.stopped b e = (refl, refl)
budgeted-Uncharged Kind.escalated b e = (refl, refl)
budgeted-Uncharged Kind.recovery_declared b e = (refl, refl)
budgeted-Uncharged Kind.actions b e = (refl, refl)
budgeted-Uncharged Kind.actions_uncertain b e = (refl, refl)
budgeted-Uncharged Kind.restored b e = (refl, refl)
budgeted-Uncharged Kind.recovery_closed b e = (refl, refl)
budgeted-Uncharged Kind.interlocutor_switched b e = (refl, refl)
budgeted-Uncharged Kind.interlocutor_handoff b e = (refl, refl)
budgeted-Uncharged Kind.interlocutor_aborted b e = (refl, refl)
budgeted-Uncharged Kind.revised b e = (refl, refl)
budgeted-Uncharged Kind.invalid_revision b e = (refl, refl)
budgeted-Uncharged Kind.seat_restored b e = (refl, refl)
budgeted-Uncharged _ b e = tt

mark_unplanned :
    (r : Recovery) (e : Entry) (m : Option (Dict Bool)) (b : Budgets)
    → (mark_attempt r e m b).unplanned ≡ b.unplanned
mark_unplanned r e none b = refl
mark_unplanned r e (some m) b = refl

consume_unplanned : (e : Entry) (b : Budgets) → (consume_attempt e b).unplanned ≡ b.unplanned
consume_unplanned e b = elim (Bool-cases (e.objective == "")) [
  | inl h ↦ rw h refl
  | inr h ↦
      rw h (mark_unplanned (recovery_of b e.objective) e (recovery_of b e.objective).attempted b)
]

start_unplanned :
    (r : String × Strengthening) (b : Budgets) → (start_round r b).unplanned ≡ b.unplanned
start_unplanned (v, r) b = ground arith

charge_unplanned :
    (known : Bool) (e : Entry) (b : Budgets)
    → (charge known e b).unplanned ≡ b.unplanned + bit (not known)
unfolding charge
charge_unplanned true e b =
    consume_unplanned e _ ∙ start_unplanned (qa_round_for b e.work_unit) b ∙ omega arith
charge_unplanned false e b =
    consume_unplanned e _
    ∙ start_unplanned (qa_round_for (record b { unplanned = b.unplanned + 1 }) e.work_unit) _
    ∙ omega arith

note_unplanned : (e : Entry) (b : Budgets) → (note_version e b).unplanned ≡ b.unplanned
note_unplanned e b = ground arith

pub newly_zero :
    (k : Kind) (u : Option WorkUnit)
    → (is_kind_admitted k && accepts u k) ≡ false
    → bit (is_kind_admitted k && not (is_some u)) ≡ 0
unfolding accepts
newly_zero Kind.admitted none h = cc
newly_zero Kind.admitted (some u) h = refl
newly_zero _ u h = refl

module _ (e : Entry) (s : String) where
  put_unplanned :
      (p : Projection) (b : Budgets) (n : ℕ)
      → b.unplanned ≡ unplanned_of p e.session + n
      → unplanned_of (put_budgets p e b) s ≡ unplanned_of p s + (if e.session == s then n else 0)
  put_unplanned p b n h =
      ap (λ (c : Budgets). c.unplanned) (budgets-put p e b s)
      ∙ (elim (Bool-cases (e.session == s)) [
        | inl own ↦ rw own (h ∙ rw ((eq_iff e.session s).0 own) refl)
        | inr other ↦ rw other (omega arith)
      ])

  -- A session's count is not touched by an assignment that keeps it.
  put_quiet :
      (p : Projection) (b : Budgets)
      → b.unplanned ≡ unplanned_of p e.session
      → unplanned_of (put_budgets p e b) s ≡ unplanned_of p s
  put_quiet p b h = put_unplanned p b 0 (h ∙ omega arith) ∙ ground arith

  fold_unit_unplanned :
      (q : Projection) (b : Budgets) (u : Option WorkUnit)
      → b.unplanned ≡ unplanned_of q e.session
      → unplanned_of (fold_unit (put_budgets q e b) e b u) s
        ≡ unplanned_of q s
          + (if e.session == s then bit (is_kind_admitted e.kind && not (is_some u)) else 0)
  fold_unit_unplanned q b u h =
      let r = put_budgets q e b in
      let own : budgets_of r e.session ≡ b =
        rw (budgets-put q e b e.session, eq_refl e.session) refl in
      elim (fold_unit_sessions r e b u) [
        | inl same ↦
            ap (λ (c : Budgets). c.unplanned) (budgets_by (fold_unit r e b u) r s same.0)
            ∙ put_quiet q b h
            ∙ rw (newly_zero e.kind u same.1) (ground arith)
        | inr charged ↦
            ap (λ (c : Budgets). c.unplanned)
              (budgets_by (fold_unit r e b u) (put_budgets r e (charge (is_some u) e b)) s
                charged.0)
            ∙ put_unplanned r (charge (is_some u) e b) (bit (not (is_some u))) (
                charge_unplanned (is_some u) e b
                ∙ ap (λ (c : Budgets). c.unplanned + bit (not (is_some u))) (sym own))
            ∙ rw (charged.1, put_quiet q b h) refl
      ]

  fold_budgeted_unplanned :
      (o : Option Budgets) (q : Projection) (b : Budgets)
      → Uncharged e.kind b o
      → b.unplanned ≡ unplanned_of q e.session
      → unplanned_of (fold_budgeted o q e b) s
        ≡ unplanned_of q s + (if e.session == s then newly q e else 0)
  unfolding newly
  fold_budgeted_unplanned (some b') q b g h = put_quiet q b' (g.0 ∙ h) ∙ rw g.1 (ground arith)
  fold_budgeted_unplanned none q b g h =
      fold_unit_unplanned q b (find_unit q e.session e.work_unit) h

  newly_by : (p q : Projection) → p.units ≡ q.units → newly p e ≡ newly q e
  unfolding newly find_unit
  newly_by p q h =
      ap
        (λ m.
          bit
            (is_kind_admitted e.kind && not (is_some (lookup (unit_key e.session e.work_unit) m))))
        h

  not_newly :
      (p : Projection)
      → is_kind_admitted e.kind ≡ false
      → (if e.session == s then newly p e else 0) ≡ 0
  unfolding newly
  not_newly p h = rw h (ground arith)

  fold_subject_unplanned :
      (o : Option NodeKind) (q : Projection)
      → activity_kind_of e ≡ o
      → unplanned_of (fold_subject o q e) s
        ≡ unplanned_of q s + (if e.session == s then newly q e else 0)
  unfolding fold_work
  fold_subject_unplanned none q h =
      fold_budgeted_unplanned (budgeted e.kind _ e) q _ (budgeted-Uncharged e.kind _ e)
        (note_unplanned e _)
  fold_subject_unplanned (some k) q h =
      ap (λ (c : Budgets). c.unplanned)
        (budgets_by (fold_activity q e k) q s (fold_activity_units q e k).1)
      ∙ rw (not_newly q (activity_not_admitted e.kind e k h)) (omega arith)

  -- An entry adds one to the count of its own session when it admits a unit never seen before, and
  -- otherwise leaves every session's count.
  pub fold_unplanned :
      (p : Projection)
      → unplanned_of (fold p e) s ≡ unplanned_of p s + (if e.session == s then newly p e else 0)
  unfolding fold
  fold_unplanned p = elim (Bool-cases (execution_kind e.kind)) [
    | inl execution ↦ rw execution (
        ap (λ (c : Budgets). c.unplanned)
          (budgets_by (fold_execution p e) p s (fold_execution_units p e).1)
        ∙ rw (not_newly p (execution_not_admitted e.kind execution)) (omega arith))
    | inr other ↦ rw other (
        fold_subject_unplanned (activity_kind_of e) (settle_executions p e) refl
        ∙ rw (newly_by (settle_executions p e) p (settle_units p e).0) (
            ap (λ (c : Budgets). c.unplanned + (if e.session == s then newly p e else 0))
              (budgets_by (settle_executions p e) p s (settle_units p e).1)))
  ]
