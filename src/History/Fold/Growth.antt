-- ===== src/History/Fold/Growth.antt =====
-- A session's consumption only grows.
use takt_ai.Base.{
  ℕ, ◌+◌, ◌≤◌, String, ◌≡◌, sym, inl, inr, Bool, true, false, not, ◌&&◌, Option, none, some, List,
  [], ◌∷◌, ◌++◌, arith, eq_iff, eq_refl, ◌==◌, if◌then◌else◌, Bool-cases,
}
use takt_ai.Base.Dict.{Dict, is_some, lookup, insert, lookup-insert}
use takt_ai.History.Kinds.{NodeKind, Kind, execution_kind, is_kind_planned}
use takt_ai.History.Entry.{QaRound, Entry, activity_kind_of}
use takt_ai.History.Projection.{
  Recovery, Strengthening, Budgets, Projection, new_projection, find_unit, budgets_of, recovery_of,
  qa_round_for,
}
use takt_ai.History.Fold.Budgeted.{
  bound_recovery_actions, declare_round, reconcile_actions, lift_abandonment, grant, except,
  budgeted,
}
use takt_ai.History.Fold.Defs.{
  fold_execution, settle_executions, fold_activity, start_round, mark_attempt, charge, put_budgets,
  fold_unit, note_version, fold_budgeted, fold_work, fold_subject, fold, project_from, project,
}
use takt_ai.History.Fold.Sessions.{budgets-put, budgets_by, fold_unit_sessions}
use takt_ai.History.Fold.View.{
  project_from-append, fold_execution_units, fold_activity_units, settle_units,
}

-- `b` has consumed at least what `a` had.
pub record Grows (a b : Budgets) : Type 0 where
  pub unplanned : a.unplanned ≤ b.unplanned
  pub contests : (k : String) → lookup k a.contests ≡ some true → lookup k b.contests ≡ some true
  pub stopped : a.stopped ≤ b.stopped
  pub escalated : a.escalated ≤ b.escalated

pub Grows-refl : (a : Budgets) → Grows a a
Grows-refl a = record {
  unplanned = omega arith;
  contests = λ k h. h;
  stopped = omega arith;
  escalated = omega arith;
}

pub Grows-trans : {a b c : Budgets} → Grows a b → Grows b c → Grows a c
Grows-trans g h = record {
  unplanned = omega arith;
  contests = λ k x. h.contests k (g.contests k x);
  stopped = omega arith;
  escalated = omega arith;
}

abbrev GrowsTo : Budgets → Option Budgets → Type 0
GrowsTo a none = Unit
GrowsTo a (some b) = Grows a b

contest-Grows :
    (b : Budgets) (k : String) → Grows b (record b { contests = insert k true b.contests })
contest-Grows b k = record {
  unplanned = omega arith;
  contests = λ j h. ground (arith, lookup-insert k j true b.contests);
  stopped = omega arith;
  escalated = omega arith;
}

grant-Grows : (b : Budgets) (e : Entry) → Grows b (grant b e)
unfolding grant
grant-Grows b e = record {
  unplanned = omega arith;
  contests = λ j h. h;
  stopped = omega arith;
  escalated = omega arith;
}

if-Grows :
    (a : Budgets) (t : Bool) (b c : Budgets) → Grows a b → Grows a c → Grows a (if t then b else c)
if-Grows a true b c g h = g
if-Grows a false b c g h = h

recoveries-Grows : (b : Budgets) (m : Dict Recovery) → Grows b (record b { recoveries = m })
recoveries-Grows b m = record {
  unplanned = omega arith;
  contests = λ k h. h;
  stopped = omega arith;
  escalated = omega arith;
}

rounds-Grows : (b : Budgets) (m : Dict Strengthening) → Grows b (record b { qa_rounds = m })
rounds-Grows b m = record {
  unplanned = omega arith;
  contests = λ k h. h;
  stopped = omega arith;
  escalated = omega arith;
}

version-Grows : (b : Budgets) (v : String) → Grows b (record b { plan_version = v })
version-Grows b v = record {
  unplanned = omega arith;
  contests = λ k h. h;
  stopped = omega arith;
  escalated = omega arith;
}

holder-Grows :
    (b : Budgets) (h a f : String)
    → Grows b (record b { holder = h; holder_agent = a; holder_artifact = f })
holder-Grows b h a f = record {
  unplanned = omega arith;
  contests = λ k h. h;
  stopped = omega arith;
  escalated = omega arith;
}

stop-Grows :
    (b : Budgets) (n m : ℕ)
    → b.stopped ≤ n
    → b.escalated ≤ m
    → Grows b (record b { stopped = n; escalated = m })
stop-Grows b n m g h = record {
  unplanned = omega arith;
  contests = λ k h. h;
  stopped = omega arith;
  escalated = omega arith;
}

unplanned-Grows : (b : Budgets) (n : ℕ) → b.unplanned ≤ n → Grows b (record b { unplanned = n })
unplanned-Grows b n g = record {
  unplanned = omega arith;
  contests = λ k h. h;
  stopped = omega arith;
  escalated = omega arith;
}

except-Grows : (b : Budgets) (e : Entry) → Grows b (except b e)
unfolding except reconcile_actions lift_abandonment
except-Grows b e = Grows-trans (grant-Grows b e) (
    Grows-trans
      (if-Grows (grant b e) (e.bound == bound_recovery_actions && not (e.objective == "")) _ _
        (recoveries-Grows _ _) (Grows-refl _))
      (if-Grows (reconcile_actions (grant b e) e) _ _ _ (recoveries-Grows _ _) (Grows-refl _)))

round-GrowsTo : (b : Budgets) (e : Entry) (r : Option QaRound) → Grows b (declare_round b e r)
unfolding declare_round
round-GrowsTo b e none = Grows-refl b
round-GrowsTo b e (some r) = rounds-Grows b _

budgeted-GrowsTo : (k : Kind) (b : Budgets) (e : Entry) → GrowsTo b (budgeted k b e)
unfolding budgeted
budgeted-GrowsTo Kind.qa_round b e = round-GrowsTo b e e.qa_round
budgeted-GrowsTo Kind.denied b e = Grows-refl b
budgeted-GrowsTo Kind.contested b e = contest-Grows b _
budgeted-GrowsTo Kind.exception b e = except-Grows b e
budgeted-GrowsTo Kind.stopped b e =
    stop-Grows b (b.stopped + 1) b.escalated (omega arith) (omega arith)
budgeted-GrowsTo Kind.escalated b e =
    stop-Grows b b.stopped (b.escalated + 1) (omega arith) (omega arith)
budgeted-GrowsTo Kind.recovery_declared b e = recoveries-Grows b _
budgeted-GrowsTo Kind.actions b e = recoveries-Grows b _
budgeted-GrowsTo Kind.actions_uncertain b e = recoveries-Grows b _
budgeted-GrowsTo Kind.restored b e = recoveries-Grows b _
budgeted-GrowsTo Kind.recovery_closed b e = recoveries-Grows b _
budgeted-GrowsTo Kind.interlocutor_switched b e = holder-Grows b _ _ _
budgeted-GrowsTo Kind.interlocutor_handoff b e = holder-Grows b _ _ _
budgeted-GrowsTo Kind.interlocutor_aborted b e = holder-Grows b _ _ _
budgeted-GrowsTo Kind.revised b e = version-Grows b _
budgeted-GrowsTo Kind.invalid_revision b e = Grows-refl b
budgeted-GrowsTo Kind.seat_restored b e = Grows-refl b
budgeted-GrowsTo _ b e = tt

start_round-Grows : (r : String × Strengthening) (b : Budgets) → Grows b (start_round r b)
start_round-Grows (v, r) b = if-Grows b (v == "") _ _ (Grows-refl b) (rounds-Grows b _)

mark-Grows :
    (r : Recovery) (e : Entry) (m : Option (Dict Bool)) (b : Budgets)
    → Grows b (mark_attempt r e m b)
mark-Grows r e none b = Grows-refl b
mark-Grows r e (some m) b = recoveries-Grows b _

charge-Grows : (known : Bool) (e : Entry) (b : Budgets) → Grows b (charge known e b)
unfolding charge
charge-Grows known e b =
    let b1 = if known then b else record b { unplanned = b.unplanned + 1 } in
    let b2 = start_round (qa_round_for b1 e.work_unit) b1 in
    Grows-trans (if-Grows b known _ _ (Grows-refl b) (unplanned-Grows b _ (omega arith))) (
      Grows-trans (start_round-Grows (qa_round_for b1 e.work_unit) b1) (
        if-Grows b2 (e.objective == "") _ _ (Grows-refl b2)
          (mark-Grows (recovery_of b2 e.objective) e (recovery_of b2 e.objective).attempted b2)))

note-Grows : (e : Entry) (b : Budgets) → Grows b (note_version e b)
note-Grows e b = if-Grows b (is_kind_planned e.kind) _ _ (version-Grows b _) (Grows-refl b)

put-Grows :
    (p : Projection) (e : Entry) (b : Budgets) (s : String)
    → Grows (budgets_of p e.session) b
    → Grows (budgets_of p s) (budgets_of (put_budgets p e b) s)
put-Grows p e b s g = rw (budgets-put p e b s) (elim (Bool-cases (e.session == s)) [
  | inl own ↦ rw own (rw (← (eq_iff e.session s).0 own) g)
  | inr other ↦ rw other (Grows-refl _)
])

module _ (e : Entry) (s : String) where
  fold_budgeted-Grows :
      (o : Option Budgets) (q : Projection) (b : Budgets)
      → GrowsTo b o
      → Grows (budgets_of q e.session) b
      → Grows (budgets_of q s) (budgets_of (fold_budgeted o q e b) s)
  fold_budgeted-Grows (some b') q b g h = put-Grows q e b' s (Grows-trans h g)
  fold_budgeted-Grows none q b g h =
      let r = put_budgets q e b in
      let u = find_unit q e.session e.work_unit in
      let own : Grows (budgets_of r e.session) (charge (is_some u) e b) =
        rw (budgets-put q e b e.session, eq_refl e.session) (charge-Grows (is_some u) e b) in
      Grows-trans (put-Grows q e b s h) (elim (fold_unit_sessions r e b u) [
        | inl same ↦ rw (budgets_by (fold_unit r e b u) r s same.0) (Grows-refl _)
        | inr charged ↦
            rw
              (budgets_by (fold_unit r e b u) (put_budgets r e (charge (is_some u) e b)) s
                charged.0)
              (put-Grows r e _ s own)
      ])

  fold_subject-Grows :
      (o : Option NodeKind) (q : Projection)
      → Grows (budgets_of q s) (budgets_of (fold_subject o q e) s)
  unfolding fold_work
  fold_subject-Grows none q =
      let b = note_version e (budgets_of q e.session) in
      fold_budgeted-Grows (budgeted e.kind b e) q b (budgeted-GrowsTo e.kind b e) (note-Grows e _)
  fold_subject-Grows (some k) q =
      rw (budgets_by (fold_activity q e k) q s (fold_activity_units q e k).1) (Grows-refl _)

  -- One entry never takes back what a session has consumed.
  pub fold-Grows : (p : Projection) → Grows (budgets_of p s) (budgets_of (fold p e) s)
  unfolding fold
  fold-Grows p = elim (Bool-cases (execution_kind e.kind)) [
    | inl execution ↦
        rw (execution, budgets_by (fold_execution p e) p s (fold_execution_units p e).1)
          (Grows-refl _)
    | inr other ↦
        rw (other, budgets_by p (settle_executions p e) s (sym (settle_units p e).1))
          (fold_subject-Grows (activity_kind_of e) (settle_executions p e))
  ]

Grows-from :
    (p : Projection) (es : List Entry) (s : String)
    → Grows (budgets_of p s) (budgets_of (project_from p es) s)
unfolding project_from
Grows-from p [] s = Grows-refl _
Grows-from p (e ∷ es) s = Grows-trans (fold-Grows e s p) (Grows-from (fold p e) es s)

-- However the record goes on, a session's counts of unplanned units, stops and escalations and its
-- contests are never taken back.
pub project-Grows :
    (es later : List Entry) (s : String)
    → Grows (budgets_of (project es) s) (budgets_of (project (es ++ later)) s)
unfolding project
project-Grows es later s =
    rw (project_from-append new_projection es later) (Grows-from (project es) later s)
