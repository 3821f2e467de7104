-- ===== src/Dispatch/Budget.antt =====
-- The budgets of unplanned units and of contests: `Admit` and `Contest` stay within them.
use takt_ai.Base.Words.{raised}
use takt_ai.Base.{
  ℕ, suc, ◌+◌, ◌≤◌, ◌<◌, max, String, ◌≡◌, refl, ap, inl, inr, Bool, true, false, not, ◌||◌, Option,
  none, some, [], ◌∷◌, arith, eq_refl, ltb, leb, ◌==◌, if◌then◌else◌, ltb→lt, Bool-cases, length,
}
use takt_ai.Base.Dict.{is_some, get_or, bit, lookup, insert, size, size-insert}
use takt_ai.History.Kinds.{Author, Kind, execution_kind}
use takt_ai.History.Entry.{Entry, activity_kind}
use takt_ai.History.Projection.{WorkUnit, Projection, find_unit, budgets_of, allowance_of}
use takt_ai.History.Fold.{budgeted}
use takt_ai.History.Fold.{settle_executions, fold_work, fold, project}
use takt_ai.History.Fold.Unplanned.{newly, unplanned_of, fold_unplanned}
use takt_ai.History.Fold.Sessions.{budgets-put}
use takt_ai.History.Fold.Effect.{fold_denied, project-append}
use takt_ai.History.Log.Interface.{Log}
use takt_ai.Dispatch.Policy.{
  AdmissionPolicy, bound_unplanned, bound_contests, cause_no_failure, Refusal,
}
use takt_ai.Dispatch.Admission.{
  AdmissionRequest, admission_entry, decide, identified_request, admit,
}
use takt_ai.Dispatch.Admission.Cases.{Decided, UnitFits, Fits, decide_cases}
use takt_ai.Dispatch.Admission.Recorded.{appended_one}
use takt_ai.Dispatch.Lifecycle.{
  contest_entry, terminal_failure, contest_key, contest_decision, contest,
}

-- A decision adds no unit to the count, or there is room for one.
Decided-unplanned :
    (p : Projection) (policy : AdmissionPolicy) (req : AdmissionRequest)
    (d : Entry × Option Refusal)
    → Decided (Fits p policy req) (admission_entry p req) d
    → (d.0.session ≡ req.session)
      × (newly p d.0
          ≤ bit (
              ltb (unplanned_of p req.session) (
                raised policy.unplanned_units
                  (allowance_of (budgets_of p req.session) bound_unplanned))))
unfolding newly
Decided-unplanned p policy req d (inr (cause, r, e, _, _)) = rw e (refl, omega arith)
Decided-unplanned p policy req d (inl (e, fits)) =
    rw e (refl, room (find_unit p req.session req.event) fits.unit)
  where
    room :
        (o : Option WorkUnit)
        → UnitFits policy (budgets_of p req.session) o
        → bit (not (is_some o))
          ≤ bit (
              ltb (unplanned_of p req.session) (
                raised policy.unplanned_units
                  (allowance_of (budgets_of p req.session) bound_unplanned)))
    room none fits = ground arith
    room (some u) fits = omega arith

within :
    (n k ceiling : ℕ) (own : Bool)
    → k ≤ bit (ltb n ceiling)
    → n + (if own then k else 0) ≤ max n ceiling
within n k ceiling own h = elim (Bool-cases (ltb n ceiling)) [
  | inl room ↦ own_within own (omega (arith, ltb→lt n ceiling room, ap bit room))
  | inr full ↦ own_within own (omega (arith, ap bit full))
]
  where
    own_within : (o : Bool) → n + k ≤ max n ceiling → n + (if o then k else 0) ≤ max n ceiling
    own_within true g = g
    own_within false g = omega arith

-- A contest adds at most one to its session's.
contested_size :
    (p : Projection) (e : Entry)
    → size (budgets_of (fold p (record e { kind = Kind.contested })) e.session).contests
      ≤ suc (size (budgets_of p e.session).contests)
unfolding fold fold_work settle_executions execution_kind budgeted activity_kind
contested_size p e =
    let b = budgets_of p e.session in
    let key = contest_key e.work_unit e.attempt in
    rw
      (
        budgets-put p e (record b { contests = insert key true b.contests }) e.session,
        eq_refl e.session,
      )
      (omega
        (arith, size-insert key true b.contests, small (not (is_some (lookup key b.contests)))))
  where
    small : (b : Bool) → bit b ≤ 1
    small true = omega arith
    small false = omega arith

module _ (l : Log) where
  open l use {Handle, entries, append_batch}

  unplanned_after :
      (h : Handle) (ceiling : ℕ) (e : Entry) (s : String)
      → newly (project (entries h)) e ≤ bit (ltb (unplanned_of (project (entries h)) s) ceiling)
      → unplanned_of (project (entries (append_batch h (e ∷ [])).1)) s
        ≤ max (unplanned_of (project (entries h)) s) ceiling
  unfolding newly
  unplanned_after h ceiling e s room = elim (appended_one l h e) [
    | inl same ↦ rw same (omega arith)
    | inr (done, now) ↦
        let e' = record e { seq = length (entries h) } in
        rw (now, project-append (entries h) e', fold_unplanned e' s (project (entries h)))
          (within _ _ _ (e.session == s) room)
  ]

  -- Admit never takes a session beyond its budget of unplanned units: its count stays within the larger
  -- of the count before and the policy's budget with what exceptions granted.
  pub admit_unplanned :
      (h : Handle) (policy : AdmissionPolicy) (journal_ref : String) (req : AdmissionRequest)
      → unplanned_of (project (entries (admit l h policy journal_ref req).1)) req.session
        ≤ max (unplanned_of (project (entries h)) req.session) (
            raised policy.unplanned_units
              (allowance_of (budgets_of (project (entries h)) req.session) bound_unplanned))
  unfolding admit newly
  admit_unplanned h policy journal_ref req =
      let p = project (entries h) in
      elim (Bool-cases (identified_request req)) [
        | inl named ↦ rw named (
            unplanned_after h _ (record (decide p policy req).0 { journal_ref = journal_ref })
              req.session (Decided-unplanned p policy req _ (decide_cases p policy req)).1)
        | inr unnamed ↦ rw unnamed (omega arith)
      ]

  abbrev contests_of : Handle → String → ℕ
  contests_of h s = size (budgets_of (project (entries h)) s).contests

  denied_after :
      (h : Handle) (e : Entry) (s : String) (ceiling : ℕ)
      → contests_of (append_batch h (record e { kind = Kind.denied } ∷ [])).1 s
        ≤ max (contests_of h s) ceiling
  denied_after h e s ceiling = elim (appended_one l h (record e { kind = Kind.denied })) [
    | inl same ↦ rw same (omega arith)
    | inr (done, now) ↦
        let d = record e { kind = Kind.denied; seq = length (entries h) } in
        rw (now, project-append (entries h) d, (fold_denied (project (entries h)) d).1 s)
          (omega arith)
  ]

  contested_after :
      (h : Handle) (e : Entry) (ceiling : ℕ)
      → contests_of h e.session < ceiling
      → contests_of (append_batch h (record e { kind = Kind.contested } ∷ [])).1 e.session
        ≤ max (contests_of h e.session) ceiling
  contested_after h e ceiling room = elim (appended_one l h (record e { kind = Kind.contested })) [
    | inl same ↦ rw same (omega arith)
    | inr (done, now) ↦
        let c = record e { kind = Kind.contested; seq = length (entries h) } in
        rw (now, project-append (entries h) c)
          (omega (arith, contested_size (project (entries h)) c, room))
  ]

  contests_after :
      (h : Handle) (policy : AdmissionPolicy) (journal_ref event session attempt : String)
      → contests_of
          (append_batch h (
            (contest_decision
              (entries h)
              (budgets_of (project (entries h)) session)
              policy
              journal_ref
              event
              session
              attempt).0
            ∷ [])).1
          session
        ≤ max (contests_of h session) (
            raised policy.contests
              (allowance_of (budgets_of (project (entries h)) session) bound_contests))
  unfolding contest_decision
  contests_after h policy journal_ref event session attempt =
      let b = budgets_of (project (entries h)) session in
      let ceiling = raised policy.contests (allowance_of b bound_contests) in
      let e = contest_entry journal_ref event session attempt in
      elim (Bool-cases (terminal_failure (entries h) session event attempt)) [
        | inr nothing ↦ rw nothing (
            denied_after h (record e { author = Author.harness; cause = cause_no_failure }) session
              ceiling)
        | inl failure ↦ elim (Bool-cases (leb ceiling (size b.contests))) [
          | inl spent ↦
              rw (failure, spent)
                (denied_after h (record e { author = Author.harness; cause = bound_contests })
                  session ceiling)
          | inr room ↦ rw (failure, room) (contested_after h e ceiling (ground arith))
        ]
      ]

  -- Contest never takes a session beyond its distinct contests: their number stays within the larger of
  -- the number before and the policy's budget with what exceptions granted.
  pub contest_bounded :
      (h : Handle) (policy : AdmissionPolicy) (journal_ref event session attempt : String)
      → size
          (budgets_of
            (project (entries (contest l h policy journal_ref event session attempt).1))
            session).contests
        ≤ max (size (budgets_of (project (entries h)) session).contests) (
            raised policy.contests
              (allowance_of (budgets_of (project (entries h)) session) bound_contests))
  unfolding contest
  contest_bounded h policy journal_ref event session attempt =
      elim (Bool-cases (event == "" || session == "")) [
        | inl unnamed ↦ rw unnamed (omega arith)
        | inr named ↦
            elim (Bool-cases (
              get_or false (
                lookup (contest_key event attempt)
                  (budgets_of (project (entries h)) session).contests))) [
                    | inl repeated ↦ rw (named, repeated) (omega arith)
                    | inr fresh ↦
                        rw (named, fresh)
                          (contests_after h policy journal_ref event session attempt)
                  ]
      ]
