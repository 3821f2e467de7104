-- ===== src/Dispatch/Admission/Granted.antt =====
-- `Admit` on a request that fits, and on one that does not.
use takt_ai.History.Fold.Lifecycle.{unit_state}
use mathlib.Core.Path.{subst}
use takt_ai.Base.{
  suc, String, ◌≡◌, refl, sym, ap, ◌∙◌, inl, inr, true, false, ◌||◌, Option, none, some, [], ◌∷◌,
  ◌++◌, arith, ◌==◌, length,
}
use takt_ai.Base.Dict.{
  get_or, bit, weigh, lookup, count_where, lookup-insert_self, count_where-insert,
}
use takt_ai.History.Kinds.{
  Kind, State, is_state_planned, is_state_in_flight, is_state_settled, is_state_withdrawn,
}
use takt_ai.History.Entry.{Entry, activity_kind}
use takt_ai.History.Projection.{
  WorkUnit, Budgets, Projection, no_unit, unit_key, find_unit, budgets_of, is_in_flight, in_flight,
}
use takt_ai.History.Fold.{accepts}
use takt_ai.History.Fold.{advance, next_unit, fold, project}
use takt_ai.History.Fold.Placed.{has_state, project-IsPlaced}
use takt_ai.History.Fold.Effect.{is_lifecycle, fold_moves, fold_denied, project-append}
use takt_ai.History.Log.Interface.{Log}
use takt_ai.Dispatch.Policy.{AdmissionPolicy, Refusal, Report, succeeded, append_with}
use takt_ai.Dispatch.Admission.{AdmissionRequest, admission_entry, deny, identified_request, admit}
use takt_ai.Dispatch.Admission.Cases.{Decided, UnitFits, Fits, decide_cases}
use takt_ai.Dispatch.Admission.Recorded.{appended_one}

-- A unit that fits is one whose admission the fold accepts.
fitting_accepted :
    (policy : AdmissionPolicy) (b : Budgets) (o : Option WorkUnit)
    → ((u : WorkUnit) → o ≡ some u → has_state u.state ≡ true)
    → UnitFits policy b o
    → accepts o Kind.admitted ≡ true
unfolding accepts
fitting_accepted policy b none placed fits = refl
fitting_accepted policy b (some u) placed fits = by_state u.state (placed u refl) fits.0 fits.1
  where
    by_state :
        (s : State)
        → has_state s ≡ true
        → is_state_in_flight s ≡ false
        → is_state_withdrawn s ≡ false
        → (is_state_planned s || is_state_settled s) ≡ true
    by_state State.unset h f w = cc
    by_state State.planned h f w = refl
    by_state State.in_flight h f w = cc
    by_state State.settled h f w = refl
    by_state State.withdrawn h f w = cc

Decided-admits :
    (p : Projection) (policy : AdmissionPolicy) (req : AdmissionRequest)
    (d : Entry × Option Refusal)
    → Decided (Fits p policy req) (admission_entry p req) d
    → Fits p policy req
    → d ≡ (admission_entry p req, none)
Decided-admits p policy req d (inl (e, _)) fits = e
Decided-admits p policy req d (inr (cause, r, e, named, fails)) fits = absurd (fails fits)

Decided-denies :
    (p : Projection) (policy : AdmissionPolicy) (req : AdmissionRequest)
    (d : Entry × Option Refusal)
    → Decided (Fits p policy req) (admission_entry p req) d
    → ¬ Fits p policy req
    → (cause : String) × (r : Refusal) × (d ≡ deny (admission_entry p req) cause r)
      × ((cause == "") ≡ false)
Decided-denies p policy req d (inl (_, fits)) fails = absurd (fails fits)
Decided-denies p policy req d (inr (cause, r, e, named, _)) fails = (cause, r, e, named)

-- The unit that an accepted admission leaves: the named one, in flight under the request's dispatch.
admitted_unit :
    (p : Projection) (e : Entry)
    → e.kind ≡ Kind.admitted
    → accepts (find_unit p e.session e.work_unit) Kind.admitted ≡ true
    → find_unit (fold p e) e.session e.work_unit
      ≡ some (next_unit (get_or no_unit (find_unit p e.session e.work_unit)) e)
unfolding find_unit is_lifecycle activity_kind
admitted_unit p e admits taken =
    ap (lookup (unit_key e.session e.work_unit))
      (fold_moves p e (rw admits refl) (rw admits refl) (rw admits taken))
    ∙ lookup-insert_self (unit_key e.session e.work_unit) _ p.units

fitting_idle :
    (policy : AdmissionPolicy) (b : Budgets) (o : Option WorkUnit)
    → UnitFits policy b o
    → weigh is_in_flight o ≡ 0
fitting_idle policy b none fits = refl
fitting_idle policy b (some u) fits = ap bit fits.0

admitted_state :
    (u : WorkUnit) (e : Entry) → e.kind ≡ Kind.admitted → (next_unit u e).state ≡ State.in_flight
unfolding next_unit advance
admitted_state u e admits = rw admits refl

-- One more unit is in flight after an accepted admission of an idle one.
admitted_count :
    (p : Projection) (e : Entry)
    → e.kind ≡ Kind.admitted
    → accepts (find_unit p e.session e.work_unit) Kind.admitted ≡ true
    → weigh is_in_flight (find_unit p e.session e.work_unit) ≡ 0
    → in_flight (fold p e) ≡ suc (in_flight p)
unfolding find_unit in_flight is_lifecycle activity_kind
admitted_count p e admits taken idle =
    let u = next_unit (get_or no_unit (find_unit p e.session e.work_unit)) e in
    ap (count_where is_in_flight)
      (fold_moves p e (rw admits refl) (rw admits refl) (rw admits taken))
    ∙ omega (
      arith,
      count_where-insert is_in_flight (unit_key e.session e.work_unit) u p.units,
      idle,
      ap (λ s. bit (is_state_in_flight s))
          (admitted_state (get_or no_unit (find_unit p e.session e.work_unit)) e admits),
    )

module _ (l : Log) where
  open l use {Handle, entries, append_batch, appended}

  abbrev Granted : Handle → AdmissionRequest → Report × Handle → Type 0
  Granted h req out =
      (out.0 ≡ succeeded)
      × (unit_state (project (entries out.1)) req.session req.event ≡ State.in_flight)
      × (in_flight (project (entries out.1)) ≡ suc (in_flight (project (entries h))))

  granted :
      (h : Handle) (journal_ref : String) (policy : AdmissionPolicy) (req : AdmissionRequest)
      → Fits (project (entries h)) policy req
      → (append_batch h
          (record (admission_entry (project (entries h)) req) { journal_ref = journal_ref } ∷ [])).0
        ≡ none
      → Granted h req (
          append_with l h
            (record (admission_entry (project (entries h)) req) { journal_ref = journal_ref })
            none)
  unfolding unit_state find_unit
  granted h journal_ref policy req fits done =
      let p = project (entries h) in
      let e = record (admission_entry p req) { journal_ref = journal_ref } in
      let e' = record e { seq = length (entries h) } in
      let now = ap project (appended h (e ∷ []) done) ∙ project-append (entries h) e' in
      let taken =
        fitting_accepted policy (budgets_of p req.session) (find_unit p req.session req.event)
          (project-IsPlaced (entries h) (unit_key req.session req.event)) fits.unit in
      (
        rw done refl,
        ap (λ q. (get_or no_unit (lookup (unit_key req.session req.event) q.units)).state) now
            ∙ ap (λ o. (get_or no_unit o).state) (admitted_unit p e' refl taken)
            ∙ admitted_state _ e' refl,
        ap in_flight now
            ∙ admitted_count p e' refl taken
                (fitting_idle policy (budgets_of p req.session) _ fits.unit),
      )

  -- A request with both identities that fits is granted: where the append succeeds, Admit reports
  -- success, the unit is in flight, and one more slot is taken.
  pub admit-Fits :
      (h : Handle) (policy : AdmissionPolicy) (journal_ref : String) (req : AdmissionRequest)
      → identified_request req ≡ true
      → Fits (project (entries h)) policy req
      → (admit l h policy journal_ref req).0.append ≡ none
      → ((admit l h policy journal_ref req).0 ≡ succeeded)
        × (unit_state (project (entries (admit l h policy journal_ref req).1)) req.session req.event
            ≡ State.in_flight)
        × (in_flight (project (entries (admit l h policy journal_ref req).1))
            ≡ suc (in_flight (project (entries h))))
  unfolding admit
  admit-Fits h policy journal_ref req named fits done =
      let p = project (entries h) in
      let e = record (admission_entry p req) { journal_ref = journal_ref } in
      let given : admit l h policy journal_ref req ≡ append_with l h e none =
        rw (named, Decided-admits p policy req _ (decide_cases p policy req) fits) refl in
      subst (Granted h req) (sym given)
        (granted h journal_ref policy req fits (sym (ap (λ out. out.0.append) given) ∙ done))

  abbrev Refused : Handle → Report × Handle → Type 0
  Refused h out =
      ((r : Refusal) × (out.0.refusal ≡ some r))
      × ((project (entries out.1)).units ≡ (project (entries h)).units)
      × ((s : String) → budgets_of (project (entries out.1)) s ≡ budgets_of (project (entries h)) s)

  -- What recording a denial does, whether or not the append succeeds.
  denied_out :
      (h : Handle) (e : Entry) (r : Refusal)
      → Refused h (append_with l h (record e { kind = Kind.denied }) (some r))
  denied_out h e r =
      let d = record e { kind = Kind.denied } in
      let d' = record d { seq = length (entries h) } in
      elim (appended_one l h d) [
        | inl same ↦ ((r, refl), rw same refl, λ s. rw same refl)
        | inr (done, now) ↦
            let moved = ap project now ∙ project-append (entries h) d' in
            let still = fold_denied (project (entries h)) (record e { seq = length (entries h) }) in
            (
              (r, refl),
              ap (λ p. p.units) moved ∙ still.0,
              λ s. ap (λ p. budgets_of p s) moved ∙ still.1 s,
            )
      ]

  -- The entry of a denial with the caller's journal reference.
  abbrev denial_entry : Handle → String → AdmissionRequest → String → Entry
  denial_entry h journal_ref req cause = record (admission_entry (project (entries h)) req) {
    journal_ref = journal_ref;
    kind = Kind.denied;
    cause = cause;
  }

  unfit_denied :
      (h : Handle) (policy : AdmissionPolicy) (journal_ref : String) (req : AdmissionRequest)
      → identified_request req ≡ true
      → ¬ Fits (project (entries h)) policy req
      → (cause : String) × (r : Refusal) × ((cause == "") ≡ false)
        × (admit l h policy journal_ref req
            ≡ append_with l h (denial_entry h journal_ref req cause) (some r))
  unfolding admit
  unfit_denied h policy journal_ref req named fails =
      let p = project (entries h) in
      let (cause, r, denial, causal) =
        Decided-denies p policy req _ (decide_cases p policy req) fails in
      (cause, r, causal, rw (named, denial) refl)

  -- A request with both identities that does not fit is refused: Admit reports an error, and no
  -- unit and no session's accounting changes, whether or not the denial could be recorded.
  pub admit_unfit :
      (h : Handle) (policy : AdmissionPolicy) (journal_ref : String) (req : AdmissionRequest)
      → identified_request req ≡ true
      → ¬ Fits (project (entries h)) policy req
      → ((r : Refusal) × ((admit l h policy journal_ref req).0.refusal ≡ some r))
        × ((project (entries (admit l h policy journal_ref req).1)).units
            ≡ (project (entries h)).units)
        × ((s : String)
            → budgets_of (project (entries (admit l h policy journal_ref req).1)) s
              ≡ budgets_of (project (entries h)) s)
  admit_unfit h policy journal_ref req named fails =
      let (cause, r, causal, given) = unfit_denied h policy journal_ref req named fails in
      subst (Refused h) (sym given) (denied_out h (denial_entry h journal_ref req cause) r)

  abbrev Denied : Handle → AdmissionRequest → Report × Handle → Type 0
  Denied h req out =
      (e : Entry) × (e.kind ≡ Kind.denied)
      × (e.session ≡ req.session)
      × (e.work_unit ≡ req.event)
      × ((e.cause == "") ≡ false)
      × (entries out.1 ≡ entries h ++ e ∷ [])

  -- The denial of a request with both identities that does not fit is recorded: where the append
  -- succeeds, exactly one entry is added, a denial of the requested unit with a cause.
  pub admit_denial :
      (h : Handle) (policy : AdmissionPolicy) (journal_ref : String) (req : AdmissionRequest)
      → identified_request req ≡ true
      → ¬ Fits (project (entries h)) policy req
      → (admit l h policy journal_ref req).0.append ≡ none
      → (e : Entry) × (e.kind ≡ Kind.denied)
        × (e.session ≡ req.session)
        × (e.work_unit ≡ req.event)
        × ((e.cause == "") ≡ false)
        × (entries (admit l h policy journal_ref req).1 ≡ entries h ++ e ∷ [])
  admit_denial h policy journal_ref req named fails done =
      let (cause, r, causal, given) = unfit_denied h policy journal_ref req named fails in
      let e = denial_entry h journal_ref req cause in
      subst (Denied h req) (sym given) (
        record e { seq = length (entries h) },
        refl,
        refl,
        refl,
        causal,
        appended h (e ∷ []) (sym (ap (λ out. out.0.append) given) ∙ done),
      )
