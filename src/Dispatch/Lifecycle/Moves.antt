-- ===== src/Dispatch/Lifecycle/Moves.antt =====
-- Launch and withdrawal: what each leaves of the unit that it names.
use mathlib.Core.Path.{subst}
use takt_ai.Base.{
  String, ◌≡◌, refl, sym, ap, ◌∙◌, ◌⊎◌, inl, inr, true, none, some, [], ◌∷◌, arith, Bool-cases,
  length,
}
use takt_ai.Base.Dict.{get_or, lookup, lookup-insert_self}
use takt_ai.History.Kinds.{Kind, State, is_state_in_flight}
use takt_ai.History.Entry.{Entry, activity_kind, activity_kind_of}
use takt_ai.History.Projection.{WorkUnit, Projection, no_unit, unit_key, find_unit}
use takt_ai.History.Fold.{accepts}
use takt_ai.History.Fold.{advance, next_unit, fold, project}
use takt_ai.History.Fold.Lifecycle.{unit_state}
use takt_ai.History.Fold.Effect.{is_lifecycle, fold_moves, project-append}
use takt_ai.History.Log.Interface.{Log}
use takt_ai.Dispatch.Policy.{Refusal, Report, succeeded, refuse, append_with}
use takt_ai.Dispatch.Lifecycle.{uncertain_flight, fact, launch}

-- The unit that one accepted act leaves under its own key.
pub moved_unit :
    (p : Projection) (e : Entry)
    → is_lifecycle e.kind ≡ true
    → activity_kind_of e ≡ none
    → accepts (find_unit p e.session e.work_unit) e.kind ≡ true
    → find_unit (fold p e) e.session e.work_unit
      ≡ some (next_unit (get_or no_unit (find_unit p e.session e.work_unit)) e)
unfolding find_unit
moved_unit p e life work taken =
    ap (lookup (unit_key e.session e.work_unit)) (fold_moves p e life work taken)
    ∙ lookup-insert_self (unit_key e.session e.work_unit) _ p.units

refused_differs : (r : Refusal) → refuse r ≡ succeeded → ⊥
refused_differs r e = cc (ap (λ (x : Report). x.refusal) e)

launched_unit :
    (u : WorkUnit) (e : Entry)
    → e.kind ≡ Kind.launched
    → ((next_unit u e).state ≡ State.in_flight) × ((next_unit u e).launched ≡ true)
unfolding next_unit advance
launched_unit u e k = (rw k refl, rw k (ground arith))

module _ (l : Log) where
  open l use {Handle, entries, append_batch, appended}

  -- One accepted act of Record that the store has taken.
  fact_moves :
      (h : Handle) (e : Entry)
      → is_lifecycle e.kind ≡ true
      → activity_kind e.kind (record e { seq = length (entries h) }) ≡ none
      → accepts (find_unit (project (entries h)) e.session e.work_unit) e.kind ≡ true
      → (append_batch h (e ∷ [])).0 ≡ none
      → find_unit (project (entries (append_batch h (e ∷ [])).1)) e.session e.work_unit
        ≡ some (
            next_unit
              (get_or no_unit (find_unit (project (entries h)) e.session e.work_unit))
              (record e { seq = length (entries h) }))
  fact_moves h e life work taken done =
      let e' = record e { seq = length (entries h) } in
      ap (λ es. find_unit (project es) e.session e.work_unit) (appended h (e ∷ []) done)
      ∙ ap (λ q. find_unit q e.session e.work_unit) (project-append (entries h) e')
      ∙ moved_unit (project (entries h)) e' life work taken

  abbrev LaunchCases : Handle → String → String → String → Type 0
  LaunchCases h journal_ref event session =
      ((r : Refusal) × (launch l h journal_ref event session ≡ (refuse r, h)))
      ⊎ (launch l h journal_ref event session ≡ (succeeded, h))
      ⊎ ((is_state_in_flight (unit_state (project (entries h)) session event) ≡ true)
          × (launch l h journal_ref event session
              ≡ append_with l h (fact (project (entries h)) journal_ref event session Kind.launched)
                  none))

  launch_cases :
      (h : Handle) (journal_ref event session : String) → LaunchCases h journal_ref event session
  unfolding launch unit_state
  launch_cases h journal_ref event session =
      let u = get_or no_unit (find_unit (project (entries h)) session event) in
      elim (Bool-cases (is_state_in_flight u.state)) [
        | inr idle ↦ inl (Refusal.not_in_flight, rw idle refl)
        | inl flying ↦ elim (Bool-cases u.launched) [
          | inl running ↦ inr (inl (rw (flying, running) refl))
          | inr waiting ↦ elim (Bool-cases (uncertain_flight u.flight)) [
            | inl unknown ↦ inl (Refusal.uncertain_launch, rw (flying, waiting, unknown) refl)
            | inr established ↦ inr (inr (flying, rw (flying, waiting, established) refl))
          ]
        ]
      ]

  already_running :
      (h : Handle) (journal_ref event session : String) (u : WorkUnit)
      → find_unit (project (entries h)) session event ≡ some u
      → u.state ≡ State.in_flight
      → u.launched ≡ true
      → launch l h journal_ref event session ≡ (succeeded, h)
  unfolding launch
  already_running h journal_ref event session u known flying launched =
      rw (known, flying, launched) refl

  abbrev Repeats : String → String → String → Report × Handle → Type 0
  Repeats journal_ref event session out =
      launch l out.1 journal_ref event session ≡ (succeeded, out.1)

  repeat_recorded :
      (h : Handle) (journal_ref event session : String)
      → is_state_in_flight (unit_state (project (entries h)) session event) ≡ true
      → (append_batch h (fact (project (entries h)) journal_ref event session Kind.launched ∷ [])).0
        ≡ none
      → Repeats journal_ref event session (
          append_with l h (fact (project (entries h)) journal_ref event session Kind.launched) none)
  unfolding is_lifecycle activity_kind accepts fact unit_state
  repeat_recorded h journal_ref event session flying done =
      let e = fact (project (entries h)) journal_ref event session Kind.launched in
      let u = get_or no_unit (find_unit (project (entries h)) session event) in
      let e' = record e { seq = length (entries h) } in
      already_running _ journal_ref event session (next_unit u e')
        (fact_moves h e refl refl flying done) (launched_unit u e' refl).0
        (launched_unit u e' refl).1

  -- A launch that was reported as a success is not recorded again: the repeat succeeds and leaves the
  -- store as it is.
  pub launch_twice :
      (h : Handle) (journal_ref event session : String)
      → (launch l h journal_ref event session).0 ≡ succeeded
      → launch l (launch l h journal_ref event session).1 journal_ref event session
        ≡ (succeeded, (launch l h journal_ref event session).1)
  launch_twice h journal_ref event session done = elim (launch_cases h journal_ref event session) [
    | inl (r, given) ↦ absurd (refused_differs r (sym (ap (λ out. out.0) given) ∙ done))
    | inr (inl given) ↦ subst (Repeats journal_ref event session) (sym given) given
    | inr (inr (flying, given)) ↦ subst (Repeats journal_ref event session) (sym given) (
        repeat_recorded h journal_ref event session flying
          (ap (λ (x : Report). x.append) (sym (ap (λ out. out.0) given) ∙ done)))
  ]
