-- ===== src/Dispatch/Admission/Recorded.antt =====
-- What `Admit` leaves in the store: the slot it takes, the unit it moves, the denial it records.
use takt_ai.Base.Dict.{bit}
use takt_ai.Base.{
  ℕ, ◌≤◌, ◌<◌, max, String, ◌≡◌, sym, ap, ◌∙◌, ◌⊎◌, inl, inr, true, Option, none, [], ◌∷◌, ◌++◌,
  arith, Bool-cases, Option-cases, length,
}
use takt_ai.History.Kinds.{is_kind_admitted}
use takt_ai.History.Entry.{Entry}
use takt_ai.History.Projection.{Projection, budgets_of, in_flight}
use takt_ai.History.Fold.{project}
use takt_ai.History.Fold.Slots.{in_flight-fold}
use takt_ai.History.Fold.Effect.{project-append}
use takt_ai.History.Log.Interface.{Log}
use takt_ai.Dispatch.Policy.{AdmissionPolicy, Refusal}
use takt_ai.Dispatch.Admission.{
  AdmissionRequest, admission_entry, ceiling_of, decide, identified_request, admit,
}
use takt_ai.Dispatch.Admission.Cases.{Decided, Fits, decide_cases}

module _ (l : Log) where
  open l use {Handle, entries, append_batch, refused, appended}

  -- One appended entry: the handle's new last one, or nothing where the append fails.
  pub appended_one :
      (h : Handle) (e : Entry)
      → ((append_batch h (e ∷ [])).1 ≡ h)
        ⊎ (((append_batch h (e ∷ [])).0 ≡ none)
            × (entries (append_batch h (e ∷ [])).1
                ≡ entries h ++ (record e { seq = length (entries h) }) ∷ []))
  appended_one h e = elim (Option-cases (append_batch h (e ∷ [])).0) [
    | inl done ↦ inr (done, appended h (e ∷ []) done)
    | inr (x, failed) ↦ inl (refused h (e ∷ []) x failed)
  ]

  -- The decision's entry with the store's number and the caller's journal reference.
  abbrev pub stamped : Handle → String → Entry → Entry
  stamped h journal_ref e = record e { journal_ref = journal_ref; seq = length (entries h) }

  slots_after :
      (h : Handle) (ceiling : ℕ) (e : Entry)
      → (is_kind_admitted e.kind ≡ true → in_flight (project (entries h)) < ceiling)
      → in_flight (project (entries (append_batch h (e ∷ [])).1))
        ≤ max (in_flight (project (entries h))) ceiling
  slots_after h ceiling e room = elim (appended_one h e) [
    | inl same ↦ rw same (omega arith)
    | inr (done, now) ↦
        let e' = record e { seq = length (entries h) } in
        rw (now, project-append (entries h) e')
          (elim (Bool-cases (is_kind_admitted e.kind)) [
            | inl admits ↦
                omega
                  (arith, room admits, (in_flight-fold (project (entries h)) e').0, ap bit admits)
            | inr other ↦ omega (arith, (in_flight-fold (project (entries h)) e').0, ap bit other)
          ])
  ]

  Decided-room :
      (p : Projection) (policy : AdmissionPolicy) (req : AdmissionRequest)
      (d : Entry × Option Refusal)
      → Decided (Fits p policy req) (admission_entry p req) d
      → is_kind_admitted d.0.kind ≡ true
      → in_flight p < ceiling_of policy (budgets_of p req.session)
  Decided-room p policy req d (inl (e, fits)) h = fits.slot
  Decided-room p policy req d (inr (cause, r, e, _, _)) h =
      cc (sym (ap (λ x. is_kind_admitted x.0.kind) e) ∙ h)

  -- Admit never takes more units into flight than the concurrency ceiling of the session allows: they
  -- stay within the larger of the count before and the ceiling.
  pub admit_slots :
      (h : Handle) (policy : AdmissionPolicy) (journal_ref : String) (req : AdmissionRequest)
      → in_flight (project (entries (admit l h policy journal_ref req).1))
        ≤ max
            (in_flight (project (entries h)))
            (ceiling_of policy (budgets_of (project (entries h)) req.session))
  unfolding admit
  admit_slots h policy journal_ref req =
      let p = project (entries h) in
      elim (Bool-cases (identified_request req)) [
        | inl named ↦ rw named (
            slots_after h _ (record (decide p policy req).0 { journal_ref = journal_ref })
              (Decided-room p policy req _ (decide_cases p policy req)))
        | inr unnamed ↦ rw unnamed (omega arith)
      ]
