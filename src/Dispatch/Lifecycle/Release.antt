-- ===== src/Dispatch/Lifecycle/Release.antt =====
-- Termination: the slot that `Finish` and a reconciled non-start give back.
use takt_ai.Base.{
  ℕ, suc, String, ◌≡◌, refl, sym, ap, ◌∙◌, inl, inr, Bool, true, false, not, ◌||◌, Option, none,
  some, List, [], ◌∷◌, ◌++◌, arith, eq_iff, ◌==◌, Bool-cases, length, All,
}
use takt_ai.Base.Dict.{
  Dict, is_some, get_or, bit, weigh, lookup, count_where, lookup-insert_self, count_where-insert,
}
use takt_ai.History.Kinds.{Kind, State, is_kind_terminated, is_kind_result, is_state_in_flight}
use takt_ai.History.Entry.{Entry, activity_kind}
use takt_ai.History.Projection.{
  WorkUnit, Recovery, Projection, no_unit, new_projection, unit_key, find_unit, is_in_flight,
  in_flight,
}
use takt_ai.History.Fold.{accepts}
use takt_ai.History.Fold.{advance, next_unit, fold, project_from, project}
use takt_ai.History.Fold.View.{
  UnitChange, kept, assured, moved, result_not_admitted, fold_units, project_from-append,
}
use takt_ai.History.Fold.Slots.{in_flight-fold}
use takt_ai.History.Fold.Lifecycle.{unit_state, state-insert}
use takt_ai.History.Fold.Effect.{is_lifecycle, fold_moves}
use takt_ai.History.Log.Interface.{Log}
use takt_ai.Dispatch.Policy.{reported}
use takt_ai.Dispatch.Lifecycle.{
  unverified_entry, outcome_of, terminated_entry, uncertain_flight, terminal_outcome,
  is_outcome_completed, termination, terminate, finish, reconcile,
}
use takt_ai.History.Log.{number}

result_state :
    (p : Projection) (e : Entry) (s w : String) (m : Dict WorkUnit)
    → is_kind_result e.kind ≡ true
    → UnitChange p e m
    → (get_or no_unit (lookup (unit_key s w) m)).state ≡ unit_state p s w
unfolding unit_state find_unit
result_state p e s w m h (kept same _) = rw same refl
result_state p e s w m h (moved _ other _) = cc
result_state p e s w m h (assured u a _ known now) =
    ap (λ d. (get_or no_unit (lookup (unit_key s w) d)).state) now
    ∙ state-insert p e s w (record u { assurance = a })
    ∙ (elim (Bool-cases (unit_key e.session e.work_unit == unit_key s w)) [
      | inl own ↦ rw own (
          sym (ap (λ o. (get_or no_unit o).state) known)
          ∙ ap (λ k. (get_or no_unit (lookup k p.units)).state)
              ((eq_iff (unit_key e.session e.work_unit) (unit_key s w)).0 own))
      | inr other ↦ rw other refl
    ])

-- A result moves no unit to another state, and takes or gives back no slot.
result_keeps :
    (p : Projection) (e : Entry) (s w : String)
    → is_kind_result e.kind ≡ true
    → (unit_state (fold p e) s w ≡ unit_state p s w) × (in_flight (fold p e) ≡ in_flight p)
result_keeps p e s w h = (
  unfold unit_state find_unit in result_state p e s w (fold p e).units h (fold_units p e),
  omega (
    arith,
    in_flight-fold p e,
    ap bit (result_not_admitted e.kind h),
    ap bit (result_not_terminated e.kind h),
  ),
)
  where
    result_not_terminated : (k : Kind) → is_kind_result k ≡ true → is_kind_terminated k ≡ false
    result_not_terminated Kind.result h = refl
    result_not_terminated _ h = cc

results_keep :
    (p : Projection) (n : ℕ) (rs : List Entry) (s w : String)
    → All (λ r. is_kind_result r.kind ≡ true) rs
    → (unit_state (project_from p (number n rs)) s w ≡ unit_state p s w)
      × (in_flight (project_from p (number n rs)) ≡ in_flight p)
unfolding project_from
results_keep p n [] s w h = (refl, refl)
results_keep p n (r ∷ rs) s w h =
    let r' = record r { seq = n } in
    let now = result_keeps p r' s w h.0 in
    let rest = results_keep (fold p r') (suc n) rs s w h.1 in (rest.0 ∙ now.0, rest.1 ∙ now.1)

terminated_unit :
    (u : WorkUnit) (e : Entry) → e.kind ≡ Kind.terminated → (next_unit u e).state ≡ State.settled
unfolding next_unit advance
terminated_unit u e k = rw k refl

-- A termination's first entry is the unit's own, and only results follow.
termination_shape :
    (p : Projection) (journal_ref event session : String) (non_start : Bool)
    → (rest : List Entry) × (termination p journal_ref event session non_start
        ≡ terminated_entry p journal_ref event session non_start ∷ rest)
      × All (λ r. is_kind_result r.kind ≡ true) rest
unfolding termination
termination_shape p journal_ref event session non_start =
    let u = get_or no_unit (find_unit p session event) in
    elim (Bool-cases
      (not (is_outcome_completed (outcome_of p event session non_start)) || is_some u.assurance)) [
        | inl alone ↦ ([], rw alone refl, tt)
        | inr unverified ↦ (
          unverified_entry (terminated_entry p journal_ref event session non_start) ∷ [],
          rw unverified refl,
          (refl, tt),
        )
      ]

abbrev Released : Projection → Projection → String → String → Type 0
Released p q session event =
    (unit_state q session event ≡ State.settled) × (suc (in_flight q) ≡ in_flight p)

flying_weight :
    (o : Option WorkUnit)
    → is_state_in_flight (get_or no_unit o).state ≡ true
    → weigh is_in_flight o ≡ 1
flying_weight none h = cc
flying_weight (some u) h = ap bit h

fold_terminated :
    (p : Projection) (t : Entry)
    → t.kind ≡ Kind.terminated
    → is_state_in_flight (unit_state p t.session t.work_unit) ≡ true
    → Released p (fold p t) t.session t.work_unit
unfolding unit_state find_unit in_flight is_lifecycle activity_kind accepts
fold_terminated p t k flying =
    let o = find_unit p t.session t.work_unit in
    let u = next_unit (get_or no_unit o) t in
    let moved = fold_moves p t (rw k refl) (rw k refl) (rw k flying) in
    (
      ap (λ m. (get_or no_unit (lookup (unit_key t.session t.work_unit) m)).state) moved
          ∙ ap (λ (x : Option WorkUnit). (get_or no_unit x).state)
              (lookup-insert_self (unit_key t.session t.work_unit) u p.units)
          ∙ terminated_unit _ t k,
      ap (λ m. suc (count_where is_in_flight m)) moved
          ∙ omega (
            arith,
            count_where-insert is_in_flight (unit_key t.session t.work_unit) u p.units,
            flying_weight o flying,
            ap (λ s. bit (is_state_in_flight s)) (terminated_unit (get_or no_unit o) t k),
          ),
    )

never_completed :
    (u : WorkUnit) (r : Recovery) → is_outcome_completed (terminal_outcome u r true) ≡ false
unfolding terminal_outcome
never_completed u r = elim (Bool-cases r.backtracked) [
  | inl spent ↦ rw spent refl
  | inr other ↦ rw other refl
]

project-later :
    (es : List Entry) (t : Entry) (rest : List Entry)
    → project (es ++ t ∷ rest) ≡ project_from (fold (project es) t) rest
unfolding project project_from
project-later es t rest = project_from-append new_projection es (t ∷ rest)

module _ (l : Log) where
  open l use {Handle, entries, append_batch, appended}

  ended :
      (h : Handle) (journal_ref event session : String) (non_start : Bool)
      → is_state_in_flight (unit_state (project (entries h)) session event) ≡ true
      → (append_batch h (termination (project (entries h)) journal_ref event session non_start)).0
        ≡ none
      → Released
          (project (entries h))
          (project (
            entries
              (append_batch h
                (termination (project (entries h)) journal_ref event session non_start)).1))
          session
          event
  ended h journal_ref event session non_start flying done =
      let p = project (entries h) in
      let (rest, shape, results) = termination_shape p journal_ref event session non_start in
      let t = record (terminated_entry p journal_ref event session non_start) {
        seq = length (entries h);
      } in
      let first = fold_terminated p t refl flying in
      let later = results_keep (fold p t) (suc (length (entries h))) rest session event results in
      let now =
        appended h (termination p journal_ref event session non_start) done
        ∙ ap (λ es. entries h ++ number (length (entries h)) es) shape in
      let whole =
        ap project now ∙ project-later (entries h) t (number (suc (length (entries h))) rest) in
      (
        ap (λ q. unit_state q session event) whole ∙ later.0 ∙ first.0,
        ap (λ q. suc (in_flight q)) whole ∙ ap suc later.1 ∙ first.1,
      )

  -- Finish gives the slot of a unit in flight back: where the append succeeds, the unit is settled and
  -- one unit fewer is in flight.
  pub finish_releases :
      (h : Handle) (journal_ref event session : String)
      → unit_state (project (entries h)) session event ≡ State.in_flight
      → (finish l h journal_ref event session).0.append ≡ none
      → (unit_state (project (entries (finish l h journal_ref event session).1)) session event
          ≡ State.settled)
        × (suc (in_flight (project (entries (finish l h journal_ref event session).1)))
            ≡ in_flight (project (entries h)))
  unfolding finish terminate
  finish_releases h journal_ref event session flying done =
      ended h journal_ref event session false (ap is_state_in_flight flying) done

  non_start :
      (h : Handle) (journal_ref event session : String)
      → unit_state (project (entries h)) session event ≡ State.in_flight
      → uncertain_flight (get_or no_unit (find_unit (project (entries h)) session event)).flight
        ≡ true
      → reconcile l h journal_ref event session false
        ≡ reported l none
            (append_batch h (termination (project (entries h)) journal_ref event session true))
  unfolding reconcile terminate unit_state
  non_start h journal_ref event session flying unknown = rw (flying, unknown) refl

  -- What a termination leaves in the record: its own entry, and results after it.
  ended_entries :
      (h : Handle) (journal_ref event session : String) (non_start : Bool)
      → (append_batch h (termination (project (entries h)) journal_ref event session non_start)).0
        ≡ none
      → (rest : List Entry) × (entries
            (append_batch h
              (termination (project (entries h)) journal_ref event session non_start)).1
          ≡ entries h
            ++ record (terminated_entry (project (entries h)) journal_ref event session non_start) {
              seq = length (entries h);
            }
              ∷ rest)
  ended_entries h journal_ref event session non_start done =
      let p = project (entries h) in
      let (rest, shape, results) = termination_shape p journal_ref event session non_start in
      (
        number (suc (length (entries h))) rest,
        appended h (termination p journal_ref event session non_start) done
            ∙ ap (λ es. entries h ++ number (length (entries h)) es) shape,
      )

  -- The record of `h'` is that of `h`, then the end of the unit without completion, then `rest`.
  abbrev pub RecordsNonStart : Handle → Handle → String → String → Type 0
  RecordsNonStart h h' event session =
      (t : Entry) × (rest : List Entry) × (entries h' ≡ entries h ++ t ∷ rest)
      × (t.kind ≡ Kind.terminated)
      × (t.session ≡ session)
      × (t.work_unit ≡ event)
      × (is_outcome_completed t.outcome ≡ false)

  -- Reconciling a launch that never ran gives the slot of the uncertain unit back: where the append
  -- succeeds, the unit is settled, one unit fewer is in flight, and the record goes on with the unit's
  -- end, whose recorded outcome is not completed.
  pub reconcile_non_start :
      (h : Handle) (journal_ref event session : String)
      → unit_state (project (entries h)) session event ≡ State.in_flight
      → uncertain_flight (get_or no_unit (find_unit (project (entries h)) session event)).flight
        ≡ true
      → (reconcile l h journal_ref event session false).0.append ≡ none
      → (unit_state
            (project (entries (reconcile l h journal_ref event session false).1))
            session
            event
          ≡ State.settled)
        × (suc (in_flight (project (entries (reconcile l h journal_ref event session false).1)))
            ≡ in_flight (project (entries h)))
        × RecordsNonStart h (reconcile l h journal_ref event session false).1 event session
  reconcile_non_start h journal_ref event session flying unknown done =
      let given = non_start h journal_ref event session flying unknown in
      let taken = sym (ap (λ out. out.0.append) given) ∙ done in
      let freed = ended h journal_ref event session true (ap is_state_in_flight flying) taken in
      let (rest, now) = ended_entries h journal_ref event session true taken in
      (
        ap (λ out. unit_state (project (entries out.1)) session event) given ∙ freed.0,
        ap (λ out. suc (in_flight (project (entries out.1)))) given ∙ freed.1,
        (
          record (terminated_entry (project (entries h)) journal_ref event session true) {
            seq = length (entries h);
          },
          rest,
          ap (λ out. entries out.1) given ∙ now,
          refl,
          refl,
          refl,
          never_completed _ _,
        ),
      )
