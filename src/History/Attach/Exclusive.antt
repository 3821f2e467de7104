-- ===== src/History/Attach/Exclusive.antt =====
-- AttachChild of takt/history/execution.go: whose child a session can become.
use mathlib.Core.Path.{subst}
use takt_ai.Base.{
  eq_false, String, ◌≡◌, refl, sym, ap, ◌∙◌, ◌≢◌, ◌⊎◌, inl, inr, Bool, true, false, not, ◌&&◌, ◌||◌,
  Option, none, some, [], ◌∷◌, arith, eq_iff, ◌==◌, if◌then◌else◌, Bool-cases,
}
use takt_ai.Base.Dict.{Dict, is_some, lookup, find}
use takt_ai.History.Kinds.{Kind}
use takt_ai.History.Projection.{Execution, Projection}
use takt_ai.History.Fold.{project}
use takt_ai.History.Log.Interface.{Log}
use takt_ai.History.Attach.{
  turned_away, attached, to_attach, Attachment, holds_child, attach_decision, execution_fact,
  succeeds, carry_out, attach_child,
}

find_none :
    {A : Type 0} (f : String → A → Bool) (m : Dict A) (k : String) (v : A)
    → is_some (find f m) ≡ false
    → lookup k m ≡ some v
    → f k v ≡ false
unfolding find lookup
find_none f [] k v h e = cc
find_none {A = A} f ((j, w) ∷ m) k v h e = elim (Bool-cases (f j w)) [
  | inl found ↦ absurd (cc (rw found at h))
  | inr other ↦ elim (Bool-cases (j == k)) [
    | inl same ↦
        subst (λ x. f x v ≡ false) ((eq_iff j k).0 same)
          (ap (f j) (sym (the_same (rw same at e))) ∙ other)
    | inr differs ↦ find_none f m k v (rw other at h) (rw differs at e)
  ]
]
  where
    the_same : {a b : A} → some a ≡ some b → a ≡ b
    the_same q = cc

-- No other dispatch that could still run, or that ran a maintenance lane, holds the child.
abbrev pub Exclusive : Projection → String → String → Type 0
Exclusive p dispatch child =
    (k : String) (old : Execution)
    → lookup k p.executions ≡ some old
    → old.child ≡ child
    → old.dispatch ≢ dispatch
    → (old.settled ≡ true) × (old.cycle ≡ "")

-- The execution that a child was attached to.
abbrev pub Attached : Projection → String → String → String → Execution → Type 0
Attached p dispatch child agent d =
    (lookup dispatch p.executions ≡ some d)
    × (d.settled ≡ false)
    × (d.agent ≡ agent)
    × (child ≢ "")
    × ((d.child ≡ child) ⊎ ((d.child ≡ "") × Exclusive p dispatch child))

Decided : Projection → String → String → String → Attachment → Type 0
Decided p dispatch child agent (turned_away r) = Unit
Decided p dispatch child agent (attached d) = Attached p dispatch child agent d × (d.child ≡ child)
Decided p dispatch child agent (to_attach d) = Attached p dispatch child agent d

free_child :
    (p : Projection) (dispatch child : String)
    → is_some (find (λ _ old. holds_child dispatch child old) p.executions) ≡ false
    → Exclusive p dispatch child
free_child p dispatch child h k old known own other =
    let free = find_none (λ _ x. holds_child dispatch child x) p.executions k old h known in
    let apart = eq_false old.dispatch dispatch other in
    let idle =
      held_false old.settled (old.cycle == "")
        ((rw (apart, (eq_iff old.child child).1 own) at free)) in
    (idle.0, (eq_iff old.cycle "").0 idle.1)
  where
    held_false : (a b : Bool) → (not a || not b) ≡ false → (a ≡ true) × (b ≡ true)
    held_false true true h = (refl, refl)
    held_false true false h = cc
    held_false false b h = cc

differs_from : (a b : String) → (a == b) ≡ false → a ≢ b
differs_from a b h e = cc (sym h ∙ (eq_iff a b).1 e)

decided :
    (p : Projection) (dispatch child agent : String) (o : Option Execution)
    → lookup dispatch p.executions ≡ o
    → Decided p dispatch child agent (attach_decision p dispatch child agent)
unfolding attach_decision Decided
decided p dispatch child agent none known = rw known tt
decided p dispatch child agent (some d) known =
    elim (Bool-cases (d.settled || not (d.agent == agent) || child == "")) [
      | inl idle ↦ rw (known, idle) tt
      | inr runs ↦ elim (Bool-cases (not d.ready && d.cycle == "")) [
        | inl early ↦ rw (known, runs, early) tt
        | inr prepared ↦
            let agreed = (eq_iff d.agent agent).0 (ground arith) in
            let named = differs_from child "" (ground arith) in
            elim (Bool-cases (d.child == "")) [
              | inr taken ↦ elim (Bool-cases (d.child == child)) [
                | inl own ↦
                    let same = (eq_iff d.child child).0 own in
                    rw (known, runs, prepared, taken, own)
                      ((known, ground arith, agreed, named, inl same), same)
                | inr other ↦ rw (known, runs, prepared, taken, other) tt
              ]
              | inl fresh ↦
                  elim (Bool-cases
                    (is_some (find (λ _ old. holds_child dispatch child old) p.executions))) [
                      | inl elsewhere ↦ rw (known, runs, prepared, fresh, elsewhere) tt
                      | inr free ↦
                          rw (known, runs, prepared, fresh, free)
                            (
                              known,
                              ground arith,
                              agreed,
                              named,
                              inr ((eq_iff d.child "").0 fresh, free_child p dispatch child free),
                            )
                    ]
            ]
      ]
    ]

module _ (l : Log) where
  open l use {Handle, entries}

  carried_out :
      (h : Handle) (p : Projection) (dispatch child agent : String) (a : Attachment)
      (d' : Execution)
      → Decided p dispatch child agent a
      → (carry_out l h child a).0 ≡ some d'
      → (d : Execution) × Attached p dispatch child agent d × (d'.child ≡ child)
  unfolding Decided
  carried_out h p dispatch child agent (turned_away r) d' known done = cc
  carried_out h p dispatch child agent (attached d) d' (known, own) done =
      (d, known, cc (done, own))
  carried_out h p dispatch child agent (to_attach d) d' known done =
      (d, known, recorded (succeeds l (execution_fact l h d Kind.child child "" []).0) done)
    where
      recorded :
          (b : Bool)
          → (if b then some (record d { child = child }) else none) ≡ some d'
          → d'.child ≡ child
      recorded true q = cc
      recorded false q = cc

  -- A child is attached only to an active execution of the agent, and to one execution: where AttachChild
  -- returns an execution, the dispatch is known, not settled and of that agent, the execution it returns
  -- has the child, and either the child was attached before, or the execution had no child and every
  -- execution under another dispatch that has the child is settled and no maintenance lane.
  pub attach_child-Attached :
      (h : Handle) (dispatch child agent : String) (d' : Execution)
      → (attach_child l h dispatch child agent).0 ≡ some d'
      → (d : Execution) × Attached (project (entries h)) dispatch child agent d × (d'.child ≡ child)
  unfolding attach_child
  attach_child-Attached h dispatch child agent d' done =
      carried_out h (project (entries h)) dispatch child agent _ d'
        (decided (project (entries h)) dispatch child agent
          (lookup dispatch (project (entries h)).executions) refl)
        done
