-- ===== src/Dispatch/Plan/Graph.antt =====
-- validPlan of takt/dispatch/plan.go: planGraph with its two loops, and Kahn's algorithm in acyclic.
-- A counter is an integer that no plan in memory makes overflow. The order in which Go visits the map
-- `pending` is the order of the units here.
use takt_ai.Base.{
  ℕ, zero, suc, String, Bool, true, false, ◌||◌, Option, none, some, List, [], ◌∷◌, ◌++◌, eqb, ◌==◌,
  if◌then◌else◌,
}
use takt_ai.Base.Dict.{Dict, is_some, get_or, lookup, insert, size}
use takt_ai.Base.Text.{pos, negsuc, ℤ}
use takt_ai.History.Projection.{Projection, find_unit}

pub record PlanUnit : Type 0 where
  pub work_unit : String
  pub contract : String
  pub prerequisites : List String

-- Why a declaration or a revision is refused, one constructor for each error text.
pub data PlanFault : Type 0 where
  no_baseline no_standing_plan unidentified_revision cyclic unnamed_unit : PlanFault
  base_needed : String → PlanFault
  duplicate unknown_prerequisite : String → PlanFault
  stale_base : PlanFault
  added_and_withdrawn not_planned frozen : String → PlanFault
  unsettled_need : String → String → PlanFault
  many_rounds empty_round round_declared blank_round_unit : PlanFault
  round_unit_absent round_unit_admitted : String → PlanFault
  round_unit_taken : String → String → PlanFault

pub data Checked {ℓ} (A : Type ℓ) : Type ℓ where
  ok : A → Checked A
  fault : PlanFault → Checked A

-- `if err != nil { return err }`
infixl 5 ◌>>=◌
abbrev pub ◌>>=◌ {ℓ κ} : {A : Type ℓ} {B : Type κ} → Checked A → (A → Checked B) → Checked B
ok a >>= f = f a
fault e >>= f = fault e

abbrev pub increment : ℤ → ℤ
increment (pos n) = pos (suc n)
increment (negsuc zero) = pos 0
increment (negsuc (suc n)) = negsuc n

abbrev pub decrement : ℤ → ℤ
decrement (pos zero) = negsuc 0
decrement (pos (suc n)) = pos n
decrement (negsuc n) = negsuc (suc n)

abbrev pub is_zero : ℤ → Bool
is_zero (pos zero) = true
is_zero _ = false

-- indexPendingUnits
unfoldable pub index_units : Dict ℤ → List PlanUnit → Checked (Dict ℤ)
index_units pending [] = ok pending
index_units pending (u ∷ us) =
    let rest = index_units (insert u.work_unit (pos 0) pending) us in
    if u.work_unit == "" || u.contract == ""
    then fault PlanFault.unnamed_unit
    else if is_some (lookup u.work_unit pending)
    then fault (PlanFault.duplicate u.work_unit)
    else rest

-- The two maps of planGraph: the count of in-plan prerequisites, and the units waiting on each.
pub record Links : Type 0 where
  pub pending : Dict ℤ
  pub dependents : Dict (List String)

abbrev pub add_link : String → String → Links → Links
add_link unit need g = record {
  pending = insert unit (increment (get_or (pos 0) (lookup unit g.pending))) g.pending;
  dependents = insert need (get_or [] (lookup need g.dependents) ++ unit ∷ []) g.dependents;
}

-- The inner loop of linkPrerequisites.
unfoldable pub link_needs : Projection → String → String → List String → Links → Checked Links
link_needs p session unit [] g = ok g
link_needs p session unit (need ∷ needs) g =
    let linked = link_needs p session unit needs (add_link unit need g) in
    let skipped = link_needs p session unit needs g in
    if is_some (lookup need g.pending)
    then linked
    else if is_some (find_unit p session need)
    then skipped
    else fault (PlanFault.unknown_prerequisite need)

-- linkPrerequisites
unfoldable pub link_units : Projection → String → List PlanUnit → Links → Checked Links
unfolding link_needs
link_units p session [] g = ok g
link_units p session (u ∷ us) g =
    link_needs p session u.work_unit u.prerequisites g >>= link_units p session us

-- planGraph
unfoldable pub plan_graph : Projection → String → List PlanUnit → Checked Links
unfolding index_units link_units
plan_graph p session units = index_units [] units >>= λ pending.
    link_units p session units (record { pending = pending; dependents = [] })

-- The first loop of acyclic. The head of the list is the end of the slice `ready`.
unfoldable pub ready_units : Dict ℤ → List String → List String
ready_units [] ready = ready
ready_units ((unit, blocked) ∷ m) ready =
    ready_units m (if is_zero blocked then unit ∷ ready else ready)

-- The inner loop over the dependents of a settled unit.
unfoldable pub release : Dict ℤ → List String → List String → Dict ℤ × List String
release pending ready [] = (pending, ready)
release pending ready (next ∷ rest) =
    let left = decrement (get_or (pos 0) (lookup next pending)) in
    release (insert next left pending) (if is_zero left then next ∷ ready else ready) rest

-- The loop `for len(ready) > 0`, on fuel; `none` where the fuel runs out.
unfoldable pub settle_ready : ℕ → Dict (List String) → Dict ℤ → List String → ℕ → Option ℕ
unfolding release
settle_ready fuel deps pending [] settled = some settled
settle_ready zero deps pending (unit ∷ ready) settled = none
settle_ready (suc fuel) deps pending (unit ∷ ready) settled =
    let next = release pending ready (get_or [] (lookup unit deps)) in
    settle_ready fuel deps next.0 next.1 (suc settled)

-- acyclic
unfoldable pub acyclic : Links → Bool
unfolding ready_units settle_ready
acyclic g =
    elim (settle_ready (size g.pending) g.dependents g.pending (ready_units g.pending []) 0) [
      | some settled ↦ eqb settled (size g.pending)
      | none ↦ false
    ]

-- validPlan
unfoldable pub valid_plan : Projection → String → List PlanUnit → Option PlanFault
unfolding plan_graph acyclic
valid_plan p session units = elim (plan_graph p session units) [
  | fault e ↦ some e
  | ok g ↦ if acyclic g then none else some PlanFault.cyclic
]
