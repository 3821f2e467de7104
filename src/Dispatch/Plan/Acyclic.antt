-- ===== src/Dispatch/Plan/Acyclic.antt =====
-- acyclic decides whether every unit of the plan can settle after what it needs.
use mathlib.Core.Path.{subst}
use takt_ai.Base.{
  ℕ, zero, suc, ◌≤◌, String, ◌≡◌, refl, sym, ap, ◌∙◌, ◌↔◌, inl, inr, Bool, true, false, ◌&&◌, ◌||◌,
  Option, none, some, List, [], ◌∷◌, arith, eq_iff, eq_refl, eqb, ◌==◌, if◌then◌else◌, Bool-cases,
  length, All, contains,
}
use takt_ai.Base.Dict.{Dict, is_some, lookup, size}
use takt_ai.Base.Text.{pos, ℤ}
use takt_ai.History.Projection.{Projection}
use takt_ai.Dispatch.Plan.Graph.{
  ok, PlanUnit, is_zero, Links, plan_graph, ready_units, settle_ready, acyclic,
}
use takt_ai.Dispatch.Plan.Edges.{
  grounded, Edge, occurs, waiting, targets, has_edge, Distinct, Grounded, waiting_none, missing-nil,
}
use takt_ai.Dispatch.Plan.Kahn.{IsKahn, Ends, settle_ready-Ends, all_settled}
use takt_ai.Dispatch.Plan.Linking.{keys, identities, requires, contains-keys, Linked}
use takt_ai.Dispatch.Plan.Graphs.{plan_graph-Linked}

-- A unit can settle when every unit of the plan that it requires can settle before it.
pub data Settles (us : List PlanUnit) : String → Type 0 where
  settles :
      (v : String)
      → ((w : String) → requires us v w ≡ true → contains (identities us) w ≡ true → Settles us w)
      → Settles us v

-- The counter of a unit is there and is zero.
abbrev counter_free : Option ℤ → Bool
counter_free none = false
counter_free (some n) = is_zero n

ready_units-contains :
    (m : Dict ℤ) (ready : List String) (v : String)
    → Distinct (keys m)
    → contains (ready_units m ready) v ≡ (contains ready v || counter_free (lookup v m))
unfolding ready_units lookup
ready_units-contains [] ready v d = ground arith
ready_units-contains ((u, n) ∷ m) ready v d = ground (
  arith,
  ready_units-contains m (if is_zero n then u ∷ ready else ready) v d.1,
  eq_iff u v,
  contains-keys u m,
  d.0,
)

ready_units-Distinct :
    (m : Dict ℤ) (ready : List String)
    → Distinct (keys m)
    → Distinct ready
    → ((v : String) → contains ready v ≡ true → contains (keys m) v ≡ false)
    → Distinct (ready_units m ready)
unfolding ready_units
ready_units-Distinct [] ready d r apart = r
ready_units-Distinct ((u, n) ∷ m) ready d r apart = elim (Bool-cases (is_zero n)) [
  | inl free ↦ rw free (
      ready_units-Distinct m (u ∷ ready) d.1 (ground (arith, apart u, eq_refl u), r)
        (λ v h. ground (arith, apart v, eq_iff u v, d.0)))
  | inr blocked ↦ rw blocked (ready_units-Distinct m ready d.1 r (λ v h. ground (arith, apart v)))
]

targets-closed :
    (nodes : List String) (u : String) (es : List Edge)
    → All (λ e. (contains nodes e.0 ≡ true) × (contains nodes e.1 ≡ true)) es
    → All (λ v. contains nodes v ≡ true) (targets u es)
unfolding targets
targets-closed nodes u [] h = tt
targets-closed nodes u ((w, x) ∷ es) h = elim (Bool-cases (w == u)) [
  | inl own ↦ rw own (h.0.1, targets-closed nodes u es h.1)
  | inr other ↦ rw other (targets-closed nodes u es h.1)
]

edge_source :
    (nodes : List String) (w v : String) (es : List Edge)
    → All (λ e. (contains nodes e.0 ≡ true) × (contains nodes e.1 ≡ true)) es
    → has_edge w v es ≡ true
    → contains nodes w ≡ true
unfolding has_edge
edge_source nodes w v [] h e = cc
edge_source nodes w v ((w', x) ∷ es) h e =
    ground (arith, edge_source nodes w v es h.1, h.0.0, eq_iff w' w)

size-keys : (m : Dict ℤ) → size m ≡ length (keys m)
unfolding size
size-keys [] = refl
size-keys (slot ∷ m) = ap suc (size-keys m)

module _ (nodes : List String) (es : List Edge) (g : Links) (distinct : Distinct nodes)
    (inv : Linked nodes g es) where
  keys-Distinct : Distinct (keys g.pending)
  keys-Distinct = subst Distinct (sym inv.keyed) distinct

  key_known : (v : String) → is_some (lookup v g.pending) ≡ contains nodes v
  key_known v = sym (contains-keys v g.pending) ∙ ap (λ ks. contains ks v) inv.keyed

  ready_counts :
      (v : String)
      → contains nodes v ≡ true
      → counter_free (lookup v g.pending) ≡ eqb (waiting [] v es) 0
  ready_counts v h = rw (inv.counts v h) (zero_free (waiting [] v es))
    where
      zero_free : (n : ℕ) → is_zero (pos n) ≡ eqb n 0
      zero_free zero = refl
      zero_free (suc n) = ground arith

  started : (v : String) → contains (ready_units g.pending []) v ≡ counter_free (lookup v g.pending)
  started v = ready_units-contains g.pending [] v keys-Distinct

  ready_known :
      (v : String) → contains (ready_units g.pending []) v ≡ true → contains nodes v ≡ true
  ready_known v h = sym (key_known v) ∙ present (lookup v g.pending) (sym (started v) ∙ h)
    where
      present : (o : Option ℤ) → counter_free o ≡ true → is_some o ≡ true
      present none e = cc
      present (some n) e = refl

  ready-Grounded : (v : String) → contains (ready_units g.pending []) v ≡ true → Grounded es v
  ready-Grounded v h = grounded v (λ w e.
      absurd (
        cc
          (waiting_none [] w v es (ground (arith, ready_counts v (ready_known v h), started v)) e)))

  initial-IsKahn : IsKahn nodes es [] [] (ready_units g.pending []) g.pending
  unfolding occurs
  initial-IsKahn = record {
    counted = λ v h. ground (arith, inv.counts v h);
    free = λ v h. ground (arith, started v, ready_counts v h);
    known = λ v h. ready_known v (ground arith);
    fresh = λ v h. refl;
    distinct = ready_units-Distinct g.pending [] keys-Distinct tt (λ v h. cc);
    settled = λ v h. ready-Grounded v (ground arith);
    total = omega (arith, missing-nil nodes);
    targeted = tt;
  }

  targets_closed : (u : String) → All (λ v. contains nodes v ≡ true) (targets u es)
  targets_closed u = targets-closed nodes u es inv.closed

  sources : (w x : String) → has_edge w x es ≡ true → contains nodes w ≡ true
  sources w x e = edge_source nodes w x es inv.closed e

  size_nodes : size g.pending ≡ length nodes
  size_nodes = size-keys g.pending ∙ ap length inv.keyed

  loop_end :
      Ends nodes es
        (settle_ready (size g.pending) g.dependents g.pending (ready_units g.pending []) 0)
  loop_end =
      settle_ready-Ends nodes es g.dependents distinct inv.waits targets_closed (size g.pending) []
        (ready_units g.pending []) g.pending (omega (arith, size_nodes, missing-nil nodes))
        initial-IsKahn

  loop_ends :
      (n : ℕ) × (settle_ready (size g.pending) g.dependents g.pending (ready_units g.pending []) 0
        ≡ some n)
      × (n ≤ size g.pending)
  loop_ends =
      let (done, pending, ended, last) = loop_end in
      (length done, ended, omega (arith, size_nodes, last.total))

  acyclic-Grounded : (acyclic g ≡ true) ↔ ((v : String) → contains nodes v ≡ true → Grounded es v)
  unfolding acyclic
  acyclic-Grounded =
      let (done, pending, ended, last) = loop_end in
      let settled = all_settled nodes es done pending last sources in
      (
        λ h. settled.0 (ground (arith, ended, size_nodes)),
        λ all. ground (arith, ended, size_nodes, settled.1 all),
      )

-- The two descriptions of what a unit rests on agree.
module _ (us : List PlanUnit) (es : List Edge)
    (new : (w v : String) → has_edge w v es ≡ (requires us v w && contains (identities us) w)) where
  Settles-of_Grounded : {v : String} → Grounded es v → Settles us v
  Settles-of_Grounded (grounded v below) =
      settles v (λ w r k. Settles-of_Grounded (below w (new w v ∙ ground (arith, r, k))))

  Grounded-of_Settles : {v : String} → Settles us v → Grounded es v
  Grounded-of_Settles (settles v below) = grounded v (λ w e.
      Grounded-of_Settles (below w (ground (arith, e, new w v)) (ground (arith, e, new w v))))

-- The graph of a plan that planGraph accepts has distinct identities, and acyclic, whose loop ends,
-- tells exactly whether every unit of the plan can settle after the units of the plan that it requires.
pub acyclic_iff :
    (p : Projection) (s : String) (us : List PlanUnit) (g : Links)
    → plan_graph p s us ≡ ok g
    → Distinct (identities us)
      × ((acyclic g ≡ true) ↔ ((v : String) → contains (identities us) v ≡ true → Settles us v))
acyclic_iff p s us g built =
    let (distinct, (es, inv, new)) = plan_graph-Linked p s us g built in
    let decided = acyclic-Grounded (identities us) es g distinct inv in
    (
      distinct,
      (
        λ h v k. Settles-of_Grounded us es new (decided.0 h v k),
        λ all. decided.1 (λ v k. Grounded-of_Settles us es new (all v k)),
      ),
    )

-- On the graph of a plan, the loop of acyclic ends after at most as many rounds as the plan has units.
pub settle_ready_ends :
    (p : Projection) (s : String) (us : List PlanUnit) (g : Links)
    → plan_graph p s us ≡ ok g
    → (n : ℕ) × (settle_ready (size g.pending) g.dependents g.pending (ready_units g.pending []) 0
        ≡ some n)
      × (n ≤ size g.pending)
settle_ready_ends p s us g built =
    let (distinct, (es, inv, new)) = plan_graph-Linked p s us g built in
    loop_ends (identities us) es g distinct inv
