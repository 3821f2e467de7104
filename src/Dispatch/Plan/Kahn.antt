-- ===== src/Dispatch/Plan/Kahn.antt =====
-- Kahn's loop: its invariant, its end within the fuel, and what the settled units are.
use mathlib.Core.Path.{subst}
use takt_ai.Base.{
  ℕ, zero, suc, ◌+◌, ◌≤◌, ◌<◌, String, ◌≡◌, refl, sym, ◌∙◌, ◌↔◌, inl, inr, true, false, ◌||◌,
  Option, some, List, [], ◌∷◌, arith, eq_iff, eq_refl, eqb, ◌==◌, if◌then◌else◌, Bool-cases, length,
  All, contains,
}
use takt_ai.Base.Dict.{Dict, get_or, lookup, insert, lookup-insert}
use takt_ai.Base.Text.{pos, ℤ}
use takt_ai.Dispatch.Plan.Graph.{decrement, is_zero, release, settle_ready}
use takt_ai.Dispatch.Plan.Edges.{
  grounded, Edge, occurs, waiting, targets, missing, has_edge, Distinct, Grounded, waiting-cons,
  waiting_none, none_waiting, missing-cons, missing_none, none_missing,
}

module _ (nodes : List String) (es : List Edge) where
  abbrev IsNode : String → Type 0
  IsNode v = contains nodes v ≡ true

  -- The state of the loops: `rest` are the dependents of the last settled unit still to release.
  pub record IsKahn (done rest ready : List String) (pending : Dict ℤ) : Type 0 where
    pub counted :
        (v : String) → IsNode v → lookup v pending ≡ some (pos (waiting done v es + occurs v rest))
    pub free :
        (v : String)
        → IsNode v
        → (contains ready v || contains done v) ≡ eqb (waiting done v es + occurs v rest) 0
    pub known : (v : String) → (contains ready v || contains done v) ≡ true → IsNode v
    pub fresh : (v : String) → contains ready v ≡ true → contains done v ≡ false
    pub distinct : Distinct ready
    pub settled : (v : String) → (contains ready v || contains done v) ≡ true → Grounded es v
    pub total : length done + missing done nodes ≡ length nodes
    pub targeted : All (λ v. IsNode v) rest

  module _ (done rest ready : List String) (pending : Dict ℤ) (next : String)
      (inv : IsKahn done (next ∷ rest) ready pending) where
    node : IsNode next
    node = inv.targeted.0

    -- The released unit waits for more.
    release_more :
        (n : ℕ)
        → waiting done next es + occurs next rest ≡ suc n
        → IsKahn done rest ready (insert next (pos (suc n)) pending)
    unfolding occurs
    release_more n more = record {
      counted = λ v h.
          ground
            (arith, inv.counted v h, lookup-insert next v (pos (suc n)) pending, eq_iff next v);
      free = λ v h. ground (arith, inv.free v h, eq_iff next v);
      known = inv.known;
      fresh = inv.fresh;
      distinct = inv.distinct;
      settled = inv.settled;
      total = inv.total;
      targeted = inv.targeted.1;
    }

    rested : waiting done next es + occurs next rest ≡ 0 → Grounded es next
    rested last =
        grounded next (λ w e.
          inv.settled w (ground (arith, waiting_none done w next es (omega (arith, last)) e)))

    waits : (contains ready next || contains done next) ≡ false
    unfolding occurs
    waits = ground (arith, inv.free next node, eq_refl next)

    -- The released unit has become ready.
    release_last :
        waiting done next es + occurs next rest ≡ 0
        → IsKahn done rest (next ∷ ready) (insert next (pos 0) pending)
    unfolding occurs
    release_last last = record {
      counted = λ v h.
          ground (arith, inv.counted v h, lookup-insert next v (pos 0) pending, eq_iff next v);
      free = λ v h. ground (arith, inv.free v h, eq_iff next v, waits);
      known = λ v h. ground (arith, inv.known v, node, eq_iff next v);
      fresh = λ v h. ground (arith, inv.fresh v, waits, eq_iff next v);
      distinct = (ground (arith, waits), inv.distinct);
      settled = λ v h. elim (Bool-cases (next == v)) [
        | inl own ↦ subst (Grounded es) ((eq_iff next v).0 own) (rested last)
        | inr other ↦ inv.settled v (ground arith)
      ];
      total = inv.total;
      targeted = inv.targeted.1;
    }

    released :
        (n : ℕ)
        → waiting done next es + occurs next rest ≡ n
        → IsKahn done rest
            (if is_zero (pos n) then next ∷ ready else ready)
            (insert next (pos n) pending)
    released zero e = release_last e
    released (suc n) e = release_more n e

    left_count : lookup next pending ≡ some (pos (suc (waiting done next es + occurs next rest)))
    unfolding occurs
    left_count = ground (arith, inv.counted next node, eq_refl next)

    release_step :
        (let left = decrement (get_or (pos 0) (lookup next pending)) in
          IsKahn done rest
            (if is_zero left then next ∷ ready else ready)
            (insert next left pending))
    release_step = rw left_count (released _ refl)

  -- A ready unit is settled.
  settle_step :
      (u : String) (done ready : List String) (pending : Dict ℤ)
      → Distinct nodes
      → All (λ v. IsNode v) (targets u es)
      → IsKahn done [] (u ∷ ready) pending
      → IsKahn (u ∷ done) (targets u es) ready pending
  unfolding occurs
  settle_step u done ready pending distinct targeted inv =
      let new = inv.fresh u (ground (arith, eq_refl u)) in
      record {
        counted = λ v h. ground (arith, inv.counted v h, waiting-cons u v done es new);
        free = λ v h. ground (arith, inv.free v h, waiting-cons u v done es new);
        known = λ v h. inv.known v (ground arith);
        fresh = λ v h. ground (arith, inv.fresh v, inv.distinct.0, eq_iff u v);
        distinct = inv.distinct.1;
        settled = λ v h. inv.settled v (ground arith);
        total = omega (
          arith,
          inv.total,
          missing-cons u done nodes distinct (inv.known u (ground (arith, eq_refl u))) new,
        );
        targeted = targeted;
      }

  -- The inner loop releases all dependents.
  release-IsKahn :
      (done rest ready : List String) (pending : Dict ℤ)
      → IsKahn done rest ready pending
      → IsKahn done [] (release pending ready rest).1 (release pending ready rest).0
  unfolding release
  release-IsKahn done [] ready pending inv = inv
  release-IsKahn done (next ∷ rest) ready pending inv =
      release-IsKahn done rest _ _ (release_step done rest ready pending next inv)

  -- An edge ends at a node.
  abbrev pub IsClosed : Type 0
  IsClosed = All (λ e. IsNode e.1) es

  -- What the loop comes to: it ends, with every unit settled that is ready.
  abbrev pub Ends : Option ℕ → Type 0
  Ends o =
      (done : List String) × (pending : Dict ℤ) × (o ≡ some (length done))
      × IsKahn done [] [] pending

  nothing_missing :
      (u : String) (done ready : List String) (pending : Dict ℤ)
      → IsKahn done [] (u ∷ ready) pending
      → 0 < missing done nodes
  nothing_missing u done ready pending inv = elim (Bool-cases (eqb (missing done nodes) 0)) [
    | inr some_missing ↦ ground arith
    | inl all_done ↦
        let first : contains (u ∷ ready) u ≡ true = ground (arith, eq_refl u) in
        let gone = missing_none done nodes u (ground arith) (inv.known u (ground (arith, first))) in
        absurd (cc (sym (inv.fresh u first) ∙ gone))
  ]

  module _ (deps : Dict (List String)) (distinct : Distinct nodes)
      (linked : (u : String) → get_or [] (lookup u deps) ≡ targets u es)
      (closed : (u : String) → All (λ v. IsNode v) (targets u es)) where
    pub settle_ready-Ends :
        (fuel : ℕ) (done ready : List String) (pending : Dict ℤ)
        → missing done nodes ≤ fuel
        → IsKahn done [] ready pending
        → Ends (settle_ready fuel deps pending ready (length done))
    unfolding settle_ready
    settle_ready-Ends fuel done [] pending enough inv = (done, pending, refl, inv)
    settle_ready-Ends zero done (u ∷ ready) pending enough inv =
        absurd (omega (arith, nothing_missing u done ready pending inv))
    settle_ready-Ends (suc fuel) done (u ∷ ready) pending enough inv =
        let after = settle_step u done ready pending distinct (closed u) inv in
        let next = release-IsKahn (u ∷ done) (targets u es) ready pending after in
        subst
          (λ ts. Ends (
            settle_ready fuel deps (release pending ready ts).0 (release pending ready ts).1
              (suc (length done))))
          (sym (linked u))
          (settle_ready-Ends fuel (u ∷ done) _ _ (omega (arith, inv.total, after.total)) next)

  -- A node that rests on finished work is done when the loop has ended.
  Grounded-done :
      (done : List String) (pending : Dict ℤ) (v : String)
      → IsKahn done [] [] pending
      → ((w x : String) → has_edge w x es ≡ true → IsNode w)
      → IsNode v
      → Grounded es v
      → contains done v ≡ true
  unfolding occurs
  Grounded-done done pending v inv sources h (grounded _ below) = ground (
    arith,
    inv.free v h,
    none_waiting done v es
        (λ w e. Grounded-done done pending w inv sources (sources w v e) (below w e)),
  )

  -- The loop has settled every node exactly when every node rests on finished work.
  pub all_settled :
      (done : List String) (pending : Dict ℤ)
      → IsKahn done [] [] pending
      → ((w x : String) → has_edge w x es ≡ true → IsNode w)
      → (length done ≡ length nodes) ↔ ((v : String) → IsNode v → Grounded es v)
  all_settled done pending inv sources = (
    λ e v h. inv.settled v (missing_none done nodes v (omega (arith, inv.total, e)) h),
    λ all.
        let none_left =
          none_missing done nodes (λ v h. Grounded-done done pending v inv sources h (all v h)) in
        omega (arith, inv.total, none_left),
  )
