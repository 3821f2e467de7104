-- ===== src/History/Fold/Covered.antt =====
-- `Unplanned` counts what it says: the session's units that no plan commitment declared.
use takt_ai.Base.{
  ◌+◌, String, ◌≡◌, refl, sym, ◌∙◌, Bool, true, false, not, ◌&&◌, ◌||◌, Option, none, some, List,
  [], ◌∷◌, arith, ◌==◌, if◌then◌else◌, All,
}
use takt_ai.Base.Dict.{
  insert-All, Dict, get_or, bit, weigh, lookup, insert, count_where, count_where-insert,
}
use takt_ai.History.Kinds.{Kind, State, is_kind_admitted, is_kind_planned, is_kind_result}
use takt_ai.History.Entry.{Entry}
use takt_ai.History.Projection.{
  Assurance, WorkUnit, Projection, no_unit, new_projection, unit_key, find_unit, budgets_of,
}
use takt_ai.History.Keys.{IsPlain, unit_key-injective}
use takt_ai.History.Fold.Budgeted.{accepts}
use takt_ai.History.Fold.Defs.{advance, next_unit, fold, project_from, project}
use takt_ai.History.Fold.View.{result_not_admitted, UnitChange, fold_units}
use takt_ai.History.Fold.Unplanned.{newly_zero, newly, unplanned_of, fold_unplanned}
use takt_ai.History.Fold.View.{kept, assured, moved}

-- A unit of the session that no plan commitment declared.
unfoldable pub is_uncovered : String → WorkUnit → Bool
is_uncovered s u = u.session == s && not u.committed

-- Every unit stands under its own key, a planned unit is committed, and each session's count is the
-- number of its units without a commitment.
pub record IsCovered (p : Projection) : Type 0 where
  pub keyed :
      (k : String) (u : WorkUnit)
      → lookup k p.units ≡ some u
      → (k ≡ unit_key u.session u.work_unit) × IsPlain u.session
  pub committed :
      (k : String) (u : WorkUnit)
      → lookup k p.units ≡ some u
      → u.state ≡ State.planned
      → u.committed ≡ true
  pub counted : (s : String) → unplanned_of p s ≡ count_where (is_uncovered s) p.units

-- What `advance` leaves of a unit's identity and commitment.
advance_identity :
    (k : Kind) (w : WorkUnit) (e : Entry)
    → ((advance k w e).session ≡ w.session) × ((advance k w e).work_unit ≡ w.work_unit)
unfolding advance
advance_identity Kind.admitted w e = (refl, refl)
advance_identity Kind.planned w e = (refl, refl)
advance_identity Kind.withdrawn w e = (refl, refl)
advance_identity Kind.terminated w e = (refl, refl)
advance_identity _ w e = (refl, refl)

advance_committed :
    (k : Kind) (w : WorkUnit) (e : Entry)
    → (advance k w e).committed ≡ (is_kind_planned k || w.committed)
unfolding advance
advance_committed Kind.admitted w e = refl
advance_committed Kind.planned w e = refl
advance_committed Kind.withdrawn w e = refl
advance_committed Kind.terminated w e = refl
advance_committed _ w e = refl

advance-planned :
    (k : Kind) (w : WorkUnit) (e : Entry)
    → (advance k w e).state ≡ State.planned
    → (advance k w e).committed ≡ true
unfolding advance
advance-planned Kind.admitted w e h = cc
advance-planned Kind.planned w e h = refl
advance-planned Kind.withdrawn w e h = cc
advance-planned Kind.terminated w e h = cc
advance-planned _ w e h = cc

-- A planned unit is redeclared only while it is planned; a new unit is admitted or planned.
accepts_new :
    (k : Kind)
    → accepts none k ≡ true
    → is_kind_result k ≡ false
    → is_kind_planned k ≡ not (is_kind_admitted k)
unfolding accepts
accepts_new Kind.admitted a r = refl
accepts_new Kind.planned a r = refl
accepts_new Kind.withdrawn a r = cc
accepts_new Kind.result a r = cc
accepts_new _ a r = cc

accepts_known :
    (k : Kind) (u : WorkUnit)
    → accepts (some u) k ≡ true
    → is_kind_planned k ≡ true
    → u.state ≡ State.planned
unfolding accepts
accepts_known Kind.planned u a r = ground arith
accepts_known _ u a r = cc

module _ (p : Projection) (e : Entry) (plain : IsPlain e.session) (inv : IsCovered p) where
  abbrev Kept : (m : Dict WorkUnit) → Type 0
  Kept m =
      ((k : String) (u : WorkUnit)
        → lookup k m ≡ some u
        → (k ≡ unit_key u.session u.work_unit) × IsPlain u.session)
      × ((k : String) (u : WorkUnit)
          → lookup k m ≡ some u
          → u.state ≡ State.planned
          → u.committed ≡ true)
      × ((s : String)
          → unplanned_of p s + (if e.session == s then newly p e else 0)
            ≡ count_where (is_uncovered s) m)

  -- The unit that the entry names, if known, has the entry's identities.
  own_identity :
      (u : WorkUnit)
      → find_unit p e.session e.work_unit ≡ some u
      → (e.session ≡ u.session) × (e.work_unit ≡ u.work_unit)
  unfolding find_unit
  own_identity u h =
      let (key, plain_u) = inv.keyed (unit_key e.session e.work_unit) u h in
      unit_key-injective e.session u.session e.work_unit u.work_unit plain plain_u key

  own_committed :
      (u : WorkUnit)
      → find_unit p e.session e.work_unit ≡ some u
      → u.state ≡ State.planned
      → u.committed ≡ true
  unfolding find_unit
  own_committed u h = inv.committed (unit_key e.session e.work_unit) u h

  -- An assignment that keeps the identities, and exchanges one uncovered unit for another.
  Kept-by_insert :
      (v : WorkUnit)
      → v.session ≡ e.session
      → v.work_unit ≡ e.work_unit
      → (v.state ≡ State.planned → v.committed ≡ true)
      → ((s : String)
          → (if e.session == s then newly p e else 0)
              + weigh (is_uncovered s) (find_unit p e.session e.work_unit)
            ≡ bit (is_uncovered s v))
      → Kept (insert (unit_key e.session e.work_unit) v p.units)
  unfolding find_unit
  Kept-by_insert v same_s same_w covers uncov =
      let key = unit_key e.session e.work_unit in
      (
        insert-All (λ k u. (k ≡ unit_key u.session u.work_unit) × IsPlain u.session) key v p.units
            inv.keyed (rw (same_s, same_w) (refl, plain)),
        insert-All (λ k u. u.state ≡ State.planned → u.committed ≡ true) key v p.units inv.committed
            covers,
        λ s.
            omega
              (arith, count_where-insert (is_uncovered s) key v p.units, inv.counted s, uncov s),
      )

  newly_none : newly p e ≡ 0 → (s : String) → (if e.session == s then newly p e else 0) ≡ 0
  newly_none h s = rw h (ground arith)

  moved_uncovered :
      (o : Option WorkUnit)
      → find_unit p e.session e.work_unit ≡ o
      → accepts o e.kind ≡ true
      → is_kind_result e.kind ≡ false
      → (s : String)
      → (if e.session == s then newly p e else 0) + weigh (is_uncovered s) o
        ≡ bit (is_uncovered s (next_unit (get_or no_unit o) e))
  unfolding newly is_uncovered next_unit
  moved_uncovered none h taken moving s =
      rw
        (
          h,
          (advance_identity e.kind _ e).0,
          advance_committed e.kind _ e,
          accepts_new e.kind taken moving,
        )
        (ground arith)
  moved_uncovered (some u) h taken moving s =
      rw (h, (advance_identity e.kind _ e).0, advance_committed e.kind _ e, (own_identity u h).0)
        (ground (arith, accepts_known e.kind u taken, own_committed u h))

  assured_uncovered :
      (u : WorkUnit) (a : Option Assurance)
      → is_kind_result e.kind ≡ true
      → find_unit p e.session e.work_unit ≡ some u
      → (s : String)
      → (if e.session == s then newly p e else 0)
          + weigh (is_uncovered s) (find_unit p e.session e.work_unit)
        ≡ bit (is_uncovered s (record u { assurance = a }))
  unfolding newly is_uncovered
  assured_uncovered u a result h s = rw (h, result_not_admitted e.kind result) (ground arith)

  Kept-of_change : (m : Dict WorkUnit) → UnitChange p e m → Kept m
  Kept-of_change m (kept h quiet) = rw h (
    inv.keyed,
    inv.committed,
    λ s. omega (arith, inv.counted s, newly_none (unfold newly in newly_zero e.kind _ quiet) s),
  )
  Kept-of_change m (assured u a result h q) =
      let (same_s, same_w) = own_identity u h in
      rw q (
        Kept-by_insert (record u { assurance = a }) (sym same_s) (sym same_w) (own_committed u h)
          (assured_uncovered u a result h))
  Kept-of_change m (moved taken moving q) =
      let u = get_or no_unit (find_unit p e.session e.work_unit) in
      rw q (
        Kept-by_insert (next_unit u e) (unfold next_unit in (advance_identity e.kind _ e).0)
          (unfold next_unit in (advance_identity e.kind _ e).1)
          (unfold next_unit in advance-planned e.kind _ e)
          (moved_uncovered (find_unit p e.session e.work_unit) refl taken moving))

  -- One entry of a session with a plain name keeps the count exact.
  pub fold-IsCovered : IsCovered (fold p e)
  fold-IsCovered =
      let (keyed, committed, counted) = Kept-of_change (fold p e).units (fold_units p e) in
      record {
        keyed = keyed;
        committed = committed;
        counted = λ s. fold_unplanned e s p ∙ counted s;
      }

new-IsCovered : IsCovered new_projection
unfolding budgets_of lookup count_where
new-IsCovered = record { keyed = λ k u h. cc; committed = λ k u h. cc; counted = λ s. refl }

IsCovered-from :
    (p : Projection) (es : List Entry)
    → All (λ e. IsPlain e.session) es
    → IsCovered p
    → IsCovered (project_from p es)
unfolding project_from
IsCovered-from p [] h inv = inv
IsCovered-from p (e ∷ es) h inv = IsCovered-from (fold p e) es h.1 (fold-IsCovered p e h.0 inv)

-- Every replayed record whose sessions have plain names counts its uncovered units exactly, session
-- by session, under distinct keys.
pub project-IsCovered : (es : List Entry) → All (λ e. IsPlain e.session) es → IsCovered (project es)
unfolding project
project-IsCovered es h = IsCovered-from new_projection es h new-IsCovered
