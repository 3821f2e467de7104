-- ===== src/Dispatch/Plan/Graphs.antt =====
-- The loops of planGraph end with the maps of the plan's edges.
use mathlib.Core.Path.{subst}
use mathlib.Core.List.{append-nil, append_assoc}
use takt_ai.Base.{
  String, ◌≡◌, refl, sym, ap, ◌∙◌, inl, inr, Bool, true, ◌&&◌, ◌||◌, some, List, [], ◌∷◌, ◌++◌,
  arith, eq_iff, eq_refl, ◌==◌, Bool-cases, All, contains,
}
use takt_ai.Base.Dict.{Dict, is_some, lookup, insert, lookup-insert}
use takt_ai.Base.Text.{pos, ℤ}
use takt_ai.History.Projection.{Projection, find_unit}
use takt_ai.Dispatch.Plan.Graph.{
  ok, fault, PlanUnit, Checked, ◌>>=◌, index_units, Links, add_link, link_needs, link_units,
  plan_graph,
}
use takt_ai.Dispatch.Plan.Edges.{Edge, waiting, targets, has_edge, Distinct}
use takt_ai.Dispatch.Plan.Linking.{
  keys-insert_new, Distinct-append, has_edge-append, add_link-Linked, keys, identities, requires,
  contains-keys, Linked,
}

pub >>=-ok {ℓ κ} :
    {A : Type ℓ} {B : Type κ} (m : Checked A) (f : A → Checked B) {b : B}
    → (m >>= f) ≡ ok b
    → (a : A) × (m ≡ ok a) × (f a ≡ ok b)
>>=-ok (ok a) f h = (a, refl, h)
>>=-ok (fault x) f h = cc

module _ (nodes : List String) (p : Projection) (s : String) where
  -- The maps with their edges, whose new ones are those that `new` tells.
  abbrev LinkedWith : Links → List Edge → (String → String → Bool) → Type 0
  LinkedWith g es new =
      (es' : List Edge) × Linked nodes g es'
      × ((w v : String) → has_edge w v es' ≡ (has_edge w v es || (new v w && contains nodes w)))

  known_key :
      (k : String) (g : Links) (es : List Edge)
      → Linked nodes g es
      → is_some (lookup k g.pending) ≡ contains nodes k
  known_key k g es inv = sym (contains-keys k g.pending) ∙ ap (λ ks. contains ks k) inv.keyed

  link_needs-Linked :
      (unit : String) (needs : List String) (g g' : Links) (es : List Edge)
      → contains nodes unit ≡ true
      → Linked nodes g es
      → link_needs p s unit needs g ≡ ok g'
      → LinkedWith g' es (λ v w. unit == v && contains needs w)
  unfolding link_needs
  link_needs-Linked unit [] g g' es h inv e =
      (es, subst (λ x. Linked nodes x es) (cc e) inv, λ w v. ground arith)
  link_needs-Linked unit (need ∷ needs) g g' es h inv e =
      elim (Bool-cases (is_some (lookup need g.pending))) [
        | inl inside ↦
            let (es', inv', new) =
              link_needs-Linked unit needs (add_link unit need g) g' (es ++ (need, unit) ∷ []) h
                (add_link-Linked nodes unit need g es h (sym (known_key need g es inv) ∙ inside)
                  inv)
                (rw inside at e) in
            (
              es',
              inv',
              λ w v. ground (
                arith,
                new w v,
                has_edge-append w v need unit es,
                eq_iff need w,
                sym (known_key need g es inv) ∙ inside,
              ),
            )
        | inr outside ↦ elim (Bool-cases (is_some (find_unit p s need))) [
          | inl executed ↦
              let (es', inv', new) =
                link_needs-Linked unit needs g g' es h inv (rw (outside, executed) at e) in
              (
                es',
                inv',
                λ w v.
                    ground (arith, new w v, eq_iff need w, sym (known_key need g es inv) ∙ outside),
              )
          | inr unknown ↦ absurd (cc (rw (outside, unknown) at e))
        ]
      ]

  link_units-Linked :
      (us : List PlanUnit) (g g' : Links) (es : List Edge)
      → All (λ u. contains nodes u.work_unit ≡ true) us
      → Linked nodes g es
      → link_units p s us g ≡ ok g'
      → LinkedWith g' es (λ v w. requires us v w)
  unfolding link_units requires
  link_units-Linked [] g g' es h inv e =
      (es, subst (λ x. Linked nodes x es) (cc e) inv, λ w v. ground arith)
  link_units-Linked (u ∷ us) g g' es h inv e =
      let (mid, made, rest) =
        >>=-ok (link_needs p s u.work_unit u.prerequisites g) (link_units p s us) e in
      let (es1, inv1, new1) = link_needs-Linked u.work_unit u.prerequisites g mid es h.0 inv made in
      let (es2, inv2, new2) = link_units-Linked us mid g' es1 h.1 inv1 rest in
      (es2, inv2, λ w v. ground (arith, new1 w v, new2 w v))

-- Every counter of the index is 0.
abbrev pub IsFresh : Dict ℤ → Type 0
IsFresh m = (v : String) → is_some (lookup v m) ≡ true → lookup v m ≡ some (pos 0)

index_units_lem :
    (us : List PlanUnit) (m m' : Dict ℤ)
    → Distinct (keys m)
    → IsFresh m
    → index_units m us ≡ ok m'
    → (keys m' ≡ keys m ++ identities us) × Distinct (keys m') × IsFresh m'
unfolding index_units
index_units_lem [] m m' d f e =
    subst (λ x. (keys x ≡ keys m ++ []) × Distinct (keys x) × IsFresh x) (cc e)
      (sym (append-nil (keys m)), d, f)
index_units_lem (u ∷ us) m m' d f e = elim (Bool-cases (u.work_unit == "" || u.contract == "")) [
  | inl unnamed ↦ absurd (cc (rw unnamed at e))
  | inr named ↦ elim (Bool-cases (is_some (lookup u.work_unit m))) [
    | inl twice ↦ absurd (cc (rw (named, twice) at e))
    | inr new ↦
        let grown = keys-insert_new u.work_unit (pos 0) m new in
        let (ks, d', f') =
          index_units_lem us (insert u.work_unit (pos 0) m) m'
            (subst Distinct (sym grown)
              (Distinct-append (keys m) u.work_unit d (contains-keys u.work_unit m ∙ new)))
            (λ v h. ground (arith, f v, lookup-insert u.work_unit v (pos 0) m))
            (rw (named, new) at e) in
        (
          ks
              ∙ ap (λ k. k ++ identities us) grown
              ∙ append_assoc (keys m) (u.work_unit ∷ []) (identities us),
          d',
          f',
        )
  ]
]

All-map {ℓ κ κ'} :
    {A : Type ℓ} {P : A → Type κ} {Q : A → Type κ'} (xs : List A)
    → ((x : A) → P x → Q x)
    → All P xs
    → All Q xs
All-map [] f h = tt
All-map (x ∷ xs) f h = (f x h.0, All-map xs f h.1)

own_identities : (us : List PlanUnit) → All (λ u. contains (identities us) u.work_unit ≡ true) us
own_identities [] = tt
own_identities (u ∷ us) =
    (ground (arith, eq_refl u.work_unit), All-map us (λ x h. ground arith) (own_identities us))

-- planGraph: the counters are those of the plan's edges, which are its requirements inside the plan.
pub plan_graph-Linked :
    (p : Projection) (s : String) (us : List PlanUnit) (g : Links)
    → plan_graph p s us ≡ ok g
    → Distinct (identities us)
      × ((es : List Edge) × Linked (identities us) g es
          × ((w v : String) → has_edge w v es ≡ (requires us v w && contains (identities us) w)))
unfolding plan_graph waiting targets lookup has_edge
plan_graph-Linked p s us g e =
    let (m, indexed, linked) =
      >>=-ok (index_units [] us)
        (λ pending. link_units p s us (record { pending = pending; dependents = [] })) e in
    let (ks, d, f) = index_units_lem us [] m tt (λ v h. cc) indexed in
    let start : Linked (identities us) (record { pending = m; dependents = [] }) [] = record {
      keyed = ks;
      counts = λ v h. f v (sym (contains-keys v m) ∙ ap (λ k. contains k v) ks ∙ h);
      waits = λ u. refl;
      closed = tt;
    } in
    let (es, inv, new) =
      link_units-Linked (identities us) p s us (record { pending = m; dependents = [] }) g []
        (own_identities us) start linked in
    (subst Distinct ks d, (es, inv, λ w v. new w v))
