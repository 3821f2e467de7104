-- ===== src/Gc/Plan/Closure.antt =====
-- The closure that Declare of takt/gc/plan.go plans.
use mathlib.Core.Path.{subst}
use takt_ai.Base.{
  String, ◌≡◌, refl, ap, ◌∙◌, ◌⊎◌, inl, inr, Bool, true, false, ◌&&◌, ◌||◌, Option, none, some,
  List, [], ◌∷◌, ◌++◌, map, arith, ◌==◌, Bool-cases, any, all, contains,
}
use takt_ai.Base.Dict.{Dict, is_some, lookup, insert, lookup-insert}
use takt_ai.Base.Sorted.{sorted_keys, contains-sorted_keys}
use takt_ai.Gc.Plan.{
  found, unreachable, DeltaEntry, Change, session_delta, is_known_mandate, CycleRequest, Reached,
  Reachability, CyclePlan, PlanRefusal, gathered, dependents, reach_all, paths_of, label_of,
  add_paths, declare_cycle,
}

-- Tests on a delta and the code graph: a changed path, a path that some changed path reaches, and a graph
-- that answers for every changed path.
abbrev pub changes_path : List Change → String → Bool
changes_path cs path = any (λ (c : Change). c.path == path) cs

abbrev pub names_path : String → Reached → Bool
names_path path (found ps) = contains ps path
names_path path (unreachable e) = false

abbrev pub answers : Reached → Bool
answers (found ps) = true
answers (unreachable e) = false

abbrev pub reaches_path : Option (String → Reached) → List Change → String → Bool
reaches_path none cs path = false
reaches_path (some reach) cs path = any (λ (c : Change). names_path path (reach c.path)) cs

abbrev pub is_complete : Option (String → Reached) → List Change → Bool
is_complete none cs = false
is_complete (some reach) cs = all (λ (c : Change). answers (reach c.path)) cs

abbrev pub is_codegraph : Reachability → Bool
is_codegraph Reachability.codegraph = true
is_codegraph Reachability.journal_only = false

contains-append :
    (xs ys : List String) (p : String) → contains (xs ++ ys) p ≡ (contains xs p || contains ys p)
contains-append [] ys p = refl
contains-append (x ∷ xs) ys p = ground (arith, contains-append xs ys p)

answers-dependents :
    (reach : String → Reached) (cs : List Change)
    → answers (dependents reach cs) ≡ all (λ (c : Change). answers (reach c.path)) cs
unfolding dependents
answers-dependents reach [] = refl
answers-dependents reach (c ∷ cs) =
    joint (reach c.path) (dependents reach cs) _ (answers-dependents reach cs)
  where
    joint : (a b : Reached) (t : Bool) → answers b ≡ t → answers (gathered a b) ≡ (answers a && t)
    joint (unreachable e) b t h = refl
    joint (found ps) (unreachable e) t h = h
    joint (found ps) (found qs) t h = h

names-dependents :
    (reach : String → Reached) (cs : List Change) (path : String)
    → contains (paths_of (dependents reach cs)) path ≡ (
        all (λ (c : Change). answers (reach c.path)) cs
        && any (λ (c : Change). names_path path (reach c.path)) cs)
unfolding dependents
names-dependents reach [] path = refl
names-dependents reach (c ∷ cs) path =
    joint (reach c.path) (dependents reach cs) _ _ (answers-dependents reach cs)
      (names-dependents reach cs path)
  where
    joint :
        (a b : Reached) (t n : Bool)
        → answers b ≡ t
        → contains (paths_of b) path ≡ (t && n)
        → contains (paths_of (gathered a b)) path ≡ ((answers a && t) && (names_path path a || n))
    joint (unreachable e) b t n h g = refl
    joint (found ps) (unreachable e) t n h g = rw (← h) refl
    joint (found ps) (found qs) t n h g =
        contains-append ps qs path ∙ rw (← h) (ap (λ x. contains ps path || x) (g ∙ rw (← h) refl))

lookup-add_paths :
    (ps : List String) (set : Dict Bool) (path : String)
    → is_some (lookup path (add_paths ps set)) ≡ (contains ps path || is_some (lookup path set))
unfolding add_paths
lookup-add_paths [] set path = refl
lookup-add_paths (p ∷ ps) set path =
    lookup-add_paths ps (insert p true set) path ∙ ground (arith, lookup-insert p path true set)

contains-paths :
    (cs : List Change) (path : String)
    → contains (map (λ (c : Change). c.path) cs) path ≡ changes_path cs path
contains-paths [] path = refl
contains-paths (c ∷ cs) path = ap (λ b. c.path == path || b) (contains-paths cs path)

reached_paths :
    (reach : Option (String → Reached)) (cs : List Change) (path : String)
    → contains (paths_of (reach_all reach cs)) path
      ≡ (is_complete reach cs && reaches_path reach cs path)
reached_paths none cs path = refl
reached_paths (some reach) cs path = names-dependents reach cs path

labelled : (r : Reached) → is_codegraph (label_of r).0 ≡ answers r
labelled (found ps) = refl
labelled (unreachable e) = refl

complete_label :
    (reach : Option (String → Reached)) (cs : List Change)
    → is_codegraph (label_of (reach_all reach cs)).0 ≡ is_complete reach cs
complete_label none cs = refl
complete_label (some reach) cs = labelled (dependents reach cs) ∙ answers-dependents reach cs

the_plan : {p q : CyclePlan} → ◌≡◌ {A = PlanRefusal ⊎ CyclePlan} (inr p) (inr q) → p ≡ q
the_plan h = cc

abbrev PlansClosure :
    List DeltaEntry → CycleRequest → Option (String → Reached) → CyclePlan → Type 0
PlansClosure es req reach p =
    (p.request ≡ req)
    × ((p.request.session == "" || p.request.cycle == "") ≡ false)
    × (is_known_mandate p.request.mandate ≡ true)
    × (p.delta ≡ session_delta es p.request.session)
    × (is_codegraph p.reachability ≡ is_complete reach p.delta)
    × ((path : String)
        → contains p.closure path ≡ (
            changes_path p.delta path
            || (is_complete reach p.delta && reaches_path reach p.delta path)))

or_swap : (a b c d e : Bool) → a ≡ d → b ≡ (c || false) → c ≡ e → (a || b) ≡ (e || d)
or_swap a b c d e f g h = ground (arith, f, g, h)

closes :
    (reach : Option (String → Reached)) (delta : List Change) (path : String)
    → contains
        (sorted_keys (
          add_paths
            (paths_of (reach_all reach delta))
            (add_paths (map (λ (c : Change). c.path) delta) [])))
        path
      ≡ (changes_path delta path || (is_complete reach delta && reaches_path reach delta path))
unfolding lookup
closes reach delta path =
    let changed = map (λ (c : Change). c.path) delta in
    let reached = paths_of (reach_all reach delta) in
    contains-sorted_keys (add_paths reached (add_paths changed [])) path
    ∙ lookup-add_paths reached (add_paths changed []) path
    ∙ or_swap _ _ _ _ _ (reached_paths reach delta path) (lookup-add_paths changed [] path)
        (contains-paths delta path)

-- A declared cycle is the one requested: it names a session, a cycle and a known mandate. Its delta is
-- that session's, and its closure holds exactly the changed paths and, only where the code graph answers
-- for every one of them, the paths that they reach: a partial closure is never taken for a complete one.
-- Its label says which.
pub declare_closure :
    (es : List DeltaEntry) (req : CycleRequest) (reach : Option (String → Reached)) (p : CyclePlan)
    → declare_cycle es req reach ≡ inr p
    → (p.request ≡ req)
      × ((p.request.session == "" || p.request.cycle == "") ≡ false)
      × (is_known_mandate p.request.mandate ≡ true)
      × (p.delta ≡ session_delta es p.request.session)
      × (is_codegraph p.reachability ≡ is_complete reach p.delta)
      × ((path : String)
          → contains p.closure path ≡ (
              changes_path p.delta path
              || (is_complete reach p.delta && reaches_path reach p.delta path)))
unfolding declare_cycle
declare_closure es req reach p made = elim (Bool-cases (req.session == "" || req.cycle == "")) [
  | inl unnamed ↦ absurd (cc (rw unnamed at made))
  | inr named ↦ elim (Bool-cases (is_known_mandate req.mandate)) [
    | inr unknown ↦ absurd (cc (rw (named, unknown) at made))
    | inl known ↦
        let delta = session_delta es req.session in
        subst (PlansClosure es req reach) (the_plan (rw (named, known) at made))
          (refl, named, known, refl, complete_label reach delta, closes reach delta)
  ]
]
