-- ===== src/Dispatch/Plan/Linking.antt =====
-- What planGraph builds: the counts and the lists of the two maps are those of the plan's edges.
use takt_ai.Base.{
  ◌+◌, String, ◌≡◌, refl, sym, ap, ◌∙◌, Bool, true, false, ◌&&◌, ◌||◌, some, List, [], ◌∷◌, ◌++◌,
  arith, eq_iff, ◌==◌, if◌then◌else◌, All, contains,
}
use takt_ai.Base.Dict.{Dict, is_some, get_or, bit, lookup, insert, lookup-insert}
use takt_ai.Base.Text.{pos}
use takt_ai.Dispatch.Plan.Graph.{PlanUnit, increment, Links, add_link}
use takt_ai.Dispatch.Plan.Edges.{Edge, waiting, targets, has_edge, Distinct}

abbrev pub keys {ℓ} : {V : Type ℓ} → Dict V → List String
keys [] = []
keys (slot ∷ slots) = slot.0 ∷ keys slots

abbrev pub identities : List PlanUnit → List String
identities [] = []
identities (u ∷ us) = u.work_unit ∷ identities us

-- Some unit of this identity declares the prerequisite.
unfoldable pub requires : List PlanUnit → String → String → Bool
requires [] v w = false
requires (u ∷ us) v w = u.work_unit == v && contains u.prerequisites w || requires us v w

module _ {ℓ} {V : Type ℓ} where
  pub contains-keys : (k : String) (m : Dict V) → contains (keys m) k ≡ is_some (lookup k m)
  unfolding lookup
  contains-keys k [] = refl
  contains-keys k (slot ∷ m) = ground (arith, contains-keys k m)

  keys-insert_old :
      (k : String) (v : V) (m : Dict V) → is_some (lookup k m) ≡ true → keys (insert k v m) ≡ keys m
  unfolding lookup insert
  keys-insert_old k v [] h = cc
  keys-insert_old k v (slot ∷ m) h = ground (arith, keys-insert_old k v m, eq_iff slot.0 k)

  pub keys-insert_new :
      (k : String) (v : V) (m : Dict V)
      → is_some (lookup k m) ≡ false
      → keys (insert k v m) ≡ keys m ++ k ∷ []
  unfolding lookup insert
  keys-insert_new k v [] h = refl
  keys-insert_new k v (slot ∷ m) h = ground (arith, keys-insert_new k v m)

contains-append :
    (xs ys : List String) (v : String) → contains (xs ++ ys) v ≡ (contains xs v || contains ys v)
contains-append [] ys v = refl
contains-append (x ∷ xs) ys v = ground (arith, contains-append xs ys v)

pub Distinct-append :
    (xs : List String) (k : String) → Distinct xs → contains xs k ≡ false → Distinct (xs ++ k ∷ [])
Distinct-append [] k d h = (refl, tt)
Distinct-append (x ∷ xs) k d h = (
  ground (arith, contains-append xs (k ∷ []) x, eq_iff k x, eq_iff x k, d.0),
  Distinct-append xs k d.1 (ground arith),
)

waiting-append :
    (v w x : String) (es : List Edge)
    → waiting [] v (es ++ (w, x) ∷ []) ≡ waiting [] v es + bit (x == v)
unfolding waiting
waiting-append v w x [] = ground arith
waiting-append v w x (e ∷ es) = omega (arith, waiting-append v w x es)

targets-append :
    (u w x : String) (es : List Edge)
    → targets u (es ++ (w, x) ∷ []) ≡ (if w == u then targets u es ++ x ∷ [] else targets u es)
unfolding targets
targets-append u w x [] = ground arith
targets-append u w x (e ∷ es) = ground (arith, targets-append u w x es)

pub has_edge-append :
    (w v w' x : String) (es : List Edge)
    → has_edge w v (es ++ (w', x) ∷ []) ≡ (has_edge w v es || (w' == w && x == v))
unfolding has_edge
has_edge-append w v w' x [] = ground arith
has_edge-append w v w' x (e ∷ es) = ground (arith, has_edge-append w v w' x es)

All-append {ℓ κ} :
    {A : Type ℓ} (P : A → Type κ) (xs ys : List A) → All P xs → All P ys → All P (xs ++ ys)
All-append P [] ys h h' = h'
All-append P (x ∷ xs) ys h h' = (h.0, All-append P xs ys h.1 h')

module _ (nodes : List String) where
  -- The maps hold the edges found so far.
  pub record Linked (g : Links) (es : List Edge) : Type 0 where
    pub keyed : keys g.pending ≡ nodes
    pub counts :
        (v : String) → contains nodes v ≡ true → lookup v g.pending ≡ some (pos (waiting [] v es))
    pub waits : (u : String) → get_or [] (lookup u g.dependents) ≡ targets u es
    pub closed : All (λ e. (contains nodes e.0 ≡ true) × (contains nodes e.1 ≡ true)) es

  pub add_link-Linked :
      (unit need : String) (g : Links) (es : List Edge)
      → contains nodes unit ≡ true
      → contains nodes need ≡ true
      → Linked g es
      → Linked (add_link unit need g) (es ++ (need, unit) ∷ [])
  add_link-Linked unit need g es h h' inv = record {
    keyed =
        keys-insert_old unit _ g.pending
          (sym (contains-keys unit g.pending) ∙ ap (λ ks. contains ks unit) inv.keyed ∙ h)
        ∙ inv.keyed;
    counts = λ v k. ground (
      arith,
      inv.counts v k,
      inv.counts unit h,
      waiting-append v need unit es,
      eq_iff unit v,
      lookup-insert unit v (increment (get_or (pos 0) (lookup unit g.pending))) g.pending,
    );
    waits = λ u. ground (
      arith,
      inv.waits u,
      inv.waits need,
      targets-append u need unit es,
      eq_iff need u,
      lookup-insert need u (get_or [] (lookup need g.dependents) ++ unit ∷ []) g.dependents,
    );
    closed = All-append _ es ((need, unit) ∷ []) inv.closed ((h', h), tt);
  }
