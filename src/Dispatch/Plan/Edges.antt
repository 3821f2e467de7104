-- ===== src/Dispatch/Plan/Edges.antt =====
-- The edges of a plan's graph, counted, and what it is for a unit to rest on finished work.
use takt_ai.Base.{
  ℕ, suc, ◌+◌, String, ◌≡◌, refl, Bool, true, false, not, ◌&&◌, List, [], ◌∷◌, arith, eq_iff,
  eq_refl, ◌==◌, if◌then◌else◌, length, any, contains,
}
use takt_ai.Base.Dict.{bit}

-- An edge leads from a prerequisite to the unit that needs it.
abbrev pub Edge : Type 0
Edge = String × String

-- How often a unit stands in a list.
unfoldable pub occurs : String → List String → ℕ
occurs v [] = 0
occurs v (x ∷ xs) = bit (x == v) + occurs v xs

-- The edges into a unit from units that are not done.
unfoldable pub waiting : List String → String → List Edge → ℕ
waiting done v [] = 0
waiting done v ((w, x) ∷ es) = bit (x == v && not (contains done w)) + waiting done v es

-- The units at the ends of a unit's edges.
unfoldable pub targets : String → List Edge → List String
targets u [] = []
targets u ((w, x) ∷ es) = if w == u then x ∷ targets u es else targets u es

-- The units of a list that are not done.
unfoldable pub missing : List String → List String → ℕ
missing done [] = 0
missing done (v ∷ vs) = bit (not (contains done v)) + missing done vs

unfoldable pub has_edge : String → String → List Edge → Bool
has_edge w v es = any (λ e. e.0 == w && e.1 == v) es

abbrev pub Distinct : List String → Type 0
Distinct [] = Unit
Distinct (x ∷ xs) = (contains xs x ≡ false) × Distinct xs

-- A unit settles when everything that it needs settles before it.
pub data Grounded (es : List Edge) : String → Type 0 where
  grounded : (v : String) → ((w : String) → has_edge w v es ≡ true → Grounded es w) → Grounded es v

-- To settle a unit makes each of its edges one less to wait for.
pub waiting-cons :
    (u v : String) (done : List String) (es : List Edge)
    → contains done u ≡ false
    → waiting done v es ≡ waiting (u ∷ done) v es + occurs v (targets u es)
unfolding waiting targets occurs
waiting-cons u v done [] h = omega arith
waiting-cons u v done ((w, x) ∷ es) h =
    ground (arith, waiting-cons u v done es h, eq_iff w u, eq_iff u w)

-- What waits for nothing has only finished prerequisites.
pub waiting_none :
    (done : List String) (w v : String) (es : List Edge)
    → waiting done v es ≡ 0
    → has_edge w v es ≡ true
    → contains done w ≡ true
unfolding waiting has_edge
waiting_none done w v [] z h = cc
waiting_none done w v ((w', x) ∷ es) z h =
    ground (arith, waiting_none done w v es, eq_iff w' w, eq_iff x v)

pub none_waiting :
    (done : List String) (v : String) (es : List Edge)
    → ((w : String) → has_edge w v es ≡ true → contains done w ≡ true)
    → waiting done v es ≡ 0
unfolding waiting has_edge
none_waiting done v [] h = refl
none_waiting done v ((w, x) ∷ es) h =
    ground (arith, none_waiting done v es (λ w' e. h w' (ground arith)), h w, eq_refl w)

missing-cons_other :
    (u : String) (done vs : List String)
    → contains vs u ≡ false
    → missing (u ∷ done) vs ≡ missing done vs
unfolding missing
missing-cons_other u done [] h = refl
missing-cons_other u done (v ∷ vs) h =
    ground (arith, missing-cons_other u done vs, eq_iff u v, eq_iff v u)

pub missing-cons :
    (u : String) (done vs : List String)
    → Distinct vs
    → contains vs u ≡ true
    → contains done u ≡ false
    → suc (missing (u ∷ done) vs) ≡ missing done vs
unfolding missing
missing-cons u done [] d h f = cc
missing-cons u done (v ∷ vs) d h f =
    ground (arith, missing-cons u done vs d.1, missing-cons_other u done vs, eq_iff u v, eq_iff v u)

pub missing_none :
    (done vs : List String) (v : String)
    → missing done vs ≡ 0
    → contains vs v ≡ true
    → contains done v ≡ true
unfolding missing
missing_none done [] v z h = cc
missing_none done (x ∷ xs) v z h = ground (arith, missing_none done xs v, eq_iff x v)

pub none_missing :
    (done vs : List String)
    → ((v : String) → contains vs v ≡ true → contains done v ≡ true)
    → missing done vs ≡ 0
unfolding missing
none_missing done [] h = refl
none_missing done (x ∷ xs) h =
    ground (arith, none_missing done xs (λ v e. h v (ground arith)), h x, eq_refl x)

pub missing-nil : (vs : List String) → missing [] vs ≡ length vs
unfolding missing
missing-nil [] = refl
missing-nil (v ∷ vs) = omega (arith, missing-nil vs)
