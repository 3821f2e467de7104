-- ===== src/Base/Sorted.antt =====
-- `slices.Sorted(maps.Keys(m))`, in the order of `strings.Compare`.
use takt_ai.Base.{String, ◌≡◌, refl, ◌∙◌, ◌||◌, List, [], ◌∷◌, arith, ◌==◌, if◌then◌else◌, contains}
use takt_ai.Base.Dict.{Dict, is_some, lookup}
use takt_ai.Base.Text.{leq_codes, codes}

unfoldable pub put_sorted : String → List String → List String
unfolding leq_codes
put_sorted k [] = k ∷ []
put_sorted k (j ∷ js) =
    let rest = put_sorted k js in if leq_codes (codes k) (codes j) then k ∷ j ∷ js else j ∷ rest

unfoldable pub sorted_keys {ℓ} : {V : Type ℓ} → Dict V → List String
unfolding put_sorted
sorted_keys [] = []
sorted_keys ((k, v) ∷ m) = put_sorted k (sorted_keys m)

contains-put_sorted :
    (k : String) (js : List String) (x : String)
    → contains (put_sorted k js) x ≡ (k == x || contains js x)
unfolding put_sorted
contains-put_sorted k [] x = refl
contains-put_sorted k (j ∷ js) x = ground (arith, contains-put_sorted k js x)

pub contains-sorted_keys {ℓ} :
    {V : Type ℓ} (m : Dict V) (x : String) → contains (sorted_keys m) x ≡ is_some (lookup x m)
unfolding sorted_keys lookup
contains-sorted_keys [] x = refl
contains-sorted_keys ((k, v) ∷ m) x =
    contains-put_sorted k (sorted_keys m) x ∙ ground (arith, contains-sorted_keys m x)
