-- ===== src/Base/Dict.antt =====
-- Go's maps with string keys as association lists: an assignment overwrites in place or adds at the
-- end, and the list's order stands for one order of iteration, which Go leaves open.
use mathlib.Core.Path.{◌∙◌, ◌≡◌, refl, subst₂}
use mathlib.Core.Bool.{Bool, true, false, not}
use mathlib.Core.Option.{Option, none, some}
use mathlib.Core.List.{List, [], ◌∷◌}
use Prim.Native.Nat.{ℕ, suc, ◌+◌}
use Prim.Native.String.{String}
use native.Mathlib.Omega.{arith}
use text.Mathlib.TextEquality.{eq_iff}
use text.Mathlib.TextPositions.{eq_refl}
use takt_ai.Base.Tests.{◌==◌, if◌then◌else◌}

abbrev pub Dict {ℓ} : Type ℓ → Type ℓ
Dict V = List (String × V)

abbrev pub is_some {ℓ} : {A : Type ℓ} → Option A → Bool
is_some none = false
is_some (some _) = true

-- The value of a missing key is the type's zero value.
abbrev pub get_or {ℓ} : {A : Type ℓ} → A → Option A → A
get_or d none = d
get_or d (some a) = a

abbrev pub bit : Bool → ℕ
bit true = 1
bit false = 0

abbrev pub weigh {ℓ} : {A : Type ℓ} → (A → Bool) → Option A → ℕ
weigh f none = 0
weigh f (some a) = bit (f a)

module _ {ℓ} {V : Type ℓ} where
  -- `m[key]`, and whether the key is there.
  unfoldable pub lookup : String → Dict V → Option V
  lookup key [] = none
  lookup key (slot ∷ slots) = if slot.0 == key then some slot.1 else lookup key slots

  -- `m[key] = value`
  unfoldable pub insert : String → V → Dict V → Dict V
  insert key value [] = (key, value) ∷ []
  insert key value (slot ∷ slots) =
      if slot.0 == key then (key, value) ∷ slots else slot ∷ insert key value slots

  -- `delete(m, k)`
  unfoldable pub remove : String → Dict V → Dict V
  remove k [] = []
  remove k ((j, v) ∷ m) = let rest = remove k m in if j == k then rest else (j, v) ∷ rest

  -- `len(m)`
  unfoldable pub size : Dict V → ℕ
  size [] = 0
  size (_ ∷ m) = suc (size m)

  -- How many values pass a test.
  unfoldable pub count_where : (V → Bool) → Dict V → ℕ
  count_where f [] = 0
  count_where f ((j, v) ∷ m) = bit (f v) + count_where f m

  -- The first pair that passes a test, in iteration order.
  unfoldable pub find : (String → V → Bool) → Dict V → Option (String × V)
  find f [] = none
  find f ((j, v) ∷ m) = if f j v then some (j, v) else find f m

  -- `for k, v := range m { m[k] = f(v) }`
  unfoldable pub map_values : (V → V) → Dict V → Dict V
  map_values f [] = []
  map_values f ((j, v) ∷ m) = (j, f v) ∷ map_values f m

  -- After an assignment its own key has the new value, and the others have what they had.
  pub lookup-insert :
      (key other : String) (value : V) (slots : Dict V)
      → lookup other (insert key value slots)
        ≡ (if key == other then some value else lookup other slots)
  unfolding insert lookup
  lookup-insert key other value [] = refl
  lookup-insert key other value (slot ∷ slots) =
      let later = lookup-insert key other value slots in
      ground (arith, later, eq_iff slot.0 other, eq_iff slot.0 key, eq_iff key other)

  pub lookup-insert_self :
      (key : String) (value : V) (slots : Dict V) → lookup key (insert key value slots) ≡ some value
  lookup-insert_self key value slots =
      lookup-insert key key value slots ∙ ground (arith, eq_refl key)

  pub lookup-remove :
      (k j : String) (m : Dict V) → lookup j (remove k m) ≡ (if k == j then none else lookup j m)
  unfolding lookup remove
  lookup-remove k j [] = ground arith
  lookup-remove k j (slot ∷ m) =
      ground (arith, lookup-remove k j m, eq_iff slot.0 j, eq_iff slot.0 k, eq_iff k j)

  pub size-insert :
      (k : String) (v : V) (m : Dict V)
      → size (insert k v m) ≡ size m + bit (not (is_some (lookup k m)))
  unfolding lookup insert size
  size-insert k v [] = omega arith
  size-insert k v ((i, w) ∷ m) = ground (arith, size-insert k v m)

  -- An assignment exchanges the old value's share of a count for the new one's.
  pub count_where-insert :
      (f : V → Bool) (k : String) (v : V) (m : Dict V)
      → count_where f (insert k v m) + weigh f (lookup k m) ≡ count_where f m + bit (f v)
  unfolding lookup insert count_where
  count_where-insert f k v [] = omega arith
  count_where-insert f k v ((i, w) ∷ m) = ground (arith, count_where-insert f k v m)

  pub lookup-map_values :
      (f : V → V) (k : String) (v : V) (m : Dict V)
      → lookup k m ≡ some v
      → lookup k (map_values f m) ≡ some (f v)
  unfolding lookup map_values
  lookup-map_values f k v [] h = ground arith
  lookup-map_values f k v ((i, w) ∷ m) h = ground (arith, lookup-map_values f k v m)

  -- What holds of every pair, and of a new one, holds after the assignment.
  pub insert-All {κ} :
      (P : String → V → Type κ) (k : String) (v : V) (m : Dict V)
      → ((j : String) (w : V) → lookup j m ≡ some w → P j w)
      → P k v
      → (j : String) (w : V) → lookup j (insert k v m) ≡ some w
      → P j w
  insert-All P k v m h new j w e = at_key (k == j) refl
    where
      at_key : (b : Bool) → (k == j) ≡ b → P j w
      at_key true same = subst₂ P ((eq_iff k j).0 same) (ground (arith, lookup-insert k j v m)) new
      at_key false other = h j w (ground (arith, lookup-insert k j v m))
