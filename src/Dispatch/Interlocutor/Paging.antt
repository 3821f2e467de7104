-- ===== src/Dispatch/Interlocutor/Paging.antt =====
-- The pages of a lent session's memory index, in takt/dispatch/interlocutor.go.
use takt_ai.Dispatch.Interlocutor.Index.{
  SessionEntry, entry_ids_by_caller, MemoryIndex, drop_through, take, last, page_of, lent_index,
}
use mathlib.Core.Path.{subst}
use mathlib.Core.List.{append_assoc}
use takt_ai.Base.{
  ℕ, zero, suc, ◌<◌, String, ◌≡◌, refl, sym, ap, ◌∙◌, inl, inr, true, false, Option, none, some,
  List, [], ◌∷◌, ◌++◌, arith, ltb, eqb, if◌then◌else◌, ltb→lt, Bool-cases, length, length-append,
  contains_id,
}
use takt_ai.Dispatch.Policy.{AdmissionPolicy}
use takt_ai.Dispatch.Interlocutor.{TurnFault}

abbrev joined : List ℕ → Option (List ℕ) → Option (List ℕ)
joined ids none = none
joined ids (some rest) = some (ids ++ rest)

abbrev then_pages : MemoryIndex × Option TurnFault → Option (List ℕ) → Option (List ℕ)
then_pages (i, some e) rest = none
then_pages (i, none) rest = if eqb i.next_after 0 then some i.listed else joined i.listed rest

-- What a reader lists who calls lentIndex again from each next_after until it is 0, in at most `fuel`
-- calls; `none` where a call fails or the calls run out.
unfoldable pub follow : ℕ → AdmissionPolicy → List SessionEntry → String → ℕ → Option (List ℕ)
unfolding lent_index
follow zero p es child after = none
follow (suc fuel) p es child after =
    let read = lent_index (some p) (some es) child after in
    then_pages read (follow fuel p es child read.0.next_after)

abbrev pub AllDistinct : List ℕ → Type 0
AllDistinct [] = Unit
AllDistinct (id ∷ ids) = (contains_id ids id ≡ false) × AllDistinct ids

middle_differs : (ys d : List ℕ) (x y : ℕ) → contains_id (ys ++ x ∷ d) y ≡ false → eqb x y ≡ false
middle_differs [] d x y h = ground arith
middle_differs (z ∷ ys) d x y h = middle_differs ys d x y (ground arith)

absent_before : (pre d : List ℕ) (x : ℕ) → AllDistinct (pre ++ x ∷ d) → contains_id pre x ≡ false
absent_before [] d x h = refl
absent_before (y ∷ ys) d x h = ground (arith, middle_differs ys d x y h.0, absent_before ys d x h.1)

drop_through-middle :
    (pre d : List ℕ) (x : ℕ) → contains_id pre x ≡ false → drop_through x (pre ++ x ∷ d) ≡ some d
unfolding drop_through
drop_through-middle [] d x h = ground arith
drop_through-middle (y ∷ ys) d x h = ground (arith, drop_through-middle ys d x (ground arith))

-- A list that is longer than a page splits at the page's last entry.
abbrev Split : ℕ → List ℕ → ℕ → Type 0
Split n rest before =
    (t : List ℕ) × (x : ℕ) × (d : List ℕ) × (take (suc n) rest ≡ t ++ x ∷ [])
    × (rest ≡ t ++ x ∷ d)
    × (last before (take (suc n) rest) ≡ x)

take_splits : (n before : ℕ) (rest : List ℕ) → suc n < length rest → Split n rest before
take_splits n before [] h = absurd (omega (arith, h))
take_splits zero before (x ∷ rest) h = ([], x, rest, refl, refl, refl)
take_splits (suc n) before (y ∷ rest) h =
    let (t, x, d, taken, whole, ends) = take_splits n y rest (omega (arith, h)) in
    (y ∷ t, x, d, ap (λ ids. y ∷ ids) taken, ap (λ ids. y ∷ ids) whole, ends)

abbrev PageSplit : ℕ → List ℕ → Type 0
PageSplit page rest =
    (t : List ℕ) × (x : ℕ) × (d : List ℕ) × (page_of page rest
      ≡ record { listed = t ++ x ∷ []; next_after = x })
    × (rest ≡ t ++ x ∷ d)

page_split :
    (k page : ℕ) (rest : List ℕ)
    → page ≡ suc k
    → ltb page (length rest) ≡ true
    → PageSplit page rest
page_split k page rest same long =
    subst (λ m. ltb m (length rest) ≡ true → PageSplit m rest) (sym same) of_suc long
  where
    of_suc : ltb (suc k) (length rest) ≡ true → PageSplit (suc k) rest
    of_suc more =
        let (t, x, d, taken, whole, ends) = take_splits k 0 rest (ltb→lt _ _ more) in
        (t, x, d, rw more (cc (taken, ends)), whole)

module _ (p : AdmissionPolicy) (es : List SessionEntry) (child : String) where
  rest_at : ℕ → Option (List ℕ)
  rest_at after =
      if eqb after 0
      then some (entry_ids_by_caller es child)
      else drop_through after (entry_ids_by_caller es child)

  read_at :
      (after : ℕ) (rest : List ℕ)
      → rest_at after ≡ some rest
      → lent_index (some p) (some es) child after ≡ (page_of p.memory_page rest, none)
  unfolding lent_index rest_at
  read_at after rest h = elim (Bool-cases (eqb after 0)) [
    | inl first ↦
        rw first (ap (λ ids. (page_of p.memory_page ids, none)) (the_some (rw first at h)))
    | inr later ↦ rw (later, rw later at h) refl
  ]
    where
      the_some : {a b : List ℕ} → some a ≡ some b → a ≡ b
      the_some e = cc

  -- One call from a position whose rest is known.
  follow_step :
      (fuel after : ℕ) (rest : List ℕ)
      → rest_at after ≡ some rest
      → follow (suc fuel) p es child after
        ≡ then_pages
            (page_of p.memory_page rest, none)
            (follow fuel p es child (page_of p.memory_page rest).next_after)
  unfolding follow
  follow_step fuel after rest h =
      ap (λ r. then_pages r (follow fuel p es child r.0.next_after)) (read_at after rest h)

  follow_all :
      (k fuel after : ℕ) (pre rest : List ℕ)
      → p.memory_page ≡ suc k
      → entry_ids_by_caller es child ≡ pre ++ rest
      → AllDistinct (entry_ids_by_caller es child)
      → contains_id (entry_ids_by_caller es child) 0 ≡ false
      → rest_at after ≡ some rest
      → length rest < fuel
      → follow fuel p es child after ≡ some rest
  unfolding rest_at
  follow_all k zero after pre rest page whole distinct nonzero at enough =
      absurd (omega (arith, enough))
  follow_all k (suc fuel) after pre rest page whole distinct nonzero at enough =
      elim (Bool-cases (ltb p.memory_page (length rest))) [
        | inr short ↦ follow_step fuel after rest at ∙ rw short refl
        | inl long ↦
            let (t, x, d, paged, ids) = page_split k p.memory_page rest page long in
            let cut = whole ∙ ap (λ r. pre ++ r) ids ∙ sym (append_assoc pre t (x ∷ d)) in
            let positive =
              middle_differs (pre ++ t) d x 0 (sym (ap (λ r. contains_id r 0) cut) ∙ nonzero) in
            let fresh = absent_before (pre ++ t) d x (subst AllDistinct cut distinct) in
            let next =
              follow_all k fuel x ((pre ++ t) ++ x ∷ []) d page
                (cut ∙ sym (append_assoc (pre ++ t) (x ∷ []) d)) distinct nonzero
                (later x d positive
                  (ap (drop_through x) cut ∙ drop_through-middle (pre ++ t) d x fresh))
                (omega (arith, enough, ap length ids, length-append t (x ∷ d))) in
            follow_step fuel after rest at
            ∙ ap (λ i. then_pages (i, none) (follow fuel p es child i.next_after)) paged
            ∙ ap
                (λ b.
                  if b then some (t ++ x ∷ []) else joined (t ++ x ∷ []) (follow fuel p es child x))
                positive
            ∙ ap (joined (t ++ x ∷ [])) next
            ∙ ap (λ r. some r) (append_assoc t (x ∷ []) d ∙ sym ids)
      ]
    where
      later :
          (x : ℕ) (d : List ℕ)
          → eqb x 0 ≡ false
          → drop_through x (entry_ids_by_caller es child) ≡ some d
          → rest_at x ≡ some d
      later x d positive h = rw positive h

  -- Following next_after lists every entry that the session recorded, once and in its order: pages of a
  -- positive size over distinct, positive entry identities leave nothing out, and one call more than
  -- there are entries is enough.
  pub follow_complete :
      (k : ℕ)
      → p.memory_page ≡ suc k
      → AllDistinct (entry_ids_by_caller es child)
      → contains_id (entry_ids_by_caller es child) 0 ≡ false
      → follow (suc (length (entry_ids_by_caller es child))) p es child 0
        ≡ some (entry_ids_by_caller es child)
  unfolding rest_at
  follow_complete k page distinct nonzero =
      follow_all k _ 0 [] (entry_ids_by_caller es child) page refl distinct nonzero refl
        (omega arith)
