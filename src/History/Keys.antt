-- ===== src/History/Keys.antt =====
-- `UnitKey` of takt/history/projection.go: when two keys are one.
use takt_ai.Base.{String, ◌≡◌, refl, sym, ap, ◌∙◌, ◌≢◌}
use takt_ai.History.Projection.{nul, unit_key}
use takt_ai.Base.Text.{◌<>◌}
use Prim.Native.Char.{Char, code}
use Prim.Native.String.append as str_append

-- No NUL character in an identity.
abbrev pub IsPlain : String → Type 0
IsPlain String.[] = Unit
IsPlain (String.◌∷◌ c s) = (code c ≢ 0) × IsPlain s

cons_append : (c : Char) (s t : String) → (String.◌∷◌ c s) <> t ≡ String.◌∷◌ c (s <> t)
cons_append c s t = str_append.cons c s t

nil_append : (t : String) → String.[] <> t ≡ t
nil_append t = str_append.nil t

nul_append : (t : String) → nul <> t ≡ String.◌∷◌ Prim.Native.Char.nul t
nul_append t = cons_append _ String.[] t ∙ ap (String.◌∷◌ Prim.Native.Char.nul) (nil_append t)

uncons :
    (c d : Char) (s t : String)
    → ◌≡◌ {A = String} (String.◌∷◌ c s) (String.◌∷◌ d t)
    → (c ≡ d) × (s ≡ t)
uncons c d s t e = (cc, cc)

head_zero : (c : Char) (t s : String) → nul <> t ≡ String.◌∷◌ c s → code c ≡ 0
head_zero c t s e = ap code (sym (uncons Prim.Native.Char.nul c t s (sym (nul_append t) ∙ e)).0)

split_at_nul :
    (s s' t t' : String)
    → IsPlain s
    → IsPlain s'
    → s <> (nul <> t) ≡ s' <> (nul <> t')
    → (s ≡ s') × (t ≡ t')
split_at_nul String.[] String.[] t t' h h' e =
    (refl, cc (e, nil_append (nul <> t), nil_append (nul <> t'), nul_append t, nul_append t'))
split_at_nul String.[] (String.◌∷◌ c s') t t' h h' e = absurd (
    h'.0
      (head_zero c t (s' <> (nul <> t')) (sym (nil_append _) ∙ e ∙ cons_append c s' (nul <> t'))))
split_at_nul (String.◌∷◌ c s) String.[] t t' h h' e = absurd (
    h.0
      (head_zero c t' (s <> (nul <> t)) (sym (nil_append _) ∙ sym e ∙ cons_append c s (nul <> t))))
split_at_nul (String.◌∷◌ c s) (String.◌∷◌ c' s') t t' h h' e =
    let (same, rest) =
      uncons c c' (s <> (nul <> t)) (s' <> (nul <> t'))
        (sym (cons_append c s (nul <> t)) ∙ e ∙ cons_append c' s' (nul <> t')) in
    let (same_s, same_t) = split_at_nul s s' t t' h.1 h'.1 rest in (cc, same_t)

-- Keys of plain sessions tell both the sessions and the units apart.
pub unit_key-injective :
    (s s' w w' : String)
    → IsPlain s
    → IsPlain s'
    → unit_key s w ≡ unit_key s' w'
    → (s ≡ s') × (w ≡ w')
unfolding unit_key
unit_key-injective s s' w w' h h' e = split_at_nul s s' w w' h h' e

prefix_cancel : (s t t' : String) → s <> t ≡ s <> t' → t ≡ t'
prefix_cancel String.[] t t' e = sym (nil_append t) ∙ e ∙ nil_append t'
prefix_cancel (String.◌∷◌ c s) t t' e =
    prefix_cancel s t t'
      (uncons c c (s <> t) (s <> t') (sym (cons_append c s t) ∙ e ∙ cons_append c s t')).1

-- Keys of one session tell the units apart.
pub unit_key-unit : (s w w' : String) → unit_key s w ≡ unit_key s w' → w ≡ w'
unfolding unit_key
unit_key-unit s w w' e = prefix_cancel nul w w' (prefix_cancel s (nul <> w) (nul <> w') e)
