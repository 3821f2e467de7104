-- ===== src/Base/Text/RoundTrip.antt =====
-- A number that is printed in decimal is parsed back.
use Prim.Native.Nat.{ℕ, zero, suc, ◌+◌, ◌-◌, ◌*◌, ◌/◌, ◌%◌, ◌^◌, ◌<◌}
use Prim.Native.Char.{code}
use Prim.Native.String.{String}
use Prim.Native.String.append as str_append
use mathlib.Core.Bool.{true}
use mathlib.Core.List.{List, [], ◌∷◌, ◌++◌}
use mathlib.Core.Path.{◌≡◌, refl, ap, ◌∙◌}
use native.Mathlib.Omega.{arith}
use native.Mathlib.Nat.{pow-suc}
use takt_ai.Base.Lists.{length, length-append}
use takt_ai.Base.Tests.{ltb, Bool-cases}
use mathlib.Core.Logic.{inl, inr}
use takt_ai.Base.Text.Defs.{pos, codes, ◌<>◌, value, digits, digit, decimal, atoi, atoi_codes, itoa}

pub codes-append : (s t : String) → codes (s <> t) ≡ codes s ++ codes t
codes-append String.[] t = ap codes (str_append.nil t)
codes-append (String.◌∷◌ c s) t =
    ap codes (str_append.cons c s t) ∙ ap (◌∷◌ (code c)) (codes-append s t)

codes-digit : (d : ℕ) → d < 10 → codes (digit d) ≡ (d + 48) ∷ []
unfolding digit
codes-digit zero h = refl
codes-digit (suc zero) h = refl
codes-digit (suc (suc zero)) h = refl
codes-digit (suc (suc (suc zero))) h = refl
codes-digit (suc (suc (suc (suc zero)))) h = refl
codes-digit (suc (suc (suc (suc (suc zero))))) h = refl
codes-digit (suc (suc (suc (suc (suc (suc zero)))))) h = refl
codes-digit (suc (suc (suc (suc (suc (suc (suc zero))))))) h = refl
codes-digit (suc (suc (suc (suc (suc (suc (suc (suc zero)))))))) h = refl
codes-digit (suc (suc (suc (suc (suc (suc (suc (suc (suc zero))))))))) h = refl
codes-digit (suc (suc (suc (suc (suc (suc (suc (suc (suc (suc d)))))))))) h = absurd (omega arith)

digits-append :
    (a n : ℕ) (xs ys : List ℕ) → digits a xs ≡ value n → digits a (xs ++ ys) ≡ digits n ys
unfolding digits
digits-append a n [] ys h = ground arith
digits-append a n (x ∷ xs) ys h = ground (arith, digits-append (a * 10 + (x - 48)) n xs ys)

digits-one :
    (n d : ℕ) → d < 10 → n * 10 + d < 2 ^ 64 → digits n ((d + 48) ∷ []) ≡ value (n * 10 + d)
unfolding digits
digits-one n d h k = ground arith

digits-decimal_step :
    (m d n : ℕ) (s : String)
    → d < 10
    → m * 10 + d ≡ n
    → n < 2 ^ 64
    → digits 0 (codes s) ≡ value m
    → digits 0 (codes (s <> digit d)) ≡ value n
digits-decimal_step m d n s h e k ih = rw (codes-append s (digit d)) (
    digits-append 0 m (codes s) (codes (digit d)) ih
    ∙ rw (codes-digit d h) (digits-one m d h (omega arith) ∙ ap value e))

digits-decimal : (f n : ℕ) → n < 10 ^ f → n < 2 ^ 64 → digits 0 (codes (decimal f n)) ≡ value n
unfolding decimal digits
digits-decimal zero n h k = ap value (omega arith)
digits-decimal (suc f) n h k = elim (Bool-cases (ltb n 10)) [
  | inl small ↦
      rw (small, codes-digit n (ground arith))
        (digits-one 0 n (ground arith) (omega arith) ∙ ap value (omega arith))
  | inr large ↦ rw large (
      digits-decimal_step (n / 10) (n % 10) n (decimal f (n / 10)) (omega arith) (omega arith) k
        (digits-decimal f (n / 10) (omega (arith, pow-suc 10 f)) (omega arith)))
]

length-decimal-pos : (f n : ℕ) → 0 < length (codes (decimal (suc f) n))
unfolding decimal
length-decimal-pos f n = elim (Bool-cases (ltb n 10)) [
  | inl small ↦ rw (small, codes-digit n (ground arith)) (omega arith)
  | inr large ↦
      rw
        (
          large,
          codes-append (decimal f (n / 10)) (digit (n % 10)),
          length-append (codes (decimal f (n / 10))) (codes (digit (n % 10))),
          codes-digit (n % 10) (omega arith),
        )
        (omega arith)
]

atoi_codes-value :
    (n : ℕ) (xs : List ℕ)
    → 0 < length xs
    → digits 0 xs ≡ value n
    → n < 2 ^ 63
    → atoi_codes xs ≡ (pos n, true)
unfolding digits
atoi_codes-value n [] l e h = absurd (omega arith)
atoi_codes-value n (x ∷ xs) l e h = ground arith

-- A number of a Go `int` is printed and parsed back, with no error.
pub atoi-itoa : (n : ℕ) → n < 2 ^ 63 → atoi (itoa (pos n)) ≡ (pos n, true)
unfolding atoi itoa
atoi-itoa n h =
    atoi_codes-value n (codes (decimal 20 n)) (length-decimal-pos 19 n)
      (digits-decimal 20 n (omega arith) (omega arith)) h
