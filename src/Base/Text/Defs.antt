-- ===== src/Base/Text/Defs.antt =====
-- Package `strings` and package `strconv` as the program uses them, over the code points of a text.
use Prim.Native.Nat.{ℕ, zero, suc, ◌+◌, ◌-◌, ◌*◌, ◌/◌, ◌%◌, ◌^◌}
use Prim.Native.Char.{code}
use Prim.Native.String.{String, ◌++◌}
use mathlib.Core.Bool.{Bool, true, false, ◌&&◌, ◌||◌}
use mathlib.Core.List.{List, [], ◌∷◌}
use takt_ai.Base.Tests.{ltb, leb, eqb, if◌then◌else◌}
use takt_ai.Base.Lists.{all}

-- `negsuc n` is -(n + 1).
pub data ℤ : Type 0 where
  pos : ℕ → ℤ
  negsuc : ℕ → ℤ

abbrev pub lt_ℤ : ℤ → ℤ → Bool
lt_ℤ (pos a) (pos b) = ltb a b
lt_ℤ (pos a) (negsuc b) = false
lt_ℤ (negsuc a) (pos b) = true
lt_ℤ (negsuc a) (negsuc b) = ltb b a

abbrev pub max_ℤ : ℤ → ℤ → ℤ
max_ℤ a b = if lt_ℤ a b then b else a

-- n + 1 on a 64-bit `int`, which wraps.
abbrev pub next_ℤ : ℤ → ℤ
next_ℤ (pos n) = if leb (2 ^ 63) (n + 1) then negsuc n else pos (n + 1)
next_ℤ (negsuc zero) = pos 0
next_ℤ (negsuc (suc n)) = negsuc n

-- Concatenation of strings.
infixr 65 ◌<>◌
abbrev pub ◌<>◌ : String → String → String
s <> t = s ++ t

abbrev pub codes : String → List ℕ
codes String.[] = []
codes (String.◌∷◌ c s) = code c ∷ codes s

-- unicode.IsSpace
unfoldable pub is_space : ℕ → Bool
is_space c =
    (leb 9 c && leb c 13)
    || eqb c 32
    || eqb c 133
    || eqb c 160
    || eqb c 5760
    || (leb 8192 c && leb c 8202)
    || eqb c 8232
    || eqb c 8233
    || eqb c 8239
    || eqb c 8287
    || eqb c 12288

-- `strings.TrimSpace(s) == ""`: trimming leaves nothing exactly when every character is a space.
unfoldable pub is_blank : String → Bool
unfolding is_space
is_blank s = all is_space (codes s)

pub data Digits : Type 0 where
  value : ℕ → Digits
  syntax range : Digits

-- The loop of `strconv.ParseUint` in base 10: it stops at the first character that is no digit, or
-- where the number leaves 64 bits.
unfoldable pub digits : ℕ → List ℕ → Digits
digits n [] = value n
digits n (c ∷ cs) =
    let n1 = n * 10 + (c - 48) in
    if leb 48 c && leb c 57 then (if leb (2 ^ 64) n1 then range else digits n1 cs) else syntax

-- `strconv.ParseInt` for a 64-bit `int`: the value, clamped when out of range, and whether there is
-- no error.
abbrev pub signed : Bool → Digits → ℤ × Bool
signed neg syntax = (pos 0, false)
signed true range = (negsuc (2 ^ 63 - 1), false)
signed false range = (pos (2 ^ 63 - 1), false)
signed false (value n) = if leb (2 ^ 63) n then (pos (2 ^ 63 - 1), false) else (pos n, true)
signed true (value zero) = (pos 0, true)
signed true (value (suc n)) =
    if leb (2 ^ 63) n then (negsuc (2 ^ 63 - 1), false) else (negsuc n, true)

abbrev pub unsigned : Bool → List ℕ → ℤ × Bool
unsigned neg [] = (pos 0, false)
unsigned neg (c ∷ cs) = signed neg (digits 0 (c ∷ cs))

abbrev pub atoi_codes : List ℕ → ℤ × Bool
atoi_codes [] = (pos 0, false)
atoi_codes (c ∷ cs) =
    if eqb c b'-'
    then unsigned true cs
    else if eqb c b'+'
    then unsigned false cs
    else unsigned false (c ∷ cs)

-- strconv.Atoi
unfoldable pub atoi : String → ℤ × Bool
unfolding digits
atoi s = atoi_codes (codes s)

unfoldable pub digit : ℕ → String
digit zero = "0"
digit (suc zero) = "1"
digit (suc (suc zero)) = "2"
digit (suc (suc (suc zero))) = "3"
digit (suc (suc (suc (suc zero)))) = "4"
digit (suc (suc (suc (suc (suc zero))))) = "5"
digit (suc (suc (suc (suc (suc (suc zero)))))) = "6"
digit (suc (suc (suc (suc (suc (suc (suc zero))))))) = "7"
digit (suc (suc (suc (suc (suc (suc (suc (suc zero)))))))) = "8"
digit _ = "9"

-- The digits of a number; the fuel bounds how many.
unfoldable pub decimal : ℕ → ℕ → String
decimal zero n = ""
decimal (suc f) n =
    let rest = decimal f (n / 10) in if ltb n 10 then digit n else rest <> digit (n % 10)

-- strconv.Itoa: a 64-bit number has at most 20 digits.
unfoldable pub itoa : ℤ → String
itoa (pos n) = decimal 20 n
itoa (negsuc n) = "-" <> decimal 20 (n + 1)

-- `strings.TrimPrefix` on code points: `strip p s whole` is `whole` unless `s` begins with `p`.
abbrev pub strip : List ℕ → List ℕ → List ℕ → List ℕ
strip [] s whole = s
strip (p ∷ ps) [] whole = whole
strip (p ∷ ps) (c ∷ cs) whole = if eqb p c then strip ps cs whole else whole

abbrev pub trim_prefix : List ℕ → List ℕ → List ℕ
trim_prefix prefix s = strip prefix s s

-- `strings.Compare(a, b) <= 0`: the order of UTF-8 bytes is the order of the characters' codes.
unfoldable pub leq_codes : List ℕ → List ℕ → Bool
leq_codes [] ds = true
leq_codes (c ∷ cs) [] = false
leq_codes (c ∷ cs) (d ∷ ds) = let rest = leq_codes cs ds in if eqb c d then rest else ltb c d
