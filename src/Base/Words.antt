-- ===== src/Base/Words.antt =====
-- Go's 64-bit `int`: a word stands for the signed number that has its bits.
use takt_ai.Base.{ℕ, ◌+◌, ◌%◌, ◌^◌, ltb, if◌then◌else◌}

abbrev pub word : ℕ → ℕ
word n = n % 2 ^ 64

-- The `int` sum `base + extra`, which wraps, as a limit that counts are compared with: a count is below
-- a negative sum as little as it is below 0, so 0 stands for every negative sum.
unfoldable pub raised : ℕ → ℕ → ℕ
raised base extra = let sum = word (base + extra) in if ltb sum (2 ^ 63) then sum else 0
