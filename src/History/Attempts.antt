-- ===== src/History/Attempts.antt =====
-- `NextAttempt` of takt/history/execution.go: the number of a retry.
use takt_ai.Base.{ℕ, ◌+◌, ◌^◌, ◌<◌, String, ◌≡◌, refl, true, false, some, arith, leb}
use takt_ai.Base.Text.{pos, atoi, itoa}
use takt_ai.Base.Text.{pos, atoi-itoa}
use takt_ai.History.Kinds.{State}
use takt_ai.History.Projection.{WorkUnit, Projection, find_unit, next_attempt}

retried :
    (p : Projection) (root unit : String) (u : WorkUnit) (n : ℕ)
    → find_unit p root unit ≡ some u
    → u.state ≡ State.settled
    → u.attempt ≡ itoa (pos n)
    → n + 1 < 2 ^ 63
    → next_attempt p root unit ≡ itoa (pos (n + 1))
unfolding next_attempt
retried p root unit u n known settled numbered small =
    rw (known, settled, numbered, atoi-itoa n (omega arith), in_range) refl
  where
    in_range : leb (2 ^ 63) (n + 1) ≡ false
    in_range = ground arith

-- The attempt after a settled unit's attempt n is n + 1 in decimal, which parses back, as long as the
-- number fits an `int`.
pub next_attempt_settled :
    (p : Projection) (root unit : String) (u : WorkUnit) (n : ℕ)
    → find_unit p root unit ≡ some u
    → u.state ≡ State.settled
    → u.attempt ≡ itoa (pos n)
    → n + 1 < 2 ^ 63
    → (next_attempt p root unit ≡ itoa (pos (n + 1)))
      × (atoi (next_attempt p root unit) ≡ (pos (n + 1), true))
next_attempt_settled p root unit u n known settled numbered small =
    let next = retried p root unit u n known settled numbered small in
    (next, rw next (atoi-itoa (n + 1) small))
