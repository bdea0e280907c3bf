-- ===== src/Home/Connecting.antt =====
-- internal/home/quic_client.go: connecting to the cloud again and again, with growing waits.
pub mod Waits
use famfun.Prelude.{ℕ, ◌*◌, ◌^◌, List, [], ◌∷◌, ltb, if◌then◌else◌}

-- time.Second, in nanoseconds.
abbrev pub second : ℕ
second = 10 ^ 9

unfoldable pub next_backoff : ℕ → ℕ → ℕ
next_backoff current max = let next = current * 2 in if ltb max next then max else next

-- What comes of one round: Connect succeeds, or it fails and the wait ends by the timer or by the
-- context.
pub data Round : Type 0 where
  connects : Round
  waits : Round
  cancelled : Round

pub data Outcome : Type 0 where
  connected : Outcome
  context_error : Outcome
  still_trying : Outcome

-- The loop of `ConnectWithRetry` through the given rounds: how it ended, and the waits it began.
unfoldable pub connect_loop : ℕ → List Round → Outcome × List ℕ
connect_loop backoff [] = (still_trying, [])
connect_loop backoff (connects ∷ rounds) = (connected, [])
connect_loop backoff (cancelled ∷ rounds) = (context_error, backoff ∷ [])
connect_loop backoff (waits ∷ rounds) =
    let (end, later) = connect_loop (next_backoff backoff (60 * second)) rounds in
    (end, backoff ∷ later)

unfoldable pub connect_with_retry : List Round → Outcome × List ℕ
connect_with_retry rounds = connect_loop second rounds
