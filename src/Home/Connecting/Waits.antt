-- ===== src/Home/Connecting/Waits.antt =====
-- internal/home/quic_client.go: how long ConnectWithRetry waits.
use famfun.Prelude.{ℕ, zero, suc, ◌*◌, ◌≡◌, refl, List, [], ◌∷◌, leb, if◌then◌else◌, arith}
use famfun.Home.Connecting.{Round, Outcome, second, next_backoff, connect_loop, connect_with_retry}

-- 2 ^ n
abbrev pub doubled : ℕ → ℕ
doubled zero = 1
doubled (suc n) = doubled n * 2

-- The wait after the failure number n, from 0 on: 2 ^ n seconds, and a minute at most.
unfoldable pub wait : ℕ → ℕ
wait n = if leb (doubled n) 60 then doubled n * second else 60 * second

-- The waits number i, i + 1, ..., n of them.
unfoldable pub wait_list : ℕ → ℕ → List ℕ
wait_list i zero = []
wait_list i (suc n) = wait i ∷ wait_list (suc i) n

-- n failures, each waited for, and then `rounds`.
unfoldable pub failures : ℕ → List Round → List Round
failures zero rounds = rounds
failures (suc n) rounds = Round.waits ∷ failures n rounds

next_backoff-wait : (i : ℕ) → next_backoff (wait i) (60 * second) ≡ wait (suc i)
unfolding next_backoff wait
next_backoff-wait i = ground arith

connect_loop-failures :
    (n i : ℕ)
    → connect_loop (wait i) (failures n (Round.connects ∷ [])) ≡ (Outcome.connected, wait_list i n)
unfolding connect_loop failures wait_list
connect_loop-failures zero i = refl
connect_loop-failures (suc n) i = rw (next_backoff-wait i) (rw (connect_loop-failures n (suc i)))

-- If Connect fails n times and then succeeds the call ends with the connection, after waits of 1, 2,
-- 4, ... seconds, of a minute each from the seventh on.
pub connect_with_retry-failures :
    (n : ℕ)
    → connect_with_retry (failures n (Round.connects ∷ [])) ≡ (Outcome.connected, wait_list 0 n)
unfolding connect_with_retry wait
connect_with_retry-failures n = connect_loop-failures n 0
