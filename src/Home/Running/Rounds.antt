-- ===== src/Home/Running/Rounds.antt =====
-- internal/home/server.go: what has happened in Run after any rounds.
use famfun.Prelude.{
  ℕ, ◌+◌, ◌-◌, ◌≡◌, List, [], ◌∷◌, Bool, true, false, filter, length, ltb, arith, if◌then◌else◌,
}
use famfun.Home.Running.{Round, Context, Event, start, run_loop, run}

-- How often the server was registered, up to the end of Run.
abbrev pub registrations : List Round → ℕ
registrations [] = 0
registrations (Round.gives_up ∷ rounds) = 0
registrations (Round.not_registered ∷ rounds) = registrations rounds
registrations (Round.loses_connection ∷ rounds) = 1 + registrations rounds
registrations (Round.ends ∷ rounds) = 1

-- Whether Run has ended.
abbrev pub is_over : List Round → Bool
is_over [] = false
is_over (Round.gives_up ∷ rounds) = true
is_over (Round.not_registered ∷ rounds) = is_over rounds
is_over (Round.loses_connection ∷ rounds) = is_over rounds
is_over (Round.ends ∷ rounds) = true

abbrev pub lasts : Context → Bool
lasts Context.of_run = true
lasts Context.of_connection = false

-- The heartbeats that still run after some events, each by its context; a context that ends takes those
-- with it that have it, and that of Run takes all.
abbrev pub beating : List Context → List Event → List Context
beating cs [] = cs
beating cs (Event.starts_heartbeat c ∷ es) = beating (c ∷ cs) es
beating cs (Event.ends_context Context.of_run ∷ es) = beating [] es
beating cs (Event.ends_context Context.of_connection ∷ es) = beating (filter lasts cs) es
beating cs (Event.starts_scan c ∷ es) = beating cs es
beating cs (Event.publishes ∷ es) = beating cs es
beating cs (Event.closes ∷ es) = beating cs es
beating cs (Event.sleeps n ∷ es) = beating cs es

abbrev pub scans : List Event → ℕ
scans [] = 0
scans (Event.starts_scan c ∷ es) = 1 + scans es
scans (_ ∷ es) = scans es

abbrev pub publications : List Event → ℕ
publications [] = 0
publications (Event.publishes ∷ es) = 1 + publications es
publications (_ ∷ es) = publications es

again_lem :
    (rounds : List Round) (cs : List Context)
    → let es = run_loop true rounds in
      (length (beating cs es) ≡ (if is_over rounds then 0 else length cs + registrations rounds))
      × (scans es ≡ 0)
      × (publications es ≡ registrations rounds)
unfolding run_loop start
again_lem [] cs = ground arith
again_lem (Round.gives_up ∷ rounds) cs = ground arith
again_lem (Round.not_registered ∷ rounds) cs = again_lem rounds cs
again_lem (Round.loses_connection ∷ rounds) cs =
    ground (arith, again_lem rounds (Context.of_run ∷ cs))
again_lem (Round.ends ∷ rounds) cs = ground arith

-- As long as Run goes on, one more heartbeat runs after each registration, and all that it started still
-- do, those of lost connections too; when its context ends none is left. It scans the videos once, at the
-- first registration, and publishes them at every later one.
pub run-registrations :
    (rounds : List Round)
    → let n = registrations rounds in
      (length (beating [] (run rounds)) ≡ (if is_over rounds then 0 else n))
      × (scans (run rounds) ≡ (if ltb 0 n then 1 else 0))
      × (publications (run rounds) ≡ n - 1)
unfolding run run_loop start
run-registrations [] = ground arith
run-registrations (Round.gives_up ∷ rounds) = ground arith
run-registrations (Round.not_registered ∷ rounds) = run-registrations rounds
run-registrations (Round.loses_connection ∷ rounds) =
    ground (arith, again_lem rounds (Context.of_run ∷ []))
run-registrations (Round.ends ∷ rounds) = ground arith
