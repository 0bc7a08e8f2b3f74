-- ===== src/Tracer/Loop/Init.antt =====
-- Attaching to a process: src/libtracer/tracer.c, tracer_init.
use prom.Prelude.{ℕ, ◌≡◌, Bool, true, false, List, [], ◌∷◌, if◌then◌else◌, arith}
use prom.Machine.{ok}
use prom.Tracer.Env.{
  Request, seize, interrupt, resume, kill, Event, asked, waited, Env, Tracer, result,
}
use prom.Tracer.Loop.{tracer_init, ptrace_options, sigcont}

-- Requests up to the first that is refused, on top of what has happened, and whether none is.
abbrev tried : Env → List Request → List Event → Bool × List Event
tried k [] es = (true, es)
tried k (r ∷ rs) es =
    let rest = tried k rs (asked r ∷ es) in if k.grant es r then rest else (false, asked r ∷ es)

-- The process is seized, stopped, let run to its next system call and continued.
abbrev attach : ℕ → List Request
attach pid = seize pid ptrace_options ∷ interrupt pid ∷ resume pid 0 ∷ kill pid sigcont ∷ []

-- tracer_init waits for the process, and then makes the requests that attach to it in order, up
-- to the first that the kernel refuses; it returns 0 if none is refused, and -1 otherwise.
tracer_init-tried :
    (k : Env) (pid : ℕ) (s : Tracer)
    → tracer_init k pid s
      ≡ ok
          (result (tried k (attach pid) (waited ∷ s.trace)).0)
          (record s { trace = (tried k (attach pid) (waited ∷ s.trace)).1 })
unfolding tracer_init
tracer_init-tried k pid s = ground arith
