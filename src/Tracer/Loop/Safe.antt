-- ===== src/Tracer/Loop/Safe.antt =====
-- Rounds of the tracer without faults: src/libtracer/tracer.c, tracer_init and tracer_loop.
use prom.Prelude.{ℕ, ◌*◌, ◌/◌, ◌^◌, ◌<◌, Bool-cases, inl, inr}
use prom.Prelude.Int.{ℤ}
use prom.Machine.{Run, Cmd, ok, aborted, faulted, exited, stuck}
use prom.Tracer.Env.{Request, log, waited, Env, Answers, answering, Tracer, Wait, changed}
use prom.Tracer.Loop.{or_fail, tracer_init, tracer_loop, on_wait, is_stopped, stop_sig}
use prom.Tracer.Loop.Resumes.{Settles, handle_stopped-Settles}
use prom.Tracer.ReadString.Bounds.{IsSafe}

Settles-IsSafe : (pid : ℕ) (r : Run Tracer ℤ) → Settles pid r → IsSafe r
Settles-IsSafe pid (ok a t) h = tt
Settles-IsSafe pid aborted h = h
Settles-IsSafe pid faulted h = h
Settles-IsSafe pid (exited n t) h = h
Settles-IsSafe pid stuck h = tt

-- If the fuel for a string is below 2 ^ 57, a round of the tracer neither aborts nor faults,
-- whatever the kernel answers.
pub tracer_loop-IsSafe :
    (kernel : Env) (cbs : Answers) (fuel : ℕ) (s : Tracer)
    → 8 * fuel < 2 ^ 60
    → IsSafe (tracer_loop fuel kernel (answering cbs) s)
unfolding tracer_loop
tracer_loop-IsSafe kernel cbs fuel s small = on (kernel.wait s.trace) (log waited s)
  where
    on : (w : Wait) (t : Tracer) → IsSafe (on_wait fuel kernel (answering cbs) w t)
    on Wait.idle t = tt
    on Wait.failed t = tt
    on (changed pid status) t = elim (Bool-cases (is_stopped status)) [
      | inl stopped ↦ rw stopped (
          Settles-IsSafe pid _
            (handle_stopped-Settles kernel cbs pid fuel small (status / 256) (stop_sig status) t))
      | inr other ↦ rw other tt
    ]

or_fail-IsSafe :
    (kernel : Env) (r : Request) (rest : Cmd Tracer ℤ) (s : Tracer)
    → ((t : Tracer) → IsSafe (rest t))
    → IsSafe (or_fail kernel r rest s)
or_fail-IsSafe kernel r rest s go = elim (Bool-cases (kernel.grant s.trace r)) [
  | inl e ↦ rw e (go _)
  | inr e ↦ rw e tt
]

-- Attaching neither aborts nor faults.
pub tracer_init-IsSafe : (kernel : Env) (pid : ℕ) (s : Tracer) → IsSafe (tracer_init kernel pid s)
unfolding tracer_init
tracer_init-IsSafe kernel pid s = or_fail-IsSafe kernel _ _ _ λ t.
    or_fail-IsSafe kernel _ _ t
      λ t'. or_fail-IsSafe kernel _ _ t' λ t''. or_fail-IsSafe kernel _ _ t'' λ u. tt
