-- ===== src/Tracer/Loop/AtSyscall.antt =====
-- Rounds of the tracer in which a process is at a system call, or there is none: src/libtracer/tracer.c.
use prom.Prelude.{ℕ, ◌≡◌, refl, ◌∷◌}
use prom.Tracer.Env.{Regs, GotRegs, Env, Callbacks, Tracer, changed, waited, got_regs, Wait, log}
use prom.Prelude.Int.{negsuc}
use prom.Machine.{ok}
use prom.Tracer.Syscalls.{handle_regs, handle_syscalls}
use prom.Tracer.Loop.{tracer_loop, handle_stopped}

-- The status of a process that is stopped at a system call: SIGTRAP | 0x80 above 0x7f.
abbrev pub at_syscall : ℕ
at_syscall = 0x857f

pub tracer_loop-at_syscall :
    (fuel : ℕ) (k : Env) (pid : ℕ) (cbs : Callbacks) (regs : Regs) (s : Tracer)
    → k.wait s.trace ≡ changed pid at_syscall
    → k.get_regs (waited ∷ s.trace) pid ≡ GotRegs.regs regs
    → tracer_loop fuel k cbs s
      ≡ handle_regs fuel k cbs pid regs (record s { trace = got_regs pid ∷ waited ∷ s.trace })
unfolding tracer_loop handle_stopped handle_syscalls
tracer_loop-at_syscall fuel k pid cbs regs s stop got = rw (stop, got) refl

pub tracer_loop-failed :
    (fuel : ℕ) (k : Env) (cbs : Callbacks) (s : Tracer)
    → k.wait s.trace ≡ Wait.failed
    → tracer_loop fuel k cbs s ≡ ok (negsuc 0) (log waited s)
unfolding tracer_loop
tracer_loop-failed fuel k cbs s gone = rw gone refl
