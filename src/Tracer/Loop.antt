-- ===== src/Tracer/Loop.antt =====
-- tracee_init, tracer_init, tracer_loop and the dispatch on a stop: src/libtracer/tracer.c.
pub mod Resumes
pub mod Init
pub mod Safe
pub mod AtSyscall
use prom.Prelude.{ℕ, ◌+◌, ◌/◌, ◌%◌, Bool, ◌==◌, if◌then◌else◌}
use prom.Prelude.Int.{ℤ, pos, negsuc}
use prom.Machine.{Cmd, pure, ◌>>=◌, ◌>>◌}
use prom.Tracer.Env.{
  Request, seize, interrupt, resume, kill, raise, waited, Wait, idle, failed, changed, Env,
  Callbacks, Tracer, log, emit, ask,
}
use prom.Tracer.Syscalls.{is_minus_one, handle_syscalls}

abbrev pub sigtrap : ℕ
sigtrap = 5

abbrev pub sigcont : ℕ
sigcont = 18

abbrev pub sigstop : ℕ
sigstop = 19

-- PTRACE_O_TRACEFORK | PTRACE_O_TRACESYSGOOD | PTRACE_O_TRACECLONE | PTRACE_O_TRACEEXIT
abbrev pub ptrace_options : ℕ
ptrace_options = 2 + 1 + 8 + 64

unfoldable pub tracee_init : Env → Cmd Tracer ℤ
tracee_init k = ask k (raise sigstop)

-- `if (request == -1) return -1;` in front of the rest
abbrev pub or_fail : Env → Request → Cmd Tracer ℤ → Cmd Tracer ℤ
or_fail k r rest = do ret ← ask k r; if is_minus_one ret then pure (negsuc 0) else rest

-- The callbacks are an argument of the other functions.
unfoldable pub tracer_init : Env → ℕ → Cmd Tracer ℤ
tracer_init k pid = do
  emit waited
  or_fail k (seize pid ptrace_options) (
      or_fail k (interrupt pid)
        (or_fail k (resume pid 0) (or_fail k (kill pid sigcont) (pure (pos 0)))))

-- Every event of a SIGTRAP stop takes the same branch.
pub handle_sigtrap : Env → ℕ → ℕ → Cmd Tracer ℤ
handle_sigtrap k pid event = ask k (resume pid 0)

pub handle_stopped : ℕ → Env → Callbacks → ℕ → ℕ → ℕ → Cmd Tracer ℤ
unfolding handle_sigtrap
handle_stopped fuel k cbs pid event sig =
    if sig == sigtrap
    then handle_sigtrap k pid event
    else if sig == sigtrap + 0x80
    then handle_syscalls fuel k cbs pid
    else if sig == sigcont
    then ask k (resume pid 0)
    else ask k (resume pid sig)

-- WIFSTOPPED and WSTOPSIG of <sys/wait.h>
abbrev pub is_stopped : ℕ → Bool
is_stopped status = status % 256 == 0x7f

abbrev pub stop_sig : ℕ → ℕ
stop_sig status = status / 256 % 256

abbrev pub on_wait : ℕ → Env → Callbacks → Wait → Cmd Tracer ℤ
on_wait fuel k cbs idle = pure (pos 0)
on_wait fuel k cbs failed = pure (negsuc 0)
on_wait fuel k cbs (changed pid status) =
    if is_stopped status
    then handle_stopped fuel k cbs pid (status / 256) (stop_sig status)
    else pure (pos 0)

unfoldable pub tracer_loop : ℕ → Env → Callbacks → Cmd Tracer ℤ
unfolding handle_stopped
tracer_loop fuel k cbs s = on_wait fuel k cbs (k.wait s.trace) (log waited s)
