-- ===== src/Tracer/Syscalls.antt =====
-- handle_syscalls and syscall_openat of src/libtracer/tracer.c.
pub mod Policy
pub mod Alternation
pub mod Interleaved
pub mod Stops
pub mod Unread
use prom.Prelude.{
  ℕ, ◌-◌, ◌%◌, ◌^◌, Bool, true, false, ◌&&◌, ◌||◌, not, Option, none, some, ◌==◌, if◌then◌else◌,
}
use prom.Prelude.Int.{ℤ, pos, negsuc}
use prom.Prelude.Bytes.{Bytes}
use prom.Machine.{Cmd, ok, faulted, pure, ◌>>=◌, ◌>>◌, and_then, modify}
use prom.Tracer.Env.{
  Regs, resume, setregs, Event, got_regs, freed, called_syscall, called_read, called_write, GotRegs,
  Env, Callback, Callbacks, Tracer, minus_one, log, emit, ask,
}
use prom.Tracer.ReadString.{c_string, read_string}

-- SYS_openat on x86-64
abbrev pub sys_openat : ℕ
sys_openat = 257

abbrev pub esrch : ℕ
esrch = 3

-- -EPERM as an unsigned word
abbrev pub minus_eperm : ℕ
minus_eperm = 2 ^ 64 - 1

-- `flags & O_ACCMODE`: the two low bits
abbrev pub acc_mode : ℕ → ℕ
acc_mode flags = flags % 4

abbrev pub o_rdonly : ℕ
o_rdonly = 0

abbrev pub o_wronly : ℕ
o_wronly = 1

abbrev pub o_rdwr : ℕ
o_rdwr = 2

abbrev pub is_minus_one : ℤ → Bool
is_minus_one (pos n) = false
is_minus_one (negsuc n) = n == 0

-- A callback, if it is set and the access mode asks for it; the result is `deny_perm` after it.
abbrev pub consult : Option Callback → (Bytes → Event) → Bytes → Bool → Bool → Cmd Tracer Bool
consult none e path wanted deny_perm = pure deny_perm
consult (some cb) e path wanted deny_perm =
    if wanted
    then (emit (e path) >> λ s. elim (cb s.trace path) [
      | some answer ↦ ok (if is_minus_one answer then true else deny_perm) s
      | none ↦ faulted
    ])
    else pure deny_perm

-- What syscall_openat does with the path that it has read.
abbrev pub open_path : Callbacks → Regs → Option Bytes → Cmd Tracer ℤ
open_path cbs regs none = pure (pos 0)
open_path cbs regs (some buffer) = do
  let path = c_string buffer
  let acc_flag = acc_mode (regs.rdx % 2 ^ 32)
  deny ← consult cbs.file_read called_read path (acc_flag == o_rdonly || acc_flag == o_rdwr) false
  deny' ← consult cbs.file_write called_write path (acc_flag == o_wronly || acc_flag == o_rdwr) deny
  emit freed
  pure (if deny' then negsuc 0 else pos 0)

unfoldable pub syscall_openat : ℕ → Env → Callbacks → ℕ → Regs → Cmd Tracer ℤ
syscall_openat fuel k cbs pid regs = do
  path ← read_string fuel k pid regs.rsi
  open_path cbs regs path

-- The label `next`: the tracee runs on to its next stop.
abbrev pub next : Env → ℕ → Cmd Tracer ℤ
next k pid = ask k (resume pid 0)

-- The user's callback for every system call; it may change the registers.
abbrev pub run_callback : Option (Regs → Regs) → Bool → Regs → Cmd Tracer Regs
run_callback none entry regs = pure regs
run_callback (some cb) entry regs =
    if entry then (emit (called_syscall regs) >> pure (cb regs)) else pure regs

abbrev pub denied : ℤ → Regs → Regs
denied perm regs =
    if is_minus_one perm then record regs { orig_rax = minus_eperm; rax = minus_eperm } else regs

-- handle_syscalls behind a PTRACE_GETREGS that succeeded.
unfoldable pub handle_regs : ℕ → Env → Callbacks → ℕ → Regs → Cmd Tracer ℤ
handle_regs fuel k cbs pid regs s =
    (do
      let syscall = regs.orig_rax
      let last = if s.last_syscall == syscall then minus_one else syscall
      let entry = not (last == minus_one)
      modify (λ t. record t { last_syscall = last })
      regs' ← run_callback cbs.syscall entry regs
      perm ←
          if syscall == sys_openat && entry
          then syscall_openat fuel k cbs pid regs'
          else pure (pos 0)
      set ← ask k (setregs pid (denied perm regs'))
      if is_minus_one set then pure (negsuc 0) else next k pid)
      s

abbrev pub with_regs : ℕ → Env → Callbacks → ℕ → GotRegs → Cmd Tracer ℤ
with_regs fuel k cbs pid (GotRegs.regs r) = handle_regs fuel k cbs pid r
with_regs fuel k cbs pid (GotRegs.errno e) = if e == esrch then pure (negsuc 0) else next k pid

unfoldable pub handle_syscalls : ℕ → Env → Callbacks → ℕ → Cmd Tracer ℤ
unfolding handle_regs
handle_syscalls fuel k cbs pid s =
    with_regs fuel k cbs pid (k.get_regs s.trace pid) (log (got_regs pid) s)
