-- ===== src/Tracer/Env.antt =====
-- What the tracer sees of the kernel and of the allocator, and its state.
use prom.Prelude.{◌≡◌, ◌∙◌, [], ℕ, ◌-◌, ◌^◌, Bool, Option, none, some, List, ◌∷◌, if◌then◌else◌}
use prom.Prelude.Int.{ℤ, pos, negsuc}
use prom.Prelude.Bytes.{Bytes}
use prom.Machine.{Cmd, ok}

-- The registers of struct user_regs_struct that the code reads or writes, as unsigned words.
pub record Regs : Type 0 where
  pub orig_rax : ℕ
  pub rax : ℕ
  pub rdi : ℕ
  pub rsi : ℕ
  pub rdx : ℕ

-- Requests that answer with success or -1; `resume` is PTRACE_SYSCALL with a signal to deliver.
pub data Request : Type 0 where
  seize : ℕ → ℕ → Request
  interrupt : ℕ → Request
  resume : ℕ → ℕ → Request
  setregs : ℕ → Regs → Request
  kill : ℕ → ℕ → Request
  raise : ℕ → Request

-- What the tracer has done, the newest first.
pub data Event : Type 0 where
  waited : Event
  asked : Request → Event
  got_regs : ℕ → Event
  peeked : ℕ → ℕ → Event
  allocated : ℕ → Event
  freed : Event
  called_syscall : Regs → Event
  called_read called_write : Bytes → Event

-- The answer of waitpid: 0, -1, or a process and its status.
pub data Wait : Type 0 where
  idle failed : Wait
  changed : ℕ → ℕ → Wait

-- The answer of PTRACE_GETREGS: the registers, or -1 with errno.
pub data GotRegs : Type 0 where
  regs : Regs → GotRegs
  errno : ℕ → GotRegs

-- The kernel and the allocator: each answer may depend on all that happened before.
pub record Env : Type 0 where
  pub wait : List Event → Wait
  pub grant : List Event → Request → Bool
  pub get_regs : List Event → ℕ → GotRegs
  -- PTRACE_PEEKTEXT: the eight bytes at an address, or nothing if errno was set
  pub peek : List Event → ℕ → ℕ → Option Bytes
  pub grant_memory : List Event → ℕ → Bool

-- A callback for a path: it answers, by all that has happened, or ends in undefined behaviour.
abbrev pub Callback : Type 0
Callback = List Event → Bytes → Option ℤ

-- struct tracer_callbacks; a null pointer is `none`.
pub record Callbacks : Type 0 where
  pub file_read : Option Callback
  pub file_write : Option Callback
  pub syscall : Option (Regs → Regs)

-- Callbacks that always answer, by the path alone.
pub record Answers : Type 0 where
  pub file_read : Option (Bytes → ℤ)
  pub file_write : Option (Bytes → ℤ)
  pub syscall : Option (Regs → Regs)

abbrev pub always : Option (Bytes → ℤ) → Option Callback
always none = none
always (some f) = some (λ es path. some (f path))

abbrev pub answering : Answers → Callbacks
answering a = record {
  file_read = always a.file_read;
  file_write = always a.file_write;
  syscall = a.syscall;
}

-- The static variable of handle_syscalls, as an unsigned word, and what has happened.
pub record Tracer : Type 0 where
  pub last_syscall : ℕ
  pub trace : List Event

-- -1 as an unsigned 64-bit word.
abbrev pub minus_one : ℕ
minus_one = 2 ^ 64 - 1

abbrev pub log : Event → Tracer → Tracer
log e s = record s { trace = e ∷ s.trace }

abbrev pub emit : Event → Cmd Tracer (Unit {0})
emit e s = ok tt (log e s)

-- The result of a request: 0 or -1.
abbrev pub result : Bool → ℤ
result b = if b then pos 0 else negsuc 0

abbrev pub ask : Env → Request → Cmd Tracer ℤ
ask k r s = ok (result (k.grant s.trace r)) (log (asked r) s)

-- What has happened, without the reads of the tracee's memory and the calls of the allocator.
abbrev pub notable : List Event → List Event
notable [] = []
notable (peeked pid a ∷ es) = notable es
notable (allocated n ∷ es) = notable es
notable (freed ∷ es) = notable es
notable (e ∷ es) = e ∷ notable es

-- The tracer has read, allocated and freed memory and done nothing else.
abbrev pub IsQuiet : Tracer → Tracer → Type 0
IsQuiet s t = (t.last_syscall ≡ s.last_syscall) × (notable t.trace ≡ notable s.trace)

pub IsQuiet-trans : (s t u : Tracer) → IsQuiet s t → IsQuiet t u → IsQuiet s u
IsQuiet-trans s t u (last, trace) (last', trace') = (last' ∙ last, trace' ∙ trace)
