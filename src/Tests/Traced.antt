-- ===== src/Tests/Traced.antt =====
-- The tracer and the shell's callbacks on a small kernel: src/libtracer/tracer.c.
use prom.Prelude.{
  ℕ, zero, suc, ◌+◌, false, leb, replicate, ◌^◌, ◌%◌, ◌≡◌, refl, none, some, true, List, [], ◌∷◌,
  arith, ◌==◌, ◌&&◌, if◌then◌else◌,
}
use prom.Prelude.Int.{pos, negsuc}
use prom.Prelude.Bytes.{Bytes, codes, str_eq}
use prom.Machine.{and_then}
use prom.Machine.Returns.{Returns}
use prom.Tracer.Env.{
  Env, Regs, GotRegs, Wait, Callbacks, Answers, answering, Tracer, asked, resume, setregs,
  minus_one, IsQuiet, notable,
}
use prom.Tracer.ReadString.{read_string, c_string}
use prom.Tracer.ReadString.Total.{Serves, concat, read_string-Serves}
use prom.Tracer.ReadString.Bounds.{IsSafe, read_string-IsSafe}
use prom.Tracer.Syscalls.{handle_regs, acc_mode, minus_eperm}
use prom.Tracer.Syscalls.Policy.{Entered, shown_to, denies, writes, openat-Entered}
use prom.Tracer.Syscalls.Alternation.{called}
use prom.Tracer.Syscalls.Stops.{onto, taken, regs_of, handle_stops, handle_stops-taken}
use prom.Tracer.Syscalls.Unread.{openat-unread}
use prom.Tracer.ReadString.Refused.{IsClear}
use prom.Tracer.Syscalls.Interleaved.{openat-unchecked}
use prom.Tracer.Loop.{handle_stopped}
use prom.Tracer.Loop.Resumes.{Settles, handle_stopped-Settles}
use prom.Logger.{Disk}
use prom.Shell.Callbacks.{tracer_cbs}
use prom.Shell.Callbacks.Denies.{openat_protected, both_shown, protected}

-- openat(…, 8192, O_WRONLY)
abbrev openat_regs : Regs
openat_regs = record { orig_rax = 257; rax = 0; rdi = 0; rsi = 8192; rdx = 1 }

abbrev write_regs : Regs
write_regs = record openat_regs { orig_rax = 1 }

abbrev first : Bytes
first = codes "trace_te"

abbrev second : Bytes
second = codes "st.file\0"

abbrev kernel : Env
kernel = record {
  wait = λ _. Wait.idle;
  grant = λ _ _. true;
  get_regs = λ _ _. GotRegs.regs openat_regs;
  peek = λ _ _ a. if a == 8192 then some first else some second;
  grant_memory = λ _ _. true;
}

abbrev quiet : Tracer
quiet = record { last_syscall = minus_one; trace = [] }

kernel-Serves : Serves kernel 7 8192 0 (first ∷ []) second
kernel-Serves = (λ t. refl, refl, (λ t. refl, refl))

abbrev files : Disk
files = record { content = λ _. []; opens = λ _. true; streams = 0 }

-- A client that refuses every write.
abbrev no_writes : Answers
no_writes = record { file_read = none; file_write = some (λ _. negsuc 0); syscall = none }

abbrev same_regs : Regs → Regs
same_regs r = r

abbrev watching : Callbacks
watching = record { file_read = none; file_write = none; syscall = some same_regs }

read_string_example :
    Returns
      (λ r t. (r ≡ some (concat (first ∷ []) second)) × IsQuiet quiet t)
      (read_string 3 kernel 7 8192 quiet)
read_string_example =
    read_string-Serves kernel (λ t n. refl) 7 3 8192 (first ∷ []) second quiet kernel-Serves
      (omega arith) (omega arith)

read_string-IsSafe_example : IsSafe (read_string 3 kernel 7 8192 quiet)
read_string-IsSafe_example = read_string-IsSafe kernel 7 3 8192 quiet (omega arith)

openat_example :
    Returns
      (Entered 7 quiet
        (shown_to no_writes (acc_mode (1 % 2 ^ 32)) (c_string (concat (first ∷ []) second)))
        (denies no_writes (acc_mode (1 % 2 ^ 32)) (c_string (concat (first ∷ []) second)))
        openat_regs)
      (handle_regs 3 kernel (answering no_writes) 7 openat_regs quiet)
openat_example =
    openat-Entered kernel (λ t n. refl) no_writes 7 3 openat_regs (first ∷ []) second quiet refl
      (λ t r. refl) refl (ground arith) kernel-Serves (omega arith) (omega arith)

protected_example :
    Returns
      (Entered 7 quiet
        (both_shown (acc_mode (1 % 2 ^ 32)) (c_string (concat (first ∷ []) second)))
        (writes (acc_mode (1 % 2 ^ 32)) && str_eq (c_string (concat (first ∷ []) second)) protected)
        openat_regs)
      (handle_regs 3 kernel (tracer_cbs λ _. files) 7 openat_regs quiet)
protected_example =
    openat_protected kernel (λ _. files) 7 3 openat_regs (first ∷ []) second quiet (λ _. refl)
      (λ t n. refl) (λ t r. refl) refl (ground arith) kernel-Serves (omega arith) (omega arith)

stopped_example : Settles 7 (handle_stopped 3 kernel (answering no_writes) 7 0 133 quiet)
stopped_example = handle_stopped-Settles kernel no_writes 7 3 (omega arith) 0 133 quiet

-- A second process that opens the same file for writing meanwhile.
unchecked_example :
    let path = c_string (concat (first ∷ []) second) in
    Returns
      (λ r t.
        (r ≡ pos 0)
        × (t.last_syscall ≡ minus_one)
        × (notable t.trace
            ≡ asked (resume 8 0)
              ∷ asked (setregs 8 openat_regs)
              ∷ asked (resume 7 0)
              ∷ asked (
                  setregs 7 (
                    if denies no_writes (acc_mode (1 % 2 ^ 32)) path
                    then record openat_regs { orig_rax = minus_eperm; rax = minus_eperm }
                    else openat_regs))
              ∷ shown_to no_writes (acc_mode (1 % 2 ^ 32)) path []))
      (and_then
        (handle_regs 3 kernel (answering no_writes) 7 openat_regs quiet)
        λ _. handle_regs 3 kernel (answering no_writes) 8 openat_regs)
unchecked_example =
    openat-unchecked kernel (λ t n. refl) no_writes 3 7 8 openat_regs openat_regs (first ∷ [])
      second quiet refl (λ t r. refl) refl refl (ground arith) kernel-Serves (omega arith)
      (omega arith)

-- A system call of one process between the entry and the exit of another one's.
abbrev getpid_regs : Regs
getpid_regs = record openat_regs { orig_rax = 39 }

abbrev overlapping : List (ℕ × Regs)
overlapping = (7, write_regs) ∷ (8, getpid_regs) ∷ (7, write_regs) ∷ (8, getpid_regs) ∷ []

stops_example :
    Returns
      (λ _ t. called t.trace ≡ onto (taken (regs_of overlapping)) [])
      (handle_stops kernel watching 3 overlapping quiet)
stops_example =
    handle_stops-taken kernel watching 3 overlapping quiet {cb = same_regs} (λ t r. refl) refl
      (ground arith, (ground arith, (ground arith, (ground arith, tt)))) refl

-- All four of them are taken for entries.
taken-overlapping :
    taken (regs_of overlapping) ≡ write_regs ∷ getpid_regs ∷ write_regs ∷ getpid_regs ∷ []
taken-overlapping = refl

-- A kernel whose memory has no NUL, and that gives 4096 bytes at most.
abbrev endless : Env
endless = record kernel { peek = λ _ _ _. some first; grant_memory = λ _ n. leb n 4096 }

endless-IsClear : (n read : ℕ) → IsClear endless 7 8192 read (replicate n first)
endless-IsClear zero read = tt
endless-IsClear (suc n) read = (λ t. refl, refl, endless-IsClear n (read + 8))

unread_example :
    Returns
      (Entered 7 quiet (λ es. es) false openat_regs)
      (handle_regs 513 endless (answering no_writes) 7 openat_regs quiet)
unread_example =
    openat-unread 4096 endless (answering no_writes) 7 513 openat_regs (replicate 512 first) quiet
      (λ t n. refl) (omega arith) (omega arith) refl (λ t r. refl) refl (ground arith)
      (endless-IsClear 512 0) (omega arith) (omega arith)
