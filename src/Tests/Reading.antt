-- ===== src/Tests/Reading.antt =====
-- The program that prints the files which are read: src/libtracer/examples/trace_file_reads.c.
use prom.Prelude.{◌≡◌, refl, true, some, List, [], ◌∷◌, arith, leb, ◌==◌, if◌then◌else◌}
use prom.Prelude.Int.{pos}
use prom.Prelude.Bytes.{codes}
use prom.Machine.Returns.{Returns}
use prom.Tracer.Env.{Env, Regs, GotRegs, Wait, changed, minus_one}
use prom.Tracer.Loop.AtSyscall.{at_syscall}
use prom.Examples.FileReads.{printed, trace_main, in_parent}
use prom.Examples.FileReads.Prints.{waits, Open, Makes, report, trace_main-report}

-- openat(…, 8192, O_RDONLY), and the same of another path for writing
abbrev read_regs : Regs
read_regs = record { orig_rax = 257; rax = 0; rdi = 0; rsi = 8192; rdx = 0 }

abbrev write_regs : Regs
write_regs = record { orig_rax = 257; rax = 0; rdi = 0; rsi = 4096; rdx = 1 }

abbrev kernel : Env
kernel = record {
  wait = λ t. if leb (waits t) 4 then changed 7 at_syscall else Wait.failed;
  grant = λ _ _. true;
  get_regs = λ t _. GotRegs.regs (if leb (waits t) 3 then read_regs else write_regs);
  peek = λ _ _ a.
      if a == 8192
      then some (codes "notes.tx")
      else if a == 8200
      then some (codes "t\0......")
      else some (codes "out\0....");
  grant_memory = λ _ _. true;
}

abbrev opens : List Open
opens =
    record {
      entry = read_regs;
      leave = read_regs;
      words = codes "notes.tx" ∷ [];
      last = codes "t\0......";
    }
    ∷ record { entry = write_regs; leave = write_regs; words = []; last = codes "out\0...." }
    ∷ []

kernel-Makes : Makes 3 kernel 7 1 opens
kernel-Makes = (
  λ t e. rw e refl,
  λ t e. rw e refl,
  λ t e. rw e refl,
  λ t e. rw e refl,
  refl,
  refl,
  (λ t. refl, refl, (λ t. refl, refl)),
  omega arith,
  omega arith,
  (
    λ t e. rw e refl,
    λ t e. rw e refl,
    λ t e. rw e refl,
    λ t e. rw e refl,
    refl,
    refl,
    (λ t. refl, refl),
    omega arith,
    omega arith,
    λ t e. rw e refl,
  ),
)

-- Only the first of the two files is read.
report-opens : report opens ≡ codes "READ_CB::notes.txt\n"
report-opens = refl

trace_main_example :
    Returns
      (λ r t. (r ≡ pos 0) × (printed t.trace ≡ report opens))
      (trace_main 3 kernel 5 2 (in_parent 7) (record { last_syscall = minus_one; trace = [] }))
trace_main_example =
    trace_main-report 3 kernel 7 (λ t n. refl) (λ t r. refl) opens 5 2 (omega arith) kernel-Makes
      (omega arith)
