-- ===== src/Tracer/Loop/Resumes.antt =====
-- How a stop ends: src/libtracer/tracer.c, handle_stopped and what it calls.
use prom.Prelude.{
  ℕ, ◌+◌, ◌*◌, ◌^◌, ◌<◌, ◌≡◌, refl, ◌⊎◌, inl, inr, Bool, true, false, ◌==◌, Option, none, some,
  List, ◌∷◌, if◌then◌else◌, Bool-cases,
}
use prom.Prelude.Int.{ℤ, pos, negsuc}
use prom.Prelude.Bytes.{Bytes}
use prom.Machine.{Run, Cmd, ok, aborted, faulted, exited, stuck, and_then}
use prom.Machine.Returns.{Returns, returns}
use prom.Tracer.Env.{
  Regs, GotRegs, resume, setregs, asked, Env, Answers, answering, Tracer, Event, log, got_regs, ask,
}
use prom.Tracer.ReadString.Bounds.{IsSafe, read_string-IsSafe}
use prom.Tracer.ReadString.{read_string}
use prom.Tracer.Syscalls.{
  is_minus_one, open_path, syscall_openat, handle_regs, handle_syscalls, next, denied, run_callback,
  with_regs,
}
use prom.Tracer.Syscalls.Policy.{open_path-verdict}
use prom.Tracer.Loop.{handle_stopped, sigtrap, sigcont}

-- The last thing that happened is that the process was told to run on.
abbrev pub IsResumed : ℕ → Tracer → Type 0
IsResumed pid t = (sig : ℕ) × (before : List Event) × (t.trace ≡ asked (resume pid sig) ∷ before)

-- The run returns -1 or leaves the process resumed, or is still running when its fuel is spent.
abbrev pub Settles : ℕ → Run Tracer ℤ → Type 0
Settles pid (ok r t) = (r ≡ negsuc 0) ⊎ IsResumed pid t
Settles pid aborted = ⊥
Settles pid faulted = ⊥
Settles pid (exited n s) = ⊥
Settles pid stuck = Unit

Settles-bind :
    (pid : ℕ) {A : Type 0} (r : Run Tracer A) (f : A → Cmd Tracer ℤ)
    → IsSafe r
    → ((a : A) (t : Tracer) → Settles pid (f a t))
    → Settles pid (and_then r f)
Settles-bind pid (ok a t) f safe go = go a t
Settles-bind pid aborted f safe go = safe
Settles-bind pid faulted f safe go = safe
Settles-bind pid (exited n t) f safe go = safe
Settles-bind pid stuck f safe go = tt

IsSafe-Returns : {A : Type 0} {P : A → Tracer → Type 0} {r : Run Tracer A} → Returns P r → IsSafe r
IsSafe-Returns (returns p) = tt

IsSafe-and_then :
    {A B : Type 0} (r : Run Tracer A) (f : A → Cmd Tracer B)
    → IsSafe r
    → ((a : A) (t : Tracer) → IsSafe (f a t))
    → IsSafe (and_then r f)
IsSafe-and_then (ok a t) f safe go = go a t
IsSafe-and_then aborted f safe go = safe
IsSafe-and_then faulted f safe go = safe
IsSafe-and_then (exited n t) f safe go = safe
IsSafe-and_then stuck f safe go = tt

module _ (k : Env) (cbs : Answers) (pid fuel : ℕ) (small : 8 * fuel < 2 ^ 60) where
  open_path-IsSafe :
      (regs : Regs) (path : Option Bytes) (s : Tracer)
      → IsSafe (open_path (answering cbs) regs path s)
  open_path-IsSafe regs none s = tt
  open_path-IsSafe regs (some buffer) s = IsSafe-Returns (open_path-verdict cbs regs buffer s)

  syscall_openat-IsSafe :
      (regs : Regs) (s : Tracer) → IsSafe (syscall_openat fuel k (answering cbs) pid regs s)
  unfolding syscall_openat
  syscall_openat-IsSafe regs s =
      IsSafe-and_then (read_string fuel k pid regs.rsi s) (open_path (answering cbs) regs)
        (read_string-IsSafe k pid fuel regs.rsi s small) (open_path-IsSafe regs)

  openat_if-IsSafe :
      (b : Bool) (regs : Regs) (s : Tracer)
      → IsSafe ((if b then syscall_openat fuel k (answering cbs) pid regs else ok (pos 0)) s)
  openat_if-IsSafe true regs s = syscall_openat-IsSafe regs s
  openat_if-IsSafe false regs s = tt

  next-Settles : (s : Tracer) → Settles pid (next k pid s)
  next-Settles s = inr (0, s.trace, refl)

  run_callback-IsSafe :
      (cb : Option (Regs → Regs)) (b : Bool) (regs : Regs) (s : Tracer)
      → IsSafe (run_callback cb b regs s)
  run_callback-IsSafe none b regs s = tt
  run_callback-IsSafe (some cb) true regs s = tt
  run_callback-IsSafe (some cb) false regs s = tt

  set_and_go :
      (regs : Regs) (s : Tracer)
      → Settles pid (
          and_then
            (ask k (setregs pid regs) s)
            (λ set. if is_minus_one set then ok (negsuc 0) else next k pid))
  set_and_go regs s = elim (Bool-cases (k.grant s.trace (setregs pid regs))) [
    | inl granted ↦ rw granted (inr (0, asked (setregs pid regs) ∷ s.trace, refl))
    | inr refused ↦ rw refused (inl refl)
  ]

  handle_regs-Settles :
      (regs : Regs) (s : Tracer) → Settles pid (handle_regs fuel k (answering cbs) pid regs s)
  unfolding handle_regs
  handle_regs-Settles regs s =
      Settles-bind pid _ _ (run_callback-IsSafe cbs.syscall _ regs _) λ regs' t.
        Settles-bind pid _ _ (openat_if-IsSafe _ regs' t) λ perm u. set_and_go (denied perm regs') u

  with_regs-Settles :
      (got : GotRegs) (s : Tracer) → Settles pid (with_regs fuel k (answering cbs) pid got s)
  with_regs-Settles (GotRegs.regs r) s = handle_regs-Settles r s
  with_regs-Settles (GotRegs.errno e) s = elim (Bool-cases (e == 3)) [
    | inl gone ↦ rw gone (inl refl)
    | inr other ↦ rw other (next-Settles s)
  ]

  -- Whatever the kernel and the allocator answer, and callbacks that always answer, by the path
  -- alone, with a fuel below 2 ^ 57 a stop of a process is handled without a fault and without
  -- ending the tracer, and if the handler returns anything but -1 then its last request lets the
  -- process run on. (The read of a path may take longer than the fuel.)
  pub handle_stopped-Settles :
      (event sig : ℕ) (s : Tracer)
      → Settles pid (handle_stopped fuel k (answering cbs) pid event sig s)
  unfolding handle_stopped handle_syscalls
  handle_stopped-Settles event sig s = elim (Bool-cases (sig == sigtrap)) [
    | inl trap ↦ rw trap (next-Settles s)
    | inr rest ↦ rw rest (elim (Bool-cases (sig == 5 + 0x80)) [
      | inl sys ↦ rw sys (with_regs-Settles (k.get_regs s.trace pid) (log (got_regs pid) s))
      | inr rest' ↦ rw rest' (elim (Bool-cases (sig == sigcont)) [
        | inl cont ↦ rw cont (next-Settles s)
        | inr other ↦ rw other (inr (sig, s.trace, refl))
      ])
    ])
  ]
