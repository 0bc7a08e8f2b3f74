-- ===== src/Tracer/Syscalls/Alternation.antt =====
-- Entry and exit stops, and the variable last_syscall: src/libtracer/tracer.c,
-- handle_syscalls.
use prom.Prelude.{
  ◌==◌, Bool-cases, inl, inr, Option, and-false, ℕ, ◌≡◌, ◌≢◌, refl, none, some, true, false, List,
  [], ◌∷◌, ==_refl, ==_false, arith,
}
use prom.Prelude.Int.{ℤ, pos}
use prom.Machine.{Cmd, ok, and_then}
use prom.Machine.Returns.{Returns, returns}
use prom.Tracer.Env.{
  Regs, resume, setregs, asked, called_syscall, Env, Callbacks, Tracer, minus_one, Event, Request,
}
use prom.Tracer.Syscalls.{run_callback, sys_openat, handle_regs}

-- The registers that the callback for all system calls was given, the newest first.
abbrev pub called : List Event → List Regs
called [] = []
called (called_syscall r ∷ es) = r ∷ called es
called (e ∷ es) = called es

-- No call is an openat or has the number -1, and each exit shows its entry's number.
abbrev Paired : List (Regs × Regs) → Type 0
Paired [] = Unit
Paired ((before, after) ∷ calls) =
    (before.orig_rax ≢ minus_one)
    × (before.orig_rax ≢ sys_openat)
    × (after.orig_rax ≡ before.orig_rax)
    × Paired calls

-- The entries of some calls, put in front of `seen` in the order of a trace.
abbrev entries : List (Regs × Regs) → List Regs → List Regs
entries [] seen = seen
entries ((before, after) ∷ calls) seen = entries calls (before ∷ seen)

module _ (k : Env) (cbs : Callbacks) (pid : ℕ) where
  run_callback-exit :
      (cb : Option (Regs → Regs)) (regs : Regs) (s : Tracer)
      → run_callback cb false regs s ≡ ok regs s
  run_callback-exit none regs s = refl
  run_callback-exit (some cb) regs s = refl

  -- If the kernel grants every request, a stop whose call number is the one last seen counts as
  -- an exit, whichever process it is of: no callback runs, the registers are set as they were,
  -- the process runs on, and no call is taken to be in progress.
  pub handle_regs-exit :
      (fuel : ℕ) (regs : Regs) (s : Tracer)
      → ((t : List Event) (r : Request) → k.grant t r ≡ true)
      → regs.orig_rax ≡ s.last_syscall
      → handle_regs fuel k cbs pid regs s
        ≡ ok (pos 0) (record {
          last_syscall = minus_one;
          trace = asked (resume pid 0) ∷ asked (setregs pid regs) ∷ s.trace;
        })
  unfolding handle_regs
  handle_regs-exit fuel regs s granted same =
      simp (same, ==_refl, run_callback-exit, and-false, granted)

  -- If the kernel grants every request, a stop with the call number -1, as the exit of a denied
  -- open has, is never taken for an entry, whatever call was seen last: no callback runs, the
  -- registers are set as they were, the process runs on, and no call is taken to be in progress.
  pub handle_regs-denied :
      (fuel : ℕ) (regs : Regs) (s : Tracer)
      → ((t : List Event) (r : Request) → k.grant t r ≡ true)
      → regs.orig_rax ≡ minus_one
      → handle_regs fuel k cbs pid regs s
        ≡ ok (pos 0) (record {
          last_syscall = minus_one;
          trace = asked (resume pid 0) ∷ asked (setregs pid regs) ∷ s.trace;
        })
  unfolding handle_regs
  handle_regs-denied fuel regs s granted invalid = elim (Bool-cases (s.last_syscall == minus_one)) [
    | inl same ↦ simp (invalid, same, run_callback-exit, granted)
    | inr other ↦ simp (invalid, other, run_callback-exit, granted)
  ]

  -- The stops of one process: each call has an entry and an exit.
  abbrev handle_calls : ℕ → List (Regs × Regs) → Cmd Tracer ℤ
  handle_calls fuel [] = ok (pos 0)
  handle_calls fuel ((before, after) ∷ calls) = λ s.
      and_then (handle_regs fuel k cbs pid before s)
        λ _ t. and_then (handle_regs fuel k cbs pid after t) λ _. handle_calls fuel calls

  pub handle_regs-entry :
      (fuel : ℕ) (regs : Regs) (s : Tracer) {cb : Regs → Regs}
      → ((t : List Event) (r : Request) → k.grant t r ≡ true)
      → cbs.syscall ≡ some cb
      → s.last_syscall ≢ regs.orig_rax
      → regs.orig_rax ≢ minus_one
      → regs.orig_rax ≢ sys_openat
      → handle_regs fuel k cbs pid regs s
        ≡ ok (pos 0) (record {
          last_syscall = regs.orig_rax;
          trace =
              asked (resume pid 0) ∷ asked (setregs pid (cb regs)) ∷ called_syscall regs ∷ s.trace;
        })
  unfolding handle_regs
  handle_regs-entry fuel regs s granted set fresh real other = simp (
    ==_false s.last_syscall regs.orig_rax fresh,
    ==_false regs.orig_rax minus_one real,
    ==_false regs.orig_rax sys_openat other,
    set,
    granted,
  )

  -- If the kernel grants every request and no call is taken to be in progress, then over any
  -- sequence of system calls of one process, none of which is an openat or has the number -1 and
  -- each of which shows its number at its exit again, the callback for all system calls is given
  -- the registers of every entry, once and in order, and of no exit; at the end no call is taken
  -- to be in progress.
  handle_calls-entries :
      (fuel : ℕ) (calls : List (Regs × Regs)) (s : Tracer) {cb : Regs → Regs}
      → ((t : List Event) (r : Request) → k.grant t r ≡ true)
      → cbs.syscall ≡ some cb
      → Paired calls
      → s.last_syscall ≡ minus_one
      → Returns
          (λ _ t. (t.last_syscall ≡ minus_one) × (called t.trace ≡ entries calls (called s.trace)))
          (handle_calls fuel calls s)
  handle_calls-entries fuel [] s granted set paired idle = returns (idle, refl)
  handle_calls-entries fuel ((before, after) ∷ calls) s {cb} granted set (real, other, same, more)
        idle =
      let t : Tracer = record {
        last_syscall = before.orig_rax;
        trace =
            asked (resume pid 0)
            ∷ asked (setregs pid (cb before))
            ∷ called_syscall before
            ∷ s.trace;
      } in
      rw
        (
          handle_regs-entry fuel before s granted set (ground arith) real other,
          handle_regs-exit fuel after t granted same,
        )
        (handle_calls-entries fuel calls
          (record {
            last_syscall = minus_one;
            trace = asked (resume pid 0) ∷ asked (setregs pid after) ∷ t.trace;
          })
          granted set more refl)
