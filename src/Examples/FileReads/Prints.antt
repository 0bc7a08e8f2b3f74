-- ===== src/Examples/FileReads/Prints.antt =====
-- What src/libtracer/examples/trace_file_reads.c prints for a process that opens files.
use prom.Prelude.{
  ℕ, zero, suc, ◌*◌, ◌%◌, ◌^◌, ◌≤◌, ◌<◌, ◌≡◌, ◌≢◌, refl, sym, ap, ◌∙◌, true, none, List, [], ◌∷◌,
  ◌++◌, length, if◌then◌else◌, arith, Bool-cases, inl, inr, le→ltb,
}
use mathlib.Core.List.{append_assoc, append-nil}
use prom.Prelude.Int.{ℤ, pos}
use prom.Prelude.Bytes.{Bytes}
use prom.Machine.Returns
use prom.Machine.Returns.{Returns, returns}
use prom.Tracer.Env.{
  answering, Regs, GotRegs, Request, Env, Tracer, Event, Wait, changed, notable, waited, asked,
  got_regs, peeked, allocated, freed, called_syscall, called_read, called_write, minus_one,
}
use prom.Tracer.ReadString.{c_string}
use prom.Tracer.ReadString.Total.{Serves, Grants, concat}
use prom.Tracer.Syscalls.{sys_openat, acc_mode}
use prom.Tracer.Syscalls.Policy.{reads, shown_to, openat-Entered}
use prom.Tracer.Syscalls.Alternation.{handle_regs-exit}
use prom.Tracer.Loop.{tracer_init, tracer_loop}
use prom.Tracer.Loop.AtSyscall.{at_syscall, tracer_loop-at_syscall, tracer_loop-failed}
use prom.Examples.FileReads.{read_line, printed, tracer_cbs, trace_loop, trace_main, in_parent}

-- How often the tracer has waited.
abbrev pub waits : List Event → ℕ
waits [] = 0
waits (waited ∷ es) = suc (waits es)
waits (asked r ∷ es) = waits es
waits (got_regs pid ∷ es) = waits es
waits (peeked pid a ∷ es) = waits es
waits (allocated n ∷ es) = waits es
waits (freed ∷ es) = waits es
waits (called_syscall r ∷ es) = waits es
waits (called_read path ∷ es) = waits es
waits (called_write path ∷ es) = waits es

waits-notable : (es : List Event) → waits (notable es) ≡ waits es
waits-notable [] = refl
waits-notable (waited ∷ es) = ap suc (waits-notable es)
waits-notable (asked r ∷ es) = waits-notable es
waits-notable (got_regs pid ∷ es) = waits-notable es
waits-notable (peeked pid a ∷ es) = waits-notable es
waits-notable (allocated n ∷ es) = waits-notable es
waits-notable (freed ∷ es) = waits-notable es
waits-notable (called_syscall r ∷ es) = waits-notable es
waits-notable (called_read path ∷ es) = waits-notable es
waits-notable (called_write path ∷ es) = waits-notable es

printed-notable : (es : List Event) → printed (notable es) ≡ printed es
printed-notable [] = refl
printed-notable (waited ∷ es) = printed-notable es
printed-notable (asked r ∷ es) = printed-notable es
printed-notable (got_regs pid ∷ es) = printed-notable es
printed-notable (peeked pid a ∷ es) = printed-notable es
printed-notable (allocated n ∷ es) = printed-notable es
printed-notable (freed ∷ es) = printed-notable es
printed-notable (called_syscall r ∷ es) = printed-notable es
printed-notable (called_read path ∷ es) = ap (λ o. o ++ read_line path) (printed-notable es)
printed-notable (called_write path ∷ es) = printed-notable es

-- An openat of the traced process: the registers at its two stops, and the words of its path.
pub record Open : Type 0 where
  pub entry : Regs
  pub leave : Regs
  pub words : List Bytes
  pub last : Bytes

abbrev pub path_of : Open → Bytes
path_of o = c_string (concat o.words o.last)

abbrev pub mode_of : Open → ℕ
mode_of o = acc_mode (o.entry.rdx % 2 ^ 32)

-- After `n` calls of waitpid the process makes the opens, one after the other, and then there is
-- nothing left to wait for.
abbrev pub Makes : ℕ → Env → ℕ → ℕ → List Open → Type 0
Makes fuel k pid n [] = (t : List Event) → waits t ≡ n → k.wait t ≡ Wait.failed
Makes fuel k pid n (o ∷ os) =
    ((t : List Event) → waits t ≡ n → k.wait t ≡ changed pid at_syscall)
    × ((t : List Event) → waits t ≡ suc n → k.get_regs t pid ≡ GotRegs.regs o.entry)
    × ((t : List Event) → waits t ≡ suc n → k.wait t ≡ changed pid at_syscall)
    × ((t : List Event) → waits t ≡ suc (suc n) → k.get_regs t pid ≡ GotRegs.regs o.leave)
    × (o.entry.orig_rax ≡ sys_openat)
    × (o.leave.orig_rax ≡ sys_openat)
    × Serves k pid o.entry.rsi 0 o.words o.last
    × (length o.words < fuel)
    × (8 * length o.words < 2 ^ 60)
    × Makes fuel k pid (suc (suc n)) os

abbrev pub line_of : Open → Bytes
line_of o = if reads (mode_of o) then read_line (path_of o) else []

-- A line for each file that is opened for reading, in the order of the opens.
abbrev pub report : List Open → Bytes
report [] = []
report (o ∷ os) = line_of o ++ report os

printed-shown :
    (o : Open) (es : List Event)
    → printed (shown_to tracer_cbs (mode_of o) (path_of o) es) ≡ printed es ++ line_of o
unfolding tracer_cbs
printed-shown o es = elim (Bool-cases (reads (mode_of o))) [
  | inl shown ↦ rw shown refl
  | inr not_shown ↦ rw not_shown (sym (append-nil (printed es)))
]

waits-shown :
    (o : Open) (es : List Event) → waits (shown_to tracer_cbs (mode_of o) (path_of o) es) ≡ waits es
unfolding tracer_cbs
waits-shown o es = elim (Bool-cases (reads (mode_of o))) [
  | inl shown ↦ rw shown refl
  | inr not_shown ↦ rw not_shown refl
]

tracer_cbs-syscall : tracer_cbs.syscall ≡ none
unfolding tracer_cbs
tracer_cbs-syscall = refl

module _ (fuel : ℕ) (k : Env) (pid : ℕ) (grants : Grants k)
    (granted : (t : List Event) (r : Request) → k.grant t r ≡ true) where
  -- An open is over: two more waits, what has been printed, and no call in progress.
  abbrev Passed : Open → Tracer → ℤ → Tracer → Type 0
  Passed o s r t =
      (r ≡ pos 0)
      × (t.last_syscall ≡ minus_one)
      × (waits t.trace ≡ suc (suc (waits s.trace)))
      × (printed t.trace ≡ printed s.trace ++ line_of o)

  -- The rounds of the entry and of the exit of an open.
  open_rounds :
      (o : Open) (os : List Open) (s : Tracer)
      → Makes fuel k pid (waits s.trace) (o ∷ os)
      → s.last_syscall ≢ sys_openat
      → Returns
          (λ r t. (r ≡ pos 0) × Returns (Passed o s) (tracer_loop fuel k (answering tracer_cbs) t))
          (tracer_loop fuel k (answering tracer_cbs) s)
  open_rounds o os s (stop, got, stop', got', nr, nr', served, enough, small, more) fresh =
      rw
        (tracer_loop-at_syscall fuel k pid (answering tracer_cbs) o.entry s (stop s.trace refl)
          (got _ refl))
        (Returns.mono
          (openat-Entered k grants tracer_cbs pid fuel o.entry o.words o.last
            (record s { trace = got_regs pid ∷ waited ∷ s.trace }) tracer_cbs-syscall granted nr
            fresh served enough small)
          λ r t (allowed, seen, before, e, shown).
            let woken = got_regs pid ∷ waited ∷ s.trace in
            let count : waits t.trace ≡ suc (waits s.trace) =
              ap waits e
              ∙ sym (waits-notable before)
              ∙ ap waits shown
              ∙ waits-shown o (notable woken)
              ∙ waits-notable woken in
            let output : printed t.trace ≡ printed s.trace ++ line_of o =
              ap printed e
              ∙ sym (printed-notable before)
              ∙ ap printed shown
              ∙ printed-shown o (notable woken)
              ∙ ap (λ out. out ++ line_of o) (printed-notable woken) in
            (
              allowed,
              rw
                  (
                    tracer_loop-at_syscall fuel k pid (answering tracer_cbs) o.leave t
                        (stop' t.trace count) (got' _ (ap suc count)),
                    handle_regs-exit k (answering tracer_cbs) pid fuel o.leave
                        (record t { trace = got_regs pid ∷ waited ∷ t.trace }) granted
                        (nr' ∙ sym seen),
                  )
                  (returns (refl, refl, ap suc count, output)),
            ))

  trace_loop-prints :
      (os : List Open) (rounds : ℕ) (s : Tracer)
      → Makes fuel k pid (waits s.trace) os
      → s.last_syscall ≢ sys_openat
      → 2 * length os < rounds
      → Returns
          (λ r t. (r ≡ pos 0) × (printed t.trace ≡ printed s.trace ++ report os))
          (trace_loop fuel k rounds s)
  unfolding trace_loop
  trace_loop-prints [] zero s makes fresh enough = absurd (omega arith)
  trace_loop-prints [] (suc rounds) s makes fresh enough =
      rw (tracer_loop-failed fuel k (answering tracer_cbs) s (makes s.trace refl))
        (returns (refl, sym (append-nil (printed s.trace))))
  trace_loop-prints (o ∷ os) zero s makes fresh enough = absurd (omega arith)
  trace_loop-prints (o ∷ os) (suc zero) s makes fresh enough = absurd (omega arith)
  trace_loop-prints (o ∷ os) (suc (suc rounds)) s makes fresh enough =
      Returns.bind (open_rounds o os s makes fresh) λ r t (allowed, second). rw allowed (
        Returns.bind second λ r' t' (over, idle, count, output). rw over (
          Returns.mono
            (trace_loop-prints os rounds t' (rw count (makes.9)) (ground arith) (omega arith))
            λ r'' u (ends, out). (
              ends,
              out
                  ∙ ap (λ x. x ++ report os) output
                  ∙ append_assoc (printed s.trace) (line_of o) (report os),
            )))

  -- If the kernel and the allocator grant every request and the traced process makes some opens one
  -- after the other, each with a path that can be read to a NUL within the fuel and below 2 ^ 60
  -- bytes, and is then gone, the program, given a command and with two rounds for each open and one
  -- more, ends with 0, and has printed one line for each of the opens that reads, with its path, in
  -- their order, and nothing else.
  pub trace_main-report :
      (os : List Open) (rounds argc : ℕ)
      → 2 ≤ argc
      → Makes fuel k pid 1 os
      → 2 * length os < rounds
      → Returns
          (λ r t. (r ≡ pos 0) × (printed t.trace ≡ report os))
          (trace_main fuel k rounds argc
            (in_parent pid)
            (record { last_syscall = minus_one; trace = [] }))
  unfolding trace_main tracer_init
  trace_main-report os rounds argc command makes enough =
      simp (le→ltb argc 2 command, granted)
        (trace_loop-prints os rounds _ makes (ground arith) enough)
