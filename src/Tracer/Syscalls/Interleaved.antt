-- ===== src/Tracer/Syscalls/Interleaved.antt =====
-- Two processes that enter the same call: src/libtracer/tracer.c, last_syscall.
use prom.Prelude.{
  ℕ, ◌*◌, ◌^◌, ◌<◌, ◌%◌, ◌≡◌, ◌≢◌, refl, ◌∙◌, sym, none, true, List, ◌∷◌, length, if◌then◌else◌,
}
use prom.Prelude.Int.{pos}
use prom.Prelude.Bytes.{Bytes}
use prom.Machine.{and_then}
use prom.Machine.Returns
use prom.Machine.Returns.{Returns, returns}
use prom.Tracer.Env.{
  Regs, Request, resume, setregs, asked, Env, Answers, answering, Tracer, Event, minus_one, notable,
}
use prom.Tracer.ReadString.{c_string}
use prom.Tracer.ReadString.Total.{Serves, Grants, concat}
use prom.Tracer.Syscalls.{sys_openat, minus_eperm, handle_regs, acc_mode}
use prom.Tracer.Syscalls.Policy.{denies, shown_to, openat-Entered}
use prom.Tracer.Syscalls.Alternation.{handle_regs-exit}

module _ (k : Env) (grants : Grants k) (cbs : Answers) where
  -- For callbacks that always answer, by the path alone: if the allocator and the kernel grant
  -- every request, no openat is taken to be in progress, no callback for all system calls is set,
  -- and a first process enters an openat whose path can be read to a NUL within the fuel and below
  -- 2 ^ 60 bytes, then an openat that a second process enters at the very next stop, and so before
  -- the first one's exit, is let through, whatever its path and its mode: no callback is asked but
  -- those that the first one's open is shown to, its registers are set as they were, and it runs
  -- on; and no call is taken to be in progress then.
  pub openat-unchecked :
      (fuel one two : ℕ) (regs regs' : Regs) (ws : List Bytes) (last : Bytes) (s : Tracer)
      → cbs.syscall ≡ none
      → ((t : List Event) (r : Request) → k.grant t r ≡ true)
      → regs.orig_rax ≡ sys_openat
      → regs'.orig_rax ≡ sys_openat
      → s.last_syscall ≢ sys_openat
      → Serves k one regs.rsi 0 ws last
      → length ws < fuel
      → 8 * length ws < 2 ^ 60
      → let path = c_string (concat ws last) in
        let mode = acc_mode (regs.rdx % 2 ^ 32) in
        Returns
          (λ r t.
            (r ≡ pos 0)
            × (t.last_syscall ≡ minus_one)
            × (notable t.trace
                ≡ asked (resume two 0)
                  ∷ asked (setregs two regs')
                  ∷ asked (resume one 0)
                  ∷ asked (
                      setregs one (
                        if denies cbs mode path
                        then record regs { orig_rax = minus_eperm; rax = minus_eperm }
                        else regs))
                  ∷ shown_to cbs mode path (notable s.trace)))
          (and_then
            (handle_regs fuel k (answering cbs) one regs s)
            λ _. handle_regs fuel k (answering cbs) two regs')
  openat-unchecked fuel one two regs regs' ws last s nocb granted nr nr' fresh served enough small =
      Returns.bind
        (openat-Entered k grants cbs one fuel regs ws last s nocb granted nr fresh served enough
          small)
        λ r t (allowed, seen, before, e, shown).
          rw (handle_regs-exit k (answering cbs) two fuel regs' t granted (nr' ∙ sym seen))
            (returns (refl, refl, rw (e, shown) refl))
