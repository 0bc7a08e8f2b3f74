-- ===== src/Tracer/Syscalls/Unread.antt =====
-- An openat whose path cannot be read: src/libtracer/tracer.c, syscall_openat.
use prom.Prelude.{
  ℕ, ◌+◌, ◌*◌, ◌^◌, ◌≤◌, ◌<◌, ◌≡◌, ◌≢◌, refl, none, true, false, List, length, ==_false,
}
use prom.Prelude.Int.{pos}
use prom.Prelude.Bytes.{Bytes}
use prom.Machine.Returns
use prom.Machine.Returns.{Returns, returns}
use prom.Tracer.Env.{Regs, Request, Env, Callbacks, Tracer, Event, IsQuiet}
use prom.Tracer.ReadString.Refused.{IsClear, GrantsUpTo, read_string-GivesUp}
use prom.Tracer.Syscalls.{sys_openat, syscall_openat, handle_regs}
use prom.Tracer.Syscalls.Policy.{Entered}

syscall_openat-unread :
    (limit : ℕ) (k : Env) (cbs : Callbacks) (pid fuel : ℕ) (regs : Regs) (ws : List Bytes)
    (s : Tracer)
    → GrantsUpTo limit k
    → limit < 2 ^ 60
    → 4096 ≤ limit
    → IsClear k pid regs.rsi 0 ws
    → length ws < fuel
    → limit < 8 * length ws + 8
    → Returns (λ r t. (r ≡ pos 0) × IsQuiet s t) (syscall_openat fuel k cbs pid regs s)
unfolding syscall_openat
syscall_openat-unread limit k cbs pid fuel regs ws s grants small room clear enough long =
    Returns.bind
      (read_string-GivesUp limit k grants pid small fuel regs.rsi ws s room clear enough long)
      λ path t (none', before, ends, quiet). rw none' (returns (refl, quiet))

-- If the kernel grants every request, no openat is taken to be in progress, no callback for all
-- system calls is set, and the path of an openat has more bytes in front of its NUL than the memory
-- that is granted for it, which is at least 4096 bytes and less than 2 ^ 60, then the call is let
-- through: no callback is asked, whatever the callbacks would answer, its registers are set as they
-- were, and the tracee runs on. The fuel is a round for each word and one more.
pub openat-unread :
    (limit : ℕ) (k : Env) (cbs : Callbacks) (pid fuel : ℕ) (regs : Regs) (ws : List Bytes)
    (s : Tracer)
    → GrantsUpTo limit k
    → limit < 2 ^ 60
    → 4096 ≤ limit
    → cbs.syscall ≡ none
    → ((t : List Event) (r : Request) → k.grant t r ≡ true)
    → regs.orig_rax ≡ sys_openat
    → s.last_syscall ≢ sys_openat
    → IsClear k pid regs.rsi 0 ws
    → length ws < fuel
    → limit < 8 * length ws + 8
    → Returns (Entered pid s (λ es. es) false regs) (handle_regs fuel k cbs pid regs s)
unfolding handle_regs
openat-unread limit k cbs pid fuel regs ws s grants small room nocb granted nr fresh clear enough
      long =
    simp (nr, ==_false s.last_syscall 257 fresh, nocb)
      (Returns.bind
        (syscall_openat-unread limit k cbs pid fuel regs ws (record s { last_syscall = sys_openat })
          grants small room clear enough long)
        λ perm t (allows, quiet).
          simp (allows, granted) (returns (refl, quiet.0, t.trace, refl, quiet.1)))
