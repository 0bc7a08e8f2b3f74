-- ===== src/Tracer/Syscalls/Policy.antt =====
-- Which opens the callbacks deny: src/libtracer/tracer.c, syscall_openat and handle_syscalls.
use prom.Prelude.{
  Bool-cases, inl, inr, ℕ, ◌*◌, ◌%◌, ◌^◌, ◌<◌, ◌≡◌, ◌≢◌, refl, ◌∙◌, Bool, true, false, ◌&&◌, ◌||◌,
  Option, none, some, List, ◌∷◌, ◌==◌, if◌then◌else◌, length, arith, ==_false,
}
use prom.Prelude.Int.{ℤ, pos, negsuc}
use prom.Prelude.Bytes.{Bytes}
use prom.Machine.Returns
use prom.Machine.Returns.{Returns, returns}
use prom.Tracer.Env.{
  Request, called_read, called_write, Regs, resume, setregs, asked, Env, Answers, always, answering,
  Tracer, Event, notable,
}
use prom.Tracer.ReadString.{c_string}
use prom.Tracer.ReadString.Total.{Serves, Grants, concat, read_string-Serves}
use prom.Tracer.Syscalls.{
  consult, o_rdonly, o_rdwr, o_wronly, sys_openat, is_minus_one, minus_eperm, open_path,
  syscall_openat, handle_regs, acc_mode,
}

-- A callback that is set and answers -1.
abbrev pub refuses : Option (Bytes → ℤ) → Bytes → Bool
refuses none path = false
refuses (some cb) path = is_minus_one (cb path)

-- An access mode of open(2): 0 reads, 1 writes, 2 does both, and 3 is neither.
abbrev pub reads : ℕ → Bool
reads mode = mode == 0 || mode == 2

abbrev pub writes : ℕ → Bool
writes mode = mode == 1 || mode == 2

-- An open is denied if it reads and the read callback refuses it, or writes and the write
-- callback does.
abbrev pub denies : Answers → ℕ → Bytes → Bool
denies cbs mode path =
    (reads mode && refuses cbs.file_read path) || (writes mode && refuses cbs.file_write path)

-- A callback that is set and that the access mode asks for is called.
abbrev pub calling : Option (Bytes → ℤ) → Event → Bool → List Event → List Event
calling none e wanted es = es
calling (some cb) e wanted es = if wanted then e ∷ es else es

-- The callbacks that an open is shown to, that for reads before that for writes, the newest first
-- and in front of `es`.
abbrev pub shown_to : Answers → ℕ → Bytes → List Event → List Event
shown_to cbs mode path es =
    calling cbs.file_write (called_write path) (writes mode)
      (calling cbs.file_read (called_read path) (reads mode) es)

abbrev pub verdict : Bool → ℤ
verdict deny = if deny then negsuc 0 else pos 0

-- The event is the call of a callback.
abbrev IsCall : Event → Type 0
IsCall e = (es : List Event) → notable (e ∷ es) ≡ e ∷ notable es

consult-refuses :
    (cb : Option (Bytes → ℤ)) (e : Bytes → Event) (path : Bytes) (wanted deny : Bool) (s : Tracer)
    → IsCall (e path)
    → Returns
        (λ d t.
          (d ≡ (deny || (wanted && refuses cb path)))
          × (t.last_syscall ≡ s.last_syscall)
          × (notable t.trace ≡ calling cb (e path) wanted (notable s.trace)))
        (consult (always cb) e path wanted deny s)
consult-refuses none e path true true s call = returns (refl, refl, refl)
consult-refuses none e path true false s call = returns (refl, refl, refl)
consult-refuses none e path false true s call = returns (refl, refl, refl)
consult-refuses none e path false false s call = returns (refl, refl, refl)
consult-refuses (some cb) e path true true s call = returns (ground arith, refl, call s.trace)
consult-refuses (some cb) e path true false s call = returns (ground arith, refl, call s.trace)
consult-refuses (some cb) e path false true s call = returns (refl, refl, refl)
consult-refuses (some cb) e path false false s call = returns (refl, refl, refl)

pub open_path-verdict :
    (cbs : Answers) (regs : Regs) (buffer : Bytes) (s : Tracer)
    → Returns
        (λ r t.
          (r ≡ verdict (denies cbs (acc_mode (regs.rdx % 2 ^ 32)) (c_string buffer)))
          × (t.last_syscall ≡ s.last_syscall)
          × (notable t.trace
              ≡ shown_to cbs (acc_mode (regs.rdx % 2 ^ 32)) (c_string buffer) (notable s.trace)))
        (open_path (answering cbs) regs (some buffer) s)
open_path-verdict cbs regs buffer s =
    let path = c_string buffer in
    let mode = acc_mode (regs.rdx % 2 ^ 32) in
    Returns.bind
      (consult-refuses cbs.file_read called_read path (mode == o_rdonly || mode == o_rdwr) false s
        (λ es. refl))
      λ d t p.
        Returns.bind
          (consult-refuses cbs.file_write called_write path (mode == o_wronly || mode == o_rdwr) d t
            (λ es. refl))
          λ d' t' p'. returns (rw (p'.0, p.0), p'.1 ∙ p.1, rw (p'.2, p.2) refl)

-- What the tracer has done at the entry of an openat: callbacks have been called as in `shown`, the
-- new registers are set and the tracee resumed, and these are its last two requests.
abbrev pub Entered : ℕ → Tracer → (List Event → List Event) → Bool → Regs → ℤ → Tracer → Type 0
Entered pid s shown deny regs r t =
    let done : List Event → List Event = λ before.
      asked (resume pid 0)
      ∷ asked (
          setregs pid
            (if deny then record regs { orig_rax = minus_eperm; rax = minus_eperm } else regs))
      ∷ before in
    (r ≡ pos 0)
    × (t.last_syscall ≡ sys_openat)
    × (before : List Event) × (t.trace ≡ done before)
    × (notable before ≡ shown (notable s.trace))

module _ (k : Env) (grants : Grants k) (cbs : Answers) (pid : ℕ) where
  -- For a path that can be read, syscall_openat calls the callbacks that the access mode asks, and
  -- denies an open exactly if one of them does.
  syscall_openat-verdict :
      (fuel : ℕ) (regs : Regs) (ws : List Bytes) (last : Bytes) (s : Tracer)
      → Serves k pid regs.rsi 0 ws last
      → length ws < fuel
      → 8 * length ws < 2 ^ 60
      → Returns
          (λ r t.
            (r ≡ verdict (denies cbs (acc_mode (regs.rdx % 2 ^ 32)) (c_string (concat ws last))))
            × (t.last_syscall ≡ s.last_syscall)
            × (notable t.trace
                ≡ shown_to cbs
                    (acc_mode (regs.rdx % 2 ^ 32))
                    (c_string (concat ws last))
                    (notable s.trace)))
          (syscall_openat fuel k (answering cbs) pid regs s)
  unfolding syscall_openat
  syscall_openat-verdict fuel regs ws last s served enough small =
      Returns.bind (read_string-Serves k grants pid fuel regs.rsi ws last s served enough small)
        λ r t p. rw (p.0) (
          Returns.mono (open_path-verdict cbs regs (concat ws last) t)
            λ r' t' q. (q.0, q.1 ∙ p.1.0, rw (q.2, p.1.1) refl))

  -- For callbacks that always answer, by the path alone: if the allocator and the kernel grant
  -- every request, no openat is taken to be in progress, no callback for all system calls is set,
  -- and the path can be read to a NUL within the fuel and below 2 ^ 60 bytes, then at the entry of
  -- an openat the callback for reads is called once with that path if it is set and the access mode
  -- reads, and then that for writes likewise; the call is replaced by an invalid one whose result
  -- is -EPERM exactly if they deny the open, and otherwise the registers are set as they were. Then
  -- the tracee runs on, and the call is taken to be in progress.
  pub openat-Entered :
      (fuel : ℕ) (regs : Regs) (ws : List Bytes) (last : Bytes) (s : Tracer)
      → cbs.syscall ≡ none
      → ((t : List Event) (r : Request) → k.grant t r ≡ true)
      → regs.orig_rax ≡ sys_openat
      → s.last_syscall ≢ sys_openat
      → Serves k pid regs.rsi 0 ws last
      → length ws < fuel
      → 8 * length ws < 2 ^ 60
      → Returns
          (Entered pid s
            (shown_to cbs (acc_mode (regs.rdx % 2 ^ 32)) (c_string (concat ws last)))
            (denies cbs (acc_mode (regs.rdx % 2 ^ 32)) (c_string (concat ws last)))
            regs)
          (handle_regs fuel k (answering cbs) pid regs s)
  unfolding handle_regs syscall_openat
  openat-Entered fuel regs ws last s nocb granted nr fresh served enough small =
      simp (nr, ==_false s.last_syscall 257 fresh, nocb)
        (Returns.bind
          (syscall_openat-verdict fuel regs ws last (record s { last_syscall = sys_openat }) served
            enough small)
          λ perm t p.
            elim (Bool-cases
              (denies cbs (acc_mode (regs.rdx % 2 ^ 32)) (c_string (concat ws last)))) [
                | inl deny ↦ simp (p.0, deny, granted) (returns (refl, p.1, t.trace, refl, p.2))
                | inr allow ↦ simp (p.0, allow, granted) (returns (refl, p.1, t.trace, refl, p.2))
              ])
