-- ===== src/Shell/Start/Child.antt =====
-- The child of the shell, up to its exec: src/shell/shell.c, slave_process.
use prom.Prelude.{
  ℕ, ◌<◌, ◌≡◌, ◌≢◌, refl, false, Option, none, List, [], ◌∷◌, ◌++◌, if◌then◌else◌, arith,
}
use prom.Prelude.Int.{ℤ, pos, eq_ℤ}
use prom.Prelude.Bytes.{Bytes}
use prom.Machine.{Run, exited}
use prom.Tracer.Env.{Env, asked, raise}
use prom.Tracer.Syscalls.{is_minus_one}
use prom.Tracer.Loop.{sigstop, tracee_init}
use prom.Shell.Desk.{
  Vterm, Act, close, dup2, setsid, set_ctty, set_winsize, execlp, log_error, stop_self, Console,
  Desk,
}
use prom.Shell.Start.{shell, slave_process, run_child}

-- The process exits with the status, in a state that satisfies `P`.
pub data Exits {S A : Type 0} (status : ℕ) (P : S → Type 0) : Run S A → Type 0 where
  exits : {s : S} → P s → Exits status P (exited status s)

-- What a descriptor stands for, if it is open.
abbrev pub Table : Type 0 → Type 0
Table F = ℤ → Option F

module _ {F : Type 0} where
  abbrev put : Table F → ℤ → Option F → Table F
  put t fd f fd' = if eq_ℤ fd fd' then f else t fd'

  -- The descriptors after some acts, the newest first: close and dup2 of the system.
  abbrev pub after : List Act → Table F → Table F
  after [] t = t
  after (close fd ∷ acts) t = put (after acts t) fd none
  after (dup2 fd n ∷ acts) t = put (after acts t) (pos n) (after acts t fd)
  after (a ∷ acts) t = after acts t

-- The standard descriptors stand for what `slave` did, `master` and `slave` are closed, and every
-- other descriptor is as it was.
pub record IsWired {F : Type 0} (master slave : ℕ) (before now : Table F) : Type 0 where
  pub input : now (pos 0) ≡ before (pos slave)
  pub output : now (pos 1) ≡ before (pos slave)
  pub error : now (pos 2) ≡ before (pos slave)
  pub no_master : now (pos master) ≡ none
  pub no_slave : now (pos slave) ≡ none
  pub others : (n : ℕ) → 2 < n → n ≢ master → n ≢ slave → now (pos n) ≡ before (pos n)

abbrev pub acts_of : ℕ → ℕ → ℕ → ℕ → List Act
acts_of m n rows cols =
    set_ctty
    ∷ setsid
    ∷ close (pos n)
    ∷ dup2 (pos n) 2
    ∷ dup2 (pos n) 1
    ∷ dup2 (pos n) 0
    ∷ close (pos m)
    ∷ set_winsize (pos n) rows cols
    ∷ stop_self
    ∷ []

acts_of-IsWired :
    {F : Type 0} (m n rows cols : ℕ) (t : Table F)
    → 2 < m
    → 2 < n
    → m ≢ n
    → IsWired m n t (after (acts_of m n rows cols) t)
acts_of-IsWired m n rows cols t above above' other = record {
  input = ground arith;
  output = ground arith;
  error = ground arith;
  no_master = ground arith;
  no_slave = ground arith;
  others = λ j gt ne ne'. ground arith;
}

module _ {T : Type 0} (v : Vterm T) (k : Console) (kernel : Env) (fuel : ℕ) where
  -- The child of the shell, with the master and the slave on descriptors above 2 that differ, first
  -- stops itself for the tracer, before any other call, and once. If setsid and the ioctl for the
  -- terminal do not fail, it has given the slave the size of the window and then runs bash with the
  -- slave as its standard input, output and error, with neither descriptor of the pseudo terminal
  -- left open and every other descriptor as it was. It neither frees the terminal nor gives the
  -- screen back; if exec returns, it logs one error and exits with 1.
  pub run_child-IsWired :
      {F : Type 0} (s : Desk T) (m n : ℕ) (t : Table F)
      → s.fd_master ≡ pos m
      → s.fd_slave ≡ pos n
      → 2 < m
      → 2 < n
      → m ≢ n
      → ((acts : List Act) → is_minus_one (k.answer acts setsid) ≡ false)
      → ((acts : List Act) → is_minus_one (k.answer acts set_ctty) ≡ false)
      → Exits 1
          (λ u.
            (message : Bytes) × (u.trace
              ≡ log_error message ∷ execlp shell ∷ acts_of m n s.rows s.cols ++ s.trace)
            × IsWired m n t (after (acts_of m n s.rows s.cols) t)
            × (u.tracer.trace ≡ asked (raise sigstop) ∷ s.tracer.trace))
          (run_child v k kernel fuel s)
  unfolding slave_process tracee_init
  run_child-IsWired s m n t master slave above above' other session terminal =
      simp (master, slave, session, terminal)
        (exits (_, refl, acts_of-IsWired m n s.rows s.cols t above above' other, refl))
