-- ===== src/Examples/FileReads.antt =====
-- A program that prints the files that another one opens for reading:
-- src/libtracer/examples/trace_file_reads.c.
pub mod Prints
use prom.Prelude.{ℕ, zero, suc, none, some, List, [], ◌∷◌, ◌++◌, ltb, if◌then◌else◌}
use prom.Prelude.Int.{ℤ, pos, negsuc}
use prom.Prelude.Bytes.{Bytes, codes}
use prom.Machine.{Cmd, stuck, pure, ◌>>=◌, ◌>>◌}
use prom.Tracer.Env.{
  Env, Answers, answering, Tracer, Event, waited, asked, got_regs, peeked, allocated, freed,
  called_syscall, called_read, called_write,
}
use prom.Tracer.Syscalls.{is_minus_one}
use prom.Tracer.Loop.{tracee_init, tracer_init, tracer_loop}

-- The result of read_cb, and the line that it prints; the tracer that calls it has no files.
unfoldable pub read_cb : Bytes → ℤ
read_cb path = pos 0

abbrev pub read_line : Bytes → Bytes
read_line path = codes "READ_CB::" ++ path ++ codes "\n"

-- What read_cb has printed in the course of a trace, the oldest line first.
abbrev pub printed : List Event → Bytes
printed [] = []
printed (called_read path ∷ es) = printed es ++ read_line path
printed (waited ∷ es) = printed es
printed (asked r ∷ es) = printed es
printed (got_regs pid ∷ es) = printed es
printed (peeked pid a ∷ es) = printed es
printed (allocated n ∷ es) = printed es
printed (freed ∷ es) = printed es
printed (called_syscall r ∷ es) = printed es
printed (called_write path ∷ es) = printed es

-- What is not set is NULL.
unfoldable pub tracer_cbs : Answers
tracer_cbs = record { file_read = some read_cb; file_write = none; syscall = none }

-- What fork answers.
pub data Forked : Type 0 where
  no_child : Forked
  in_child : Forked
  in_parent : ℕ → Forked

module _ (fuel : ℕ) (k : Env) where
  -- The endless loop, by the rounds that it is given.
  unfoldable pub trace_loop : ℕ → Cmd Tracer ℤ
  trace_loop zero = λ _. stuck
  trace_loop (suc rounds) = do
    ret ← tracer_loop fuel k (answering tracer_cbs)
    let rest = trace_loop rounds
    if is_minus_one ret then pure (pos 0) else rest

  unfoldable pub behind_fork : ℕ → Forked → Cmd Tracer ℤ
  unfolding trace_loop
  behind_fork rounds no_child = pure (pos 1)
  -- behind an execlp that failed
  behind_fork rounds in_child = do tracee_init k; pure (negsuc 0)
  -- the result of tracer_init is not looked at
  behind_fork rounds (in_parent pid) = do tracer_init k pid; trace_loop rounds

  unfoldable pub trace_main : ℕ → ℕ → Forked → Cmd Tracer ℤ
  unfolding behind_fork
  trace_main rounds argc forked = if ltb argc 2 then pure (pos 1) else behind_fork rounds forked
