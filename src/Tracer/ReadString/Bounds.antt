-- ===== src/Tracer/ReadString/Bounds.antt =====
-- What read_string writes to its buffer: src/libtracer/tracer.c.
use prom.Prelude.{
  ℕ, zero, suc, ◌+◌, ◌*◌, ◌%◌, ◌^◌, ◌≤◌, ◌<◌, Option, none, some, [], ◌++◌, ltb, arith, Bool-cases,
  Option-cases, inl, inr, le→leb, lt→ltb,
}
use prom.Prelude.Bytes.{Bytes}
use prom.Machine.{Run, Cmd, ok, aborted, faulted, exited, stuck, and_then}
use prom.Machine.Returns.{Returns, returns}
use prom.Tracer.Env.{Env, Tracer, log, allocated, peeked}
use prom.Tracer.ReadString.{read_round, has_nul, grow_buffer, read_loop, read_string}

-- The run returns, or is still running when its fuel is spent: it neither ends the process nor
-- reaches undefined behaviour.
abbrev pub IsSafe : {S A : Type 0} → Run S A → Type 0
IsSafe (ok a s) = Unit
IsSafe aborted = ⊥
IsSafe faulted = ⊥
IsSafe (exited n s) = ⊥
IsSafe stuck = Unit

pub IsSafe-bind :
    {S A B : Type 0} {P : A → S → Type 0} {r : Run S A} (k : A → Cmd S B)
    → Returns P r
    → ((a : A) (s : S) → P a s → IsSafe (k a s))
    → IsSafe (and_then r k)
IsSafe-bind k (returns p) next = next _ _ p

-- A size of the buffer with room for the word at `read`.
record HasRoom (read size : ℕ) : Type 0 where
  room : read + 8 ≤ size
  big : 4096 ≤ size
  bound : size ≤ 4096 + 2 * (read + 8)

abbrev Grown : ℕ → Option ℕ → Type 0
Grown read none = Unit
Grown read (some size) = HasRoom read size

module _ (k : Env) (child : ℕ) where
  grow_buffer-Grown :
      (size read : ℕ) (s : Tracer)
      → 4096 ≤ size
      → read < 2 ^ 60
      → read ≤ size
      → size ≤ 4096 + 2 * read
      → Returns (λ r _. Grown read r) (grow_buffer k size read s)
  unfolding grow_buffer
  grow_buffer-Grown size read s big small fits bound =
      elim (Bool-cases (ltb size ((read + 8) % 2 ^ 64))) [
        | inl grow ↦ rw grow (elim (Bool-cases (k.grant_memory s.trace (size * 2 % 2 ^ 64))) [
          | inl yes' ↦
              rw yes'
                (returns (record { room = ground arith; big = ground arith; bound = ground arith }))
          | inr no' ↦ rw no' (returns tt)
        ])
        | inr keep ↦
            rw keep (returns (record { room = ground arith; big = big; bound = ground arith }))
      ]

  read_round-IsSafe :
      (addr read : ℕ) (val : Bytes) (next : ℕ → Bytes → Cmd Tracer (Option Bytes)) (r : Option ℕ)
      (t : Tracer)
      → Grown read r
      → ((size : ℕ) (v : Bytes) (u : Tracer) → HasRoom read size → IsSafe (next size v u))
      → IsSafe (read_round k child addr read val next r t)
  read_round-IsSafe addr read val next none t g go = tt
  read_round-IsSafe addr read val next (some size) t g go =
      elim (Option-cases (k.peek t.trace child ((addr + read) % 2 ^ 64))) [
        | inl none' ↦ rw (none', lt→ltb read size (omega arith)) tt
        | inr (tmp, e) ↦
            rw (e, le→leb (read + 8) size g.room)
              (elim (Bool-cases (has_nul tmp)) [
                | inl nul ↦ rw nul tt
                | inr clear ↦
                    rw clear
                      (go size (val ++ tmp) (log (peeked child ((addr + read) % 2 ^ 64)) t) g)
              ])
      ]

  read_loop-IsSafe :
      (fuel addr size read : ℕ) (val : Bytes) (s : Tracer)
      → read + 8 * fuel < 2 ^ 60
      → 4096 ≤ size
      → read ≤ size
      → size ≤ 4096 + 2 * read
      → IsSafe (read_loop fuel k child addr size read val s)
  unfolding read_loop
  read_loop-IsSafe zero addr size read val s small big fits bound = tt
  read_loop-IsSafe (suc f) addr size read val s small big fits bound =
      IsSafe-bind
        (read_round k child addr read val
          (λ size' val'. read_loop f k child addr size' (read + 8) val'))
        (grow_buffer-Grown size read s big (omega arith) fits bound)
        λ r t g.
          read_round-IsSafe addr read val
            (λ size' val'. read_loop f k child addr size' (read + 8) val') r t g
            λ size' v u h.
              read_loop-IsSafe f addr size' (read + 8) v u (omega arith) h.big h.room h.bound

  -- Whatever the kernel and the allocator answer, no read_string of fewer than 2 ^ 57 rounds
  -- writes outside its buffer.
  pub read_string-IsSafe :
      (fuel addr : ℕ) (s : Tracer) → 8 * fuel < 2 ^ 60 → IsSafe (read_string fuel k child addr s)
  unfolding read_string
  read_string-IsSafe fuel addr s small = elim (Bool-cases (k.grant_memory s.trace 4096)) [
    | inl granted ↦ rw granted (
        read_loop-IsSafe fuel addr 4096 0 [] (log (allocated 4096) s) (omega arith) (omega arith)
          (omega arith) (omega arith))
    | inr refused ↦ rw refused tt
  ]
