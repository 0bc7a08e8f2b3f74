-- ===== src/Tracer/ReadString.antt =====
-- read_string of src/libtracer/tracer.c: a string out of the tracee's memory, a word at a time.
pub mod Total
pub mod Bounds
pub mod Refused
use prom.Prelude.{
  ℕ, zero, suc, ◌+◌, ◌*◌, ◌%◌, ◌^◌, Bool, true, false, ◌||◌, Option, none, some, [], ◌∷◌, ◌++◌, ltb,
  leb, ◌==◌, if◌then◌else◌,
}
use prom.Prelude.Bytes.{Bytes}
use prom.Machine.{Cmd, ok, faulted, stuck, pure, ◌>>=◌, ◌>>◌}
use prom.Tracer.Env.{Env, Tracer, peeked, allocated, freed, log, emit}

-- memchr(w, 0, …) != NULL
abbrev pub has_nul : Bytes → Bool
has_nul [] = false
has_nul (b ∷ bs) = (b == 0) || has_nul bs

-- What the functions of <string.h> see of a buffer: the bytes in front of the first NUL.
abbrev pub c_string : Bytes → Bytes
c_string [] = []
c_string (b ∷ bs) = if b == 0 then [] else b ∷ c_string bs

-- malloc and realloc, as far as success goes
abbrev pub request_memory : Env → ℕ → Cmd Tracer Bool
request_memory k n s = ok (k.grant_memory s.trace n) (log (allocated n) s)

abbrev pub peek_word : Env → ℕ → ℕ → Cmd Tracer (Option Bytes)
peek_word k child a s = ok (k.peek s.trace child a) (log (peeked child a) s)

-- The test and the reallocation at the head of the loop: the size of the buffer from there on,
-- or `none` if there is no memory.
pub grow_buffer : Env → ℕ → ℕ → Cmd Tracer (Option ℕ)
grow_buffer k size read =
    if ltb size ((read + 8) % 2 ^ 64)
    then (do
      granted ← request_memory k (size * 2 % 2 ^ 64)
      if granted then pure (some (size * 2 % 2 ^ 64)) else (emit freed >> pure none))
    else pure (some size)

-- What a word does to the buffer; `next` is the next round on the longer contents. A write
-- outside the buffer is a fault.
abbrev pub take_word :
    ℕ → ℕ → Bytes → (Bytes → Cmd Tracer (Option Bytes)) → Option Bytes → Cmd Tracer (Option Bytes)
take_word size read val next none =
    if ltb read size then pure (some (val ++ 0 ∷ [])) else λ _. faulted
take_word size read val next (some tmp) =
    if leb (read + 8) size
    then (if has_nul tmp then pure (some (val ++ tmp)) else next (val ++ tmp))
    else λ _. faulted

-- A round behind the reallocation; `next` is given the size of the buffer.
abbrev pub read_round :
    Env
    → ℕ
    → ℕ
    → ℕ
    → Bytes
    → (ℕ → Bytes → Cmd Tracer (Option Bytes))
    → Option ℕ
    → Cmd Tracer (Option Bytes)
read_round k child addr read val next none = pure none
read_round k child addr read val next (some size) = do
  word ← peek_word k child ((addr + read) % 2 ^ 64)
  take_word size read val (next size) word

-- The loop; `val` holds the bytes that the buffer has in front of index `read`.
pub read_loop : ℕ → Env → ℕ → ℕ → ℕ → ℕ → Bytes → Cmd Tracer (Option Bytes)
read_loop zero k child addr size read val = λ _. stuck
read_loop (suc fuel) k child addr size read val =
    grow_buffer k size read
    >>= read_round k child addr read val
        (λ size' val'. read_loop fuel k child addr size' (read + 8) val')

pub read_string : ℕ → Env → ℕ → ℕ → Cmd Tracer (Option Bytes)
unfolding read_loop
read_string fuel k child addr = do
  granted ← request_memory k 4096
  if granted then read_loop fuel k child addr 4096 0 [] else pure none
