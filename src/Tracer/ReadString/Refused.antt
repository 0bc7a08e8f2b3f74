-- ===== src/Tracer/ReadString/Refused.antt =====
-- A string that does not fit the memory that is granted: src/libtracer/tracer.c, read_string.
use prom.Prelude.{
  ℕ, zero, suc, ◌+◌, ◌*◌, ◌%◌, ◌^◌, ◌≤◌, ◌<◌, ◌≡◌, refl, false, Option, none, some, List, [], ◌∷◌,
  ◌++◌, ltb, leb, length, arith, Bool-cases, inl, inr, le→leb,
}
use prom.Prelude.Bytes.{Bytes}
use prom.Machine.Returns
use prom.Machine.Returns.{Returns, returns}
use prom.Tracer.Env.{Env, Tracer, Event, log, allocated, peeked, freed, IsQuiet, IsQuiet-trans}
use prom.Tracer.ReadString.{has_nul, grow_buffer, read_round, read_loop, read_string}

-- From `addr + read` on the tracee's memory holds the words `ws`, none of which has a NUL.
abbrev pub IsClear : Env → ℕ → ℕ → ℕ → List Bytes → Type 0
IsClear k child addr read [] = Unit
IsClear k child addr read (w ∷ ws) =
    ((t : List Event) → k.peek t child ((addr + read) % 2 ^ 64) ≡ some w)
    × (has_nul w ≡ false)
    × IsClear k child addr (read + 8) ws

-- Requests are granted up to a size.
abbrev pub GrantsUpTo : ℕ → Env → Type 0
GrantsUpTo limit k = (t : List Event) (n : ℕ) → k.grant_memory t n ≡ leb n limit

-- No string; the buffer has been given back.
abbrev pub GivesUp : Tracer → Option Bytes → Tracer → Type 0
GivesUp s r t = (r ≡ none) × (before : List Event) × (t.trace ≡ freed ∷ before) × IsQuiet s t

-- How a round finds the buffer, or that there is none.
data Grown (limit read : ℕ) (s : Tracer) (size : ℕ) : Option ℕ → Tracer → Type 0 where
  refused : {t : Tracer} → size ≤ limit → GivesUp s none t → Grown limit read s size none t
  kept :
      {t : Tracer} {size' : ℕ}
      → read + 8 ≤ size'
      → 4096 ≤ size'
      → size' ≤ limit
      → IsQuiet s t
      → Grown limit read s size (some size') t

module _ (limit : ℕ) (k : Env) (grants : GrantsUpTo limit k) (child : ℕ)
    (small : limit < 2 ^ 60) where
  grow_buffer-Grown :
      (size read : ℕ) (s : Tracer)
      → 4096 ≤ size
      → size ≤ limit
      → read ≤ size
      → Returns (Grown limit read s size) (grow_buffer k size read s)
  unfolding grow_buffer
  grow_buffer-Grown size read s big fits below =
      elim (Bool-cases (ltb size ((read + 8) % 2 ^ 64))) [
        | inl grow ↦
            rw (grow, grants s.trace (size * 2 % 2 ^ 64))
              (elim (Bool-cases (leb (size * 2 % 2 ^ 64) limit)) [
                | inl granted ↦
                    rw granted
                      (returns (kept (ground arith) (ground arith) (ground arith) (refl, refl)))
                | inr over ↦ rw over (
                    returns (
                      refused fits
                        (refl, allocated (size * 2 % 2 ^ 64) ∷ s.trace, refl, (refl, refl))))
              ])
        | inr keep ↦ rw keep (returns (kept (ground arith) big fits (refl, refl)))
      ]

  read_loop-GivesUp :
      (fuel addr size read : ℕ) (val : Bytes) (ws : List Bytes) (s : Tracer)
      → IsClear k child addr read ws
      → length ws < fuel
      → limit < read + 8 * length ws + 8
      → 4096 ≤ size
      → size ≤ limit
      → read ≤ size
      → Returns (GivesUp s) (read_loop fuel k child addr size read val s)
  unfolding read_loop
  read_loop-GivesUp zero addr size read val ws s clear enough long big fits below =
      absurd (omega arith)
  read_loop-GivesUp (suc f) addr size read val [] s clear enough long big fits below =
      Returns.bind (grow_buffer-Grown size read s big fits below) λ r t g. full g
    where
      full :
          {r : Option ℕ} {t : Tracer}
          → Grown limit read s size r t
          → Returns (GivesUp s) (
              read_round k child addr read val
                (λ size' val'. read_loop f k child addr size' (read + 8) val')
                r
                t)
      full (refused le g) = returns g
      full (kept room b le same) = absurd (omega arith)
  read_loop-GivesUp (suc f) addr size read val (w ∷ ws) s (served, clear, more) enough long big fits
        below =
      Returns.bind (grow_buffer-Grown size read s big fits below) λ r t g.
        word g λ size' t' b le room.
          read_loop-GivesUp f addr size' (read + 8) (val ++ w) ws t' more (omega arith)
            (omega arith) b le room
    where
      word :
          {r : Option ℕ} {t : Tracer}
          → Grown limit read s size r t
          → ((size' : ℕ) (t' : Tracer)
              → 4096 ≤ size'
              → size' ≤ limit
              → read + 8 ≤ size'
              → Returns (GivesUp t') (read_loop f k child addr size' (read + 8) (val ++ w) t'))
          → Returns (GivesUp s) (
              read_round k child addr read val
                (λ size' val'. read_loop f k child addr size' (read + 8) val')
                r
                t)
      word (refused le g) rest = returns g
      word (kept {t} {size'} room b le same) rest =
          rw (served t.trace, le→leb (read + 8) size' room, clear)
            (Returns.mono (rest size' (log (peeked child ((addr + read) % 2 ^ 64)) t) b le room)
              λ r' r'' (e, before, ends, q). (e, before, ends, IsQuiet-trans s t r'' same q))

  -- If requests for memory are granted up to a size of at least 4096 and below 2 ^ 60, and the
  -- tracee's memory holds more bytes than that from the address on without a NUL, then read_string
  -- ends within a round for each word and one more, gives its buffer back and returns NULL;
  -- but for reading the tracee's memory and calling the allocator it has done nothing, and the
  -- record of the last system call is as before.
  pub read_string-GivesUp :
      (fuel addr : ℕ) (ws : List Bytes) (s : Tracer)
      → 4096 ≤ limit
      → IsClear k child addr 0 ws
      → length ws < fuel
      → limit < 8 * length ws + 8
      → Returns (GivesUp s) (read_string fuel k child addr s)
  unfolding read_string
  read_string-GivesUp fuel addr ws s room clear enough long =
      rw (grants s.trace 4096, le→leb 4096 limit room)
        (read_loop-GivesUp fuel addr 4096 0 [] ws (log (allocated 4096) s) clear enough
          (omega arith) (omega arith) room (omega arith))
