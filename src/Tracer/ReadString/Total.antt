-- ===== src/Tracer/ReadString/Total.antt =====
-- Reading a string that the tracee holds: src/libtracer/tracer.c, read_string.
use prom.Prelude.{
  ℕ, zero, suc, ◌+◌, ◌*◌, ◌%◌, ◌^◌, ◌≤◌, ◌<◌, ◌≡◌, refl, ap, ◌∙◌, true, false, Option, some, List,
  [], ◌∷◌, ◌++◌, ltb, length, arith, Bool-cases, inl, inr, le→leb,
}
use mathlib.Core.List.{append_assoc}
use prom.Prelude.Bytes.{Bytes}
use prom.Machine.Returns
use prom.Machine.Returns.{Returns, returns}
use prom.Tracer.Env.{Env, Tracer, Event, log, allocated, peeked, IsQuiet, IsQuiet-trans}
use prom.Tracer.ReadString.{has_nul, grow_buffer, read_loop, read_string}

-- From `addr + read` on the tracee's memory holds the words `ws`, none of which has a NUL, and
-- then `last`, which has one. It answers so whatever has happened before.
abbrev pub Serves : Env → ℕ → ℕ → ℕ → List Bytes → Bytes → Type 0
Serves k child addr read [] last =
    ((t : List Event) → k.peek t child ((addr + read) % 2 ^ 64) ≡ some last) × (has_nul last ≡ true)
Serves k child addr read (w ∷ ws) last =
    ((t : List Event) → k.peek t child ((addr + read) % 2 ^ 64) ≡ some w)
    × (has_nul w ≡ false)
    × Serves k child addr (read + 8) ws last

abbrev pub concat : List Bytes → Bytes → Bytes
concat [] last = last
concat (w ∷ ws) last = w ++ concat ws last

-- Every request for memory is granted.
abbrev pub Grants : Env → Type 0
Grants k = (t : List Event) (n : ℕ) → k.grant_memory t n ≡ true

-- A size of the buffer that has room for the word at `read`, and is not too large.
record HasRoom (read : ℕ) (s : Tracer) (r : Option ℕ) (t : Tracer) : Type 0 where
  same : IsQuiet s t
  size : ℕ
  granted : r ≡ some size
  room : read + 8 ≤ size
  big : 4096 ≤ size
  bound : size ≤ 4096 + 2 * (read + 8)

module _ (k : Env) (grants : Grants k) (child : ℕ) where
  grow_buffer-HasRoom :
      (size read : ℕ) (s : Tracer)
      → 4096 ≤ size
      → read < 2 ^ 60
      → read ≤ size
      → size ≤ 4096 + 2 * read
      → Returns (HasRoom read s) (grow_buffer k size read s)
  unfolding grow_buffer
  grow_buffer-HasRoom size read s big small fits bound =
      elim (Bool-cases (ltb size ((read + 8) % 2 ^ 64))) [
        | inl grow ↦ rw grow (
            rw (grants s.trace (size * 2 % 2 ^ 64)) (
              returns (record {
                same = (refl, refl);
                size = size * 2 % 2 ^ 64;
                granted = refl;
                room = ground arith;
                big = ground arith;
                bound = ground arith;
              })))
        | inr keep ↦ rw keep (
            returns (record {
              same = (refl, refl);
              size = size;
              granted = refl;
              room = ground arith;
              big = big;
              bound = ground arith;
            }))
      ]

  read_loop-Serves :
      (fuel addr size read : ℕ) (val : Bytes) (ws : List Bytes) (last : Bytes) (s : Tracer)
      → Serves k child addr read ws last
      → length ws < fuel
      → read + 8 * length ws < 2 ^ 60
      → 4096 ≤ size
      → read ≤ size
      → size ≤ 4096 + 2 * read
      → Returns
          (λ r t. (r ≡ some (val ++ concat ws last)) × IsQuiet s t)
          (read_loop fuel k child addr size read val s)
  unfolding read_loop
  read_loop-Serves zero addr size read val ws last s served fuel small big fits bound =
      absurd (omega arith)
  read_loop-Serves (suc f) addr size read val [] last s (served, nul) fuel small big fits bound =
      Returns.bind (grow_buffer-HasRoom size read s big (omega arith) fits bound) λ r t h.
        rw (h.granted, served t.trace, le→leb (read + 8) h.size h.room, nul)
          (returns (refl, h.same))
  read_loop-Serves (suc f) addr size read val (w ∷ ws) last s (served, clear, more) fuel small big
        fits bound =
      Returns.bind (grow_buffer-HasRoom size read s big (omega arith) fits bound) λ r t h.
        rw (h.granted, served t.trace, le→leb (read + 8) h.size h.room, clear)
          (Returns.mono
            (read_loop-Serves f addr h.size (read + 8) (val ++ w) ws last
              (log (peeked child ((addr + read) % 2 ^ 64)) t) more (omega arith) (omega arith) h.big
              h.room h.bound)
            λ r' t' (e, q).
              (e ∙ ap some (append_assoc val w (concat ws last)), IsQuiet-trans s t t' h.same q))

  -- If every request for memory is granted and the tracee's memory holds, from the address on,
  -- words without a NUL and then one with a NUL, below 2 ^ 60 bytes in all, then read_string
  -- ends within a round for each word and one more and returns those words; but for reading the
  -- tracee's memory and calling the allocator it has done nothing, and the record of the last
  -- system call is as before.
  pub read_string-Serves :
      (fuel addr : ℕ) (ws : List Bytes) (last : Bytes) (s : Tracer)
      → Serves k child addr 0 ws last
      → length ws < fuel
      → 8 * length ws < 2 ^ 60
      → Returns (λ r t. (r ≡ some (concat ws last)) × IsQuiet s t) (read_string fuel k child addr s)
  unfolding read_string
  read_string-Serves fuel addr ws last s served enough small = rw (grants s.trace 4096) (
      read_loop-Serves fuel addr 4096 0 [] ws last (log (allocated 4096) s) served enough
        (omega arith) (omega arith) (omega arith) (omega arith))
