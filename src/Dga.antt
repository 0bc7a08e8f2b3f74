-- ===== src/Dga.antt =====
-- Dynamic generic arrays: src/dga/dga.c and src/dga/dga.h. An array is a pointer to the byte
-- behind its header, which takes 24 bytes.
pub mod Laws
pub mod Resize
pub mod Faults
pub mod Copy
pub mod Sequence
use prom.Prelude.{ℕ, ◌+◌, ◌-◌, ◌*◌, ◌%◌, Bool, none, some, ltb, leb, ◌==◌, if◌then◌else◌, update}
use prom.Machine.{Cmd, ok, faulted, pure, ◌>>=◌, ◌>>◌, and_then}
use prom.Memory.{
  Cell, Header, Block, World, null, size_max, malloc, realloc, free, block_at, put_block,
}

-- sizeof(struct dga_header)
abbrev pub header_size : ℕ
header_size = 24

-- `_dga_header(arr)`; below 24 the subtraction wraps round.
abbrev pub dga_header : ℕ → ℕ
dga_header arr = if ltb arr header_size then arr + size_max - header_size else arr - header_size

-- `*_dga_header(arr)`
abbrev pub header_at : ℕ → Cmd World Header
header_at h w = and_then (block_at h w) λ b v. elim b.header [ none ↦ faulted | some hd ↦ ok hd v ]

abbrev pub set_header : ℕ → Header → Cmd World (Unit {0})
set_header h hd w = and_then (block_at h w) λ b. put_block h (record b { header = some hd })

-- `_dga_alloc_size(header)`
abbrev pub dga_alloc_size : Header → ℕ
dga_alloc_size h = (header_size + h.szt * h.len) % size_max

-- `_dga_new`; `(void *)(h + 1)` is the address 24 if malloc failed.
unfoldable pub dga_new : ℕ → ℕ → Cmd World ℕ
unfolding malloc
dga_new n obj_size = do
  h ← malloc ((header_size + obj_size * n) % size_max)
  if h == null
      then pure (h + header_size)
      else do set_header h (record { len = n; szt = obj_size }); pure (h + header_size)

pub dga_len : ℕ → Cmd World ℕ
dga_len arr = do h ← header_at (dga_header arr); pure h.len

-- The header is written before realloc is asked.
pub dga_resize : ℕ → ℕ → Cmd World ℕ
dga_resize arr new_size = do
  h ← header_at (dga_header arr)
  set_header (dga_header arr) (record h { len = new_size })
  tmp ← realloc (dga_header arr) (dga_alloc_size (record h { len = new_size }))
  if tmp == null then pure null else pure (tmp + header_size)

unfoldable pub dga_grow : ℕ → ℕ → Cmd World ℕ
unfolding dga_len dga_resize
dga_grow arr n = do len ← dga_len arr; dga_resize arr ((len + n) % size_max)

pub dga_shrink : ℕ → ℕ → Cmd World ℕ
unfolding dga_len dga_resize
dga_shrink arr n = do len ← dga_len arr; dga_resize arr ((len + size_max - n) % size_max)

unfoldable pub dga_free : ℕ → Cmd World (Unit {0})
unfolding free
dga_free arr = free (dga_header arr)

pub dga_dup : ℕ → Cmd World ℕ
unfolding malloc
dga_dup arr = do
  h ← header_at (dga_header arr)
  tmp ← malloc (dga_alloc_size h)
  b ← block_at (dga_header arr)
  if tmp == null
      then pure null
      else do put_block tmp (record b { size = dga_alloc_size h }); pure (tmp + header_size)

-- The macros dga_resize_or, dga_grow_or and dga_shrink_or, with the command that resizes. Every
-- body in the program leaves by a jump, so the array is assigned only if the resizing succeeded.
unfoldable pub dga_or : {R : Type 0} → Cmd World ℕ → Cmd World R → (ℕ → Cmd World R) → Cmd World R
dga_or resize body rest = do tmp ← resize; if tmp == null then body else rest tmp

-- Element `i` lies inside the block.
abbrev pub in_block : Block → Header → ℕ → Bool
in_block b h i = leb (header_size + h.szt * (i + 1)) b.size

-- `arr[i]`
unfoldable pub get : ℕ → ℕ → Cmd World Cell
get arr i w = and_then (block_at (dga_header arr) w) λ b v. elim b.header [
  | none ↦ faulted
  | some h ↦ if in_block b h i then ok (b.cells i) v else faulted
]

-- `arr[i] = c`
unfoldable pub set : ℕ → ℕ → Cell → Cmd World (Unit {0})
set arr i c w = and_then (block_at (dga_header arr) w) λ b. elim b.header [
  | none ↦ λ _. faulted
  | some h ↦
      if in_block b h i
      then put_block (dga_header arr) (record b { cells = update b.cells i c })
      else λ _. faulted
]
