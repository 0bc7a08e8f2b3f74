-- ===== src/Memory.antt =====
-- The memory of the process: malloc, realloc and free, and what a block of it holds. Whether a
-- request for memory is granted is the environment's choice, `grants`.
pub mod Laws
use prom.Prelude.{
  ℕ, suc, ◌+◌, ◌-◌, ◌*◌, ◌^◌, Bool, Option, none, some, List, [], ◌∷◌, length, take, ◌-◌, ltb, leb,
  ◌==◌, if◌then◌else◌, update,
}
use prom.Prelude.Bytes.{Bytes}
use prom.Machine.{Cmd, ok, faulted, ◌>>=◌, ◌>>◌, and_then}

-- One element of an array: not yet written, a pointer, or a loaded module (its handle, and the
-- texts behind its `name` and `desc`).
pub data Cell : Type 0 where
  unset : Cell
  ptr : ℕ → Cell
  loaded : ℕ → Bytes → Bytes → Cell

-- struct dga_header, without `cap`, which no function reads or writes.
pub record Header : Type 0 where
  pub len : ℕ
  pub szt : ℕ

-- `size` counts bytes. A block holds a header and elements behind it, or a C string, or both, or
-- is a directory stream with the names that it has to give.
pub record Block : Type 0 where
  pub size : ℕ
  pub header : Option Header
  pub cells : ℕ → Cell
  pub text : Option Bytes
  pub entries : List Bytes

-- Calls of the operating system that the trace records, the newest first.
pub data Call : Type 0 where
  symlink : Bytes → Option Bytes → Call
  remove : Option Bytes → Call
  dlopen : Option Bytes → Call
  dlclose : ℕ → Call
  -- the function init of an opened object
  init : ℕ → Call
  closedir : Call
  print_out print_err : Bytes → Call

pub record World : Type 0 where
  pub heap : ℕ → Option Block
  pub next : ℕ
  pub allocs : ℕ
  pub grants : ℕ → Bool
  pub trace : List Call

abbrev pub null : ℕ
null = 0

abbrev pub size_max : ℕ
size_max = 2 ^ 64

abbrev pub fresh_block : ℕ → Block
fresh_block n = record { size = n; header = none; cells = λ _. unset; text = none; entries = [] }

-- A block at a new address.
abbrev pub place : World → ℕ → Block → World
place w n b = record w {
  heap = update w.heap w.next (some b);
  next = suc (w.next + n);
  allocs = suc w.allocs;
}

abbrev pub refuse : World → World
refuse w = record w { allocs = suc w.allocs }

unfoldable pub malloc : ℕ → Cmd World ℕ
malloc n w = if w.grants w.allocs then ok w.next (place w n (fresh_block n)) else ok null (refuse w)

-- A block at an address; a fault where none is live.
abbrev pub block_at : ℕ → Cmd World Block
block_at p w = elim (w.heap p) [ none ↦ faulted | some b ↦ ok b w ]

abbrev pub put_block : ℕ → Block → Cmd World (Unit {0})
put_block p b w = ok tt (record w { heap = update w.heap p (some b) })

abbrev pub drop_block : ℕ → World → World
drop_block p w = record w { heap = update w.heap p none }

-- free(NULL) does nothing; a pointer that is not a live block's is a fault.
unfoldable pub free : ℕ → Cmd World (Unit {0})
free p w = if p == null then ok tt w else and_then (block_at p w) λ b v. ok tt (drop_block p v)

-- The part of a block that fits `n` bytes.
abbrev pub trimmed : ℕ → Header → Block → Block
trimmed n h b = record b {
  size = n;
  cells = λ i. if leb (24 + h.szt * (i + 1)) b.size then b.cells i else unset;
}

abbrev pub resized : ℕ → Block → Block
resized n b = elim b.header [ none ↦ record b { size = n } | some h ↦ trimmed n h b ]

-- The block moves; a refused request leaves it where it is.
unfoldable pub realloc : ℕ → ℕ → Cmd World ℕ
realloc p n w = and_then (block_at p w) λ b v.
    if v.grants v.allocs
    then ok v.next (place (drop_block p v) n (resized n b))
    else ok null (refuse v)

-- strcpy to offset `off` of the block at `p`; the string and its NUL must fit.
unfoldable pub strcpy : ℕ → ℕ → Bytes → Cmd World (Unit {0})
strcpy p off t w = and_then (block_at p w) λ b v.
    if ltb (off + length t) b.size then put_block p (record b { text = some t }) v else faulted

-- snprintf(p, n, …) of the text `t`: at most n - 1 bytes of it
pub snprintf : ℕ → ℕ → Bytes → Cmd World (Unit {0})
unfolding strcpy
snprintf p n t = strcpy p 0 (take (n - 1) t)

-- The C string at an address.
unfoldable pub text_at : ℕ → Cmd World Bytes
text_at p w = and_then (block_at p w) λ b v. elim b.text [ none ↦ faulted | some t ↦ ok t v ]

abbrev pub record_call : Call → Cmd World (Unit {0})
record_call c w = ok tt (record w { trace = c ∷ w.trace })
