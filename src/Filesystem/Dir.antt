-- ===== src/Filesystem/Dir.antt =====
-- Reading a directory into an array of names: src/filesystem/filesystem.c, dir_content and
-- free_dir_content.
pub mod Name
pub mod Elements
pub mod Listing
pub mod Refused
use prom.Prelude.{ℕ, zero, suc, ◌+◌, Bool, true, false, List, [], ◌∷◌, length, ◌==◌, if◌then◌else◌}
use prom.Prelude.Bytes.{Bytes}
use prom.Machine.{Cmd, faulted, pure, ◌>>=◌, ◌>>◌, and_then}
use prom.Memory.{Cell, unset, ptr, loaded, World, null, strcpy, block_at}
use prom.Dga.{dga_new, dga_len, dga_grow, dga_free, dga_header, get, set, header_size}
use prom.Errm.State.{not_enough_memory}
use prom.Errm.Ops.{errm_error, on_error_return, defer, edf_func2}
use prom.Filesystem.{P, lift, sizeof_char_constant, close_dir, open_dir}
use prom.Filesystem.System.{Os}

-- dga_free(content[i]); an element that was never written is no pointer.
abbrev pub free_cell : Cell → Cmd World (Unit {0})
free_cell (ptr p) = dga_free p
free_cell unset = λ _. faulted
free_cell (loaded h n d) = λ _. faulted

-- `for (i = 0; i < dga_len(content); i++) dga_free(content[i])`, by the rounds that are left;
-- the length does not change in the loop.
unfoldable pub free_cells : ℕ → ℕ → ℕ → Cmd World (Unit {0})
free_cells zero content i = pure tt
free_cells (suc left) content i = do c ← get content i; free_cell c; free_cells left content (i + 1)

unfoldable pub free_dir_content : ℕ → Cmd World (Unit {0})
unfolding free_cells
free_dir_content content = do len ← dga_len content; free_cells len content 0; dga_free content

-- `file_name[0] == '.'`
abbrev pub is_hidden : Bytes → Bool
is_hidden [] = false
is_hidden (c ∷ cs) = c == b'.'

-- The label `memfail`, with the length counted so far.
abbrev pub memfail : ℕ → ℕ → P (ℕ × ℕ)
memfail names len = do errm_error not_enough_memory; lift (free_dir_content names); pure (null, len)

-- strcpy to a string that is an array: behind the header of its block
abbrev pub strcpy_array : ℕ → Bytes → Cmd World (Unit {0})
strcpy_array arr t = strcpy (dga_header arr) header_size t

-- One name behind the growth of the array; `more` goes on with the longer length.
abbrev pub store_name : ℕ → ℕ → Bytes → P (ℕ × ℕ) → P (ℕ × ℕ)
store_name names len file_name more = do
  name ← lift (dga_new (length file_name + sizeof_char_constant) 1)
  if name == null
      then memfail names len
      else do lift (strcpy_array name file_name); lift (set names len (ptr name)); more

-- The loop over readdir, with the array and `*len_ret`.
pub read_names : List Bytes → ℕ → ℕ → P (ℕ × ℕ)
read_names [] names len = pure (names, len)
read_names (file_name ∷ rest) names len = elim (is_hidden file_name) [
  | true ↦ read_names rest names len
  | false ↦ do
    tmp ← lift (dga_grow names 1)
    if tmp == null
        then memfail names len
        else store_name tmp len file_name (read_names rest tmp (len + 1))
]

-- readdir, up to its NULL: the names of a stream in order; through a NULL stream it faults.
abbrev pub readdir_all : ℕ → Cmd World (List Bytes)
readdir_all dp w = and_then (block_at dp w) λ b. pure b.entries

module _ (os : Os) where
  -- The pointer and `*len_ret`; the argument `len_ret` is what it holds before, and is handed
  -- back where it is not written.
  unfoldable pub dir_content : Bytes → ℕ → P (ℕ × ℕ)
  unfolding read_names
  dir_content = edf_func2 λ path len_ret. do
    dp ← open_dir os path
    on_error_return (null, len_ret)
        (do
          defer close_dir dp
          names ← lift (dga_new 0 8)
          entries ← lift (readdir_all dp)
          read_names entries names 0)
