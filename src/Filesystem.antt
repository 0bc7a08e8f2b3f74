-- ===== src/Filesystem.antt =====
-- Paths and directories: src/filesystem/filesystem.c.
pub mod System
pub mod Dir
pub mod Alloc
pub mod Expand
pub mod Absolute
pub mod Relative
pub mod Held
pub mod Joined
pub mod Open
pub mod Content
pub mod Freed
pub mod Wanting
pub mod Unopened
pub mod Refused
use prom.Prelude.{
  ℕ, ◌+◌, Bool, true, false, Option, none, some, List, [], ◌∷◌, ◌++◌, length, ◌==◌, if◌then◌else◌,
}
use prom.Prelude.Bytes.{Bytes}
use prom.Machine.{Cmd, ok, faulted, pure, ◌>>=◌, ◌>>◌, zoom, and_then}
use prom.Memory.{
  Block, World, null, malloc, realloc, free, strcpy, snprintf, text_at, block_at, fresh_block,
  place, record_call, Call,
}
use prom.Errm.State.{addr, object, Handle, Sys, not_enough_memory, parsing_error}
use prom.Errm.Ops.{
  errm_error, errm_error_from_errno, on_error_return, static_defer, defer, edf_func1,
  edf_static_func1, edf_static_func2,
}
use prom.Filesystem.System.{Os, Opened, opened, refused}

abbrev pub P : Type 0 → Type 0
P A = Cmd (Sys World) A

-- Code that reaches the world only.
abbrev pub lift : {A : Type 0} → Cmd World A → P A
lift = zoom (λ s. s.world) (λ s w. record s { world = w })

-- sizeof('\0') and sizeof('/'): a character constant is an int.
abbrev pub sizeof_char_constant : ℕ
sizeof_char_constant = 4

-- The handlers of the deferred calls.
abbrev pub free_handle : Handle World
free_handle (addr p) = free p
free_handle (object o) = λ _. faulted

abbrev pub close_dir : Handle World
close_dir (addr dp) = λ w. and_then (block_at dp w) λ b. record_call Call.closedir >> free dp
close_dir (object o) = λ _. faulted

-- wordfree(&w): gives back the block behind we_wordv, which stands at offset 8 of a wordexp_t.
abbrev pub wordfree : Handle World
wordfree (addr p) = λ _. faulted
wordfree (object o) = free (o 8)

-- struct wordexp_t takes 24 bytes.
abbrev pub wordexp_t : ℕ → ℕ → ℕ
wordexp_t wordv i = if i == 8 then wordv else 0

abbrev pub emalloc_body : ℕ → P ℕ
emalloc_body size = do
  p ← lift (malloc size)
  if p == null then (errm_error not_enough_memory >> pure p) else pure p

pub emalloc : ℕ → P ℕ
emalloc = edf_static_func1 emalloc_body

unfoldable pub ereallloc : ℕ → ℕ → P ℕ
ereallloc = edf_static_func2 λ q size. do
  p ← lift (realloc q size)
  if p == null then (errm_error not_enough_memory >> pure p) else pure p

-- The block that a library call hands out, at a new address.
abbrev pub hand_out : Block → P ℕ
hand_out b s = ok s.world.next (record s { world = place s.world b.size b })

module _ (os : Os) where
  -- What expand does with the words of a successful wordexp; we_wordv[0] of no words is NULL.
  abbrev pub first_word : List Bytes → P ℕ
  first_word [] = λ _. faulted
  first_word (word ∷ words) = do
    ret ← emalloc (length word + 1)
    on_error_return null (lift (strcpy ret 0 word) >> pure ret)

  abbrev pub on_words : Option (List Bytes) → P ℕ
  on_words none = do errm_error parsing_error; pure null
  on_words (some words) = do
    wordv ← hand_out (fresh_block 0)
    static_defer wordfree 24 (wordexp_t wordv)
    first_word words

  abbrev pub expand_body : Bytes → P ℕ
  expand_body path s = on_words (os.wordexp s.world.trace path) s

  pub expand : Bytes → P ℕ
  expand = edf_static_func1 expand_body

  -- strlen(NULL) if there is no working directory
  abbrev pub on_cwd : ℕ → Option Bytes → P ℕ
  on_cwd relative_path none = do defer free_handle null; λ _. faulted
  on_cwd relative_path (some dir) = do
    cwd ← hand_out (record (fresh_block (length dir + 1)) { text = some dir })
    defer free_handle cwd
    relative ← lift (text_at relative_path)
    let len = length relative + sizeof_char_constant + length dir + sizeof_char_constant
    abs_path ← emalloc len
    on_error_return null (lift (snprintf abs_path len (dir ++ b'/' ∷ relative)) >> pure abs_path)

  abbrev pub from_relative_body : ℕ → P ℕ
  from_relative_body relative_path s = on_cwd relative_path (os.getcwd s.world.trace) s

  pub abs_path_from_relative : ℕ → P ℕ
  abs_path_from_relative = edf_static_func1 from_relative_body

  abbrev pub is_absolute : Bytes → Bool
  is_absolute [] = false
  is_absolute (c ∷ cs) = c == b'/'

  abbrev pub abs_path_body : Bytes → P ℕ
  abs_path_body path = do
    translated_path ← expand path
    on_error_return null (do
      text ← lift (text_at translated_path)
      if is_absolute text
          then pure translated_path
          else do defer free_handle translated_path; abs_path_from_relative translated_path)

  pub abs_path : Bytes → P ℕ
  abs_path = edf_func1 abs_path_body

  abbrev pub on_opened : Opened → P ℕ
  on_opened (opened entries) = hand_out (record (fresh_block 0) { entries = entries })
  on_opened (refused e) =
      λ s. and_then (errm_error_from_errno (record s { errno = e })) λ _. pure null

  pub open_dir : Bytes → P ℕ
  unfolding expand
  open_dir = edf_static_func1 λ path. do
    expanded_path ← expand path
    on_error_return null (do
      defer free_handle expanded_path
      text ← lift (text_at expanded_path)
      λ s. on_opened (os.opendir s.world.trace text) s)
