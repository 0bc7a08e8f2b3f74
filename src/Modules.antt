-- ===== src/Modules.antt =====
-- The modules of prom as shared objects in a directory: src/modules/mods.c.
pub mod Lists
pub mod Links
pub mod Load
pub mod Names
pub mod Grows
pub mod Installs
pub mod Installed
pub mod Longer
pub mod Cleans
pub mod Cleaned
pub mod Refused
use prom.Prelude.{
  ℕ, ◌+◌, true, false, Option, none, some, List, [], ◌∷◌, ◌++◌, length, ◌==◌, if◌then◌else◌,
}
use prom.Prelude.Bytes.{Bytes, codes}
use prom.Prelude.Int.{ℤ, pos, negsuc}
use prom.Machine.{Cmd, ok, pure, ◌>>=◌, ◌>>◌, and_then}
use prom.Memory.{Cell, unset, loaded, World, Call, null, malloc, free, snprintf, text_at}
use prom.Errm.State.{not_enough_memory, dyn_shared_obj_error}
use prom.Errm.Ops.{errm_error, errm_clear}
use prom.Filesystem.{P, lift, sizeof_char_constant}
use prom.Filesystem.System.{Os, found, missing, Dlopened, handle, dlerror}

-- modules_path + name in a fresh string; NULL if there is no memory
pub get_mod_path : Bytes → Bytes → P ℕ
get_mod_path modules_path name = do
  errm_clear
  let mod_path_len = length modules_path + length name + sizeof_char_constant
  mod_path ← lift (malloc mod_path_len)
  if mod_path == null
      then (errm_error not_enough_memory >> pure null)
      else do lift (snprintf mod_path mod_path_len (modules_path ++ name)); pure mod_path

-- What a system call sees of a path: nothing, if it is NULL.
abbrev pub path_at : ℕ → Cmd World (Option Bytes)
path_at p w = if p == null then ok none w else and_then (text_at p w) λ t. pure (some t)

abbrev pub fail_with : Bytes → P (Option Bytes × Cell)
fail_with message = do errm_error dyn_shared_obj_error; pure (some message, unset)

module _ (os : Os) where
  -- dlsym and dlerror; `rest` goes on with the symbol.
  abbrev pub symbol : ℕ → Bytes → (Bytes → P (Option Bytes × Cell)) → P (Option Bytes × Cell)
  symbol h name rest s = elim (os.dlsym s.world.trace h name) [
    | found text ↦ rest text s
    | missing message ↦ fail_with message s
  ]

  -- `(*init)(&mod->cbs)`, code of the object.
  abbrev pub run_init : ℕ → P (Unit {0})
  run_init h s =
      lift (os.init h) (record s { world = record s.world { trace = Call.init h ∷ s.world.trace } })

  abbrev pub load_symbols : Dlopened → P (Option Bytes × Cell)
  load_symbols (dlerror message) = fail_with message
  load_symbols (handle h) = symbol h (codes "name") λ name.
      symbol h (codes "desc")
        λ desc. symbol h (codes "init") λ init. do run_init h; pure (none, loaded h name desc)

  -- dlopen(path, RTLD_NOW)
  abbrev pub open_object : Option Bytes → P Dlopened
  open_object path s = ok (os.dlopen s.world.trace path) (record s {
    errno = os.dl_errno s.world.trace s.errno;
    world = record s.world { trace = Call.dlopen path ∷ s.world.trace };
  })

  -- The message of dlerror, or none and the module. The callbacks that the module's init fills are
  -- left out of it, since the program does not use them.
  pub load_module : Bytes → Bytes → P (Option Bytes × Cell)
  unfolding get_mod_path
  load_module name modules_path = do
    errm_clear
    path ← get_mod_path modules_path name
    text ← lift (path_at path)
    dlhandle ← open_object text
    lift (free path)
    load_symbols dlhandle

  abbrev pub handle_of : Cell → ℕ
  handle_of (loaded h name desc) = h
  handle_of (Cell.ptr p) = p
  handle_of unset = 0

  unfoldable pub unload_module : Cell → P (Option Bytes)
  unload_module m s =
      ok (os.dlclose s.world.trace (handle_of m))
        (record s { world = record s.world { trace = Call.dlclose (handle_of m) ∷ s.world.trace } })

  -- A system call that answers 0 or errno.
  abbrev pub answer : Call → (List Call → ℕ) → P ℤ
  answer call reply s =
      let e = reply s.world.trace in
      ok (if e == 0 then pos 0 else negsuc 0) (record s {
        errno = if e == 0 then s.errno else e;
        world = record s.world { trace = call ∷ s.world.trace };
      })

  pub add_module : Bytes → Bytes → Bytes → P ℤ
  unfolding get_mod_path
  add_module path name modules_path = do
    mod_path ← get_mod_path modules_path name
    text ← lift (path_at mod_path)
    ret ← answer (Call.symlink path text) (λ trace. os.symlink trace path text)
    lift (free mod_path)
    pure ret

  pub rm_module : Bytes → Bytes → P ℤ
  unfolding get_mod_path
  rm_module name modules_path = do
    mod_path ← get_mod_path modules_path name
    text ← lift (path_at mod_path)
    ret ← answer (Call.remove text) (λ trace. os.remove trace text)
    lift (free mod_path)
    pure ret
