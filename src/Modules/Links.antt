-- ===== src/Modules/Links.antt =====
-- Adding and removing a module's link: src/modules/mods.c, get_mod_path, add_module, rm_module.
use prom.Prelude.{
  ℕ, ◌+◌, ◌≡◌, ◌≢◌, true, none, some, ◌∷◌, ◌++◌, length, length-append, ◌==◌, if◌then◌else◌,
  ==_false, arith,
}
use prom.Prelude.Bytes.{Bytes}
use prom.Prelude.Int.{pos, negsuc}
use prom.Machine.{ok}
use prom.Memory.{World, Call, malloc, place}
use prom.Memory.Laws.{text_block, given_back, snprintf_fresh, text_at_fresh, free_fresh}
use prom.Errm.State.{Sys}
use prom.Errm.Ops.{errm_clear}
use prom.Filesystem.{sizeof_char_constant}
use prom.Filesystem.System.{Os}
use prom.Modules.{get_mod_path, add_module, rm_module}

abbrev pub path_len : Bytes → Bytes → ℕ
path_len modules_path name = length modules_path + length name + sizeof_char_constant

abbrev pub with_path : Bytes → Bytes → Sys World → Sys World
with_path modules_path name s = record s {
  err_code = 0;
  world =
      place s.world (path_len modules_path name)
        (text_block (path_len modules_path name) (modules_path ++ name));
}

-- If memory is granted, get_mod_path gives a fresh string that is the directory followed by the
-- name, whole.
pub get_mod_path_lem :
    (modules_path name : Bytes) (s : Sys World)
    → s.world.next ≢ 0
    → s.world.grants s.world.allocs ≡ true
    → get_mod_path modules_path name s ≡ ok s.world.next (with_path modules_path name s)
unfolding get_mod_path errm_clear malloc
get_mod_path_lem modules_path name s pos' granted = simp (
  granted,
  ==_false s.world.next 0 pos',
  snprintf_fresh s.world (path_len modules_path name) (modules_path ++ name)
      (omega (arith, length-append modules_path name)),
)

-- What an answer of 0 or errno leaves, after a call.
abbrev pub answered : Call → ℕ → ℕ → Sys World → Sys World
answered call e n s = record s {
  err_code = 0;
  errno = if e == 0 then s.errno else e;
  world = record (given_back s.world n) { trace = call ∷ s.world.trace };
}

module _ (os : Os) (modules_path name : Bytes) (s : Sys World) (pos' : s.world.next ≢ 0)
    (granted : s.world.grants s.world.allocs ≡ true)
    (unused : s.world.heap s.world.next ≡ none) where
  -- If memory for the path is granted, at an address where nothing is live, add_module makes one
  -- symbolic link, to the given object, at the path that is the directory followed by the name;
  -- it returns 0, or -1 with errno, as symlink does, and every block of memory is as before.
  pub add_module_lem :
      (path : Bytes)
      → add_module os path name modules_path s
        ≡ ok
            (if os.symlink s.world.trace path (some (modules_path ++ name)) == 0
              then pos 0
              else negsuc 0)
            (answered
              (Call.symlink path (some (modules_path ++ name)))
              (os.symlink s.world.trace path (some (modules_path ++ name)))
              (path_len modules_path name)
              s)
  unfolding add_module
  add_module_lem path =
      simp
        (
          get_mod_path_lem modules_path name s pos' granted,
          ==_false s.world.next 0 pos',
          text_at_fresh,
        )
        (rw (
          free_fresh
            (record s.world {
              trace = Call.symlink path (some (modules_path ++ name)) ∷ s.world.trace;
            })
            (path_len modules_path name)
            (text_block (path_len modules_path name) (modules_path ++ name)) pos' unused))

  -- If memory for the path is granted, at an address where nothing is live, rm_module removes
  -- the file at the path that is the directory followed by the name; it returns 0, or -1 with
  -- errno, as remove does, and every block of memory is as before.
  pub rm_module_lem :
      rm_module os name modules_path s
      ≡ ok
          (if os.remove s.world.trace (some (modules_path ++ name)) == 0 then pos 0 else negsuc 0)
          (answered
            (Call.remove (some (modules_path ++ name)))
            (os.remove s.world.trace (some (modules_path ++ name)))
            (path_len modules_path name)
            s)
  unfolding rm_module
  rm_module_lem =
      simp
        (
          get_mod_path_lem modules_path name s pos' granted,
          ==_false s.world.next 0 pos',
          text_at_fresh,
        )
        (rw (
          free_fresh
            (record s.world { trace = Call.remove (some (modules_path ++ name)) ∷ s.world.trace })
            (path_len modules_path name)
            (text_block (path_len modules_path name) (modules_path ++ name)) pos' unused))
