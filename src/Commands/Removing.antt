-- ===== src/Commands/Removing.antt =====
-- `prom module remove`: src/prom-module.c, cmd_arg_remove.
use prom.Prelude.{
  ℕ, ◌≡◌, ◌≢◌, refl, true, none, some, List, ◌∷◌, ◌++◌, ◌==◌, if◌then◌else◌, Bool-cases, inl, inr,
}
use prom.Prelude.Bytes.{Bytes, codes}
use prom.Prelude.Int.{pos}
use prom.Machine.{ok}
use prom.Memory.{World, Call}
use prom.Errm.State.{Sys}
use prom.Filesystem.System.{Os}
use prom.Modules.Links.{answered, path_len, rm_module_lem}
use prom.Commands.{modules_path, cmd_arg_remove, decimal}
use prom.Commands.Dispatch.{complained}

module _ (os : Os) (mod_name : Bytes) (s : Sys World) where
  -- What remove answers: 0, or errno.
  abbrev pub reply : ℕ
  reply = os.remove s.world.trace (some (modules_path ++ mod_name))

  -- The state behind the removal.
  abbrev pub asked_removal : Sys World
  asked_removal =
      answered (Call.remove (some (modules_path ++ mod_name))) reply
        (path_len modules_path mod_name) s

  -- If memory for the path is granted, at an address where nothing is live, `prom module remove`
  -- with a name asks once for the removal of that name in the directory of the modules. If it
  -- succeeds, the command returns 0 and prints nothing; otherwise it returns 1 behind one message
  -- on stderr, which says for ENOENT (2) that there is no such module and for any other errno what
  -- strerror says and the number. Every block of memory is as before.
  pub cmd_arg_remove_lem :
      (self : Bytes) (rest : List Bytes)
      → s.world.next ≢ 0
      → s.world.grants s.world.allocs ≡ true
      → s.world.heap s.world.next ≡ none
      → cmd_arg_remove os (self ∷ mod_name ∷ rest) s ≡ (
          if reply == 0
          then ok (pos 0) asked_removal
          else ok (pos 1) (
              complained
                (if reply == 2
                  then codes "Module with name " ++ mod_name ++ codes " doesn't exist.\n"
                  else os.strerror reply ++ codes ". " ++ decimal reply ++ codes "\n")
                asked_removal))
  unfolding cmd_arg_remove
  cmd_arg_remove_lem self rest pos' granted unused = elim (Bool-cases (reply == 0)) [
    | inl gone ↦ rw (rm_module_lem os modules_path mod_name s pos' granted unused, gone) refl
    | inr kept ↦ rw (rm_module_lem os modules_path mod_name s pos' granted unused, kept) refl
  ]
