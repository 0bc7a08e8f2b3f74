-- ===== src/Commands/Dispatch.antt =====
-- What the command line does with its arguments: src/main.c and src/prom-module.c.
use prom.Prelude.{
  or-eq-false, ℕ, ◌≡◌, ◌≢◌, refl, Bool, true, false, ◌||◌, none, some, List, [], ◌∷◌,
}
use prom.Prelude.Bytes.{Bytes, codes, str_eq}
use prom.Prelude.Int.{ℤ, pos}
use prom.Machine.{ok, exited}
use prom.Memory.{loaded, World, Call, print_err}
use prom.Memory.Laws.{given_back}
use prom.Errm.State.{Sys}
use prom.Filesystem.{P}
use prom.Filesystem.System.{Os}
use prom.Modules.{unload_module}
use prom.Modules.Links.{add_module_lem, path_len}
use prom.Commands.{usage_exit, prom_usage, module_usage, module_main, cmd_main, add_loaded}

-- The state after a line on stderr.
abbrev pub complained : Bytes → Sys World → Sys World
complained t s = record s { world = record s.world { trace = print_err t ∷ s.world.trace } }

-- `prom module` or `prom shell`
abbrev pub is_prom_command : List Bytes → Bool
is_prom_command [] = false
is_prom_command (self ∷ []) = false
is_prom_command (self ∷ c ∷ rest) = str_eq c (codes "module") || str_eq c (codes "shell")

-- `prom module list`, `add` or `remove`
abbrev pub is_module_command : List Bytes → Bool
is_module_command [] = false
is_module_command (self ∷ []) = false
is_module_command (self ∷ c ∷ rest) =
    str_eq c (codes "list") || (str_eq c (codes "add") || str_eq c (codes "remove"))

module _ (os : Os) (s : Sys World) where
  -- Without a command, or with one that is neither module nor shell, prom prints its usage and
  -- exits with status 1, and does nothing else.
  cmd_main_usage :
      (shell_main : List Bytes → P ℤ) (argv : List Bytes)
      → is_prom_command argv ≡ false
      → cmd_main os shell_main argv s ≡ exited 1 (complained prom_usage s)
  unfolding cmd_main usage_exit
  cmd_main_usage sh [] h = refl
  cmd_main_usage sh (self ∷ []) h = refl
  cmd_main_usage sh (self ∷ c ∷ rest) h =
      let (m, sh') = or-eq-false (str_eq c (codes "module")) (str_eq c (codes "shell")) h in
      rw (m, sh')

  -- Without a command, or with one that is neither list nor add nor remove, prom module prints
  -- its usage and exits with status 1, and does nothing else.
  module_main_usage :
      (argv : List Bytes)
      → is_module_command argv ≡ false
      → module_main os argv s ≡ exited 1 (complained module_usage s)
  unfolding module_main usage_exit
  module_main_usage [] h = refl
  module_main_usage (self ∷ []) h = refl
  module_main_usage (self ∷ c ∷ rest) h =
      let (l, more) =
        or-eq-false (str_eq c (codes "list")) (str_eq c (codes "add") || str_eq c (codes "remove"))
          h in
      let (a, r) = or-eq-false (str_eq c (codes "add")) (str_eq c (codes "remove")) more in
      rw (l, a, r)

  -- Once the object of a new module is loaded and memory and the link are granted, the add makes
  -- one symbolic link, at the module's bare name and not in the directory of modules, closes the
  -- object and succeeds, and every block of memory is as before.
  pub add_loaded-link :
      (mod_path abs_text name desc : Bytes) (h : ℕ)
      → s.world.next ≢ 0
      → s.world.grants s.world.allocs ≡ true
      → s.world.heap s.world.next ≡ none
      → os.symlink s.world.trace abs_text (some name) ≡ 0
      → (n : ℕ) × (add_loaded os mod_path abs_text (loaded h name desc) s
          ≡ ok (pos 0) (record s {
            err_code = 0;
            world = record (given_back s.world n) {
              trace = Call.dlclose h ∷ Call.symlink abs_text (some name) ∷ s.world.trace;
            };
          }))
  unfolding unload_module
  add_loaded-link mod_path abs_text name desc h pos' granted unused linked =
      (path_len [] name, simp (add_module_lem os [] name s pos' granted unused abs_text, linked))
