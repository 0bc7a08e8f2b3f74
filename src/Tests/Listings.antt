-- ===== src/Tests/Listings.antt =====
-- The contents of a directory and the modules in it, on a small system.
use prom.Prelude.{ℕ, ◌+◌, ◌≡◌, refl, false, some, inl, [], ◌∷◌, arith, List}
use prom.Prelude.Bytes.{Bytes, codes}
use prom.Machine.{and_then, faulted, ok, pure}
use prom.Machine.Returns.{Returns}
use prom.Filesystem.{lift}
use prom.Filesystem.System.{Os, Opened}
use prom.Filesystem.Alloc.{IsBack}
use prom.Filesystem.Freed.{free_dir_content-dir_content}
use prom.Filesystem.Dir.{read_names, dir_content, free_dir_content}
use prom.Filesystem.Content.{Content, dir_content_lem}
use prom.Modules.Lists.{name_at, install_all, clean_one, installed_mods}
use prom.Modules.Refused.{without, install_all_refused, clean_one_refused}
use prom.Dga.{get}
use prom.Modules.Installed.{Found, installed_mods_lem}
use prom.Commands.{cmd_arg_list, modules_path}
use prom.Commands.Listing.{Printed, cmd_arg_list_lem}
use prom.Memory.{Call, ptr, null, text_at, World, place}
use prom.Dga.Laws.{IsArray, new_block}
use prom.Errm.State.{Sys, not_enough_memory}
use prom.Filesystem.Dir.Refused.{read_names_refused}
use prom.Prelude.Int.{pos}
use prom.Modules.Lists.{clean_ul_mod_names}
use prom.Modules.Cleans.{Cleans}
use prom.Modules.Cleaned.{Removed, clean_ul_mod_names_lem}
use prom.Commands.Cleaning.{with_removed, cmd_arg_list-clean}
use prom.Filesystem.System.{Dlopened}
use prom.Tests.Files.{os, sys, name, sys-IsBalanced, sys-IsRoomy}

-- A directory with a hidden file.
abbrev files : List Bytes
files = codes ".git" ∷ codes "red" ∷ codes "blue" ∷ []

abbrev listing : Os
listing = record os { opendir = λ _ _. Opened.opened files }

dir_content_example :
    Returns (Content 0 sys (codes "blue" ∷ codes "red" ∷ [])) (dir_content listing name 0 sys)
dir_content_example =
    dir_content_lem listing 0 sys (omega arith) sys-IsBalanced sys-IsRoomy name name files [] 0 refl
      (λ _. refl) (omega arith) (omega arith, (omega arith, (omega arith, tt)))

freed_example :
    Returns
      (λ _ t. (a : ℕ) → t.world.heap a ≡ sys.world.heap a)
      (and_then (dir_content listing name 0 sys) λ (names, len). lift (free_dir_content names))
freed_example =
    free_dir_content-dir_content listing 0 sys name name files [] 0 (omega arith) sys-IsBalanced
      sys-IsRoomy refl (λ _. refl) (omega arith) (omega arith, (omega arith, (omega arith, tt)))

installed_mods_example :
    Returns
      (Found listing name 0 sys (codes "red" ∷ codes "blue" ∷ []) 0)
      (installed_mods listing name 0 sys)
installed_mods_example =
    installed_mods_lem listing name 0 sys (omega arith) sys-IsBalanced sys-IsRoomy files 0 name []
      (λ h w. refl) refl (λ _. refl) (omega arith) (omega arith, (omega arith, (omega arith, tt)))

cmd_arg_list_example :
    Returns
      (λ r t.
        Printed listing (codes "red" ∷ codes "blue" ∷ []) (Call.closedir ∷ []) r t.world.trace
        × ((a : ℕ) → t.world.heap a ≡ sys.world.heap a)
        × IsBack 0 sys t)
      (cmd_arg_list listing (codes "list" ∷ []) sys)
cmd_arg_list_example =
    cmd_arg_list_lem listing 0 sys (codes "list" ∷ []) files [] modules_path (omega arith)
      sys-IsBalanced sys-IsRoomy refl (λ h w. refl) refl (λ _. refl) (omega arith)
      (omega arith, (omega arith, (omega arith, tt)))

-- Without the symbols of a module, the links in the directory are removed.
abbrev damaged : Os
damaged = record listing { dlopen = λ _ _. Dlopened.dlerror (codes "no object") }

clean_ul_mod_names_example :
    Returns
      (Removed damaged name 0 sys (codes "red" ∷ codes "blue" ∷ []))
      (clean_ul_mod_names damaged name 0 sys)
clean_ul_mod_names_example =
    clean_ul_mod_names_lem damaged name 0 sys (omega arith) sys-IsBalanced sys-IsRoomy files 0 name
      [] (λ h w. refl) refl (λ _. refl) (omega arith)
      (omega arith, (omega arith, (omega arith, tt)))

cmd_arg_list-clean_example :
    Returns
      (λ r t.
        (trace' : List Call) × (removed : List Bytes) × Cleans damaged modules_path
          (codes "red" ∷ codes "blue" ∷ [])
          (Call.closedir ∷ [])
          removed
          trace'
        × (t.world.trace ≡ with_removed removed trace')
        × (r ≡ pos 0)
        × ((a : ℕ) → t.world.heap a ≡ sys.world.heap a)
        × IsBack 0 sys t)
      (cmd_arg_list damaged (codes "list" ∷ codes "--clean" ∷ []) sys)
cmd_arg_list-clean_example =
    cmd_arg_list-clean damaged 0 sys (codes "list" ∷ codes "--clean" ∷ []) files [] modules_path
      (omega arith) sys-IsBalanced sys-IsRoomy refl (λ h w. refl) refl (λ _. refl) (omega arith)
      (omega arith, (omega arith, (omega arith, tt)))

-- The first name of a directory, behind the new array of names, with no memory for more.
abbrev crowded : Sys World
crowded = record sys { world = place (record sys.world { grants = λ _. false }) 24 (new_block 0 8) }

crowded-IsArray : IsArray crowded.world sys.world.next (record { len = 0; szt = 8 }) (new_block 0 8)
crowded-IsArray = record { not_null = ground arith; live = refl; header = refl }

read_names_refused_example :
    read_names (codes "foo.so" ∷ []) (sys.world.next + 24) 0 crowded ≡ faulted
read_names_refused_example =
    read_names_refused (codes "foo.so") [] sys.world.next crowded crowded-IsArray refl refl refl
      (omega arith) (ground arith) refl (inl refl)

clean_one_refused_example :
    clean_one os name 0 (codes "red") (sys.world.next + 24) 0 (λ _. pure (0, 0)) crowded ≡ faulted
clean_one_refused_example =
    clean_one_refused os name (codes "red") sys.world.next crowded crowded-IsArray 0 0
      (λ _. pure (0, 0)) refl refl (omega arith) (omega arith) (ground arith) (ground arith) refl
      (inl refl)

-- A name, an array with it, and an empty array of modules; there is no memory for more.
abbrev with_name : World
with_name = place sys.world 28 (record (new_block 4 1) { text = some (codes "red") })

abbrev with_names : World
with_names = place with_name 32 (record (new_block 1 8) { cells = λ _. ptr (sys.world.next + 24) })

abbrev short : Sys World
short = record sys { world = place (record with_names { grants = λ _. false }) 24 (new_block 0 56) }

short-IsArray : IsArray short.world with_names.next (record { len = 0; szt = 56 }) (new_block 0 56)
short-IsArray = record { not_null = ground arith; live = refl; header = refl }

read-short : name_at (with_name.next + 24) 0 short.world ≡ ok (codes "red") short.world
unfolding get text_at
read-short = refl

install_all_refused_example :
    install_all os name 1 0 (with_name.next + 24) (with_names.next + 24) 0 short
    ≡ ok
        (null, 0)
        (record short {
          err_code = not_enough_memory;
          world = without os name (codes "red") with_names.next short short-IsArray;
        })
install_all_refused_example =
    install_all_refused os name (codes "red") with_names.next short short-IsArray 0 0
      (with_name.next + 24) 0 read-short (omega arith) refl
