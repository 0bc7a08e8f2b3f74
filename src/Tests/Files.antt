-- ===== src/Tests/Files.antt =====
-- Paths, modules and the command line on a small system.
use prom.Prelude.{
  ℕ, ◌-◌, ◌≡◌, refl, none, some, true, [], ◌∷◌, ◌++◌, arith, length, take, replicate, ◌==◌,
  if◌then◌else◌,
}
use prom.Prelude.Int.{pos, negsuc}
use prom.Prelude.Bytes.{Bytes, codes}
use prom.Machine.{Run, ok}
use prom.Machine.Returns.{Returns}
use prom.Memory.{World, Call, loaded}
use prom.Memory.Laws.{given_back, text_block}
use prom.Errm.State.{Frame, Sys}
use prom.Errm.Scope.{IsBalanced}
use prom.Filesystem.{open_dir, abs_path, free_handle, expand}
use prom.Filesystem.System.{Os, Opened, Symbol, Dlopened}
use prom.Filesystem.Alloc.{IsRoomy, Leaves}
use prom.Filesystem.Expand.{expand_lem}
use prom.Filesystem.Absolute.{abs_path_absolute}
use prom.Filesystem.Relative.{below, below_len}
use prom.Filesystem.Refused.{IsRefused, abs_path_unparsed}
use prom.Filesystem.Joined.{abs_path_relative}
use prom.Filesystem.Wanting.{IsWanting, expand_refused}
use prom.Filesystem.Unopened.{IsUnopened, open_dir_refused}
use prom.Modules.Load.{ran, Loads, load_module_lem}
use prom.Modules.{load_module}
use prom.Modules.Links.{path_len}
use prom.Commands.{add_loaded, cmd_arg_remove}
use prom.Commands.Removing.{cmd_arg_remove_lem, asked_removal}
use prom.Commands.Dispatch.{add_loaded-link, complained}
use prom.Shell.StatusBar.{set_status_bar, status_text}
use prom.Shell.StatusBar.Shape.{set_status_bar_lem}

abbrev pub name : Bytes
name = codes "red"

-- A system with one word for each path, and whose removals find nothing.
abbrev pub os : Os
os = record {
  wordexp = λ _ p. some (p ∷ []);
  getcwd = λ _. some (codes "/");
  opendir = λ _ _. Opened.opened [];
  dlopen = λ _ _. Dlopened.handle 5;
  dlsym = λ _ _ _. Symbol.found name;
  symlink = λ _ _ _. 0;
  remove = λ _ _. 2;
  dl_errno = λ _ e. e;
  init = λ _. Run.ok tt;
  dlclose = λ _ _. none;
  strerror = λ _. codes "error";
}

abbrev idle_frame : Frame World
idle_frame = record {
  static_defers = λ _. free_handle;
  static_defer_args = λ _. 0;
  dyn_defers = λ _. free_handle;
  dyn_defer_args = λ _. 0;
  pool_data = λ _. 0;
  pool_used = 0;
  static_len = 0;
  dyn_len = 0;
}

abbrev pub sys : Sys World
sys = record {
  err_code = 0;
  errno = 0;
  stack = λ _. idle_frame;
  curr = negsuc 0;
  world = record { heap = λ _. none; next = 4096; allocs = 0; grants = λ _. true; trace = [] };
}

pub sys-IsBalanced : IsBalanced 0 sys
sys-IsBalanced = record {
  depth = refl;
  idle = λ k le. record { no_statics = refl; no_dyns = refl; no_pool = refl };
}

pub sys-IsRoomy : IsRoomy sys.world
sys-IsRoomy = record { next_pos = ground arith; granted = λ i. refl; unused = λ a le. refl }

expand_example : Returns (Leaves 0 sys (text_block 4 name)) (expand os name sys)
expand_example = expand_lem os 0 sys (omega arith) sys-IsBalanced sys-IsRoomy name name [] refl

absolute_example :
    Returns (Leaves 0 sys (text_block 5 (codes "/red"))) (abs_path os (codes "/red") sys)
absolute_example =
    abs_path_absolute os 0 sys (omega arith) sys-IsBalanced sys-IsRoomy (codes "/red")
      (codes "/red") [] refl refl

relative_example :
    Returns
      (Leaves 0 sys (text_block (below_len (codes "/") name) (below (codes "/") name)))
      (abs_path os name sys)
relative_example =
    abs_path_relative os 0 sys (omega arith) sys-IsBalanced sys-IsRoomy (codes "/") name name []
      refl refl (λ t. refl)

-- A memory with the string at address 100.
abbrev named : Sys World
named = record sys {
  world = record sys.world { heap = λ a. if 100 == a then some (text_block 4 name) else none };
}

named-IsRoomy : IsRoomy named.world
named-IsRoomy = record {
  next_pos = ground arith;
  granted = λ i. refl;
  unused = λ a le. ground arith;
}

unparsed_example :
    Returns (IsRefused 0 sys) (abs_path (record os { wordexp = λ _ _. none }) (codes "(") sys)
unparsed_example =
    abs_path_unparsed (record os { wordexp = λ _ _. none }) (codes "(") 0 sys (omega arith)
      sys-IsBalanced refl

add_loaded_example :
    (n : ℕ) × (add_loaded os (codes "red.so") (codes "/red.so") (loaded 5 name []) sys
      ≡ ok (pos 0) (record sys {
        err_code = 0;
        world = record (given_back sys.world n) {
          trace = Call.dlclose 5 ∷ Call.symlink (codes "/red.so") (some name) ∷ [];
        };
      }))
add_loaded_example =
    add_loaded-link os sys (codes "red.so") (codes "/red.so") name [] 5 (ground arith) refl refl
      refl

status_bar_example :
    set_status_bar 30 ≡ take 29 (status_text ++ replicate (30 - length status_text) b' ') ++ 0 ∷ []
status_bar_example = set_status_bar_lem 29

load_module_example :
    let path = some (codes "/m/" ++ name) in
    let trace = Call.dlopen path ∷ [] in
    Returns
      (λ r t.
        (code : ℕ) × Loads (os.dlopen [] path) (os.dlsym trace) r code
        × (t ≡ record sys {
          err_code = code;
          world = record (given_back sys.world (path_len (codes "/m/") name)) {
            trace = ran r.1 trace;
          };
        }))
      (load_module os name (codes "/m/") sys)
load_module_example =
    load_module_lem os name (codes "/m/") sys (λ h w. refl) (ground arith) refl refl

-- Only the first request is granted.
abbrev scarce : Sys World
scarce = record sys { world = record sys.world { grants = λ i. i == 0 } }

expand_refused_example : Returns (IsWanting 0 scarce) (expand os name scarce)
expand_refused_example =
    expand_refused os 0 scarce (omega arith)
      (record { depth = refl; idle = λ k le. sys-IsBalanced.idle k le }) (ground arith) refl refl
      name name [] refl

-- EMFILE is none of the values that errm knows.
unopened_example :
    Returns
      (IsUnopened 0 sys 24)
      (open_dir (record os { opendir = λ _ _. Opened.refused 24 }) name sys)
unopened_example =
    open_dir_refused (record os { opendir = λ _ _. Opened.refused 24 }) 0 sys (omega arith)
      sys-IsBalanced sys-IsRoomy name name 24 [] refl (λ _. refl)

-- The module that is to be removed does not exist.
cmd_arg_remove_example :
    cmd_arg_remove os (codes "remove" ∷ name ∷ []) sys
    ≡ ok (pos 1) (
        complained
          (codes "Module with name " ++ name ++ codes " doesn't exist.\n")
          (asked_removal os name sys))
cmd_arg_remove_example = cmd_arg_remove_lem os name sys (codes "remove") [] (ground arith) refl refl
