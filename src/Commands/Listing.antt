-- ===== src/Commands/Listing.antt =====
-- `prom module list`: src/prom-module.c, cmd_arg_list, on the modules of src/modules/mods.c.
use prom.Prelude.{
  ℕ, ◌+◌, ◌*◌, ◌^◌, ◌≤◌, ◌<◌, ◌≡◌, refl, ap, ◌∙◌, false, none, some, List, [], ◌∷◌, ◌++◌, length,
  arith, ==_false, le→leb,
}
use prom.Prelude.Bytes.{Bytes, codes}
use prom.Prelude.Int.{ℤ, pos}
use prom.Machine.{ok}
use prom.Machine.Returns
use prom.Machine.Returns.{Returns, returns}
use prom.Memory.{Cell, loaded, unset, ptr, Block, World, Call, print_out, free, block_at}
use prom.Errm.State.{Sys}
use prom.Errm.Scope.{IsBalanced}
use prom.Dga.{dga_free}
use prom.Dga.Laws.{IsArray, get-IsArray, dga_header-add}
use prom.Filesystem.Alloc.{IsRoomy, IsBack}
use prom.Filesystem.Dir.Listing.{AreShort}
use prom.Filesystem.System.{Os, IsHarmless, opened}
use prom.Modules.Lists.{free_installed_mods}
use prom.Modules.Load.{complete}
use prom.Modules.Names.{onto, shown, length-onto}
use prom.Modules.Grows.{AreCells, modules}
use prom.Modules.Installs.{Installs, one_more}
use prom.Modules.Installed.{Found, found, not_found, installed_mods_lem}
use prom.Commands.{modules_path, print_modules, cmd_arg_list, list_mods, wants_clean}

-- What is printed of a module, the last line first.
abbrev pub with_module : Cell → List Call → List Call
with_module (loaded h name desc) trace =
    print_out (codes "Desc: " ++ desc ++ codes "\n")
    ∷ print_out (codes "Name: " ++ name ++ codes "\n")
    ∷ print_out (codes "-----\n")
    ∷ trace
with_module unset trace = trace
with_module (ptr p) trace = trace

abbrev pub with_modules : List Cell → List Call → List Call
with_modules [] trace = trace
with_modules (c ∷ cs) trace = with_modules cs (with_module c trace)

data AreLoaded : List Cell → Type 0 where
  none_loaded : AreLoaded []
  one_loaded :
      {h : ℕ} {name desc : Bytes} {cs : List Cell}
      → AreLoaded cs
      → AreLoaded (loaded h name desc ∷ cs)

Installs-AreLoaded :
    (os : Os) (path : Bytes) {names : List Bytes} {trace trace' : List Call} {mods : List Cell}
    → Installs os path names trace (some mods) trace'
    → AreLoaded mods
Installs-AreLoaded os path Installs.no_more = none_loaded
Installs-AreLoaded os path (one_more (complete e n d i) rest) =
    one_loaded (Installs-AreLoaded os path rest)

older-AreCells :
    (f : ℕ → Cell) (todo done : List Cell) → AreCells f (onto todo done) → AreCells f done
older-AreCells f [] done a = a
older-AreCells f (c ∷ todo) done a = (older-AreCells f todo (c ∷ done) a).1

abbrev traced : Sys World → List Call → Sys World
traced s trace = record s { world = record s.world { trace = trace } }

module _ (os : Os) (q len : ℕ) (block : Block) (room : 24 + 56 * len ≤ block.size) where
  inside : (i : ℕ) → i < len → 24 + 56 * (i + 1) ≤ block.size
  inside i lt = omega (arith, room)

  traced-IsArray :
      (s : Sys World) (trace : List Call)
      → IsArray s.world q (modules len) block
      → IsArray (traced s trace).world q (modules len) block
  traced-IsArray s trace a = record { not_null = a.not_null; live = a.live; header = a.header }

  print_modules_lem :
      (todo done : List Cell) (i : ℕ) (s : Sys World)
      → IsArray s.world q (modules len) block
      → length todo + length done ≤ len
      → i ≡ length done
      → AreCells block.cells (onto todo done)
      → AreLoaded todo
      → print_modules os (length todo) (q + 24) i s
        ≡ ok tt (traced s (with_modules todo s.world.trace))
  print_modules_lem [] done i s a fits at cells none_loaded = refl
  print_modules_lem (c ∷ todo) done i s a fits at cells (one_loaded {h} {name} {desc} l) =
      rw
        (
          get-IsArray a i
              (le→leb (24 + 56 * (i + 1)) block.size (inside i (omega (arith, at, fits)))),
          ap block.cells at ∙ (older-AreCells block.cells todo (c ∷ done) cells).0,
        )
        (print_modules_lem todo (c ∷ done) (i + 1)
          (traced s (with_module (loaded h name desc) s.world.trace)) (traced-IsArray s _ a)
          (omega (arith, fits)) (omega (arith, at)) cells l)

-- What the command answers and prints behind `trace`: all the modules, or nothing if one does not load.
pub data Printed (os : Os) (names : List Bytes) (trace : List Call) (r : ℤ) (trace' : List Call)
    : Type 0 where
  all_printed :
      {trace'' : List Call} {mods : List Cell}
      → Installs os modules_path names trace (some mods) trace''
      → trace' ≡ print_out (codes "-----\n") ∷ with_modules mods trace''
      → r ≡ pos 0
      → Printed os names trace r trace'
  none_printed :
      Installs os modules_path names trace none trace' → r ≡ pos 1 → Printed os names trace r trace'

module _ (os : Os) (n : ℕ) (s : Sys World) (room : IsRoomy s.world) (names : List Bytes) where
  -- What the command leaves.
  abbrev pub Listed : ℤ → Sys World → Type 0
  Listed r t =
      Printed os names (Call.closedir ∷ s.world.trace) r t.world.trace
      × ((a : ℕ) → t.world.heap a ≡ s.world.heap a)
      × IsBack n s t

  on-IsBack : (t : Sys World) (w : World) → IsBack n s t → IsBack n s (record t { world = w })
  on-IsBack t w back = record {
    balanced = record { depth = back.balanced.depth; idle = back.balanced.idle };
    callers = back.callers;
  }

  after_installed :
      {r : ℕ × ℕ} (t : Sys World)
      → Found os modules_path n s names 0 r t
      → Returns Listed (list_mods os r t)
  unfolding free_installed_mods dga_free free
  after_installed t (found {mods} {q} i g e code back) =
      rw
        (
          e,
          ==_false (q + 24) 0 (omega arith),
          print_modules_lem os q (length (onto mods [])) g.block g.room mods [] 0 t g.array
              (omega (arith, length-onto mods [])) refl g.cells
              (Installs-AreLoaded os modules_path i),
          dga_header-add q,
          ==_false q 0 g.array.not_null,
          block_at,
          g.array.live,
        )
        (returns (
          all_printed i refl refl,
          λ a. ground (arith, g.heap a, room.unused q, g.behind),
          on-IsBack t _ back,
        ))
  after_installed t (not_found i heap roomy e code back) =
      rw e (returns (none_printed i refl, heap, back))

-- If memory is granted, the path of the modules expands to words, opendir opens the first of them,
-- every module's init returns and leaves the program's memory alone, and the sizes fit the
-- machine's words, then `prom module list` without --clean, called fewer than 8 functions deep on a
-- balanced stack, prints the name and the description of every module whose file name does not
-- start with a dot, in the directory's order, and returns 0; or, if one of them does not load,
-- prints nothing and returns 1. It closes the directory, and then makes no calls but those of
-- dlopen, of the init of each module that loads, and the prints, so that no object is closed. Every
-- address of the memory then holds what it held before, and the stack of deferred calls is as its
-- caller left it.
pub cmd_arg_list_lem :
    (os : Os) (n : ℕ) (s : Sys World) (argv entries words : List Bytes) (word : Bytes)
    → n < 8
    → IsBalanced n s
    → IsRoomy s.world
    → wants_clean os argv ≡ false
    → IsHarmless os
    → os.wordexp s.world.trace modules_path ≡ some (word ∷ words)
    → ((trace : List Call) → os.opendir trace word ≡ opened entries)
    → 24 + 56 * length entries < 2 ^ 64
    → AreShort entries
    → Returns
        (λ r t.
          Printed os (shown entries) (Call.closedir ∷ s.world.trace) r t.world.trace
          × ((a : ℕ) → t.world.heap a ≡ s.world.heap a)
          × IsBack n s t)
        (cmd_arg_list os argv s)
unfolding cmd_arg_list
cmd_arg_list_lem os n s argv entries words word lt b room plain harmless found' opens fits short =
    rw plain (
      Returns.bind
        (installed_mods_lem os modules_path n s lt b room entries 0 word words harmless found' opens
          fits short)
        λ r t f. after_installed os n s room (shown entries) t f)
