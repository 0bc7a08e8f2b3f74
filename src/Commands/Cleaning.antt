-- ===== src/Commands/Cleaning.antt =====
-- `prom module list --clean`: src/prom-module.c, cmd_arg_list, on clean_ul_mod_names.
use prom.Prelude.{
  ℕ, ◌+◌, ◌*◌, ◌^◌, ◌<◌, ◌≡◌, refl, ap, true, some, List, [], ◌∷◌, ◌++◌, length, arith, ==_false,
}
use prom.Prelude.Bytes.{Bytes, codes}
use prom.Prelude.Int.{ℤ, pos}
use prom.Machine.{ok}
use prom.Machine.Returns
use prom.Machine.Returns.{Returns, returns}
use prom.Memory.{World, Call, print_out}
use prom.Errm.State.{Sys}
use prom.Errm.Scope.{IsBalanced}
use prom.Filesystem.Alloc.{IsRoomy, IsBack}
use prom.Filesystem.Dir.Elements.{Lists}
use prom.Filesystem.System.{Os, IsHarmless, opened}
use prom.Modules.Lists.{name_at, free_ul_mod_names}
use prom.Modules.Names.{onto, shown, name_at_lem, free_names}
use prom.Modules.Cleans.{Cleans, AreBrief}
use prom.Modules.Cleaned.{Removed, clean_ul_mod_names_lem}
use prom.Commands.{modules_path, print_removed, cmd_arg_list, clean_removed, wants_clean}

-- What is printed of the removed modules, the last line first.
abbrev pub with_removed : List Bytes → List Call → List Call
with_removed [] trace = trace
with_removed (name ∷ names) trace =
    with_removed names (print_out (codes "Removed: " ++ name ++ codes "\n") ∷ trace)

abbrev traced : Sys World → List Call → Sys World
traced s trace = record s { world = record s.world { trace = trace } }

module _ (os : Os) (floor : ℕ) (w : World) (p : ℕ) (names : List Bytes)
    (l : Lists floor w p names) where
  print_removed_lem :
      (todo older : List Bytes) (i : ℕ) (s : Sys World)
      → names ≡ onto todo older
      → i ≡ length older
      → ((a : ℕ) → a < w.next → s.world.heap a ≡ w.heap a)
      → print_removed os (length todo) (p + 24) i s
        ≡ ok tt (traced s (with_removed todo s.world.trace))
  print_removed_lem [] older i s split at same = refl
  print_removed_lem (name ∷ todo) older i s split at same =
      let read : name_at (p + 24) i s.world ≡ ok name s.world =
        rw at (name_at_lem floor w p names l s.world same name todo older split) in
      rw read (
        print_removed_lem todo (name ∷ older) (i + 1)
          (traced s (print_out (codes "Removed: " ++ name ++ codes "\n") ∷ s.world.trace)) split
          (omega (arith, at)) same)

module _ (os : Os) (n : ℕ) (s : Sys World) (room : IsRoomy s.world) (names : List Bytes) where
  -- What the command leaves.
  abbrev CleanedUp : ℤ → Sys World → Type 0
  CleanedUp r t =
      (trace' : List Call) × (removed : List Bytes) × Cleans os modules_path names
        (Call.closedir ∷ s.world.trace) removed trace'
      × (t.world.trace ≡ with_removed removed trace')
      × (r ≡ pos 0)
      × ((a : ℕ) → t.world.heap a ≡ s.world.heap a)
      × IsBack n s t

  after_cleaning :
      {r : ℕ × ℕ} (t : Sys World)
      → Removed os modules_path n s names r t
      → Returns CleanedUp (clean_removed os r t)
  unfolding free_ul_mod_names
  after_cleaning t d =
      let printed = traced t (with_removed d.removed t.world.trace) in
      let (_, v, frees, (freed, kept)) = Returns.reached (
        free_names d.edge t.world d.array (onto d.removed []) d.lists printed.world λ a lt. refl) in
      rw
        (
          d.result,
          ==_false (d.array + 24) 0 (omega arith),
          print_removed_lem os d.edge t.world d.array (onto d.removed []) d.lists d.removed [] 0 t
              refl refl (λ a lt. refl),
          frees,
        )
        (returns (
          t.world.trace,
          d.removed,
          d.cleans,
          ap (λ z. z.trace) kept,
          refl,
          λ a. ground (arith, freed a, d.heap a, d.roomy.unused a, room.unused a, d.behind),
          record {
            balanced = record { depth = d.back.balanced.depth; idle = d.back.balanced.idle };
            callers = d.back.callers;
          },
        ))

-- If memory is granted, the path of the modules expands to words, opendir opens the first of them,
-- every module's init returns and leaves the program's memory alone, and the sizes fit the
-- machine's words, then `prom module list` with --clean, called fewer than 9 functions deep on a
-- balanced stack, tries to load every module whose file name does not start with a dot, in the
-- directory's order, calls the init of each one that loads, asks remove for the link of each one
-- that does not, and then prints the names of those as removed, whatever remove answered, and
-- returns 0. Every address of the memory then holds what it held before, and the stack of deferred
-- calls is as its caller left it.
pub cmd_arg_list-clean :
    (os : Os) (n : ℕ) (s : Sys World) (argv entries words : List Bytes) (word : Bytes)
    → n < 9
    → IsBalanced n s
    → IsRoomy s.world
    → wants_clean os argv ≡ true
    → IsHarmless os
    → os.wordexp s.world.trace modules_path ≡ some (word ∷ words)
    → ((trace : List Call) → os.opendir trace word ≡ opened entries)
    → 24 + 8 * length entries < 2 ^ 64
    → AreBrief entries
    → Returns
        (λ r t.
          (trace' : List Call) × (removed : List Bytes) × Cleans os modules_path
            (shown entries)
            (Call.closedir ∷ s.world.trace)
            removed
            trace'
          × (t.world.trace ≡ with_removed removed trace')
          × (r ≡ pos 0)
          × ((a : ℕ) → t.world.heap a ≡ s.world.heap a)
          × IsBack n s t)
        (cmd_arg_list os argv s)
unfolding cmd_arg_list
cmd_arg_list-clean os n s argv entries words word lt b room clean harmless found opens fits brief =
    rw clean (
      Returns.bind
        (clean_ul_mod_names_lem os modules_path n s lt b room entries 0 word words harmless found
          opens fits brief)
        λ r t d. after_cleaning os n s room (shown entries) t d)
