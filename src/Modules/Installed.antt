-- ===== src/Modules/Installed.antt =====
-- The installed modules: src/modules/mods.c, installed_mods.
mod Body
use prom.Prelude.{
  sym, ℕ, suc, ◌+◌, ◌*◌, ◌^◌, ◌≤◌, ◌<◌, ◌≡◌, refl, ap, ◌∙◌, if◌then◌else◌, none, some, List, [],
  ◌∷◌, length, arith, update, update_self,
}
use native.Mathlib.Nat.{add-zero}
use prom.Prelude.Bytes.{Bytes}
use prom.Machine.{ok}
use prom.Machine.Returns
use prom.Machine.Returns.{Returns, returns}
use prom.Memory.{Cell, World, Call, null}
use prom.Errm.State.{Sys, dyn_shared_obj_error}
use prom.Errm.Ops.{edf_call, edf_func2}
use prom.Errm.Scope.{IsBalanced, entered, entered-IsBalanced}
use prom.Filesystem.{P}
use prom.Filesystem.Alloc.{IsRoomy, IsBack, IsRoomy-heap}
use prom.Filesystem.Content.{Content, dir_content_lem}
use prom.Filesystem.Dir.{dir_content}
use prom.Filesystem.Dir.Listing.{AreShort, listed}
use prom.Filesystem.System.{Os, IsHarmless, opened}
use prom.Modules.Lists.{Listed, installed_mods, install_all}
use prom.Modules.Names.{onto, shown, listed-onto, length-onto}
use prom.Modules.Grows.{Grows}
use prom.Modules.Installs.{Installs, Outcome, installed, refused, install_all_lem}
use prom.Modules.Installed.Body.{installed_body, begun, begun-Grows, body-runs, leaving}

pub length-shown : (entries : List Bytes) → length (shown entries) ≤ length entries
length-shown [] = omega arith
length-shown (file ∷ files) = ground (arith, length-shown files)

-- What installed_mods leaves, if it was called in `s` at depth `n` and ended in `t`: an array of
-- all the modules, besides what was live before, or nothing and an error.
pub data Found (os : Os) (path : Bytes) (n : ℕ) (s : Sys World) (names : List Bytes) (len_ret : ℕ)
    (r : ℕ × ℕ) (t : Sys World) : Type 0 where
  found :
      {mods : List Cell} {q : ℕ}
      → Installs os path names (Call.closedir ∷ s.world.trace) (some mods) t.world.trace
      → Grows s.world (onto mods []) q t.world
      → r ≡ (q + 24, length mods)
      → t.err_code ≡ 0
      → IsBack n s t
      → Found os path n s names len_ret r t
  not_found :
      Installs os path names (Call.closedir ∷ s.world.trace) none t.world.trace
      → ((a : ℕ) → t.world.heap a ≡ s.world.heap a)
      → IsRoomy t.world
      → r ≡ (null, len_ret)
      → t.err_code ≡ dyn_shared_obj_error
      → IsBack n s t
      → Found os path n s names len_ret r t

module _ (os : Os) (path : Bytes) (n : ℕ) (s : Sys World) (lt : n < 8) (b : IsBalanced n s)
    (room : IsRoomy s.world) (entries : List Bytes) (len_ret : ℕ) where
  module _ (r : ℕ × ℕ) (t : Sys World)
      (c : Content (suc n) (entered n s) (listed entries []) r t) where
    Grows-on :
        (cs : List Cell) (q : ℕ) (v w : World) (g : Grows t.world cs q v)
        → ((a : ℕ) → w.heap a ≡ update s.world.heap q (some g.block) a)
        → w ≡ record v { heap = w.heap }
        → Grows s.world cs q w
    Grows-on cs q v w g heap kept =
        let above : s.world.next ≤ q = omega (arith, c.lists.low, c.lists.below, g.behind) in
        record {
          block = g.block;
          array = record {
            not_null = g.array.not_null;
            live = heap q ∙ update_self s.world.heap q _;
            header = g.array.header;
          };
          room = g.room;
          behind = above;
          heap = heap;
          cells = g.cells;
          roomy =
              IsRoomy-heap v w g.roomy kept λ a le.
                ground (arith, heap a, room.unused a, g.roomy.unused q, g.array.live, above);
        }

    same_heap :
        (w : World)
        → ((a : ℕ) → w.heap a ≡ update s.world.heap t.world.next none a)
        → (a : ℕ) → w.heap a ≡ s.world.heap a
    same_heap w heap a =
        ground (arith, heap a, room.unused t.world.next, c.lists.low, c.lists.below)

    above_all :
        (u : Sys World)
        → ((a : ℕ) → u.world.heap a ≡ t.world.heap a)
        → IsRoomy u.world
        → s.world.next ≤ u.world.next
    above_all u heap roomy =
        ground (arith, heap c.array, c.lists.array.live, roomy.unused c.array, c.lists.low)

    finish :
        {r' : ℕ × ℕ} {u : Sys World} (body : P Listed)
        → Outcome os path t.world c.array
            (listed entries [])
            s.world.next
            c.lists
            c.roomy.unused
            len_ret
            (shown entries)
            []
            (begun os path n s lt b room entries len_ret r t c)
            r'
            u
        → body (entered n s) ≡ ok r' u
        → Returns (Found os path n s (shown entries) len_ret) (edf_call body s)
    finish {r'} {u} body (installed {q} {mods} i g e same) runs =
        let (w, call, back, heap, kept) =
          leaving os path n s lt b room entries len_ret r t c q (some g.block) 0 u.errno u.world
            g.behind g.heap body (runs ∙ ap (ok r') same) in
        rw call (
          returns (
            found {mods = mods} {q = q} (rw (sym c.trace, ap (λ v. v.trace) kept) i)
              (Grows-on (onto mods []) q u.world w g heap kept)
              (e ∙ ap (λ k. (q + 24, k)) (length-onto mods [] ∙ add-zero (length mods))) refl back))
    finish {r'} {u} body (refused i heap roomy e same) runs =
        let (w, call, back, heap', kept) =
          leaving os path n s lt b room entries len_ret r t c t.world.next none dyn_shared_obj_error
            u.errno u.world (omega arith) (λ a. ground (arith, heap a, c.roomy.unused t.world.next))
            body (runs ∙ ap (ok r') same) in
        rw call (
          returns (
            not_found (rw (sym c.trace, ap (λ v. v.trace) kept) i) (λ a. same_heap w heap' a)
              (IsRoomy-heap u.world w roomy kept
                λ a le. same_heap w heap' a ∙ room.unused a (omega (arith, above_all u heap roomy)))
              e refl back))

    installing :
        dir_content os path 0 (entered n s) ≡ ok r t
        → Returns
            (Outcome os path t.world c.array
              (listed entries [])
              s.world.next
              c.lists
              c.roomy.unused
              len_ret
              (shown entries)
              []
              (begun os path n s lt b room entries len_ret r t c))
            (install_all os path
              (length (shown entries))
              0
              (c.array + 24)
              (t.world.next + 24)
              len_ret
              (begun os path n s lt b room entries len_ret r t c))
        → Returns
            (Found os path n s (shown entries) len_ret)
            (edf_call (installed_body os path n s lt b room entries len_ret) s)
    installing lists installs =
        let (r', u, runs, o) = Returns.reached installs in
        finish (installed_body os path n s lt b room entries len_ret) o
          (body-runs os path n s lt b room entries len_ret r t c lists runs)

  -- If memory is granted, the path expands to words, opendir opens the first of them, every
  -- module's init returns and leaves the program's memory alone and the sizes fit the machine's
  -- words, then installed_mods, called fewer than 8 functions deep on a balanced stack, loads the
  -- modules of the names that do not start with a dot, in the directory's order, and calls the init
  -- of each one that loads. If they all load, it returns with no error a live array of them in that
  -- order and their number, and nothing else stays allocated; otherwise it stops at the first that
  -- does not load and returns NULL with the error of a shared object, with every block of memory as
  -- before. In both cases the stack of deferred calls is as its caller left it.
  pub installed_mods_lem :
      (word : Bytes) (words : List Bytes)
      → IsHarmless os
      → os.wordexp s.world.trace path ≡ some (word ∷ words)
      → ((trace : List Call) → os.opendir trace word ≡ opened entries)
      → 24 + 56 * length entries < 2 ^ 64
      → AreShort entries
      → Returns (Found os path n s (shown entries) len_ret) (installed_mods os path len_ret s)
  unfolding installed_mods edf_func2
  installed_mods_lem word words harmless found' opens fits short =
      let (r, t, lists, c) = Returns.reached (
        dir_content_lem os (suc n) (entered n s) (omega arith) ((entered-IsBalanced n s b).0) room
          path word entries words 0 found' opens (omega arith) short) in
      installing r t c lists (
        install_all_lem os path t.world c.array (listed entries []) s.world.next c.lists
          c.roomy.unused len_ret harmless (shown entries) [] [] 0 t.world.next
          (begun os path n s lt b room entries len_ret r t c) (listed-onto entries []) refl refl
          (begun-Grows os path n s lt b room entries len_ret r t c) c.err_code
          (omega (arith, length-shown entries)))
