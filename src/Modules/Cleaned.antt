-- ===== src/Modules/Cleaned.antt =====
-- The modules that do not load: src/modules/mods.c, clean_ul_mod_names.
use prom.Prelude.{
  ℕ, ◌+◌, ◌*◌, ◌^◌, ◌≤◌, ◌<◌, ◌≡◌, refl, ap, ◌∙◌, sym, some, List, [], ◌∷◌, length, arith,
  update_ne, ==_false, Bool-cases, inl, inr,
}
use native.Mathlib.Nat.{add-zero}
use prom.Prelude.Bytes.{Bytes}
use prom.Machine.{ok}
use prom.Machine.Returns
use prom.Machine.Returns.{Returns, returns}
use prom.Memory.{World, Call, place}
use prom.Errm.State.{Sys}
use prom.Errm.Ops.{errm_clear}
use prom.Errm.Scope.{IsBalanced}
use prom.Dga.Laws.{new_block, dga_new_lem}
use prom.Filesystem.Alloc.{IsRoomy, IsBack}
use prom.Filesystem.Content.{Content, dir_content_lem}
use prom.Filesystem.Dir.{dir_content}
use prom.Filesystem.Dir.Elements.{Lists, no_names}
use prom.Filesystem.Dir.Listing.{AreShort, listed, starts_with_dot}
use prom.Filesystem.System.{Os, IsHarmless, opened}
use prom.Modules.Lists.{mod_names, clean_ul_mod_names, clean_loop}
use prom.Modules.Names.{onto, shown, listed-onto, length-onto}
use prom.Modules.Installed.{length-shown}
use prom.Modules.Cleans.{Cleans, AreBrief}
use prom.Modules.Cleans.Rounds.{Between, Cleaned, clean_loop_lem}

AreShort-AreBrief : (entries : List Bytes) → AreBrief entries → AreShort entries
AreShort-AreBrief [] brief = tt
AreShort-AreBrief (file ∷ files) (short, brief) =
    (omega (arith, short), AreShort-AreBrief files brief)

shown-AreBrief : (entries : List Bytes) → AreBrief entries → AreBrief (shown entries)
shown-AreBrief [] brief = tt
shown-AreBrief (file ∷ files) (short, brief) = elim (Bool-cases (starts_with_dot file)) [
  | inl hidden ↦ rw hidden (shown-AreBrief files brief)
  | inr visible ↦ rw visible (short, shown-AreBrief files brief)
]

-- What clean_ul_mod_names leaves, if it was called in `s` at depth `n` and ended in `t`: an array
-- of the names of the modules that do not load, besides what was live before.
pub record Removed (os : Os) (path : Bytes) (n : ℕ) (s : Sys World) (names : List Bytes) (r : ℕ × ℕ)
    (t : Sys World) : Type 0 where
  pub removed : List Bytes
  pub cleans : Cleans os path names (Call.closedir ∷ s.world.trace) removed t.world.trace
  pub edge : ℕ
  pub array : ℕ
  pub lists : Lists edge t.world array (onto removed [])
  pub result : r ≡ (array + 24, length removed)
  pub behind : s.world.next ≤ edge
  pub heap : (a : ℕ) → a < edge → t.world.heap a ≡ s.world.heap a
  pub roomy : IsRoomy t.world
  pub back : IsBack n s t

module _ (os : Os) (path : Bytes) (n : ℕ) (s : Sys World) (lt : n < 9) (b : IsBalanced n s)
    (room : IsRoomy s.world) (entries : List Bytes) (len_ret : ℕ) where
  abbrev cleared : Sys World
  cleared = record s { err_code = 0 }

  module _ (r : ℕ × ℕ) (t : Sys World) (c : Content n cleared (listed entries []) r t) where
    -- The state behind dga_new.
    abbrev begun : Sys World
    begun = record t { world = place t.world 24 (new_block 0 8) }

    begun-Between :
        Between os path s.world.next t.world c.array
          (listed entries [])
          c.lists
          len_ret
          []
          t.world.next
          begun.world
    begun-Between = record {
      lists = record {
        block = new_block 0 8;
        array = (dga_new_lem t.world 0 8 c.roomy.next_pos (c.roomy.granted _) (omega arith)).1;
        room = omega arith;
        low = omega arith;
        below = omega arith;
        ats = [];
        elements = no_names;
        only = λ a le ne. ground (arith, c.roomy.unused a);
      };
      roomy = record {
        next_pos = omega arith;
        granted = c.roomy.granted;
        unused = λ a le. ground (arith, c.roomy.unused a);
      };
      heap = λ a below. update_ne t.world.heap t.world.next _ a (omega arith);
    }

    begins :
        dir_content os path 0 cleared ≡ ok r t
        → clean_ul_mod_names os path len_ret s
          ≡ clean_loop os path
              (length (shown entries))
              0
              (c.array + 24)
              (t.world.next + 24)
              len_ret
              begun
    unfolding clean_ul_mod_names errm_clear mod_names
    begins lists =
        let names-length : length (listed entries []) ≡ length (shown entries) =
          ap length (listed-onto entries [])
          ∙ length-onto (shown entries) []
          ∙ add-zero (length (shown entries)) in
        rw
          (
            lists,
            c.result,
            c.err_code,
            (dga_new_lem t.world 0 8 c.roomy.next_pos (c.roomy.granted _) (omega arith)).0,
            ==_false (t.world.next + 24) 0 (omega arith),
            names-length,
          )
          refl

    ended :
        {r' : ℕ × ℕ} {u : Sys World}
        → Cleaned os path s.world.next t.world c.array
            (listed entries [])
            c.lists
            len_ret
            (shown entries)
            []
            begun
            r'
            u
        → Removed os path n s (shown entries) r' u
    ended {r'} {u} d = record {
      removed = d.removed;
      cleans = rw (sym c.trace) d.cleans;
      edge = t.world.next;
      array = d.array;
      lists = d.lists;
      result =
          d.result
          ∙ ap (λ k. (d.array + 24, k)) (length-onto d.removed [] ∙ add-zero (length d.removed));
      behind = omega (arith, c.lists.low, c.lists.below);
      heap = λ a lt'. ground (arith, d.heap a, c.kept a, room.unused a);
      roomy = d.roomy;
      back = record {
        balanced = record {
          depth = ap (λ z. z.curr) d.frames ∙ c.back.balanced.depth;
          idle = λ k le. rw (ap (λ z. z.stack k) d.frames) (c.back.balanced.idle k le);
        };
        callers = λ k below. ap (λ z. z.stack k) d.frames ∙ c.back.callers k below;
      };
    }

  -- If memory is granted, the path expands to words, opendir opens the first of them, every
  -- module's init returns and leaves the program's memory alone and the sizes fit the machine's
  -- words, then clean_ul_mod_names, called fewer than 9 functions deep on a balanced stack, tries
  -- to load the modules of the names that do not start with a dot, in the directory's order, calls
  -- the init of each one that loads, and asks remove for the link of each one that does not, before
  -- it tries the next. It returns an array of the names of those, in that order and each in a new
  -- block, and their number; nothing else stays allocated, every block that was live before is
  -- untouched, and the stack of deferred calls is as its caller left it.
  pub clean_ul_mod_names_lem :
      (word : Bytes) (words : List Bytes)
      → IsHarmless os
      → os.wordexp s.world.trace path ≡ some (word ∷ words)
      → ((trace : List Call) → os.opendir trace word ≡ opened entries)
      → 24 + 8 * length entries < 2 ^ 64
      → AreBrief entries
      → Returns (Removed os path n s (shown entries)) (clean_ul_mod_names os path len_ret s)
  clean_ul_mod_names_lem word words harmless found opens fits brief =
      let (r, t, lists, c) = Returns.reached (
        dir_content_lem os n cleared lt (record { depth = b.depth; idle = b.idle }) room path word
          entries words 0 found opens fits (AreShort-AreBrief entries brief)) in
      rw (begins r t c lists) (
        Returns.mono
          (clean_loop_lem os path s.world.next t.world c.array (listed entries []) c.lists len_ret
            harmless (shown entries) [] [] 0 t.world.next (begun r t c) (listed-onto entries [])
            refl (begun-Between r t c) (omega (arith, length-shown entries, fits))
            (shown-AreBrief entries brief))
          λ _ _ d. ended r t c d)
