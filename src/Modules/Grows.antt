-- ===== src/Modules/Grows.antt =====
-- The array of modules that the loop of installed_mods grows: src/modules/mods.c.
use prom.Prelude.{
  ℕ, ◌+◌, ◌-◌, ◌*◌, ◌^◌, ◌≤◌, ◌<◌, ◌≡◌, refl, ap, ◌∙◌, if◌then◌else◌, none, some, List, [], ◌∷◌,
  length, arith, update, update_ne, update_self, ==_false, le→leb,
}
use native.Mathlib.Numerals.{add-one}
use prom.Prelude.Bytes.{Bytes}
use prom.Machine.{ok}
use prom.Memory.{Cell, unset, Header, Block, World, free, block_at, place, drop_block}
use prom.Errm.State.{Sys}
use prom.Dga.{dga_free, dga_grow}
use prom.Dga.Laws.{IsArray, dga_header-add, dga_len-IsArray, set-IsArray}
use prom.Dga.Resize.{moved, dga_resize_lem, dga_grow-resize}
use prom.Filesystem.Alloc.{IsRoomy}
use prom.Filesystem.System.{Os}
use prom.Modules.Lists.{store_last}

-- The elements of an array, the last one first.
abbrev pub AreCells : (ℕ → Cell) → List Cell → Type 0
AreCells f [] = Unit
AreCells f (c ∷ cs) = (f (length cs) ≡ c) × AreCells f cs

AreCells-kept :
    (f g : ℕ → Cell) (cs : List Cell)
    → ((i : ℕ) → i < length cs → f i ≡ g i)
    → AreCells g cs
    → AreCells f cs
AreCells-kept f g [] same a = tt
AreCells-kept f g (c ∷ cs) same (e, a) =
    (same (length cs) (omega arith) ∙ e, AreCells-kept f g cs (λ i lt. same i (omega arith)) a)

-- An array of modules; sizeof(struct module) is 56.
abbrev pub modules : ℕ → Header
modules n = record { len = n; szt = 56 }

-- The memory holds what it held in `w` and, behind that, an array of the modules `done`.
pub record Grows (w : World) (done : List Cell) (q : ℕ) (v : World) : Type 0 where
  pub block : Block
  pub array : IsArray v q (modules (length done)) block
  pub room : 24 + 56 * length done ≤ block.size
  pub behind : w.next ≤ q
  pub heap : (a : ℕ) → v.heap a ≡ update w.heap q (some block) a
  pub cells : AreCells block.cells done
  pub roomy : IsRoomy v

module _ (w : World) (done : List Cell) (q : ℕ) (v : World) (g : Grows w done q v)
    (unused : (a : ℕ) → w.next ≤ a → w.heap a ≡ none)
    (small : 24 + 56 * (length done + 1) < 2 ^ 64) where
  abbrev pub wider : Block
  wider = moved (modules (length done)) (length done + 1) g.block

  abbrev pub grown : World
  grown = place (drop_block q v) (24 + 56 * (length done + 1)) wider

  pub dga_grow-Grows : dga_grow (q + 24) 1 v ≡ ok (v.next + 24) grown
  dga_grow-Grows =
      dga_grow-resize 1 g.array (omega (arith, small))
      ∙ (dga_resize_lem (length done + 1) g.array g.roomy.next_pos (g.roomy.granted _) small).0

  grown-heap : (a : ℕ) → grown.heap a ≡ update w.heap v.next (some wider) a
  grown-heap a = ground (arith, g.heap a, unused q, g.behind)

  pub grown-unused : grown.heap grown.next ≡ none
  grown-unused =
      update_ne (drop_block q v).heap v.next _ grown.next (omega arith)
      ∙ ground (arith, g.roomy.unused grown.next)

  -- The last element of the new array is written.
  abbrev pub last : Cell → Block
  last c = record wider { cells = update wider.cells (length done) c }

  abbrev pub stored : Cell → World → World
  stored c u = record u { heap = update u.heap v.next (some (last c)) }

  inside : (i : ℕ) → i < length done → 24 + 56 * (i + 1) ≤ g.block.size
  inside i lt = omega (arith, g.room)

  behind-next : w.next ≤ v.next
  behind-next = ground (arith, g.behind, g.roomy.unused q, g.array.live)

  kept-cells : (c : Cell) → AreCells (last c).cells done
  kept-cells c =
      AreCells-kept (last c).cells g.block.cells done
        (λ i lt.
          update_ne wider.cells (length done) c i (omega arith)
          ∙ ap (λ t. if t then g.block.cells i else unset)
              (le→leb (24 + 56 * (i + 1)) g.block.size (inside i lt)))
        g.cells

  pub stored-Grows :
      (c : Cell) (u : World)
      → ((a : ℕ) → u.heap a ≡ grown.heap a)
      → IsRoomy u
      → Grows w (c ∷ done) v.next (stored c u)
  stored-Grows c u same roomy = record {
    block = last c;
    array = record {
      not_null = g.roomy.next_pos;
      live = update_self u.heap v.next _;
      header = ap (λ k. some (modules k)) (add-one (length done));
    };
    room = omega arith;
    behind = behind-next;
    heap = λ a. ground (arith, same a, grown-heap a);
    cells = (update_self wider.cells (length done) c, kept-cells c);
    roomy = record {
      next_pos = roomy.next_pos;
      granted = roomy.granted;
      unused = λ a le. ground (arith, roomy.unused a le, roomy.unused v.next, same v.next);
    };
  }

  module _ (u : World) (same : (a : ℕ) → u.heap a ≡ grown.heap a) where
    wider-IsArray : IsArray u v.next (modules (length done + 1)) wider
    wider-IsArray = record {
      not_null = g.roomy.next_pos;
      live = same v.next ∙ update_self (drop_block q v).heap v.next _;
      header = refl;
    }

    pub store_last-stored :
        (os : Os) (path : Bytes) (c : Cell) (s : Sys World)
        → store_last os path (v.next + 24) c (record s { world = u })
          ≡ ok tt (record s { world = stored c u })
    store_last-stored os path c s =
        let last_index : length done + 1 - 1 ≡ length done = omega arith in
        rw
          (
            dga_len-IsArray wider-IsArray,
            last_index,
            set-IsArray wider-IsArray (length done) c
                (le→leb (24 + 56 * (length done + 1)) (24 + 56 * (length done + 1)) (omega arith)),
          )
          refl

    pub dga_free-wider : dga_free (v.next + 24) u ≡ ok tt (drop_block v.next u)
    unfolding dga_free free
    dga_free-wider =
        rw (dga_header-add v.next, ==_false v.next 0 g.roomy.next_pos, block_at, wider-IsArray.live)
          refl

    pub freed-heap : (a : ℕ) → (drop_block v.next u).heap a ≡ w.heap a
    freed-heap a = ground (arith, same a, grown-heap a, unused v.next behind-next)
