-- ===== src/Filesystem/Dir/Name.antt =====
-- One round of the loop of dir_content: src/filesystem/filesystem.c.
use prom.Prelude.{
  ℕ, ◌+◌, ◌*◌, ◌^◌, ◌<◌, ◌≡◌, ◌≢◌, refl, ◌∙◌, true, some, length, arith, lt→ltb, le→leb, update,
  ==_refl, update_self, update_ne,
}
use prom.Prelude.Bytes.{Bytes}
use prom.Machine.{ok}
use prom.Memory.{Header, Block, World, ptr, place, drop_block, strcpy, block_at}
use prom.Dga.{dga_new, dga_grow, set}
use prom.Dga.Laws.{IsArray, new_block, dga_new_lem, dga_header-add}
use prom.Dga.Resize.{moved, dga_resize_lem, dga_grow-resize}
use prom.Filesystem.Dir.{strcpy_array}

-- An array of pointers of some length.
abbrev pub pointers : ℕ → Header
pointers n = record { len = n; szt = 8 }

module _ (w : World) (p : ℕ) (b : Block) (n : ℕ) (name : Bytes) where
  -- The worlds behind dga_grow, dga_new, strcpy and the assignment.
  abbrev pub grown : World
  grown = place (drop_block p w) (24 + 8 * (n + 1)) (moved (pointers n) (n + 1) b)

  abbrev pub with_block : World
  with_block = place grown (24 + 1 * (length name + 4)) (new_block (length name + 4) 1)

  abbrev pub name_block : Block
  name_block = record (new_block (length name + 4) 1) { text = some name }

  abbrev pub copied : World
  copied = record with_block { heap = update with_block.heap grown.next (some name_block) }

  abbrev pub last_block : Block
  last_block = record (moved (pointers n) (n + 1) b) {
    cells = update (moved (pointers n) (n + 1) b).cells n (ptr (grown.next + 24));
  }

  abbrev pub stored : World
  stored = record copied { heap = update copied.heap w.next (some last_block) }

  module _ (a : IsArray w p (pointers n) b) (next_pos : w.next ≢ 0)
      (granted : (i : ℕ) → w.grants i ≡ true) (small : 24 + 8 * (n + 1) < 2 ^ 64)
      (short : length name + 28 < 2 ^ 64) where
    pub dga_grow-stored : dga_grow (p + 24) 1 w ≡ ok (w.next + 24) grown
    dga_grow-stored =
        dga_grow-resize 1 a (omega (arith, small))
        ∙ (dga_resize_lem (n + 1) a next_pos (granted _) small).0

    pub dga_new-stored : dga_new (length name + 4) 1 grown ≡ ok (grown.next + 24) with_block
    dga_new-stored =
        (dga_new_lem grown (length name + 4) 1 (omega arith) (granted _) (omega (arith, short))).0

    pub strcpy-stored : strcpy_array (grown.next + 24) name with_block ≡ ok tt copied
    unfolding strcpy
    strcpy-stored =
        rw
          (
            dga_header-add grown.next,
            block_at,
            ==_refl grown.next,
            lt→ltb (24 + length name) (24 + 1 * (length name + 4)) (omega arith),
          )
          refl

    copied-next : copied.heap w.next ≡ some (moved (pointers n) (n + 1) b)
    copied-next =
        update_ne with_block.heap grown.next _ w.next (omega arith)
        ∙ update_ne grown.heap grown.next _ w.next (omega arith)
        ∙ update_self (drop_block p w).heap w.next _

    pub set-stored : set (w.next + 24) n (ptr (grown.next + 24)) copied ≡ ok tt stored
    unfolding set
    set-stored =
        rw
          (
            dga_header-add w.next,
            block_at,
            copied-next,
            le→leb (24 + 8 * (n + 1)) (24 + 8 * (n + 1)) (omega arith),
          )
          (rw (dga_header-add w.next) refl)
