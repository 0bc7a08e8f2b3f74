-- ===== src/Modules/Longer.antt =====
-- One name more in the array of names that clean_ul_mod_names returns: src/modules/mods.c.
use prom.Prelude.{
  ℕ, ◌+◌, ◌-◌, ◌*◌, ◌^◌, ◌≤◌, ◌<◌, ◌≡◌, ◌≢◌, refl, ap, ◌∙◌, Bool-cases, inl, inr, ◌==◌, none, some,
  List, ◌∷◌, length, arith, update, update_ne, update_self, ==_refl, le→leb, lt→ltb,
}
use native.Mathlib.Numerals.{add-one}
use prom.Prelude.Bytes.{Bytes}
use prom.Machine.{ok}
use prom.Memory.{ptr, Block, World, strcpy, block_at, place, drop_block}
use prom.Errm.State.{Sys}
use prom.Dga.{dga_new, dga_grow}
use prom.Dga.Laws.{IsArray, new_block, dga_new_lem, dga_header-add, dga_len-IsArray, set-IsArray}
use prom.Dga.Resize.{moved, dga_resize_lem, dga_grow-resize}
use prom.Filesystem.Alloc.{IsRoomy}
use prom.Filesystem.Dir.{strcpy_array}
use prom.Filesystem.Dir.Name.{pointers}
use prom.Filesystem.Dir.Elements.{
  IsName, and_name, AreNames-kept, gone, gone-same, gone-none, Lists,
}
use prom.Filesystem.System.{Os}
use prom.Modules.Lists.{store_last}

-- The array stays when nothing from `floor` on changes but the next address.
pub Lists-later :
    (floor : ℕ) (w v : World) (q : ℕ) (names : List Bytes)
    → ((a : ℕ) → floor ≤ a → v.heap a ≡ w.heap a)
    → w.next ≤ v.next
    → Lists floor w q names
    → Lists floor v q names
Lists-later floor w v q names same le l = record {
  block = l.block;
  array = record {
    not_null = l.array.not_null;
    live = same q l.low ∙ l.array.live;
    header = l.array.header;
  };
  room = l.room;
  low = l.low;
  below = omega (arith, l.below);
  ats = l.ats;
  elements =
      AreNames-kept floor floor w.heap v.heap q q l.block l.block (λ i lt. refl)
        (λ a lo hi ne. (ne, same a lo)) (omega arith) le l.elements;
  only = λ a lo ne. gone-same l.ats w.heap v.heap a (same a lo) ∙ l.only a lo ne;
}

module _ (floor : ℕ) (w : World) (q : ℕ) (names : List Bytes) (l : Lists floor w q names)
    (room : IsRoomy w) (name : Bytes) (small : 24 + 8 * (length names + 1) < 2 ^ 64)
    (short : length name + 28 < 2 ^ 62) where
  -- The worlds behind dga_new, strcpy, dga_grow and the assignment.
  abbrev pub with_block : World
  with_block = place w (24 + 4 * (length name + 1)) (new_block (length name + 1) 4)

  abbrev name_block : Block
  name_block = record (new_block (length name + 1) 4) { text = some name }

  abbrev pub named : World
  named = record with_block { heap = update with_block.heap w.next (some name_block) }

  abbrev wider : Block
  wider = moved (pointers (length names)) (length names + 1) l.block

  abbrev pub grown : World
  grown = place (drop_block q named) (24 + 8 * (length names + 1)) wider

  abbrev last : Block
  last = record wider { cells = update wider.cells (length names) (ptr (w.next + 24)) }

  abbrev pub longer : World
  longer = record grown { heap = update grown.heap named.next (some last) }

  pub dga_new-with_block : dga_new (length name + 1) 4 w ≡ ok (w.next + 24) with_block
  dga_new-with_block =
      (dga_new_lem w (length name + 1) 4 room.next_pos (room.granted _) (omega (arith, short))).0

  pub strcpy-named : strcpy_array (w.next + 24) name with_block ≡ ok tt named
  unfolding strcpy
  strcpy-named =
      rw
        (
          dga_header-add w.next,
          block_at,
          ==_refl w.next,
          lt→ltb (24 + length name) (24 + 4 * (length name + 1)) (omega arith),
        )
        refl

  named-IsArray : IsArray named q (pointers (length names)) l.block
  named-IsArray = record {
    not_null = l.array.not_null;
    live = ground (arith, l.below, l.array.live);
    header = l.array.header;
  }

  pub dga_grow-named : dga_grow (q + 24) 1 named ≡ ok (named.next + 24) grown
  dga_grow-named =
      dga_grow-resize 1 named-IsArray (omega (arith, small))
      ∙ (dga_resize_lem (length names + 1) named-IsArray (omega arith) (room.granted _) small).0

  grown-IsArray : IsArray grown named.next (pointers (length names + 1)) wider
  grown-IsArray = record {
    not_null = omega arith;
    live = update_self (drop_block q named).heap named.next _;
    header = refl;
  }

  pub store_last-longer :
      (os : Os) (path : Bytes) (s : Sys World)
      → store_last os path (named.next + 24) (ptr (w.next + 24)) (record s { world = grown })
        ≡ ok tt (record s { world = longer })
  store_last-longer os path s =
      let last_index : length names + 1 - 1 ≡ length names = omega arith in
      rw
        (
          dga_len-IsArray grown-IsArray,
          last_index,
          set-IsArray grown-IsArray (length names) (ptr (w.next + 24))
              (le→leb (24 + 8 * (length names + 1)) (24 + 8 * (length names + 1)) (omega arith)),
        )
        refl

  pub longer-IsRoomy : IsRoomy longer
  longer-IsRoomy = record {
    next_pos = omega arith;
    granted = room.granted;
    unused = λ a le. ground (arith, room.unused a);
  }

  pub longer-heap : (a : ℕ) → a < w.next → a ≢ q → longer.heap a ≡ w.heap a
  longer-heap a lt ne = ground arith

  longer-name : IsName floor longer.heap named.next last longer.next (length names) name w.next
  longer-name = record {
    block = name_block;
    cell = ground arith;
    apart = omega arith;
    above = omega (arith, l.low, l.below);
    under = omega arith;
    not_null = room.next_pos;
    live = ground (arith, l.below);
    text = refl;
  }

  longer-only : (a : ℕ) → floor ≤ a → a ≢ named.next → gone (w.next ∷ l.ats) longer.heap a ≡ none
  longer-only a lo ne = elim (Bool-cases (w.next == a)) [
    | inl new ↦ ground (arith, new)
    | inr other ↦
        update_ne (gone l.ats longer.heap) w.next none a (ground (arith, other))
        ∙ elim (Bool-cases (q == a)) [
          | inl moved' ↦ gone-none l.ats longer.heap a (ground (arith, moved', l.below))
          | inr apart ↦
              gone-same l.ats w.heap longer.heap a (ground (arith, other, apart))
              ∙ l.only a lo (ground (arith, apart))
        ]
  ]

  pub longer-Lists : Lists floor longer named.next (name ∷ names)
  longer-Lists = record {
    block = last;
    array = record {
      not_null = omega arith;
      live = update_self grown.heap named.next _;
      header = ap (λ m. some (pointers m)) (add-one (length names));
    };
    room = omega arith;
    low = omega (arith, l.low, l.below);
    below = omega arith;
    ats = w.next ∷ l.ats;
    elements = and_name longer-name (
        AreNames-kept floor floor w.heap longer.heap q named.next l.block last
          (λ i lt. ground (arith, l.room))
          (λ a lo hi ne. (omega arith, longer-heap a (omega arith) ne)) (omega arith) (omega arith)
          l.elements);
    only = longer-only;
  }
