-- ===== src/Filesystem/Dir/Listing.antt =====
-- What the loop of dir_content collects: src/filesystem/filesystem.c.
use prom.Prelude.{
  none, update_ne, ◌==◌, Bool, ℕ, ◌+◌, ◌*◌, ◌^◌, ◌≤◌, ◌<◌, ◌≡◌, ◌≢◌, refl, ap, ◌∙◌, true, false,
  some, List, [], ◌∷◌, length, arith, ==_false, if◌then◌else◌, Bool-cases, inl, inr,
}
use prom.Prelude.Bytes.{Bytes}
use prom.Machine.Returns
use prom.Machine.Returns.{Returns, returns}
use prom.Memory.{Block, World}
use prom.Errm.State.{Sys}
use prom.Filesystem.Alloc.{IsRoomy}
use prom.Filesystem.Dir.{is_hidden, read_names}
use prom.Filesystem.Dir.Elements.{
  IsName, and_name, gone, gone-same, gone-none, Lists, AreNames-kept,
}
use prom.Filesystem.Dir.Name.{
  pointers, grown, name_block, stored, last_block, dga_grow-stored, dga_new-stored, strcpy-stored,
  set-stored,
}

abbrev pub starts_with_dot : Bytes → Bool
starts_with_dot [] = false
starts_with_dot (c ∷ cs) = c == 46

is_hidden_lem : (file : Bytes) → is_hidden file ≡ starts_with_dot file
is_hidden_lem [] = refl
is_hidden_lem (c ∷ cs) = refl

-- The names that do not start with a dot, put in front of `seen` one after the other.
abbrev pub listed : List Bytes → List Bytes → List Bytes
listed [] seen = seen
listed (file ∷ files) seen =
    if starts_with_dot file then listed files seen else listed files (file ∷ seen)

-- The sizes fit the machine's words.
abbrev pub AreShort : List Bytes → Type 0
AreShort [] = Unit
AreShort (file ∷ files) = (length file + 28 < 2 ^ 64) × AreShort files

module _ (floor : ℕ) (w : World) (p : ℕ) (names : List Bytes) (name : Bytes)
    (l : Lists floor w p names) (room : IsRoomy w) where
  abbrev next_world : World
  next_world = stored w p l.block (length names) name

  abbrev next_block : Block
  next_block = last_block w p l.block (length names) name

  old_heap : (q : ℕ) → q < w.next → q ≢ p → (q ≢ w.next) × (next_world.heap q ≡ w.heap q)
  old_heap q lt ne = (omega arith, ground arith)

  old_cells : (i : ℕ) → i < length names → next_block.cells i ≡ l.block.cells i
  old_cells i lt = ground (arith, l.room)

  new_roomy : IsRoomy next_world
  new_roomy = record {
    next_pos = omega arith;
    granted = room.granted;
    unused = λ a le. ground (arith, room.unused a);
  }

  new_name :
      IsName floor next_world.heap w.next next_block next_world.next
        (length names)
        name
        (grown w p l.block (length names) name).next
  new_name = record {
    block = name_block w p l.block (length names) name;
    cell = ground arith;
    apart = omega arith;
    above = omega (arith, l.low, l.below);
    under = omega arith;
    not_null = omega arith;
    live = ground arith;
    text = refl;
  }

  -- From `floor` on nothing lives but the array and the names.
  new_only :
      (a : ℕ)
      → floor ≤ a
      → a ≢ w.next
      → gone ((grown w p l.block (length names) name).next ∷ l.ats) next_world.heap a ≡ none
  new_only a lo ne =
      let at = (grown w p l.block (length names) name).next in
      elim (Bool-cases (at == a)) [
        | inl new ↦ ground (arith, new)
        | inr other ↦
            update_ne (gone l.ats next_world.heap) at none a (ground (arith, other))
            ∙ elim (Bool-cases (p == a)) [
              | inl moved ↦ gone-none l.ats next_world.heap a (ground (arith, moved, l.below))
              | inr apart ↦
                  gone-same l.ats w.heap next_world.heap a (ground (arith, other, apart))
                  ∙ l.only a lo (ground (arith, apart))
            ]
      ]

  new_array : Lists floor next_world w.next (name ∷ names)
  new_array = record {
    block = next_block;
    array = record {
      not_null = room.next_pos;
      live = ground arith;
      header = ap (λ m. some (pointers m)) (omega arith);
    };
    room = omega arith;
    low = omega (arith, l.low, l.below);
    below = omega arith;
    ats = (grown w p l.block (length names) name).next ∷ l.ats;
    elements = and_name new_name (
        AreNames-kept floor floor w.heap next_world.heap p w.next l.block next_block old_cells
          (λ q lo hi ne. old_heap q hi ne) (omega arith) (omega arith) l.elements);
    only = new_only;
  }

read_names-hidden :
    (file : Bytes) (files : List Bytes) (arr n : ℕ) (s : Sys World)
    → is_hidden file ≡ true
    → read_names (file ∷ files) arr n s ≡ read_names files arr n s
unfolding read_names
read_names-hidden file files arr n s hidden = rw (read_names, hidden) refl

read_names-visible :
    (floor : ℕ) (file : Bytes) (files : List Bytes) (p : ℕ) (names : List Bytes) (s : Sys World)
    (l : Lists floor s.world p names) (room : IsRoomy s.world)
    → is_hidden file ≡ false
    → 24 + 8 * (length names + 1) < 2 ^ 64
    → length file + 28 < 2 ^ 64
    → read_names (file ∷ files) (p + 24) (length names) s
      ≡ read_names files
          (s.world.next + 24)
          (length names + 1)
          (record s { world = next_world floor s.world p names file l room })
unfolding read_names
read_names-visible floor file files p names s l room visible len fits =
    let w = s.world in
    let n = length names in
    rw
      (
        read_names,
        visible,
        dga_grow-stored w p l.block n file l.array room.next_pos room.granted len fits,
        ==_false (w.next + 24) 0 (omega arith),
        dga_new-stored w p l.block n file l.array room.next_pos room.granted len fits,
        ==_false ((grown w p l.block n file).next + 24) 0 (omega arith),
        strcpy-stored w p l.block n file l.array room.next_pos room.granted len fits,
        set-stored w p l.block n file l.array room.next_pos room.granted len fits,
      )
      refl

-- If every request for memory is granted and the sizes fit the machine's words, the loop of
-- dir_content, begun with an array of names, ends with a live array of these names and behind
-- them, in the order of the directory, the files that do not start with a dot; each of its
-- elements is a string of its own, the length that it counts is the array's, and nothing but the
-- memory has changed.
pub read_names_lem :
    (floor : ℕ) (files : List Bytes) (n p : ℕ) (names : List Bytes) (s : Sys World)
    → n ≡ length names
    → Lists floor s.world p names
    → IsRoomy s.world
    → 24 + 8 * (length files + n) < 2 ^ 64
    → AreShort files
    → Returns
        (λ r t.
          (q : ℕ) × (r ≡ (q + 24, length (listed files names)))
          × Lists floor t.world q (listed files names)
          × IsRoomy t.world
          × ((a : ℕ) → a < floor → t.world.heap a ≡ s.world.heap a)
          × (t.world.trace ≡ s.world.trace)
          × (t ≡ record s { world = t.world }))
        (read_names files (p + 24) n s)
unfolding read_names
read_names_lem floor [] n p names s e l room small short =
    rw e (returns (p, refl, l, room, (λ a lt. refl), refl, refl))
read_names_lem floor (file ∷ files) n p names s e l room small (fits, short) =
    elim (Bool-cases (starts_with_dot file)) [
      | inl hidden ↦
          rw (read_names-hidden file files (p + 24) n s (is_hidden_lem file ∙ hidden), hidden)
            (read_names_lem floor files n p names s e l room (omega arith) short)
      | inr visible ↦
          rw (e, visible)
            (rw
              (read_names-visible floor file files p names s l room (is_hidden_lem file ∙ visible)
                (omega arith) fits)
              (Returns.mono
                (read_names_lem floor files (length names + 1) s.world.next (file ∷ names)
                  (record s { world = next_world floor s.world p names file l room }) (omega arith)
                  (new_array floor s.world p names file l room)
                  (new_roomy floor s.world p names file l room) (omega arith) short)
                λ r t (q, result, lists, roomy, kept, trace, same). (
                  q,
                  result,
                  lists,
                  roomy,
                  (λ a lt.
                      kept a lt
                      ∙ (old_heap floor s.world p names file l room a
                          (omega (arith, l.low, l.below)) (omega (arith, l.low))).1),
                  trace,
                  same,
                )))
    ]
