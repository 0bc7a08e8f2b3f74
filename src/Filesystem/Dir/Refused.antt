-- ===== src/Filesystem/Dir/Refused.antt =====
-- Reading a directory when memory is refused: src/filesystem/filesystem.c, the loop of dir_content
-- and its label memfail, with dga_resize of src/dga/dga.c.
use prom.Prelude.{
  ℕ, zero, suc, ◌+◌, ◌*◌, ◌^◌, ◌≤◌, ◌<◌, ◌≡◌, ◌≢◌, refl, sym, ap, ◌∙◌, ◌⊎◌, inl, inr, true, false,
  none, some, List, ◌∷◌, ◌==◌, arith, Bool-cases, Option-cases, ==_false, update_ne,
}
use prom.Prelude.Bytes.{Bytes}
use prom.Machine.{faulted, ok}
use prom.Memory.{
  Cell, unset, ptr, loaded, Header, Block, World, block_at, drop_block, place, strcpy, free, null,
}
use prom.Dga.{dga_header, dga_new, dga_free, get, in_block}
use prom.Dga.Laws.{IsArray, dga_header-add, dga_len-IsArray}
use prom.Dga.Resize.{relabelled, moved, dga_grow-resize, dga_resize_refused, dga_resize_lem}
use prom.Errm.State.{Sys}
use prom.Errm.Ops.{errm_error}
use prom.Filesystem.Dir.{free_cell, free_cells, free_dir_content, is_hidden, read_names}

-- The array at `p` is gone, or its element `n` lies outside its block.
abbrev pub Ends : World → ℕ → ℕ → Type 0
Ends w p n =
    (w.heap p ≡ none)
    ⊎ (h : Header) × (b : Block) × (w.heap p ≡ some b)
      × (b.header ≡ some h)
      × (in_block b h n ≡ false)

drop-Ends : (q p n : ℕ) (w : World) → Ends w p n → Ends (drop_block q w) p n
drop-Ends q p n w ends = elim (Bool-cases (q == p)) [
  | inl same ↦ inl (ground (arith, same))
  | inr other ↦
      let kept : (drop_block q w).heap p ≡ w.heap p =
        update_ne w.heap q none p (ground (arith, other)) in
      rw kept ends
]

-- Freeing an element faults, or leaves the array to end there still.
free-Ends :
    (q p n : ℕ) (w : World)
    → Ends w p n
    → (free q w ≡ faulted) ⊎ (v : World) × (free q w ≡ ok tt v) × Ends v p n
unfolding free
free-Ends q p n w ends = elim (Bool-cases (q == null)) [
  | inl none' ↦ inr (w, rw none' refl, ends)
  | inr real ↦ elim (Option-cases (w.heap q)) [
    | inl gone ↦ inl (rw (real, block_at, gone) refl)
    | inr (b, live) ↦ inr (drop_block q w, rw (real, block_at, live) refl, drop-Ends q p n w ends)
  ]
]

free_cell-Ends :
    (c : Cell) (p n : ℕ) (w : World)
    → Ends w p n
    → (free_cell c w ≡ faulted) ⊎ (v : World) × (free_cell c w ≡ ok tt v) × Ends v p n
unfolding dga_free
free_cell-Ends unset p n w ends = inl refl
free_cell-Ends (ptr q) p n w ends = free-Ends (dga_header q) p n w ends
free_cell-Ends (loaded h name desc) p n w ends = inl refl

-- The loop over the elements, which reads past the last one.
pub free_cells-Ends :
    (left i p n : ℕ) (w : World)
    → Ends w p n
    → i ≤ n
    → n < i + left
    → free_cells left (p + 24) i w ≡ faulted
unfolding free_cells get
free_cells-Ends zero i p n w ends le lt = absurd (omega arith)
free_cells-Ends (suc left) i p n w (inl gone) le lt = rw (dga_header-add p, block_at, gone) refl
free_cells-Ends (suc left) i p n w (inr (h, b, live, header, outside)) le lt =
    elim (Bool-cases (in_block b h i)) [
      | inr out ↦ rw (dga_header-add p, block_at, live, header, out) refl
      | inl inside ↦ elim (free_cell-Ends (b.cells i) p n w (inr (h, b, live, header, outside))) [
        | inl faults ↦ rw (dga_header-add p, block_at, live, header, inside, faults) refl
        | inr (v, frees, ends) ↦
            let other : i ≢ n =
              λ e. let same : true ≡ false = sym inside ∙ ap (in_block b h) e ∙ outside in cc in
            rw (dga_header-add p, block_at, live, header, inside, frees)
              (free_cells-Ends left (i + 1) p n v ends (omega (arith, other)) (omega arith))
      ]
    ]

-- The clean-up of an array whose header says one element more than its block holds.
pub free_dir_content-Ends :
    (p n : ℕ) (w : World) {h : Header} {b : Block}
    → IsArray w p h b
    → n < h.len
    → in_block b h n ≡ false
    → free_dir_content (p + 24) w ≡ faulted
unfolding free_dir_content
free_dir_content-Ends p n w {h} {b} a lt outside =
    rw
      (
        dga_len-IsArray a,
        free_cells-Ends h.len 0 p n w (inr (h, b, a.live, a.header, outside)) (omega arith)
            (omega arith),
      )
      refl

module _ (file : Bytes) (files : List Bytes) (p : ℕ) (s : Sys World) {h : Header} {b : Block}
    (a : IsArray s.world p h b) (visible : is_hidden file ≡ false) where
  grow_refused :
      h.szt ≡ 8
      → b.size ≡ 24 + 8 * h.len
      → h.len + 1 < 2 ^ 64
      → s.world.grants s.world.allocs ≡ false
      → read_names (file ∷ files) (p + 24) h.len s ≡ faulted
  unfolding read_names errm_error
  grow_refused pointers exact len refused =
      let (runs, array) = dga_resize_refused (h.len + 1) a refused in
      let outside : in_block (relabelled h (h.len + 1) b) (record h { len = h.len + 1 }) h.len
          ≡ false =
        ground (arith, pointers, exact) in
      rw
        (
          read_names,
          visible,
          dga_grow-resize 1 a len,
          runs,
          free_dir_content-Ends p h.len _ array (omega arith) outside,
        )
        refl

  name_refused :
      h.szt ≡ 8
      → h.len + 1 < 2 ^ 64
      → 24 + 8 * (h.len + 1) < 2 ^ 64
      → s.world.next ≢ 0
      → s.world.heap 0 ≡ none
      → s.world.grants s.world.allocs ≡ true
      → s.world.grants (suc s.world.allocs) ≡ false
      → read_names (file ∷ files) (p + 24) h.len s ≡ faulted
  unfolding read_names dga_new strcpy
  name_refused pointers len fits pos null_free granted refused =
      let (runs, array, cells) = dga_resize_lem (h.len + 1) a pos granted (rw pointers fits) in
      let unmapped : (place (drop_block p s.world) (24 + h.szt * (h.len + 1))
              (moved h (h.len + 1) b)).heap
            0
          ≡ none =
        ground (arith, null_free, pos) in
      rw
        (
          read_names,
          visible,
          dga_grow-resize 1 a len,
          runs,
          ==_false (s.world.next + 24) 0 (omega arith),
          refused,
          block_at,
          unmapped,
        )
        refl

  -- At any point of the loop of dir_content, with an array whose block has no room to spare and
  -- nothing at address 0, the sizes fitting size_t, and a file that does not start with a dot to be
  -- read: if the request of dga_grow is refused, or it is granted and that for the name is refused,
  -- the program reaches undefined behaviour. It gets neither to return nor to say that there is no
  -- memory.
  pub read_names_refused :
      h.szt ≡ 8
      → b.size ≡ 24 + 8 * h.len
      → 24 + 8 * (h.len + 1) < 2 ^ 64
      → s.world.next ≢ 0
      → s.world.heap 0 ≡ none
      → (s.world.grants s.world.allocs ≡ false)
        ⊎ (s.world.grants s.world.allocs ≡ true) × (s.world.grants (suc s.world.allocs) ≡ false)
      → read_names (file ∷ files) (p + 24) h.len s ≡ faulted
  read_names_refused pointers exact fits pos null_free (inl refused) =
      grow_refused pointers exact (omega arith) refused
  read_names_refused pointers exact fits pos null_free (inr (granted, refused)) =
      name_refused pointers (omega arith) fits pos null_free granted refused
