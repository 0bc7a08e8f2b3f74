-- ===== src/Modules/Refused.antt =====
-- The loops over modules when memory is refused: src/modules/mods.c, the labels fail and memfail.
use prom.Prelude.{
  ℕ, suc, ◌+◌, ◌*◌, ◌^◌, ◌<◌, ◌≡◌, ◌≢◌, refl, ap, ◌⊎◌, inl, inr, true, false, none, some, length,
  arith, update, ==_refl, ==_false, lt→ltb, update-update,
}
use prom.Prelude.Bytes.{Bytes}
use prom.Machine.{faulted, ok}
use prom.Memory.{Header, Block, World, block_at, drop_block, place, refuse, strcpy, free, null}
use prom.Dga.{dga_new, dga_free, in_block}
use prom.Dga.Laws.{IsArray, new_block, dga_header-add, dga_new_lem}
use prom.Dga.Resize.{relabelled, dga_grow-resize, dga_resize_refused}
use prom.Errm.State.{Sys, not_enough_memory}
use prom.Errm.Ops.{errm_error}
use prom.Filesystem.{P}
use prom.Filesystem.System.{Os}
use prom.Filesystem.Dir.{strcpy_array}
use prom.Filesystem.Dir.Refused.{free_dir_content-Ends}
use prom.Modules.Lists.{Listed, name_at, install_all, clean_one, free_ul_mod_names}

module _ (os : Os) (path : Bytes) (name : Bytes) (q : ℕ) (s : Sys World) {h : Header} {b : Block}
    (a : IsArray s.world q h b) where
  -- The memory without the array, and one more request made.
  abbrev pub without : World
  without = refuse (drop_block q s.world)

  -- At any round of the loop of installed_mods with a name to be read and the number of modules
  -- below 2 ^ 64 - 1: if the request of dga_grow is refused, the loop ends with NULL and the error for want of memory; the array of modules is
  -- given back, every other block is untouched, and nothing else is done, so that the objects which
  -- were loaded before stay open.
  pub install_all_refused :
      (left i names len_ret : ℕ)
      → name_at names i s.world ≡ ok name s.world
      → h.len + 1 < 2 ^ 64
      → s.world.grants s.world.allocs ≡ false
      → install_all os path (suc left) i names (q + 24) len_ret s
        ≡ ok (null, len_ret) (record s { err_code = not_enough_memory; world = without })
  unfolding install_all errm_error dga_free free
  install_all_refused left i names len_ret named len refused =
      let (runs, array) = dga_resize_refused (h.len + 1) a refused in
      rw
        (
          named,
          dga_grow-resize 1 a len,
          runs,
          dga_header-add q,
          ==_false q 0 a.not_null,
          block_at,
          ==_refl q,
        )
        (ap
          (λ hp.
            ok (null, len_ret)
              (record s {
                err_code = not_enough_memory;
                world = record (refuse s.world) { heap = hp };
              }))
          (update-update s.world.heap q _ _))

  -- The copy of the name, which is granted.
  abbrev copied : World
  copied = record (place s.world (24 + 4 * (length name + 1)) (new_block (length name + 1) 4)) {
    heap =
        update s.world.heap s.world.next
          (some (record (new_block (length name + 1) 4) { text = some name }));
  }

  copy_refused :
      (names len_ret : ℕ) (more : ℕ → P Listed)
      → s.world.heap 0 ≡ none
      → s.world.grants s.world.allocs ≡ false
      → clean_one os path names name (q + 24) len_ret more s ≡ faulted
  unfolding dga_new strcpy
  copy_refused names len_ret more null_free refused = rw (refused, block_at, null_free) refl

  list_refused :
      (names len_ret : ℕ) (more : ℕ → P Listed)
      → h.szt ≡ 8
      → b.size ≡ 24 + 8 * h.len
      → h.len + 1 < 2 ^ 64
      → 24 + 4 * (length name + 1) < 2 ^ 64
      → s.world.next ≢ 0
      → q ≢ s.world.next
      → s.world.grants s.world.allocs ≡ true
      → s.world.grants (suc s.world.allocs) ≡ false
      → clean_one os path names name (q + 24) len_ret more s ≡ faulted
  unfolding strcpy free_ul_mod_names
  list_refused names len_ret more pointers exact len short pos apart granted refused =
      let w = s.world in
      let new = (dga_new_lem w (length name + 1) 4 pos granted short).0 in
      let copies : strcpy_array (w.next + 24) name
            (place w (24 + 4 * (length name + 1)) (new_block (length name + 1) 4))
          ≡ ok tt copied =
        rw
          (
            dga_header-add w.next,
            block_at,
            ==_refl w.next,
            lt→ltb (24 + length name) (24 + 4 * (length name + 1)) (omega arith),
          )
          (ap (λ hp. ok tt (record copied { heap = hp })) (update-update w.heap w.next _ _)) in
      let array : IsArray copied q h b = record {
        not_null = a.not_null;
        live = ground (arith, a.live, apart);
        header = a.header;
      } in
      let (runs, longer) = dga_resize_refused (h.len + 1) array refused in
      let outside : in_block (relabelled h (h.len + 1) b) (record h { len = h.len + 1 }) h.len
          ≡ false =
        ground (arith, pointers, exact) in
      rw
        (
          new,
          ==_false (w.next + 24) 0 (omega arith),
          copies,
          dga_grow-resize 1 array len,
          runs,
          free_dir_content-Ends q h.len _ longer (omega arith) outside,
        )
        refl

  -- For a module that does not load, with an array of names whose block has no room to spare and is
  -- not where the next one goes, nothing at address 0 and the sizes fitting size_t: if
  -- clean_ul_mod_names is refused the memory for the copy of the name, or is granted that and
  -- refused the growth of the array, the program reaches undefined behaviour, whatever would follow.
  pub clean_one_refused :
      (names len_ret : ℕ) (more : ℕ → P Listed)
      → h.szt ≡ 8
      → b.size ≡ 24 + 8 * h.len
      → h.len + 1 < 2 ^ 64
      → 24 + 4 * (length name + 1) < 2 ^ 64
      → s.world.next ≢ 0
      → q ≢ s.world.next
      → s.world.heap 0 ≡ none
      → (s.world.grants s.world.allocs ≡ false)
        ⊎ (s.world.grants s.world.allocs ≡ true) × (s.world.grants (suc s.world.allocs) ≡ false)
      → clean_one os path names name (q + 24) len_ret more s ≡ faulted
  clean_one_refused names len_ret more pointers exact len short pos apart null_free (inl refused) =
      copy_refused names len_ret more null_free refused
  clean_one_refused names len_ret more pointers exact len short pos apart null_free
        (inr (granted, refused)) =
      list_refused names len_ret more pointers exact len short pos apart granted refused
