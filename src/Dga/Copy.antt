-- ===== src/Dga/Copy.antt =====
-- Freeing and copying an array: src/dga/dga.c, dga_free and dga_dup.
use prom.Prelude.{
  ℕ, ◌+◌, ◌*◌, ◌^◌, ◌<◌, ◌≡◌, ◌≢◌, ap, ◌∙◌, true, ==_refl, ==_false, update_self, update-update,
  update_ne,
}
use native.Mathlib.Nat.{mod-eq_of_lt}
use prom.Machine.{ok, faulted}
use prom.Memory.{Header, Block, World, block_at, place, drop_block}
use prom.Dga.{dga_free, dga_dup}
use prom.Dga.Laws.{IsArray, dga_header-add, header_at-IsArray}

module _ {w : World} {p : ℕ} {h : Header} {b : Block} (a : IsArray w p h b) where
  -- dga_free gives back the array's block and no other, and freeing it again is a fault.
  dga_free_lem :
      (dga_free (p + 24) w ≡ ok tt (drop_block p w))
      × (dga_free (p + 24) (drop_block p w) ≡ faulted)
  unfolding dga_free
  dga_free_lem = (
    rw (dga_header-add, ==_false p 0 a.not_null, block_at, a.live),
    rw (dga_header-add, ==_false p 0 a.not_null, block_at, ==_refl p),
  )

  -- The block of a copy.
  abbrev pub copied : Block
  copied = record b { size = 24 + h.szt * h.len }

  -- A granted dga_dup of an array whose size is below 2 ^ 64 gives a second array with the same
  -- header and elements in a block of its own, and the first array stays as it was.
  dga_dup_lem :
      w.next ≢ 0
      → w.next ≢ p
      → w.grants w.allocs ≡ true
      → 24 + h.szt * h.len < 2 ^ 64
      → (dga_dup (p + 24) w ≡ ok (w.next + 24) (place w (24 + h.szt * h.len) copied))
        × IsArray (place w (24 + h.szt * h.len) copied) w.next h copied
        × IsArray (place w (24 + h.szt * h.len) copied) p h b
  unfolding dga_dup
  dga_dup_lem pos apart granted fits = (
    rw (header_at-IsArray a) (
        rw (mod-eq_of_lt fits, granted)
          (rw (block_at, dga_header-add, ==_false w.next p apart, a.live)
            (rw (==_false w.next 0 pos) (
              ap
                (λ hp.
                  ok (w.next + 24) (record (place w (24 + h.szt * h.len) copied) { heap = hp }))
                (update-update w.heap w.next _ _))))),
    record { not_null = pos; live = update_self w.heap w.next _; header = a.header },
    record {
      not_null = a.not_null;
      live = update_ne w.heap w.next _ p apart ∙ a.live;
      header = a.header;
    },
  )
