-- ===== src/Dga/Faults.antt =====
-- Sizes and refusals at the bounds of an array: src/dga/dga.c.
use prom.Prelude.{
  ℕ, ◌+◌, ◌*◌, ◌%◌, ◌^◌, ◌≤◌, ◌<◌, ◌≡◌, ◌≢◌, refl, ap, true, false, some, arith, if◌then◌else◌,
  update, ==_refl, ==_false, update_self, update-update, lt→leb,
}
use prom.Machine.{ok, faulted, ◌>>=◌, ◌>>◌}
use prom.Memory.{Header, Block, World, null, block_at, fresh_block, place, refuse}
use prom.Dga.{set_header, dga_new, dga_len, dga_resize, get}
use prom.Dga.Laws.{IsArray, dga_header-add, dga_len-IsArray}
use prom.Dga.Resize.{relabelled, dga_resize_refused}

get_outside :
    {w : World} {p : ℕ} {h : Header} {b : Block} (i : ℕ)
    → IsArray w p h b
    → b.size < 24 + h.szt * (i + 1)
    → get (p + 24) i w ≡ faulted
unfolding get
get_outside {h} {b} i a out =
    rw (dga_header-add, block_at, a.live, a.header, lt→leb (24 + h.szt * (i + 1)) b.size out)

-- If 24 + szt * n does not fit size_t, a granted dga_new still returns an array of length n, and
-- its last element lies outside its block.
dga_new_overflow :
    (w : World) (m szt : ℕ)
    → w.next ≢ 0
    → w.grants w.allocs ≡ true
    → 2 ^ 64 ≤ 24 + szt * (m + 1)
    → (v : World) × (dga_new (m + 1) szt w ≡ ok (w.next + 24) v)
      × (dga_len (w.next + 24) v ≡ ok (m + 1) v)
      × (get (w.next + 24) m v ≡ faulted)
unfolding dga_new
dga_new_overflow w m szt pos granted over = (
  v,
  rw
      (
        granted,
        ==_false w.next 0 pos,
        if◌then◌else◌,
        ◌>>◌,
        ◌>>=◌,
        set_header,
        block_at,
        ==_refl w.next,
      )
      (ap (λ hp. ok (w.next + 24) (record v { heap = hp })) (update-update w.heap w.next _ _)),
  dga_len-IsArray a,
  get_outside m a (omega arith),
)
  where
    b : Block
    b = record (fresh_block ((24 + szt * (m + 1)) % 2 ^ 64)) {
      header = some (record { len = m + 1; szt = szt });
    }

    v : World
    v = place w ((24 + szt * (m + 1)) % 2 ^ 64) b

    a : IsArray v w.next (record { len = m + 1; szt = szt }) b
    a = record { not_null = pos; live = update_self w.heap w.next _; header = refl }

-- After a refused growth of an array whose block has no room to spare, the length is the new one
-- and the first element past the old length faults.
dga_resize_overrun :
    {w : World} {p : ℕ} {h : Header} {b : Block} (n : ℕ)
    → IsArray w p h b
    → w.grants w.allocs ≡ false
    → b.size ≡ 24 + h.szt * h.len
    → 0 < h.szt
    → h.len < n
    → (v : World) × (dga_resize (p + 24) n w ≡ ok null v)
      × (dga_len (p + 24) v ≡ ok n v)
      × (get (p + 24) h.len v ≡ faulted)
dga_resize_overrun {w} {p} {h} {b} n a refused exact sz grows =
    let r = dga_resize_refused n a refused in
    (
      refuse (record w { heap = update w.heap p (some (relabelled h n b)) }),
      r.0,
      dga_len-IsArray r.1,
      get_outside h.len r.1 (grind arith),
    )
