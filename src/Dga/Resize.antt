-- ===== src/Dga/Resize.antt =====
-- Growing and shrinking an array: src/dga/dga.c, dga_resize, dga_grow and dga_shrink.
use prom.Prelude.{
  arith, le→leb, suc, ◌≤◌, ◌-◌, ℕ, ◌+◌, ◌*◌, ◌%◌, ◌^◌, ◌<◌, ◌≡◌, ◌≢◌, refl, ap, ◌∙◌, true, false,
  none, some, ◌==◌, if◌then◌else◌, update, ==_refl, ==_false, update_self, update-update,
}
use native.Mathlib.Nat.{mod-eq_of_lt, mul-le-mul_left}
use prom.Machine.{ok, pure, and_then}
use prom.Memory.{
  size_max, unset, Header, Block, World, null, realloc, block_at, place, refuse, drop_block,
  trimmed,
}
use prom.Dga.{dga_grow, dga_shrink, header_at, set_header, dga_resize, in_block}
use prom.Dga.Laws.{IsArray, dga_header-add, dga_len-IsArray}

-- The block that holds the array after its header says `n`.
abbrev pub relabelled : Header → ℕ → Block → Block
relabelled h n b = record b { header = some (record h { len = n }) }

-- The block after a move: `n` elements of `h.szt` bytes, those that the old block held kept.
abbrev pub moved : Header → ℕ → Block → Block
moved h n b = trimmed (24 + h.szt * n) h (relabelled h n b)

module _ {w : World} {p : ℕ} {h : Header} {b : Block} (n : ℕ) (a : IsArray w p h b) where
  -- What dga_resize has done when it asks realloc.
  resize-header :
      (dga_resize (p + 24) n w)
      ≡ and_then
          (realloc p
            ((24 + h.szt * n) % 2 ^ 64)
            (record w { heap = update w.heap p (some (relabelled h n b)) }))
          (λ tmp. if tmp == null then pure null else pure (tmp + 24))
  unfolding dga_resize
  resize-header = rw (dga_header-add p, header_at, block_at, a.live, a.header, set_header, a.live)

  -- A resizing that is granted, to a size below 2 ^ 64, moves the array to the next address: its
  -- length is the one asked for, its block has room for as many elements, and every element that
  -- fits it and that the old block held is kept. The old block has been given back.
  pub dga_resize_lem :
      w.next ≢ 0
      → w.grants w.allocs ≡ true
      → 24 + h.szt * n < 2 ^ 64
      → (dga_resize (p + 24) n w
          ≡ ok (w.next + 24) (place (drop_block p w) (24 + h.szt * n) (moved h n b)))
        × IsArray
            (place (drop_block p w) (24 + h.szt * n) (moved h n b))
            w.next
            (record h { len = n })
            (moved h n b)
        × ((i : ℕ) → (moved h n b).cells i ≡ (if in_block b h i then b.cells i else unset))
  unfolding realloc
  dga_resize_lem pos granted fits = (
    resize-header
        ∙ rw (mod-eq_of_lt fits, block_at, ==_refl p, granted, ==_false w.next 0 pos)
            (ap
              (λ hp.
                ok (w.next + 24) (place (record w { heap = hp }) (24 + h.szt * n) (moved h n b)))
              (update-update w.heap p _ _)),
    record { not_null = pos; live = update_self (update w.heap p none) w.next _; header = refl },
    λ i. refl,
  )

  pub dga_grow-resize :
      h.len + n < 2 ^ 64 → dga_grow (p + 24) n w ≡ dga_resize (p + 24) (h.len + n) w
  unfolding dga_grow
  dga_grow-resize len = rw (dga_len-IsArray a, mod-eq_of_lt len) refl

  -- A resizing that is refused returns NULL and leaves the block where it is, with its elements;
  -- but the header already has the new length.
  pub dga_resize_refused :
      w.grants w.allocs ≡ false
      → (dga_resize (p + 24) n w
          ≡ ok null (refuse (record w { heap = update w.heap p (some (relabelled h n b)) })))
        × IsArray
            (refuse (record w { heap = update w.heap p (some (relabelled h n b)) }))
            p
            (record h { len = n })
            (relabelled h n b)
  unfolding realloc
  dga_resize_refused refused = (
    resize-header ∙ rw (block_at, ==_refl p, refused),
    record { not_null = a.not_null; live = update_self w.heap p _; header = refl },
  )

module _ {w : World} {p : ℕ} {h : Header} {b : Block} (n i : ℕ) (a : IsArray w p h b) where
  abbrev grown : World
  grown = place (drop_block p w) (24 + h.szt * (h.len + n)) (moved h (h.len + n) b)

  abbrev back : Block
  back = moved (record h { len = h.len + n }) h.len (moved h (h.len + n) b)

  shrunk : h.len + n < 2 ^ 64 → (h.len + n + size_max - n) % 2 ^ 64 ≡ h.len
  shrunk len = ground arith

  kept :
      i < h.len
      → 24 + h.szt * (h.len + n) < 2 ^ 64
      → 24 + h.szt * h.len ≤ b.size
      → back.cells i ≡ b.cells i
  kept below fits holds =
      let inner : h.szt * (i + 1) ≤ h.szt * h.len = mul-le-mul_left h.szt (omega arith) in
      let outer : h.szt * h.len ≤ h.szt * (h.len + n) = mul-le-mul_left h.szt (omega arith) in
      rw
        (
          le→leb (24 + h.szt * (i + 1)) (24 + h.szt * (h.len + n)) (omega arith),
          le→leb (24 + h.szt * (i + 1)) b.size (omega arith),
        )
        refl

  -- For an array whose block has room for all its elements, a granted dga_grow by n, to a length
  -- and a size below 2 ^ 64, and then a granted dga_shrink by n give an array with the header of
  -- the first one and, at each index below its length, the same element.
  dga_shrink-grow :
      w.next ≢ 0
      → w.grants w.allocs ≡ true
      → w.grants (suc w.allocs) ≡ true
      → h.len + n < 2 ^ 64
      → 24 + h.szt * (h.len + n) < 2 ^ 64
      → 24 + h.szt * h.len ≤ b.size
      → i < h.len
      → (v u : World) × (q : ℕ) × (c : Block) × (dga_grow (p + 24) n w ≡ ok (w.next + 24) v)
        × (dga_shrink (w.next + 24) n v ≡ ok (q + 24) u)
        × IsArray u q h c
        × (c.cells i ≡ b.cells i)
  unfolding dga_shrink
  dga_shrink-grow pos granted again len fits holds below =
      let small : 24 + h.szt * h.len < 2 ^ 64 =
        omega (arith, mul-le-mul_left {m = h.len} {n = h.len + n} h.szt (omega arith)) in
      let up = dga_resize_lem (h.len + n) a pos granted fits in
      let down = dga_resize_lem h.len up.1 (ground arith) again small in
      (
        grown,
        place (drop_block w.next grown) (24 + h.szt * h.len) back,
        grown.next,
        back,
        dga_grow-resize n a len ∙ up.0,
        rw (dga_len-IsArray up.1, shrunk len) (down.0),
        down.1,
        kept below fits holds,
      )
