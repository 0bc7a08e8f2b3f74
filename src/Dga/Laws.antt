-- ===== src/Dga/Laws.antt =====
-- What the operations on an array do to the memory: src/dga/dga.c.
use prom.Prelude.{
  ℕ, ◌+◌, ◌*◌, ◌^◌, ◌<◌, ◌≡◌, ◌≢◌, refl, ap, true, false, none, some, arith, if◌then◌else◌, ==_refl,
  ==_false, update, update_self, update-update,
}
use native.Mathlib.Nat.{mod-eq_of_lt}
use prom.Machine.{ok, faulted, ◌>>=◌, ◌>>◌}
use prom.Memory.{Cell, Header, Block, World, block_at, put_block, fresh_block, place, refuse}
use prom.Dga.{dga_header, header_at, set_header, dga_new, dga_len, get, set, in_block}

-- The block `b` at `p` is a live array with header `h`; its pointer is `p + 24`.
pub record IsArray (w : World) (p : ℕ) (h : Header) (b : Block) : Type 0 where
  pub not_null : p ≢ 0
  pub live : w.heap p ≡ some b
  pub header : b.header ≡ some h

pub dga_header-add : (p : ℕ) → dga_header (p + 24) ≡ p
dga_header-add p = ground arith

module _ {w : World} {p : ℕ} {h : Header} {b : Block} (a : IsArray w p h b) where
  pub header_at-IsArray : header_at (dga_header (p + 24)) w ≡ ok h w
  header_at-IsArray = rw (dga_header-add, a.live, block_at, a.header)

  pub dga_len-IsArray : dga_len (p + 24) w ≡ ok h.len w
  unfolding dga_len
  dga_len-IsArray = rw header_at-IsArray

  pub set_header-IsArray :
      (g : Header)
      → set_header (dga_header (p + 24)) g w ≡ put_block p (record b { header = some g }) w
  set_header-IsArray g = rw (dga_header-add p, a.live, block_at)

  -- An element that lies inside the block is read and written.
  pub get-IsArray : (i : ℕ) → in_block b h i ≡ true → get (p + 24) i w ≡ ok (b.cells i) w
  unfolding get
  get-IsArray i inside = rw (dga_header-add, a.live, block_at, a.header, inside) refl

  pub set-IsArray :
      (i : ℕ) (c : Cell)
      → in_block b h i ≡ true
      → set (p + 24) i c w ≡ put_block p (record b { cells = update b.cells i c }) w
  unfolding set
  set-IsArray i c inside =
      rw (dga_header-add p, a.live, block_at, a.header, inside)
        (rw (dga_header-add p) (
          ap
            (λ hd. ok tt (record w {
              heap = update w.heap p (some (record b { header = hd; cells = update b.cells i c }));
            }))
            a.header))

-- The block of a new array of `n` elements.
abbrev pub new_block : ℕ → ℕ → Block
new_block n szt = record (fresh_block (24 + szt * n)) {
  header = some (record { len = n; szt = szt });
}

-- A request that is granted, of a size below 2 ^ 64, gives a live array of length n at the next
-- address with room for all its n elements; no other block changes.
pub dga_new_lem :
    (w : World) (n szt : ℕ)
    → w.next ≢ 0
    → w.grants w.allocs ≡ true
    → 24 + szt * n < 2 ^ 64
    → (dga_new n szt w ≡ ok (w.next + 24) (place w (24 + szt * n) (new_block n szt)))
      × IsArray
          (place w (24 + szt * n) (new_block n szt))
          w.next
          (record { len = n; szt = szt })
          (new_block n szt)
unfolding dga_new
dga_new_lem w n szt pos granted fits = (
  rw
      (
        mod-eq_of_lt fits,
        granted,
        ==_false w.next 0 pos,
        if◌then◌else◌,
        ◌>>◌,
        ◌>>=◌,
        set_header,
        block_at,
        ==_refl w.next,
      )
      (ap (λ hp. ok (w.next + 24) (record (place w (24 + szt * n) (new_block n szt)) { heap = hp }))
        (update-update w.heap w.next _ _)),
  record { not_null = pos; live = update_self w.heap w.next _; header = refl },
)

-- A refused request does not give NULL: the result is the address 24, which is no array.
dga_new_refused :
    (w : World) (n szt : ℕ)
    → w.grants w.allocs ≡ false
    → w.heap 0 ≡ none
    → (dga_new n szt w ≡ ok 24 (refuse w)) × (dga_len 24 (refuse w) ≡ faulted)
unfolding dga_new dga_len
dga_new_refused w n szt refused h0 = (rw refused, rw (h0, block_at))
