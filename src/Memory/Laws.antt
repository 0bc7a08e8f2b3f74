-- ===== src/Memory/Laws.antt =====
-- Strings in a fresh block.
use prom.Prelude.{
  ℕ, suc, ◌+◌, ◌-◌, ◌<◌, ◌≡◌, ◌≢◌, refl, ap, ◌∙◌, none, some, length, take_of_length_le, arith,
  lt→ltb, ==_refl, ==_false, update-update, update-none,
}
use prom.Prelude.Bytes.{Bytes}
use prom.Machine.{ok}
use prom.Memory.{Block, World, strcpy, snprintf, free, text_at, block_at, place, fresh_block}

-- The fresh block of `n` bytes that holds the string `t`.
abbrev pub text_block : ℕ → Bytes → Block
text_block n t = record (fresh_block n) { text = some t }

-- The world whose memory is as before a block was placed at its next address.
abbrev pub given_back : World → ℕ → World
given_back w n = record w { next = suc (w.next + n); allocs = suc w.allocs }

pub text_at_live :
    (w : World) (p : ℕ) {b : Block} {t : Bytes}
    → w.heap p ≡ some b
    → b.text ≡ some t
    → text_at p w ≡ ok t w
unfolding text_at
text_at_live w p live text = rw (block_at, live) (rw text refl)

module _ (w : World) (n : ℕ) where
  pub strcpy_fresh :
      (t : Bytes)
      → length t < n
      → strcpy w.next 0 t (place w n (fresh_block n)) ≡ ok tt (place w n (text_block n t))
  unfolding strcpy
  strcpy_fresh t fits =
      rw (block_at, ==_refl w.next, lt→ltb (0 + length t) n (omega arith))
        (ap (λ hp. ok tt (record (place w n (text_block n t)) { heap = hp }))
          (update-update w.heap w.next _ _))

  pub snprintf_fresh :
      (t : Bytes)
      → length t < n
      → snprintf w.next n t (place w n (fresh_block n)) ≡ ok tt (place w n (text_block n t))
  unfolding snprintf
  snprintf_fresh t fits = rw (take_of_length_le (n - 1) t (omega arith)) (strcpy_fresh t fits)

  pub text_at_fresh :
      (t : Bytes) (m : ℕ)
      → text_at w.next (place w n (text_block m t)) ≡ ok t (place w n (text_block m t))
  unfolding text_at
  text_at_fresh t m = rw (block_at, ==_refl w.next)

  pub free_fresh :
      (b : Block)
      → w.next ≢ 0
      → w.heap w.next ≡ none
      → free w.next (place w n b) ≡ ok tt (given_back w n)
  unfolding free
  free_fresh b pos' unused =
      rw (==_false w.next 0 pos', block_at, ==_refl w.next)
        (ap (λ hp. ok tt (record (given_back w n) { heap = hp }))
          (update-update w.heap w.next _ _ ∙ update-none w.heap w.next unused))
