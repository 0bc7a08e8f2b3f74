-- ===== src/Dga/Sequence/Runs.antt =====
-- Sequences of the functions of src/dga/dga.c do to an array what they do to a list.
use prom.Prelude.{
  sym, ℕ, zero, suc, ◌+◌, ◌-◌, ◌*◌, ◌^◌, ◌%◌, ◌≤◌, ◌<◌, ◌≡◌, ◌≢◌, refl, ap, ◌∙◌, List, [], ◌∷◌,
  ◌++◌, length, length-append, length-take, set, take, arith, update, update_ne, update_self,
  if◌then◌else◌, le→leb,
}
use native.Mathlib.Nat.{mul-le-mul_left}
use prom.Machine.Returns
use prom.Machine.Returns.{Returns, returns}
use prom.Memory.{Cell, unset, World, place, drop_block, size_max}
use prom.Dga.{dga_shrink}
use prom.Dga.Laws.{dga_len-IsArray, set-IsArray}
use prom.Dga.Resize.{moved, dga_resize_lem, dga_grow-resize}
use prom.Dga.Sequence.{
  Stores, Represents, Operation, push, put, drop, run_one, run_operations, apply, apply_all,
  Allowed, AllAllowed,
}

Stores-kept :
    (f g : ℕ → Cell) (xs : List Cell)
    → ((i : ℕ) → i < length xs → f i ≡ g i)
    → Stores g xs
    → Stores f xs
Stores-kept f g [] same s = tt
Stores-kept f g (x ∷ xs) same (e, s) = (
  same 0 (omega arith) ∙ e,
  Stores-kept (λ i. f (suc i)) (λ i. g (suc i)) xs (λ i lt. same (suc i) (omega arith)) s,
)

Stores-append :
    (f : ℕ → Cell) (xs : List Cell) (c : Cell)
    → Stores f xs
    → f (length xs) ≡ c
    → Stores f (xs ++ c ∷ [])
Stores-append f [] c s e = (e, tt)
Stores-append f (x ∷ xs) c (e', s) e = (e', Stores-append (λ i. f (suc i)) xs c s e)

Stores-set :
    (f : ℕ → Cell) (xs : List Cell) (i : ℕ) (c : Cell)
    → Stores f xs
    → Stores (update f i c) (set xs i c)
Stores-set f [] i c s = tt
Stores-set f (x ∷ xs) zero c (e, s) =
    (refl, Stores-kept (λ i. update f 0 c (suc i)) (λ i. f (suc i)) xs (λ i lt. ground arith) s)
Stores-set f (x ∷ xs) (suc i) c (e, s) = (
  ground arith,
  Stores-kept (λ j. update f (suc i) c (suc j)) (update (λ j. f (suc j)) i c) (set xs i c)
      (λ j lt. ground arith) (Stores-set (λ j. f (suc j)) xs i c s),
)

Stores-take : (f : ℕ → Cell) (n : ℕ) (xs : List Cell) → Stores f xs → Stores f (take n xs)
Stores-take f zero xs s = tt
Stores-take f (suc n) [] s = tt
Stores-take f (suc n) (x ∷ xs) (e, s) = (e, Stores-take (λ i. f (suc i)) n xs s)

length-set : (xs : List Cell) (i : ℕ) (c : Cell) → length (set xs i c) ≡ length xs
length-set [] i c = refl
length-set (x ∷ xs) zero c = refl
length-set (x ∷ xs) (suc i) c = ap suc (length-set xs i c)

module _ (szt : ℕ) (w : World) (p : ℕ) (xs : List Cell) (a : Represents szt w p xs) where
  -- What an operation leaves: the new list, and every other block that was live as it was.
  abbrev Leaves : List Cell → ℕ → World → Type 0
  Leaves ys r v =
      (q : ℕ) × (r ≡ q + 24)
      × Represents szt v q ys
      × ((b : ℕ) → b < w.next → b ≢ p → (b ≢ q) × (v.heap b ≡ w.heap b))
      × (w.next ≤ v.next)

  inside : (i : ℕ) → i < length xs → 24 + szt * (i + 1) ≤ a.block.size
  inside i lt =
      let inner : szt * (i + 1) ≤ szt * length xs = mul-le-mul_left szt (omega arith) in
      omega (arith, a.room, inner)

  put_lem :
      (i : ℕ) (c : Cell)
      → i < length xs
      → Returns (Leaves (set xs i c)) (run_one (put i c) (p + 24) w)
  put_lem i c lt =
      rw (set-IsArray a.array i c (le→leb (24 + szt * (i + 1)) a.block.size (inside i lt))) (
        returns (
          p,
          refl,
          record {
            block = record a.block { cells = update a.block.cells i c };
            array = record {
              not_null = a.array.not_null;
              live = update_self w.heap p _;
              header = rw (length-set xs i c) a.array.header;
            };
            room = rw (length-set xs i c) a.room;
            small = rw (length-set xs i c) a.small;
            fits = rw (length-set xs i c) a.fits;
            elements = Stores-set a.block.cells xs i c a.elements;
            below = a.below;
            next_pos = a.next_pos;
            granted = a.granted;
          },
          (λ b lt' ne. (ne, update_ne w.heap p _ b (λ e. ne (sym e)))),
          omega arith,
        ))

  -- The array after a resizing to `n` elements.
  abbrev resized : ℕ → World
  resized n =
      place (drop_block p w) (24 + szt * n)
        (moved (record { len = length xs; szt = szt }) n a.block)

  kept_cell :
      (n i : ℕ)
      → i < length xs
      → (moved (record { len = length xs; szt = szt }) n a.block).cells i ≡ a.block.cells i
  kept_cell n i lt =
      ap (λ t. if t then a.block.cells i else unset)
        (le→leb (24 + szt * (i + 1)) a.block.size (inside i lt))

  resized-frame : (n b : ℕ) → b < w.next → b ≢ p → (b ≢ w.next) × ((resized n).heap b ≡ w.heap b)
  resized-frame n b lt ne = (omega arith, ground arith)

  drop_lem :
      (n : ℕ)
      → n ≤ length xs
      → Returns (Leaves (take (length xs - n) xs)) (run_one (drop n) (p + 24) w)
  unfolding dga_shrink
  drop_lem n le =
      let m = length xs - n in
      let shrunk : (length xs + size_max - n) % 2 ^ 64 ≡ m = ground (arith, a.small) in
      let smaller : szt * m ≤ szt * length xs = mul-le-mul_left szt (omega arith) in
      let fits : 24 + szt * m < 2 ^ 64 = omega (arith, smaller, a.fits) in
      let count : length (take m xs) ≡ m = omega (arith, length-take m xs) in
      let (runs, array, cells) = dga_resize_lem m a.array a.next_pos (a.granted _) fits in
      rw (dga_len-IsArray a.array, shrunk, runs)
        (returns (
          w.next,
          refl,
          record {
            block = moved (record { len = length xs; szt = szt }) m a.block;
            array = rw count array;
            room = rw count (omega arith);
            small = rw count (omega (arith, a.small));
            fits = rw count fits;
            elements =
                Stores-take (moved (record { len = length xs; szt = szt }) m a.block).cells m xs (
                  Stores-kept (moved (record { len = length xs; szt = szt }) m a.block).cells
                    a.block.cells xs (kept_cell m) a.elements);
            below = omega arith;
            next_pos = omega arith;
            granted = a.granted;
          },
          resized-frame m,
          omega arith,
        ))

  push_lem :
      (c : Cell)
      → length xs + 1 < 2 ^ 64
      → 24 + szt * (length xs + 1) < 2 ^ 64
      → Returns (Leaves (xs ++ c ∷ [])) (run_one (push c) (p + 24) w)
  push_lem c len fits =
      let n = length xs + 1 in
      let b = moved (record { len = length xs; szt = szt }) n a.block in
      let (runs, array, cells) = dga_resize_lem n a.array a.next_pos (a.granted _) fits in
      let last_index : length xs + 1 - 1 ≡ length xs = omega arith in
      let count : length (xs ++ c ∷ []) ≡ n = omega (arith, length-append xs (c ∷ [])) in
      rw
        (
          dga_grow-resize 1 a.array len ∙ runs,
          dga_len-IsArray array,
          last_index,
          set-IsArray array (length xs) c (le→leb (24 + szt * n) (24 + szt * n) (omega arith)),
        )
        (returns (
          w.next,
          refl,
          record {
            block = record b { cells = update b.cells (length xs) c };
            array = record {
              not_null = a.next_pos;
              live = update_self (resized n).heap w.next _;
              header = rw count refl;
            };
            room = rw count (omega arith);
            small = rw count len;
            fits = rw count fits;
            elements =
                Stores-append (update b.cells (length xs) c) xs c
                  (Stores-kept (update b.cells (length xs) c) a.block.cells xs
                    (λ i lt. update_ne b.cells (length xs) c i (omega arith) ∙ kept_cell n i lt)
                    a.elements)
                  (update_self b.cells (length xs) c);
            below = omega arith;
            next_pos = omega arith;
            granted = a.granted;
          },
          (λ a' lt ne. ground (arith, resized-frame n a' lt ne)),
          omega arith,
        ))

run_one-apply :
    (o : Operation) (szt : ℕ) (w : World) (p : ℕ) (xs : List Cell) (a : Represents szt w p xs)
    → Allowed szt o xs
    → Returns (Leaves szt w p xs a (apply o xs)) (run_one o (p + 24) w)
run_one-apply (push c) szt w p xs a (len, fits) = push_lem szt w p xs a c len fits
run_one-apply (put i c) szt w p xs a lt = put_lem szt w p xs a i c lt
run_one-apply (drop n) szt w p xs a le = drop_lem szt w p xs a n le

-- On an array that holds a list, with every request for memory granted, the sizes fitting size_t
-- and the indices inside, any sequence of appending by dga_grow and an assignment, of assignments
-- and of dga_shrink returns a live array that holds what the same operations make of the list; its
-- block has room for it, and every other block that was live is untouched.
pub run_operations-apply_all :
    (os : List Operation) (szt : ℕ) (w : World) (p : ℕ) (xs : List Cell)
    → Represents szt w p xs
    → AllAllowed szt os xs
    → Returns
        (λ r v.
          (q : ℕ) × (r ≡ q + 24)
          × Represents szt v q (apply_all os xs)
          × ((b : ℕ) → b < w.next → b ≢ p → (b ≢ q) × (v.heap b ≡ w.heap b)))
        (run_operations os (p + 24) w)
run_operations-apply_all [] szt w p xs a allowed = returns (p, refl, a, λ b lt ne. (ne, refl))
run_operations-apply_all (o ∷ os) szt w p xs a (here, later) =
    Returns.bind (run_one-apply o szt w p xs a here) λ r v (q, at, a', same, grows). rw at (
      Returns.mono (run_operations-apply_all os szt v q (apply o xs) a' later)
        λ r' u (q', at', a'', same'). (
          q',
          at',
          a'',
          λ b lt ne.
              let (ne', e) = same b lt ne in
              let (ne'', e') = same' b (omega (arith, grows)) ne' in (ne'', e' ∙ e),
        ))
