-- ===== src/Dga/Sequence.antt =====
-- The arrays of src/dga/dga.c as lists: what the functions do to the sequence of the elements.
pub mod Runs
use prom.Prelude.{
  ℕ, suc, ◌+◌, ◌-◌, ◌*◌, ◌^◌, ◌≤◌, ◌<◌, ◌≡◌, ◌≢◌, true, List, [], ◌∷◌, ◌++◌, length, set, take,
}
use prom.Machine.{Cmd, pure, ◌>>=◌, ◌>>◌}
use prom.Memory.{Cell, Block, World}
use prom.Dga.{dga_len, dga_grow, dga_shrink, set as store}
use prom.Dga.Laws.{IsArray}

-- The elements at the indices from 0 on are those of the list.
abbrev pub Stores : (ℕ → Cell) → List Cell → Type 0
Stores f [] = Unit
Stores f (x ∷ xs) = (f 0 ≡ x) × Stores (λ i. f (suc i)) xs

-- The array at `p` holds the elements `xs`, of `szt` bytes each, and its size fits size_t.
pub record Represents (szt : ℕ) (w : World) (p : ℕ) (xs : List Cell) : Type 0 where
  pub block : Block
  pub array : IsArray w p (record { len = length xs; szt = szt }) block
  pub room : 24 + szt * length xs ≤ block.size
  pub small : length xs < 2 ^ 64
  pub fits : 24 + szt * length xs < 2 ^ 64
  pub elements : Stores block.cells xs
  pub below : p < w.next
  pub next_pos : w.next ≢ 0
  pub granted : (i : ℕ) → w.grants i ≡ true

-- What a caller does with an array: `push` is dga_grow by 1 and the assignment of the last element,
-- `put` an assignment, and `drop` is dga_shrink.
pub data Operation : Type 0 where
  push : Cell → Operation
  put : ℕ → Cell → Operation
  drop : ℕ → Operation

-- The operation on the array `arr`, and the array then; every request is meant to be granted.
abbrev pub run_one : Operation → ℕ → Cmd World ℕ
run_one (push c) arr = do tmp ← dga_grow arr 1; n ← dga_len tmp; store tmp (n - 1) c; pure tmp
run_one (put i c) arr = do store arr i c; pure arr
run_one (drop n) arr = dga_shrink arr n

abbrev pub run_operations : List Operation → ℕ → Cmd World ℕ
run_operations [] arr = pure arr
run_operations (o ∷ os) arr = do tmp ← run_one o arr; run_operations os tmp

-- The operation on the list.
abbrev pub apply : Operation → List Cell → List Cell
apply (push c) xs = xs ++ c ∷ []
apply (put i c) xs = set xs i c
apply (drop n) xs = take (length xs - n) xs

abbrev pub apply_all : List Operation → List Cell → List Cell
apply_all [] xs = xs
apply_all (o ∷ os) xs = apply_all os (apply o xs)

-- The sizes fit size_t and the indices lie inside.
abbrev pub Allowed : ℕ → Operation → List Cell → Type 0
Allowed szt (push c) xs = (length xs + 1 < 2 ^ 64) × (24 + szt * (length xs + 1) < 2 ^ 64)
Allowed szt (put i c) xs = i < length xs
Allowed szt (drop n) xs = n ≤ length xs

abbrev pub AllAllowed : ℕ → List Operation → List Cell → Type 0
AllAllowed szt [] xs = Unit
AllAllowed szt (o ∷ os) xs = Allowed szt o xs × AllAllowed szt os (apply o xs)
