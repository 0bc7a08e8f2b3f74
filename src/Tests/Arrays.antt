-- ===== src/Tests/Arrays.antt =====
-- Arrays: src/dga/dga.c on a small memory.
use prom.Prelude.{ℕ, ◌+◌, ◌≡◌, ◌<◌, ◌≢◌, List, ◌∷◌, refl, none, [], arith, true}
use prom.Memory.{Cell, ptr, unset, Header, World, place}
use prom.Dga.Laws.{IsArray, new_block}
use prom.Machine.Returns.{Returns}
use prom.Dga.Sequence.{Operation, push, put, drop, run_operations, apply_all, Represents}
use prom.Dga.Sequence.Runs.{run_operations-apply_all}

abbrev pub roomy : World
roomy = record { heap = λ _. none; next = 4096; allocs = 0; grants = λ _. true; trace = [] }

abbrev pair : Header
pair = record { len = 2; szt = 8 }

-- A memory that holds an array of two elements.
abbrev holding : World
holding = place roomy 40 (new_block 2 8)

holding-IsArray : IsArray holding 4096 pair (new_block 2 8)
holding-IsArray = record { not_null = ground arith; live = refl; header = refl }

-- Two elements that were never written.
abbrev blank : List Cell
blank = unset ∷ unset ∷ []

abbrev operations : List Operation
operations = push (ptr 7) ∷ put 0 (ptr 9) ∷ drop 1 ∷ []

holding-Represents : Represents 8 holding 4096 blank
holding-Represents = record {
  block = new_block 2 8;
  array = holding-IsArray;
  room = omega arith;
  small = omega arith;
  fits = omega arith;
  elements = (refl, (refl, tt));
  below = omega arith;
  next_pos = omega arith;
  granted = λ i. refl;
}

applied : apply_all operations blank ≡ ptr 9 ∷ unset ∷ []
applied = refl

run_operations_example :
    Returns
      (λ r v.
        (q : ℕ) × (r ≡ q + 24)
        × Represents 8 v q (ptr 9 ∷ unset ∷ [])
        × ((b : ℕ) → b < holding.next → b ≢ 4096 → (b ≢ q) × (v.heap b ≡ holding.heap b)))
      (run_operations operations 4120 holding)
run_operations_example =
    run_operations-apply_all operations 8 holding 4096 blank holding-Represents
      ((omega arith, omega arith), (omega arith, (omega arith, tt)))
