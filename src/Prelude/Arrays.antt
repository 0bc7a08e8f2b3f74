-- ===== src/Prelude/Arrays.antt =====
-- Arrays and memories as functions from an index.
use Prim.Native.Nat.{ℕ}
use mathlib.Core.Path.{◌≡◌, fun_ext}
use mathlib.Core.Option.{Option, none}
use native.Mathlib.Omega.{arith}
use prom.Prelude.Tests.{◌==◌, if◌then◌else◌}

abbrev pub update {ℓ} : {A : Type ℓ} → (ℕ → A) → ℕ → A → ℕ → A
update f i a j = if i == j then a else f j

pub update_self {ℓ} : {A : Type ℓ} (f : ℕ → A) (i : ℕ) (a : A) → update f i a i ≡ a
update_self f i a = ground arith

pub update_ne {ℓ} :
    {A : Type ℓ} (f : ℕ → A) (i : ℕ) (a : A) (j : ℕ) → ¬ (i ≡ j) → update f i a j ≡ f j
update_ne f i a j h = ground arith

pub update-update {ℓ} :
    {A : Type ℓ} (f : ℕ → A) (i : ℕ) (a b : A) → update (update f i a) i b ≡ update f i b
update-update f i a b = fun_ext λ j. ground arith

-- A place that was free and is free again.
pub update-none {ℓ} : {A : Type ℓ} (f : ℕ → Option A) (i : ℕ) → f i ≡ none → update f i none ≡ f
update-none f i e = fun_ext λ j. ground arith
