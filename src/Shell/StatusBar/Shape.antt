-- ===== src/Shell/StatusBar/Shape.antt =====
-- The line of the status bar: src/shell/shell.c, set_status_bar; and minimum.
use prom.Prelude.{
  take_of_length_le, length-take, Bool-cases, inl, inr, ℕ, zero, suc, ◌+◌, ◌-◌, ◌≤◌, ◌<◌, ◌≡◌, refl,
  ap, ◌∙◌, sym, [], ◌∷◌, ◌++◌, length, take, set, replicate, arith, length-append, length-replicate,
  ltb,
}
use mathlib.Core.List.{append_assoc, append-nil}
use native.Mathlib.Numerals.{add-one}
use prom.Prelude.Bytes.{Bytes}
use prom.Shell.StatusBar.{minimum, status_text, printed, pad, set_status_bar}

-- minimum returns a number that is at least as large as both of its arguments.
pub minimum_max : (a b : ℕ) → (a ≤ minimum a b) × (b ≤ minimum a b)
unfolding minimum
minimum_max a b = ground arith

suc-sub-one : (m : ℕ) → suc m - 1 ≡ m
suc-sub-one m = omega arith

set-append :
    (pre : Bytes) (x v : ℕ) (post : Bytes) → set (pre ++ x ∷ post) (length pre) v ≡ pre ++ v ∷ post
set-append [] x v post = refl
set-append (y ∷ pre) x v post = ap (λ r. y ∷ r) (set-append pre x v post)

pad-replicate :
    (n i : ℕ) (pre : Bytes)
    → i ≡ length pre
    → pad n i (pre ++ replicate n 0) ≡ pre ++ replicate n 32
unfolding pad
pad-replicate zero i pre e = refl
pad-replicate (suc n) i pre e =
    rw (e, set-append pre 0 32 (replicate n 0))
      (ap (pad n (length pre + 1)) (sym (append_assoc pre (32 ∷ []) (replicate n 0)))
        ∙ pad-replicate n (length pre + 1) (pre ++ 32 ∷ [])
            (omega (arith, length-append pre (32 ∷ [])))
        ∙ append_assoc pre (32 ∷ []) (replicate n 32))

-- A write to the last byte of a text.
set-take : (n : ℕ) (xs : Bytes) (v : ℕ) → length xs ≡ suc n → set xs n v ≡ take n xs ++ v ∷ []
set-take zero (x ∷ []) v e = refl
set-take zero (x ∷ y ∷ xs) v e = absurd (omega arith)
set-take n [] v e = absurd (omega arith)
set-take (suc n) (x ∷ xs) v e = ap (λ r. x ∷ r) (set-take n xs v (omega arith))

-- A line of `n + 1` bytes, from the text `t`.
abbrev filled : ℕ → Bytes → Bytes
filled m t = take m (t ++ replicate (suc m - length t) 32) ++ 0 ∷ []

bar_long :
    (m : ℕ) (t : Bytes)
    → length t ≤ m
    → set (pad (suc m - length t) (length t) (printed (suc m) t)) m 0 ≡ filled m t
bar_long m t fits =
    rw
      (
        suc-sub-one m,
        take_of_length_le m t fits,
        pad-replicate (suc m - length t) (length t) t refl,
      )
      (set-take m (t ++ replicate (suc m - length t) 32) 0 (
        omega (
          arith,
          length-append t (replicate (suc m - length t) 32),
          length-replicate {A = ℕ} (suc m - length t) 32,
        )))

bar_short :
    (m : ℕ) (t : Bytes)
    → m < length t
    → set (pad (suc m - length t) (length t) (printed (suc m) t)) m 0 ≡ filled m t
unfolding pad
bar_short m t short =
    let none' : suc m - length t ≡ 0 = omega arith in
    let len : length (take m t) ≡ m = omega (arith, length-take m t) in
    let one : suc m - m ≡ 1 = omega arith in
    rw (suc-sub-one m, none', len, one, append-nil)
      (ap (λ (i : ℕ). set (take m t ++ 0 ∷ []) i 0) (sym len) ∙ set-append (take m t) 0 0 [])

-- For every length of at least 1, set_status_bar leaves the text, cut off or padded with spaces
-- to one byte less than the length, and a NUL in the last byte.
pub set_status_bar_lem :
    (m : ℕ)
    → set_status_bar (m + 1)
      ≡ take m (status_text ++ replicate (m + 1 - length status_text) b' ') ++ 0 ∷ []
unfolding set_status_bar
set_status_bar_lem m = rw add-one (
    ap
      (λ (i : ℕ).
        set (pad (suc m - length status_text) (length status_text) (printed (suc m) status_text)) i
          0)
      (suc-sub-one m)
    ∙ elim (Bool-cases (ltb m (length status_text))) [
      | inl short ↦ bar_short m status_text (ground arith)
      | inr long ↦ bar_long m status_text (ground arith)
    ])
