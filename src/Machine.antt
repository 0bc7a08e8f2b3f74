-- ===== src/Machine.antt =====
-- How a C function runs: it returns in a new state, or the process ends. Every model of the
-- library is a command over the state that its code can reach.
pub mod Returns
use prom.Prelude.{ℕ, ◌≡◌, refl, Bool, if◌then◌else◌}

-- `aborted` is abort(); `faulted` is undefined behaviour, such as an access outside an array or
-- through a null or freed pointer; `exited` is exit(status); `stuck` is a loop out of fuel.
pub data Run (S A : Type 0) : Type 0 where
  ok : A → S → Run S A
  aborted : Run S A
  faulted : Run S A
  exited : ℕ → S → Run S A
  stuck : Run S A

abbrev pub Cmd : Type 0 → Type 0 → Type 0
Cmd S A = S → Run S A

abbrev pub pure : {S A : Type 0} → A → Cmd S A
pure a s = ok a s

module _ {S A B : Type 0} where
  abbrev pub and_then : Run S A → (A → Cmd S B) → Run S B
  and_then (ok a s) k = k a s
  and_then aborted k = aborted
  and_then faulted k = faulted
  and_then (exited n s) k = exited n s
  and_then stuck k = stuck

  infixl 5 ◌>>=◌ ◌>>◌
  abbrev pub ◌>>=◌ : Cmd S A → (A → Cmd S B) → Cmd S B
  m >>= k = λ s. and_then (m s) k

  abbrev pub ◌>>◌ : Cmd S A → Cmd S B → Cmd S B
  m >> n = m >>= λ _. n

module _ {S T A : Type 0} where
  -- A command on a part `t` of the state, where `put` writes the part back.
  abbrev pub zoom_run : (T → S) → Run T A → Run S A
  zoom_run put (ok a t) = ok a (put t)
  zoom_run put aborted = aborted
  zoom_run put faulted = faulted
  zoom_run put (exited n t) = exited n (put t)
  zoom_run put stuck = stuck

  abbrev pub zoom : (S → T) → (S → T → S) → Cmd T A → Cmd S A
  zoom get put m s = zoom_run (put s) (m (get s))

abbrev pub gets : {S A : Type 0} → (S → A) → Cmd S A
gets f s = ok (f s) s

abbrev pub modify : {S : Type 0} → (S → S) → Cmd S (Unit {0})
modify f s = ok tt (f s)

abbrev pub abort_if : {S : Type 0} → Bool → Cmd S (Unit {0})
abort_if b s = if b then aborted else ok tt s

-- Inversion of a sequence that returns.
pub and_then-eq-ok :
    {S A B : Type 0} (r : Run S A) (k : A → Cmd S B) {b : B} {t : S}
    → and_then r k ≡ ok b t
    → (a : A) × (s : S) × (r ≡ ok a s) × (k a s ≡ ok b t)
and_then-eq-ok (ok a s) k h = (a, s, refl, h)
and_then-eq-ok aborted k h = cc
and_then-eq-ok faulted k h = cc
and_then-eq-ok (exited n s) k h = cc
and_then-eq-ok stuck k h = cc
