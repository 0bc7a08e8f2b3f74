-- ===== src/Shell/Input/Keys.antt =====
-- What typed keys send to the terminal: src/shell/shell.c, handle_arrows and handle_input.
use prom.Prelude.{
  sym, ℕ, zero, suc, ◌-◌, ◌^◌, ◌<◌, ◌≡◌, ◌≢◌, refl, ◌∙◌, some, List, [], ◌∷◌, ◌++◌, length,
  ==_false, arith,
}
use native.Mathlib.Nat.{mod-eq_of_lt}
use prom.Prelude.Int.{ℤ, pos}
use prom.Machine.{ok}
use prom.Shell.Desk.{Arrow, up, down, right, left, Vterm, Desk}
use prom.Shell.Input.{key_resize, escape, handle_arrows, read_keys}

-- What the emulator is told: a character or an arrow.
pub data Press : Type 0 where
  char : ℕ → Press
  arrow : Arrow → Press

abbrev pub letter_of : Arrow → ℕ
letter_of up = b'A'
letter_of down = b'B'
letter_of right = b'C'
letter_of left = b'D'

-- The keys that getch gives for a press.
abbrev pub typed : Press → List ℤ
typed (char c) = pos c ∷ []
typed (arrow a) = pos escape ∷ pos b'[' ∷ pos (letter_of a) ∷ []

abbrev pub all_typed : List Press → List ℤ
all_typed [] = []
all_typed (p ∷ ps) = typed p ++ all_typed ps

-- A character that is neither the escape nor KEY_RESIZE.
abbrev pub IsPlain : Press → Type 0
IsPlain (char c) = (c ≢ escape) × (c ≢ key_resize) × (c < 2 ^ 32)
IsPlain (arrow a) = Unit

abbrev pub AllPlain : List Press → Type 0
AllPlain [] = Unit
AllPlain (p ∷ ps) = IsPlain p × AllPlain ps

module _ {T : Type 0} (v : Vterm T) where
  abbrev pub press : Press → T → T
  press (char c) = v.keyboard_unichar c
  press (arrow a) = v.keyboard_key a

  abbrev pub press_all : List Press → T → T
  press_all [] t = t
  press_all (p ∷ ps) t = press_all ps (press p t)

  module _ (room : (t : T) → v.buffer_remaining t ≢ 0) where
    read_arrow :
        (fuel : ℕ) (a : Arrow) (rest : List ℤ) (s : Desk T) (t : T)
        → read_keys v (suc fuel) (record s { vterm = some t; keys = typed (arrow a) ++ rest })
          ≡ read_keys v fuel (record s { vterm = some (v.keyboard_key a t); keys = rest })
    unfolding read_keys handle_arrows
    read_arrow fuel up rest s t = rw (==_false (v.buffer_remaining t) 0 (room t)) refl
    read_arrow fuel down rest s t = rw (==_false (v.buffer_remaining t) 0 (room t)) refl
    read_arrow fuel right rest s t = rw (==_false (v.buffer_remaining t) 0 (room t)) refl
    read_arrow fuel left rest s t = rw (==_false (v.buffer_remaining t) 0 (room t)) refl

    read_char :
        (fuel c : ℕ) (rest : List ℤ) (s : Desk T) (t : T)
        → IsPlain (char c)
        → read_keys v (suc fuel) (record s { vterm = some t; keys = pos c ∷ rest })
          ≡ read_keys v fuel (record s { vterm = some (v.keyboard_unichar c t); keys = rest })
    unfolding read_keys
    read_char fuel c rest s t (no_escape, no_resize, fits) = simp (
      ==_false (v.buffer_remaining t) 0 (room t),
      ==_false key_resize c (λ e. no_resize (sym e)),
      ==_false escape c (λ e. no_escape (sym e)),
      mod-eq_of_lt fits,
    )

    -- If the terminal's buffer has room, the keys of any presses of arrows and of characters other
    -- than the escape and KEY_RESIZE send the terminal these presses, in order, within a round for
    -- each and one more, and nothing is left to be read.
    pub read_keys-typed :
        (ps : List Press) (fuel : ℕ) (s : Desk T) (t : T)
        → AllPlain ps
        → length ps < fuel
        → read_keys v fuel (record s { vterm = some t; keys = all_typed ps })
          ≡ ok tt (record s { vterm = some (press_all ps t); keys = [] })
    unfolding read_keys
    read_keys-typed ps zero s t plain enough = absurd (omega arith)
    read_keys-typed [] (suc fuel) s t plain enough =
        rw (==_false (v.buffer_remaining t) 0 (room t)) refl
    read_keys-typed (char c ∷ ps) (suc fuel) s t (plain, more) enough =
        read_char fuel c (all_typed ps) s t plain
        ∙ read_keys-typed ps fuel s (v.keyboard_unichar c t) more (omega arith)
    read_keys-typed (arrow a ∷ ps) (suc fuel) s t (plain, more) enough =
        read_arrow fuel a (all_typed ps) s t
        ∙ read_keys-typed ps fuel s (v.keyboard_key a t) more (omega arith)

    -- If the terminal's buffer has room, a lone escape, with no key behind it, sends the terminal
    -- the escape and the character 2 ^ 32 - 1, which is the -1 of getch.
    read_keys-lone_escape :
        (fuel : ℕ) (s : Desk T) (t : T)
        → 1 < fuel
        → read_keys v fuel (record s { vterm = some t; keys = pos escape ∷ [] })
          ≡ ok tt (record s {
            vterm = some (v.keyboard_unichar (2 ^ 32 - 1) (v.keyboard_unichar escape t));
            keys = [];
          })
    unfolding read_keys handle_arrows
    read_keys-lone_escape zero s t enough = absurd (omega arith)
    read_keys-lone_escape (suc zero) s t enough = absurd (omega arith)
    read_keys-lone_escape (suc (suc fuel)) s t enough =
        rw (==_false (v.buffer_remaining t) 0 (room t)) (
          rw
            (==_false
              (v.buffer_remaining (v.keyboard_unichar (2 ^ 32 - 1) (v.keyboard_unichar escape t))) 0
              (room _))
            refl)
