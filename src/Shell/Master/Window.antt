-- ===== src/Shell/Master/Window.antt =====
-- A change of the window's size: src/shell/shell.c, master_process, and window_resize of
-- src/shell/terminal.c.
use prom.Prelude.{
  ℕ, zero, suc, ◌+◌, ◌-◌, ◌%◌, ◌^◌, ◌<◌, ◌≡◌, refl, ap, ◌∙◌, true, false, some, List, [], ◌∷◌,
  arith, Bool-cases, inl, inr,
}
use native.Mathlib.Nat.{mod-eq_of_lt}
use prom.Prelude.Int.{ℤ, pos}
use prom.Machine.{Run, and_then}
use prom.Machine.Returns
use prom.Machine.Returns.{Returns, returns}
use prom.Tracer.Env.{Env}
use prom.Tracer.Syscalls.{is_minus_one}
use prom.Shell.Desk.{
  Rect, Called, damaged, moved_to, ScreenCell, Vterm, Act, set_winsize, Console, Desk, Q,
}
use prom.Shell.Terminal.{
  or_fail, print_cell, paint_row, paint_rows, damage_callback, movecursor_callback, call_back,
  run_callbacks, screen_call, window_resize, maxyx,
}
use prom.Shell.Master.{follow_window}

module _ {T : Type 0} where
  -- Only the trace and errno have changed.
  abbrev Drawn : Desk T → Desk T → Type 0
  Drawn s u = (acts : List Act) × (e : ℕ) × (u ≡ record s { trace = acts; errno = e })

  Drawn-trans : (s u w : Desk T) → Drawn s u → Drawn u w → Drawn s w
  Drawn-trans s u w (acts, e, p) (acts', e', q) =
      (acts', e', q ∙ ap {A = Desk T} {B = Desk T} (λ z. record z { trace = acts'; errno = e' }) p)

  abbrev Draws : {A : Type 0} → Desk T → Run (Desk T) A → Type 0
  Draws s = Returns (λ _ u. Drawn s u)

  draw-bind :
      {A B : Type 0} (s : Desk T) {r : Run (Desk T) A} {f : A → Q T B}
      → Draws s r
      → ((a : A) (u : Desk T) → Draws u (f a u))
      → Draws s (and_then r f)
  draw-bind s r f = Returns.bind r λ a u d. Returns.mono (f a u) λ b w d'. Drawn-trans s u w d d'

  module _ (k : Console) where
    or_fail-Draws :
        (a : Act) (rest : Q T ℤ) (s : Desk T)
        → ((u : Desk T) → Draws u (rest u))
        → Draws s (or_fail k a rest s)
    or_fail-Draws a rest s go = elim (Bool-cases (is_minus_one (k.answer s.trace a))) [
      | inl e ↦ rw e (returns (_, _, refl))
      | inr e ↦ rw e (Returns.mono (go _) λ b w d. Drawn-trans s _ w (a ∷ s.trace, s.errno, refl) d)
    ]

    print_cell-Draws :
        (cell : ScreenCell) (row col : ℕ) (s : Desk T) → Draws s (print_cell k cell row col s)
    unfolding print_cell
    print_cell-Draws cell row col s =
        or_fail-Draws _ _ s
          λ u. or_fail-Draws _ _ u λ u'. or_fail-Draws _ _ u' λ u''. returns (_, _, refl)

    module _ (v : Vterm T) where
      paint_row-Draws :
          (n : ℕ) (t : T) (row col : ℕ) (s : Desk T) → Draws s (paint_row k v n t row col s)
      unfolding paint_row
      paint_row-Draws zero t row col s = returns (_, _, refl)
      paint_row-Draws (suc n) t row col s =
          draw-bind s (print_cell-Draws (v.get_cell t row col) row col s)
            λ _ u. paint_row-Draws n t row (col + 1) u

      paint_rows-Draws :
          (n : ℕ) (t : T) (rect : Rect) (row : ℕ) (s : Desk T)
          → Draws s (paint_rows k v n t rect row s)
      unfolding paint_rows
      paint_rows-Draws zero t rect row s = returns (_, _, refl)
      paint_rows-Draws (suc n) t rect row s =
          draw-bind s (paint_row-Draws (rect.end_col - rect.start_col) t row rect.start_col s)
            λ _ u. paint_rows-Draws n t rect (row + 1) u

      call_back-Draws : (c : Called T) (s : Desk T) → Draws s (call_back k v c s)
      unfolding damage_callback movecursor_callback
      call_back-Draws (damaged t rect) s =
          draw-bind s (paint_rows-Draws (rect.end_row - rect.start_row) t rect rect.start_row s)
            λ _ u. returns (_, _, refl)
      call_back-Draws (moved_to t row col) s = returns (_, _, refl)

      run_callbacks-Draws : (cs : List (Called T)) (s : Desk T) → Draws s (run_callbacks k v cs s)
      unfolding run_callbacks
      run_callbacks-Draws [] s = returns (_, _, refl)
      run_callbacks-Draws (c ∷ cs) s =
          draw-bind s (call_back-Draws c s) λ _ u. run_callbacks-Draws cs u

      screen_call-sets :
          (f : T → List (Called T) × T) (s : Desk T) (t : T)
          → s.vterm ≡ some t
          → Draws (record s { vterm = some (f t).1 }) (screen_call k v f s)
      screen_call-sets f s t there =
          simp there (run_callbacks-Draws (f t).0 (record s { vterm = some (f t).1 }))

      last_row : (y : ℕ) → suc y < 2 ^ 16 → (suc y % 2 ^ 16 + 2 ^ 16 - 1) % 2 ^ 16 ≡ y
      last_row y fits = ground arith

      -- What a new size leaves.
      abbrev pub Sized : Desk T → T → ℕ → ℕ → Desk T → Type 0
      Sized s t y x u =
          (u.vterm ≡ some (v.set_size y x (v.flush_damage t).1).1)
          × (u.rows ≡ y)
          × (u.cols ≡ x)
          × (acts : List Act) × (u.trace ≡ set_winsize s.fd_master y x ∷ acts)

      module _ (s : Desk T) (t : T) (y x : ℕ) (there : s.vterm ≡ some t)
          (rows : (acts : List Act) → k.getmaxy acts ≡ pos (suc y))
          (cols : (acts : List Act) → k.getmaxx acts ≡ pos x) (fits : suc y < 2 ^ 16)
          (fits' : x < 2 ^ 16) where
        window_resize-Sized : Returns (λ _ u. Sized s t y x u) (window_resize k v s)
        unfolding window_resize maxyx
        window_resize-Sized =
            Returns.bind (screen_call-sets v.flush_damage s t there) λ _ u (acts, e, p). rw p (
              rw (rows _, cols _, last_row y fits, mod-eq_of_lt fits')
                (Returns.bind (screen_call-sets (v.set_size y x) _ (v.flush_damage t).1 refl)
                  λ _ w (acts', e', q). rw q (returns (refl, refl, refl, acts', refl))))

        -- Where SIGWINCH has been seen and the screen has y + 1 rows and x columns, both below
        -- 2 ^ 16, the terminal and the pseudo terminal are given y rows and x columns, and the
        -- signal is forgotten, whatever the callbacks of the screen draw and whichever of their
        -- calls fail.
        pub follow_window_lem :
            (kernel : Env) (fuel : ℕ)
            → s.got_sigwinch ≡ true
            → Returns
                (λ _ u. Sized s t y x u × (u.got_sigwinch ≡ false))
                (follow_window v k kernel fuel s)
        follow_window_lem kernel fuel seen =
            simp seen (Returns.bind window_resize-Sized λ _ u sized. returns (sized, refl))
