-- ===== src/Shell/Terminal/Damage.antt =====
-- What a damaged rectangle has painted: src/shell/terminal.c, damage_callback.
use prom.Prelude.{ℕ, zero, suc, ◌+◌, ◌-◌, ◌≡◌, refl, false, List, [], ◌∷◌, ◌++◌}
use prom.Prelude.Int.{pos}
use prom.Machine.{ok}
use prom.Tracer.Syscalls.{is_minus_one}
use prom.Shell.Desk.{Rect, Vterm, Act, move, setcchar, add_wch, Console, Desk}
use prom.Shell.Terminal.{attr_of, shown, print_cell, paint_row, paint_rows, damage_callback}

-- The `n` positions of a row from a column on, and those of `m` rows, row by row.
abbrev pub row_positions : ℕ → ℕ → ℕ → List (ℕ × ℕ)
row_positions zero row col = []
row_positions (suc n) row col = (row, col) ∷ row_positions n row (col + 1)

abbrev pub rect_positions : ℕ → ℕ → ℕ → ℕ → List (ℕ × ℕ)
rect_positions zero n row col = []
rect_positions (suc m) n row col = row_positions n row col ++ rect_positions m n (row + 1) col

module _ {T : Type 0} (v : Vterm T) (t : T) where
  -- The calls that paint the cells of `t` at some positions, in order, on top of a trace.
  abbrev pub painted : List (ℕ × ℕ) → List Act → List Act
  painted [] acts = acts
  painted ((row, col) ∷ ps) acts =
      let cell = v.get_cell t row col in
      painted ps (
        add_wch (shown cell.chars) (attr_of cell)
        ∷ move row col
        ∷ setcchar (shown cell.chars) (attr_of cell)
        ∷ acts)

  painted-append :
      (ps qs : List (ℕ × ℕ)) (acts : List Act)
      → painted (ps ++ qs) acts ≡ painted qs (painted ps acts)
  painted-append [] qs acts = refl
  painted-append ((row, col) ∷ ps) qs acts = painted-append ps qs _

  module _ (k : Console)
      (drawn : (acts : List Act) (a : Act) → is_minus_one (k.answer acts a) ≡ false) where
    paint_row_lem :
        (n row col : ℕ) (s : Desk T)
        → paint_row k v n t row col s
          ≡ ok tt (record s { trace = painted (row_positions n row col) s.trace })
    unfolding paint_row print_cell
    paint_row_lem zero row col s = refl
    paint_row_lem (suc n) row col s = simp (drawn, paint_row_lem n row (col + 1))

    paint_rows_lem :
        (m : ℕ) (rect : Rect) (row : ℕ) (s : Desk T)
        → paint_rows k v m t rect row s
          ≡ ok tt (record s {
            trace =
                painted
                  (rect_positions m (rect.end_col - rect.start_col) row rect.start_col)
                  s.trace;
          })
    unfolding paint_rows
    paint_rows_lem zero rect row s = refl
    paint_rows_lem (suc m) rect row s =
        simp (paint_row_lem, paint_rows_lem m rect (row + 1), painted-append)

    -- If no call of ncurses fails, damage_callback paints each cell of the rectangle once, row by
    -- row and in a row from left to right, as the emulator has it, puts the cursor back where it
    -- was, and changes nothing else.
    pub damage_callback_lem :
        (rect : Rect) (s : Desk T)
        → damage_callback k v t rect s
          ≡ ok (pos 1) (record s {
            trace =
                move (k.getyx s.trace).0 (k.getyx s.trace).1
                ∷ painted
                    (rect_positions
                      (rect.end_row - rect.start_row)
                      (rect.end_col - rect.start_col)
                      rect.start_row
                      rect.start_col)
                    s.trace;
          })
    unfolding damage_callback
    damage_callback_lem rect s = simp paint_rows_lem
