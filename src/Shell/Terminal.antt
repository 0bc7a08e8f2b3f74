-- ===== src/Shell/Terminal.antt =====
-- The screen: src/shell/terminal.c.
pub mod Damage
use prom.Prelude.{ℕ, zero, suc, ◌+◌, ◌-◌, ◌%◌, ◌^◌, true, false, none, List, [], ◌∷◌, if◌then◌else◌}
use prom.Prelude.Int.{ℤ, pos, negsuc}
use prom.Machine.{ok, pure, ◌>>=◌, ◌>>◌, and_then}
use prom.Tracer.Syscalls.{is_minus_one}
use prom.Shell.Desk.{
  ScreenCell, Rect, Called, damaged, moved_to, Vterm, Act, initscr, raw, noecho, nodelay, keypad,
  nonl, meta, refresh, endwin, move, setcchar, add_wch, set_winsize, vterm_free, Console, Q,
  minus_one, perform, request, with_vterm, put_vterm,
}

-- An int that is stored in an unsigned short.
abbrev pub to_u16 : ℤ → ℕ
to_u16 (pos n) = n % 2 ^ 16
to_u16 (negsuc n) = 2 ^ 16 - 1 - n % 2 ^ 16

-- A_BLINK, A_BOLD, A_ITALIC, A_REVERSE and A_UNDERLINE of ncurses: five different bits
abbrev pub attr_of : ScreenCell → ℕ
attr_of c =
    (if c.blink then 2 ^ 19 else 0)
    + (if c.bold then 2 ^ 21 else 0)
    + (if c.italic then 2 ^ 31 else 0)
    + (if c.reverse then 2 ^ 18 else 0)
    + (if c.underline then 2 ^ 17 else 0)

-- `cell->chars[0] ? cell->chars : L" "`
abbrev pub shown : List ℕ → List ℕ
shown [] = b' ' ∷ []
shown (c ∷ cs) = c ∷ cs

module _ {T : Type 0} where
  -- `wsize->ws_row -= 1` on an unsigned short
  abbrev pub drop_row : Q T (Unit {0})
  drop_row s = ok tt (record s { rows = (s.rows + 2 ^ 16 - 1) % 2 ^ 16 })

  unfoldable pub free_ncurses : Q T (Unit {0})
  free_ncurses = perform endwin

  unfoldable pub free_terminal : Q T (Unit {0})
  free_terminal = perform vterm_free

module _ {T : Type 0} (k : Console) where
  -- `if (call == ERR) return -1;` in front of the rest
  abbrev pub or_fail : Act → Q T ℤ → Q T ℤ
  or_fail a rest = do ret ← request k a; if is_minus_one ret then pure minus_one else rest

  unfoldable pub print_cell : ScreenCell → ℕ → ℕ → Q T ℤ
  print_cell cell row col =
      or_fail (setcchar (shown cell.chars) (attr_of cell)) (
        or_fail (move row col) (or_fail (add_wch (shown cell.chars) (attr_of cell)) (pure (pos 0))))

  unfoldable pub maxyx : Q T (Unit {0})
  maxyx s =
      ok tt (record s { rows = to_u16 (k.getmaxy s.trace); cols = to_u16 (k.getmaxx s.trace) })

  unfoldable pub movecursor_callback : ℕ → ℕ → Q T ℤ
  movecursor_callback row col = do
    ret ← request k (move row col)
    pure (if is_minus_one ret then pos 0 else pos 1)

  unfoldable pub init_ncurses : Q T ℤ
  init_ncurses = or_fail initscr (
      or_fail raw (
        or_fail noecho (
          or_fail nodelay
            (or_fail keypad (or_fail nonl (or_fail meta (do perform refresh; pure (pos 0))))))))

  module _ (v : Vterm T) where
    -- The inner loop of damage_callback, by the columns that are left. The emulator in the
    -- callback is the one that calls it.
    unfoldable pub paint_row : ℕ → T → ℕ → ℕ → Q T (Unit {0})
    unfolding print_cell
    paint_row zero t row col = pure tt
    paint_row (suc left) t row col = do
      print_cell (v.get_cell t row col) row col
      paint_row left t row (col + 1)

    -- The outer loop, by the rows that are left.
    unfoldable pub paint_rows : ℕ → T → Rect → ℕ → Q T (Unit {0})
    unfolding paint_row
    paint_rows zero t rect row = pure tt
    paint_rows (suc left) t rect row = do
      paint_row (rect.end_col - rect.start_col) t row rect.start_col
      paint_rows left t rect (row + 1)

    unfoldable pub damage_callback : T → Rect → Q T ℤ
    unfolding paint_rows
    damage_callback t rect s =
        let (y, x) = k.getyx s.trace in
        (do
          paint_rows (rect.end_row - rect.start_row) t rect rect.start_row
          perform (move y x)
          pure (pos 1))
          s

    -- vtscreen_cbs
    abbrev pub call_back : Called T → Q T ℤ
    call_back (damaged t rect) = damage_callback t rect
    call_back (moved_to t row col) = movecursor_callback row col

    -- A call of libvterm that makes calls of the callbacks.
    unfoldable pub run_callbacks : List (Called T) → Q T (Unit {0})
    run_callbacks [] = pure tt
    run_callbacks (c ∷ cs) = do call_back c; run_callbacks cs

    abbrev pub screen_call : (T → List (Called T) × T) → Q T (Unit {0})
    screen_call f = with_vterm λ t. let (calls, t') = f t in do put_vterm t'; run_callbacks calls

    unfoldable pub window_resize : Q T (Unit {0})
    unfolding maxyx
    window_resize = do
      screen_call v.flush_damage
      perform endwin
      perform refresh
      maxyx
      drop_row
      λ s. screen_call (v.set_size s.rows s.cols) s
      λ s. perform (set_winsize s.fd_master s.rows s.cols) s

    -- `vterm_screen_reset` and the other settings of a new terminal
    unfoldable pub init_vterm : ℕ → ℕ → T
    init_vterm row col =
        v.set_callbacks (v.reset (v.enable_altscreen (v.set_utf8 (v.make row col))))
