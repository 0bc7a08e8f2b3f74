-- ===== src/Shell/Desk.antt =====
-- The state of the shell and what it is built on: struct global_state of src/shell/terminal.h, the
-- terminal emulator (libvterm), and the calls of ncurses and of the operating system.
use prom.Prelude.{ℕ, Bool, Option, none, some, List, [], ◌∷◌, if◌then◌else◌}
use prom.Prelude.Int.{ℤ, negsuc}
use prom.Prelude.Bytes.{Bytes}
use prom.Machine.{Cmd, ok, faulted}
use prom.Tracer.Env.{Event, Tracer}
use prom.Logger.{Disk}
use prom.Tracer.Syscalls.{is_minus_one}

pub data Arrow : Type 0 where
  up down right left : Arrow

-- VTermScreenCell: its characters up to the first zero, and the attributes that are shown.
pub record ScreenCell : Type 0 where
  pub chars : List ℕ
  pub blink : Bool
  pub bold : Bool
  pub italic : Bool
  pub reverse : Bool
  pub underline : Bool

pub record Rect : Type 0 where
  pub start_row : ℕ
  pub end_row : ℕ
  pub start_col : ℕ
  pub end_col : ℕ

-- A call of the screen's callbacks, with the emulator as it then is.
pub data Called (T : Type 0) : Type 0 where
  damaged : T → Rect → Called T
  moved_to : T → ℕ → ℕ → Called T

-- The functions of libvterm that the program calls, on a terminal of type `T`. Those that update
-- the screen hand out the calls of its callbacks that they make, in order.
pub record Vterm (T : Type 0) : Type 0 where
  pub make : ℕ → ℕ → T
  pub set_utf8 : T → T
  pub enable_altscreen : T → T
  pub reset : T → T
  pub set_callbacks : T → T
  pub get_cell : T → ℕ → ℕ → ScreenCell
  pub keyboard_key : Arrow → T → T
  pub keyboard_unichar : ℕ → T → T
  pub buffer_remaining : T → ℕ
  pub buffer_current : T → ℕ
  pub output_read : ℕ → T → Bytes × T
  pub input_write : Bytes → T → List (Called T) × T
  pub flush_damage : T → List (Called T) × T
  pub set_size : ℕ → ℕ → T → List (Called T) × T

-- The calls of ncurses and of the system, and what is written.
pub data Act : Type 0 where
  initscr raw noecho nodelay keypad nonl meta refresh endwin : Act
  move : ℕ → ℕ → Act
  setcchar : List ℕ → ℕ → Act
  add_wch : List ℕ → ℕ → Act
  init_pair attron attroff : Act
  addstr : Bytes → Act
  sigaction setlocale fork setsid set_ctty : Act
  openpt : Act
  grantpt unlockpt open_slave close getfl : ℤ → Act
  setfl : ℤ → ℤ → Act
  set_winsize : ℤ → ℕ → ℕ → Act
  dup2 : ℤ → ℕ → Act
  execlp : Bytes → Act
  write : ℤ → Bytes → Act
  read : ℤ → Act
  poll : Act
  malloc : ℕ → Act
  free : Act
  vterm_free : Act
  log_error : Bytes → Act
  -- the call of tracee_init, which stops the process for the tracer
  stop_self : Act

-- The answer of read: bytes (none of them is the end of the file), or -1 with errno.
pub data Reads : Type 0 where
  got : Bytes → Reads
  failed : ℕ → Reads

-- The answer of poll: -1 with errno, 0, or which of POLLIN and POLLHUP it reports.
pub data Polled : Type 0 where
  interrupted : ℕ → Polled
  idle : Polled
  ready : Bool → Bool → Bool → Polled

-- The values that the calls return, each of which may depend on all that happened before.
pub record Console : Type 0 where
  pub answer : List Act → Act → ℤ
  pub errno_of : List Act → Act → ℕ
  pub strerror : ℕ → Bytes
  -- getyx, and getmaxy and getmaxx, which are -1 before initscr
  pub getyx : List Act → ℕ × ℕ
  pub getmaxy : List Act → ℤ
  pub getmaxx : List Act → ℤ
  pub reads : List Act → Reads
  pub polls : List Act → Polled
  pub grants : List Act → ℕ → Bool
  -- whether SIGWINCH has come since the last look
  pub winch : List Act → Bool
  -- the files that the tracer's callbacks find, when the tracer has done these
  pub disk : List Event → Disk

-- struct global_state; `keys` is what getch has to give, and then -1. `tracer` and `trace` are
-- the state of the tracer and what has been called, the newest first.
pub record Desk (T : Type 0) : Type 0 where
  pub vterm : Option T
  pub rows : ℕ
  pub cols : ℕ
  pub fd_master : ℤ
  pub fd_slave : ℤ
  pub pid_child : ℤ
  pub got_sigwinch : Bool
  pub keys : List ℤ
  pub errno : ℕ
  pub tracer : Tracer
  pub trace : List Act

abbrev pub minus_one : ℤ
minus_one = negsuc 0

-- getch of a window with nodelay
abbrev pub next_key : List ℤ → ℤ × List ℤ
next_key [] = (minus_one, [])
next_key (c ∷ cs) = (c, cs)

abbrev pub Q : Type 0 → Type 0 → Type 0
Q T A = Cmd (Desk T) A

module _ {T : Type 0} where
  abbrev pub note : Act → Desk T → Desk T
  note a s = record s { trace = a ∷ s.trace }

  -- A call whose result is not looked at.
  abbrev pub perform : Act → Q T (Unit {0})
  perform a s = ok tt (note a s)

  -- A call with its result; a failure sets errno.
  abbrev pub request : Console → Act → Q T ℤ
  request k a s = ok (k.answer s.trace a) (record s {
    trace = a ∷ s.trace;
    errno = if is_minus_one (k.answer s.trace a) then k.errno_of s.trace a else s.errno;
  })

  abbrev pub getch : Q T ℤ
  getch s = let (c, cs) = next_key s.keys in ok c (record s { keys = cs })

  -- A call of libvterm through `globe.vterm`, which may be NULL.
  abbrev pub through : {A : Type 0} → Option T → (T → Q T A) → Q T A
  through none f = λ _. faulted
  through (some t) f = f t

  abbrev pub with_vterm : {A : Type 0} → (T → Q T A) → Q T A
  with_vterm f s = through s.vterm f s

  abbrev pub put_vterm : T → Q T (Unit {0})
  put_vterm t s = ok tt (record s { vterm = some t })

  abbrev pub on_vterm : (T → T) → Q T (Unit {0})
  on_vterm f = with_vterm λ t. put_vterm (f t)
