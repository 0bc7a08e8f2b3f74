-- ===== src/Tests/Console.antt =====
-- The shell on a small terminal, which is the queue of its output: src/shell.
use prom.Prelude.{
  ℕ, zero, suc, ap, ◌^◌, ◌≡◌, refl, false, true, none, some, [], ◌∷◌, ◌++◌, take, drop, length, ltb,
  if◌then◌else◌, arith,
}
use prom.Prelude.Int.{pos, negsuc}
use prom.Prelude.Bytes.{Bytes}
use prom.Machine.{ok, faulted}
use prom.Tracer.Env.{Env, GotRegs, Wait, minus_one, asked, raise}
use prom.Shell.Desk.{
  up, ScreenCell, Rect, Vterm, write, move, setcchar, add_wch, Reads, Polled, Console, Desk,
  log_error, execlp,
}
use prom.Shell.Terminal.{damage_callback}
use prom.Shell.Terminal.Damage.{damage_callback_lem}
use prom.Shell.Input.{buf_size, drain, handle_input}
use prom.Shell.Input.Keys.{arrow, char, letter_of}
use prom.Shell.Input.Drain.{IsQueue, handle_input_lem, drain_overflow}
use prom.Shell.StatusBar.{minimum}
use prom.Shell.Master.{follow_window}
use prom.Shell.Start.{shell, run_child}
use prom.Shell.Start.Child.{Table, Exits, IsWired, acts_of, after, run_child-IsWired}
use prom.Tracer.Loop.{sigstop}
use prom.Shell.Master.Window.{Sized, follow_window_lem}
use prom.Machine.Returns.{Returns}

abbrev cell : ScreenCell
cell = record {
  chars = b'x' ∷ [];
  blink = false;
  bold = true;
  italic = false;
  reverse = false;
  underline = false;
}

-- A terminal that sends what it is told.
abbrev echo : Vterm Bytes
echo = record {
  make = λ _ _. [];
  set_utf8 = λ t. t;
  enable_altscreen = λ t. t;
  reset = λ t. t;
  set_callbacks = λ t. t;
  get_cell = λ _ _ _. cell;
  keyboard_key = λ a t. t ++ (27 ∷ b'[' ∷ letter_of a ∷ []);
  keyboard_unichar = λ c t. t ++ (c ∷ []);
  buffer_remaining = λ _. 1;
  buffer_current = length;
  output_read = λ n t. (take n t, drop n t);
  input_write = λ _ t. ([], t);
  flush_damage = λ t. ([], t);
  set_size = λ _ _ t. ([], t);
}

abbrev echo_queue : IsQueue echo
echo_queue = record {
  pending = λ t. t;
  current = λ _. refl;
  bytes = λ _ _. refl;
  rest = λ _ _. refl;
}

-- A terminal that has nothing to send.
abbrev mute : Vterm Bytes
mute = record echo { buffer_current = λ _. 0; output_read = λ _ t. ([], t) }

abbrev console : Console
console = record {
  answer = λ _ _. pos 3;
  errno_of = λ _ _. 5;
  strerror = λ _. [];
  getyx = λ _. (1, 2);
  getmaxy = λ _. pos 24;
  getmaxx = λ _. pos 80;
  reads = λ _. Reads.got [];
  polls = λ _. Polled.ready true false false;
  grants = λ _ _. true;
  winch = λ _. false;
  disk = λ _. record { content = λ _. []; opens = λ _. true; streams = 0 };
}

abbrev kernel : Env
kernel = record {
  wait = λ _. Wait.idle;
  grant = λ _ _. true;
  get_regs = λ _ _. GotRegs.errno 3;
  peek = λ _ _ _. none;
  grant_memory = λ _ _. true;
}

abbrev desk : Desk Bytes
desk = record {
  vterm = some [];
  rows = 24;
  cols = 80;
  fd_master = pos 3;
  fd_slave = pos 4;
  pid_child = pos 7;
  got_sigwinch = false;
  keys = [];
  errno = 0;
  tracer = record { last_syscall = minus_one; trace = [] };
  trace = [];
}

abbrev two_cells : Rect
two_cells = record { start_row = 4; end_row = 5; start_col = 0; end_col = 2 }

damage_callback_example :
    damage_callback console echo [] two_cells desk
    ≡ ok (pos 1) (record desk {
      trace =
          move 1 2
          ∷ add_wch (b'x' ∷ []) (2 ^ 21)
          ∷ move 4 1
          ∷ setcchar (b'x' ∷ []) (2 ^ 21)
          ∷ add_wch (b'x' ∷ []) (2 ^ 21)
          ∷ move 4 0
          ∷ setcchar (b'x' ∷ []) (2 ^ 21)
          ∷ [];
    })
damage_callback_example = damage_callback_lem echo [] console (λ _ _. refl) two_cells desk

abbrev rest : Bytes
rest = []

handle_input_example :
    (handle_input echo console 4
        (record desk { keys = pos b'l' ∷ pos 27 ∷ pos b'[' ∷ pos b'A' ∷ [] })
      ≡ ok (pos 0) (record desk { trace = write (pos 3) (b'l' ∷ 27 ∷ b'[' ∷ b'A' ∷ []) ∷ [] }))
    × (rest ≡ [])
unfolding minimum
handle_input_example =
    handle_input_lem echo console echo_queue (λ _. omega arith) (char b'l' ∷ arrow up ∷ []) 2 desk
      [] ((omega arith, omega arith, omega arith), (tt, tt)) (omega arith) (omega arith)
      (omega arith)

-- The size of the screen of `console` when the signal comes.
abbrev resized : Desk Bytes
resized = record desk { rows = 10; got_sigwinch = true }

follow_window_example :
    Returns
      (λ _ u. Sized console echo resized [] 23 80 u × (u.got_sigwinch ≡ false))
      (follow_window echo console kernel 3 resized)
follow_window_example =
    follow_window_lem console echo resized [] 23 80 refl (λ _. refl) (λ _. refl) (omega arith)
      (omega arith) kernel 3 refl

-- A terminal with one byte more than the buffer of handle_input has.
abbrev full : ℕ → Bytes
full zero = []
full (suc n) = 0 ∷ full n

length-full : (n : ℕ) → length (full n) ≡ n
length-full zero = refl
length-full (suc n) = ap suc (length-full n)

drain_overflow_example :
    drain echo console 1 (record desk { vterm = some (full (suc buf_size)) }) ≡ faulted
drain_overflow_example =
    drain_overflow echo console echo_queue 0 desk (full (suc buf_size))
      (omega (arith, length-full (suc buf_size)))

-- The descriptors before the fork: 3 and 4 are the pseudo terminal, and 5 is open too.
abbrev descriptors : Table ℕ
descriptors (pos n) = if ltb n 6 then some n else none
descriptors (negsuc n) = none

run_child_example :
    Exits 1
      (λ u.
        (message : Bytes) × (u.trace ≡ log_error message ∷ execlp shell ∷ acts_of 3 4 24 80 ++ [])
        × IsWired 3 4 descriptors (after (acts_of 3 4 24 80) descriptors)
        × (u.tracer.trace ≡ asked (raise sigstop) ∷ []))
      (run_child echo console kernel 3 desk)
run_child_example =
    run_child-IsWired echo console kernel 3 desk 3 4 descriptors refl refl (omega arith)
      (omega arith) (ground arith) (λ _. refl) (λ _. refl)
