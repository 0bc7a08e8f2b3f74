-- ===== src/Tests/Session.antt =====
-- A round of the shell on a small terminal that answers each byte: src/shell/shell.c.
use prom.Prelude.{
  ◌≡◌, refl, sym, ap, ◌∙◌, false, true, none, some, [], ◌∷◌, ◌++◌, take, drop, length,
}
use mathlib.Core.List.{append_assoc}
use prom.Prelude.Int.{ℤ, pos}
use prom.Prelude.Bytes.{Bytes, codes}
use prom.Tracer.Env.{Env, GotRegs, Wait, minus_one, waited}
use prom.Shell.Desk.{
  Act, Vterm, ScreenCell, Reads, Polled, Console, Desk, refresh, write, read, poll, free, malloc,
  move, attroff, attron, addstr, init_pair,
}
use prom.Shell.Master.Kept.{Tells, key, char, flush, size}
use prom.Shell.Master.Session.{IsChannel}

-- What it has heard, what it has said, and what of that is pending.
abbrev Log : Type 0
Log = Bytes × Bytes × Bytes

-- A terminal that says whatever it hears or is typed.
abbrev say : Bytes → Log → Log
say bs (h, s, p) = (h, s ++ bs, p ++ bs)

abbrev cell : ScreenCell
cell = record {
  chars = [];
  blink = false;
  bold = false;
  italic = false;
  reverse = false;
  underline = false;
}

abbrev answering : Vterm Log
answering = record {
  make = λ _ _. ([], [], []);
  set_utf8 = λ t. t;
  enable_altscreen = λ t. t;
  reset = λ t. t;
  set_callbacks = λ t. t;
  get_cell = λ _ _ _. cell;
  keyboard_key = λ _ t. say (27 ∷ []) t;
  keyboard_unichar = λ c t. say (c ∷ []) t;
  buffer_remaining = λ _. 1;
  buffer_current = λ t. length (t.2);
  output_read = λ n t. (take 1 (t.2), (t.0, t.1, drop 1 (t.2)));
  input_write = λ bs t. ([], say bs (t.0 ++ bs, t.1, t.2));
  flush_damage = λ t. ([], t);
  set_size = λ _ _ t. ([], t);
}

take-drop : (p : Bytes) → take 1 p ++ drop 1 p ≡ p
take-drop [] = refl
take-drop (b ∷ bs) = refl

say-balanced : (bs w : Bytes) (s p : Bytes) → s ≡ w ++ p → s ++ bs ≡ w ++ (p ++ bs)
say-balanced bs w s p e = ap (λ x. x ++ bs) e ∙ append_assoc w p bs

abbrev answering_channel : IsChannel answering
answering_channel = record {
  heard = λ t. t.0;
  said = λ t. t.1;
  pending = λ t. t.2;
  heard_input = λ bs t. refl;
  heard_told = told;
  heard_read = λ n t. refl;
  said_input = λ bs w t e. say-balanced bs w t.1 t.2 e;
  said_told = said;
  said_read = λ n w t e. e ∙ ap (λ x. w ++ x) (sym (take-drop t.2)) ∙ sym (append_assoc w _ _);
}
  where
    told : (t t' : Log) → Tells answering t t' → t'.0 ≡ t.0
    told t t' key = refl
    told t t' char = refl
    told t t' flush = refl
    told t t' size = refl

    said : (w : Bytes) (t t' : Log) → Tells answering t t' → t.1 ≡ w ++ t.2 → t'.1 ≡ w ++ t'.2
    said w t t' key e = say-balanced _ w _ _ e
    said w t t' char e = say-balanced _ w _ _ e
    said w t t' flush e = e
    said w t t' size e = e

-- A descriptor takes all that it is given.
abbrev reply : Act → ℤ
reply (write fd bytes) = pos (length bytes)
reply a = pos 3

abbrev console : Console
console = record {
  answer = λ _ a. reply a;
  errno_of = λ _ _. 5;
  strerror = λ _. [];
  getyx = λ _. (1, 2);
  getmaxy = λ _. pos 24;
  getmaxx = λ _. pos 3;
  reads = λ _. Reads.got (b'h' ∷ b'i' ∷ []);
  polls = λ _. Polled.ready true false true;
  grants = λ _ _. true;
  winch = λ _. false;
  disk = λ _. record { content = λ _. []; opens = λ _. true; streams = 0 };
}

abbrev kernel : Env
kernel = record {
  wait = λ _. Wait.idle;
  grant = λ _ _. true;
  get_regs = λ _ _. GotRegs.errno 3;
  peek = λ _ _ _. none;
  grant_memory = λ _ _. true;
}

abbrev desk : Desk Log
desk = record {
  vterm = some ([], [], []);
  rows = 24;
  cols = 80;
  fd_master = pos 3;
  fd_slave = pos 4;
  pid_child = pos 7;
  got_sigwinch = false;
  keys = pos b'l' ∷ [];
  errno = 0;
  tracer = record { last_syscall = minus_one; trace = [] };
  trace = [];
}

-- The status bar is drawn, the two bytes go to the terminal, and its three go to the master.
abbrev after_round : Desk Log
after_round = record desk {
  vterm = some (b'h' ∷ b'i' ∷ [], b'h' ∷ b'i' ∷ b'l' ∷ [], []);
  keys = [];
  tracer = record { last_syscall = minus_one; trace = waited ∷ [] };
  trace =
      refresh
      ∷ write (pos 3) (b'l' ∷ [])
      ∷ write (pos 3) (b'i' ∷ [])
      ∷ write (pos 3) (b'h' ∷ [])
      ∷ read (pos 3)
      ∷ poll
      ∷ free
      ∷ move 1 2
      ∷ attroff
      ∷ addstr (codes "[pr")
      ∷ attron
      ∷ init_pair
      ∷ move 23 0
      ∷ malloc 4
      ∷ [];
}
