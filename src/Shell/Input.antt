-- ===== src/Shell/Input.antt =====
-- The keyboard: handle_arrows and handle_input of src/shell/shell.c.
pub mod Keys
pub mod Drain
use prom.Prelude.{
  ℕ, zero, suc, ◌-◌, ◌%◌, ◌^◌, Bool, true, false, Option, none, some, List, [], ◌∷◌, ltb, ◌==◌,
  if◌then◌else◌, length,
}
use prom.Prelude.Int.{ℤ, pos, negsuc}
use prom.Prelude.Bytes.{Bytes}
use prom.Machine.{ok, faulted, stuck, pure, ◌>>=◌, ◌>>◌, and_then}
use prom.Tracer.Syscalls.{is_minus_one}
use prom.Shell.Desk.{
  Arrow, up, down, right, left, Vterm, write, Console, Q, minus_one, request, getch, with_vterm,
  on_vterm,
}
use prom.Shell.StatusBar.{minimum}

-- ncurses' KEY_RESIZE
abbrev pub key_resize : ℕ
key_resize = 0x19a

-- sizeof(buf)
abbrev pub buf_size : ℕ
buf_size = 8192

abbrev pub escape : ℕ
escape = 27

abbrev pub is_key : ℕ → ℤ → Bool
is_key n (pos m) = n == m
is_key n (negsuc m) = false

-- `(uint32_t)c`
abbrev pub to_u32 : ℤ → ℕ
to_u32 (pos n) = n % 2 ^ 32
to_u32 (negsuc n) = 2 ^ 32 - 1 - n % 2 ^ 32

-- The switch on the third character of an arrow's sequence.
abbrev pub arrow_of : ℤ → Option Arrow
arrow_of c =
    if is_key b'A' c
    then some up
    else if is_key b'B' c
    then some down
    else if is_key b'C' c
    then some right
    else if is_key b'D' c
    then some left
    else none

-- The first key that is not KEY_RESIZE; getch gives -1 once there is no more.
abbrev pub after_resizes : List ℤ → ℤ × List ℤ
after_resizes [] = (minus_one, [])
after_resizes (c ∷ cs) = if is_key key_resize c then after_resizes cs else (c, cs)

module _ {T : Type 0} (v : Vterm T) where
  abbrev pub send : ℤ → Q T (Unit {0})
  send c = on_vterm (v.keyboard_unichar (to_u32 c))

  -- The loop over `chars`.
  abbrev pub send_all : List ℤ → Q T (Unit {0})
  send_all [] = pure tt
  send_all (c ∷ cs) = do send c; send_all cs

  -- What the third character of a sequence does.
  abbrev pub on_arrow : ℤ → ℤ → Option Arrow → Q T (Unit {0})
  on_arrow second third (some a) = on_vterm (v.keyboard_key a)
  on_arrow second third none = send_all (pos escape ∷ second ∷ third ∷ [])

  unfoldable pub handle_arrows : Q T (Unit {0})
  handle_arrows = do
    second ← getch
    if is_key b'[' second
        then (do third ← getch; on_arrow second third (arrow_of third))
        else send_all (pos escape ∷ second ∷ [])

  -- `ch`, with the inner loop that reads on over KEY_RESIZE
  abbrev pub next_char : Q T ℤ
  next_char s = let (c, cs) = after_resizes s.keys in ok c (record s { keys = cs })

  abbrev pub take_key : ℤ → Q T (Unit {0})
  take_key ch = if is_key escape ch then handle_arrows else send ch

  -- A round of the first loop of handle_input, in front of the other rounds.
  abbrev pub after_char : Q T (Unit {0}) → ℤ → Q T (Unit {0})
  after_char rest ch = if is_minus_one ch then pure tt else (do take_key ch; rest)

  abbrev pub key_round : Q T (Unit {0}) → Q T (Unit {0})
  key_round rest =
      with_vterm
        λ t. if v.buffer_remaining t == 0 then pure tt else (do ch ← next_char; after_char rest ch)

  unfoldable pub read_keys : ℕ → Q T (Unit {0})
  read_keys zero = λ _. stuck
  read_keys (suc fuel) = key_round (read_keys fuel)

module _ {T : Type 0} (v : Vterm T) (k : Console) where
  -- One round of the second loop. vterm_output_read writes to `buf`, past its end if it has more
  -- than 8192 bytes to give. How much write took of them is not looked at.
  abbrev pub pass_on : Bytes → T → Q T (Unit {0})
  pass_on bytes t s =
      if ltb buf_size (length bytes)
      then faulted
      else and_then (request k (write s.fd_master bytes) (record s { vterm = some t })) λ _. pure tt

  -- A round of the second loop of handle_input, in front of the other rounds.
  abbrev pub drain_round : Q T (Unit {0}) → Q T (Unit {0})
  drain_round rest = with_vterm λ t. if v.buffer_current t == 0 then pure tt else (do
    let (bytes, t') = v.output_read (minimum (v.buffer_current t) buf_size) t
    pass_on bytes t'
    rest)

  unfoldable pub drain : ℕ → Q T (Unit {0})
  drain zero = λ _. stuck
  drain (suc fuel) = drain_round (drain fuel)

  unfoldable pub handle_input : ℕ → Q T ℤ
  unfolding read_keys drain
  handle_input fuel = do read_keys v fuel; drain fuel; pure (pos 0)
