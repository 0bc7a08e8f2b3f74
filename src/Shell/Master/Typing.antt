-- ===== src/Shell/Master/Typing.antt =====
-- What handle_input of src/shell/shell.c leaves, for a property that its steps keep.
use prom.Prelude.{ℕ, zero, suc, ◌≤◌, Option, none, some, List, [], ◌∷◌, length, ◌==◌, le→ltb}
use prom.Prelude.Int.{ℤ, pos}
use prom.Tracer.Syscalls.{is_minus_one}
use prom.Shell.Desk.{Vterm, Console, Desk, Q, Arrow, next_key, on_vterm}
use prom.Shell.StatusBar.{minimum}
use prom.Shell.Input.{
  buf_size, handle_arrows, send, send_all, on_arrow, after_char, read_keys, drain, handle_input,
  after_resizes, is_key, escape,
}
use prom.Shell.Master.Kept.{Tells, key, char, IsKept}
use prom.Shell.Master.Rounds.{
  Within, returned, unfinished, Within-bind, Within-if, Within-with_vterm,
}

module _ {T : Type 0} {I : Desk T → Type 0} (v : Vterm T) (k : Console) (kept : IsKept v k I) where
  -- A key that the terminal is told of.
  told : {f : T → T} (s : Desk T) → ((t : T) → Tells v t (f t)) → I s → Within I (on_vterm f s)
  told s tells h =
      Within-with_vterm _ s (kept.there s h) λ t at. returned (kept.tells s t _ at (tells t) h)

  send_all-Within : (cs : List ℤ) (s : Desk T) → I s → Within I (send_all v cs s)
  send_all-Within [] s h = returned h
  send_all-Within (c ∷ cs) s h =
      Within-bind (told s (λ t. char) h) λ _ u h'. send_all-Within cs u h'

  on_arrow-Within :
      (second third : ℤ) (a : Option Arrow) (s : Desk T)
      → I s
      → Within I (on_arrow v second third a s)
  on_arrow-Within second third (some a) s h = told s (λ t. key) h
  on_arrow-Within second third none s h = send_all-Within (pos escape ∷ second ∷ third ∷ []) s h

  handle_arrows-Within : (s : Desk T) → I s → Within I (handle_arrows v s)
  unfolding handle_arrows
  handle_arrows-Within s h =
      let (second, cs) = next_key s.keys in
      Within-if (is_key b'[' second) _ _ _
        (on_arrow-Within _ _ _ _ (kept.types (next_key cs).1 s h))
        (send_all-Within (pos escape ∷ second ∷ []) _ (kept.types cs s h))

  after_char-Within :
      (rest : Q T (Unit {0})) (ch : ℤ) (s : Desk T)
      → I s
      → ((u : Desk T) → I u → Within I (rest u))
      → Within I (after_char v rest ch s)
  after_char-Within rest ch s h go = Within-if (is_minus_one ch) _ _ s (returned h) (
      Within-bind
        (Within-if (is_key escape ch) (handle_arrows v) (send v ch) s (handle_arrows-Within s h)
          (told s (λ t. char) h))
        λ _ u h'. go u h')

  read_keys-Within : (fuel : ℕ) (s : Desk T) → I s → Within I (read_keys v fuel s)
  unfolding read_keys
  read_keys-Within zero s h = unfinished
  read_keys-Within (suc fuel) s h = Within-with_vterm _ s (kept.there s h) λ t at.
      Within-if (v.buffer_remaining t == 0) _ _ s (returned h) (
        after_char-Within (read_keys v fuel) (after_resizes s.keys).0 _
          (kept.types (after_resizes s.keys).1 s h) (read_keys-Within fuel))

  module _ (short : (n : ℕ) (t : T) → length (v.output_read n t).0 ≤ buf_size) where
    drain-Within : (fuel : ℕ) (s : Desk T) → I s → Within I (drain v k fuel s)
    unfolding drain
    drain-Within zero s h = unfinished
    drain-Within (suc fuel) s h = Within-with_vterm _ s (kept.there s h) λ t at.
        Within-if (v.buffer_current t == 0) _ _ s (returned h) (
          rw
            (le→ltb buf_size (length (v.output_read (minimum (v.buffer_current t) buf_size) t).0)
              (short _ t))
            (drain-Within fuel _ (kept.says _ s t _ at h)))

    pub handle_input-Within : (fuel : ℕ) (s : Desk T) → I s → Within I (handle_input v k fuel s)
    unfolding handle_input
    handle_input-Within fuel s h =
        Within-bind (read_keys-Within fuel s h)
          λ _ u h1. Within-bind (drain-Within fuel u h1) λ _ w h2. returned h2
