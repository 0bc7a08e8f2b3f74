-- ===== src/Shell/Input/Drain.antt =====
-- What the terminal's output becomes: src/shell/shell.c, handle_input.
use prom.Prelude.{
  ℕ, suc, ◌≤◌, ◌<◌, ◌≡◌, ◌≢◌, if◌then◌else◌, refl, some, List, [], ◌∷◌, length, take, drop,
  take_of_length_le, drop_of_length_le, ◌∙◌, ==_false, arith, le→ltb, lt→ltb,
}
use prom.Prelude.Int.{pos}
use prom.Prelude.Bytes.{Bytes}
use prom.Machine.{ok, faulted}
use prom.Shell.Desk.{Vterm, write, Console, Desk}
use prom.Tracer.Syscalls.{is_minus_one}
use prom.Shell.StatusBar.{minimum}
use prom.Shell.StatusBar.Shape.{minimum_max}
use prom.Shell.Input.{buf_size, drain, handle_input}
use prom.Shell.Input.Keys.{Press, AllPlain, all_typed, press_all, read_keys-typed}

-- What the documentation of libvterm says of its output: it is a queue of bytes, of which
-- vterm_output_read takes as many as it is asked for.
pub record IsQueue {T : Type 0} (v : Vterm T) : Type 0 where
  pub pending : T → Bytes
  pub current : (t : T) → v.buffer_current t ≡ length (pending t)
  pub bytes : (n : ℕ) (t : T) → (v.output_read n t).0 ≡ take n (pending t)
  pub rest : (n : ℕ) (t : T) → pending (v.output_read n t).1 ≡ drop n (pending t)

module _ {T : Type 0} (v : Vterm T) (k : Console) (q : IsQueue v) where
  open q use {pending}

  -- The bytes that a round hands over: all that are pending.
  all_read :
      (t : T)
      → (v.output_read (minimum (v.buffer_current t) buf_size) t).0 ≡ pending t
        × (pending (v.output_read (minimum (v.buffer_current t) buf_size) t).1 ≡ [])
  all_read t =
      let fits : length (pending t) ≤ minimum (v.buffer_current t) buf_size =
        omega (arith, q.current t, (minimum_max (v.buffer_current t) buf_size).0) in
      (
        q.bytes _ t ∙ take_of_length_le _ (pending t) fits,
        q.rest _ t ∙ drop_of_length_le _ (pending t) fits,
      )

  -- errno behind the write of some bytes to the master.
  abbrev pub errno_behind : Bytes → Desk T → ℕ
  errno_behind bytes s =
      if is_minus_one (k.answer s.trace (write s.fd_master bytes))
      then k.errno_of s.trace (write s.fd_master bytes)
      else s.errno

  -- The terminal after its output has been read.
  abbrev pub read_out : T → T
  read_out t = (v.output_read (minimum (v.buffer_current t) buf_size) t).1

  drain_once :
      (fuel : ℕ) (s : Desk T) (t : T)
      → 0 < length (pending t)
      → length (pending t) ≤ buf_size
      → drain v k (suc (suc fuel)) (record s { vterm = some t })
        ≡ ok tt (record s {
          vterm = some (read_out t);
          trace = write s.fd_master (pending t) ∷ s.trace;
          errno = errno_behind (pending t) s;
        })
  unfolding drain
  drain_once fuel s t some' fits =
      rw
        (
          ==_false (v.buffer_current t) 0 (omega (arith, q.current t)),
          (all_read t).0,
          le→ltb buf_size (length (pending t)) fits,
        )
        (rw (q.current (read_out t), (all_read t).1) refl)

  -- For a terminal whose output is a queue of bytes: if keys of presses of arrows and of characters
  -- other than the escape and KEY_RESIZE are there to be read and the terminal's buffer has room,
  -- handle_input sends the terminal these presses in order; if the terminal then has 1 to 8192
  -- bytes of output, they are written to the master by one call of write, none of them is left in
  -- the terminal, errno is set if that fails, and the result is 0 whatever it takes of them. The
  -- fuel is a round for each press and two more.
  pub handle_input_lem :
      (room : (t : T) → v.buffer_remaining t ≢ 0) (ps : List Press) (fuel : ℕ) (s : Desk T) (t : T)
      → AllPlain ps
      → length ps ≤ fuel
      → 0 < length (pending (press_all v ps t))
      → length (pending (press_all v ps t)) ≤ buf_size
      → (handle_input v k (suc (suc fuel)) (record s { vterm = some t; keys = all_typed ps })
          ≡ ok (pos 0) (record s {
            vterm = some (read_out (press_all v ps t));
            keys = [];
            trace = write s.fd_master (pending (press_all v ps t)) ∷ s.trace;
            errno = errno_behind (pending (press_all v ps t)) s;
          }))
        × (pending (read_out (press_all v ps t)) ≡ [])
  unfolding handle_input
  handle_input_lem room ps fuel s t plain enough some' fits = (
    simp (
      read_keys-typed v room ps (suc (suc fuel)) s t plain (omega arith),
      drain_once fuel (record s { keys = [] }) (press_all v ps t) some' fits,
    ),
    (all_read (press_all v ps t)).1,
  )

  -- For a terminal whose output is a queue of bytes: with more than 8192 bytes of output it is
  -- asked for all of them, and they are written past the end of the buffer.
  pub drain_overflow :
      (fuel : ℕ) (s : Desk T) (t : T)
      → buf_size < length (pending t)
      → drain v k (suc fuel) (record s { vterm = some t }) ≡ faulted
  unfolding drain
  drain_overflow fuel s t over = rw (
    ==_false (v.buffer_current t) 0 (omega (arith, q.current t)),
    (all_read t).0,
    lt→ltb buf_size (length (pending t)) over,
  )
