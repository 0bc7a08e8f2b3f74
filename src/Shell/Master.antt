-- ===== src/Shell/Master.antt =====
-- The event loop: handle_output, sigwinch_handler, draw_status_bar and master_process of
-- src/shell/shell.c.
pub mod Kept
pub mod Rounds
pub mod Typing
pub mod Loop
pub mod Window
pub mod Session
use prom.Prelude.{ℕ, zero, suc, ◌+◌, ◌-◌, Bool, true, false, [], ◌∷◌, ◌==◌, if◌then◌else◌}
use prom.Prelude.Int.{ℤ, pos, negsuc}
use prom.Prelude.Bytes.{Bytes}
use prom.Machine.{Cmd, ok, faulted, stuck, pure, ◌>>=◌, ◌>>◌, and_then, zoom}
use prom.Tracer.Env.{Env, Tracer}
use prom.Tracer.ReadString.{c_string}
use prom.Tracer.Loop.{tracer_init, tracer_loop}
use prom.Shell.Desk.{
  Vterm, refresh, move, init_pair, attron, attroff, addstr, close, read, poll, malloc, free, Reads,
  got, failed, Polled, interrupted, idle, ready, Console, Q, minus_one, note, perform,
}
use prom.Shell.Callbacks.{tracer_cbs}
use prom.Shell.StatusBar.{set_status_bar}
use prom.Shell.Terminal.{window_resize, screen_call}
use prom.Shell.Input.{handle_input}
use prom.Shell.Pty.{is_negative}

abbrev pub eintr : ℕ
eintr = 4

abbrev pub eagain : ℕ
eagain = 11

-- `getmaxy(stdscr) - 1` of a screen that is there
abbrev pub row_of : ℤ → ℕ
row_of (pos n) = n - 1
row_of (negsuc n) = 0

-- A process number as the tracer takes it.
abbrev pub pid_of : ℤ → ℕ
pid_of (pos n) = n
pid_of (negsuc n) = 0

-- What the loop of master_process does after a round.
pub data Next : Type 0 where
  again : Next
  done : ℤ → Next

module _ {T : Type 0} (v : Vterm T) (k : Console) (kernel : Env) (fuel : ℕ) where
  abbrev pub at_end : Q T ℤ
  at_end s = if s.errno == eagain then ok (pos 0) s else ok minus_one s

  abbrev pub on_read : Reads → Q T ℤ
  on_read (failed e) s = at_end (record s { errno = e })
  on_read (got []) s = at_end s
  on_read (got (b ∷ bs)) s = and_then (screen_call k v (v.input_write (b ∷ bs)) s) λ _. pure (pos 0)

  unfoldable pub handle_output : Q T ℤ
  handle_output s = on_read (k.reads s.trace) (note (read s.fd_master) s)

  abbrev pub trace_with : {A : Type 0} → Cmd Tracer A → Q T A
  trace_with = zoom (λ s. s.tracer) (λ s t. record s { tracer = t })

  unfoldable pub sigwinch_handler : Q T (Unit {0})
  sigwinch_handler s = ok tt (record s { got_sigwinch = true })

  -- The signal, if one has come: its handler may run wherever the loop stands.
  abbrev pub take_signal : Q T (Unit {0})
  take_signal s = if k.winch s.trace then sigwinch_handler s else ok tt s

  abbrev pub follow_window : Q T (Unit {0})
  follow_window s =
      if s.got_sigwinch
      then and_then (window_resize k v s) (λ _ t. ok tt (record t { got_sigwinch = false }))
      else ok tt s

  unfoldable pub draw_status_bar : Bytes → Q T (Unit {0})
  draw_status_bar status s =
      let (y, x) = k.getyx s.trace in
      let bottom = k.getmaxy s.trace in
      (do
        perform (move (row_of bottom) 0)
        perform init_pair
        perform attron
        perform (addstr status)
        perform attroff
        perform (move y x))
        s

  -- The buffer of the status bar is not checked for NULL before it is cleared.
  abbrev pub show_width : ℤ → Q T (Unit {0})
  show_width (negsuc n) s = ok tt s
  show_width (pos n) s =
      if k.grants s.trace (n + 1)
      then (do
        perform (malloc (n + 1))
        draw_status_bar (c_string (set_status_bar (n + 1)))
        perform free)
          s
      else faulted

  abbrev pub show_status : Q T (Unit {0})
  show_status s = show_width (k.getmaxx s.trace) s

  -- What a round does with what poll reports, up to refresh.
  abbrev pub serve : Bool → Bool → Bool → Q T Next
  serve master_in master_hup stdin_in = do
    out ← if master_in then handle_output else pure (pos 0)
    if is_negative out then pure (done (pos 0)) else if master_hup then pure (done (pos 0)) else do
      inp ← if stdin_in then handle_input v k fuel else pure (pos 0)
      if is_negative inp then pure (done (pos 0)) else do perform refresh; pure again

  abbrev pub on_poll : Polled → Q T Next
  on_poll (interrupted e) s =
      if e == eintr
      then ok again (record s { errno = e })
      else ok (done minus_one) (record s { errno = e })
  on_poll idle s = ok again s
  on_poll (ready master_in master_hup stdin_in) s = serve master_in master_hup stdin_in s

  unfoldable pub master_round : Q T Next
  unfolding tracer_loop
  master_round = do
    trace_with (tracer_loop fuel kernel (tracer_cbs k.disk))
    take_signal
    follow_window
    show_status
    λ s. on_poll (k.polls s.trace) (note poll s)

  abbrev pub go_on : Q T ℤ → Next → Q T ℤ
  go_on rest again = rest
  go_on rest (done r) = pure r

  -- The endless loop, by the rounds that it is given.
  pub master_loop : ℕ → Q T ℤ
  master_loop zero = λ _. stuck
  master_loop (suc rounds) = do nx ← master_round; go_on (master_loop rounds) nx

  pub master_process : ℕ → Q T ℤ
  unfolding master_loop tracer_init
  master_process rounds = do
    λ s. perform (close s.fd_slave) s
    λ s. trace_with (tracer_init kernel (pid_of s.pid_child)) s
    master_loop rounds
