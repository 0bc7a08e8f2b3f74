-- ===== src/Shell/Start.antt =====
-- The start and the end of the shell: slave_process, cleanup and shell_main_entry of
-- src/shell/shell.c, and shell_main of src/prom-shell.c.
pub mod Entry
pub mod Child
use prom.Prelude.{ℕ, ◌+◌, ◌-◌, ◌/◌, ◌%◌, Option, none, some, ◌++◌, ◌==◌, if◌then◌else◌}
use prom.Prelude.Int.{ℤ, pos, negsuc}
use prom.Prelude.Bytes.{Bytes, codes}
use prom.Machine.{ok, exited, pure, ◌>>=◌, ◌>>◌, and_then}
use prom.Tracer.Env.{Env}
use prom.Tracer.Syscalls.{is_minus_one}
use prom.Tracer.Loop.{tracee_init}
use prom.Shell.Desk.{
  Vterm, endwin, sigaction, setlocale, fork, setsid, set_ctty, open_slave, close, getfl, setfl,
  set_winsize, dup2, execlp, vterm_free, log_error, stop_self, Console, Q, minus_one, perform,
  request,
}
use prom.Shell.Terminal.{maxyx, drop_row, init_ncurses, init_vterm}
use prom.Shell.Input.{is_key}
use prom.Shell.Pty.{is_negative, new_master_pty}
use prom.Shell.Master.{trace_with, master_process}

-- SHELL
abbrev pub shell : Bytes
shell = codes "bash"

-- O_NONBLOCK or-ed to flags: bit 11
abbrev pub with_nonblock : ℤ → ℤ
with_nonblock (pos n) = if n / 2048 % 2 == 1 then pos n else pos (n + 2048)
with_nonblock (negsuc n) = if n / 2048 % 2 == 1 then negsuc (n - 2048) else negsuc n

module _ {T : Type 0} (v : Vterm T) (k : Console) (kernel : Env) (fuel : ℕ) where
  -- The call of libtracer is listed among the shell's own calls, too, to say when it is made.
  abbrev pub stop_for_tracer : Q T ℤ
  unfolding tracee_init
  stop_for_tracer = do perform stop_self; trace_with v k kernel fuel (tracee_init kernel)

  unfoldable pub slave_process : Bytes → Q T ℤ
  unfolding tracee_init
  slave_process name = do
    stop_for_tracer
    λ s. perform (set_winsize s.fd_slave s.rows s.cols) s
    λ s. perform (close s.fd_master) s
    λ s. perform (dup2 s.fd_slave 0) s
    λ s. perform (dup2 s.fd_slave 1) s
    λ s. perform (dup2 s.fd_slave 2) s
    λ s. perform (close s.fd_slave) s
    sid ← request k setsid
    if is_minus_one sid then pure minus_one else do
      tty ← request k set_ctty
      if is_minus_one tty then pure minus_one else do request k (execlp name); pure minus_one

  abbrev pub free_vterm : Option T → Q T (Unit {0})
  free_vterm none = pure tt
  free_vterm (some t) = perform vterm_free

  pub cleanup : Q T (Unit {0})
  cleanup s = and_then (free_vterm s.vterm s) λ _. perform endwin

  -- errord and errord_clean
  abbrev pub errord : {A : Type 0} → Bytes → Q T A
  errord message = do perform (log_error message); λ s. exited 1 s

  abbrev pub errord_clean : {A : Type 0} → Bytes → Q T A
  errord_clean message = do cleanup; errord message

  -- `errord_clean("<call>: %s.\n", strerror(errno))`
  abbrev pub give_up : {A : Type 0} → Bytes → Q T A
  give_up call s = errord_clean (call ++ codes ": " ++ k.strerror s.errno ++ codes ".\n") s

  -- The branch of the child.
  abbrev pub run_child : Q T ℤ
  run_child = do
    ret ← slave_process shell
    if is_negative ret then (λ s. errord (k.strerror s.errno ++ codes "\n") s) else pure (pos 0)

  -- The branch of the parent, in the order of its calls.
  abbrev pub ended : ℤ → Q T ℤ
  ended ret =
      if is_negative ret
      then errord_clean (codes "master process had a failure.\n")
      else (do cleanup; pure (pos 0))

  abbrev pub with_flags_set : ℕ → ℤ → Q T ℤ
  with_flags_set rounds flagged =
      if is_minus_one flagged
      then give_up (codes "fcntl(F_SETFL)")
      else (do ret ← master_process v k kernel fuel rounds; ended ret)

  abbrev pub with_flags : ℕ → ℤ → Q T ℤ
  with_flags rounds fdm_stat =
      if is_minus_one fdm_stat then give_up (codes "fcntl(F_GETFL)") else (do
        flagged ← λ s. request k (setfl s.fd_master (with_nonblock fdm_stat)) s
        with_flags_set rounds flagged)

  abbrev pub run_parent : ℕ → Q T ℤ
  run_parent rounds = do fdm_stat ← λ s. request k (getfl s.fd_master) s; with_flags rounds fdm_stat

  abbrev pub run_forked : ℕ → ℤ → Q T ℤ
  run_forked rounds pid =
      if is_minus_one pid
      then give_up (codes "fork()")
      else if is_key 0 pid
      then run_child
      else run_parent rounds

  -- shell_main_entry behind each of its calls, the last one first.
  abbrev pub forked : ℕ → ℤ → Q T ℤ
  forked rounds pid s = run_forked rounds pid (record s { pid_child = pid })

  abbrev pub with_slave : ℕ → ℤ → Q T ℤ
  with_slave rounds fd_slave s =
      (if is_minus_one fd_slave
          then give_up (codes "open()")
          else (do pid ← request k fork; forked rounds pid))
        (record s { fd_slave = fd_slave })

  abbrev pub with_master : ℕ → ℤ → Q T ℤ
  with_master rounds fd_master s =
      (if is_minus_one fd_master
          then give_up (codes "new_master_pty()")
          else (do fd_slave ← request k (open_slave fd_master); with_slave rounds fd_slave))
        (record s { fd_master = fd_master })

  -- The size of the screen without its last row, and a terminal of that size.
  abbrev pub start_vterm : Q T (Unit {0})
  start_vterm = do
    maxyx k
    drop_row
    λ s. ok tt (record s { vterm = some (init_vterm k v s.rows s.cols) })

  -- The result of init_ncurses is not looked at.
  abbrev pub with_handler : ℕ → ℤ → Q T ℤ
  with_handler rounds handled =
      if is_minus_one handled then errord (codes "could not set up signal handler.\n") else (do
        perform setlocale
        init_ncurses k
        start_vterm
        fd_master ← new_master_pty k
        with_master rounds fd_master)

  pub shell_main_entry : ℕ → Q T ℤ
  shell_main_entry rounds = do handled ← request k sigaction; with_handler rounds handled

  unfoldable pub shell_main : ℕ → Q T ℤ
  unfolding shell_main_entry
  shell_main rounds = shell_main_entry rounds
