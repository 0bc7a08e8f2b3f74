-- ===== src/Shell/Master/Loop.antt =====
-- The event loop as a whole: src/shell/shell.c, handle_output and master_process.
use prom.Prelude.{
  ℕ, zero, suc, ◌+◌, ◌*◌, ◌^◌, ◌≤◌, ◌<◌, ◌≡◌, refl, Bool, true, false, inl, inr, List, [], ◌∷◌,
  length, ◌==◌,
}
use prom.Prelude.Int.{ℤ, pos, negsuc}
use prom.Machine.{ok}
use prom.Tracer.Env.{Env}
use prom.Tracer.ReadString.{c_string}
use prom.Tracer.Loop.{tracer_init, tracer_loop}
use prom.Tracer.Loop.Safe.{tracer_init-IsSafe, tracer_loop-IsSafe}
use prom.Shell.Desk.{
  Vterm, Act, Reads, got, Polled, interrupted, idle, ready, Console, Desk, Q, note, poll, close,
  read, move, init_pair, attron, attroff, addstr, malloc, free, refresh,
}
use prom.Shell.Callbacks.{tracer_cbs}
use prom.Shell.Callbacks.Denies.{HasLog, shell_answers, tracer_cbs-answering}
use prom.Shell.StatusBar.{set_status_bar}
use prom.Shell.Input.{buf_size, handle_input}
use prom.Shell.Pty.{is_negative}
use prom.Shell.Master.{
  eagain, eintr, show_width, go_on, pid_of, row_of, Next, again, done, on_read, at_end,
  handle_output, draw_status_bar, serve, on_poll, follow_window, sigwinch_handler, master_round,
  master_loop, master_process,
}
use prom.Shell.Master.Kept.{moves, nothing, IsKept}
use prom.Shell.Master.Typing.{handle_input-Within}
use prom.Shell.Master.Rounds.{
  Within, returned, unfinished, Within-either, Within-bind, Within-if, Within-tracer,
  screen_call-Within, window_resize-Within,
}

-- The acts move no bytes.
abbrev Idle : List Act → Type 0
Idle [] = Unit
Idle (a ∷ acts) = (moves a ≡ nothing) × Idle acts

-- The acts, one after the other.
abbrev performs : {T : Type 0} → List Act → Desk T → Desk T
performs [] s = s
performs (a ∷ acts) s = performs acts (note a s)

module _ {T : Type 0} {I : Desk T → Type 0} (v : Vterm T) (k : Console) (kept : IsKept v k I)
    (short : (n : ℕ) (t : T) → length (v.output_read n t).0 ≤ buf_size) where
  module _ (kernel : Env) (fuel : ℕ) (small : 8 * fuel < 2 ^ 60)
      (grants : (acts : List Act) (n : ℕ) → k.grants acts n ≡ true) (has : HasLog k.disk) where
    at_end-Within : (s : Desk T) → I s → Within I (at_end v k kernel fuel s)
    at_end-Within s h = Within-either (s.errno == eagain) _ _ (returned h) (returned h)

    on_read-Within :
        (r : Reads) (s : Desk T)
        → k.reads s.trace ≡ r
        → I s
        → Within I (on_read v k kernel fuel r (note (read s.fd_master) s))
    on_read-Within (Reads.failed e) s e' h = at_end-Within _ (kept.starves e s (inr e') h)
    on_read-Within (got []) s e' h = at_end-Within _ (kept.starves s.errno s (inl e') h)
    on_read-Within (got (b ∷ bs)) s e' h =
        Within-bind
          (screen_call-Within v k kept (v.input_write (b ∷ bs)) (note (read s.fd_master) s)
            (kept.there s h) (λ t at. kept.hears s t b bs e' at h))
          λ _ u h'. returned h'

    handle_output-Within : (s : Desk T) → I s → Within I (handle_output v k kernel fuel s)
    unfolding handle_output
    handle_output-Within s h = on_read-Within (k.reads s.trace) s refl h

    follow_window-Within : (s : Desk T) → I s → Within I (follow_window v k kernel fuel s)
    follow_window-Within s h =
        Within-either s.got_sigwinch _ _
          (Within-bind (window_resize-Within v k kept s h)
            λ _ u h'. returned (kept.signals false u h'))
          (returned h)

    -- Acts that move no bytes.
    performed : (acts : List Act) (s : Desk T) → Idle acts → I s → I (performs acts s)
    performed [] s still h = h
    performed (a ∷ acts) s (still, more) h =
        performed acts (note a s) more (kept.acts a s.errno s still h)

    show_width-Within :
        (width : ℤ) (s : Desk T) → I s → Within I (show_width v k kernel fuel width s)
    unfolding draw_status_bar
    show_width-Within (negsuc n) s h = returned h
    show_width-Within (pos n) s h =
        let (y, x) = k.getyx (malloc (n + 1) ∷ s.trace) in
        let bottom = k.getmaxy (malloc (n + 1) ∷ s.trace) in
        rw (grants s.trace (n + 1)) (
          returned (
            performed
              (malloc (n + 1)
                ∷ move (row_of bottom) 0
                ∷ init_pair
                ∷ attron
                ∷ addstr (c_string (set_status_bar (n + 1)))
                ∷ attroff
                ∷ move y x
                ∷ free
                ∷ [])
              s (refl, (refl, (refl, (refl, (refl, (refl, (refl, (refl, tt)))))))) h))

    serve-Within :
        (master_in master_hup stdin_in : Bool) (s : Desk T)
        → I s
        → Within I (serve v k kernel fuel master_in master_hup stdin_in s)
    serve-Within master_in master_hup stdin_in s h =
        Within-bind
          (Within-if master_in (handle_output v k kernel fuel) (ok (pos 0)) s
            (handle_output-Within s h) (returned h))
          λ out u h1. Within-if (is_negative out) _ _ u (returned h1) (
            Within-if master_hup _ _ u (returned h1) (
              Within-bind
                (Within-if stdin_in (handle_input v k fuel) (ok (pos 0)) u
                  (handle_input-Within v k kept short fuel u h1) (returned h1))
                λ inp w h2.
                  Within-if (is_negative inp) _ _ w (returned h2)
                    (returned (kept.acts refresh w.errno w refl h2))))

    on_poll-Within : (p : Polled) (s : Desk T) → I s → Within I (on_poll v k kernel fuel p s)
    on_poll-Within (interrupted e) s h =
        Within-either (e == eintr) _ _ (returned (kept.fails e s h)) (returned (kept.fails e s h))
    on_poll-Within idle s h = returned h
    on_poll-Within (ready master_in master_hup stdin_in) s h =
        serve-Within master_in master_hup stdin_in s h

    pub master_round-Within : (s : Desk T) → I s → Within I (master_round v k kernel fuel s)
    unfolding master_round sigwinch_handler
    master_round-Within s h =
        Within-bind
          (Within-tracer (tracer_loop fuel kernel (tracer_cbs k.disk) s.tracer) s
            (rw (tracer_cbs-answering k.disk has)
              (tracer_loop-IsSafe kernel shell_answers fuel s.tracer small))
            (λ t. kept.traces t s h))
          λ _ u h1.
            Within-bind
              (Within-either (k.winch u.trace) _ _ (returned (kept.signals true u h1))
                (returned h1))
              λ _ u2 h2. Within-bind (follow_window-Within u2 h2) λ _ u3 h3.
                Within-bind (show_width-Within (k.getmaxx u3.trace) u3 h3) λ _ u4 h4.
                  on_poll-Within (k.polls u4.trace) (note poll u4)
                    (kept.acts poll u4.errno u4 refl h4)

    go_on-Within :
        (rest : Q T ℤ) (nx : Next) (s : Desk T)
        → I s
        → ((u : Desk T) → I u → Within I (rest u))
        → Within I (go_on v k kernel fuel rest nx s)
    go_on-Within rest again s h go = go s h
    go_on-Within rest (done r) s h go = returned h

    master_loop-Within :
        (rounds : ℕ) (s : Desk T) → I s → Within I (master_loop v k kernel fuel rounds s)
    unfolding master_loop
    master_loop-Within zero s h = unfinished
    master_loop-Within (suc rounds) s h = Within-bind (master_round-Within s h) λ nx u h'.
        go_on-Within (master_loop v k kernel fuel rounds) nx u h' (master_loop-Within rounds)

    -- If every request for memory is granted, the callbacks' log can be opened, vterm_output_read
    -- never gives more than 8192 bytes and the fuel for a string is below 2 ^ 57, master_process
    -- neither aborts nor reaches undefined behaviour in any number of rounds, whatever the kernel,
    -- the traced processes, the keyboard and the screen answer, and where it returns `I` holds.
    pub master_process-Within :
        (rounds : ℕ) (s : Desk T) → I s → Within I (master_process v k kernel fuel rounds s)
    unfolding master_process
    master_process-Within rounds s h =
        Within-bind
          (Within-tracer (tracer_init kernel (pid_of s.pid_child) s.tracer)
            (note (close s.fd_slave) s) (tracer_init-IsSafe kernel (pid_of s.pid_child) s.tracer)
            (λ t. kept.traces t _ (kept.acts (close s.fd_slave) s.errno s refl h)))
          λ _ u h'. master_loop-Within rounds u h'
