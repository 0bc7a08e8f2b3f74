-- ===== src/Errm/Ops.antt =====
-- The functions of src/errm/errm.c and the function macros of src/errm/errm.h.
use prom.Prelude.{
  ℕ, zero, suc, ◌+◌, ◌-◌, ◌%◌, ◌^◌, Bool, ◌&&◌, Option, none, some, ltb, leb, ◌==◌, if◌then◌else◌,
  update, not,
}
use prom.Prelude.Int.{ℤ, pos, negsuc, ◌+ℤ◌, ◌-ℤ◌, leb_ℤ}
use prom.Machine.{Cmd, ok, aborted, faulted, pure, and_then, ◌>>=◌, ◌>>◌, zoom_run, abort_if}
use prom.Errm.State.{
  addr, object, Handle, Frame, Sys, no_permissions, not_enough_memory, not_the_expected,
  does_not_exist, limit_exceeded, stack_size, max_dyn_defers, max_static_defers, pool_size,
}

-- Values of <errno.h> on Linux.
abbrev pub eacces : ℕ
eacces = 13

abbrev pub enfile : ℕ
enfile = 23

abbrev pub enoent : ℕ
enoent = 2

abbrev pub enotdir : ℕ
enotdir = 20

abbrev pub enomem : ℕ
enomem = 12

-- `defer_stack.stack + defer_stack.curr` is an element of the array only for 0 ≤ curr < 12.
abbrev pub slot : ℤ → Option ℕ
slot (pos i) = if ltb i stack_size then some i else none
slot (negsuc i) = none

-- memcpy(a, arg, s) to the pool, at offset `a`
abbrev pub pool_copy : (ℕ → ℕ) → ℕ → (ℕ → ℕ) → ℕ → ℕ → ℕ
pool_copy pool a arg size i = if leb a i && ltb i (a + size) then arg (i - a) else pool i

module _ {W : Type 0} where
  abbrev pub set_err_code : Sys W → ℕ → Sys W
  set_err_code s c = record s { err_code = c }

  unfoldable pub errm_error : ℕ → Cmd (Sys W) (Unit {0})
  errm_error c s = ok tt (set_err_code s c)

  unfoldable pub errm_clear : Cmd (Sys W) (Unit {0})
  errm_clear s = ok tt (set_err_code s 0)

  unfoldable pub errm_error_code : Cmd (Sys W) ℕ
  errm_error_code s = ok s.err_code s

  -- `Errored`, as a test
  abbrev pub errored : Sys W → Bool
  errored s = not (s.err_code == 0)

  -- on_error_return(A) in front of the rest of a body
  abbrev pub on_error_return : {A : Type 0} → A → Cmd (Sys W) A → Cmd (Sys W) A
  on_error_return a rest s = if errored s then ok a s else rest s

  unfoldable pub defer_push : Cmd (Sys W) ℕ
  defer_push s =
      if leb_ℤ (pos (stack_size - 1)) s.curr
      then ok 0 s
      else ok 1 (record s { curr = s.curr +ℤ pos 1 })

  unfoldable pub defer_pop : Cmd (Sys W) ℕ
  defer_pop s =
      if leb_ℤ s.curr (negsuc 0) then ok 0 s else ok 1 (record s { curr = s.curr -ℤ pos 1 })

  -- Code that reads and writes `*curr_stackframe`, and calls handlers.
  abbrev pub put_frame : ℕ → Sys W → Frame W × W → Sys W
  put_frame i s (f, w) = record s { stack = update s.stack i f; world = w }

  abbrev pub at_curr : Cmd (Frame W × W) (Unit {0}) → Cmd (Sys W) (Unit {0})
  at_curr m s = elim (slot s.curr) [
    | none ↦ faulted
    | some i ↦ zoom_run (put_frame i s) (m (s.stack i, s.world))
  ]

  -- The four writes to the frame, at the index `static_len`, and the copy to the pool.
  abbrev pub push_static : Frame W → Handle W → ℕ → (ℕ → ℕ) → Frame W
  push_static f handle size arg = record f {
    pool_used = (f.pool_used + size) % 2 ^ 64;
    pool_data = pool_copy f.pool_data f.pool_used arg size;
    static_defer_args = update f.static_defer_args f.static_len f.pool_used;
    static_defers = update f.static_defers f.static_len handle;
    static_len = f.static_len + 1;
  }

  pub static_defer_frame : Handle W → ℕ → (ℕ → ℕ) → Cmd (Frame W × W) (Unit {0})
  static_defer_frame handle size arg (f, w) =
      if leb max_static_defers f.static_len
      then aborted
      else if ltb pool_size ((f.pool_used + size) % 2 ^ 64)
      then aborted
      else ok tt (push_static f handle size arg, w)

  unfoldable pub static_defer : Handle W → ℕ → (ℕ → ℕ) → Cmd (Sys W) (Unit {0})
  unfolding static_defer_frame
  static_defer handle size arg = at_curr (static_defer_frame handle size arg)

  abbrev pub push_dyn : Frame W → Handle W → ℕ → Frame W
  push_dyn f handle arg = record f {
    dyn_defer_args = update f.dyn_defer_args f.dyn_len arg;
    dyn_defers = update f.dyn_defers f.dyn_len handle;
    dyn_len = f.dyn_len + 1;
  }

  pub defer_frame : Handle W → ℕ → Cmd (Frame W × W) (Unit {0})
  defer_frame handle arg (f, w) =
      if leb max_dyn_defers f.dyn_len then aborted else ok tt (push_dyn f handle arg, w)

  unfoldable pub defer : Handle W → ℕ → Cmd (Sys W) (Unit {0})
  unfolding defer_frame
  defer handle arg = at_curr (defer_frame handle arg)

  -- The first loop of run_defers, by the value of `static_len`: it is lowered before each call.
  unfoldable pub run_statics : ℕ → Cmd (Frame W × W) (Unit {0})
  run_statics zero (f, w) = ok tt (f, w)
  run_statics (suc n) (f, w) =
      and_then
        (zoom_run (λ w'. (record f { static_len = n }, w'))
          (f.static_defers n (object (λ k. f.pool_data (f.static_defer_args n + k))) w))
        (λ _. run_statics n)

  -- The second loop, by the value of `dyn_len`.
  unfoldable pub run_dyns : ℕ → Cmd (Frame W × W) (Unit {0})
  run_dyns zero (f, w) = ok tt (f, w)
  run_dyns (suc n) (f, w) =
      and_then
        (zoom_run (λ w'. (record f { dyn_len = n }, w'))
          (f.dyn_defers n (addr (f.dyn_defer_args n)) w))
        (λ _. run_dyns n)

  unfoldable pub run_defers_frame : Cmd (Frame W × W) (Unit {0})
  unfolding run_statics run_dyns
  run_defers_frame (f, w) = and_then (run_statics f.static_len (f, w)) λ _ (g, v).
      and_then (ok tt (record g { pool_used = 0 }, v)) λ _ (g', v'). run_dyns g'.dyn_len (g', v')

  unfoldable pub run_defers : Cmd (Sys W) (Unit {0})
  unfolding run_defers_frame
  run_defers = at_curr run_defers_frame

  -- What the four macros put round a body; the messages on stderr are left out.
  unfoldable pub edf_call : {R : Type 0} → Cmd (Sys W) R → Cmd (Sys W) R
  edf_call body = do
    errm_clear
    dpret ← defer_push
    abort_if (dpret == 0)
    r ← body
    run_defers
    dpret' ← defer_pop
    abort_if (dpret' == 0)
    pure r

  unfoldable pub edf_func1 : {T R : Type 0} → (T → Cmd (Sys W) R) → T → Cmd (Sys W) R
  edf_func1 body arg = edf_call (body arg)

  unfoldable pub edf_static_func1 : {T R : Type 0} → (T → Cmd (Sys W) R) → T → Cmd (Sys W) R
  edf_static_func1 body arg = edf_call (body arg)

  unfoldable pub edf_func2 : {T U R : Type 0} → (T → U → Cmd (Sys W) R) → T → U → Cmd (Sys W) R
  edf_func2 body arg arg1 = edf_call (body arg arg1)

  unfoldable pub edf_static_func2 :
      {T U R : Type 0} → (T → U → Cmd (Sys W) R) → T → U → Cmd (Sys W) R
  edf_static_func2 body arg arg1 = edf_call (body arg arg1)

  unfoldable pub errm_error_from_errno : Cmd (Sys W) (Unit {0})
  unfolding errm_error
  errm_error_from_errno s =
      if s.errno == eacces
      then errm_error no_permissions s
      else if s.errno == enfile
      then errm_error limit_exceeded s
      else if s.errno == enoent
      then errm_error does_not_exist s
      else if s.errno == enotdir
      then errm_error not_the_expected s
      else if s.errno == enomem
      then errm_error not_enough_memory s
      else ok tt s
