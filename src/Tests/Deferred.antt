-- ===== src/Tests/Deferred.antt =====
-- Deferred calls: src/errm/errm.c on small frames. A call appends a digit to the world.
use prom.Prelude.{ℕ, ◌+◌, ◌*◌, ◌≤◌, ◌≡◌, refl, ap, fun_ext, arith}
use prom.Prelude.Int.{negsuc}
use prom.Machine.{Cmd, ok, pure, ◌>>◌}
use prom.Errm.State.{addr, object, Handle, Frame, Sys}
use prom.Errm.Ops.{
  static_defer, defer, errm_error, put_frame, push_static, push_dyn, run_defers, edf_call,
}
use prom.Errm.Cleanup.{run_defers_lem, emptied}
use prom.Errm.Register.{IsFrame}
use prom.Machine.Returns.{Returns}
use prom.Errm.Scopes.{
  Body, done, act, later, later_copy, fails, unless_errored, calls, run_body, meaning, ends, Fits,
  IsLocal, fits_later_copy, fits_done, fits_act, fits_later, fits_fails, fits_unless, fits_calls,
}
use prom.Errm.Scopes.Agrees.{HasReturned, edf_call-meaning}
use prom.Errm.Scope.{IsEmpty, IsBalanced, entered, left_by, edf_call_lem}

abbrev note : Handle ℕ
note (addr x) n = ok tt (n * 10 + x)
note (object o) n = ok tt (n * 10 + o 0)

abbrev unused : Frame ℕ
unused = record {
  static_defers = λ _. note;
  static_defer_args = λ _. 0;
  dyn_defers = λ _. note;
  dyn_defer_args = λ _. 0;
  pool_data = λ _. 0;
  pool_used = 0;
  static_len = 0;
  dyn_len = 0;
}

abbrev start : Sys ℕ
start = record { err_code = 7; errno = 0; stack = λ _. unused; curr = negsuc 0; world = 0 }

abbrev ones : ℕ → ℕ
ones _ = 1

start-IsBalanced : IsBalanced 0 start
start-IsBalanced = record {
  depth = refl;
  idle = λ k le. record { no_statics = refl; no_dyns = refl; no_pool = refl };
}

-- A body that registers three calls and sets an error.
abbrev body : Cmd (Sys ℕ) ℕ
unfolding static_defer defer errm_error
body = do static_defer note 8 ones; defer note 2; defer note 3; errm_error 4; pure 9

abbrev after_1 : Sys ℕ
after_1 = put_frame 0 (entered 0 start) (push_static unused note 8 ones, 0)

abbrev after_2 : Sys ℕ
after_2 = put_frame 0 after_1 (push_dyn (after_1.stack 0) note 2, 0)

abbrev after : Sys ℕ
after = record (put_frame 0 after_2 (push_dyn (after_2.stack 0) note 3, 0)) { err_code = 4 }

after_idle : (k : ℕ) → 1 ≤ k → IsEmpty (after.stack k)
after_idle k le = record {
  no_statics = ground arith;
  no_dyns = ground arith;
  no_pool = ground arith;
}

edf_call_example :
    (edf_call body start ≡ ok 9 (left_by 0 after 132)) × IsBalanced 0 (left_by 0 after 132)
unfolding body
edf_call_example =
    edf_call_lem 0 body start {r = 9} {s' = after} {w = 132} (omega arith) start-IsBalanced refl
      (record { depth = refl; idle = after_idle }) refl

run_defers_example : run_defers after ≡ ok tt (put_frame 0 after (emptied (after.stack 0), 132))
run_defers_example = run_defers_lem after 0 {w' = 132} refl refl

abbrev running : Sys ℕ
running = entered 0 start

unused-IsFrame : IsFrame unused
unused-IsFrame = record {
  statics_fit = omega arith;
  dyns_fit = omega arith;
  pool_fits = omega arith;
}

-- A function that defers a call and calls a second one, which defers two, one of them with a copied
-- object, and fails; it stops there, since the second one's error stands.
abbrev inner : Body ℕ
inner = later note 2 (later_copy note 8 ones (act (note (addr 4)) (fails 5 done)))

abbrev outer : Body ℕ
outer = later note 1 (calls inner (unless_errored (act (note (addr 9)) done)))

note-IsLocal : IsLocal note 8
note-IsLocal o o' same = fun_ext λ n. ap (λ d. ok tt (n * 10 + d)) (same 0 (omega arith))

outer-Fits : Fits 0 0 0 0 outer
outer-Fits = fits_later (omega arith) (
    fits_calls (omega arith)
      (fits_later (omega arith) (
        fits_later_copy (omega arith) (omega arith) note-IsLocal (fits_act (fits_fails fits_done))))
      (fits_unless (fits_act fits_done)))

scopes_example : Returns (λ _ t. HasReturned 0 start 5 4121 t) (edf_call (run_body outer) start)
unfolding meaning ends
scopes_example =
    edf_call-meaning 0 outer start {e = 5} {w = 4121} (omega arith) outer-Fits start-IsBalanced refl
