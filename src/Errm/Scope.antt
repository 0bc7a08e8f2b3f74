-- ===== src/Errm/Scope.antt =====
-- The call discipline of src/errm/errm.h: what an edf function does round its body.
use prom.Prelude.{ℕ, zero, suc, ◌≤◌, ◌<◌, ◌≡◌, refl, arith, update, lt→ltb}
use prom.Prelude.Int.{ℤ, pos, negsuc}
use prom.Machine.{Cmd, ok, aborted}
use prom.Errm.State.{Frame, Sys}
use prom.Errm.Ops.{errm_clear, defer_push, defer_pop, edf_call, put_frame}
use prom.Errm.Cleanup.{pending, run_all, emptied, run_defers_lem}

-- The value of `curr` when `n` edf functions are running.
abbrev pub at_depth : ℕ → ℤ
at_depth zero = negsuc 0
at_depth (suc n) = pos n

module _ {W : Type 0} where
  pub record IsEmpty (f : Frame W) : Type 0 where
    pub no_statics : f.static_len ≡ 0
    pub no_dyns : f.dyn_len ≡ 0
    pub no_pool : f.pool_used ≡ 0

  -- `n` edf functions are running, and no frame above theirs has anything pending.
  pub record IsBalanced (n : ℕ) (s : Sys W) : Type 0 where
    pub depth : s.curr ≡ at_depth n
    pub idle : (k : ℕ) → n ≤ k → IsEmpty (s.stack k)

  -- The state in which a body starts.
  abbrev pub entered : ℕ → Sys W → Sys W
  entered n s = record s { err_code = 0; curr = pos n }

  -- The state that the wrapper leaves, after a body that ended in `s` and clean-ups that ended
  -- in `w`.
  abbrev pub left_by : ℕ → Sys W → W → Sys W
  left_by n s w = record s {
    stack = update s.stack n (emptied (s.stack n));
    curr = at_depth n;
    world = w;
  }

  -- A body starts one level deeper, with an empty frame.
  pub entered-IsBalanced :
      (n : ℕ) (s : Sys W) → IsBalanced n s → IsBalanced (suc n) (entered n s) × IsEmpty (s.stack n)
  entered-IsBalanced n s b =
      (record { depth = refl; idle = λ k le. b.idle k (omega arith) }, b.idle n (omega arith))

  defer_push-lt :
      (n : ℕ) (s : Sys W)
      → n < 12
      → s.curr ≡ at_depth n
      → defer_push s ≡ ok 1 (record s { curr = pos n })
  unfolding defer_push
  defer_push-lt zero s lt at = ground arith
  defer_push-lt (suc n) s lt at = ground arith

  defer_pop-suc :
      (n : ℕ) (s : Sys W) → s.curr ≡ pos n → defer_pop s ≡ ok 1 (record s { curr = at_depth n })
  unfolding defer_pop
  defer_pop-suc zero s at = ground arith
  defer_pop-suc (suc n) s at = ground arith

  left_by-IsBalanced :
      (n : ℕ) (s : Sys W) (w : W) → IsBalanced (suc n) s → IsBalanced n (left_by n s w)
  left_by-IsBalanced n s w b = record { depth = refl; idle = λ k le. ground (arith, b.idle k) }

  -- Called fewer than 12 functions deep on a balanced stack, an edf function whose body and
  -- clean-ups return, where the body leaves the stack balanced at its own depth, hands on the
  -- body's result and error code, has made every pending call of its frame, and gives back a
  -- balanced stack at its caller's depth.
  pub edf_call_lem :
      (n : ℕ) {R : Type 0} (body : Cmd (Sys W) R) (s : Sys W) {r : R} {s' : Sys W} {w : W}
      → n < 12
      → IsBalanced n s
      → body (entered n s) ≡ ok r s'
      → IsBalanced (suc n) s'
      → run_all (pending (s'.stack n)) s'.world ≡ ok tt w
      → (edf_call body s ≡ ok r (left_by n s' w)) × IsBalanced n (left_by n s' w)
  unfolding edf_call errm_clear
  edf_call_lem n body s {s'} {w} lt b runs b' cleans = (
    rw (
      defer_push-lt n (record s { err_code = 0 }) lt b.depth,
      runs,
      run_defers_lem s' n (rw (b'.depth, lt→ltb n 12 lt)) cleans,
      defer_pop-suc n (put_frame n s' (emptied (s'.stack n), w)) b'.depth,
    ),
    left_by-IsBalanced n s' w b',
  )

  -- With 12 edf functions running, a thirteenth aborts, whatever its body is.
  edf_call_overflow :
      {R : Type 0} (body : Cmd (Sys W) R) (s : Sys W) → IsBalanced 12 s → edf_call body s ≡ aborted
  unfolding edf_call errm_clear defer_push
  edf_call_overflow body s b = rw b.depth
