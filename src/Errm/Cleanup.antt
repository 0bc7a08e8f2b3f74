-- ===== src/Errm/Cleanup.antt =====
-- What run_defers does, as a list of clean-up calls: src/errm/errm.c, run_defers.
use prom.Prelude.{ℕ, zero, suc, ◌+◌, ◌≡◌, refl, List, [], ◌∷◌, ◌++◌, arith, some}
use prom.Machine.{Cmd, ok, and_then, and_then-eq-ok}
use prom.Errm.State.{addr, object, Handle, Frame, Sys}
use prom.Errm.Ops.{run_statics, run_dyns, run_defers_frame, run_defers, put_frame, slot, at_curr}

module _ {W : Type 0} where
  -- The calls that the first `n` static entries stand for, the newest first.
  abbrev pub statics : (ℕ → Handle W) → (ℕ → ℕ) → (ℕ → ℕ) → ℕ → List (Cmd W (Unit {0}))
  statics d a p zero = []
  statics d a p (suc n) = d n (object (λ k. p (a n + k))) ∷ statics d a p n

  abbrev pub dyns : (ℕ → Handle W) → (ℕ → ℕ) → ℕ → List (Cmd W (Unit {0}))
  dyns d a zero = []
  dyns d a (suc n) = d n (addr (a n)) ∷ dyns d a n

  -- Every call that a frame has pending: the static ones come before the dynamic ones.
  abbrev pub pending : Frame W → List (Cmd W (Unit {0}))
  pending f =
      statics f.static_defers f.static_defer_args f.pool_data f.static_len
      ++ dyns f.dyn_defers f.dyn_defer_args f.dyn_len

  abbrev pub run_all : List (Cmd W (Unit {0})) → Cmd W (Unit {0})
  run_all [] = ok tt
  run_all (c ∷ cs) = λ w. and_then (c w) (λ _. run_all cs)

  -- A frame with nothing pending; the arrays keep their old contents.
  abbrev pub emptied : Frame W → Frame W
  emptied f = record f { static_len = 0; dyn_len = 0; pool_used = 0 }

  pub run_all-append :
      (cs ds : List (Cmd W (Unit {0}))) (w : W) {w' : W}
      → run_all (cs ++ ds) w ≡ ok tt w'
      → (v : W) × (run_all cs w ≡ ok tt v) × (run_all ds v ≡ ok tt w')
  run_all-append [] ds w h = (w, refl, h)
  run_all-append (c ∷ cs) ds w h =
      let (u, w1, e, rest) = and_then-eq-ok (c w) (λ _. run_all (cs ++ ds)) h in
      let (v, p, q) = run_all-append cs ds w1 rest in (v, rw e p, q)

  run_statics-run_all :
      (n : ℕ) (f : Frame W) (w : W) {w' : W}
      → f.static_len ≡ n
      → run_all (statics f.static_defers f.static_defer_args f.pool_data n) w ≡ ok tt w'
      → run_statics n (f, w) ≡ ok tt (record f { static_len = 0 }, w')
  unfolding run_statics
  run_statics-run_all zero f w len h = ground arith
  run_statics-run_all (suc n) f w len h =
      let (u, v, e, rest) =
        and_then-eq-ok (f.static_defers n (object (λ k. f.pool_data (f.static_defer_args n + k))) w)
          (λ _. run_all (statics f.static_defers f.static_defer_args f.pool_data n)) h in
      rw e (run_statics-run_all n (record f { static_len = n }) v refl rest)

  run_dyns-run_all :
      (n : ℕ) (f : Frame W) (w : W) {w' : W}
      → f.dyn_len ≡ n
      → run_all (dyns f.dyn_defers f.dyn_defer_args n) w ≡ ok tt w'
      → run_dyns n (f, w) ≡ ok tt (record f { dyn_len = 0 }, w')
  unfolding run_dyns
  run_dyns-run_all zero f w len h = ground arith
  run_dyns-run_all (suc n) f w len h =
      let (u, v, e, rest) =
        and_then-eq-ok (f.dyn_defers n (addr (f.dyn_defer_args n)) w)
          (λ _. run_all (dyns f.dyn_defers f.dyn_defer_args n)) h in
      rw e (run_dyns-run_all n (record f { dyn_len = n }) v refl rest)

  pub run_defers_frame_lem :
      (f : Frame W) (w : W) {w' : W}
      → run_all (pending f) w ≡ ok tt w'
      → run_defers_frame (f, w) ≡ ok tt (emptied f, w')
  unfolding run_defers_frame
  run_defers_frame_lem f w h =
      let (v, p, q) =
        run_all-append (statics f.static_defers f.static_defer_args f.pool_data f.static_len)
          (dyns f.dyn_defers f.dyn_defer_args f.dyn_len) w h in
      rw (run_statics-run_all f.static_len f w refl p)
        (run_dyns-run_all f.dyn_len (record f { static_len = 0; pool_used = 0 }) v refl q)

  -- If every call that the current frame has pending returns, run_defers makes each of them
  -- once, the static ones before the dynamic ones and in each kind the newest first, and leaves
  -- the frame with nothing pending.
  pub run_defers_lem :
      (s : Sys W) (i : ℕ) {w' : W}
      → slot s.curr ≡ some i
      → run_all (pending (s.stack i)) s.world ≡ ok tt w'
      → run_defers s ≡ ok tt (put_frame i s (emptied (s.stack i), w'))
  unfolding run_defers
  run_defers_lem s i at h = rw (at, at_curr, run_defers_frame_lem (s.stack i) s.world h)
