-- ===== src/Errm/Scopes/Between.antt =====
-- Between two steps of a function that defers calls, and the steps that src/errm/errm.c takes to
-- defer one.
use prom.Prelude.{
  ℕ, suc, ◌+◌, ◌≤◌, ◌<◌, ◌≡◌, refl, List, [], ◌∷◌, arith, update_ne, update_self, lt→ltb,
}
use prom.Machine.{Cmd, ok}
use prom.Machine.Returns.{Returns, returns}
use prom.Errm.State.{addr, object, Handle, Frame, Sys}
use prom.Errm.Ops.{defer, static_defer, put_frame, push_dyn, push_static}
use prom.Errm.Register.{defer_ok, static_defer_ok}
use prom.Errm.Scope.{IsBalanced, entered, entered-IsBalanced}
use prom.Errm.Scopes.{IsLocal}
use prom.Errm.Scopes.Waits.{Waits, none_held, Waits-push_dyn, Waits-push_static}

module _ {W : Type 0} where
  -- Between two steps of a body in frame `n`, which has deferred the calls `ss` and `ds`.
  pub record IsAt (n k u m : ℕ) (ss ds : List (Cmd W (Unit {0}))) (err : ℕ) (w : W) (t : Sys W)
      : Type 0 where
    pub balanced : IsBalanced (suc n) t
    pub waits : Waits k u m ss ds (t.stack n)
    pub err_code : t.err_code ≡ err
    pub same_world : t.world ≡ w

  put-IsAt :
      {n k u m k' u' m' : ℕ} {ss ds ss' ds' : List (Cmd W (Unit {0}))} {err : ℕ} {w : W} (t : Sys W)
      (f : Frame W)
      → IsAt n k u m ss ds err w t
      → Waits k' u' m' ss' ds' f
      → Returns
          (λ _ t'. IsAt n k' u' m' ss' ds' err w t' × ((j : ℕ) → j < n → t'.stack j ≡ t.stack j))
          (ok tt (put_frame n t (f, t.world)))
  put-IsAt {n} t f a v = returns (
    record {
      balanced = record {
        depth = a.balanced.depth;
        idle = λ j le. rw (update_ne t.stack n f j (omega arith)) (a.balanced.idle j le);
      };
      waits = rw (update_self t.stack n f) v;
      err_code = a.err_code;
      same_world = a.same_world;
    },
    λ j low. update_ne t.stack n f j (omega arith),
  )

  pub defer-IsAt :
      (n : ℕ) {k u m : ℕ} (h : Handle W) (x : ℕ) {ss ds : List (Cmd W (Unit {0}))} {err : ℕ} {w : W}
      (t : Sys W)
      → n < 12
      → m < 12
      → IsAt n k u m ss ds err w t
      → Returns
          (λ _ t'.
            IsAt n k u (suc m) ss (h (addr x) ∷ ds) err w t'
            × ((j : ℕ) → j < n → t'.stack j ≡ t.stack j))
          (defer h x t)
  defer-IsAt n h x t below lt a =
      rw (defer_ok t n h x (rw (a.balanced.depth, lt→ltb n 12 below) refl) (rw (a.waits.count) lt))
        (put-IsAt t (push_dyn (t.stack n) h x) a (Waits-push_dyn (t.stack n) h x a.waits))

  pub static_defer-IsAt :
      (n : ℕ) {k u m : ℕ} (h : Handle W) (size : ℕ) (arg : ℕ → ℕ) {ss ds : List (Cmd W (Unit {0}))}
      {err : ℕ} {w : W} (t : Sys W)
      → n < 12
      → k < 6
      → u + size ≤ 48
      → IsLocal h size
      → IsAt n k u m ss ds err w t
      → Returns
          (λ _ t'.
            IsAt n (suc k) (u + size) m (h (object arg) ∷ ss) ds err w t'
            × ((j : ℕ) → j < n → t'.stack j ≡ t.stack j))
          (static_defer h size arg t)
  static_defer-IsAt n h size arg t below lt fits local a =
      rw
        (static_defer_ok t n h size arg (rw (a.balanced.depth, lt→ltb n 12 below) refl)
          (rw (a.waits.copies) lt) (rw (a.waits.pool) fits))
        (put-IsAt t (push_static (t.stack n) h size arg) a
          (Waits-push_static (t.stack n) h size arg fits local a.waits))

  pub starts : (n : ℕ) (t : Sys W) → IsBalanced n t → IsAt n 0 0 0 [] [] 0 t.world (entered n t)
  starts n t b = record {
    balanced = (entered-IsBalanced n t b).0;
    waits = record {
      copies = (b.idle n (omega arith)).no_statics;
      pool = (b.idle n (omega arith)).no_pool;
      held = none_held;
      count = (b.idle n (omega arith)).no_dyns;
      waiting = rw ((b.idle n (omega arith)).no_dyns) refl;
    };
    err_code = refl;
    same_world = refl;
  }

  pub moved :
      {n k u m : ℕ} {ss ds : List (Cmd W (Unit {0}))} {err err' : ℕ} {w : W} (t : Sys W) (code : ℕ)
      (w' : W)
      → IsAt n k u m ss ds err w t
      → code ≡ err'
      → IsAt n k u m ss ds err' w' (record t { err_code = code; world = w' })
  moved t code w' a same = record {
    balanced = record { depth = a.balanced.depth; idle = a.balanced.idle };
    waits = a.waits;
    err_code = same;
    same_world = refl;
  }
