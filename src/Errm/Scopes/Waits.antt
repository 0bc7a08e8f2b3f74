-- ===== src/Errm/Scopes/Waits.antt =====
-- The deferred calls that a frame of src/errm/errm.c holds, as the commands that they stand for.
use prom.Prelude.{sym, ℕ, suc, ◌+◌, ◌≤◌, ◌≡◌, refl, ◌∙◌, ap, List, [], ◌∷◌, ◌++◌, arith}
use native.Mathlib.Numerals.{add-one}
use prom.Machine.{Cmd}
use prom.Errm.State.{addr, object, Handle, Frame}
use prom.Errm.Ops.{push_dyn, push_static}
use prom.Errm.Cleanup.{pending, statics, dyns}
use prom.Errm.Register.{Holds, dyns-push_dyn, push_static-Holds, push_static-new}
use prom.Errm.Scopes.{IsLocal}

module _ {W : Type 0} where
  -- The first `k` static entries of the frame stand for the calls, the newest first.
  pub data AreHeld (f : Frame W) : ℕ → List (Cmd W (Unit {0})) → Type 0 where
    none_held : AreHeld f 0 []
    one_held :
        {k size : ℕ} {h : Handle W} {arg : ℕ → ℕ} {cs : List (Cmd W (Unit {0}))}
        → Holds f k h size arg
        → IsLocal h size
        → AreHeld f k cs
        → AreHeld f (suc k) (h (object arg) ∷ cs)

  AreHeld-push_static :
      (f : Frame W) (h : Handle W) (size : ℕ) (arg : ℕ → ℕ) {k : ℕ} {cs : List (Cmd W (Unit {0}))}
      → f.pool_used + size ≤ 48
      → AreHeld f k cs
      → AreHeld (push_static f h size arg) k cs
  AreHeld-push_static f h size arg fits none_held = none_held
  AreHeld-push_static f h size arg fits (one_held v local held) =
      one_held (push_static-Holds f h size arg fits v) local
        (AreHeld-push_static f h size arg fits held)

  AreHeld-push_dyn :
      (f : Frame W) (h : Handle W) (x : ℕ) {k : ℕ} {cs : List (Cmd W (Unit {0}))}
      → AreHeld f k cs
      → AreHeld (push_dyn f h x) k cs
  AreHeld-push_dyn f h x none_held = none_held
  AreHeld-push_dyn f h x (one_held v local held) =
      one_held
        (record { listed = v.listed; handler = v.handler; inside = v.inside; copied = v.copied })
        local (AreHeld-push_dyn f h x held)

  statics-AreHeld :
      (f : Frame W) {k : ℕ} {cs : List (Cmd W (Unit {0}))}
      → AreHeld f k cs
      → statics f.static_defers f.static_defer_args f.pool_data k ≡ cs
  statics-AreHeld f none_held = refl
  statics-AreHeld f (one_held {k} {cs = cs} v local held) =
      rw (v.handler, statics-AreHeld f held)
        (ap (λ c. c ∷ cs) (local (λ j. f.pool_data (f.static_defer_args k + j)) _ v.copied))

  -- The frame has the calls `ss` pending with `u` values of the pool, and the `m` calls `ds`.
  pub record Waits (k u m : ℕ) (ss ds : List (Cmd W (Unit {0}))) (f : Frame W) : Type 0 where
    pub copies : f.static_len ≡ k
    pub pool : f.pool_used ≡ u
    pub held : AreHeld f k ss
    pub count : f.dyn_len ≡ m
    pub waiting : dyns f.dyn_defers f.dyn_defer_args f.dyn_len ≡ ds

  pub pending-Waits :
      {k u m : ℕ} {ss ds : List (Cmd W (Unit {0}))} (f : Frame W)
      → Waits k u m ss ds f
      → pending f ≡ ss ++ ds
  pending-Waits f v = rw (v.copies, statics-AreHeld f v.held, v.waiting) refl

  pub Waits-push_dyn :
      {k u m : ℕ} {ss ds : List (Cmd W (Unit {0}))} (f : Frame W) (h : Handle W) (x : ℕ)
      → Waits k u m ss ds f
      → Waits k u (suc m) ss (h (addr x) ∷ ds) (push_dyn f h x)
  Waits-push_dyn f h x v = record {
    copies = v.copies;
    pool = v.pool;
    held = AreHeld-push_dyn f h x v.held;
    count = add-one f.dyn_len ∙ ap suc v.count;
    waiting = dyns-push_dyn f h x ∙ ap (λ cs. h (addr x) ∷ cs) v.waiting;
  }

  pub Waits-push_static :
      {k u m : ℕ} {ss ds : List (Cmd W (Unit {0}))} (f : Frame W) (h : Handle W) (size : ℕ)
      (arg : ℕ → ℕ)
      → u + size ≤ 48
      → IsLocal h size
      → Waits k u m ss ds f
      → Waits (suc k) (u + size) m (h (object arg) ∷ ss) ds (push_static f h size arg)
  Waits-push_static {k} {u} f h size arg fits local v =
      let room : f.pool_used + size ≤ 48 = rw v.pool fits in
      let new : Holds (push_static f h size arg) k h size arg =
        rw (sym v.copies) (push_static-new f h size arg room) in
      record {
        copies = add-one f.static_len ∙ ap suc v.copies;
        pool = ground (arith, v.pool);
        held = one_held new local (AreHeld-push_static f h size arg room v.held);
        count = v.count;
        waiting = v.waiting;
      }
