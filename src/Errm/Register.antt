-- ===== src/Errm/Register.antt =====
-- Registering a deferred call: src/errm/errm.c, static_defer and defer.
use prom.Prelude.{
  ℕ, zero, suc, ◌+◌, ◌≤◌, ◌<◌, ◌≡◌, refl, ap, ◌∷◌, ◌++◌, arith, update, some, update_self,
  update_ne, le→leb, lt→leb,
}
use native.Mathlib.Numerals.{add-one}
use prom.Machine.{ok, aborted}
use prom.Errm.State.{addr, Handle, Frame, Sys}
use prom.Errm.Ops.{push_static, push_dyn, static_defer, defer, at_curr, put_frame, slot}
use prom.Errm.Cleanup.{dyns, statics, pending}

-- A frame within its bounds.
pub record IsFrame {W : Type 0} (f : Frame W) : Type 0 where
  pub statics_fit : f.static_len ≤ 6
  pub dyns_fit : f.dyn_len ≤ 12
  pub pool_fits : f.pool_used ≤ 48

-- Entry `k` of the static table is the call of `handle` on a copy of the `size` values of `arg`,
-- which lies inside the used part of the pool.
pub record Holds {W : Type 0} (f : Frame W) (k : ℕ) (handle : Handle W) (size : ℕ) (arg : ℕ → ℕ)
    : Type 0 where
  pub listed : k < f.static_len
  pub handler : f.static_defers k ≡ handle
  pub inside : f.static_defer_args k + size ≤ f.pool_used
  pub copied : (j : ℕ) → j < size → f.pool_data (f.static_defer_args k + j) ≡ arg j

module _ {W : Type 0} where
  dyns-update :
      (d : ℕ → Handle W) (a : ℕ → ℕ) (m : ℕ) (h : Handle W) (x n : ℕ)
      → n ≤ m
      → dyns (update d m h) (update a m x) n ≡ dyns d a n
  dyns-update d a m h x zero le = refl
  dyns-update d a m h x (suc n) le = rw (
    update_ne d m h n (omega arith),
    update_ne a m x n (omega arith),
    dyns-update d a m h x n (omega arith),
  )

  pub dyns-push_dyn :
      (f : Frame W) (h : Handle W) (x : ℕ)
      → dyns (push_dyn f h x).dyn_defers (push_dyn f h x).dyn_defer_args (push_dyn f h x).dyn_len
        ≡ h (addr x) ∷ dyns f.dyn_defers f.dyn_defer_args f.dyn_len
  dyns-push_dyn f h x =
      rw (add-one, dyns)
        (rw (
          update_self f.dyn_defers f.dyn_len h,
          update_self f.dyn_defer_args f.dyn_len x,
          dyns-update f.dyn_defers f.dyn_defer_args f.dyn_len h x f.dyn_len (omega arith),
        ))

  pub pending-push_dyn :
      (f : Frame W) (h : Handle W) (x : ℕ)
      → pending (push_dyn f h x)
        ≡ statics f.static_defers f.static_defer_args f.pool_data f.static_len
          ++ h (addr x) ∷ dyns f.dyn_defers f.dyn_defer_args f.dyn_len
  pending-push_dyn f h x =
      ap (λ cs. statics f.static_defers f.static_defer_args f.pool_data f.static_len ++ cs)
        (dyns-push_dyn f h x)

  pub defer_ok :
      (s : Sys W) (i : ℕ) (h : Handle W) (x : ℕ)
      → slot s.curr ≡ some i
      → (s.stack i).dyn_len < 12
      → defer h x s ≡ ok tt (put_frame i s (push_dyn (s.stack i) h x, s.world))
  unfolding defer
  defer_ok s i h x at lt = rw (at, at_curr, lt→leb 12 (s.stack i).dyn_len lt)

  -- With fewer than 12 dynamic calls pending in the current frame, defer returns and makes its
  -- call the newest dynamic one; the frame stays within its bounds.
  pending-defer :
      (s : Sys W) (i : ℕ) (h : Handle W) (x : ℕ)
      → slot s.curr ≡ some i
      → IsFrame (s.stack i)
      → (s.stack i).dyn_len < 12
      → (g : Frame W) × (defer h x s ≡ ok tt (put_frame i s (g, s.world)))
        × (pending g
            ≡ statics
                (s.stack i).static_defers
                (s.stack i).static_defer_args
                (s.stack i).pool_data
                (s.stack i).static_len
              ++ h (addr x)
                ∷ dyns (s.stack i).dyn_defers (s.stack i).dyn_defer_args (s.stack i).dyn_len)
        × IsFrame g
  pending-defer s i h x at v lt = (
    push_dyn (s.stack i) h x,
    defer_ok s i h x at lt,
    pending-push_dyn (s.stack i) h x,
    omega arith,
  )

  -- With 12 dynamic calls pending, defer aborts.
  defer_full :
      (s : Sys W) (i : ℕ) (h : Handle W) (x : ℕ)
      → slot s.curr ≡ some i
      → 12 ≤ (s.stack i).dyn_len
      → defer h x s ≡ aborted
  unfolding defer
  defer_full s i h x at le = rw (at, at_curr, le→leb 12 (s.stack i).dyn_len le)

  pub static_defer_ok :
      (s : Sys W) (i : ℕ) (h : Handle W) (size : ℕ) (arg : ℕ → ℕ)
      → slot s.curr ≡ some i
      → (s.stack i).static_len < 6
      → (s.stack i).pool_used + size ≤ 48
      → static_defer h size arg s
        ≡ ok tt (put_frame i s (push_static (s.stack i) h size arg, s.world))
  unfolding static_defer
  static_defer_ok s i h size arg at lt fits = rw (at, at_curr) (ground arith)

  -- The entry that static_defer has just written.
  pub push_static-new :
      (f : Frame W) (h : Handle W) (size : ℕ) (arg : ℕ → ℕ)
      → f.pool_used + size ≤ 48
      → Holds (push_static f h size arg) f.static_len h size arg
  push_static-new f h size arg fits = record {
    listed = omega arith;
    handler = update_self f.static_defers f.static_len h;
    inside = ground arith;
    copied = λ j p. ground arith;
  }

  -- With room for one more static call and for its object, static_defer returns, the frame
  -- stays within its bounds, and its new entry is the call of the handler on a copy of the
  -- object.
  static_defer-Holds :
      (s : Sys W) (i : ℕ) (h : Handle W) (size : ℕ) (arg : ℕ → ℕ)
      → slot s.curr ≡ some i
      → IsFrame (s.stack i)
      → (s.stack i).static_len < 6
      → (s.stack i).pool_used + size ≤ 48
      → (g : Frame W) × (static_defer h size arg s ≡ ok tt (put_frame i s (g, s.world)))
        × IsFrame g
        × Holds g (s.stack i).static_len h size arg
  static_defer-Holds s i h size arg at v lt fits = (
    push_static (s.stack i) h size arg,
    static_defer_ok s i h size arg at lt fits,
    omega arith,
    push_static-new (s.stack i) h size arg fits,
  )

  -- What static_defer writes leaves every earlier entry with its handler and its object, when the
  -- new object fits the pool.
  pub push_static-Holds :
      (f : Frame W) (h : Handle W) (size : ℕ) (arg : ℕ → ℕ) {k : ℕ} {h' : Handle W} {size' : ℕ}
      {arg' : ℕ → ℕ}
      → f.pool_used + size ≤ 48
      → Holds f k h' size' arg'
      → Holds (push_static f h size arg) k h' size' arg'
  push_static-Holds f h size arg {k} fits v = record {
    listed = omega arith;
    handler = ground arith;
    inside = ground arith;
    copied = λ j p. ground (arith, v.copied j);
  }
