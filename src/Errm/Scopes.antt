-- ===== src/Errm/Scopes.antt =====
-- Nested scopes of deferred calls: functions of src/errm/errm.h's macros that call each other, run
-- on the stack of src/errm/errm.c, beside a meaning that has no stack.
pub mod Waits
pub mod Between
pub mod Agrees
use prom.Prelude.{◌≡◌, ◌≤◌, ◌+◌, ◌++◌, ℕ, suc, ◌<◌, List, [], ◌∷◌, ◌==◌, if◌then◌else◌}
use prom.Machine.{Cmd, ok, and_then, zoom, zoom_run, ◌>>◌}
use prom.Errm.State.{addr, object, Handle, Sys}
use prom.Errm.Ops.{errm_error, on_error_return, defer, static_defer, edf_call}
use prom.Errm.Cleanup.{run_all}

-- The body of an edf function, as the steps it takes.
pub data Body (W : Type 0) : Type 0 where
  done : Body W
  -- work on the world
  act : Cmd W (Unit {0}) → Body W → Body W
  -- defer(handle, arg)
  later : Handle W → ℕ → Body W → Body W
  -- static_defer(handle, size, arg)
  later_copy : Handle W → ℕ → (ℕ → ℕ) → Body W → Body W
  -- errm = code
  fails : ℕ → Body W → Body W
  -- on_error_return()
  unless_errored : Body W → Body W
  -- the call of another edf function
  calls : Body W → Body W → Body W

module _ {W : Type 0} where
  -- The body as the C code runs it.
  pub run_body : Body W → Cmd (Sys W) (Unit {0})
  run_body done = ok tt
  run_body (act c b) = zoom (λ s. s.world) (λ s w. record s { world = w }) c >> run_body b
  run_body (later h x b) = defer h x >> run_body b
  run_body (later_copy h size arg b) = static_defer h size arg >> run_body b
  run_body (fails c b) = errm_error c >> run_body b
  run_body (unless_errored b) = let rest = run_body b in on_error_return tt rest
  run_body (calls c b) = edf_call (run_body c) >> run_body b

  -- What the body is meant to do, on the error code and the world alone: `ss` and `ds` are the
  -- calls that it has deferred so far, with copied objects and with addresses, each with the newest
  -- first. They are made where it ends, those with copied objects first, before its caller goes on.
  unfoldable pub ends : List (Cmd W (Unit {0})) → List (Cmd W (Unit {0})) → Cmd (ℕ × W) (Unit {0})
  ends ss ds (e, w) = zoom_run (λ w'. (e, w')) (run_all (ss ++ ds) w)

  unfoldable pub meaning :
      Body W → List (Cmd W (Unit {0})) → List (Cmd W (Unit {0})) → Cmd (ℕ × W) (Unit {0})
  meaning done ss ds (e, w) = ends ss ds (e, w)
  meaning (act c b) ss ds (e, w) = and_then (zoom_run (λ w'. (e, w')) (c w)) (λ _. meaning b ss ds)
  meaning (later h x b) ss ds (e, w) = meaning b ss (h (addr x) ∷ ds) (e, w)
  meaning (later_copy h size arg b) ss ds (e, w) = meaning b (h (object arg) ∷ ss) ds (e, w)
  meaning (fails c b) ss ds (e, w) = meaning b ss ds (c, w)
  meaning (unless_errored b) ss ds (e, w) =
      let rest = meaning b ss ds (e, w) in if e == 0 then rest else ends ss ds (e, w)
  meaning (calls c b) ss ds (e, w) = and_then (meaning c [] [] (0, w)) (λ _. meaning b ss ds)

  -- A handler reads no more of its object than the `size` values that were copied.
  abbrev pub IsLocal : Handle W → ℕ → Type 0
  IsLocal h size = (o o' : ℕ → ℕ) → ((j : ℕ) → j < size → o j ≡ o' j) → h (object o) ≡ h (object o')

  -- With `n` edf functions running above this one, which has deferred `k` calls with copied
  -- objects, of size `u` together, and `m` with addresses, no call is nested more than 12 deep, no
  -- function defers more than 6 calls of the first kind, of size 48 together, or more than 12 of
  -- the second, and handlers read no more than the objects that were copied.
  pub data Fits : ℕ → ℕ → ℕ → ℕ → Body W → Type 0 where
    fits_done : {n k u m : ℕ} → Fits n k u m done
    fits_act :
        {n k u m : ℕ} {c : Cmd W (Unit {0})} {b : Body W} → Fits n k u m b → Fits n k u m (act c b)
    fits_later :
        {n k u m : ℕ} {h : Handle W} {x : ℕ} {b : Body W}
        → m < 12
        → Fits n k u (suc m) b
        → Fits n k u m (later h x b)
    fits_later_copy :
        {n k u m : ℕ} {h : Handle W} {size : ℕ} {arg : ℕ → ℕ} {b : Body W}
        → k < 6
        → u + size ≤ 48
        → IsLocal h size
        → Fits n (suc k) (u + size) m b
        → Fits n k u m (later_copy h size arg b)
    fits_fails : {n k u m c : ℕ} {b : Body W} → Fits n k u m b → Fits n k u m (fails c b)
    fits_unless : {n k u m : ℕ} {b : Body W} → Fits n k u m b → Fits n k u m (unless_errored b)
    fits_calls :
        {n k u m : ℕ} {c b : Body W}
        → suc n < 12
        → Fits (suc n) 0 0 0 c
        → Fits n k u m b
        → Fits n k u m (calls c b)
