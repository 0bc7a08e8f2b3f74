-- ===== src/Errm/Scopes/Agrees.antt =====
-- The stack of deferred calls does what the scopes mean: src/errm/errm.c and src/errm/errm.h.
use prom.Prelude.{
  ℕ, suc, ◌++◌, ◌<◌, ◌≡◌, refl, ◌∙◌, ap, List, [], ◌==◌, arith, update_ne, Bool-cases, inl, inr,
}
use prom.Machine.{Run, aborted, faulted, exited, stuck, Cmd, ok, zoom_run, and_then-eq-ok}
use prom.Machine.Returns
use prom.Machine.Returns.{Returns, returns}
use prom.Errm.State.{Sys}
use prom.Errm.Ops.{errm_error, edf_call}
use prom.Errm.Cleanup.{pending, run_all}
use prom.Errm.Scope.{IsBalanced, entered, edf_call_lem}
use prom.Errm.Scopes.{
  Body, run_body, ends, meaning, Fits, fits_done, fits_act, fits_later, fits_later_copy, fits_fails,
  fits_unless, fits_calls,
}
use prom.Errm.Scopes.Between.{IsAt, defer-IsAt, static_defer-IsAt, starts, moved}
use prom.Errm.Scopes.Waits.{pending-Waits}

module _ {W : Type 0} where
  -- A body has run to its end, without touching the frames below its own; the calls that are
  -- pending then lead to the world `w`.
  record HasRun (n : ℕ) (s : Sys W) (err : ℕ) (w : W) (t : Sys W) : Type 0 where
    balanced : IsBalanced (suc n) t
    cleans : run_all (pending (t.stack n)) t.world ≡ ok tt w
    err_code : t.err_code ≡ err
    callers : (k : ℕ) → k < n → t.stack k ≡ s.stack k

  -- A function has returned to its caller, with the error `err` and in the world `w`.
  pub record HasReturned (n : ℕ) (s : Sys W) (err : ℕ) (w : W) (t : Sys W) : Type 0 where
    pub balanced : IsBalanced n t
    pub err_code : t.err_code ≡ err
    pub same_world : t.world ≡ w
    pub callers : (k : ℕ) → k < n → t.stack k ≡ s.stack k

  zoom_run-eq-ok :
      (r : Run W (Unit {0})) {e e' : ℕ} {w' : W}
      → zoom_run {S = ℕ × W} (λ w. (e, w)) r ≡ ok tt (e', w')
      → (r ≡ ok tt w') × (e ≡ e')
  zoom_run-eq-ok (ok u w) h = (ap (λ v. ok tt v) cc, cc)
  zoom_run-eq-ok aborted h = absurd cc
  zoom_run-eq-ok faulted h = absurd cc
  zoom_run-eq-ok (exited n s) h = absurd cc
  zoom_run-eq-ok stuck h = absurd cc

  -- A function whose body has run returns to its caller.
  call-HasReturned :
      (n : ℕ) (t : Sys W) (body : Cmd (Sys W) (Unit {0})) {err : ℕ} {w : W}
      → n < 12
      → IsBalanced n t
      → Returns (λ _ t'. HasRun n (entered n t) err w t') (body (entered n t))
      → Returns (λ _ t'. HasReturned n t err w t') (edf_call body t)
  call-HasReturned n t body {w = w} below b r =
      let (u, t', e, h) = Returns.reached r in
      let call = edf_call_lem n body t {r = tt} {s' = t'} {w = w} below b e h.balanced h.cleans in
      rw (call.0) (
        returns (record {
          balanced = call.1;
          err_code = h.err_code;
          same_world = refl;
          callers = λ k low. update_ne t'.stack n _ k (omega arith) ∙ h.callers k low;
        }))

  onwards :
      (n : ℕ) (t t' : Sys W) {err : ℕ} {w : W} {r : Run (Sys W) (Unit {0})}
      → ((k : ℕ) → k < n → t'.stack k ≡ t.stack k)
      → Returns (λ _ t''. HasRun n t' err w t'') r
      → Returns (λ _ t''. HasRun n t err w t'') r
  onwards n t t' same r = Returns.mono r λ _ t'' h. record {
    balanced = h.balanced;
    cleans = h.cleans;
    err_code = h.err_code;
    callers = λ k low. h.callers k low ∙ same k low;
  }

  ended :
      (n : ℕ) {k u m : ℕ} {ss ds : List (Cmd W (Unit {0}))} {err e' : ℕ} {w w' : W} (t : Sys W)
      → IsAt n k u m ss ds err w t
      → ends ss ds (err, w) ≡ ok tt (e', w')
      → HasRun n t e' w' t
  unfolding ends
  ended n {ss = ss} {ds} {w = w} t a h =
      let (runs, same) = zoom_run-eq-ok (run_all (ss ++ ds) w) h in
      record {
        balanced = a.balanced;
        cleans = rw (pending-Waits (t.stack n) a.waits, a.same_world) runs;
        err_code = a.err_code ∙ same;
        callers = λ j low. refl;
      }

  returned-IsAt :
      (n : ℕ) {k u m : ℕ} {ss ds : List (Cmd W (Unit {0}))} {err err' : ℕ} {w w' : W} (t t' : Sys W)
      → IsAt n k u m ss ds err w t
      → HasReturned (suc n) t err' w' t'
      → IsAt n k u m ss ds err' w' t'
  returned-IsAt n t t' a r = record {
    balanced = r.balanced;
    waits = rw (r.callers n (omega arith)) a.waits;
    err_code = r.err_code;
    same_world = r.same_world;
  }

  callers-returned :
      (n : ℕ) {err : ℕ} {w : W} (t t' : Sys W)
      → HasReturned (suc n) t err w t'
      → (k : ℕ) → k < n
      → t'.stack k ≡ t.stack k
  callers-returned n t t' r k low = r.callers k (omega arith)

  -- A body that fits, started in its frame, does what its meaning says.
  run_body-HasRun :
      {n k u m : ℕ} {b : Body W} {ss ds : List (Cmd W (Unit {0}))} {err e' : ℕ} {w w' : W}
      (t : Sys W)
      → n < 12
      → Fits n k u m b
      → IsAt n k u m ss ds err w t
      → meaning b ss ds (err, w) ≡ ok tt (e', w')
      → Returns (λ _ t'. HasRun n t e' w' t') (run_body b t)
  unfolding run_body meaning errm_error
  run_body-HasRun {n} t below fits_done a h = returns (ended n t a h)
  run_body-HasRun {n} {err = err} {w = w} t below (fits_act {c} {b} f) a h =
      let (v, (e1, w1), first, rest) =
        and_then-eq-ok (zoom_run {S = ℕ × W} (λ w'. (err, w')) (c w)) _ h in
      let (runs, same) = zoom_run-eq-ok (c w) first in
      rw (a.same_world, runs)
        (onwards n (record t { world = w }) (record t { world = w1 }) (λ k low. refl)
          (run_body-HasRun _ below f (moved t t.err_code w1 a (a.err_code ∙ same)) rest))
  run_body-HasRun {n} t below (fits_later {h = d} {x} lt f) a h =
      Returns.bind (defer-IsAt n d x t below lt a)
        λ _ t' (a', same). onwards n t t' same (run_body-HasRun t' below f a' h)
  run_body-HasRun {n} t below (fits_later_copy {h = d} {size} {arg} lt room local f) a h =
      Returns.bind (static_defer-IsAt n d size arg t below lt room local a)
        λ _ t' (a', same). onwards n t t' same (run_body-HasRun t' below f a' h)
  run_body-HasRun {n} t below (fits_fails {c} f) a h =
      onwards n t (record t { err_code = c }) (λ k low. refl)
        (run_body-HasRun _ below f (moved t c t.world a refl) (rw a.same_world h))
  run_body-HasRun {n} {err = err} {w = w} t below (fits_unless {b} f) a h =
      elim (Bool-cases (err == 0)) [
        | inl fine ↦
            rw (ap (λ c. c == 0) a.err_code ∙ fine) (run_body-HasRun t below f a (rw fine at h))
        | inr bad ↦ rw (ap (λ c. c == 0) a.err_code ∙ bad) (returns (ended n t a (rw bad at h)))
      ]
  run_body-HasRun {n} {ss = ss} {ds = ds} t below (fits_calls {c} {b} lt f g) a h =
      let (v, (e1, w1), first, rest) =
        and_then-eq-ok (meaning c [] [] (0, t.world)) (λ _. meaning b ss ds) (rw a.same_world h) in
      Returns.bind
        (call-HasReturned (suc n) t (run_body c) {err = e1} {w = w1} lt a.balanced
          (run_body-HasRun _ lt f (starts (suc n) t a.balanced) first))
        λ _ t' r.
          onwards n t t' (callers-returned n t t' r)
            (run_body-HasRun t' below g (returned-IsAt n t t' a r) rest)

  -- Called on a balanced stack, a function whose calls nest at most 12 deep, defer no more calls
  -- than a frame and its pool have room for, and use handlers that read no more than the objects
  -- that were copied, does what its meaning says: if that ends, the function returns, with that
  -- error code and in that world; every call that was deferred has been made, at the end of the
  -- function that deferred it, those with copied objects first and in each kind the newest first;
  -- the stack is balanced at the caller's depth, and the frames of the callers are untouched.
  pub edf_call-meaning :
      (n : ℕ) (b : Body W) (s : Sys W) {e : ℕ} {w : W}
      → n < 12
      → Fits n 0 0 0 b
      → IsBalanced n s
      → meaning b [] [] (0, s.world) ≡ ok tt (e, w)
      → Returns (λ _ t. HasReturned n s e w t) (edf_call (run_body b) s)
  edf_call-meaning n b s below f bal h =
      call-HasReturned n s (run_body b) below bal
        (run_body-HasRun (entered n s) below f (starts n s bal) h)
