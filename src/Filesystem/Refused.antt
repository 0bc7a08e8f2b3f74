-- ===== src/Filesystem/Refused.antt =====
-- Paths that do not parse: src/filesystem/filesystem.c, expand and abs_path.
use prom.Prelude.{ℕ, suc, ◌<◌, ◌≡◌, refl, ◌∙◌, none, arith, update_ne}
use prom.Prelude.Bytes.{Bytes}
use prom.Machine.{Run}
use prom.Machine.Returns.{Returns, returns}
use prom.Memory.{World, null}
use prom.Errm.State.{Sys, parsing_error}
use prom.Errm.Ops.{edf_call, edf_func1, edf_static_func1, errm_error}
use prom.Errm.Scope.{IsBalanced, entered, entered-IsBalanced, edf_call_lem}
use prom.Filesystem.{expand, expand_body, abs_path, abs_path_body}
use prom.Filesystem.System.{Os}
use prom.Filesystem.Alloc.{IsBack, pending-IsEmpty}

-- What a call at depth `n` that began in `s` leaves, if it ended in `t` with NULL for a path that
-- does not parse.
pub record IsRefused (n : ℕ) (s : Sys World) (p : ℕ) (t : Sys World) : Type 0 where
  pub no_result : p ≡ null
  pub err_code : t.err_code ≡ parsing_error
  pub world : t.world ≡ s.world
  pub back : IsBack n s t

module _ (os : Os) (path : Bytes) where
  expand_unparsed :
      (n : ℕ) (s : Sys World)
      → n < 12
      → IsBalanced n s
      → os.wordexp s.world.trace path ≡ none
      → Returns (IsRefused n s) (expand os path s)
  unfolding expand edf_static_func1 errm_error
  expand_unparsed n s lt b refused =
      let e = entered-IsBalanced n s b in
      let call =
        edf_call_lem n (expand_body os path) s {r = null}
          {s' = record (entered n s) { err_code = 6 }} lt b (rw refused refl)
          (record { depth = refl; idle = e.0.idle }) (pending-IsEmpty (s.stack n) s.world e.1) in
      rw (call.0) (
        returns (record {
          no_result = refl;
          err_code = refl;
          world = refl;
          back = record {
            balanced = call.1;
            callers = λ k small. update_ne s.stack n _ k (omega arith);
          };
        }))

  -- If wordexp refuses the path, then abs_path, called fewer than 11 functions deep on a balanced
  -- stack, returns NULL with the error for a path that does not parse, and the memory and the
  -- stack of deferred calls are as its caller left them.
  pub abs_path_unparsed :
      (n : ℕ) (s : Sys World)
      → n < 11
      → IsBalanced n s
      → os.wordexp s.world.trace path ≡ none
      → Returns (IsRefused n s) (abs_path os path s)
  unfolding abs_path edf_func1
  abs_path_unparsed n s lt b refused =
      go _
        (expand_unparsed (suc n) (entered n s) (omega arith) ((entered-IsBalanced n s b).0) refused)
        refl
    where
      go :
          (r : Run (Sys World) ℕ)
          → Returns (IsRefused (suc n) (entered n s)) r
          → expand os path (entered n s) ≡ r
          → Returns (IsRefused n s) (edf_call (abs_path_body os path) s)
      go r (returns {a = p} {s = t} q) e =
          let call =
            edf_call_lem n (abs_path_body os path) s {r = null} {s' = t} {w = t.world} (omega arith)
              b (rw (e, q.err_code) refl) (q.back.balanced)
              (rw (q.back.callers n (omega arith))
                (pending-IsEmpty (s.stack n) t.world (b.idle n (omega arith)))) in
          rw (call.0) (
            returns (record {
              no_result = refl;
              err_code = q.err_code;
              world = q.world;
              back = record {
                balanced = call.1;
                callers = λ k small.
                    update_ne t.stack n _ k (omega arith) ∙ q.back.callers k (omega arith);
              };
            }))
