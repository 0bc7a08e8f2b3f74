-- ===== src/Filesystem/Absolute.antt =====
-- Paths that expand to an absolute path: src/filesystem/filesystem.c, abs_path.
use prom.Prelude.{
  length, ℕ, suc, ◌+◌, ◌<◌, ◌≡◌, refl, ◌∙◌, true, some, List, ◌∷◌, update_ne, update_self, arith,
}
use prom.Prelude.Bytes.{Bytes}
use prom.Machine.{Run}
use prom.Machine.Returns.{Returns, returns}
use prom.Memory.{World, text_at, block_at}
use prom.Memory.Laws.{text_block}
use prom.Errm.State.{Sys}
use prom.Errm.Ops.{edf_call, edf_func1}
use prom.Errm.Scope.{IsBalanced, entered, entered-IsBalanced, edf_call_lem}
use prom.Filesystem.{is_absolute, expand, abs_path, abs_path_body}
use prom.Filesystem.System.{Os}
use prom.Filesystem.Alloc.{IsRoomy, Leaves, pending-IsEmpty}
use prom.Filesystem.Expand.{expand_lem}

module _ (os : Os) (n : ℕ) (s : Sys World) (lt : n < 10) (b : IsBalanced n s)
    (room : IsRoomy s.world) where
  -- If memory is granted and the path expands to words the first of which begins with a slash,
  -- then abs_path, called fewer than 10 functions deep on a balanced stack, returns a fresh
  -- string that is that word, with no error; every block that was live before is untouched,
  -- nothing else stays allocated, and the stack of deferred calls is as its caller left it.
  pub abs_path_absolute :
      (path word : Bytes) (words : List Bytes)
      → os.wordexp s.world.trace path ≡ some (word ∷ words)
      → is_absolute os word ≡ true
      → Returns (Leaves n s (text_block (length word + 1) word)) (abs_path os path s)
  unfolding abs_path edf_func1 text_at
  abs_path_absolute path word words found absolute =
      go _
        (expand_lem os (suc n) (entered n s) (omega arith) ((entered-IsBalanced n s b).0) room path
          word words found)
        refl
    where
      go :
          (r : Run (Sys World) ℕ)
          → Returns (Leaves (suc n) (entered n s) (text_block (length word + 1) word)) r
          → expand os path (entered n s) ≡ r
          → Returns
              (Leaves n s (text_block (length word + 1) word))
              (edf_call (abs_path_body os path) s)
      go r (returns {a = p} {s = t} q) e =
          let live : t.world.heap p ≡ some (text_block (length word + 1) word) =
            q.heap p ∙ update_self s.world.heap p _ in
          let call =
            edf_call_lem n (abs_path_body os path) s {r = p} {s' = t} {w = t.world} (omega arith) b
              (rw (e, q.err_code) (rw (block_at, live, absolute) refl)) (q.back.balanced)
              (rw (q.back.callers n (omega arith))
                (pending-IsEmpty (s.stack n) t.world (b.idle n (omega arith)))) in
          rw (call.0) (
            returns (record {
              err_code = q.err_code;
              fresh = q.fresh;
              heap = q.heap;
              roomy = q.roomy;
              trace = q.trace;
              back = record {
                balanced = call.1;
                callers = λ k below.
                    update_ne t.stack n _ k (omega arith) ∙ q.back.callers k (omega arith);
              };
            }))
