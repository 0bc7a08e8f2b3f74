-- ===== src/Filesystem/Wanting.antt =====
-- Expanding a path when memory is refused: src/filesystem/filesystem.c, expand.
use prom.Prelude.{
  ℕ, suc, ◌+◌, ◌<◌, ◌≡◌, ◌≢◌, refl, ◌∙◌, false, none, some, List, ◌∷◌, length, ==_false, update_ne,
  update_self, arith, lt→ltb,
}
use prom.Prelude.Bytes.{Bytes}
use prom.Machine.{Run, ok}
use prom.Machine.Returns
use prom.Machine.Returns.{Returns, returns}
use prom.Memory.{World, null, free, place, refuse, fresh_block, drop_block}
use prom.Errm.State.{Sys, not_enough_memory}
use prom.Errm.Ops.{edf_call, edf_static_func1, static_defer, put_frame, push_static}
use prom.Errm.Register.{static_defer_ok}
use prom.Errm.Scope.{IsBalanced, entered, edf_call_lem}
use prom.Filesystem.{wordfree, wordexp_t, first_word, expand, expand_body}
use prom.Filesystem.System.{Os}
use prom.Filesystem.Alloc.{IsBack, emalloc_refused}
use prom.Filesystem.Expand.{wordfree-pending}

-- What a call at depth `n` that began in `s` leaves, if it ended in `t` with NULL for want of
-- memory.
pub record IsWanting (n : ℕ) (s : Sys World) (p : ℕ) (t : Sys World) : Type 0 where
  pub no_result : p ≡ null
  pub err_code : t.err_code ≡ not_enough_memory
  pub heap : (a : ℕ) → t.world.heap a ≡ s.world.heap a
  pub back : IsBack n s t

module _ (os : Os) (n : ℕ) (s : Sys World) (lt : n < 11) (b : IsBalanced n s)
    (next_pos : s.world.next ≢ 0) (unused : s.world.heap s.world.next ≡ none)
    (refused : s.world.grants (suc s.world.allocs) ≡ false) where
  abbrev worded : World
  worded = place s.world 0 (fresh_block 0)

  -- The state behind the static_defer of expand.
  abbrev registered : Sys World
  registered =
      put_frame n (entered n s)
        (push_static (s.stack n) wordfree 24 (wordexp_t s.world.next), worded)

  registered-IsBalanced : IsBalanced (suc n) registered
  registered-IsBalanced = record { depth = refl; idle = λ k le. ground (arith, b.idle k) }

  abbrev Refused : ℕ → Sys World → Type 0
  Refused p t =
      (p ≡ null)
      × (t.world ≡ refuse worded)
      × (t.err_code ≡ not_enough_memory)
      × IsBack (suc n) registered t

  first_word-Refused :
      (word : Bytes) (words : List Bytes)
      → Returns Refused (first_word os (word ∷ words) registered)
  first_word-Refused word words =
      Returns.bind
        (emalloc_refused (suc n) registered (length word + 1) (omega arith) registered-IsBalanced
          refused)
        λ p t q. simp (q.2) (returns (refl, q.1, q.2, q.3))

  static_defer-registered :
      static_defer wordfree 24 (wordexp_t s.world.next) (record (entered n s) { world = worded })
      ≡ ok tt registered
  static_defer-registered =
      static_defer_ok (record (entered n s) { world = worded }) n wordfree 24
        (wordexp_t s.world.next) (rw (lt→ltb n 12 (omega arith))) (ground (arith, b.idle n))
        (ground (arith, b.idle n))

  free-words : free s.world.next (refuse worded) ≡ ok tt (drop_block s.world.next (refuse worded))
  unfolding free
  free-words = rw (==_false s.world.next 0 next_pos) (ground arith)

  -- If wordexp finds words and the request for the copy of the first of them is refused, then
  -- expand, called fewer than 11 functions deep on a balanced stack, returns NULL with the error
  -- for want of memory; what wordexp allocated has been given back, every address holds what it
  -- held before, and the stack of deferred calls is as its caller left it.
  pub expand_refused :
      (path word : Bytes) (words : List Bytes)
      → os.wordexp s.world.trace path ≡ some (word ∷ words)
      → Returns (IsWanting n s) (expand os path s)
  unfolding expand edf_static_func1
  expand_refused path word words found = go _ (first_word-Refused word words) refl
    where
      go :
          (r : Run (Sys World) ℕ)
          → Returns Refused r
          → first_word os (word ∷ words) registered ≡ r
          → Returns (IsWanting n s) (edf_call (expand_body os path) s)
      go r (returns {a = p} {s = t} q) e =
          let call =
            edf_call_lem n (expand_body os path) s {r = p} {s' = t}
              {w = drop_block s.world.next (refuse worded)} (omega arith) b
              (rw found (rw static_defer-registered e)) (q.3.balanced)
              (rw (q.3.callers n (omega arith) ∙ update_self s.stack n _, q.1)
                (wordfree-pending (s.stack n) s.world.next (refuse worded) (b.idle n (omega arith))
                  free-words)) in
          rw (call.0) (
            returns (record {
              no_result = q.0;
              err_code = q.2;
              heap = λ a. ground (arith, unused);
              back = record {
                balanced = call.1;
                callers = λ k below.
                    update_ne t.stack n _ k (omega arith)
                    ∙ q.3.callers k (omega arith)
                    ∙ update_ne s.stack n _ k (omega arith);
              };
            }))
