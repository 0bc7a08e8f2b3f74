-- ===== src/Filesystem/Expand.antt =====
-- Expanding a path: src/filesystem/filesystem.c, expand.
use prom.Prelude.{
  ℕ, suc, ◌+◌, ◌<◌, ◌≡◌, refl, ◌∙◌, some, List, ◌∷◌, length, ==_false, update_ne, update_self,
  arith, update, lt→ltb,
}
use prom.Prelude.Bytes.{Bytes}
use prom.Machine.{Run, ok}
use prom.Machine.Returns
use prom.Machine.Returns.{Returns, returns}
use prom.Memory.{World, free, place, fresh_block, drop_block}
use prom.Memory.Laws.{text_block, strcpy_fresh}
use prom.Errm.State.{Frame, Sys}
use prom.Errm.Ops.{edf_call, edf_static_func1, static_defer, put_frame, push_static}
use prom.Errm.Cleanup.{pending, run_all}
use prom.Errm.Register.{static_defer_ok}
use prom.Errm.Scope.{IsEmpty, IsBalanced, entered, edf_call_lem}
use prom.Filesystem.{wordfree, wordexp_t, first_word, expand, expand_body}
use prom.Filesystem.System.{Os}
use prom.Filesystem.Alloc.{IsRoomy, Leaves, IsBack, emalloc_granted}

-- An edf function with one handler pending: the object that wordfree gets.
pub wordfree-pending :
    (f : Frame World) (v : ℕ) (w : World) {w' : World}
    → IsEmpty f
    → free v w ≡ ok tt w'
    → run_all (pending (push_static f wordfree 24 (wordexp_t v))) w ≡ ok tt w'
wordfree-pending f v w e frees = rw (e.no_statics, e.no_dyns, e.no_pool) (rw frees)

module _ (os : Os) (n : ℕ) (s : Sys World) (lt : n < 11) (b : IsBalanced n s)
    (room : IsRoomy s.world) where
  abbrev len : Bytes → ℕ
  len word = length word + 1

  -- The world after the block of words, and after the copy of the first word.
  abbrev world_1 : World
  world_1 = place s.world 0 (fresh_block 0)

  abbrev world_2 : Bytes → World
  world_2 word = place world_1 (len word) (text_block (len word) word)

  -- The state behind the static_defer of expand.
  abbrev registered : Sys World
  registered =
      put_frame n (entered n s)
        (push_static (s.stack n) wordfree 24 (wordexp_t s.world.next), world_1)

  registered-IsBalanced : IsBalanced (suc n) registered
  registered-IsBalanced = record { depth = refl; idle = λ k le. ground (arith, b.idle k) }

  -- Behind it: the copy of the word, with no error.
  first_word-copied :
      (word : Bytes) (words : List Bytes)
      → Returns
          (λ p t.
            (p ≡ world_1.next)
            × (t.world ≡ world_2 word)
            × (t.err_code ≡ 0)
            × IsBack (suc n) registered t)
          (first_word os (word ∷ words) registered)
  first_word-copied word words =
      Returns.bind
        (emalloc_granted (suc n) registered (len word) (omega arith) registered-IsBalanced
          (omega arith) (room.granted _))
        λ p t q.
          simp (q.2, q.1, q.0, strcpy_fresh world_1 (len word) word (omega arith))
            (returns (
              refl,
              refl,
              refl,
              record {
                balanced = record { depth = q.3.balanced.depth; idle = q.3.balanced.idle };
                callers = q.3.callers;
              },
            ))

  static_defer-registered :
      static_defer wordfree 24 (wordexp_t s.world.next) (record (entered n s) { world = world_1 })
      ≡ ok tt registered
  static_defer-registered =
      static_defer_ok (record (entered n s) { world = world_1 }) n wordfree 24
        (wordexp_t s.world.next) (rw (lt→ltb n 12 (omega arith))) (ground (arith, b.idle n))
        (ground (arith, b.idle n))

  free-words :
      (word : Bytes)
      → free s.world.next (world_2 word) ≡ ok tt (drop_block s.world.next (world_2 word))
  unfolding free
  free-words word = rw (==_false s.world.next 0 room.next_pos) (ground arith)

  caller-frame :
      {t : Sys World}
      → IsBack (suc n) registered t
      → n < 11
      → t.stack n ≡ push_static (s.stack n) wordfree 24 (wordexp_t s.world.next)
  caller-frame back small = back.callers n (omega arith) ∙ update_self s.stack n _

  heap-expanded :
      (word : Bytes) (a : ℕ)
      → (drop_block s.world.next (world_2 word)).heap a
        ≡ update s.world.heap world_1.next (some (text_block (len word) word)) a
  heap-expanded word a = ground (arith, room.unused a)

  roomy-expanded : (word : Bytes) → IsRoomy (drop_block s.world.next (world_2 word))
  roomy-expanded word = record {
    next_pos = ground arith;
    granted = room.granted;
    unused = λ a le. ground (arith, room.unused a);
  }

  -- If memory is granted and wordexp finds words, then expand, called fewer than 11 functions
  -- deep on a balanced stack, returns a fresh string that is the first of them, with no error;
  -- what wordexp allocated has been given back, every block that was live before is untouched,
  -- and the stack of deferred calls is as its caller left it.
  pub expand_lem :
      (path word : Bytes) (words : List Bytes)
      → os.wordexp s.world.trace path ≡ some (word ∷ words)
      → Returns (Leaves n s (text_block (len word) word)) (expand os path s)
  unfolding expand edf_static_func1
  expand_lem path word words found = go _ (first_word-copied word words) refl
    where
      go :
          (r : Run (Sys World) ℕ)
          → Returns
              (λ p t.
                (p ≡ world_1.next)
                × (t.world ≡ world_2 word)
                × (t.err_code ≡ 0)
                × IsBack (suc n) registered t)
              r
          → first_word os (word ∷ words) registered ≡ r
          → Returns (Leaves n s (text_block (len word) word)) (edf_call (expand_body os path) s)
      go r (returns {a = p} {s = t} q) e =
          let call =
            edf_call_lem n (expand_body os path) s {r = p} {s' = t}
              {w = drop_block s.world.next (world_2 word)} (omega arith) b
              (rw found (rw static_defer-registered e)) (q.3.balanced)
              (rw (caller-frame q.3 lt, q.1)
                (wordfree-pending (s.stack n) s.world.next (world_2 word) (b.idle n (omega arith))
                  (free-words word))) in
          rw (call.0) (
            returns (record {
              err_code = q.2;
              fresh = omega (arith, q.0);
              heap = λ a. rw q.0 (heap-expanded word a);
              roomy = roomy-expanded word;
              trace = refl;
              back = record {
                balanced = call.1;
                callers = λ k below.
                    update_ne t.stack n _ k (omega arith)
                    ∙ q.3.callers k (omega arith)
                    ∙ update_ne s.stack n _ k (omega arith);
              };
            }))
