-- ===== src/Filesystem/Alloc.antt =====
-- Allocation with an error code: src/filesystem/filesystem.c, emalloc.
use prom.Prelude.{
  sym, ap, ◌∙◌, none, some, update, ◌≤◌, ℕ, ◌<◌, ◌≡◌, ◌≢◌, refl, true, false, ==_false, update_ne,
  arith,
}
use prom.Machine.{ok}
use prom.Machine.Returns.{Returns, returns}
use prom.Memory.{Block, World, null, malloc, place, refuse, fresh_block}
use prom.Errm.State.{Frame, Sys, not_enough_memory}
use prom.Errm.Ops.{edf_static_func1, errm_error}
use prom.Errm.Cleanup.{pending, run_all}
use prom.Errm.Scope.{IsEmpty, IsBalanced, entered, entered-IsBalanced, edf_call_lem}
use prom.Filesystem.{emalloc, emalloc_body}

-- A call at depth `n` that began in `s` has ended in `t`: the stack of deferred calls is back at
-- its depth, and the frames of the callers are untouched.
pub record IsBack (n : ℕ) (s t : Sys World) : Type 0 where
  pub balanced : IsBalanced n t
  pub callers : (k : ℕ) → k < n → t.stack k ≡ s.stack k

-- The memory that the program may ask for: every request is granted, 0 is no address of a block,
-- and from the next address on nothing is live.
pub record IsRoomy (w : World) : Type 0 where
  pub next_pos : w.next ≢ 0
  pub granted : (i : ℕ) → w.grants i ≡ true
  pub unused : (a : ℕ) → w.next ≤ a → w.heap a ≡ none

-- A world that differs in the heap alone.
pub IsRoomy-heap :
    (v w : World)
    → IsRoomy v
    → w ≡ record v { heap = w.heap }
    → ((a : ℕ) → v.next ≤ a → w.heap a ≡ none)
    → IsRoomy w
IsRoomy-heap v w r kept unused = record {
  next_pos = λ e. r.next_pos (sym (ap (λ z. z.next) kept) ∙ e);
  granted = λ i. ap (λ z. z.grants i) kept ∙ r.granted i;
  unused = λ a le. unused a (rw (sym (ap (λ z. z.next) kept)) le);
}

-- What a call at depth `n` that began in `s` and made the block `made` leaves, if it ended in `t`
-- with the address `p` and without an error: that block alone, besides what was live before, and
-- no call that the trace records.
pub record Leaves (n : ℕ) (s : Sys World) (made : Block) (p : ℕ) (t : Sys World) : Type 0 where
  pub err_code : t.err_code ≡ 0
  pub fresh : s.world.next ≤ p
  pub heap : (a : ℕ) → t.world.heap a ≡ update s.world.heap p (some made) a
  pub roomy : IsRoomy t.world
  pub trace : t.world.trace ≡ s.world.trace
  pub back : IsBack n s t

pub pending-IsEmpty : (f : Frame World) (w : World) → IsEmpty f → run_all (pending f) w ≡ ok tt w
pending-IsEmpty f w e = rw (e.no_statics, e.no_dyns)

module _ (n : ℕ) (s : Sys World) (size : ℕ) (lt : n < 12) (b : IsBalanced n s) where
  -- Called fewer than 12 functions deep on a balanced stack, a granted emalloc returns a fresh
  -- block of the size, with no error, and the stack of deferred calls is as its caller left it.
  pub emalloc_granted :
      s.world.next ≢ 0
      → s.world.grants s.world.allocs ≡ true
      → Returns
          (λ p t.
            (p ≡ s.world.next)
            × (t.world ≡ place s.world size (fresh_block size))
            × (t.err_code ≡ 0)
            × IsBack n s t)
          (emalloc size s)
  unfolding emalloc edf_static_func1 malloc
  emalloc_granted pos' granted =
      let e = entered-IsBalanced n s b in
      let r =
        edf_call_lem n (emalloc_body size) s {r = s.world.next}
          {s' = record (entered n s) { world = place s.world size (fresh_block size) }} lt b
          (simp (granted, ==_false s.world.next 0 pos')) (record { depth = refl; idle = e.0.idle })
          (pending-IsEmpty (s.stack n) (place s.world size (fresh_block size)) e.1) in
      rw (r.0) (
        returns (
          refl,
          refl,
          refl,
          record { balanced = r.1; callers = λ k below. update_ne s.stack n _ k (omega arith) },
        ))

  -- Called fewer than 12 functions deep on a balanced stack, a refused emalloc returns NULL with
  -- the error for want of memory, and the stack of deferred calls is as its caller left it.
  pub emalloc_refused :
      s.world.grants s.world.allocs ≡ false
      → Returns
          (λ p t.
            (p ≡ null)
            × (t.world ≡ refuse s.world)
            × (t.err_code ≡ not_enough_memory)
            × IsBack n s t)
          (emalloc size s)
  unfolding emalloc edf_static_func1 malloc errm_error
  emalloc_refused refused =
      let e = entered-IsBalanced n s b in
      let r =
        edf_call_lem n (emalloc_body size) s {r = null}
          {s' = record (entered n s) { err_code = 2; world = refuse s.world }} lt b (simp refused)
          (record { depth = refl; idle = e.0.idle })
          (pending-IsEmpty (s.stack n) (refuse s.world) e.1) in
      rw (r.0) (
        returns (
          refl,
          refl,
          refl,
          record { balanced = r.1; callers = λ k below. update_ne s.stack n _ k (omega arith) },
        ))
