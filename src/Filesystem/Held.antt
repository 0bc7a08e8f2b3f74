-- ===== src/Filesystem/Held.antt =====
-- A block that a call hands out and whose release is deferred: src/filesystem/filesystem.c, the
-- functions that use expand and open_dir.
use prom.Prelude.{
  ap, ℕ, suc, ◌<◌, ◌≡◌, ◌≢◌, refl, ◌∙◌, some, update_ne, update_self, arith, update, ==_false,
  lt→ltb,
}
use prom.Machine.{ok}
use prom.Machine.Returns.{Returns, returns}
use prom.Memory.{Block, World, block_at, free, drop_block}
use prom.Errm.State.{Sys, Frame, Handle, addr}
use prom.Errm.Ops.{edf_call, put_frame, push_dyn, defer, on_error_return}
use prom.Errm.Cleanup.{pending, run_all}
use prom.Errm.Register.{pending-push_dyn}
use prom.Errm.Scope.{IsBalanced, IsEmpty, entered, edf_call_lem}
use prom.Filesystem.{P, free_handle}
use prom.Filesystem.Alloc.{IsRoomy, IsBack, Leaves}
use prom.Filesystem.Relative.{defer_first}

pub on_error_return-ok :
    {A : Type 0} (s : Sys World) (a : A) (rest : P A)
    → s.err_code ≡ 0
    → on_error_return a rest s ≡ rest s
on_error_return-ok s a rest none' = rw none' refl

-- A frame with one call pending.
pub handle-pending :
    (f : Frame World) (h : Handle World) (x : ℕ) (w : World) {w' : World}
    → IsEmpty f
    → h (addr x) w ≡ ok tt w'
    → run_all (pending (push_dyn f h x)) w ≡ ok tt w'
handle-pending f h x w e runs = rw (pending-push_dyn f h x, e.no_statics, e.no_dyns) (rw runs refl)

pub IsRoomy-drop_block : (p : ℕ) (w : World) → IsRoomy w → IsRoomy (drop_block p w)
IsRoomy-drop_block p w r = record {
  next_pos = r.next_pos;
  granted = r.granted;
  unused = λ a le. ground (arith, r.unused a);
}

module _ (n : ℕ) (s : Sys World) (lt : n < 10) (b : IsBalanced n s) (room : IsRoomy s.world)
    (block : Block) (h : Handle World) where
  -- What the call leaves, and the state behind the defer.
  abbrev pub Got : ℕ → Sys World → Type 0
  Got p t = Leaves (suc n) (entered n s) block p t

  abbrev pub held : ℕ → Sys World → Sys World
  held p t = put_frame n t (push_dyn (t.stack n) h p, t.world)

  pub block_live : {p : ℕ} {t : Sys World} → Got p t → t.world.heap p ≡ some block
  block_live {p} q = q.heap p ∙ update_self s.world.heap p _

  pub block_below : {p : ℕ} {t : Sys World} → Got p t → p < t.world.next
  block_below {p} q = ground (arith, block_live q, q.roomy.unused p)

  pub block_not_null : {p : ℕ} {t : Sys World} → Got p t → p ≢ 0
  block_not_null {p} q = ground (arith, room.next_pos, q.fresh)

  pub held-IsBalanced : {p : ℕ} {t : Sys World} → Got p t → IsBalanced (suc n) (held p t)
  held-IsBalanced q = record {
    depth = q.back.balanced.depth;
    idle = λ k le. ground (arith, q.back.balanced.idle k);
  }

  pub deferred : {p : ℕ} {t : Sys World} → Got p t → defer h p t ≡ ok tt (held p t)
  deferred {p} {t} q =
      defer_first n t h p (rw (q.back.balanced.depth, lt→ltb n 12 (omega arith)) refl)
        (rw (q.back.callers n (omega arith)) (b.idle n (omega arith)))

  pub held-frame :
      {p : ℕ} {t t' : Sys World}
      → Got p t
      → IsBack (suc n) (held p t) t'
      → t'.stack n ≡ push_dyn (s.stack n) h p
  held-frame {p} {t} q back =
      back.callers n (omega arith)
      ∙ update_self t.stack n _
      ∙ ap (λ f. push_dyn f h p) (q.back.callers n (omega arith))

  pub held-callers :
      {p : ℕ} {t t' : Sys World} (k : ℕ)
      → Got p t
      → IsBack (suc n) (held p t) t'
      → k < n
      → t'.stack k ≡ s.stack k
  held-callers {p} {t} k q back small =
      back.callers k (omega arith)
      ∙ update_ne t.stack n _ k (omega arith)
      ∙ q.back.callers k (omega arith)

module _ (n : ℕ) (s : Sys World) (lt : n < 10) (b : IsBalanced n s) (room : IsRoomy s.world)
    (block made : Block) where
  free-held :
      {p p' : ℕ} {t t' : Sys World}
      → Got n s lt b room block free_handle p t
      → Leaves (suc n) (held n s lt b room block free_handle p t) made p' t'
      → free p t'.world ≡ ok tt (drop_block p t'.world)
  unfolding free
  free-held {p} {p'} {t} q q' =
      rw
        (
          ==_false p 0 (block_not_null n s lt b room block free_handle q),
          block_at,
          q'.heap p,
          ==_false p' p (ground (arith, q'.fresh, block_below n s lt b room block free_handle q)),
          block_live n s lt b room block free_handle q,
        )
        refl

  heap-held :
      {p p' : ℕ} {t t' : Sys World}
      → Got n s lt b room block free_handle p t
      → Leaves (suc n) (held n s lt b room block free_handle p t) made p' t'
      → (a : ℕ) → (drop_block p t'.world).heap a ≡ update s.world.heap p' (some made) a
  heap-held {p} {p'} {t} q q' a = ground (
    arith,
    q'.heap a,
    q.heap a,
    room.unused a,
    q.fresh,
    q'.fresh,
    block_below n s lt b room block free_handle q,
  )

  -- An edf function whose body takes a block, defers its release, and then makes another block:
  -- that one alone is left.
  pub finished :
      {p p' : ℕ} {t t' : Sys World} (body : P ℕ)
      → Got n s lt b room block free_handle p t
      → Leaves (suc n) (held n s lt b room block free_handle p t) made p' t'
      → body (entered n s) ≡ ok p' t'
      → Returns (Leaves n s made) (edf_call body s)
  finished {p} {p'} {t} {t'} body q q' e =
      let call =
        edf_call_lem n body s {r = p'} {s' = t'} {w = drop_block p t'.world} (omega arith) b e
          (q'.back.balanced)
          (rw (held-frame n s lt b room block free_handle q q'.back) (
            handle-pending (s.stack n) free_handle p t'.world (b.idle n (omega arith))
              (free-held q q'))) in
      rw (call.0) (
        returns (record {
          err_code = q'.err_code;
          fresh = ground (arith, q.fresh, q'.fresh, block_below n s lt b room block free_handle q);
          heap = heap-held q q';
          roomy = IsRoomy-drop_block p t'.world q'.roomy;
          trace = q'.trace ∙ q.trace;
          back = record {
            balanced = call.1;
            callers = λ k small.
                update_ne t'.stack n _ k (omega arith)
                ∙ held-callers n s lt b room block free_handle k q q'.back small;
          };
        }))
