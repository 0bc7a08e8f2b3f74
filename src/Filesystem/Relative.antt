-- ===== src/Filesystem/Relative.antt =====
-- Paths below the working directory: src/filesystem/filesystem.c, abs_path_from_relative.
use prom.Prelude.{
  ℕ, suc, ◌+◌, ◌<◌, ◌≡◌, ◌≢◌, refl, ◌∙◌, some, ◌∷◌, ◌++◌, length, length-append, update_ne,
  update_self, ==_false, arith, update, lt→ltb, lt→leb,
}
use prom.Prelude.Bytes.{Bytes}
use prom.Machine.{Run, ok}
use prom.Machine.Returns
use prom.Machine.Returns.{Returns, returns}
use prom.Memory.{Block, World, free, text_at, block_at, place, fresh_block, drop_block}
use prom.Memory.Laws.{text_block, snprintf_fresh}
use prom.Errm.State.{Frame, Handle, Sys}
use prom.Errm.Ops.{edf_call, edf_static_func1, defer, push_dyn, put_frame, at_curr, slot}
use prom.Errm.Cleanup.{pending, run_all}
use prom.Errm.Register.{pending-push_dyn}
use prom.Errm.Scope.{IsEmpty, IsBalanced, entered, edf_call_lem}
use prom.Filesystem.{abs_path_from_relative, from_relative_body, on_cwd, free_handle}
use prom.Filesystem.System.{Os}
use prom.Filesystem.Alloc.{IsBack, IsRoomy, Leaves, emalloc_granted}

-- Registering a call in an empty frame of the running function.
pub defer_first :
    (n : ℕ) (s : Sys World) (h : Handle World) (x : ℕ)
    → slot s.curr ≡ some n
    → IsEmpty (s.stack n)
    → defer h x s ≡ ok tt (put_frame n s (push_dyn (s.stack n) h x, s.world))
unfolding defer
defer_first n s h x at e =
    rw (at, at_curr, lt→leb 12 (s.stack n).dyn_len (omega (arith, e.no_dyns))) refl

-- A frame with one address to free pending.
pub free-pending :
    (f : Frame World) (x : ℕ) (w : World) {w' : World}
    → IsEmpty f
    → free x w ≡ ok tt w'
    → run_all (pending (push_dyn f free_handle x)) w ≡ ok tt w'
free-pending f x w e frees =
    rw (pending-push_dyn f free_handle x, e.no_statics, e.no_dyns) (rw frees refl)

-- The path below a directory.
abbrev pub below : Bytes → Bytes → Bytes
below dir relative = dir ++ b'/' ∷ relative

-- The size of the buffer for it.
abbrev pub below_len : Bytes → Bytes → ℕ
below_len dir relative = length relative + 4 + length dir + 4

module _ (os : Os) (n : ℕ) (s : Sys World) (lt : n < 11) (b : IsBalanced n s)
    (room : IsRoomy s.world) (dir relative : Bytes) where
  abbrev world_1 : World
  world_1 =
      place s.world (length dir + 1) (record (fresh_block (length dir + 1)) { text = some dir })

  abbrev world_2 : World
  world_2 =
      place world_1 (below_len dir relative)
        (text_block (below_len dir relative) (below dir relative))

  abbrev registered : Sys World
  registered =
      put_frame n (record (entered n s) { world = world_1 })
        (push_dyn (s.stack n) free_handle s.world.next, world_1)

  registered-IsBalanced : IsBalanced (suc n) registered
  registered-IsBalanced = record { depth = refl; idle = λ k le. ground (arith, b.idle k) }

  defer-registered :
      defer free_handle s.world.next (record (entered n s) { world = world_1 }) ≡ ok tt registered
  defer-registered =
      defer_first n (record (entered n s) { world = world_1 }) free_handle s.world.next
        (rw (lt→ltb n 12 (omega arith)) refl) (b.idle n (omega arith))

  abbrev Copied : ℕ → Sys World → Type 0
  Copied p t =
      (p ≡ world_1.next) × (t.world ≡ world_2) × (t.err_code ≡ 0) × IsBack (suc n) registered t

  fits : length (below dir relative) < below_len dir relative
  fits = omega (arith, length-append dir (b'/' ∷ relative))

  apart : (path : ℕ) (blk : Block) → s.world.heap path ≡ some blk → s.world.next ≢ path
  apart path blk live = ground (arith, room.unused path)

  path-read :
      (path : ℕ) (blk : Block)
      → s.world.heap path ≡ some blk
      → blk.text ≡ some relative
      → text_at path world_1 ≡ ok relative world_1
  unfolding text_at
  path-read path blk live text =
      rw (block_at, update_ne s.world.heap s.world.next _ path (apart path blk live), live)
        (rw text refl)

  free-dir : free s.world.next world_2 ≡ ok tt (drop_block s.world.next world_2)
  unfolding free
  free-dir = rw (==_false s.world.next 0 room.next_pos) (ground arith)

  heap-below :
      (a : ℕ)
      → (drop_block s.world.next world_2).heap a
        ≡ update s.world.heap world_1.next
            (some (text_block (below_len dir relative) (below dir relative)))
            a
  heap-below a = ground (arith, room.unused a)

  roomy-below : IsRoomy (drop_block s.world.next world_2)
  roomy-below = record {
    next_pos = ground arith;
    granted = room.granted;
    unused = λ a le. ground (arith, room.unused a);
  }

  caller-frame :
      {t : Sys World}
      → IsBack (suc n) registered t
      → t.stack n ≡ push_dyn (s.stack n) free_handle s.world.next
  caller-frame back = back.callers n (omega arith) ∙ update_self s.stack n _

  copied :
      (path : ℕ) (blk : Block)
      → s.world.heap path ≡ some blk
      → blk.text ≡ some relative
      → Returns Copied (on_cwd os path (some dir) (entered n s))
  copied path blk live text =
      rw (defer-registered, path-read path blk live text)
        (Returns.bind
          (emalloc_granted (suc n) registered (below_len dir relative) (omega arith)
            registered-IsBalanced (omega arith) (room.granted _))
          λ p t q.
            simp
              (
                q.2,
                q.1,
                q.0,
                snprintf_fresh world_1 (below_len dir relative) (below dir relative) fits,
              )
              (returns (
                refl,
                refl,
                refl,
                record {
                  balanced = record { depth = q.3.balanced.depth; idle = q.3.balanced.idle };
                  callers = q.3.callers;
                },
              )))

  -- If memory is granted, the pointer is that of a live string, and there is a working
  -- directory, then abs_path_from_relative, called fewer than 11 functions deep on a balanced
  -- stack, returns a fresh string that is the directory, a slash and the string, with no error;
  -- the copy of the directory has been given back, every block that was live before is
  -- untouched, and the stack of deferred calls is as its caller left it.
  pub abs_path_from_relative_lem :
      (path : ℕ) (blk : Block)
      → s.world.heap path ≡ some blk
      → blk.text ≡ some relative
      → os.getcwd s.world.trace ≡ some dir
      → Returns
          (Leaves n s (text_block (below_len dir relative) (below dir relative)))
          (abs_path_from_relative os path s)
  unfolding abs_path_from_relative edf_static_func1
  abs_path_from_relative_lem path blk live text cwd = go _ (copied path blk live text) refl
    where
      go :
          (r : Run (Sys World) ℕ)
          → Returns Copied r
          → on_cwd os path (some dir) (entered n s) ≡ r
          → Returns
              (Leaves n s (text_block (below_len dir relative) (below dir relative)))
              (edf_call (from_relative_body os path) s)
      go r (returns {a = p} {s = t} q) e =
          let call =
            edf_call_lem n (from_relative_body os path) s {r = p} {s' = t}
              {w = drop_block s.world.next world_2} (omega arith) b (rw cwd e) (q.3.balanced)
              (rw (caller-frame q.3, q.1)
                (free-pending (s.stack n) s.world.next world_2 (b.idle n (omega arith))
                  free-dir)) in
          rw (call.0) (
            returns (record {
              err_code = q.2;
              fresh = omega (arith, q.0);
              heap = λ a. rw q.0 (heap-below a);
              roomy = roomy-below;
              trace = refl;
              back = record {
                balanced = call.1;
                callers = λ k small.
                    update_ne t.stack n _ k (omega arith)
                    ∙ q.3.callers k (omega arith)
                    ∙ update_ne s.stack n _ k (omega arith);
              };
            }))
