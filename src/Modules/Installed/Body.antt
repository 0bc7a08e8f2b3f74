-- ===== src/Modules/Installed/Body.antt =====
-- The body of installed_mods up to its loop, and what the deferred call leaves of it:
-- src/modules/mods.c.
use prom.Prelude.{
  ℕ, suc, ◌+◌, ◌≤◌, ◌<◌, ◌≡◌, refl, ap, ◌∙◌, ◌==◌, if◌then◌else◌, ltb, Option, none, List, [],
  length, arith, update, update_ne, update_self, ==_false, lt→ltb,
}
use native.Mathlib.Nat.{add-zero}
use prom.Prelude.Bytes.{Bytes}
use prom.Machine.{ok, pure, ◌>>=◌, ◌>>◌}
use prom.Machine.Returns
use prom.Machine.Returns.{Returns, returns}
use prom.Memory.{Block, World, null, place}
use prom.Errm.State.{Sys, not_enough_memory}
use prom.Errm.Ops.{errm_error, edf_call, defer, put_frame, push_dyn, on_error_return}
use prom.Errm.Scope.{IsBalanced, entered, left_by, edf_call_lem}
use prom.Dga.{dga_new}
use prom.Dga.Laws.{new_block, dga_new_lem}
use prom.Filesystem.{P, lift}
use prom.Filesystem.Alloc.{IsRoomy, IsBack}
use prom.Filesystem.Content.{Content}
use prom.Filesystem.Dir.{dir_content}
use prom.Filesystem.Dir.Listing.{listed}
use prom.Filesystem.Held.{handle-pending, on_error_return-ok}
use prom.Filesystem.Relative.{defer_first}
use prom.Filesystem.System.{Os}
use prom.Modules.Lists.{Listed, free_mod_names, free_mod_names_handle, install_all, mod_names}
use prom.Modules.Names.{shown, listed-onto, length-onto, free_names}
use prom.Modules.Grows.{Grows}

module _ (os : Os) (path : Bytes) (n : ℕ) (s : Sys World) (lt : n < 8) (b : IsBalanced n s)
    (room : IsRoomy s.world) (entries : List Bytes) (len_ret : ℕ) where
  abbrev pub names : List Bytes
  names = listed entries []

  -- What installed_mods does with the names.
  abbrev pub use_names : ℕ → ℕ → P Listed
  use_names all_mod_names len = do
    defer free_mod_names_handle all_mod_names
    all_mods ← lift (dga_new 0 56)
    if all_mods == null
        then (errm_error not_enough_memory >> pure (null, len_ret))
        else install_all os path len 0 all_mod_names all_mods len_ret

  abbrev pub installed_body : P Listed
  installed_body = do
    (all_mod_names, len) ← mod_names os path 0
    on_error_return (null, len_ret) (use_names all_mod_names len)

  pub length-names : length names ≡ length (shown entries)
  length-names =
      ap length (listed-onto entries [])
      ∙ length-onto (shown entries) []
      ∙ add-zero (length (shown entries))

  module _ (r : ℕ × ℕ) (t : Sys World) (c : Content (suc n) (entered n s) names r t) where
    -- The states behind the defer and behind dga_new.
    abbrev pub registered : Sys World
    registered = put_frame n t (push_dyn (t.stack n) free_mod_names_handle (c.array + 24), t.world)

    abbrev pub begun : Sys World
    begun = record registered { world = place t.world 24 (new_block 0 56) }

    same_frame : t.stack n ≡ s.stack n
    same_frame = c.back.callers n (omega arith)

    deferred : defer free_mod_names_handle (c.array + 24) t ≡ ok tt registered
    unfolding defer
    deferred =
        defer_first n t free_mod_names_handle (c.array + 24)
          (rw (c.back.balanced.depth, lt→ltb n 12 (omega arith)) refl)
          (rw same_frame (b.idle n (omega arith)))

    pub begun-Grows : Grows t.world [] t.world.next begun.world
    begun-Grows = record {
      block = new_block 0 56;
      array = (dga_new_lem t.world 0 56 c.roomy.next_pos (c.roomy.granted _) (omega arith)).1;
      room = omega arith;
      behind = omega arith;
      heap = λ a. refl;
      cells = tt;
      roomy = record {
        next_pos = omega arith;
        granted = c.roomy.granted;
        unused = λ a le. ground (arith, c.roomy.unused a);
      };
    }

    using :
        use_names (c.array + 24) (length names) t
        ≡ install_all os path (length names) 0 (c.array + 24) (t.world.next + 24) len_ret begun
    using =
        rw
          (
            deferred,
            (dga_new_lem t.world 0 56 c.roomy.next_pos (c.roomy.granted _) (omega arith)).0,
            ==_false (t.world.next + 24) 0 (omega arith),
          )
          refl

    pub body-runs :
        {r' : ℕ × ℕ} {u : Sys World}
        → dir_content os path 0 (entered n s) ≡ ok r t
        → install_all os path
            (length (shown entries))
            0
            (c.array + 24)
            (t.world.next + 24)
            len_ret
            begun
          ≡ ok r' u
        → installed_body (entered n s) ≡ ok r' u
    unfolding mod_names
    body-runs lists runs =
        rw (lists, c.result)
          (on_error_return-ok t (null, len_ret) (use_names (c.array + 24) (length names)) c.err_code
            ∙ using
            ∙ rw length-names runs)

    module _ (q : ℕ) (beside : Option Block) (e x : ℕ) (v : World) (behind : t.world.next ≤ q)
        (heap : (a : ℕ) → v.heap a ≡ update t.world.heap q beside a) where
      -- The state in which the loop ended.
      abbrev pub ended : Sys World
      ended = record begun { err_code = e; errno = x; world = v }

      ended-IsBalanced : IsBalanced (suc n) ended
      ended-IsBalanced = record {
        depth = c.back.balanced.depth;
        idle = λ k le. ground (arith, c.back.balanced.idle k);
      }

      heap-found :
          (a : ℕ)
          → (if ltb a t.world.next
              then (if ltb a s.world.next then t.world.heap a else none)
              else v.heap a)
            ≡ update s.world.heap q beside a
      heap-found a =
          ground
            (arith, heap a, c.kept a, room.unused a, c.roomy.unused a, c.lists.low, c.lists.below)

      -- The deferred call gives the names back.
      pub leaving :
          {r' : ℕ × ℕ} (body : P Listed)
          → body (entered n s) ≡ ok r' ended
          → (w : World) × (edf_call body s ≡ ok r' (left_by n ended w))
            × IsBack n s (left_by n ended w)
            × ((a : ℕ) → w.heap a ≡ update s.world.heap q beside a)
            × (w ≡ record v { heap = w.heap })
      unfolding free_mod_names
      leaving {r'} body runs =
          let (_, w, frees, (freed, same)) = Returns.reached (
            free_names s.world.next t.world c.array names c.lists v
              λ a below. heap a ∙ update_ne t.world.heap q beside a (omega arith)) in
          let call =
            edf_call_lem n body s {r = r'} {s' = ended} {w = w} (omega arith) b runs
              ended-IsBalanced
              (rw (update_self t.stack n _, same_frame)
                (handle-pending (s.stack n) free_mod_names_handle (c.array + 24) v
                  (b.idle n (omega arith)) frees)) in
          (
            w,
            call.0,
            record {
              balanced = call.1;
              callers = λ k low.
                  update_ne (update t.stack n _) n _ k (omega arith)
                  ∙ update_ne t.stack n _ k (omega arith)
                  ∙ c.back.callers k (omega arith);
            },
            λ a. freed a ∙ heap-found a,
            same,
          )
