-- ===== src/Filesystem/Content.antt =====
-- The contents of a directory: src/filesystem/filesystem.c, dir_content.
use prom.Prelude.{
  sym, ℕ, suc, ◌+◌, ◌*◌, ◌^◌, ◌<◌, ◌≡◌, refl, ap, ◌∙◌, none, some, List, [], ◌∷◌, length, arith,
  update_ne, ==_false,
}
use prom.Prelude.Bytes.{Bytes}
use prom.Machine.{Run, ok, ◌>>=◌, ◌>>◌}
use prom.Machine.Returns.{Returns, returns}
use prom.Memory.{null, World, Call, block_at, place, free, drop_block}
use prom.Errm.State.{Sys, addr}
use prom.Errm.Ops.{edf_call, edf_func2, defer}
use prom.Errm.Scope.{IsBalanced, entered, entered-IsBalanced, edf_call_lem}
use prom.Dga.{dga_new}
use prom.Dga.Laws.{new_block, dga_new_lem}
use prom.Filesystem.{lift, P, open_dir, close_dir}
use prom.Filesystem.Dir.{dir_content, read_names, readdir_all}
use prom.Filesystem.Dir.Listing.{listed, AreShort, read_names_lem}
use prom.Filesystem.Dir.Elements.{Lists, no_names, Lists-drop_block}
use prom.Filesystem.System.{Os, opened}
use prom.Filesystem.Alloc.{IsRoomy, IsBack}
use prom.Filesystem.Held.{
  Got, held, block_live, block_below, block_not_null, deferred, held-frame, held-callers,
  held-IsBalanced, handle-pending, on_error_return-ok,
}
use prom.Filesystem.Open.{stream, open_dir_lem}

-- What dir_content leaves, if it was called in `s` at depth `n` and ended in `t` with the pointer
-- and the length `r`: the names, in blocks that are new, every older block as it was, and the
-- directory closed.
pub record Content (n : ℕ) (s : Sys World) (names : List Bytes) (r : ℕ × ℕ) (t : Sys World)
    : Type 0 where
  pub array : ℕ
  pub result : r ≡ (array + 24, length names)
  pub lists : Lists s.world.next t.world array names
  pub err_code : t.err_code ≡ 0
  pub roomy : IsRoomy t.world
  pub trace : t.world.trace ≡ Call.closedir ∷ s.world.trace
  pub kept : (a : ℕ) → a < s.world.next → t.world.heap a ≡ s.world.heap a
  pub back : IsBack n s t

module _ (os : Os) (n : ℕ) (s : Sys World) (lt : n < 9) (b : IsBalanced n s)
    (room : IsRoomy s.world) (path word : Bytes) (entries : List Bytes) where
  small : n < 10
  small = omega arith

  abbrev Streamed : ℕ → Sys World → Type 0
  Streamed = Got n s small b room (stream entries) close_dir

  abbrev registered : ℕ → Sys World → Sys World
  registered = held n s small b room (stream entries) close_dir

  -- The state behind the first dga_new.
  abbrev begun : ℕ → Sys World → Sys World
  begun p t = record (registered p t) { world = place t.world 24 (new_block 0 8) }

  -- What dir_content does with the stream.
  abbrev use_stream : ℕ → P (ℕ × ℕ)
  use_stream dp = do
    defer close_dir dp
    names ← lift (dga_new 0 8)
    files ← lift (readdir_all dp)
    read_names files names 0

  using :
      {p : ℕ} {t : Sys World}
      → Streamed p t
      → use_stream p t ≡ read_names entries (t.world.next + 24) 0 (begun p t)
  using {p} {t} q =
      rw
        (
          deferred n s small b room (stream entries) close_dir q,
          (dga_new_lem t.world 0 8 q.roomy.next_pos (q.roomy.granted _) (omega arith)).0,
          block_at,
          update_ne t.world.heap t.world.next (some (new_block 0 8)) p
              (omega (arith, block_below n s small b room (stream entries) close_dir q)),
          block_live n s small b room (stream entries) close_dir q,
        )
        refl

  begun-Lists :
      {p : ℕ} {t : Sys World} → Streamed p t → Lists t.world.next (begun p t).world t.world.next []
  begun-Lists {p} {t} q = record {
    block = new_block 0 8;
    array = (dga_new_lem t.world 0 8 q.roomy.next_pos (q.roomy.granted _) (omega arith)).1;
    room = omega arith;
    low = omega arith;
    below = omega arith;
    ats = [];
    elements = no_names;
    only = λ a le ne. ground (arith, q.roomy.unused a);
  }

  begun-IsRoomy : {p : ℕ} {t : Sys World} → Streamed p t → IsRoomy (begun p t).world
  begun-IsRoomy {p} {t} q = record {
    next_pos = omega arith;
    granted = q.roomy.granted;
    unused = λ a le. ground (arith, q.roomy.unused a);
  }

  -- What the loop leaves.
  abbrev Read : ℕ → Sys World → ℕ × ℕ → Sys World → Type 0
  Read p t r u =
      (q : ℕ) × (r ≡ (q + 24, length (listed entries [])))
      × Lists t.world.next u.world q (listed entries [])
      × IsRoomy u.world
      × ((a : ℕ) → a < t.world.next → u.world.heap a ≡ (begun p t).world.heap a)
      × (u.world.trace ≡ t.world.trace)
      × (u ≡ record (begun p t) { world = u.world })

  -- The world behind closedir.
  abbrev closed : ℕ → Sys World → World
  closed p u = record (drop_block p u.world) { trace = Call.closedir ∷ u.world.trace }

  older :
      (p : ℕ) (t : Sys World) (r : ℕ × ℕ) (u : Sys World) (a : ℕ)
      → Read p t r u
      → a < t.world.next
      → u.world.heap a ≡ t.world.heap a
  older p t r u a (q, e, l, m, kept, trace, same) below =
      kept a below ∙ update_ne t.world.heap t.world.next _ a (omega arith)

  closing :
      (p : ℕ) (t : Sys World) (r : ℕ × ℕ) (u : Sys World)
      → Streamed p t
      → Read p t r u
      → close_dir (addr p) u.world ≡ ok tt (closed p u)
  unfolding free
  closing p t r u q d =
      rw
        (
          block_at,
          older p t r u p d (block_below n s small b room (stream entries) close_dir q),
          block_live n s small b room (stream entries) close_dir q,
          ==_false p 0 (block_not_null n s small b room (stream entries) close_dir q),
          older p t r u p d (block_below n s small b room (stream entries) close_dir q),
          block_live n s small b room (stream entries) close_dir q,
        )
        refl

  read-IsBack :
      (p : ℕ) (t : Sys World) (r : ℕ × ℕ) (u : Sys World)
      → Streamed p t
      → Read p t r u
      → IsBack (suc n) (registered p t) u
  read-IsBack p t r u q (_, e, l, m, kept, trace, same) =
      let v = held-IsBalanced n s small b room (stream entries) close_dir q in
      record {
        balanced = record {
          depth = ap (λ z. z.curr) same ∙ v.depth;
          idle = λ k le. rw (ap (λ z. z.stack k) same) (v.idle k le);
        };
        callers = λ k below. ap (λ z. z.stack k) same;
      }

  finish :
      {p : ℕ} {t : Sys World} {r : ℕ × ℕ} {u : Sys World} (body : P (ℕ × ℕ))
      → Streamed p t
      → Read p t r u
      → body (entered n s) ≡ ok r u
      → Returns (Content n s (listed entries [])) (edf_call body s)
  finish {p} {t} {r} {u} body q d e =
      let back = read-IsBack p t r u q d in
      let below = block_below n s small b room (stream entries) close_dir q in
      let call =
        edf_call_lem n body s {r = r} {s' = u} {w = closed p u} (omega arith) b e back.balanced (
          rw (held-frame n s small b room (stream entries) close_dir q back) (
            handle-pending (s.stack n) close_dir p u.world (b.idle n (omega arith))
              (closing p t r u q d))) in
      let (array, result, lists, roomy, kept, trace, same) = d in
      rw (call.0) (
        returns (record {
          array = array;
          result = result;
          lists =
              Lists-drop_block t.world.next s.world.next u.world p array (listed entries [])
                (Call.closedir ∷ u.world.trace) below (omega (arith, q.fresh))
                (λ a le lt' ne.
                  older p t r u a d lt'
                  ∙ q.heap a
                  ∙ update_ne s.world.heap p _ a (λ same'. ne (sym same'))
                  ∙ room.unused a le)
                lists;
          err_code = ap (λ z. z.err_code) same ∙ q.err_code;
          roomy = record {
            next_pos = roomy.next_pos;
            granted = roomy.granted;
            unused = λ a le. ground (arith, roomy.unused a);
          };
          trace = ap (λ calls. Call.closedir ∷ calls) (trace ∙ q.trace);
          kept = λ a lt'.
              update_ne u.world.heap p none a (omega (arith, q.fresh))
              ∙ older p t r u a d (omega (arith, q.fresh))
              ∙ q.heap a
              ∙ update_ne s.world.heap p _ a (omega (arith, q.fresh));
          back = record {
            balanced = call.1;
            callers = λ k under.
                update_ne u.stack n _ k (omega arith)
                ∙ held-callers n s small b room (stream entries) close_dir k q back under;
          };
        }))

  -- If memory is granted, the path expands to words, opendir opens the first of them and the
  -- sizes fit the machine's words, then dir_content, called fewer than 9 functions deep on a
  -- balanced stack, closes the directory and returns with no error a live array of those names of
  -- it that do not start with a dot, in its order, each in a new block, and their number; nothing
  -- else stays allocated, every block that was live before is untouched, and the stack of deferred
  -- calls is as its caller left it.
  pub dir_content_lem :
      (words : List Bytes) (len_ret : ℕ)
      → os.wordexp s.world.trace path ≡ some (word ∷ words)
      → ((trace : List Call) → os.opendir trace word ≡ opened entries)
      → 24 + 8 * length entries < 2 ^ 64
      → AreShort entries
      → Returns (Content n s (listed entries [])) (dir_content os path len_ret s)
  unfolding dir_content edf_func2
  dir_content_lem words len_ret found opens fits short =
      go _
        (open_dir_lem os (suc n) (entered n s) (omega arith) ((entered-IsBalanced n s b).0) room
          path word entries words found opens)
        refl
    where
      last :
          {p : ℕ} {t : Sys World} (r : Run (Sys World) (ℕ × ℕ))
          → Streamed p t
          → open_dir os path (entered n s) ≡ ok p t
          → Returns (Read p t) r
          → read_names entries (t.world.next + 24) 0 (begun p t) ≡ r
          → Returns (Content n s (listed entries [])) (dir_content os path len_ret s)
      last {p} {t} r q e (returns {a = r'} {s = u} d) e' =
          finish _ q d
            (rw e (on_error_return-ok t (null, len_ret) (use_stream p) q.err_code ∙ using q ∙ e'))

      go :
          (r : Run (Sys World) ℕ)
          → Returns Streamed r
          → open_dir os path (entered n s) ≡ r
          → Returns (Content n s (listed entries [])) (dir_content os path len_ret s)
      go r (returns {a = p} {s = t} q) e =
          last _ q e
            (read_names_lem t.world.next entries 0 t.world.next [] (begun p t) refl (begun-Lists q)
              (begun-IsRoomy q) (omega arith) short)
            refl
