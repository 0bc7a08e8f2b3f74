-- ===== src/Filesystem/Unopened.antt =====
-- Directories that do not open: src/filesystem/filesystem.c, open_dir, and
-- errm_error_from_errno of src/errm/errm.c.
use prom.Prelude.{
  Bool, true, false, ℕ, suc, ◌+◌, ◌<◌, ◌≡◌, refl, ◌∙◌, some, List, ◌∷◌, length, arith, update_ne,
  ==_false, if◌then◌else◌, ◌==◌,
}
use prom.Prelude.Bytes.{Bytes}
use prom.Machine.{Run, ok, ◌>>=◌, ◌>>◌}
use prom.Machine.Returns.{Returns, returns}
use prom.Memory.{null, Block, World, Call, text_at, block_at, free, drop_block}
use prom.Memory.Laws.{text_block}
use prom.Errm.State.{Sys}
use prom.Errm.Ops.{edf_static_func1, defer, on_error_return, errm_error_from_errno, errm_error}
use prom.Errm.Scope.{IsBalanced, entered, entered-IsBalanced, edf_call_lem}
use prom.Filesystem.{lift, P, expand, open_dir, on_opened, free_handle}
use prom.Filesystem.System.{Os, refused}
use prom.Filesystem.Alloc.{IsRoomy, IsBack}
use prom.Filesystem.Expand.{expand_lem}
use prom.Filesystem.Held.{
  Got, held, block_live, block_not_null, deferred, held-frame, held-callers, held-IsBalanced,
  handle-pending, on_error_return-ok,
}

-- The errors for the values of errno, as errno(3) numbers them; the others have none.
abbrev pub error_of : ℕ → ℕ
error_of e =
    if e == 13
    then 1
    else if e == 23
    then 5
    else if e == 2
    then 4
    else if e == 20
    then 3
    else if e == 12
    then 2
    else 0

-- What a call at depth `n` that began in `s` leaves, if it ended in `t` with NULL because of
-- `errno`.
pub record IsUnopened (n : ℕ) (s : Sys World) (errno p : ℕ) (t : Sys World) : Type 0 where
  pub no_result : p ≡ null
  pub err_code : t.err_code ≡ error_of errno
  pub heap : (a : ℕ) → t.world.heap a ≡ s.world.heap a
  pub back : IsBack n s t

with_code :
    (b : Bool) (c d : ℕ) (s : Sys World) (r : Run (Sys World) (Unit {0}))
    → r ≡ ok tt (record s { err_code = d })
    → (if b then ok tt (record s { err_code = c }) else r)
      ≡ ok tt (record s { err_code = if b then c else d })
with_code true c d s r e = refl
with_code false c d s r e = e

from_errno-error_of :
    (s : Sys World)
    → s.err_code ≡ 0
    → errm_error_from_errno s ≡ ok tt (record s { err_code = error_of s.errno })
unfolding errm_error_from_errno errm_error
from_errno-error_of s none' = with_code (s.errno == 13) 1 _ s _ (
    with_code (s.errno == 23) 5 _ s _ (
      with_code (s.errno == 2) 4 _ s _
        (with_code (s.errno == 20) 3 _ s _ (with_code (s.errno == 12) 2 0 s _ (rw none' refl)))))

module _ (os : Os) (n : ℕ) (s : Sys World) (lt : n < 10) (b : IsBalanced n s)
    (room : IsRoomy s.world) (path word : Bytes) (errno : ℕ) where
  abbrev word_block : Block
  word_block = text_block (length word + 1) word

  abbrev Expanded : ℕ → Sys World → Type 0
  Expanded = Got n s lt b room word_block free_handle

  abbrev registered : ℕ → Sys World → Sys World
  registered = held n s lt b room word_block free_handle

  -- The state behind errm_error_from_errno.
  abbrev marked : ℕ → Sys World → Sys World
  marked p t = record (registered p t) { errno = errno; err_code = error_of errno }

  -- What open_dir does with the word.
  abbrev use_word : ℕ → P ℕ
  use_word p = do
    defer free_handle p
    text ← lift (text_at p)
    λ s. on_opened os (os.opendir s.world.trace text) s

  abbrev open_body : P ℕ
  open_body = do expanded_path ← expand os path; on_error_return null (use_word expanded_path)

  using :
      {p : ℕ} {t : Sys World}
      → Expanded p t
      → ((trace : List Call) → os.opendir trace word ≡ refused errno)
      → use_word p t ≡ ok null (marked p t)
  unfolding text_at
  using {p} {t} q fails =
      rw
        (
          deferred n s lt b room word_block free_handle q,
          block_at,
          block_live n s lt b room word_block free_handle q,
          fails t.world.trace,
          from_errno-error_of (record (registered p t) { errno = errno }) q.err_code,
        )
        refl

  marked-IsBack :
      {p : ℕ} {t : Sys World} → Expanded p t → IsBack (suc n) (registered p t) (marked p t)
  marked-IsBack q =
      let v = held-IsBalanced n s lt b room word_block free_handle q in
      record { balanced = record { depth = v.depth; idle = v.idle }; callers = λ k below. refl }

  free-word : {p : ℕ} {t : Sys World} → Expanded p t → free p t.world ≡ ok tt (drop_block p t.world)
  unfolding free
  free-word {p} {t} q =
      rw
        (
          ==_false p 0 (block_not_null n s lt b room word_block free_handle q),
          block_at,
          block_live n s lt b room word_block free_handle q,
        )
        refl

  -- If memory is granted, the path expands to words and opendir fails on the first of them, then
  -- open_dir, called fewer than 10 functions deep on a balanced stack, returns NULL, with the
  -- error that belongs to errno, and with none if errno is not one of EACCES, ENFILE, ENOENT,
  -- ENOTDIR and ENOMEM; every address holds what it held before, and the stack of deferred calls
  -- is as its caller left it.
  pub open_dir_refused :
      (words : List Bytes)
      → os.wordexp s.world.trace path ≡ some (word ∷ words)
      → ((trace : List Call) → os.opendir trace word ≡ refused errno)
      → Returns (IsUnopened n s errno) (open_dir os path s)
  unfolding open_dir edf_static_func1
  open_dir_refused words found fails =
      go _
        (expand_lem os (suc n) (entered n s) (omega arith) ((entered-IsBalanced n s b).0) room path
          word words found)
        refl
    where
      go :
          (r : Run (Sys World) ℕ)
          → Returns Expanded r
          → expand os path (entered n s) ≡ r
          → Returns (IsUnopened n s errno) (open_dir os path s)
      go r (returns {a = p} {s = t} q) e =
          let back = marked-IsBack q in
          let call =
            edf_call_lem n open_body s {r = null} {s' = marked p t} {w = drop_block p t.world}
              (omega arith) b
              (rw e (on_error_return-ok t null (use_word p) q.err_code ∙ using q fails))
              back.balanced
              (rw (held-frame n s lt b room word_block free_handle q back) (
                handle-pending (s.stack n) free_handle p t.world (b.idle n (omega arith))
                  (free-word q))) in
          rw (call.0) (
            returns (record {
              no_result = refl;
              err_code = refl;
              heap = λ a. ground (arith, q.heap a, q.fresh, room.unused a);
              back = record {
                balanced = call.1;
                callers = λ k below.
                    update_ne (marked p t).stack n _ k (omega arith)
                    ∙ held-callers n s lt b room word_block free_handle k q back below;
              };
            }))
