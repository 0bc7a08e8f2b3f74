-- ===== src/Filesystem/Joined.antt =====
-- Paths that expand to a relative path: src/filesystem/filesystem.c, abs_path.
use prom.Prelude.{
  ℕ, suc, ◌+◌, ◌<◌, ◌≡◌, refl, ◌∙◌, false, some, List, ◌∷◌, if◌then◌else◌, length, arith,
}
use prom.Prelude.Bytes.{Bytes}
use prom.Machine.{Run, ok, pure, ◌>>=◌, ◌>>◌}
use prom.Machine.Returns.{Returns, returns}
use prom.Memory.{null, Block, World, Call, text_at, block_at}
use prom.Memory.Laws.{text_block}
use prom.Errm.State.{Sys}
use prom.Errm.Ops.{edf_call, edf_func1, defer}
use prom.Errm.Scope.{IsBalanced, entered, entered-IsBalanced}
use prom.Filesystem.{
  lift, P, is_absolute, expand, abs_path, abs_path_body, abs_path_from_relative, free_handle,
}
use prom.Filesystem.System.{Os}
use prom.Filesystem.Alloc.{IsRoomy, Leaves}
use prom.Filesystem.Expand.{expand_lem}
use prom.Filesystem.Relative.{below, below_len, abs_path_from_relative_lem}
use prom.Filesystem.Held.{
  Got, held, block_live, deferred, held-IsBalanced, finished, on_error_return-ok,
}

module _ (os : Os) (n : ℕ) (s : Sys World) (lt : n < 10) (b : IsBalanced n s)
    (room : IsRoomy s.world) (dir path word : Bytes) where
  abbrev made : Block
  made = text_block (below_len dir word) (below dir word)

  abbrev word_block : Block
  word_block = text_block (length word + 1) word

  abbrev Expanded : ℕ → Sys World → Type 0
  Expanded = Got n s lt b room word_block free_handle

  abbrev registered : ℕ → Sys World → Sys World
  registered = held n s lt b room word_block free_handle

  -- What abs_path does with the word.
  abbrev join : ℕ → P ℕ
  join p = do
    text ← lift (text_at p)
    if is_absolute os text then pure p else do defer free_handle p; abs_path_from_relative os p

  joining :
      {p : ℕ} {t : Sys World}
      → Expanded p t
      → is_absolute os word ≡ false
      → join p t ≡ abs_path_from_relative os p (registered p t)
  unfolding text_at
  joining q relative =
      rw
        (
          block_at,
          block_live n s lt b room word_block free_handle q,
          relative,
          deferred n s lt b room word_block free_handle q,
        )
        refl

  -- If memory is granted, there is a working directory that no call changes, and the path
  -- expands to words the first of which does not begin with a slash, then abs_path, called fewer
  -- than 10 functions deep on a balanced stack, returns a fresh string that is the directory, a
  -- slash and that word, with no error; the word and the copy of the directory have been given
  -- back, every block that was live before is untouched, and the stack of deferred calls is as
  -- its caller left it.
  pub abs_path_relative :
      (words : List Bytes)
      → os.wordexp s.world.trace path ≡ some (word ∷ words)
      → is_absolute os word ≡ false
      → ((t : List Call) → os.getcwd t ≡ some dir)
      → Returns (Leaves n s (text_block (below_len dir word) (below dir word))) (abs_path os path s)
  unfolding abs_path edf_func1
  abs_path_relative words found relative cwd =
      go _
        (expand_lem os (suc n) (entered n s) (omega arith) ((entered-IsBalanced n s b).0) room path
          word words found)
        refl
    where
      last :
          {p : ℕ} {t : Sys World} (r : Run (Sys World) ℕ)
          → Expanded p t
          → expand os path (entered n s) ≡ ok p t
          → Returns (Leaves (suc n) (registered p t) made) r
          → abs_path_from_relative os p (registered p t) ≡ r
          → Returns (Leaves n s made) (edf_call (abs_path_body os path) s)
      last {p} {t} r q e (returns {a = p'} {s = t'} q') e' =
          finished n s lt b room word_block made (abs_path_body os path) q q'
            (rw e (on_error_return-ok t null (join p) q.err_code ∙ joining q relative ∙ e'))

      go :
          (r : Run (Sys World) ℕ)
          → Returns Expanded r
          → expand os path (entered n s) ≡ r
          → Returns (Leaves n s made) (edf_call (abs_path_body os path) s)
      go r (returns {a = p} {s = t} q) e =
          last _ q e
            (abs_path_from_relative_lem os (suc n) (registered p t) (omega arith)
              (held-IsBalanced n s lt b room word_block free_handle q) q.roomy dir word p _
              (block_live n s lt b room word_block free_handle q) refl (cwd t.world.trace))
            refl
