-- ===== src/Filesystem/Open.antt =====
-- Opening a directory: src/filesystem/filesystem.c, open_dir.
use prom.Prelude.{ℕ, suc, ◌+◌, ◌<◌, ◌≡◌, refl, ◌∙◌, some, List, ◌∷◌, length, arith}
use prom.Prelude.Bytes.{Bytes}
use prom.Machine.{Run, ok, ◌>>=◌, ◌>>◌}
use prom.Machine.Returns.{Returns, returns}
use prom.Memory.{null, Block, World, Call, text_at, block_at, place, fresh_block}
use prom.Memory.Laws.{text_block}
use prom.Errm.State.{Sys}
use prom.Errm.Ops.{edf_static_func1, defer}
use prom.Errm.Scope.{IsBalanced, entered, entered-IsBalanced}
use prom.Filesystem.{lift, P, expand, open_dir, on_opened, free_handle}
use prom.Filesystem.System.{Os, opened}
use prom.Filesystem.Alloc.{IsRoomy, Leaves}
use prom.Filesystem.Expand.{expand_lem}
use prom.Filesystem.Held.{
  Got, held, block_live, deferred, held-IsBalanced, finished, on_error_return-ok,
}

-- A directory stream that has some names to give.
abbrev pub stream : List Bytes → Block
stream entries = record (fresh_block 0) { entries = entries }

module _ (os : Os) (n : ℕ) (s : Sys World) (lt : n < 10) (b : IsBalanced n s)
    (room : IsRoomy s.world) (path word : Bytes) (entries : List Bytes) where
  abbrev word_block : Block
  word_block = text_block (length word + 1) word

  abbrev Expanded : ℕ → Sys World → Type 0
  Expanded = Got n s lt b room word_block free_handle

  abbrev registered : ℕ → Sys World → Sys World
  registered = held n s lt b room word_block free_handle

  -- The state behind opendir.
  abbrev streaming : ℕ → Sys World → Sys World
  streaming p t = record (registered p t) { world = place t.world 0 (stream entries) }

  -- What open_dir does with the word.
  abbrev use_word : ℕ → P ℕ
  use_word p = do
    defer free_handle p
    text ← lift (text_at p)
    λ s. on_opened os (os.opendir s.world.trace text) s

  using :
      {p : ℕ} {t : Sys World}
      → Expanded p t
      → ((trace : List Call) → os.opendir trace word ≡ opened entries)
      → use_word p t ≡ ok t.world.next (streaming p t)
  unfolding text_at
  using {p} {t} q opens =
      rw
        (
          deferred n s lt b room word_block free_handle q,
          block_at,
          block_live n s lt b room word_block free_handle q,
          opens t.world.trace,
        )
        refl

  streaming-Leaves :
      {p : ℕ} {t : Sys World}
      → Expanded p t
      → Leaves (suc n) (registered p t) (stream entries) t.world.next (streaming p t)
  streaming-Leaves {p} {t} q = record {
    err_code = q.err_code;
    fresh = omega arith;
    heap = λ a. refl;
    roomy = record {
      next_pos = omega arith;
      granted = q.roomy.granted;
      unused = λ a le. ground (arith, q.roomy.unused a);
    };
    trace = refl;
    back = record {
      balanced =
          let v = held-IsBalanced n s lt b room word_block free_handle q in
          record { depth = v.depth; idle = v.idle };
      callers = λ k small. refl;
    };
  }

  -- If memory is granted, the path expands to words and opendir opens the first of them, then
  -- open_dir, called fewer than 10 functions deep on a balanced stack, returns the fresh stream,
  -- with no error; the word has been given back, every block that was live before is untouched,
  -- and the stack of deferred calls is as its caller left it.
  pub open_dir_lem :
      (words : List Bytes)
      → os.wordexp s.world.trace path ≡ some (word ∷ words)
      → ((trace : List Call) → os.opendir trace word ≡ opened entries)
      → Returns (Leaves n s (stream entries)) (open_dir os path s)
  unfolding open_dir edf_static_func1
  open_dir_lem words found opens =
      go _
        (expand_lem os (suc n) (entered n s) (omega arith) ((entered-IsBalanced n s b).0) room path
          word words found)
        refl
    where
      go :
          (r : Run (Sys World) ℕ)
          → Returns Expanded r
          → expand os path (entered n s) ≡ r
          → Returns (Leaves n s (stream entries)) (open_dir os path s)
      go r (returns {a = p} {s = t} q) e =
          finished n s lt b room word_block (stream entries) _ q (streaming-Leaves q)
            (rw e (on_error_return-ok t null (use_word p) q.err_code ∙ using q opens))
