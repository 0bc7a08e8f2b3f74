-- ===== src/Filesystem/Freed.antt =====
-- Giving back the contents of a directory: src/filesystem/filesystem.c, free_dir_content.
use prom.Prelude.{
  sym, ℕ, suc, ◌+◌, ◌*◌, ◌^◌, ◌≤◌, ◌<◌, ◌≡◌, refl, ap, ◌∙◌, none, some, List, [], ◌∷◌, length,
  arith, update, ==_false, le→leb, if◌then◌else◌, ◌==◌, Bool-cases, inl, inr, ltb,
}
use prom.Prelude.Bytes.{Bytes}
use prom.Machine.{Run, Cmd, and_then, zoom_run}
use prom.Machine.Returns
use prom.Machine.Returns.{Returns, returns}
use prom.Memory.{Block, World, Call, free, block_at}
use prom.Errm.State.{Sys}
use prom.Errm.Scope.{IsBalanced}
use prom.Dga.{dga_free, get}
use prom.Dga.Laws.{IsArray, dga_header-add, dga_len-IsArray}
use prom.Filesystem.{lift}
use prom.Filesystem.Alloc.{IsRoomy}
use prom.Filesystem.System.{Os, opened}
use prom.Filesystem.Dir.{dir_content, free_cells, free_dir_content}
use prom.Filesystem.Dir.Name.{pointers}
use prom.Filesystem.Dir.Elements.{IsName, AreNames, no_names, and_name, gone, gone-outside, Lists}
use prom.Filesystem.Dir.Listing.{AreShort, listed}
use prom.Filesystem.Content.{Content, dir_content_lem}

module _ (floor : ℕ) (w : World) (p : ℕ) (b : Block) (len : ℕ) (a : IsArray w p (pointers len) b)
    (room : 24 + 8 * len ≤ b.size) where
  abbrev pub without : List ℕ → World
  without ats = record w { heap = gone ats w.heap }

  -- One round of the loop, when the older names have gone.
  free_one :
      {top : ℕ} {name : Bytes} {names : List Bytes} {at : ℕ} {ats : List ℕ} (k : ℕ)
      → IsName floor w.heap p b top (length names) name at
      → AreNames floor w.heap p b at names ats
      → length names < len
      → free_cells (suc k) (p + 24) (length names) (without ats)
        ≡ free_cells k (p + 24) (length names + 1) (without (at ∷ ats))
  unfolding free_cells get dga_free free
  free_one {names = names} {at = at} {ats = ats} k e es below =
      rw
        (
          dga_header-add p,
          block_at,
          gone-outside floor w.heap w.heap p b p (λ q lo hi ne same. ne (sym same)) es,
          a.live,
          a.header,
          le→leb (24 + 8 * (length names + 1)) b.size (omega (arith, room)),
          e.cell,
          dga_header-add at,
          ==_false at 0 e.not_null,
          gone-outside floor w.heap w.heap p b at (λ q lo hi ne. omega arith) es,
          e.live,
        )
        refl

  pub free_all :
      {top : ℕ} {names : List Bytes} {ats : List ℕ} (k m : ℕ)
      → AreNames floor w.heap p b top names ats
      → m ≡ length names + k
      → length names ≤ len
      → free_cells m (p + 24) 0 w ≡ free_cells k (p + 24) (length names) (without ats)
  free_all k m no_names e fits = ap (λ j. free_cells j (p + 24) 0 w) (omega arith)
  free_all {names = name ∷ names} {ats = at ∷ ats} k m (and_name n ns) e fits =
      free_all (suc k) m ns (omega arith) (omega arith)
      ∙ free_one k n ns (omega arith)
      ∙ ap (λ j. free_cells k (p + 24) j (without (at ∷ ats))) (omega arith)

pub heap-freed :
    (floor : ℕ) (w : World) (p : ℕ) (names : List Bytes) (l : Lists floor w p names) (a : ℕ)
    → update (gone l.ats w.heap) p none a ≡ (if ltb a floor then w.heap a else none)
heap-freed floor w p names l a = elim (Bool-cases (ltb a floor)) [
  | inl before ↦ ground (
    arith,
    gone-outside floor w.heap w.heap p l.block a
        (λ q lo hi ne same. absurd (ground (arith, before, lo, same))) l.elements,
    before,
    l.low,
  )
  | inr behind ↦ elim (Bool-cases (p == a)) [
    | inl same ↦ ground (arith, same, behind)
    | inr other ↦
        ground (arith, l.only a (ground (arith, behind)) (ground (arith, other)), behind, other)
  ]
]

-- free_dir_content of a live array of names gives back the array and every name: nothing is left
-- from `floor` on, and nothing below it has changed.
pub free_dir_content_lem :
    (floor : ℕ) (w : World) (p : ℕ) (names : List Bytes)
    → Lists floor w p names
    → Returns
        (λ _ t. (a : ℕ) → t.heap a ≡ (if ltb a floor then w.heap a else none))
        (free_dir_content (p + 24) w)
unfolding free_dir_content free_cells dga_free free
free_dir_content_lem floor w p names l =
    rw
      (
        dga_len-IsArray l.array,
        free_all floor w p l.block (length names) l.array l.room 0 (length names) l.elements
            (omega arith) (omega arith),
        dga_header-add p,
        ==_false p 0 l.array.not_null,
        block_at,
        gone-outside floor w.heap w.heap p l.block p (λ q lo hi ne same. ne (sym same)) l.elements,
        l.array.live,
      )
      (returns (heap-freed floor w p names l))

Returns-lift :
    {A : Type 0} {P : A → World → Type 0} (m : Cmd World A) (s : Sys World)
    → Returns P (m s.world)
    → Returns (λ a t. P a t.world) (lift m s)
Returns-lift {A} {P} m s r = go _ r
  where
    go :
        (run : Run World A)
        → Returns P run
        → Returns (λ a t. P a t.world) (zoom_run (λ w. record s { world = w }) run)
    go run (returns x) = returns x

back-heap :
    (a : ℕ) {n : ℕ} {s : Sys World} {names : List Bytes} {r : ℕ × ℕ} {t : Sys World}
    → IsRoomy s.world
    → Content n s names r t
    → (if ltb a s.world.next then t.world.heap a else none) ≡ s.world.heap a
back-heap a {s = s} room c = elim (Bool-cases (ltb a s.world.next)) [
  | inl before ↦ rw before (c.kept a (ground (arith, before)))
  | inr behind ↦ rw behind (sym (room.unused a (ground (arith, behind))))
]

-- If memory is granted, the path expands to words, opendir opens the first of them and the sizes
-- fit the machine's words, then dir_content, called fewer than 9 functions deep on a balanced
-- stack, and free_dir_content of what it returned both return, and every address of the memory
-- then holds what it held before.
pub free_dir_content-dir_content :
    (os : Os) (n : ℕ) (s : Sys World) (path word : Bytes) (entries words : List Bytes) (len_ret : ℕ)
    → n < 9
    → IsBalanced n s
    → IsRoomy s.world
    → os.wordexp s.world.trace path ≡ some (word ∷ words)
    → ((trace : List Call) → os.opendir trace word ≡ opened entries)
    → 24 + 8 * length entries < 2 ^ 64
    → AreShort entries
    → Returns
        (λ _ t. (a : ℕ) → t.world.heap a ≡ s.world.heap a)
        (and_then (dir_content os path len_ret s) λ (names, len). lift (free_dir_content names))
free_dir_content-dir_content os n s path word entries words len_ret lt b room found opens fits
      short =
    Returns.bind
      (dir_content_lem os n s lt b room path word entries words len_ret found opens fits short)
      λ r t c. rw (c.result) (
        Returns-lift (free_dir_content (c.array + 24)) t (
          Returns.mono
            (free_dir_content_lem s.world.next t.world c.array (listed entries []) c.lists)
            λ _ w heap a. heap a ∙ back-heap a room c))
