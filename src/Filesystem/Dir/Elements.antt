-- ===== src/Filesystem/Dir/Elements.antt =====
-- An array of names in the memory: src/filesystem/filesystem.c, dir_content.
use prom.Prelude.{
  sym, Bool-cases, inl, inr, ltb, ℕ, ◌+◌, ◌*◌, ◌≤◌, ◌<◌, ◌≡◌, ◌≢◌, refl, ◌∙◌, Option, none, some,
  List, [], ◌∷◌, length, arith, update, update_ne,
}
use prom.Prelude.Bytes.{Bytes}
use prom.Memory.{Block, World, Call, ptr, drop_block}
use prom.Dga.Laws.{IsArray}
use prom.Filesystem.Dir.Name.{pointers}

abbrev pub Heap : Type 0
Heap = ℕ → Option Block

module _ (floor : ℕ) (hp : Heap) (p : ℕ) (b : Block) where
  -- Element `i` of the array `b` at `p` is a pointer to the block at `at`, another one between
  -- `floor` and `top`, with the text `name`.
  pub record IsName (top i : ℕ) (name : Bytes) (at : ℕ) : Type 0 where
    pub block : Block
    pub cell : b.cells i ≡ ptr (at + 24)
    pub apart : at ≢ p
    pub above : floor ≤ at
    pub under : at < top
    pub not_null : at ≢ 0
    pub live : hp at ≡ some block
    pub text : block.text ≡ some name

  -- The elements of the array are the names, each in a block of its own; the last name stands
  -- first, and its block has the highest address.
  pub data AreNames : ℕ → List Bytes → List ℕ → Type 0 where
    no_names : {top : ℕ} → AreNames top [] []
    and_name :
        {top at : ℕ} {name : Bytes} {names : List Bytes} {ats : List ℕ}
        → IsName top (length names) name at
        → AreNames at names ats
        → AreNames top (name ∷ names) (at ∷ ats)

-- A memory from which some blocks have gone.
abbrev pub gone : List ℕ → Heap → Heap
gone [] hp = hp
gone (at ∷ ats) hp = update (gone ats hp) at none

-- The block at `p` is a live array of the names, with room for its elements, and it and they are
-- all that lives from `floor` on.
pub record Lists (floor : ℕ) (w : World) (p : ℕ) (names : List Bytes) : Type 0 where
  pub block : Block
  pub array : IsArray w p (pointers (length names)) block
  pub room : 24 + 8 * length names ≤ block.size
  pub low : floor ≤ p
  pub below : p < w.next
  pub ats : List ℕ
  pub elements : AreNames floor w.heap p block w.next names ats
  pub only : (a : ℕ) → floor ≤ a → a ≢ p → gone ats w.heap a ≡ none

pub AreNames-kept :
    (floor low : ℕ) (hp hp' : Heap) (p p' : ℕ) (b b' : Block) {top top' : ℕ} {names : List Bytes}
    {ats : List ℕ}
    → ((i : ℕ) → i < length names → b'.cells i ≡ b.cells i)
    → ((q : ℕ) → floor ≤ q → q < top → q ≢ p → (q ≢ p') × (hp' q ≡ hp q))
    → low ≤ floor
    → top ≤ top'
    → AreNames floor hp p b top names ats
    → AreNames low hp' p' b' top' names ats
AreNames-kept floor low hp hp' p p' b b' cells heap le grows no_names = no_names
AreNames-kept floor low hp hp' p p' b b' {names = name ∷ names} {ats = at ∷ ats} cells heap le grows
      (and_name e es) =
    and_name
      (record {
        block = e.block;
        cell = cells (length names) (omega arith) ∙ e.cell;
        apart = (heap at e.above e.under e.apart).0;
        above = omega (arith, e.above);
        under = omega (arith, e.under);
        not_null = e.not_null;
        live = (heap at e.above e.under e.apart).1 ∙ e.live;
        text = e.text;
      })
      (AreNames-kept floor low hp hp' p p' b b' (λ i lt. cells i (omega arith))
        (λ q lo hi. heap q lo (omega (arith, e.under))) le (omega arith) es)

pub gone-same :
    (ats : List ℕ) (hp hp' : Heap) (a : ℕ) → hp' a ≡ hp a → gone ats hp' a ≡ gone ats hp a
gone-same [] hp hp' a e = e
gone-same (at ∷ ats) hp hp' a e = ground (arith, gone-same ats hp hp' a e)

pub gone-none : (ats : List ℕ) (hp : Heap) (a : ℕ) → hp a ≡ none → gone ats hp a ≡ none
gone-none [] hp a e = e
gone-none (at ∷ ats) hp a e = ground (arith, gone-none ats hp a e)

-- A block that is none of the names stays.
pub gone-outside :
    (floor : ℕ) (hp hp' : Heap) (p : ℕ) (b : Block) {top : ℕ} {names : List Bytes} {ats : List ℕ}
    (a : ℕ)
    → ((q : ℕ) → floor ≤ q → q < top → q ≢ p → a ≢ q)
    → AreNames floor hp p b top names ats
    → gone ats hp' a ≡ hp' a
gone-outside floor hp hp' p b a out no_names = refl
gone-outside floor hp hp' p b {names = name ∷ names} {ats = at ∷ ats} a out (and_name e es) =
    update_ne (gone ats hp') at none a (λ same. out at e.above e.under e.apart (sym same))
    ∙ gone-outside floor hp hp' p b a (λ q lo hi. out q lo (omega (arith, e.under))) es

-- An array of names stays when an older block goes that nothing else lives behind.
pub Lists-drop_block :
    (floor low : ℕ) (w : World) (p q : ℕ) (names : List Bytes) (calls : List Call)
    → p < floor
    → low ≤ floor
    → ((a : ℕ) → low ≤ a → a < floor → a ≢ p → w.heap a ≡ none)
    → Lists floor w q names
    → Lists low (record (drop_block p w) { trace = calls }) q names
Lists-drop_block floor low w p q names calls lt le clear l = record {
  block = l.block;
  array = record {
    not_null = l.array.not_null;
    live = update_ne w.heap p none q (omega (arith, l.low)) ∙ l.array.live;
    header = l.array.header;
  };
  room = l.room;
  low = omega (arith, l.low);
  below = l.below;
  ats = l.ats;
  elements =
      AreNames-kept floor low w.heap (drop_block p w).heap q q l.block l.block (λ i lt'. refl)
        (λ a lo hi ne. (ne, update_ne w.heap p none a (omega arith))) le (omega arith) l.elements;
  only = λ a lo ne. elim (Bool-cases (ltb a floor)) [
    | inl before ↦ gone-none l.ats (drop_block p w).heap a (ground (arith, clear a, before))
    | inr behind ↦
        gone-same l.ats w.heap (drop_block p w).heap a (ground (arith, behind))
        ∙ l.only a (ground (arith, behind)) ne
  ];
}
