-- ===== src/Modules/Names.antt =====
-- The array of the modules' names while other blocks live: src/modules/mods.c, installed_mods.
use prom.Prelude.{
  sym, ℕ, ◌+◌, ◌*◌, ◌≡◌, ◌<◌, refl, ap, ◌∙◌, Bool-cases, inl, inr, ltb, if◌then◌else◌, Option, none,
  List, [], ◌∷◌, length, arith, update, ==_false, le→leb,
}
use prom.Prelude.Bytes.{Bytes}
use prom.Machine.{ok}
use prom.Machine.Returns.{Returns, returns}
use prom.Memory.{Block, World, free, block_at}
use prom.Memory.Laws.{text_at_live}
use prom.Dga.{dga_free}
use prom.Dga.Laws.{IsArray, dga_header-add, dga_len-IsArray, get-IsArray}
use prom.Filesystem.Dir.{free_dir_content}
use prom.Filesystem.Dir.Name.{pointers}
use prom.Filesystem.Dir.Elements.{
  IsName, AreNames, and_name, AreNames-kept, gone, gone-same, gone-outside, Lists,
}
use prom.Filesystem.Dir.Listing.{listed, starts_with_dot}
use prom.Filesystem.Freed.{free_all, heap-freed}
use prom.Modules.Lists.{name_at}

-- The elements put in front of `seen` one after the other.
abbrev pub onto : {A : Type 0} → List A → List A → List A
onto [] seen = seen
onto (x ∷ xs) seen = onto xs (x ∷ seen)

-- The names of a directory that do not start with a dot.
abbrev pub shown : List Bytes → List Bytes
shown [] = []
shown (file ∷ files) = if starts_with_dot file then shown files else file ∷ shown files

pub listed-onto : (files seen : List Bytes) → listed files seen ≡ onto (shown files) seen
listed-onto [] seen = refl
listed-onto (file ∷ files) seen = elim (Bool-cases (starts_with_dot file)) [
  | inl hidden ↦ rw hidden (listed-onto files seen)
  | inr visible ↦ rw visible (listed-onto files (file ∷ seen))
]

pub length-onto : {A : Type 0} (xs seen : List A) → length (onto xs seen) ≡ length xs + length seen
length-onto [] seen = omega arith
length-onto (x ∷ xs) seen = omega (arith, length-onto xs (x ∷ seen))

module _ (floor : ℕ) (hp : ℕ → Option Block) (p : ℕ) (b : Block) where
  newest-AreNames :
      {top : ℕ} {name : Bytes} {names : List Bytes} {ats : List ℕ}
      → AreNames floor hp p b top (name ∷ names) ats
      → (at : ℕ) × (ats' : List ℕ) × IsName floor hp p b top (length names) name at
        × AreNames floor hp p b at names ats'
  newest-AreNames {ats = []} ns = elim ns [ ]
  newest-AreNames {ats = at ∷ ats} (and_name e es) = (at, ats, e, es)

  -- The older names of an array.
  older-AreNames :
      (todo : List Bytes) {top : ℕ} {names : List Bytes} {ats : List ℕ}
      → AreNames floor hp p b top (onto todo names) ats
      → (top' : ℕ) × (ats' : List ℕ) × AreNames floor hp p b top' names ats'
  older-AreNames [] {top} {ats = ats} ns = (top, ats, ns)
  older-AreNames (name ∷ todo) ns =
      let (top', ats', ns') = older-AreNames todo ns in
      let (at, ats'', e, es) = newest-AreNames ns' in (at, ats'', es)

module _ (floor : ℕ) (w : World) (p : ℕ) (names : List Bytes) (l : Lists floor w p names)
    (v : World) (heap : (a : ℕ) → a < w.next → v.heap a ≡ w.heap a) where
  still-AreNames : AreNames floor v.heap p l.block w.next names l.ats
  still-AreNames =
      AreNames-kept floor floor w.heap v.heap p p l.block l.block (λ i lt. refl)
        (λ a lo hi ne. (ne, heap a (omega arith))) (omega arith) (omega arith) l.elements

  still-IsArray : IsArray v p (pointers (length names)) l.block
  still-IsArray = record {
    not_null = l.array.not_null;
    live = heap p l.below ∙ l.array.live;
    header = l.array.header;
  }

  -- The name at index `length older` is the one in front of the older ones.
  pub name_at_lem :
      (name : Bytes) (todo older : List Bytes)
      → names ≡ onto todo (name ∷ older)
      → name_at (p + 24) (length older) v ≡ ok name v
  name_at_lem name todo older same =
      let (top, ats, ns) = older-AreNames floor v.heap p l.block todo (rw same at still-AreNames) in
      let (at, ats', e, es) = newest-AreNames floor v.heap p l.block ns in
      rw
        (
          get-IsArray still-IsArray (length older) (
              le→leb (24 + 8 * (length older + 1)) l.block.size
                (omega (arith, l.room, ap length same ∙ length-onto todo (name ∷ older)))),
          e.cell,
          dga_header-add at,
          text_at_live v at e.live e.text,
        )
        refl

  -- What lives behind the array and the names stays.
  abbrev pub freed : ℕ → Option Block
  freed a = if ltb a w.next then (if ltb a floor then w.heap a else none) else v.heap a

  heap-names : (a : ℕ) → update (gone l.ats v.heap) p none a ≡ freed a
  heap-names a = elim (Bool-cases (ltb a w.next)) [
    | inl old ↦ ground (
      arith,
      old,
      gone-same l.ats w.heap v.heap a (heap a (ground (arith, old))),
      heap-freed floor w p names l a,
    )
    | inr new ↦ ground (
      arith,
      new,
      l.below,
      gone-outside floor v.heap v.heap p l.block a (λ q' lo hi ne. ground (arith, new))
          still-AreNames,
    )
  ]

  -- free_dir_content gives back the array and the names, and nothing else.
  pub free_names :
      Returns
        (λ _ t. ((a : ℕ) → t.heap a ≡ freed a) × (t ≡ record v { heap = t.heap }))
        (free_dir_content (p + 24) v)
  unfolding free_dir_content dga_free free
  free_names =
      rw
        (
          dga_len-IsArray still-IsArray,
          free_all floor v p l.block (length names) still-IsArray l.room 0 (length names)
              still-AreNames (omega arith) (omega arith),
          dga_header-add p,
          ==_false p 0 l.array.not_null,
          block_at,
          gone-outside floor v.heap v.heap p l.block p (λ q' lo hi ne same. ne (sym same))
              still-AreNames,
          still-IsArray.live,
        )
        (returns (heap-names, refl))
