-- ===== src/Modules/Cleans/Rounds.antt =====
-- The loop of clean_ul_mod_names: src/modules/mods.c. The names of the modules that do not load are
-- copied to an array, and their links are removed.
use prom.Prelude.{
  ℕ, ◌+◌, ◌*◌, ◌^◌, ◌≤◌, ◌<◌, ◌≡◌, refl, ap, ◌∙◌, ltb, if◌then◌else◌, Option, none, some, List, [],
  ◌∷◌, ◌++◌, length, arith, ==_false,
}
use prom.Prelude.Bytes.{Bytes}
use prom.Machine.{ok}
use prom.Machine.Returns
use prom.Machine.Returns.{Returns, returns}
use prom.Memory.{Cell, unset, loaded, World, Call}
use prom.Memory.Laws.{given_back}
use prom.Errm.State.{Sys, dyn_shared_obj_error}
use prom.Dga.Laws.{dga_len-IsArray}
use prom.Filesystem.{P}
use prom.Filesystem.Alloc.{IsRoomy, IsRoomy-heap}
use prom.Filesystem.Dir.Elements.{Lists}
use prom.Filesystem.System.{Os, IsHarmless}
use prom.Modules.Links.{answered, path_len, rm_module_lem}
use prom.Modules.Lists.{Listed, name_at, clean_one, clean_loop, free_mod_names}
use prom.Modules.Load.{ran, unopened, incomplete, complete, load_module_lem}
use prom.Modules.Names.{onto, name_at_lem, free_names}
use prom.Modules.Installs.{asked, LoadsOne}
use prom.Modules.Longer.{
  Lists-later, named, longer, dga_new-with_block, strcpy-named, dga_grow-named, store_last-longer,
  longer-IsRoomy, longer-Lists, longer-heap,
}
use prom.Modules.Cleans.{Cleans, all_tried, keeps, removes, AreBrief}

module _ (os : Os) (path : Bytes) (floor : ℕ) (w : World) (p : ℕ) (names : List Bytes)
    (l : Lists floor w p names) (len_ret : ℕ) where
  -- Between two rounds: the array at `q` lists the names `seen`, and the memory below it is as in
  -- `w`.
  pub record Between (seen : List Bytes) (q : ℕ) (v : World) : Type 0 where
    pub lists : Lists w.next v q seen
    pub roomy : IsRoomy v
    pub heap : (a : ℕ) → a < w.next → v.heap a ≡ w.heap a

  -- What the loop leaves.
  pub record Cleaned (todo seen : List Bytes) (s : Sys World) (r : ℕ × ℕ) (t : Sys World)
      : Type 0 where
    pub removed : List Bytes
    pub cleans : Cleans os path todo s.world.trace removed t.world.trace
    pub array : ℕ
    pub result : r ≡ (array + 24, length (onto removed seen))
    pub lists : Lists w.next t.world array (onto removed seen)
    pub roomy : IsRoomy t.world
    pub heap : (a : ℕ) → a < w.next → t.world.heap a ≡ (if ltb a floor then w.heap a else none)
    pub frames : t ≡ record s { err_code = t.err_code; errno = t.errno; world = t.world }

  clean_end :
      (seen : List Bytes) (i q : ℕ) (s : Sys World)
      → Between seen q s.world
      → Returns (Cleaned [] seen s) (clean_loop os path 0 i (p + 24) (q + 24) len_ret s)
  unfolding clean_loop free_mod_names
  clean_end seen i q s b =
      let (_, v, frees, (freed, kept)) =
        Returns.reached (free_names floor w p names l s.world b.heap) in
      let lists : Lists w.next v q seen =
        Lists-later w.next s.world v q seen (λ a lo. ground (arith, freed a))
          (rw (ap (λ z. z.next) kept) (omega arith)) b.lists in
      rw (frees, dga_len-IsArray lists.array)
        (returns (record {
          removed = [];
          cleans = rw (ap (λ z. z.trace) kept) all_tried;
          array = q;
          result = refl;
          lists = lists;
          roomy =
              IsRoomy-heap s.world v b.roomy kept
                λ a le. ground (arith, freed a, b.roomy.unused a, b.lists.low, b.lists.below);
          heap = λ a lt. ground (arith, freed a);
          frames = refl;
        }))

  module _ (name : Bytes) (todo seen : List Bytes) (q i : ℕ) (s : Sys World)
      (b : Between seen q s.world) (small : 24 + 8 * (length seen + 1) < 2 ^ 64)
      (short : length name + 28 < 2 ^ 62) where
    -- The state behind load_module.
    abbrev tried : ℕ → Cell → Sys World
    tried code c = record s {
      err_code = code;
      errno = os.dl_errno s.world.trace s.errno;
      world = record (given_back s.world (path_len path name)) {
        trace = ran c (asked os path name s.world.trace);
      };
    }

    tried-Between : (code : ℕ) (c : Cell) → Between seen q (tried code c).world
    tried-Between code c = record {
      lists =
          Lists-later w.next s.world (tried code c).world q seen (λ a lo. refl) (omega arith)
            b.lists;
      roomy = record {
        next_pos = omega arith;
        granted = b.roomy.granted;
        unused = λ a le. b.roomy.unused a (omega arith);
      };
      heap = b.heap;
    }

    abbrev bad : Sys World
    bad = tried dyn_shared_obj_error unset

    abbrev tb : Between seen q bad.world
    tb = tried-Between dyn_shared_obj_error unset

    -- The state behind the copy of the name, and the one behind rm_module.
    abbrev copied : Sys World
    copied = record bad {
      world = longer w.next bad.world q seen tb.lists tb.roomy name small short;
    }

    abbrev next_array : ℕ
    next_array = (named w.next bad.world q seen tb.lists tb.roomy name small short).next

    abbrev removed_link : Sys World
    removed_link =
        answered (Call.remove (some (path ++ name)))
          (os.remove copied.world.trace (some (path ++ name))) (path_len path name) copied

    removed-Between : Between (name ∷ seen) next_array removed_link.world
    removed-Between = record {
      lists =
          Lists-later w.next copied.world removed_link.world next_array (name ∷ seen) (λ a lo. refl)
            (omega arith) (longer-Lists w.next bad.world q seen tb.lists tb.roomy name small short);
      roomy =
          let roomy = longer-IsRoomy w.next bad.world q seen tb.lists tb.roomy name small short in
          record {
            next_pos = omega arith;
            granted = roomy.granted;
            unused = λ a le. roomy.unused a (omega arith);
          };
      heap = λ a lt.
          longer-heap w.next bad.world q seen tb.lists tb.roomy name small short a
            (omega (arith, tb.lists.low, tb.lists.below)) (omega (arith, tb.lists.low))
          ∙ b.heap a lt;
    }

    later_kept :
        {c : Cell} {r : ℕ × ℕ} {t : Sys World}
        → LoadsOne os path name s.world.trace (none, c) 0
        → Cleaned todo seen (tried 0 c) r t
        → Cleaned (name ∷ todo) seen s r t
    later_kept loads d = record {
      removed = d.removed;
      cleans = keeps loads d.cleans;
      array = d.array;
      result = d.result;
      lists = d.lists;
      roomy = d.roomy;
      heap = d.heap;
      frames = d.frames;
    }

    later_removed :
        {message : Bytes} {r : ℕ × ℕ} {t : Sys World}
        → LoadsOne os path name s.world.trace (some message, unset) dyn_shared_obj_error
        → Cleaned todo (name ∷ seen) removed_link r t
        → Cleaned (name ∷ todo) seen s r t
    later_removed loads d = record {
      removed = name ∷ d.removed;
      cleans = removes loads d.cleans;
      array = d.array;
      result = d.result;
      lists = d.lists;
      roomy = d.roomy;
      heap = d.heap;
      frames = d.frames;
    }

    -- Copying the name of a module that does not load, and removing its link.
    clean_one_lem :
        (more : ℕ → P Listed)
        → clean_one os path (p + 24) name (q + 24) len_ret more bad
          ≡ more (next_array + 24) removed_link
    clean_one_lem more =
        rw
          (
            dga_new-with_block w.next bad.world q seen tb.lists tb.roomy name small short,
            ==_false (bad.world.next + 24) 0 (omega arith),
            strcpy-named w.next bad.world q seen tb.lists tb.roomy name small short,
            dga_grow-named w.next bad.world q seen tb.lists tb.roomy name small short,
            ==_false (next_array + 24) 0 (omega arith),
            store_last-longer w.next bad.world q seen tb.lists tb.roomy name small short os path
                bad,
            rm_module_lem os path name copied (omega arith) (tb.roomy.granted _) (
                (longer-IsRoomy w.next bad.world q seen tb.lists tb.roomy name small short).unused
                  copied.world.next (omega arith)),
          )
          refl

    abbrev next_round : Option Bytes × Cell → P Listed
    next_round (err, c) = elim err [
      | none ↦ clean_loop os path (length todo) (i + 1) (p + 24) (q + 24) len_ret
      | some message ↦
          clean_one os path (p + 24) name (q + 24) len_ret
            (λ ul_names. clean_loop os path (length todo) (i + 1) (p + 24) ul_names len_ret)
    ]

    after_load :
        {r : Option Bytes × Cell} {code : ℕ}
        → LoadsOne os path name s.world.trace r code
        → ((seen' : List Bytes) (q' : ℕ) (t : Sys World)
            → Between seen' q' t.world
            → length seen' ≤ length seen + 1
            → Returns
                (Cleaned todo seen' t)
                (clean_loop os path (length todo) (i + 1) (p + 24) (q' + 24) len_ret t))
        → Returns (Cleaned (name ∷ todo) seen s) (next_round r (tried code r.1))
    after_load (complete {h} {name = title} {desc} e t d e') rounds =
        Returns.mono
          (rounds seen q (tried 0 (loaded h title desc)) (tried-Between 0 (loaded h title desc))
            (omega arith))
          λ _ _ o. later_kept (complete e t d e') o
    after_load (unopened e) rounds = rw (clean_one_lem _) (
        Returns.mono (rounds (name ∷ seen) next_array removed_link removed-Between (omega arith))
          λ _ _ o. later_removed (unopened e) o)
    after_load (incomplete e n e') rounds = rw (clean_one_lem _) (
        Returns.mono (rounds (name ∷ seen) next_array removed_link removed-Between (omega arith))
          λ _ _ o. later_removed (incomplete e n e') o)

  pub clean_loop_lem :
      (harmless : IsHarmless os) (todo older seen : List Bytes) (i q : ℕ) (s : Sys World)
      → names ≡ onto todo older
      → i ≡ length older
      → Between seen q s.world
      → 24 + 8 * (length todo + length seen) < 2 ^ 64
      → AreBrief todo
      → Returns
          (Cleaned todo seen s)
          (clean_loop os path (length todo) i (p + 24) (q + 24) len_ret s)
  unfolding clean_loop
  clean_loop_lem harmless [] older seen i q s split at b small brief = clean_end seen i q s b
  clean_loop_lem harmless (name ∷ todo) older seen i q s split at b small (short, brief) =
      let fits : 24 + 8 * (length seen + 1) < 2 ^ 64 = omega (arith, small) in
      let read : name_at (p + 24) i s.world ≡ ok name s.world =
        rw at (name_at_lem floor w p names l s.world b.heap name todo older split) in
      rw read (
        Returns.bind
          (load_module_lem os name path s harmless b.roomy.next_pos (b.roomy.granted _)
            (b.roomy.unused s.world.next (omega arith)))
          λ r t (code, loads, same). rw same (
            after_load name todo seen q i s b fits short loads λ seen' q' t' b' longer'.
              clean_loop_lem harmless todo (name ∷ older) seen' (i + 1) q' t' split
                (omega (arith, at)) b' (omega (arith, small)) brief))
