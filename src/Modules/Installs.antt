-- ===== src/Modules/Installs.antt =====
-- The loop of installed_mods: src/modules/mods.c. One name after the other is loaded, and an array
-- of the modules grows.
use prom.Prelude.{
  ℕ, suc, ◌+◌, ◌*◌, ◌^◌, ◌≤◌, ◌<◌, ◌≡◌, ◌∙◌, refl, ap, if◌then◌else◌, Option, none, some, List, [],
  ◌∷◌, ◌++◌, length, arith, update_ne, ==_false,
}
use prom.Prelude.Bytes.{Bytes}
use prom.Machine.{Run, ok, ◌>>◌}
use prom.Machine.Returns
use prom.Machine.Returns.{Returns, returns}
use prom.Memory.{Cell, unset, loaded, World, Call, null}
use prom.Memory.Laws.{given_back}
use prom.Errm.State.{Sys, dyn_shared_obj_error}
use prom.Dga.Laws.{dga_len-IsArray}
use prom.Errm.Ops.{errored}
use prom.Filesystem.Alloc.{IsRoomy}
use prom.Filesystem.Held.{IsRoomy-drop_block}
use prom.Filesystem.Dir.Elements.{Lists}
use prom.Filesystem.System.{Os, IsHarmless}
use prom.Modules.Links.{path_len}
use prom.Modules.Lists.{name_at, install_all, store_last, fail}
use prom.Modules.Load.{ran, Loads, unopened, incomplete, complete, load_module_lem}
use prom.Modules.Names.{onto, name_at_lem}
use prom.Modules.Grows.{
  Grows, grown, stored, dga_grow-Grows, grown-unused, stored-Grows, store_last-stored,
  dga_free-wider, freed-heap,
}

module _ (os : Os) (path : Bytes) where
  abbrev pub asked : Bytes → List Call → List Call
  asked name trace = Call.dlopen (some (path ++ name)) ∷ trace

  -- What loading a module of that name gives.
  abbrev pub LoadsOne : Bytes → List Call → Option Bytes × Cell → ℕ → Type 0
  LoadsOne name trace = Loads (os.dlopen trace (some (path ++ name))) (os.dlsym (asked name trace))

  -- What loading the names one after the other gives: all the modules, or nothing if one of them
  -- does not load, behind which no other is tried.
  pub data Installs : List Bytes → List Call → Option (List Cell) → List Call → Type 0 where
    no_more : {trace : List Call} → Installs [] trace (some []) trace
    one_more :
        {name : Bytes} {names : List Bytes} {trace trace' : List Call} {c : Cell} {mods : List Cell}
        → LoadsOne name trace (none, c) 0
        → Installs names (ran c (asked name trace)) (some mods) trace'
        → Installs (name ∷ names) trace (some (c ∷ mods)) trace'
    fails_later :
        {name : Bytes} {names : List Bytes} {trace trace' : List Call} {c : Cell}
        → LoadsOne name trace (none, c) 0
        → Installs names (ran c (asked name trace)) none trace'
        → Installs (name ∷ names) trace none trace'
    fails_here :
        {name message : Bytes} {names : List Bytes} {trace : List Call}
        → LoadsOne name trace (some message, unset) dyn_shared_obj_error
        → Installs (name ∷ names) trace none (asked name trace)

module _ (os : Os) (path : Bytes) (w : World) (p : ℕ) (names : List Bytes) (floor : ℕ)
    (l : Lists floor w p names) (unused : (a : ℕ) → w.next ≤ a → w.heap a ≡ none)
    (len_ret : ℕ) where
  -- What the loop leaves, if it began in `s` with the modules `done` and ended in `t`.
  pub data Outcome (todo : List Bytes) (done : List Cell) (s : Sys World) (r : ℕ × ℕ)
      (t : Sys World) : Type 0 where
    installed :
        {q : ℕ} {mods : List Cell}
        → Installs os path todo s.world.trace (some mods) t.world.trace
        → Grows w (onto mods done) q t.world
        → r ≡ (q + 24, length (onto mods done))
        → t ≡ record s { err_code = 0; errno = t.errno; world = t.world }
        → Outcome todo done s r t
    refused :
        Installs os path todo s.world.trace none t.world.trace
        → ((a : ℕ) → t.world.heap a ≡ w.heap a)
        → IsRoomy t.world
        → r ≡ (null, len_ret)
        → t ≡ record s { err_code = dyn_shared_obj_error; errno = t.errno; world = t.world }
        → Outcome todo done s r t

  module _ (name : Bytes) (todo : List Bytes) (done : List Cell) (q : ℕ) (s : Sys World)
      (g : Grows w done q s.world) (small : 24 + 56 * (length done + 1) < 2 ^ 64) where
    -- The state behind load_module.
    abbrev tried : ℕ → Cell → Sys World
    tried code c = record s {
      err_code = code;
      errno = os.dl_errno s.world.trace s.errno;
      world = record (given_back (grown w done q s.world g unused small) (path_len path name)) {
        trace = ran c (asked os path name s.world.trace);
      };
    }

    tried-IsRoomy : (code : ℕ) (c : Cell) → IsRoomy (tried code c).world
    tried-IsRoomy code c = record {
      next_pos = omega arith;
      granted = g.roomy.granted;
      unused = λ a le. ground (arith, g.roomy.unused a);
    }

    abbrev next_round : ℕ → Option Bytes × Cell → Sys World → Run (Sys World) (ℕ × ℕ)
    next_round i r t =
        if errored t
        then fail os path (s.world.next + 24) len_ret t
        else (store_last os path (s.world.next + 24) (r.1)
              >> install_all os path (length todo) i (p + 24) (s.world.next + 24) len_ret)
            t

    refused_here :
        (r : Option Bytes × Cell) (message : Bytes) (i : ℕ)
        → LoadsOne os path name s.world.trace (some message, unset) dyn_shared_obj_error
        → Returns (Outcome (name ∷ todo) done s) (next_round i r (tried dyn_shared_obj_error unset))
    refused_here r message i loads =
        rw
          (dga_free-wider w done q s.world g unused small (tried dyn_shared_obj_error unset).world
            (λ a. refl))
          (returns (
            refused (fails_here loads)
              (freed-heap w done q s.world g unused small (tried dyn_shared_obj_error unset).world
                (λ a. refl))
              (IsRoomy-drop_block s.world.next _ (tried-IsRoomy dyn_shared_obj_error unset)) refl
              refl))

    later :
        {c : Cell} {r : ℕ × ℕ} {t : Sys World}
        → LoadsOne os path name s.world.trace (none, c) 0
        → Outcome todo
            (c ∷ done)
            (record (tried 0 c) {
              world = stored w done q s.world g unused small c (tried 0 c).world;
            })
            r
            t
        → Outcome (name ∷ todo) done s r t
    later loads (installed i g' e same) = installed (one_more loads i) g' e same
    later loads (refused i heap roomy e same) = refused (fails_later loads i) heap roomy e same

    -- The state in which the next round starts, behind a module that loaded.
    abbrev more : Cell → Sys World
    more c = record (tried 0 c) {
      world = stored w done q s.world g unused small c (tried 0 c).world;
    }

    after_load :
        {r : Option Bytes × Cell} {code : ℕ} (i : ℕ)
        → LoadsOne os path name s.world.trace r code
        → ((c : Cell)
            → Returns (Outcome todo (c ∷ done) (more c)) (
                install_all os path
                  (length todo)
                  (i + 1)
                  (p + 24)
                  (s.world.next + 24)
                  len_ret
                  (more c)))
        → Returns (Outcome (name ∷ todo) done s) (next_round (i + 1) r (tried code r.1))
    after_load {r} i (unopened {message} e) rounds = refused_here r message (i + 1) (unopened e)
    after_load {r} i (incomplete {message = message} e n e') rounds =
        refused_here r message (i + 1) (incomplete e n e')
    after_load {r} i (complete {h} {name = title} {desc} e t d e') rounds =
        rw
          (store_last-stored w done q s.world g unused small (tried 0 (loaded h title desc)).world
            (λ a. refl) os path (loaded h title desc) (tried 0 (loaded h title desc)))
          (Returns.mono (rounds (loaded h title desc)) λ _ _ o. later (complete e t d e') o)

  pub install_all_lem :
      (harmless : IsHarmless os) (todo older : List Bytes) (done : List Cell) (i q : ℕ)
      (s : Sys World)
      → names ≡ onto todo older
      → i ≡ length older
      → length older ≡ length done
      → Grows w done q s.world
      → s.err_code ≡ 0
      → 24 + 56 * (length todo + length done) < 2 ^ 64
      → Returns
          (Outcome todo done s)
          (install_all os path (length todo) i (p + 24) (q + 24) len_ret s)
  unfolding install_all
  install_all_lem harmless [] older done i q s split at count g idle small =
      rw (dga_len-IsArray g.array)
        (returns (installed no_more g refl (ap (λ c. record s { err_code = c }) idle)))
  install_all_lem harmless (name ∷ todo) older done i q s split at count g idle small =
      let fits : 24 + 56 * (length done + 1) < 2 ^ 64 = omega (arith, small) in
      let read : name_at (p + 24) i s.world ≡ ok name s.world = rw at (
        name_at_lem floor w p names l s.world
          (λ a below. g.heap a ∙ update_ne w.heap q _ a (omega (arith, g.behind))) name todo older
          split) in
      rw
        (
          read,
          dga_grow-Grows w done q s.world g unused fits,
          ==_false (s.world.next + 24) 0 (omega arith),
        )
        (Returns.bind
          (load_module_lem os name path (record s { world = grown w done q s.world g unused fits })
            harmless (omega arith) (g.roomy.granted _)
            (grown-unused w done q s.world g unused fits))
          λ r t (code, loads, same). rw same (
            after_load name todo done q s g fits i loads λ c.
              install_all_lem harmless todo (name ∷ older) (c ∷ done) (i + 1) s.world.next
                (more name todo done q s g fits c) split (omega (arith, at)) (ap suc count)
                (stored-Grows w done q s.world g unused fits c
                  (tried name todo done q s g fits 0 c).world (λ a. refl)
                  (tried-IsRoomy name todo done q s g fits 0 c))
                refl (omega (arith, small))))
