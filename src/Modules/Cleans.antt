-- ===== src/Modules/Cleans.antt =====
-- What clean_ul_mod_names is meant to try and to remove: src/modules/mods.c.
pub mod Rounds
use prom.Prelude.{◌+◌, ◌^◌, ◌<◌, none, some, List, [], ◌∷◌, ◌++◌, length}
use prom.Prelude.Bytes.{Bytes}
use prom.Memory.{Cell, unset, Call}
use prom.Errm.State.{dyn_shared_obj_error}
use prom.Filesystem.System.{Os}
use prom.Modules.Load.{ran}
use prom.Modules.Installs.{asked, LoadsOne}

module _ (os : Os) (path : Bytes) where
  -- The names of the modules that do not load, in order; each is asked to be removed before the
  -- next one is tried.
  pub data Cleans : List Bytes → List Call → List Bytes → List Call → Type 0 where
    all_tried : {trace : List Call} → Cleans [] trace [] trace
    keeps :
        {name : Bytes} {names removed : List Bytes} {trace trace' : List Call} {c : Cell}
        → LoadsOne os path name trace (none, c) 0
        → Cleans names (ran c (asked os path name trace)) removed trace'
        → Cleans (name ∷ names) trace removed trace'
    removes :
        {name message : Bytes} {names removed : List Bytes} {trace trace' : List Call}
        → LoadsOne os path name trace (some message, unset) dyn_shared_obj_error
        → Cleans names (Call.remove (some (path ++ name)) ∷ asked os path name trace) removed trace'
        → Cleans (name ∷ names) trace (name ∷ removed) trace'

-- The copies of the names fit the machine's words.
abbrev pub AreBrief : List Bytes → Type 0
AreBrief [] = Unit
AreBrief (name ∷ names) = (length name + 28 < 2 ^ 62) × AreBrief names
