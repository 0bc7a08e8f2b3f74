-- ===== src/Modules/Load.antt =====
-- Loading a module: src/modules/mods.c, load_module.
use prom.Prelude.{List, ℕ, ◌≡◌, ◌≢◌, refl, ap, true, Option, none, some, ◌∷◌, ◌++◌, ==_false}
use prom.Prelude.Bytes.{Bytes, codes}
use prom.Machine.{Run}
use prom.Machine.Returns.{Returns, returns}
use prom.Memory.{Cell, unset, loaded, World, Call}
use prom.Memory.Laws.{text_block, given_back, text_at_fresh, free_fresh}
use prom.Errm.State.{Sys, dyn_shared_obj_error}
use prom.Errm.Ops.{errm_error, errm_clear}
use prom.Filesystem.System.{Os, IsHarmless, Symbol, found, missing, Dlopened, handle, dlerror}
use prom.Modules.{load_module, load_symbols}
use prom.Modules.Links.{path_len, get_mod_path_lem}

-- The symbols that a module has to have.
pub data Needed : Bytes → Type 0 where
  name_needed : Needed (codes "name")
  desc_needed : Needed (codes "desc")
  init_needed : Needed (codes "init")

-- What loading gives, and the error code then, for what dlopen and dlsym answer.
pub data Loads (opened : Dlopened) (symbols : ℕ → Bytes → Symbol)
    : Option Bytes × Cell → ℕ → Type 0 where
  unopened :
      {message : Bytes}
      → opened ≡ dlerror message
      → Loads opened symbols (some message, unset) dyn_shared_obj_error
  incomplete :
      {h : ℕ} {symbol message : Bytes}
      → opened ≡ handle h
      → Needed symbol
      → symbols h symbol ≡ missing message
      → Loads opened symbols (some message, unset) dyn_shared_obj_error
  complete :
      {h : ℕ} {name desc init : Bytes}
      → opened ≡ handle h
      → symbols h (codes "name") ≡ found name
      → symbols h (codes "desc") ≡ found desc
      → symbols h (codes "init") ≡ found init
      → Loads opened symbols (none, loaded h name desc) 0

on_symbol :
    {A : Type 0} {P : A → Sys World → Type 0} (sym : Symbol) (none' : Bytes → Run (Sys World) A)
    (some' : Bytes → Run (Sys World) A)
    → ((message : Bytes) → sym ≡ missing message → Returns P (none' message))
    → ((text : Bytes) → sym ≡ found text → Returns P (some' text))
    → Returns P (elim sym [ found text ↦ some' text | missing message ↦ none' message ])
on_symbol (found text) none' some' no' yes' = yes' text refl
on_symbol (missing message) none' some' no' yes' = no' message refl

-- The calls behind the loading of a module: init is called of one that is loaded.
abbrev pub ran : Cell → List Call → List Call
ran (loaded h name desc) trace = Call.init h ∷ trace
ran (Cell.ptr p) trace = trace
ran unset trace = trace

module _ (os : Os) where
  load_symbols-Loads :
      (opened : Dlopened) (s : Sys World)
      → IsHarmless os
      → s.err_code ≡ 0
      → Returns
          (λ r t.
            (code : ℕ) × Loads opened (os.dlsym s.world.trace) r code
            × (t ≡ record s {
              err_code = code;
              world = record s.world { trace = ran r.1 s.world.trace };
            }))
          (load_symbols os opened s)
  unfolding errm_error
  load_symbols-Loads (dlerror message) s harmless idle =
      returns (dyn_shared_obj_error, unopened refl, refl)
  load_symbols-Loads (handle h) s harmless idle =
      on_symbol (os.dlsym s.world.trace h (codes "name")) _ _
        (λ _ e. returns (dyn_shared_obj_error, incomplete refl name_needed e, refl))
        λ name e.
          on_symbol (os.dlsym s.world.trace h (codes "desc")) _ _
            (λ _ e'. returns (dyn_shared_obj_error, incomplete refl desc_needed e', refl))
            λ desc e'.
              on_symbol (os.dlsym s.world.trace h (codes "init")) _ _
                (λ _ e''. returns (dyn_shared_obj_error, incomplete refl init_needed e'', refl))
                λ init e''.
                  rw (harmless h (record s.world { trace = Call.init h ∷ s.world.trace })) (
                    returns (
                      0,
                      complete refl e e' e'',
                      ap
                          (λ c. record s {
                            err_code = c;
                            world = record s.world { trace = Call.init h ∷ s.world.trace };
                          })
                          idle,
                    ))

  -- If memory for the path is granted, at an address where nothing is live, and every module's init
  -- returns and leaves the program's memory alone, load_module opens the object at the path that is
  -- the directory followed by the name. Without a handle it gives the message of dlerror, and also
  -- if one of the symbols name, desc and init is missing, with the error of a shared object in both
  -- cases; otherwise it gives no message, no error and a module of the handle and the two texts,
  -- and has called the object's init once, behind all the lookups. In no other case is init called.
  -- Each block of memory and the stack of deferred calls are as before, and errno is what dlopen
  -- leaves in it.
  pub load_module_lem :
      (name modules_path : Bytes) (s : Sys World)
      → IsHarmless os
      → s.world.next ≢ 0
      → s.world.grants s.world.allocs ≡ true
      → s.world.heap s.world.next ≡ none
      → let path = some (modules_path ++ name) in
        let trace = Call.dlopen path ∷ s.world.trace in
        Returns
          (λ r t.
            (code : ℕ) × Loads (os.dlopen s.world.trace path) (os.dlsym trace) r code
            × (t ≡ record s {
              err_code = code;
              errno = os.dl_errno s.world.trace s.errno;
              world = record (given_back s.world (path_len modules_path name)) {
                trace = ran r.1 trace;
              };
            }))
          (load_module os name modules_path s)
  unfolding load_module errm_clear
  load_module_lem name modules_path s harmless pos' granted unused =
      simp
        (
          get_mod_path_lem modules_path name (record s { err_code = 0 }) pos' granted,
          ==_false s.world.next 0 pos',
          text_at_fresh,
        )
        (rw
          (free_fresh
            (record s.world { trace = Call.dlopen (some (modules_path ++ name)) ∷ s.world.trace })
            (path_len modules_path name)
            (text_block (path_len modules_path name) (modules_path ++ name)) pos' unused)
          (load_symbols-Loads (os.dlopen s.world.trace (some (modules_path ++ name))) _ harmless
            refl))
