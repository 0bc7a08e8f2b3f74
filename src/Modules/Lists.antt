-- ===== src/Modules/Lists.antt =====
-- The installed modules and the ones that do not load: src/modules/mods.c.
use prom.Prelude.{ℕ, zero, suc, ◌+◌, ◌-◌, none, some, length, ◌==◌, if◌then◌else◌}
use prom.Prelude.Bytes.{Bytes}
use prom.Machine.{Cmd, faulted, pure, ◌>>=◌, ◌>>◌, and_then}
use prom.Memory.{Cell, unset, ptr, loaded, World, null, text_at}
use prom.Dga.{dga_new, dga_len, dga_grow, dga_free, dga_header, get, set}
use prom.Errm.State.{Handle, addr, object, not_enough_memory}
use prom.Errm.Ops.{errm_error, errm_clear, errored, on_error_return, defer, edf_func2}
use prom.Filesystem.{P, lift}
use prom.Filesystem.System.{Os}
use prom.Filesystem.Dir.{dir_content, free_dir_content, strcpy_array}
use prom.Modules.{load_module, rm_module}

unfoldable pub free_mod_names : ℕ → Cmd World (Unit {0})
free_mod_names names = free_dir_content names

unfoldable pub free_installed_mods : ℕ → Cmd World (Unit {0})
free_installed_mods mods = dga_free mods

-- free_ul_mod_names frees the same elements as free_dir_content, by a pointer that runs on.
unfoldable pub free_ul_mod_names : ℕ → Cmd World (Unit {0})
free_ul_mod_names names = free_dir_content names

abbrev pub free_mod_names_handle : Handle World
free_mod_names_handle (addr p) = free_mod_names p
free_mod_names_handle (object o) = λ _. faulted

-- The C string behind `all_mod_names[i]`, which is an array of characters.
abbrev pub name_at : ℕ → ℕ → Cmd World Bytes
name_at names i w = and_then (get names i w) λ c. elim c [
  | ptr p ↦ text_at (dga_header p)
  | unset ↦ λ _. faulted
  | loaded h n d ↦ λ _. faulted
]

-- The result of a list function: the array and `*len_ret`, given what that held before.
abbrev pub Listed : Type 0
Listed = ℕ × ℕ

module _ (os : Os) (modules_path : Bytes) where
  unfoldable pub mod_names : ℕ → P Listed
  mod_names len_ret = dir_content os modules_path len_ret

  -- The label `fail` of installed_mods.
  abbrev pub fail : ℕ → ℕ → P Listed
  fail all_mods len_ret = do lift (dga_free all_mods); pure (null, len_ret)

  -- The last element of the array is the new module.
  abbrev pub store_last : ℕ → Cell → P (Unit {0})
  store_last arr c = do n ← lift (dga_len arr); lift (set arr (n - 1) c)

  -- The loop of installed_mods from index `i` on, by the rounds that are left.
  unfoldable pub install_all : ℕ → ℕ → ℕ → ℕ → ℕ → P Listed
  install_all zero i names all_mods len_ret = do n ← lift (dga_len all_mods); pure (all_mods, n)
  install_all (suc left) i names all_mods len_ret = do
    mod_name ← lift (name_at names i)
    tmp ← lift (dga_grow all_mods 1)
    if tmp == null then (errm_error not_enough_memory >> fail all_mods len_ret) else do
      (err, curr_mod) ← load_module os mod_name modules_path
      λ s.
          if errored s
          then fail tmp len_ret s
          else (store_last tmp curr_mod >> install_all left (i + 1) names tmp len_ret) s

  unfoldable pub installed_mods : ℕ → P Listed
  unfolding install_all
  installed_mods len_ret =
      edf_func2
        (λ (len_ret : ℕ) (path : Bytes). do
          (all_mod_names, len_mod_names) ← mod_names 0
          on_error_return (null, len_ret)
              (do
                defer free_mod_names_handle all_mod_names
                all_mods ← lift (dga_new 0 56)
                if all_mods == null
                    then (errm_error not_enough_memory >> pure (null, len_ret))
                    else install_all len_mod_names 0 all_mod_names all_mods len_ret))
        len_ret modules_path

  -- The label `memfail` of clean_ul_mod_names.
  abbrev pub clean_memfail : ℕ → ℕ → ℕ → P Listed
  clean_memfail ul_names names len_ret = do
    lift (free_ul_mod_names ul_names)
    lift (free_mod_names names)
    errm_error not_enough_memory
    pure (null, len_ret)

  -- One module that does not load: its name is copied and listed, and its link removed.
  abbrev pub clean_one : ℕ → Bytes → ℕ → ℕ → (ℕ → P Listed) → P Listed
  clean_one names name ul_names len_ret more = do
    ul_mod_name ← lift (dga_new (length name + 1) 4)
    if ul_mod_name == null then clean_memfail ul_names names len_ret else do
      lift (strcpy_array ul_mod_name name)
      tmp ← lift (dga_grow ul_names 1)
      if tmp == null
          then clean_memfail ul_names names len_ret
          else do store_last tmp (ptr ul_mod_name); rm_module os name modules_path; more tmp

  unfoldable pub clean_loop : ℕ → ℕ → ℕ → ℕ → ℕ → P Listed
  clean_loop zero i names ul_names len_ret = do
    lift (free_mod_names names)
    n ← lift (dga_len ul_names)
    pure (ul_names, n)
  clean_loop (suc left) i names ul_names len_ret = do
    name ← lift (name_at names i)
    (err, curr_mod) ← load_module os name modules_path
    elim err [
      | none ↦ clean_loop left (i + 1) names ul_names len_ret
      | some message ↦
          clean_one names name ul_names len_ret
            (λ ul_names'. clean_loop left (i + 1) names ul_names' len_ret)
    ]

  unfoldable pub clean_ul_mod_names : ℕ → P Listed
  unfolding clean_loop
  clean_ul_mod_names len_ret = do
    errm_clear
    (names, len_names) ← mod_names 0
    on_error_return (null, len_ret)
        (do
          ul_names ← lift (dga_new 0 8)
          (if ul_names == null then errm_error not_enough_memory else pure tt)
          clean_loop len_names 0 names ul_names len_ret)
