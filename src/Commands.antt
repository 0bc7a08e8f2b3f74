-- ===== src/Commands.antt =====
-- The command line: src/prom.c, src/main.c and src/prom-module.c. `argv` is the list of the
-- arguments, and `argc` its length.
pub mod Dispatch
pub mod Listing
pub mod Cleaning
pub mod Removing
use prom.Prelude.{
  ℕ, zero, suc, ◌+◌, ◌/◌, ◌%◌, Bool, true, false, ◌||◌, none, some, List, [], ◌∷◌, ◌++◌, ltb, ◌==◌,
  if◌then◌else◌,
}
use prom.Prelude.Bytes.{Bytes, codes, str_eq}
use prom.Prelude.Int.{ℤ, pos, negsuc}
use prom.Machine.{faulted, exited, pure, ◌>>=◌, ◌>>◌, and_then}
use prom.Memory.{Cell, unset, ptr, loaded, print_out, print_err, null, free, text_at, record_call}
use prom.Dga.{get}
use prom.Filesystem.{P, lift, abs_path}
use prom.Filesystem.System.{Os}
use prom.Modules.{load_module, unload_module, add_module, rm_module}
use prom.Modules.Lists.{
  installed_mods, clean_ul_mod_names, free_ul_mod_names, free_installed_mods, name_at,
}

abbrev pub modules_path : Bytes
modules_path = codes "/home/nullp0tr/.prom/modules/"

abbrev pub module_add_usage : Bytes
module_add_usage = codes "usage: prom-module-add path\n"

abbrev pub module_remove_usage : Bytes
module_remove_usage = codes "usage: prom-module-remove name\n"

abbrev pub module_usage : Bytes
module_usage =
    codes
      "usage: prom-module <command>\n\ncommands:\n    list      list all modules\n    add       add a new namespace\n    remove    remove an existing namespace\n"

abbrev pub prom_usage : Bytes
prom_usage =
    codes
      "usage: prom <command> [--help]\n\nprom commands\n    module       Manage your modules\n    shell        Launch a prom shell\n"

abbrev pub say : Bytes → P (Unit {0})
say t = lift (record_call (print_out t))

abbrev pub complain : Bytes → P (Unit {0})
complain t = lift (record_call (print_err t))

pub usage_exit : {A : Type 0} → Bytes → P A
usage_exit usage s = and_then (complain usage s) λ _. exited 1

abbrev pub eexist : ℕ
eexist = 17

abbrev pub enoent : ℕ
enoent = 2

-- `%d`: an int has at most 10 digits.
abbrev pub digits : ℕ → ℕ → Bytes
digits zero n = []
digits (suc more) n = (if ltb n 10 then [] else digits more (n / 10)) ++ (48 + n % 10) ∷ []

abbrev pub decimal : ℕ → Bytes
decimal = digits 10

module _ (os : Os) where
  -- The messages of a failed add, by errno.
  abbrev pub add_complaint : Bytes → Bytes → ℕ → Bytes
  add_complaint mod_path name e =
      codes "Failed to add module from "
      ++ mod_path
      ++ codes ": "
      ++ (if e == eexist
          then codes "Module with name " ++ name ++ codes " exists already."
          else os.strerror e)
      ++ codes "\n"

  -- Behind a load that succeeded. `modules_path` is the local one, the empty string.
  abbrev pub add_loaded : Bytes → Bytes → Cell → P ℤ
  add_loaded mod_path abs_text (loaded h name desc) = do
    am ← add_module os abs_text name (codes "")
    exit_status ← elim am [
      | pos n ↦ pure (pos 0)
      | negsuc n ↦
          λ s. and_then (complain (add_complaint mod_path name s.errno) s) λ _. pure (pos 1)
    ]
    unload_module os (loaded h name desc)
    pure exit_status
  add_loaded mod_path abs_text unset = λ _. faulted
  add_loaded mod_path abs_text (ptr p) = λ _. faulted

  abbrev pub add_path : Bytes → P ℤ
  add_path mod_path = do
    abs_mod_path ← abs_path os mod_path
    if abs_mod_path == null then pure (pos 1) else do
      abs_text ← lift (text_at abs_mod_path)
      (mod_err, m) ← load_module os abs_text (codes "")
      exit_status ← elim mod_err [
        | some message ↦ do
          complain (mod_path ++ codes " is not a valid module.\n" ++ message ++ codes ".\n")
          pure (pos 1)
        | none ↦ add_loaded mod_path abs_text m
      ]
      lift (free abs_mod_path)
      pure exit_status

  unfoldable pub cmd_arg_add : List Bytes → P ℤ
  cmd_arg_add [] = usage_exit module_add_usage
  cmd_arg_add (self ∷ []) = usage_exit module_add_usage
  cmd_arg_add (self ∷ mod_path ∷ rest) = add_path mod_path

  -- The messages of a failed removal, by errno.
  abbrev pub remove_complaint : Bytes → ℕ → Bytes
  remove_complaint mod_name e =
      if e == enoent
      then codes "Module with name " ++ mod_name ++ codes " doesn't exist.\n"
      else os.strerror e ++ codes ". " ++ decimal e ++ codes "\n"

  abbrev pub remove_name : Bytes → P ℤ
  remove_name mod_name = do
    rm ← rm_module os mod_name modules_path
    elim rm [
      | pos n ↦ pure (pos 0)
      | negsuc n ↦ λ s. and_then (complain (remove_complaint mod_name s.errno) s) λ _. pure (pos 1)
    ]

  unfoldable pub cmd_arg_remove : List Bytes → P ℤ
  cmd_arg_remove [] = usage_exit module_remove_usage
  cmd_arg_remove (self ∷ []) = usage_exit module_remove_usage
  cmd_arg_remove (self ∷ mod_name ∷ rest) = remove_name mod_name

  -- `f_clean` after the loop over the arguments
  abbrev pub wants_clean : List Bytes → Bool
  wants_clean [] = false
  wants_clean (a ∷ args) = str_eq a (codes "--clean") || wants_clean args

  -- The loops that print, by the rounds that are left.
  abbrev pub print_removed : ℕ → ℕ → ℕ → P (Unit {0})
  print_removed zero damaged i = pure tt
  print_removed (suc left) damaged i = do
    name ← lift (name_at damaged i)
    say (codes "Removed: " ++ name ++ codes "\n")
    print_removed left damaged (i + 1)

  abbrev pub print_module : Cell → P (Unit {0})
  print_module (loaded h name desc) = do
    say (codes "-----\n")
    say (codes "Name: " ++ name ++ codes "\n")
    say (codes "Desc: " ++ desc ++ codes "\n")
  print_module unset = λ _. faulted
  print_module (ptr p) = λ _. faulted

  abbrev pub print_modules : ℕ → ℕ → ℕ → P (Unit {0})
  print_modules zero mods i = pure tt
  print_modules (suc left) mods i = do
    m ← lift (get mods i)
    print_module m
    print_modules left mods (i + 1)

  -- Behind clean_ul_mod_names.
  abbrev pub clean_removed : ℕ × ℕ → P ℤ
  clean_removed (damaged, damaged_len) =
      if damaged == null
      then pure (negsuc 0)
      else do print_removed damaged_len damaged 0; lift (free_ul_mod_names damaged); pure (pos 0)

  abbrev pub clean_list : P ℤ
  clean_list = do found ← clean_ul_mod_names os modules_path 0; clean_removed found

  -- Behind installed_mods.
  abbrev pub list_mods : ℕ × ℕ → P ℤ
  list_mods (mods, len_ret) = if mods == null then pure (pos 1) else do
    print_modules len_ret mods 0
    lift (free_installed_mods mods)
    say (codes "-----\n")
    pure (pos 0)

  abbrev pub plain_list : P ℤ
  plain_list = do found ← installed_mods os modules_path 0; list_mods found

  unfoldable pub cmd_arg_list : List Bytes → P ℤ
  cmd_arg_list argv = if wants_clean argv then clean_list else plain_list

  -- The choice of `cmd`, and the call with argv moved on by one.
  abbrev pub run_command : Bytes → List Bytes → P ℤ
  run_command cmd_arg argv =
      if str_eq cmd_arg (codes "list")
      then cmd_arg_list argv
      else if str_eq cmd_arg (codes "add")
      then cmd_arg_add argv
      else if str_eq cmd_arg (codes "remove")
      then cmd_arg_remove argv
      else usage_exit module_usage

  pub module_main : List Bytes → P ℤ
  module_main [] = usage_exit module_usage
  module_main (self ∷ []) = usage_exit module_usage
  module_main (self ∷ cmd_arg ∷ rest) = run_command cmd_arg (cmd_arg ∷ rest)

  -- `shell_main` is the shell of another module of this library, here an argument.
  pub cmd_main : (List Bytes → P ℤ) → List Bytes → P ℤ
  cmd_main shell_main [] = usage_exit prom_usage
  cmd_main shell_main (self ∷ []) = usage_exit prom_usage
  cmd_main shell_main (self ∷ command ∷ rest) =
      if str_eq command (codes "module")
      then module_main (command ∷ rest)
      else if str_eq command (codes "shell")
      then shell_main (command ∷ rest)
      else usage_exit prom_usage
