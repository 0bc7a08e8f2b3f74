-- ===== src/Shell/Start/Entry.antt =====
-- The start and the end of the shell: src/shell/shell.c, shell_main_entry.
use prom.Prelude.Bytes.{Bytes}
use prom.Machine.{Run}
use prom.Tracer.Env.{Env}
use prom.Shell.Desk.{Desk}
use prom.Machine.Returns.{Returns}
use prom.Shell.Master.Kept.{HasVterm}
use prom.Shell.Master.Rounds.{Within}

-- A run of the shell within the states that have a terminal.
abbrev pub Tidy : {T A : Type 0} → Run (Desk T) A → Type 0
Tidy = Within HasVterm
