-- ===== src/Shell/Callbacks.antt =====
-- The callbacks that the shell gives the tracer: src/shell/shell.c.
pub mod Denies
pub mod Log
use prom.Prelude.{Option, none, some, List, ◌++◌, if◌then◌else◌}
use prom.Prelude.Int.{ℤ, pos, negsuc}
use prom.Prelude.Bytes.{Bytes, codes, str_eq}
use prom.Machine.{Run, ok, aborted, faulted, exited, stuck, Cmd, pure, ◌>>=◌, ◌>>◌}
use prom.Tracer.Env.{Event, Callback, Callbacks}
use prom.Logger.{Disk, info, oflogf}

abbrev pub log_file : Bytes
log_file = codes "prom_callbacks.log"

unfoldable pub file_read_cb : Bytes → Cmd Disk ℤ
file_read_cb path = do
  oflogf info log_file (codes "CB::FILE_READ::" ++ path ++ codes "\n")
  pure (pos 0)

unfoldable pub file_write_cb : Bytes → Cmd Disk ℤ
file_write_cb path = do
  oflogf info log_file (codes "CB::FILE_WRITE::" ++ path ++ codes "\n")
  pure (if str_eq path (codes "trace_test.file") then negsuc 0 else pos 0)

-- The answer of a callback that returns. The callbacks end in no other way than by returning or in
-- undefined behaviour.
abbrev pub answer_of : Run Disk ℤ → Option ℤ
answer_of (ok r d) = some r
answer_of aborted = none
answer_of faulted = none
answer_of (exited n d) = none
answer_of stuck = none

-- A callback as the tracer calls it, on the files as they are when that has happened. The line that
-- it writes is in the Disk that it leaves, which the tracer does not see.
abbrev pub on_disk : (List Event → Disk) → (Bytes → Cmd Disk ℤ) → Callback
on_disk disk cb es path = answer_of (cb path (disk es))

-- `tracer_cbs` of master_process: what is not set is NULL.
unfoldable pub tracer_cbs : (List Event → Disk) → Callbacks
tracer_cbs disk = record {
  file_read = some (on_disk disk file_read_cb);
  file_write = some (on_disk disk file_write_cb);
  syscall = none;
}
