-- ===== src/Tests/Logged.antt =====
-- The log of the callbacks on two files.
use prom.Prelude.{◌≡◌, refl, true, [], ◌∷◌}
use prom.Prelude.Bytes.{codes}
use prom.Machine.{ok}
use prom.Logger.{Disk, appended}
use prom.Shell.Callbacks.{log_file}
use prom.Shell.Callbacks.Log.{
  Consulted, read, written, consult_all, answers, entries, consult_all-entries,
}
use prom.Prelude.{List}

abbrev disk : Disk
disk = record { content = λ _. codes "old\n"; opens = λ _. true; streams = 0 }

abbrev asked : List Consulted
asked = read (codes "a.txt") ∷ written (codes "trace_test.file") ∷ []

entries_text :
    entries asked ≡ codes "Info: CB::FILE_READ::a.txt\nInfo: CB::FILE_WRITE::trace_test.file\n"
entries_text = refl

consult_all_example :
    consult_all asked disk
    ≡ ok (answers asked) (record disk { content = appended log_file (entries asked) disk.content })
consult_all_example = consult_all-entries asked disk refl
