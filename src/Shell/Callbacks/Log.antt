-- ===== src/Shell/Callbacks/Log.antt =====
-- The log of the callbacks: src/shell/shell.c, file_read_cb and file_write_cb.
use prom.Prelude.{
  ◌≡◌, refl, ap, true, false, List, [], ◌∷◌, ◌++◌, fun_ext, Bool-cases, inl, inr, if◌then◌else◌,
}
use mathlib.Core.List.{append-nil}
use prom.Prelude.Bytes.{Bytes, codes, str_eq}
use prom.Prelude.Int.{ℤ, pos, negsuc}
use prom.Machine.{Cmd, ok, faulted, pure, ◌>>=◌}
use prom.Logger.{Disk, appended, info}
use prom.Logger.Lines.{line, appended-appended, oflogf_lem, oflogf_unopened}
use prom.Shell.Callbacks.{file_read_cb, file_write_cb, log_file}

-- A call that the tracer makes.
pub data Consulted : Type 0 where
  read written : Bytes → Consulted

abbrev pub consult : Consulted → Cmd Disk ℤ
consult (read path) = file_read_cb path
consult (written path) = file_write_cb path

-- The calls in their order, with what they answer.
abbrev pub consult_all : List Consulted → Cmd Disk (List ℤ)
consult_all [] = pure []
consult_all (c ∷ cs) = do a ← consult c; more ← consult_all cs; pure (a ∷ more)

abbrev pub answer : Consulted → ℤ
answer (read path) = pos 0
answer (written path) = if str_eq path (codes "trace_test.file") then negsuc 0 else pos 0

abbrev pub answers : List Consulted → List ℤ
answers [] = []
answers (c ∷ cs) = answer c ∷ answers cs

abbrev pub entry : Consulted → Bytes
entry (read path) = line info (codes "CB::FILE_READ::" ++ path ++ codes "\n")
entry (written path) = line info (codes "CB::FILE_WRITE::" ++ path ++ codes "\n")

abbrev pub entries : List Consulted → Bytes
entries [] = []
entries (c ∷ cs) = entry c ++ entries cs

pub consult-entry :
    (c : Consulted) (d : Disk)
    → d.opens log_file ≡ true
    → consult c d ≡ ok (answer c) (record d { content = appended log_file (entry c) d.content })
unfolding file_read_cb file_write_cb
consult-entry (read path) d opens = rw (oflogf_lem info log_file _ d opens) refl
consult-entry (written path) d opens = rw (oflogf_lem info log_file _ d opens) refl

appended-nil : (file : Bytes) (content : Bytes → Bytes) → content ≡ appended file [] content
appended-nil file content = fun_ext λ f. elim (Bool-cases (str_eq file f)) [
  | inl same ↦ rw (same, append-nil (content f)) refl
  | inr other ↦ rw other refl
]

-- If fopen opens the log, the callbacks, called one after the other, append one line for each call
-- to it, in the order of the calls and with the path, and to no other file, leave no stream open,
-- and answer 0, but for -1 to the write of "trace_test.file".
pub consult_all-entries :
    (cs : List Consulted) (d : Disk)
    → d.opens log_file ≡ true
    → consult_all cs d
      ≡ ok (answers cs) (record d { content = appended log_file (entries cs) d.content })
consult_all-entries [] d opens =
    ap (λ c. ok [] (record d { content = c })) (appended-nil log_file d.content)
consult_all-entries (c ∷ cs) d opens =
    rw
      (
        consult-entry c d opens,
        consult_all-entries cs (record d { content = appended log_file (entry c) d.content }) opens,
        appended-appended log_file (entry c) (entries cs) d.content,
      )
      refl

-- If fopen does not open the log, the first callback writes through NULL.
pub consult_all-unopened :
    (c : Consulted) (cs : List Consulted) (d : Disk)
    → d.opens log_file ≡ false
    → consult_all (c ∷ cs) d ≡ faulted
unfolding file_read_cb file_write_cb
consult_all-unopened (read path) cs d refused = rw (oflogf_unopened info log_file _ d refused) refl
consult_all-unopened (written path) cs d refused =
    rw (oflogf_unopened info log_file _ d refused) refl
