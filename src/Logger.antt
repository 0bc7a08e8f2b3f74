-- ===== src/Logger.antt =====
-- The log lines of src/utils/logger.h. A macro with a format and its arguments takes the text that
-- they give.
pub mod Lines
use prom.Prelude.{ℕ, ◌+◌, ◌-◌, Bool, ◌++◌, if◌then◌else◌}
use prom.Prelude.Bytes.{Bytes, codes, str_eq}
use prom.Machine.{Cmd, ok, faulted, ◌>>=◌, ◌>>◌}

-- enum LOG_LEVELS
pub data LogLevel : Type 0 where
  error warn info debug : LogLevel

abbrev pub log_lvl_to_msg : LogLevel → Bytes
log_lvl_to_msg error = codes "Error"
log_lvl_to_msg warn = codes "Warning"
log_lvl_to_msg info = codes "Info"
log_lvl_to_msg debug = codes "Debug"

-- A FILE pointer: NULL, or a stream that appends to the file of a name.
pub data File : Type 0 where
  null : File
  append_to : Bytes → File

-- The files by name, whether fopen opens one, and how many streams are open.
pub record Disk : Type 0 where
  pub content : Bytes → Bytes
  pub opens : Bytes → Bool
  pub streams : ℕ

abbrev pub appended : Bytes → Bytes → (Bytes → Bytes) → Bytes → Bytes
appended file text content f = if str_eq file f then content f ++ text else content f

-- fopen(file, "a")
abbrev pub fopen : Bytes → Cmd Disk File
fopen file d =
    if d.opens file then ok (append_to file) (record d { streams = d.streams + 1 }) else ok null d

-- Writing through NULL is a fault.
abbrev pub fprintf : File → Bytes → Cmd Disk (Unit {0})
fprintf null text = λ _. faulted
fprintf (append_to file) text = λ d. ok tt (record d { content = appended file text d.content })

abbrev pub fclose : File → Cmd Disk (Unit {0})
fclose null = λ _. faulted
fclose (append_to file) = λ d. ok tt (record d { streams = d.streams - 1 })

pub logf : LogLevel → File → Bytes → Cmd Disk (Unit {0})
logf lvl fp text = do fprintf fp (log_lvl_to_msg lvl ++ codes ": "); fprintf fp text

unfoldable pub oflogf : LogLevel → Bytes → Bytes → Cmd Disk (Unit {0})
unfolding logf
oflogf lvl file text = do log_fp ← fopen file; logf lvl log_fp text; fclose log_fp

unfoldable pub oflog : LogLevel → Bytes → Bytes → Cmd Disk (Unit {0})
oflog lvl file msg = oflogf lvl file (msg ++ codes ".\n")

unfoldable pub log : LogLevel → File → Bytes → Cmd Disk (Unit {0})
log lvl fp msg = logf lvl fp (msg ++ codes ".\n")
