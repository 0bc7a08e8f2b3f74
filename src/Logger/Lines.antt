-- ===== src/Logger/Lines.antt =====
-- What a log line does to the files: src/utils/logger.h.
use prom.Prelude.{◌+◌, ◌-◌, ◌≡◌, refl, ap, fun_ext, true, false, ◌++◌, Bool-cases, inl, inr, arith}
use mathlib.Core.List.{append_assoc}
use prom.Prelude.Bytes.{Bytes, codes, str_eq}
use prom.Machine.{ok, faulted}
use prom.Logger.{LogLevel, log_lvl_to_msg, Disk, appended, oflogf, logf}

-- A line of the log.
abbrev pub line : LogLevel → Bytes → Bytes
line lvl text = (log_lvl_to_msg lvl ++ codes ": ") ++ text

pub appended-appended :
    (file a b : Bytes) (content : Bytes → Bytes)
    → appended file b (appended file a content) ≡ appended file (a ++ b) content
appended-appended file a b content = fun_ext λ f. elim (Bool-cases (str_eq file f)) [
  | inl same ↦ rw same (append_assoc (content f) a b)
  | inr other ↦ rw other refl
]

-- If fopen opens the file, oflogf appends one line of the level and the text to it, changes no
-- other file and leaves no stream open.
pub oflogf_lem :
    (lvl : LogLevel) (file text : Bytes) (d : Disk)
    → d.opens file ≡ true
    → oflogf lvl file text d
      ≡ ok tt (record d { content = appended file (line lvl text) d.content })
unfolding oflogf logf
oflogf_lem lvl file text d opens =
    let closed : d.streams + 1 - 1 ≡ d.streams = omega arith in
    rw (opens, closed)
      (ap (λ c. ok tt (record d { content = c }))
        (appended-appended file (log_lvl_to_msg lvl ++ codes ": ") text d.content))

-- If it does not, oflogf writes through NULL.
pub oflogf_unopened :
    (lvl : LogLevel) (file text : Bytes) (d : Disk)
    → d.opens file ≡ false
    → oflogf lvl file text d ≡ faulted
unfolding oflogf logf
oflogf_unopened lvl file text d refused = rw refused refl
