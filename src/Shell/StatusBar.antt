-- ===== src/Shell/StatusBar.antt =====
-- The text of the status bar and the sizes of buffers: src/shell/shell.c.
pub mod Shape
use prom.Prelude.{
  ℕ, zero, suc, ◌+◌, ◌-◌, [], ◌++◌, length, take, set, replicate, ltb, if◌then◌else◌,
}
use prom.Prelude.Bytes.{Bytes, codes}

unfoldable pub minimum : ℕ → ℕ → ℕ
minimum a b = if ltb b a then a else b

abbrev pub status_text : Bytes
status_text = codes "[prom]: prom is running..."

-- snprintf(status, len, "%s", text) into a buffer of `len` zeros: what fits, its NUL, and the
-- zeros behind it.
abbrev pub printed : ℕ → Bytes → Bytes
printed len t = let shown = take (len - 1) t in shown ++ replicate (len - length shown) 0

-- `for (; s_len < len; status[s_len++] = ' ');` by the rounds that are left
pub pad : ℕ → ℕ → Bytes → Bytes
pad zero i status = status
pad (suc left) i status = pad left (i + 1) (set status i b' ')

-- The buffer behind `status`, whose `len` bytes set_status_bar writes; len is at least 1. The
-- value of snprintf is the length of the whole text.
unfoldable pub set_status_bar : ℕ → Bytes
unfolding pad
set_status_bar len =
    let s_len = length status_text in
    set (pad (len - s_len) s_len (printed len status_text)) (len - 1) 0
