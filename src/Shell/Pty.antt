-- ===== src/Shell/Pty.antt =====
-- Opening the pseudo terminal: src/shell/pty.c.
use prom.Prelude.{◌==◌, Bool, true, false, if◌then◌else◌}
use prom.Prelude.Int.{ℤ, pos, negsuc}
use prom.Machine.{pure, ◌>>=◌}
use prom.Shell.Desk.{openpt, grantpt, unlockpt, open_slave, Console, Q, minus_one, request}

-- `r < 0`
abbrev pub is_negative : ℤ → Bool
is_negative (pos n) = false
is_negative (negsuc n) = true

-- `r != 0`
abbrev pub is_nonzero : ℤ → Bool
is_nonzero (pos n) = if n == 0 then false else true
is_nonzero (negsuc n) = true

module _ {T : Type 0} (k : Console) where
  unfoldable pub new_master_pty : Q T ℤ
  new_master_pty = do
    fd_master ← request k openpt
    if is_negative fd_master then pure minus_one else do
      granted ← request k (grantpt fd_master)
      if is_nonzero granted then pure minus_one else do
        unlocked ← request k (unlockpt fd_master)
        if is_nonzero unlocked then pure minus_one else pure fd_master

  unfoldable pub obtain_slave_pty : ℤ → Q T ℤ
  obtain_slave_pty fd_master = request k (open_slave fd_master)
