-- ===== src/Filesystem/System.antt =====
-- What the program asks of the operating system and of the C library's services. Each answer may
-- depend on the calls that were made before.
use prom.Prelude.{ℕ, ◌≡◌, Option, List}
use prom.Prelude.Bytes.{Bytes}
use prom.Machine.{Cmd, ok}
use prom.Memory.{Call, World}

-- opendir: a stream with its entries in the order of readdir, or NULL and errno.
pub data Opened : Type 0 where
  opened : List Bytes → Opened
  refused : ℕ → Opened

-- dlopen and dlsym of one object: each symbol is the text behind it or the message of dlerror.
pub data Symbol : Type 0 where
  found : Bytes → Symbol
  missing : Bytes → Symbol

pub data Dlopened : Type 0 where
  handle : ℕ → Dlopened
  dlerror : Bytes → Dlopened

pub record Os : Type 0 where
  -- the words, or nothing if wordexp does not return 0
  pub wordexp : List Call → Bytes → Option (List Bytes)
  pub getcwd : List Call → Option Bytes
  pub opendir : List Call → Bytes → Opened
  -- dlopen(path, RTLD_NOW); `none` is a NULL path
  pub dlopen : List Call → Option Bytes → Dlopened
  pub dlsym : List Call → ℕ → Bytes → Symbol
  -- what dlopen leaves in errno, given what it held before
  pub dl_errno : List Call → ℕ → ℕ
  -- the code of an opened object's init
  pub init : ℕ → Cmd World (Unit {0})
  -- 0, or errno
  pub symlink : List Call → Bytes → Option Bytes → ℕ
  pub remove : List Call → Option Bytes → ℕ
  pub dlclose : List Call → ℕ → Option Bytes
  pub strerror : ℕ → Bytes

-- The init of a module returns, and leaves the program's memory as it is: all that it is for is to
-- fill the struct of callbacks that it is given.
abbrev pub IsHarmless : Os → Type 0
IsHarmless os = (h : ℕ) (w : World) → os.init h w ≡ ok tt w
