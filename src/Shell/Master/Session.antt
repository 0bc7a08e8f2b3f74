-- ===== src/Shell/Master/Session.antt =====
-- The bytes of a session, from the pseudo terminal to the screen and back: src/shell/shell.c.
use prom.Prelude.{ℕ, ◌≡◌, some, List, [], ◌∷◌, ◌++◌, length, take, if◌then◌else◌}
use prom.Prelude.Int.{ℤ, pos, negsuc, eq_ℤ}
use prom.Prelude.Bytes.{Bytes}
use prom.Machine.{ok}
use prom.Tracer.Env.{Env}
use prom.Shell.Desk.{Vterm, Act, write, Reads, got, failed, Console, Desk}
use prom.Shell.Master.{again, master_round}
use prom.Shell.Master.Kept.{Moves, reads, writes, nothing, moves, Tells}

-- What the documentation of libvterm says of the bytes that a terminal takes and gives:
-- vterm_input_write is its only input, and its output is a queue, of which vterm_output_read takes
-- the front. `heard` is all that it has been given, `said` all that it has put into the queue and
-- `pending` what is still in there.
pub record IsChannel {T : Type 0} (v : Vterm T) : Type 0 where
  pub heard : T → Bytes
  pub said : T → Bytes
  pub pending : T → Bytes
  pub heard_input : (bs : Bytes) (t : T) → heard (v.input_write bs t).1 ≡ heard t ++ bs
  pub heard_told : (t t' : T) → Tells v t t' → heard t' ≡ heard t
  pub heard_read : (n : ℕ) (t : T) → heard (v.output_read n t).1 ≡ heard t
  pub said_input :
      (bs w : Bytes) (t : T)
      → said t ≡ w ++ pending t
      → said (v.input_write bs t).1 ≡ w ++ pending (v.input_write bs t).1
  pub said_told :
      (w : Bytes) (t t' : T) → Tells v t t' → said t ≡ w ++ pending t → said t' ≡ w ++ pending t'
  pub said_read :
      (n : ℕ) (w : Bytes) (t : T)
      → said t ≡ w ++ pending t
      → said (v.output_read n t).1 ≡ (w ++ (v.output_read n t).0) ++ pending (v.output_read n t).1

abbrev pub bytes_of : Reads → Bytes
bytes_of (got bs) = bs
bytes_of (failed e) = []

-- The bytes that the acts have read, in order; the answer to a read depends on the acts before it.
abbrev add_read : Console → Moves → List Act → Bytes → Bytes
add_read k reads acts bs = bs ++ bytes_of (k.reads acts)
add_read k (writes fd bytes) acts bs = bs
add_read k nothing acts bs = bs

abbrev pub received : Console → List Act → Bytes
received k [] = []
received k (a ∷ acts) = add_read k (moves a) acts (received k acts)

-- What write takes of some bytes, by its answer: a number of them from the front, or none for -1.
abbrev taken : ℤ → Bytes → Bytes
taken (pos n) bytes = take n bytes
taken (negsuc n) bytes = []

-- The bytes that a descriptor has taken, in order, by what the calls of write have answered.
abbrev add_written : Console → ℤ → Moves → List Act → Bytes → Bytes
add_written k fd reads acts bs = bs
add_written k fd (writes fd' bytes) acts bs =
    if eq_ℤ fd' fd then bs ++ taken (k.answer acts (write fd' bytes)) bytes else bs
add_written k fd nothing acts bs = bs

abbrev pub written : Console → ℤ → List Act → Bytes
written k fd [] = []
written k fd (a ∷ acts) = add_written k fd (moves a) acts (written k fd acts)

-- The descriptor takes all that it is given.
abbrev pub TakesAll : Console → ℤ → Type 0
TakesAll k fd =
    (acts : List Act) (bytes : Bytes) → k.answer acts (write fd bytes) ≡ pos (length bytes)

module _ {T : Type 0} (v : Vterm T) (c : IsChannel v) (k : Console) where
  -- The terminal has been given all that was read from the master, and all that it has said has
  -- been taken by the master or is still in its queue; both in order.
  pub record IsFaithful (fd : ℤ) (s : Desk T) : Type 0 where
    pub term : T
    pub there : s.vterm ≡ some term
    pub master : s.fd_master ≡ fd
    pub shown : c.heard term ≡ received k s.trace
    pub sent : c.said term ≡ written k fd s.trace ++ c.pending term

  module _ (kernel : Env) (fuel : ℕ) where
    -- The states between the rounds of master_process.
    pub data Reached (s : Desk T) : Desk T → Type 0 where
      here : Reached s s
      next :
          {t u : Desk T} → Reached s t → master_round v k kernel fuel t ≡ ok again u → Reached s u
