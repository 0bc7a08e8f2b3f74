-- ===== src/Shell/Master/Kept.antt =====
-- What a property of the state has to survive in a round of the event loop: src/shell/shell.c.
use prom.Prelude.{ℕ, ◌≡◌, refl, ◌⊎◌, Bool, some, List, [], ◌∷◌}
use prom.Prelude.Int.{ℤ}
use prom.Prelude.Bytes.{Bytes}
use prom.Tracer.Env.{Tracer}
use prom.Shell.Desk.{Arrow, Vterm, Act, read, write, got, failed, Console, Desk}

-- The bytes that an act moves: it reads some, it writes these, or it does neither.
pub data Moves : Type 0 where
  reads : Moves
  writes : ℤ → Bytes → Moves
  nothing : Moves

abbrev pub moves : Act → Moves
moves (read fd) = reads
moves (write fd bytes) = writes fd bytes
moves a = nothing

module _ {T : Type 0} where
  -- `globe.vterm` is not NULL.
  abbrev pub HasVterm : Desk T → Type 0
  HasVterm s = (t : T) × (s.vterm ≡ some t)

  module _ (v : Vterm T) where
    -- The terminal is told of a key or of a size, or to draw what has changed.
    pub data Tells : T → T → Type 0 where
      key : {a : Arrow} {t : T} → Tells t (v.keyboard_key a t)
      char : {c : ℕ} {t : T} → Tells t (v.keyboard_unichar c t)
      flush : {t : T} → Tells t (v.flush_damage t).1
      size : {y x : ℕ} {t : T} → Tells t (v.set_size y x t).1

    -- The property survives whatever a round of the loop does to the state.
    pub record IsKept (k : Console) (I : Desk T → Type 0) : Type 0 where
      pub there : (s : Desk T) → I s → HasVterm s
      pub acts :
          (a : Act) (e : ℕ) (s : Desk T)
          → moves a ≡ nothing
          → I s
          → I (record s { trace = a ∷ s.trace; errno = e })
      pub fails : (e : ℕ) (s : Desk T) → I s → I (record s { errno = e })
      pub sizes : (y x : ℕ) (s : Desk T) → I s → I (record s { rows = y; cols = x })
      pub signals : (b : Bool) (s : Desk T) → I s → I (record s { got_sigwinch = b })
      pub types : (cs : List ℤ) (s : Desk T) → I s → I (record s { keys = cs })
      pub traces : (t : Tracer) (s : Desk T) → I s → I (record s { tracer = t })
      pub tells :
          (s : Desk T) (t t' : T)
          → s.vterm ≡ some t
          → Tells t t'
          → I s
          → I (record s { vterm = some t' })
      -- a read that gives nothing
      pub starves :
          (e : ℕ) (s : Desk T)
          → (k.reads s.trace ≡ got []) ⊎ (k.reads s.trace ≡ failed e)
          → I s
          → I (record s { trace = read s.fd_master ∷ s.trace; errno = e })
      -- a read whose bytes the terminal is given
      pub hears :
          (s : Desk T) (t : T) (b : ℕ) (bs : Bytes)
          → k.reads s.trace ≡ got (b ∷ bs)
          → s.vterm ≡ some t
          → I s
          → I (record s {
            trace = read s.fd_master ∷ s.trace;
            vterm = some (v.input_write (b ∷ bs) t).1;
          })
      -- output of the terminal that is written to the master; write may set errno
      pub says :
          (e : ℕ) (s : Desk T) (t : T) (n : ℕ)
          → s.vterm ≡ some t
          → I s
          → I (record s {
            trace = write s.fd_master (v.output_read n t).0 ∷ s.trace;
            vterm = some (v.output_read n t).1;
            errno = e;
          })

    -- That the terminal is there is such a property.
    pub HasVterm-IsKept : (k : Console) → IsKept k HasVterm
    HasVterm-IsKept k = record {
      there = λ s h. h;
      acts = λ a e s none h. h;
      fails = λ e s h. h;
      sizes = λ y x s h. h;
      signals = λ b s h. h;
      types = λ cs s h. h;
      traces = λ t s h. h;
      tells = λ s t t' at told h. (t', refl);
      starves = λ e s none h. h;
      hears = λ s t b bs heard at h. (_, refl);
      says = λ e s t n at h. (_, refl);
    }
