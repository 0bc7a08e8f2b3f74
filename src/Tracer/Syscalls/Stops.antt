-- ===== src/Tracer/Syscalls/Stops.antt =====
-- Stops of several processes in any order: src/libtracer/tracer.c, last_syscall.
use prom.Prelude.{
  ℕ, ◌≡◌, ◌≢◌, refl, true, false, some, List, [], ◌∷◌, ◌==◌, if◌then◌else◌, arith, Bool-cases, inl,
  inr, ==_refl,
}
use prom.Prelude.Int.{ℤ, pos}
use prom.Machine.{Cmd, ok, and_then}
use prom.Machine.Returns.{Returns, returns}
use prom.Tracer.Env.{
  Regs, resume, setregs, asked, called_syscall, Env, Callbacks, Tracer, minus_one, Event, Request,
}
use prom.Tracer.Syscalls.{sys_openat, handle_regs}
use prom.Tracer.Syscalls.Alternation.{
  called, handle_regs-entry, handle_regs-exit, handle_regs-denied,
}

-- The stops that are taken for entries, without any state: a stop that shows a call is, and the
-- stop right behind it is taken for its exit if it shows the same call, whichever process it is of.
abbrev pub taken : List Regs → List Regs
taken [] = []
taken (r ∷ []) = if r.orig_rax == minus_one then [] else r ∷ []
taken (r ∷ r' ∷ rs) = elim (r.orig_rax == minus_one) [
  | true ↦ taken (r' ∷ rs)
  | false ↦ r ∷ elim (r'.orig_rax == r.orig_rax) [ true ↦ taken rs | false ↦ taken (r' ∷ rs) ]
]

-- The list, put in front of `seen` in the order of a trace.
abbrev pub onto : List Regs → List Regs → List Regs
onto [] seen = seen
onto (r ∷ rs) seen = onto rs (r ∷ seen)

-- No stop is one of an openat.
abbrev pub NoOpens : List (ℕ × Regs) → Type 0
NoOpens [] = Unit
NoOpens ((pid, r) ∷ stops) = (r.orig_rax ≢ sys_openat) × NoOpens stops

abbrev pub regs_of : List (ℕ × Regs) → List Regs
regs_of [] = []
regs_of ((pid, r) ∷ stops) = r ∷ regs_of stops

-- Behind a stop that was taken for the entry of the call `n`.
abbrev behind : ℕ → List Regs → List Regs
behind n [] = []
behind n (r ∷ rs) = elim (r.orig_rax == n) [ true ↦ taken rs | false ↦ taken (r ∷ rs) ]

taken-none :
    (r : Regs) (rs : List Regs) → (r.orig_rax == minus_one) ≡ true → taken (r ∷ rs) ≡ taken rs
taken-none r [] e = rw e refl
taken-none r (r' ∷ rs) e = rw (e, taken) refl

taken-some :
    (r : Regs) (rs : List Regs)
    → (r.orig_rax == minus_one) ≡ false
    → taken (r ∷ rs) ≡ r ∷ behind r.orig_rax rs
taken-some r [] e = rw e refl
taken-some r (r' ∷ rs) e = rw (e, taken) refl

-- What is taken for entries from a state on.
abbrev from : ℕ → List Regs → List Regs
from last rs = if last == minus_one then taken rs else behind last rs

from-none :
    (last : ℕ) (r : Regs) (rs : List Regs)
    → (r.orig_rax == minus_one) ≡ true
    → from last (r ∷ rs) ≡ taken rs
from-none last r rs e = elim (Bool-cases (last == minus_one)) [
  | inl idle ↦ rw (idle, taken-none r rs e) refl
  | inr busy ↦
      let other : (r.orig_rax == last) ≡ false = ground arith in
      rw (busy, behind, other) (taken-none r rs e)
]

from-exit :
    (r : Regs) (rs : List Regs)
    → (r.orig_rax == minus_one) ≡ false
    → from r.orig_rax (r ∷ rs) ≡ taken rs
from-exit r rs e = rw (e, behind, ==_refl r.orig_rax) refl

from-entry :
    (last : ℕ) (r : Regs) (rs : List Regs)
    → (r.orig_rax == minus_one) ≡ false
    → (r.orig_rax == last) ≡ false
    → from last (r ∷ rs) ≡ r ∷ from r.orig_rax rs
from-entry last r rs e other = elim (Bool-cases (last == minus_one)) [
  | inl idle ↦ rw (idle, e) (taken-some r rs e)
  | inr busy ↦ rw (busy, behind, other, e) (taken-some r rs e)
]

module _ (k : Env) (cbs : Callbacks) (fuel : ℕ) where
  -- handle_syscalls at one stop after the other, of any processes.
  abbrev pub handle_stops : List (ℕ × Regs) → Cmd Tracer ℤ
  handle_stops [] = ok (pos 0)
  handle_stops ((pid, r) ∷ stops) =
      λ s. and_then (handle_regs fuel k cbs pid r s) λ _. handle_stops stops

  handle_stops-from :
      (stops : List (ℕ × Regs)) (s : Tracer) {cb : Regs → Regs}
      → ((t : List Event) (r : Request) → k.grant t r ≡ true)
      → cbs.syscall ≡ some cb
      → NoOpens stops
      → Returns
          (λ _ t. called t.trace ≡ onto (from s.last_syscall (regs_of stops)) (called s.trace))
          (handle_stops stops s)
  handle_stops-from [] s granted set none = elim (Bool-cases (s.last_syscall == minus_one)) [
    | inl idle ↦ rw idle (returns refl)
    | inr busy ↦ rw busy (returns refl)
  ]
  handle_stops-from ((pid, r) ∷ stops) s {cb} granted set (other, more) =
      elim (Bool-cases (r.orig_rax == minus_one)) [
        | inl none ↦
            rw
              (
                handle_regs-denied k cbs pid fuel r s granted (ground arith),
                from-none s.last_syscall r (regs_of stops) none,
              )
              (handle_stops-from stops
                (record {
                  last_syscall = minus_one;
                  trace = asked (resume pid 0) ∷ asked (setregs pid r) ∷ s.trace;
                })
                granted set more)
        | inr real ↦ elim (Bool-cases (r.orig_rax == s.last_syscall)) [
          | inl same ↦
              let same' : r.orig_rax ≡ s.last_syscall = ground arith in
              rw
                (
                  handle_regs-exit k cbs pid fuel r s granted same',
                  ← same',
                  from-exit r (regs_of stops) real,
                )
                (handle_stops-from stops
                  (record {
                    last_syscall = minus_one;
                    trace = asked (resume pid 0) ∷ asked (setregs pid r) ∷ s.trace;
                  })
                  granted set more)
          | inr fresh ↦
              rw
                (
                  handle_regs-entry k cbs pid fuel r s granted set (ground arith) (ground arith)
                      other,
                  from-entry s.last_syscall r (regs_of stops) real fresh,
                )
                (handle_stops-from stops
                  (record {
                    last_syscall = r.orig_rax;
                    trace =
                        asked (resume pid 0)
                        ∷ asked (setregs pid (cb r))
                        ∷ called_syscall r
                        ∷ s.trace;
                  })
                  granted set more)
        ]
      ]

  -- If the kernel grants every request and no call is taken to be in progress, then over any
  -- sequence of stops of any processes, none of them at an openat, the callback for all system
  -- calls is given, once and in order, the stops that show a call, except the one right behind a
  -- stop that it was given, where that shows the same call, whichever process it is of.
  pub handle_stops-taken :
      (stops : List (ℕ × Regs)) (s : Tracer) {cb : Regs → Regs}
      → ((t : List Event) (r : Request) → k.grant t r ≡ true)
      → cbs.syscall ≡ some cb
      → NoOpens stops
      → s.last_syscall ≡ minus_one
      → Returns
          (λ _ t. called t.trace ≡ onto (taken (regs_of stops)) (called s.trace))
          (handle_stops stops s)
  handle_stops-taken stops s granted set none idle =
      let e : from s.last_syscall (regs_of stops) ≡ taken (regs_of stops) = rw idle refl in
      rw (← e) (handle_stops-from stops s granted set none)
