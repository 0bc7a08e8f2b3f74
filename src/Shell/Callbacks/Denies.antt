-- ===== src/Shell/Callbacks/Denies.antt =====
-- What the shell's tracer denies: src/shell/shell.c with src/libtracer/tracer.c.
use prom.Prelude.{
  ℕ, ◌*◌, ◌%◌, ◌^◌, ◌<◌, ◌≡◌, ◌∙◌, ◌≢◌, refl, ◌&&◌, true, List, ◌∷◌, if◌then◌else◌, length,
  Bool-cases, inl, inr, and-false, ap, none, some, fun_ext,
}
use prom.Prelude.Bytes.{Bytes, codes, str_eq}
use prom.Machine.Returns.{Returns}
use prom.Tracer.Env.{
  Callback, Callbacks, Answers, answering, Env, Regs, Request, Event, Tracer, called_read,
  called_write,
}
use prom.Tracer.ReadString.{c_string}
use prom.Tracer.ReadString.Total.{Serves, Grants, concat}
use prom.Tracer.Syscalls.{sys_openat, acc_mode, handle_regs}
use prom.Tracer.Syscalls.Policy.{reads, writes, denies, Entered, openat-Entered}
use prom.Logger.{Disk}
use prom.Shell.Callbacks.{file_write_cb, log_file, answer_of, on_disk, tracer_cbs}
use prom.Shell.Callbacks.Log.{Consulted, read, written, consult, consult-entry, answer}

-- The file that the shell keeps from being written.
abbrev pub protected : Bytes
protected = codes "trace_test.file"

-- What the callbacks answer while their log can be opened.
abbrev pub shell_answers : Answers
shell_answers = record {
  file_read = some (λ path. answer (read path));
  file_write = some (λ path. answer (written path));
  syscall = none;
}

-- The log of the callbacks can be opened at any time.
abbrev pub HasLog : (List Event → Disk) → Type 0
HasLog disk = (es : List Event) → (disk es).opens log_file ≡ true

on_disk-answer :
    (disk : List Event → Disk) (c : Bytes → Consulted)
    → HasLog disk
    → on_disk disk (λ path. consult (c path)) ≡ λ es path. some (answer (c path))
on_disk-answer disk c has =
    fun_ext λ es. fun_ext λ path. ap answer_of (consult-entry (c path) (disk es) (has es))

abbrev pair_of : Callback → Callback → Callbacks
pair_of r w = record { file_read = some r; file_write = some w; syscall = none }

pub tracer_cbs-answering :
    (disk : List Event → Disk) → HasLog disk → tracer_cbs disk ≡ answering shell_answers
unfolding tracer_cbs
tracer_cbs-answering disk has =
    ap (λ r. pair_of r (on_disk disk file_write_cb)) (on_disk-answer disk read has)
    ∙ ap (pair_of _) (on_disk-answer disk written has)

pub denies-shell_answers :
    (mode : ℕ) (path : Bytes)
    → denies shell_answers mode path ≡ (writes mode && str_eq path protected)
denies-shell_answers mode path = elim (Bool-cases (str_eq path protected)) [
  | inl same ↦ rw (same, and-false) refl
  | inr other ↦ rw (other, and-false) refl
]

-- Both callbacks are called, each if the access mode asks for it, that for reads first.
abbrev pub both_shown : ℕ → Bytes → List Event → List Event
both_shown mode path es =
    let shown = if reads mode then called_read path ∷ es else es in
    if writes mode then called_write path ∷ shown else shown

-- If the allocator and the kernel grant every request, the log of the callbacks can be opened, no
-- openat is taken to be in progress, and the path can be read to a NUL within the fuel and below 2
-- ^ 60 bytes, then under the shell's callbacks the entry of an openat is turned into a failing call
-- exactly if the access mode writes and the path is "trace_test.file"; any other openat is set
-- going with its registers as they were. Before that the callback for reads has been called once
-- with the path if the mode reads, and then that for writes if it writes.
pub openat_protected :
    (k : Env) (disk : List Event → Disk) (pid fuel : ℕ) (regs : Regs) (ws : List Bytes)
    (last : Bytes) (s : Tracer)
    → HasLog disk
    → Grants k
    → ((t : List Event) (r : Request) → k.grant t r ≡ true)
    → regs.orig_rax ≡ sys_openat
    → s.last_syscall ≢ sys_openat
    → Serves k pid regs.rsi 0 ws last
    → length ws < fuel
    → 8 * length ws < 2 ^ 60
    → Returns
        (Entered pid s
          (both_shown (acc_mode (regs.rdx % 2 ^ 32)) (c_string (concat ws last)))
          (writes (acc_mode (regs.rdx % 2 ^ 32)) && str_eq (c_string (concat ws last)) protected)
          regs)
        (handle_regs fuel k (tracer_cbs disk) pid regs s)
openat_protected k disk pid fuel regs ws last s has grants granted nr fresh served enough small =
    rw
      (
        tracer_cbs-answering disk has,
        ← denies-shell_answers (acc_mode (regs.rdx % 2 ^ 32)) (c_string (concat ws last)),
      )
      (openat-Entered k grants shell_answers pid fuel regs ws last s refl granted nr fresh served
        enough small)
