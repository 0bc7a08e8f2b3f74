-- ===== src/Shell/Master/Rounds.antt =====
-- The rounds of the event loop: src/shell/shell.c, master_process and what it calls.
use prom.Prelude.{
  ℕ, zero, suc, ◌+◌, ◌-◌, ◌%◌, ◌^◌, ◌≡◌, refl, Bool, true, false, Option, none, some, List, [], ◌∷◌,
  if◌then◌else◌,
}
use prom.Prelude.Int.{ℤ}
use prom.Prelude.Bytes.{Bytes}
use prom.Machine.{Run, ok, aborted, faulted, exited, stuck, ◌>>◌, and_then, zoom_run}
use prom.Tracer.Env.{Tracer}
use prom.Tracer.Syscalls.{is_minus_one}
use prom.Tracer.ReadString.Bounds.{IsSafe}
use prom.Shell.Desk.{
  Rect, Called, damaged, moved_to, ScreenCell, Vterm, Act, endwin, refresh, move, vterm_free,
  log_error, Console, Desk, Q, with_vterm, through, put_vterm,
}
use prom.Shell.Terminal.{
  or_fail, print_cell, paint_row, paint_rows, damage_callback, movecursor_callback, call_back,
  run_callbacks, screen_call, window_resize, maxyx, to_u16,
}
use prom.Shell.Master.Kept.{HasVterm, moves, nothing, flush, size, IsKept}

-- A run of the shell that neither aborts nor reaches undefined behaviour: it returns where `I`
-- holds, is still going on when its fuel is spent, or exits with status 1, where the terminal has
-- been freed and the screen given back, and then the error has been logged.
pub data Within {T A : Type 0} (I : Desk T → Type 0) : Run (Desk T) A → Type 0 where
  returned : {a : A} {s : Desk T} → I s → Within I (ok a s)
  unfinished : Within I stuck
  quit :
      {n : ℕ} {s : Desk T} (message : Bytes) (before : List Act)
      → n ≡ 1
      → s.trace ≡ log_error message ∷ endwin ∷ vterm_free ∷ before
      → Within I (exited n s)

module _ {T : Type 0} {I : Desk T → Type 0} where
  module _ {A : Type 0} where
    pub Within-bind :
        {B : Type 0} {r : Run (Desk T) B} {f : B → Q T A}
        → Within I r
        → ((b : B) (s : Desk T) → I s → Within I (f b s))
        → Within I (and_then r f)
    Within-bind (returned h) go = go _ _ h
    Within-bind unfinished go = unfinished
    Within-bind (quit message before n e) go = quit message before n e

    pub Within-ok : {r : Run (Desk T) A} {a : A} {s : Desk T} → Within I r → r ≡ ok a s → I s
    Within-ok {s} (returned {s = s'} h) e = let same : s ≡ s' = cc in rw same h
    Within-ok unfinished e = absurd (cc)
    Within-ok (quit message before n e') e = absurd (cc)

    pub Within-if :
        (b : Bool) (m n : Q T A) (s : Desk T)
        → Within I (m s)
        → Within I (n s)
        → Within I ((if b then m else n) s)
    Within-if true m n s yes' no' = yes'
    Within-if false m n s yes' no' = no'

    pub Within-either :
        (b : Bool) (r r' : Run (Desk T) A)
        → Within I r
        → Within I r'
        → Within I (if b then r else r')
    Within-either true r r' yes' no' = yes'
    Within-either false r r' yes' no' = no'

    Within-through :
        (o : Option T) (f : T → Q T A) (s : Desk T) {t : T}
        → o ≡ some t
        → ((t : T) → o ≡ some t → Within I (f t s))
        → Within I (through o f s)
    Within-through none f s e go = cc
    Within-through (some t) f s e go = go t refl

    pub Within-with_vterm :
        (f : T → Q T A) (s : Desk T)
        → HasVterm s
        → ((t : T) → s.vterm ≡ some t → Within I (f t s))
        → Within I (with_vterm f s)
    Within-with_vterm f s (t, e) go = Within-through s.vterm f s e go

    -- The tracer's part of the state.
    pub Within-tracer :
        (r : Run Tracer A) (s : Desk T)
        → IsSafe r
        → ((t : Tracer) → I (record s { tracer = t }))
        → Within I (zoom_run (λ t. record s { tracer = t }) r)
    Within-tracer (ok a t) s safe h = returned (h t)
    Within-tracer aborted s safe h = absurd safe
    Within-tracer faulted s safe h = absurd safe
    Within-tracer (exited n t) s safe h = absurd safe
    Within-tracer stuck s safe h = unfinished

  module _ (v : Vterm T) (k : Console) (kept : IsKept v k I) where
    or_fail-Within :
        (a : Act) (rest : Q T ℤ) (s : Desk T)
        → moves a ≡ nothing
        → I s
        → ((u : Desk T) → I u → Within I (rest u))
        → Within I (or_fail k a rest s)
    or_fail-Within a rest s still h go =
        Within-if (is_minus_one (k.answer s.trace a)) _ _ _ (returned (kept.acts a _ s still h))
          (go _ (kept.acts a _ s still h))

    print_cell-Within :
        (cell : ScreenCell) (row col : ℕ) (s : Desk T)
        → I s
        → Within I (print_cell k cell row col s)
    unfolding print_cell
    print_cell-Within cell row col s h = or_fail-Within _ _ s refl h λ u h1.
        or_fail-Within _ _ u refl h1 λ u' h2. or_fail-Within _ _ u' refl h2 λ u'' h3. returned h3

    paint_row-Within :
        (n : ℕ) (t : T) (row col : ℕ) (s : Desk T) → I s → Within I (paint_row k v n t row col s)
    unfolding paint_row
    paint_row-Within zero t row col s h = returned h
    paint_row-Within (suc n) t row col s h =
        Within-bind (print_cell-Within (v.get_cell t row col) row col s h)
          λ _ u h'. paint_row-Within n t row (col + 1) u h'

    paint_rows-Within :
        (n : ℕ) (t : T) (rect : Rect) (row : ℕ) (s : Desk T)
        → I s
        → Within I (paint_rows k v n t rect row s)
    unfolding paint_rows
    paint_rows-Within zero t rect row s h = returned h
    paint_rows-Within (suc n) t rect row s h =
        Within-bind (paint_row-Within (rect.end_col - rect.start_col) t row rect.start_col s h)
          λ _ u h'. paint_rows-Within n t rect (row + 1) u h'

    call_back-Within : (c : Called T) (s : Desk T) → I s → Within I (call_back k v c s)
    unfolding damage_callback movecursor_callback
    call_back-Within (damaged t rect) s h =
        Within-bind (paint_rows-Within (rect.end_row - rect.start_row) t rect rect.start_row s h)
          λ _ u h'. returned (kept.acts _ u.errno u refl h')
    call_back-Within (moved_to t row col) s h = returned (kept.acts (move row col) _ s refl h)

    run_callbacks-Within :
        (cs : List (Called T)) (s : Desk T) → I s → Within I (run_callbacks k v cs s)
    unfolding run_callbacks
    run_callbacks-Within [] s h = returned h
    run_callbacks-Within (c ∷ cs) s h =
        Within-bind (call_back-Within c s h) λ _ u h'. run_callbacks-Within cs u h'

    -- A call that updates the terminal, whose new state keeps the property.
    pub screen_call-Within :
        (f : T → List (Called T) × T) (s : Desk T)
        → HasVterm s
        → ((t : T) → s.vterm ≡ some t → I (record s { vterm = some (f t).1 }))
        → Within I (screen_call k v f s)
    screen_call-Within f s there keeps =
        Within-with_vterm (λ t. put_vterm (f t).1 >> run_callbacks k v (f t).0) s there
          λ t at. run_callbacks-Within (f t).0 (record s { vterm = some (f t).1 }) (keeps t at)

    -- The screen is left and entered again, and its size is taken.
    abbrev remeasured : Desk T → Desk T
    remeasured s =
        let acts : List Act = refresh ∷ endwin ∷ s.trace in
        record s {
          trace = acts;
          rows = (to_u16 (k.getmaxy acts) + 2 ^ 16 - 1) % 2 ^ 16;
          cols = to_u16 (k.getmaxx acts);
        }

    remeasured-kept : (s : Desk T) → I s → I (remeasured s)
    remeasured-kept s h =
        kept.sizes _ _ (record s { trace = refresh ∷ endwin ∷ s.trace })
          (kept.acts refresh s.errno (record s { trace = endwin ∷ s.trace }) refl
            (kept.acts endwin s.errno s refl h))

    pub window_resize-Within : (s : Desk T) → I s → Within I (window_resize k v s)
    unfolding window_resize maxyx
    window_resize-Within s h =
        Within-bind
          (screen_call-Within v.flush_damage s (kept.there s h) λ t at. kept.tells s t _ at flush h)
          λ _ u h1.
            let h2 = remeasured-kept u h1 in
            Within-bind
              (screen_call-Within (v.set_size _ _) (remeasured u) (kept.there _ h2)
                λ t at. kept.tells _ t _ at size h2)
              λ _ w h3. returned (kept.acts _ w.errno w refl h3)
