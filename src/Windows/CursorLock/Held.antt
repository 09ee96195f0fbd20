-- ===== src/Windows/CursorLock/Held.antt =====
-- What is held while the cursor is locked, and given back.
use hardware_simulator.Prelude.{
  ℕ, suc, ◌≡◌, refl, sym, ap, ◌∙◌, ◌⊎◌, inl, inr, Bool, true, false, not, ◌&&◌, Option, none, some,
  List, [], ◌∷◌, arith, ◌==◌, if◌then◌else◌, Option-cases, if_both, if_cases, if_true, if_false,
}
use hardware_simulator.Prelude.Int.{ℤ}
use mathlib.Core.Path.{subst}
use hardware_simulator.Windows.CursorLock.{
  LockAnswers, CursorLock, find_flutter_window, subscribe_to_raw_input_data, without_id,
  unregister_delegate, unsubscribe_from_raw_input_data, show_cursor, lock_at, lock_cursor,
  unlock_cursor, unlock_cursor_and_reseed, on_raw_input,
}

-- What is called, and the events of the delegate. A delegate's id is not one of another.
pub data Call : Type 0 where
  lock : LockAnswers → Call
  unlock : Call
  reseed : Call
  raw_input : Bool → Option (ℤ × ℤ) → Call

unfoldable pub step : Call → CursorLock → CursorLock
unfolding lock_cursor unlock_cursor unlock_cursor_and_reseed on_raw_input
step (lock a) s = lock_cursor a s
step unlock s = unlock_cursor s
step reseed s = unlock_cursor_and_reseed s
step (raw_input channel moved) s = on_raw_input channel moved s

unfoldable pub run : List Call → CursorLock → CursorLock
unfolding step
run [] s = s
run (c ∷ cs) s = run cs (step c s)

-- What stands while the cursor is free, and while it is locked.
abbrev pub IsFree : CursorLock → Type 0
IsFree s =
    (s.cursor_locked ≡ false)
    × (s.raw_input_registered ≡ false)
    × (s.raw_input_proc ≡ none)
    × (s.clip ≡ none)
    × (s.device_registered ≡ false)
    × (s.delegates ≡ [])
    × (s.hides ≡ s.shows)

abbrev pub IsTaken : CursorLock → Type 0
IsTaken s =
    (s.cursor_locked ≡ true)
    × (s.raw_input_registered ≡ true)
    × (s.clip ≡ some s.locked_cursor_pos)
    × (s.device_registered ≡ true)
    × ((i : ℕ) × (s.raw_input_proc ≡ some i) × (s.delegates ≡ i ∷ []))
    × (s.hides ≡ suc s.shows)

abbrev pub IsSettled : CursorLock → Type 0
IsSettled s = IsFree s ⊎ IsTaken s

abbrev after_subscription : Bool × CursorLock → CursorLock
after_subscription r =
    if not r.0 then show_cursor true (record r.1 { clip = none; cursor_locked = false }) else r.1

lock_at-IsSettled : (a : LockAnswers) (s : CursorLock) → IsFree s → IsSettled (lock_at a s)
unfolding lock_at subscribe_to_raw_input_data
lock_at-IsSettled a s (lk, rg, pr, cl, dv, dl, hs) =
    let hidden : CursorLock = record s {
      clip = some s.locked_cursor_pos;
      cursor_locked = true;
      hides = suc s.hides;
    } in
    let taken : CursorLock = record hidden {
      device_registered = true;
      raw_input_proc = some a.proc_id;
      delegates = a.proc_id ∷ s.delegates;
      raw_input_registered = true;
    } in
    let P : Bool × CursorLock → Type 0 =
      λ (r : Bool × CursorLock). IsSettled (after_subscription r) in
    let back : P (false, hidden) = inl (refl, rg, pr, refl, dv, dl, ap suc hs) in
    let second : Bool × CursorLock = if not a.registers then (false, hidden) else (true, taken) in
    let first : Bool × CursorLock =
      if not a.windows.has_registrar then (false, hidden) else second in
    if_cases P s.raw_input_registered (true, hidden) first (λ e. absurd (cc))
      (λ e.
        if_both P (not a.windows.has_registrar) (false, hidden) second back
          (if_both P (not a.registers) (false, hidden) (true, taken) back
            (inr
              (refl, refl, refl, refl, (a.proc_id, refl, ap (λ l. a.proc_id ∷ l) dl), ap suc hs))))

lock_cursor-IsSettled :
    (a : LockAnswers) (s : CursorLock) → IsSettled s → IsSettled (lock_cursor a s)
unfolding lock_cursor
lock_cursor-IsSettled a s (inr h) = subst IsSettled (sym (if_true s.cursor_locked s _ h.0)) (inr h)
lock_cursor-IsSettled a s (inl h) =
    let found : CursorLock = record s { main_window = find_flutter_window a.windows } in
    let rest : CursorLock = elim a.cursor_pos [
      | none ↦ found
      | some p ↦
          if not a.clips
          then record found { locked_cursor_pos = p }
          else lock_at a (record found { locked_cursor_pos = p })
    ] in
    if_both IsSettled s.cursor_locked s (if found.main_window == 0 then found else rest) (inl h) (
      if_both IsSettled (found.main_window == 0) found rest (inl h)
        (elim (Option-cases a.cursor_pos) [
          | inl e ↦ rw (e) (inl h)
          | inr (p, e) ↦
              let placed : CursorLock = record found { locked_cursor_pos = p } in
              rw (e) (
                if_both IsSettled (not a.clips) placed (lock_at a placed) (inl h)
                  (lock_at-IsSettled a placed h))
        ]))

-- Without its only delegate the list is empty.
without_id-last : (i : ℕ) → without_id i (i ∷ []) ≡ []
without_id-last i = if_true (i == i) [] (i ∷ []) (ground arith)

unsubscribed :
    (s : CursorLock) (i : ℕ)
    → s.raw_input_registered ≡ true
    → s.raw_input_proc ≡ some i
    → s.delegates ≡ i ∷ []
    → unsubscribe_from_raw_input_data s ≡ record s {
      delegates = [];
      raw_input_proc = none;
      device_registered = false;
      raw_input_registered = false;
    }
unfolding unsubscribe_from_raw_input_data
unsubscribed s i r p d =
    let gone : unregister_delegate s.raw_input_proc s.delegates ≡ [] =
      rw (p, d) (without_id-last i) in
    if_false (not s.raw_input_registered) s _ (ap not r)
    ∙ ap
        (λ (l : List ℕ). record s {
          delegates = l;
          raw_input_proc = none;
          device_registered = false;
          raw_input_registered = false;
        })
        gone

unlock_cursor-IsSettled : (s : CursorLock) → IsSettled s → IsSettled (unlock_cursor s)
unfolding unlock_cursor
unlock_cursor-IsSettled s (inl h) =
    subst IsSettled (sym (if_true (not s.cursor_locked) s _ (ap not h.0))) (inl h)
unlock_cursor-IsSettled s (inr (lk, rg, cl, dv, (i, pr, dl), hs)) =
    let t : CursorLock = record s { clip = none } in
    let e = unsubscribed t i rg pr dl in
    let P : CursorLock → Type 0 = λ (u : CursorLock).
      IsSettled
        (record (show_cursor true (record u { cursor_locked = false })) { main_window = 0 }) in
    subst IsSettled (sym (if_false (not s.cursor_locked) s _ (ap not lk)))
      (subst P (sym e) (inl (refl, refl, refl, refl, refl, refl, hs)))

unlock_cursor_and_reseed-IsSettled :
    (s : CursorLock) → IsSettled s → IsSettled (unlock_cursor_and_reseed s)
unfolding unlock_cursor_and_reseed
unlock_cursor_and_reseed-IsSettled s (inl h) =
    subst IsSettled (sym (if_true (not s.cursor_locked) s _ (ap not h.0))) (inl h)
unlock_cursor_and_reseed-IsSettled s (inr (lk, rg, cl, dv, (i, pr, dl), hs)) =
    let t : CursorLock = record s { clip = none } in
    let e = unsubscribed t i rg pr dl in
    let P : CursorLock → Type 0 = λ (u : CursorLock).
      IsSettled
        (record (show_cursor true
          (record u { cursor_locked = false; reseeds = (s.main_window, u.clip) ∷ u.reseeds })) {
            main_window = 0;
          }) in
    subst IsSettled (sym (if_false (not s.cursor_locked) s _ (ap not lk)))
      (subst P (sym e) (inl (refl, refl, refl, refl, refl, refl, hs)))

step-IsSettled : (c : Call) (s : CursorLock) → IsSettled s → IsSettled (step c s)
unfolding step on_raw_input
step-IsSettled (lock a) s h = lock_cursor-IsSettled a s h
step-IsSettled unlock s h = unlock_cursor-IsSettled s h
step-IsSettled reseed s h = unlock_cursor_and_reseed-IsSettled s h
step-IsSettled (raw_input channel none) s h = h
step-IsSettled (raw_input channel (some d)) s h =
    if_both IsSettled (s.cursor_locked && channel) (record s { moves = d ∷ s.moves }) s h h

-- From a state in which it holds, after any calls and motions, either nothing is held and the cursor is
-- shown as often as hidden, or the cursor is locked, clipped to the place where it was, hidden once more,
-- and the mouse registered with one delegate.
pub run-IsSettled : (cs : List Call) (s : CursorLock) → IsSettled s → IsSettled (run cs s)
unfolding run
run-IsSettled [] s h = h
run-IsSettled (c ∷ cs) s h = run-IsSettled cs (step c s) (step-IsSettled c s h)
